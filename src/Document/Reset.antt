-- ===== src/Document/Reset.antt =====
-- A change of the whole text against a document opened on that text.
use postgres_lsp.Prelude.{
  ℕ, ℤ, suc, ◌≡◌, refl, sym, ap, ◌∙◌, true, false, Option, none, List, [], ◌∷◌, ◌++◌, map,
  append-nil, ok, >>=-eq-ok, Bool-cases, inl, inr, IfOk, IfOk-bind, IfOk-value, IfOk-any,
}
use mathlib.Core.Path.{subst}
use postgres_lsp.TextSize.Range.{TextRange}
use postgres_lsp.Document.Id.{StatementIdGenerator, root}
use postgres_lsp.Document.Id
use postgres_lsp.Document.Content.{Text, index_range}
use postgres_lsp.Document.Params.{ChangeParams, apply_to_text}
use postgres_lsp.Document.State.{
  Document, StatementPos, Splitter, SplitResult, parsed, failed, Diagnostic, Severity, error, fatal,
  split_with_diagnostics, unified, shift_all, shift_span, has_fatal, has_fatal_error, number_ranges,
}
use postgres_lsp.Document.State
use postgres_lsp.Document.Change.{added, Changed, drain_positions, add_ranges}
use postgres_lsp.Document.Apply.{apply_change, apply_by_range, apply_full_change, add_unless_fatal}

abbrev pub ranges_of : List StatementPos → List TextRange
ranges_of ps = map (λ p. p.1) ps

-- Every range cuts a piece out of the text.
abbrev pub Cuts : Text → List TextRange → Type 0
Cuts text [] = Unit {0}
Cuts text (r ∷ rs) = ((piece : Text) × (index_range text r ≡ ok piece)) × Cuts text rs

ranges_of-number_ranges :
    (g : StatementIdGenerator) (rs : List TextRange) → ranges_of (number_ranges g rs).0 ≡ rs
unfolding number_ranges Id.next
ranges_of-number_ranges g [] = refl
ranges_of-number_ranges g (r ∷ rs) = ap (◌∷◌ r) (ranges_of-number_ranges _ rs)

-- The document with ranges added behind its own.
record Extended (d : Document) (rs : List TextRange) (c : Changed) : Type 0 where
  content : c.1.content ≡ d.content
  diagnostics : c.1.diagnostics ≡ d.diagnostics
  ranges : ranges_of c.1.positions ≡ ranges_of d.positions ++ rs

ranges_of-push :
    (ps : List StatementPos) (p : StatementPos) (rs : List TextRange)
    → ranges_of (ps ++ p ∷ []) ++ rs ≡ ranges_of ps ++ (p.1 ∷ rs)
ranges_of-push [] p rs = refl
ranges_of-push (q ∷ ps) p rs = ap (◌∷◌ q.1) (ranges_of-push ps p rs)

add_ranges-Extended :
    (rs : List TextRange) (d : Document)
    → Cuts d.content rs
    → (c : Changed) × (add_ranges rs d ≡ ok c) × Extended d rs c
unfolding add_ranges Id.next
add_ranges-Extended [] d cuts = (
  ([], d),
  refl,
  record { content = refl; diagnostics = refl; ranges = sym (append-nil (ranges_of d.positions)) },
)
add_ranges-Extended (r ∷ rs) d ((piece, cut), cuts) =
    let d' : Document = record d {
      id_generator = record { next_id = suc d.id_generator.next_id };
      positions = d.positions ++ (root d.id_generator.next_id, r) ∷ [];
    } in
    let (c, run, e) = add_ranges-Extended rs d' cuts in
    (
      (added (record { stmt = root d.id_generator.next_id; text = piece }) ∷ c.0, c.1),
      rw (cut, run),
      record {
        content = e.content;
        diagnostics = e.diagnostics;
        ranges = e.ranges ∙ ranges_of-push d.positions (root d.id_generator.next_id, r) rs;
      },
    )

has_fatal-shift_all :
    (o : ℕ) (ss : List (Option TextRange))
    → IfOk (λ ds. has_fatal ds ≡ false) (shift_all error o ss)
unfolding shift_all has_fatal
has_fatal-shift_all o [] = refl
has_fatal-shift_all o (s ∷ ss) =
    IfOk-any (λ ds. has_fatal ds ≡ false) (shift_span o s) _
      λ first.
        IfOk-bind (λ ds. has_fatal ds ≡ false) (λ ds. has_fatal ds ≡ false) _ _
          (has_fatal-shift_all o ss) λ ds h. h

-- A fatal error leaves no ranges.
abbrev NoneIfFatal : List TextRange × List Diagnostic → Type 0
NoneIfFatal q = has_fatal q.1 ≡ true → q.0 ≡ []

unified-NoneIfFatal : (o : ℕ) (r : SplitResult) → IfOk NoneIfFatal (unified o r)
unfolding unified
unified-NoneIfFatal o (parsed rs errors) =
    IfOk-bind (λ ds. has_fatal ds ≡ false) NoneIfFatal _ _ (has_fatal-shift_all o errors)
      λ ds none_is h. cc
unified-NoneIfFatal o (failed errors) =
    IfOk-any NoneIfFatal (shift_all fatal o errors) _ λ ds h. refl

split-NoneIfFatal :
    (split : Splitter) (text : Text) (o : Option ℕ)
    → IfOk NoneIfFatal (split_with_diagnostics split text o)
unfolding split_with_diagnostics
split-NoneIfFatal split text o = IfOk-any NoneIfFatal (split text) _ λ r. unified-NoneIfFatal _ r

-- What the change of the whole text leaves agrees with a document opened on the text.
pub record Agrees (c : Changed) (e : Document) : Type 0 where
  pub content : c.1.content ≡ e.content
  pub diagnostics : c.1.diagnostics ≡ e.diagnostics
  pub ranges : ranges_of c.1.positions ≡ ranges_of e.positions

module _ (split : Splitter) (text : Text) (d : Document) where
  abbrev whole : ChangeParams
  whole = record { range = none; text = text }

  abbrev opened : ℤ → List TextRange → List Diagnostic → Document
  opened v rs ds = record {
    content = text;
    version = v;
    diagnostics = ds;
    positions = (number_ranges Id.new rs).0;
    id_generator = (number_ranges Id.new rs).1;
  }

  new-opened :
      (v : ℤ) (e : Document)
      → State.new split text v ≡ ok e
      → (q : List TextRange × List Diagnostic) × (split_with_diagnostics split text none ≡ ok q)
        × (opened v q.0 q.1 ≡ e)
  unfolding State.new
  new-opened v e h =
      let (q, run, made) = >>=-eq-ok (split_with_diagnostics split text none) _ h in
      (q, run, cc made)

  emptied : List Diagnostic → Document
  emptied ds = record d { content = text; diagnostics = ds; positions = [] }

  full-Agrees :
      (v : ℤ) (rs : List TextRange) (ds : List Diagnostic)
      → NoneIfFatal (rs, ds)
      → Cuts text rs
      → (c : Changed) × (add_unless_fatal split (has_fatal ds) (drain_positions d).0 rs (emptied ds)
          ≡ ok c)
        × Agrees c (opened v rs ds)
  unfolding add_unless_fatal emptied
  full-Agrees v rs ds none_is cuts = elim (Bool-cases (has_fatal ds)) [
    | inl yes_fatal ↦ (
      ((drain_positions d).0, emptied ds),
      rw yes_fatal,
      record {
        content = refl;
        diagnostics = refl;
        ranges = sym (ranges_of-number_ranges Id.new rs ∙ none_is yes_fatal);
      },
    )
    | inr no_fatal ↦
        let (c, run, x) = add_ranges-Extended rs (emptied ds) cuts in
        (
          ((drain_positions d).0 ++ c.0, c.1),
          rw (no_fatal, add_unless_fatal) (rw run),
          record {
            content = x.content;
            diagnostics = x.diagnostics;
            ranges = x.ranges ∙ sym (ranges_of-number_ranges Id.new rs);
          },
        )
  ]

  full-run :
      (q : List TextRange × List Diagnostic) (c : Changed)
      → split_with_diagnostics split text none ≡ ok q
      → add_unless_fatal split (has_fatal q.1) (drain_positions d).0 q.0 (emptied q.1) ≡ ok c
      → apply_change split whole d ≡ ok c
  unfolding apply_change apply_by_range apply_full_change apply_to_text emptied drain_positions
      has_fatal_error
  full-run q c run ran = rw run ran

  -- Where a document can be opened on a text, and each of its ranges cuts a piece out of the text, a
  -- change of the whole text succeeds on every document, and leaves the content, the diagnostics and
  -- the statement ranges of the document opened on the text.
  pub full_change-new :
      (v : ℤ) (e : Document)
      → State.new split text v ≡ ok e
      → Cuts text (ranges_of e.positions)
      → (c : Changed) × (apply_change split (record { range = none; text = text }) d ≡ ok c)
        × Agrees c e
  full_change-new v e h cuts =
      let (q, run, made) = new-opened v e h in
      let cut : Cuts text q.0 =
        subst (Cuts text)
          (sym (ap (λ (x : Document). ranges_of x.positions) made)
            ∙ ranges_of-number_ranges Id.new q.0)
          cuts in
      let (c, ran, a) =
        full-Agrees v q.0 q.1 (IfOk-value NoneIfFatal _ q (split-NoneIfFatal split text none) run)
          cut in
      (c, full-run q c run ran, subst (Agrees c) made a)
