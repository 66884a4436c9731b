-- ===== src/Document/Mirror.antt =====
-- Whatever the splitter returns, a change keeps the identifiers distinct, and what it reports is what
-- it does to the set of statements.
use postgres_lsp.Prelude.{
  ℕ, suc, IfOk-unwrap, get_elem?, ◌≡◌, refl, sym, ◌||◌, Bool, true, false, some, List, ◌++◌, arith,
  Outcome, IfOk, IfOk-bind, IfOk-any, IfOk-map, IfOk-both, not, ◌&&◌, ◌||◌,
}
use mathlib.Core.List.{reverse}
use postgres_lsp.TextSize.Range.{TextRange}
use postgres_lsp.TextSize.Range
use postgres_lsp.Document.Id.{StatementId, root, child, id_eq, StatementIdGenerator}
use postgres_lsp.Document.Id
use postgres_lsp.Document.Content.{Text, index_range, get_affected}
use postgres_lsp.Document.State.{
  Document, StatementPos, Splitter, split_with_diagnostics, has_fatal_error,
}
use postgres_lsp.Document.Params.{ChangeParams, diff_size, is_addition}
use postgres_lsp.Document.Affected.{Affected}
use postgres_lsp.Document.Apply.{
  replace_statements, unless_fatal, give_up, reparse, modify_statement,
}
use postgres_lsp.Document.Change.{Changed, drain_positions, replace_at, maybe_index, relative}
use postgres_lsp.Document.View.{has, IsNumbered, Tracks}
use postgres_lsp.Document.Tracking.{
  Tracks-then, delete_each-Tracks, insert_each-Tracks, move-Tracks, Tracks-from,
}
use postgres_lsp.Document.Steps.{
  replay-delete_all, SameIds, SameIds-has, SameIds-Numbered, SameIds-get, replace_at-old,
  move_ranges-SameIds, Swaps, replace_at-Swaps,
}

module _ (split : Splitter) where
  pub replace_statements-Tracks :
      (c : ChangeParams) (text : Text) (a : Affected) (rs : List TextRange) (d : Document)
      → IsNumbered d
      → IfOk (Tracks d) (replace_statements split c text a rs d)
  unfolding replace_statements
  replace_statements-Tracks c text a rs d h =
      IfOk-bind (Tracks d) (Tracks d) _ _
        (delete_each-Tracks
          (maybe_index a.next_index ++ (reverse a.affected_indices ++ maybe_index a.prev_index)) d
          h)
        λ gone t.
          IfOk-bind (Tracks gone.1) (Tracks d) _ _
            (insert_each-Tracks a.full_affected_range.start text rs gone.1 t.numbered)
            λ new u. IfOk-any (Tracks d) (diff_size c) _ λ diff.
              IfOk-bind
                (λ ps. Tracks d (gone.0 ++ new.0, record new.1 { positions = ps; content = text }))
                (Tracks d) _ _
                (move-Tracks a.full_affected_range.end diff (is_addition c) d new.1
                  (gone.0 ++ new.0) text (Tracks-then d gone.1 new.1 gone.0 new.0 t u))
                λ ps v. v

  -- A fatal error drops the statements; else the rest is run.
  pub fatal_or :
      (b : Bool) (text : Text) (d e : Document) (m : Outcome Changed)
      → e.positions ≡ d.positions
      → e.id_generator ≡ d.id_generator
      → IfOk (Tracks d) m
      → IfOk (Tracks d) (unless_fatal split b (give_up split text e) m)
  unfolding unless_fatal give_up drain_positions
  fatal_or true text d e m p q h = record {
    numbered = tt;
    grows = rw (← q) (omega arith);
    mirror = λ id. rw (← p) (sym (replay-delete_all id e.positions));
  }
  fatal_or false text d e m p q h = h

  pub reparse-Tracks :
      (c : ChangeParams) (text : Text) (a : Affected) (d : Document)
      → IsNumbered d
      → IfOk (Tracks d) (reparse split c text a d)
  unfolding reparse
  reparse-Tracks c text a d h =
      IfOk-any (Tracks d) (get_affected text a.full_affected_range) _ λ piece.
        IfOk-any (Tracks d) (split_with_diagnostics split piece (some a.full_affected_range.start))
          _
          λ r.
            let d' : Document = record d { diagnostics = r.1 } in
            fatal_or (has_fatal_error d') text d d' (replace_statements split c text a r.0 d') refl
              refl
              (IfOk-map (Tracks d') (Tracks d) _ (replace_statements-Tracks c text a r.0 d' h)
                λ u t. Tracks-from d d' u refl refl t)

  pub modify_statement-Tracks :
      (c : ChangeParams) (range : TextRange) (text piece_text : Text) (i : ℕ) (piece : TextRange)
      (base : ℕ) (d : Document)
      → IsNumbered d
      → IfOk (Tracks d) (modify_statement split c range text piece_text i piece base d)
  unfolding modify_statement Id.next
  modify_statement-Tracks c range text piece_text i piece base d h =
      IfOk-any T (Range.add piece base) _ λ new_range.
        IfOk-bind (λ p. get_elem? d.positions i ≡ some p) T _ _
          (IfOk-unwrap (get_elem? d.positions i))
          λ old found. IfOk-any T (diff_size c) _ λ diff.
            IfOk-bind (SameIds d.positions) T _ _
              (move_ranges-SameIds old.1.end diff (is_addition c) d.positions)
              λ ps same. IfOk-bind (Swapped ps) T _ _ (swapped new_range ps same) λ q s.
                IfOk-any T (index_range d.content old.1) _ λ old_text.
                  IfOk-any T (index_range piece_text piece) _ λ new_text.
                    IfOk-any T (relative range (Range.checked_sub range old.1.start)) _
                      λ relative_range. record {
                        numbered = s.0.numbered;
                        grows = omega arith;
                        mirror = λ j. mirrored old ps q found same s j;
                      }
    where
      n : ℕ
      n = d.id_generator.next_id

      T : Changed → Type 0
      T = Tracks d

      Swapped : List StatementPos → StatementPos × List StatementPos → Type 0
      Swapped ps q = Swaps (suc n) q.0.0 (root n) ps q.1 × (get_elem? ps i ≡ some q.0)

      swapped :
          (r : TextRange) (ps : List StatementPos)
          → SameIds d.positions ps
          → IfOk (Swapped ps) (replace_at i (root n, r) ps)
      swapped r ps same =
          IfOk-both _ _ _ (replace_at-Swaps n i r ps (SameIds-Numbered n d.positions ps same h))
            (replace_at-old i (root n, r) ps)

      mirrored :
          (old : StatementPos) (ps : List StatementPos) (q : StatementPos × List StatementPos)
          → get_elem? d.positions i ≡ some old
          → SameIds d.positions ps
          → Swapped ps q
          → (j : StatementId)
          → has j q.1 ≡ (id_eq j (root n) || (not (id_eq j old.0) && has j d.positions))
      mirrored old ps q found same s j =
          rw
            (
              ← SameIds-get i d.positions ps old q.0 same found s.1,
              ← SameIds-has j d.positions ps same,
            )
            (s.0.mirror j)
