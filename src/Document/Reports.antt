-- ===== src/Document/Reports.antt =====
-- Whatever the splitter returns, a change of a document keeps the identifiers distinct, and what it
-- reports is what it does to the set of statements.
use postgres_lsp.Prelude.{
  ℕ, ◌≡◌, refl, Bool, true, false, Option, none, some, List, [], ◌∷◌, arith, ok, IfOk, IfOk-bind,
  IfOk-any, IfOk-map, IfOk-value,
}
use postgres_lsp.TextSize.Range.{TextRange}
use postgres_lsp.Document.Content.{Text, get_affected}
use postgres_lsp.Document.State.{Document, Splitter, split_with_diagnostics, has_fatal_error}
use postgres_lsp.Document.Params.{ChangeParams, diff_size, is_addition}
use postgres_lsp.Document.Affected.{Affected, move_ranges}
use postgres_lsp.Document.Apply.{
  within_one, apply_within, by_indices, apply_range_change, apply_by_range, apply_change,
  apply_each, apply_file_change, add_unless_fatal, apply_full_change,
}
use postgres_lsp.Document.Change.{StatementChange, Changed, drain_positions}
use postgres_lsp.Document.View.{IsNumbered, Tracks}
use postgres_lsp.Document.Mirror.{fatal_or, reparse-Tracks, modify_statement-Tracks}
use postgres_lsp.Document.Params.{ChangeFileParams, apply_to_text}
use postgres_lsp.Document.Content.{text_len}
use postgres_lsp.Document.Affected
use postgres_lsp.Document.Tracking.{Tracks-then, drain-Tracks, add_ranges-Tracks, Tracks-from}

module _ (split : Splitter) where
  within_one-Tracks :
      (c : ChangeParams) (range : TextRange) (text piece : Text) (a : Affected) (i : ℕ)
      (rs : List TextRange) (d : Document)
      → IsNumbered d
      → IfOk (Tracks d) (within_one split c range text piece a i rs d)
  unfolding within_one
  within_one-Tracks c range text piece a i [] d h = reparse-Tracks split c text a d h
  within_one-Tracks c range text piece a i (r ∷ []) d h =
      modify_statement-Tracks split c range text piece i r _ d h
  within_one-Tracks c range text piece a i (r ∷ q ∷ rs) d h = reparse-Tracks split c text a d h

  apply_within-Tracks :
      (c : ChangeParams) (range : TextRange) (text : Text) (a : Affected) (i : ℕ) (d : Document)
      → IsNumbered d
      → IfOk (Tracks d) (apply_within split c range text a i d)
  unfolding apply_within
  apply_within-Tracks c range text a i d h =
      IfOk-any (Tracks d) (get_affected text a.affected_range) _ λ piece.
        IfOk-any (Tracks d) (split_with_diagnostics split piece (some a.affected_range.start)) _
          λ r.
            let d' : Document = record d { diagnostics = r.1 } in
            fatal_or split (has_fatal_error d') text d d'
              (within_one split c range text piece a i r.0 d') refl refl
              (IfOk-map (Tracks d') (Tracks d) _ (within_one-Tracks c range text piece a i r.0 d' h)
                λ u t. Tracks-from d d' u refl refl t)

  by_indices-Tracks :
      (c : ChangeParams) (range : TextRange) (text : Text) (a : Affected) (is : List ℕ)
      (d : Document)
      → IsNumbered d
      → IfOk (Tracks d) (by_indices split c range text a is d)
  unfolding by_indices
  by_indices-Tracks c range text a [] d h = reparse-Tracks split c text a d h
  by_indices-Tracks c range text a (i ∷ []) d h = apply_within-Tracks c range text a i d h
  by_indices-Tracks c range text a (i ∷ j ∷ is) d h = reparse-Tracks split c text a d h

  apply_range_change-Tracks :
      (c : ChangeParams) (range : TextRange) (d : Document)
      → IsNumbered d
      → IfOk (Tracks d) (apply_range_change split c range d)
  unfolding apply_range_change
  apply_range_change-Tracks c range d h = IfOk-any (Tracks d) (apply_to_text c d.content) _ λ text.
      IfOk-any (Tracks d) (text_len text) _ λ size. IfOk-any (Tracks d) (diff_size c) _ λ diff.
        IfOk-any (Tracks d) (Affected.get_affected d.positions range size diff (is_addition c)) _
          λ a. by_indices-Tracks c range text a a.affected_indices d h

  add_unless_fatal-Tracks :
      (b : Bool) (d e : Document) (cs : List StatementChange) (rs : List TextRange)
      → Tracks d (cs, e)
      → IfOk (Tracks d) (add_unless_fatal split b cs rs e)
  unfolding add_unless_fatal
  add_unless_fatal-Tracks true d e cs rs t = t
  add_unless_fatal-Tracks false d e cs rs t =
      IfOk-bind (Tracks e) (Tracks d) _ _ (add_ranges-Tracks rs e t.numbered)
        λ u v. Tracks-then d e u.1 cs u.0 t v

  apply_full_change-Tracks :
      (c : ChangeParams) (d : Document) → IfOk (Tracks d) (apply_full_change split c d)
  unfolding apply_full_change
  apply_full_change-Tracks c d =
      let drained : Document = (drain_positions d).1 in
      IfOk-any (Tracks d) (apply_to_text c drained.content) _ λ text.
        IfOk-any (Tracks d) (split_with_diagnostics split text none) _ λ r.
          let e : Document = record drained { content = text; diagnostics = r.1 } in
          let t = drain-Tracks d in
          add_unless_fatal-Tracks (has_fatal_error e) d e (drain_positions d).0 r.0
            (record { numbered = t.numbered; grows = t.grows; mirror = t.mirror })

  apply_change-Tracks :
      (c : ChangeParams) (d : Document) → IsNumbered d → IfOk (Tracks d) (apply_change split c d)
  unfolding apply_change
  apply_change-Tracks c d h = by_range c.range
    where
      by_range : (r : Option TextRange) → IfOk (Tracks d) (apply_by_range split c r d)
      by_range none = unfold apply_by_range in apply_full_change-Tracks c d
      by_range (some range) = unfold apply_by_range in apply_range_change-Tracks c range d h

  apply_each-Tracks :
      (cs : List ChangeParams) (d : Document)
      → IsNumbered d
      → IfOk (Tracks d) (apply_each split cs d)
  unfolding apply_each
  apply_each-Tracks [] d h = record { numbered = h; grows = omega arith; mirror = λ id. refl }
  apply_each-Tracks (c ∷ cs) d h =
      IfOk-bind (Tracks d) (Tracks d) _ _ (apply_change-Tracks c d h) λ u t.
        IfOk-bind (Tracks u.1) (Tracks d) _ _ (apply_each-Tracks cs u.1 t.numbered)
          λ v w. Tracks-then d u.1 v.1 u.0 v.0 t w

  -- Let the identifiers of the statements be distinct roots below the generator's next number, and let
  -- `apply_file_change` return, whatever the splitter says of each text. Then the identifiers are so
  -- again, the generator has not gone back, and the changes reported, applied in their order to the
  -- statements before, give exactly the statements behind: `added` puts one in, `deleted` takes one
  -- out and `modified` puts the new one in the place of the old.
  pub apply_file_change-Tracks :
      (params : ChangeFileParams) (d : Document) (c : Changed)
      → IsNumbered d
      → apply_file_change split params d ≡ ok c
      → Tracks d c
  unfolding apply_file_change
  apply_file_change-Tracks params d c h run = IfOk-value (Tracks d) _ c tracked run
    where
      cleared : Document
      cleared = record d { diagnostics = [] }

      tracked : IfOk (Tracks d) (apply_file_change split params d)
      tracked =
          IfOk-bind (Tracks cleared) (Tracks d) _ _ (apply_each-Tracks params.changes cleared h)
            λ u t. record { numbered = t.numbered; grows = t.grows; mirror = t.mirror }
