-- ===== src/Document/Apply.antt =====
-- The changes of a document: `apply_file_change` and what it calls, of server/change.rs.
use postgres_lsp.Prelude.{
  ℕ, Bool, true, false, Option, none, some, List, [], ◌∷◌, ◌++◌, get_elem?, Outcome, ok, unwrap,
  ◌>>=◌,
}
use mathlib.Core.List.{reverse}
use postgres_lsp.TextSize.Size.{TextSize}
use postgres_lsp.TextSize.Range.{TextRange}
use postgres_lsp.TextSize.Range
use postgres_lsp.Document.Id.{StatementId}
use postgres_lsp.Document.Id
use postgres_lsp.Document.Content.{Text, text_len, index_range, get_affected}
use postgres_lsp.Document.Params.{
  ChangeParams, ChangeFileParams, diff_size, is_addition, apply_to_text,
}
use postgres_lsp.Document.State.{Document, Splitter, split_with_diagnostics, has_fatal_error}
use postgres_lsp.Document.Affected.{Affected, move_ranges}
use postgres_lsp.Document.Affected
use postgres_lsp.Document.Change.{
  Changed, StatementChange, modified, drain_positions, add_ranges, replace_at, delete_each,
  delete_at, insert_each, insert_statement, maybe_index, relative,
}

module _ (split : Splitter) where
  unfoldable pub add_unless_fatal :
      Bool → List StatementChange → List TextRange → Document → Outcome Changed
  unfolding add_ranges
  add_unless_fatal true changes ranges d = ok (changes, d)
  add_unless_fatal false changes ranges d = do
    (more, d') ← add_ranges ranges d
    ok (changes ++ more, d')

  unfoldable pub apply_full_change : ChangeParams → Document → Outcome Changed
  unfolding drain_positions add_unless_fatal
  apply_full_change change d = do
    let (changes, drained) = drain_positions d
    content ← apply_to_text change drained.content
    (ranges, diagnostics) ← split_with_diagnostics split content none
    let d' = record drained { content = content; diagnostics = diagnostics }
    add_unless_fatal (has_fatal_error d') changes ranges d'

  -- A fatal error: all statements go, the new text stays.
  unfoldable pub give_up : Text → Document → Changed
  give_up new_content d =
      let (changes, drained) = drain_positions d in
      (changes, record drained { content = new_content })

  -- The change inside one statement that gives one statement again.
  unfoldable pub modify_statement :
      ChangeParams → TextRange → Text → Text → ℕ → TextRange → TextSize → Document → Outcome Changed
  unfolding Id.next replace_at index_range Range.checked_sub Range.sub Range.add
  modify_statement change change_range new_content changed_content index piece base d = do
    new_range ← Range.add piece base
    (old_id, old_range) ← unwrap (get_elem? d.positions index)
    diff ← diff_size change
    positions ← move_ranges old_range.end diff (is_addition change) d.positions
    let (new_id, generator) = Id.next d.id_generator
    (_, positions') ← replace_at index (new_id, new_range) positions
    old_text ← index_range d.content old_range
    new_text ← index_range changed_content piece
    change_range' ← relative change_range (Range.checked_sub change_range old_range.start)
    ok (
      modified (record {
        old_stmt = old_id;
        old_stmt_text = old_text;
        new_stmt = new_id;
        new_stmt_text = new_text;
        change_range = change_range';
        change_text = change.text;
      })
          ∷ [],
      record d { positions = positions'; id_generator = generator; content = new_content },
    )

  -- The statements around the change are parsed anew.
  unfoldable pub replace_statements :
      ChangeParams → Text → Affected → List TextRange → Document → Outcome Changed
  unfolding delete_each delete_at insert_each insert_statement
  replace_statements change new_content a ranges d = do
    (gone, d') ←
        delete_each
          (maybe_index a.next_index ++ (reverse a.affected_indices ++ maybe_index a.prev_index)) d
    (new, d'') ← insert_each a.full_affected_range.start new_content ranges d'
    diff ← diff_size change
    positions ← move_ranges a.full_affected_range.end diff (is_addition change) d''.positions
    ok (gone ++ new, record d'' { positions = positions; content = new_content })

  unfoldable pub unless_fatal : Bool → Changed → Outcome Changed → Outcome Changed
  unless_fatal true fatal rest = ok fatal
  unless_fatal false fatal rest = rest

  unfoldable pub reparse : ChangeParams → Text → Affected → Document → Outcome Changed
  unfolding replace_statements unless_fatal give_up drain_positions
  reparse change new_content a d = do
    changed_content ← get_affected new_content a.full_affected_range
    (ranges, diagnostics) ←
        split_with_diagnostics split changed_content (some a.full_affected_range.start)
    let d' = record d { diagnostics = diagnostics }
    unless_fatal (has_fatal_error d') (give_up new_content d')
        (replace_statements change new_content a ranges d')

  -- One statement touched: is it one statement again?
  unfoldable pub within_one :
      ChangeParams
      → TextRange
      → Text
      → Text
      → Affected
      → ℕ
      → List TextRange
      → Document
      → Outcome Changed
  within_one change change_range new_content changed_content a index (piece ∷ []) d =
      modify_statement change change_range new_content changed_content index piece
        a.affected_range.start d
  within_one change change_range new_content changed_content a index [] d =
      reparse change new_content a d
  within_one change change_range new_content changed_content a index (p ∷ q ∷ rest) d =
      reparse change new_content a d

  unfoldable pub apply_within :
      ChangeParams → TextRange → Text → Affected → ℕ → Document → Outcome Changed
  unfolding within_one unless_fatal give_up drain_positions
  apply_within change change_range new_content a index d = do
    changed_content ← get_affected new_content a.affected_range
    (ranges, diagnostics) ←
        split_with_diagnostics split changed_content (some a.affected_range.start)
    let d' = record d { diagnostics = diagnostics }
    unless_fatal (has_fatal_error d') (give_up new_content d')
        (within_one change change_range new_content changed_content a index ranges d')

  unfoldable pub by_indices :
      ChangeParams → TextRange → Text → Affected → List ℕ → Document → Outcome Changed
  by_indices change change_range new_content a (index ∷ []) d =
      apply_within change change_range new_content a index d
  by_indices change change_range new_content a [] d = reparse change new_content a d
  by_indices change change_range new_content a (i ∷ j ∷ rest) d = reparse change new_content a d

  unfoldable pub apply_range_change : ChangeParams → TextRange → Document → Outcome Changed
  unfolding by_indices
  apply_range_change change change_range d = do
    new_content ← apply_to_text change d.content
    content_size ← text_len new_content
    diff ← diff_size change
    a ← Affected.get_affected d.positions change_range content_size diff (is_addition change)
    by_indices change change_range new_content a a.affected_indices d

  unfoldable pub apply_by_range : ChangeParams → Option TextRange → Document → Outcome Changed
  apply_by_range change none d = apply_full_change change d
  apply_by_range change (some range) d = apply_range_change change range d

  unfoldable pub apply_change : ChangeParams → Document → Outcome Changed
  unfolding apply_by_range
  apply_change change d = apply_by_range change change.range d

  unfoldable pub apply_each : List ChangeParams → Document → Outcome Changed
  apply_each [] d = ok ([], d)
  apply_each (c ∷ cs) d = do
    (first, d') ← apply_change c d
    (rest, d'') ← apply_each cs d'
    ok (first ++ rest, d'')

  unfoldable pub apply_file_change : ChangeFileParams → Document → Outcome Changed
  apply_file_change params d = do
    (changes, d') ← apply_each params.changes (record d { diagnostics = [] })
    ok (changes, record d' { version = params.version })
