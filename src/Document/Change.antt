-- ===== src/Document/Change.antt =====
-- What a change reports, and the steps that change the list of statements: server/change.rs.
use postgres_lsp.Prelude.{
  ℕ, zero, suc, Option, none, some, List, [], ◌∷◌, ◌++◌, ◌==◌, ltb, if◌then◌else◌, Outcome, ok,
  panic, ◌>>=◌,
}
use postgres_lsp.TextSize.Size.{TextSize}
use postgres_lsp.TextSize.Range.{TextRange}
use postgres_lsp.TextSize.Range
use postgres_lsp.Document.Id.{StatementId}
use postgres_lsp.Document.Id
use postgres_lsp.Document.Content.{Text, index_range}
use postgres_lsp.Document.State.{Document, StatementPos}

pub record AddedStatement : Type 0 where
  pub stmt : StatementId
  pub text : Text

pub record ModifiedStatement : Type 0 where
  pub old_stmt : StatementId
  pub old_stmt_text : Text
  pub new_stmt : StatementId
  pub new_stmt_text : Text
  pub change_range : TextRange
  pub change_text : Text

pub data StatementChange : Type 0 where
  added : AddedStatement → StatementChange
  deleted : StatementId → StatementChange
  modified : ModifiedStatement → StatementChange

-- `StatementChange::statement`
unfoldable pub statement : StatementChange → StatementId
statement (added s) = s.stmt
statement (deleted s) = s
statement (modified s) = s.new_stmt

-- The changes reported and the document behind them.
abbrev pub Changed : Type 0
Changed = List StatementChange × Document

unfoldable pub delete_all : List StatementPos → List StatementChange
delete_all [] = []
delete_all ((id, range) ∷ rest) = deleted id ∷ delete_all rest

unfoldable pub drain_positions : Document → Changed
unfolding delete_all
drain_positions d = (delete_all d.positions, record d { positions = [] })

-- The loop of `apply_full_change` over the ranges.
unfoldable pub add_ranges : List TextRange → Document → Outcome Changed
unfolding Id.next index_range
add_ranges [] d = ok ([], d)
add_ranges (range ∷ rest) d = do
  let (id, generator) = Id.next d.id_generator
  text ← index_range d.content range
  (changes, d') ←
      add_ranges rest
        (record d { id_generator = generator; positions = d.positions ++ (id, range) ∷ [] })
  ok (added (record { stmt = id; text = text }) ∷ changes, d')

-- `Vec::insert` at the place that `binary_search_by` gives for a start: in front of the first range
-- that starts behind it. Over the sorted positions this is its documented result; a range with the
-- same start is its `Ok`, at which `unwrap_err` panics.
unfoldable pub insert_sorted : StatementPos → List StatementPos → Outcome (List StatementPos)
insert_sorted (id, range) [] = ok ((id, range) ∷ [])
insert_sorted (id, range) ((id', range') ∷ rest) =
    let later = (do rest' ← insert_sorted (id, range) rest; ok ((id', range') ∷ rest')) in
    if range'.start == range.start
    then panic
    else if ltb range'.start range.start
    then later
    else ok ((id, range) ∷ (id', range') ∷ rest)

-- `Vec::remove`, with the entry removed.
unfoldable pub remove_at : ℕ → List StatementPos → Outcome (StatementPos × List StatementPos)
remove_at i [] = panic
remove_at zero (p ∷ ps) = ok (p, ps)
remove_at (suc i) (p ∷ ps) = do (q, rest) ← remove_at i ps; ok (q, p ∷ rest)

-- `self.positions[i] = p`, with the entry that stood there.
unfoldable pub replace_at :
    ℕ → StatementPos → List StatementPos → Outcome (StatementPos × List StatementPos)
replace_at i p [] = panic
replace_at zero p (q ∷ qs) = ok (q, p ∷ qs)
replace_at (suc i) p (q ∷ qs) = do (old, rest) ← replace_at i p qs; ok (old, q ∷ rest)

unfoldable pub insert_statement : TextRange → Document → Outcome (StatementId × Document)
unfolding Id.next insert_sorted
insert_statement range d = do
  let (id, generator) = Id.next d.id_generator
  positions ← insert_sorted (id, range) d.positions
  ok (id, record d { id_generator = generator; positions = positions })

-- Deletes the statement at an index.
unfoldable pub delete_at : ℕ → Document → Outcome Changed
unfolding remove_at
delete_at i d = do
  (gone, positions) ← remove_at i d.positions
  ok (deleted gone.0 ∷ [], record d { positions = positions })

unfoldable pub delete_each : List ℕ → Document → Outcome Changed
delete_each [] d = ok ([], d)
delete_each (i ∷ is) d = do
  (one, d') ← delete_at i d
  (rest, d'') ← delete_each is d'
  ok (one ++ rest, d'')

abbrev pub maybe_index : Option ℕ → List ℕ
maybe_index none = []
maybe_index (some i) = i ∷ []

-- The loop over the new ranges: `base` is the start of the affected text.
unfoldable pub insert_each : TextSize → Text → List TextRange → Document → Outcome Changed
unfolding Range.add index_range
insert_each base new_content [] d = ok ([], d)
insert_each base new_content (range ∷ rest) d = do
  actual_range ← Range.add range base
  (id, d') ← insert_statement actual_range d
  text ← index_range new_content actual_range
  (changes, d'') ← insert_each base new_content rest d'
  ok (added (record { stmt = id; text = text }) ∷ changes, d'')

abbrev pub relative : TextRange → Option TextRange → Outcome TextRange
relative change (some r) = ok r
relative change none = Range.sub change change.start
