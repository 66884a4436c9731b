-- ===== src/Document/Tests.antt =====
-- Changes of a small document, with a splitter that makes one statement of every text that is not
-- empty.
use postgres_lsp.Prelude.{
  ℕ, pos, ◌++◌, ◌+◌, ◌==◌, if◌then◌else◌, panic, Option, ◌≡◌, refl, none, some, List, [], ◌∷◌,
  arith, ok, Outcome,
}
use postgres_lsp.TextSize.Range.{TextRange}
use postgres_lsp.Document.Id.{root}
use postgres_lsp.Document.Content.{Text, byte_len, text_len, index_range, get_affected}
use postgres_lsp.Document.Params.{ChangeFileParams, diff_size, is_addition, apply_to_text}
use postgres_lsp.Document.State.{
  Document, Splitter, SplitResult, parsed, split_with_diagnostics, has_fatal, has_fatal_error,
  number_ranges,
}
use postgres_lsp.Document.State
use postgres_lsp.Document.Affected.{search_positions, move_ranges, move_all}
use postgres_lsp.Document.Affected
use postgres_lsp.Document.Change.{modified, Changed, delete_each, insert_each}
use postgres_lsp.Document.Apply.{
  apply_full_change, modify_statement, reparse, apply_within, apply_range_change, apply_change,
  apply_each, apply_file_change,
}
use postgres_lsp.Document.View.{Tracks}
use postgres_lsp.Document.Reports.{apply_file_change-Tracks}
use postgres_lsp.Document.History.{opened, edited, edited-Tracks}
use postgres_lsp.Document.Reset.{full_change-new, Agrees, Cuts, ranges_of}

one_statement : Text → SplitResult
one_statement [] = parsed [] []
one_statement (c ∷ cs) = parsed (record { start = 0; end = byte_len (c ∷ cs) } ∷ []) []

whole : Splitter
unfolding one_statement
whole t = ok (one_statement t)

-- "a"
small : Document
small = record {
  content = 97 ∷ [];
  version = pos 0;
  diagnostics = [];
  positions = (root 0, record { start = 0; end = 1 }) ∷ [];
  id_generator = record { next_id = 1 };
}

-- The insertion of "b" behind it.
append_b : ChangeFileParams
append_b = record {
  version = pos 1;
  changes = record { range = some (record { start = 1; end = 1 }); text = 98 ∷ [] } ∷ [];
}

-- The changes with all their parts open.
apply_open : Splitter → ChangeFileParams → Document → Outcome Changed
unfolding apply_file_change apply_each apply_change apply_range_change apply_within modify_statement
    reparse apply_full_change Affected.get_affected move_ranges get_affected apply_to_text text_len
    diff_size is_addition split_with_diagnostics has_fatal_error index_range insert_each delete_each
    whole small append_b
apply_open = apply_file_change

appended : Changed
appended = (
  modified (record {
    old_stmt = root 0;
    old_stmt_text = 97 ∷ [];
    new_stmt = root 1;
    new_stmt_text = 97 ∷ 98 ∷ [];
    change_range = record { start = 1; end = 1 };
    change_text = 98 ∷ [];
  })
      ∷ [],
  record {
    content = 97 ∷ 98 ∷ [];
    version = pos 1;
    diagnostics = [];
    positions = (root 1, record { start = 0; end = 2 }) ∷ [];
    id_generator = record { next_id = 2 };
  },
)

append_b_run : apply_file_change whole append_b small ≡ ok appended
unfolding apply_open appended
append_b_run = refl

apply_file_change-Tracks_example : Tracks small appended
unfolding small
apply_file_change-Tracks_example =
    apply_file_change-Tracks whole append_b small appended (omega arith, refl, tt) append_b_run

ab_document : Document
ab_document = record {
  content = 97 ∷ 98 ∷ [];
  version = pos 7;
  diagnostics = [];
  positions = (root 0, record { start = 0; end = 2 }) ∷ [];
  id_generator = record { next_id = 1 };
}

ab_opened : State.new whole (97 ∷ 98 ∷ []) (pos 7) ≡ ok ab_document
unfolding State.new apply_open ab_document
ab_opened = refl

ab-Cuts : Cuts (97 ∷ 98 ∷ []) (ranges_of ab_document.positions)
unfolding index_range ab_document
ab-Cuts = ((97 ∷ 98 ∷ [], refl), tt)

full_change-new_example :
    (c : Changed) × (apply_change whole (record { range = none; text = 97 ∷ 98 ∷ [] }) small ≡ ok c)
    × Agrees c ab_document
full_change-new_example =
    full_change-new whole (97 ∷ 98 ∷ []) small (pos 7) ab_document ab_opened ab-Cuts

-- The runs of characters that are not spaces, from an offset on; `from` is the start of an open run.
words : ℕ → Option ℕ → Text → List TextRange
words at none [] = []
words at (some from) [] = record { start = from; end = at } ∷ []
words at none (c ∷ cs) = words (at + 1) (if c == 32 then none else some at) cs
words at (some from) (c ∷ cs) =
    let closed = record { start = from; end = at } ∷ words (at + 1) none cs in
    let longer = words (at + 1) (some from) cs in if c == 32 then closed else longer

-- A statement for each word.
by_words : Splitter
unfolding words
by_words t = ok (parsed (words 0 none t) [])

-- "a   b c d"
four_words : Document
four_words = record {
  content = 97 ∷ 32 ∷ 32 ∷ 32 ∷ 98 ∷ 32 ∷ 99 ∷ 32 ∷ 100 ∷ [];
  version = pos 0;
  diagnostics = [];
  positions =
      (root 0, record { start = 0; end = 1 })
      ∷ (root 1, record { start = 4; end = 5 })
      ∷ (root 2, record { start = 6; end = 7 })
      ∷ (root 3, record { start = 8; end = 9 })
      ∷ [];
  id_generator = record { next_id = 4 };
}

-- A word of a given length put between the first two.
insert_word : Text → ChangeFileParams
insert_word text = record {
  version = pos 1;
  changes = record { range = some (record { start = 2; end = 2 }); text = text } ∷ [];
}

-- The statements behind the next one have not been moved yet when the new ones are put in: `b` is now
-- at 8, where `d` still stands, and the insertion panics.
insert_word_panics :
    apply_file_change by_words (insert_word (120 ∷ 121 ∷ 122 ∷ 119 ∷ [])) four_words ≡ panic
unfolding apply_open by_words four_words insert_word
insert_word_panics = refl

ranges_after : Outcome Changed → List TextRange
ranges_after (ok c) = ranges_of c.1.positions
ranges_after _ = []

-- With a word of three characters it does not, and `c`, now at 9, is left at 6.
insert_word_stale :
    ranges_after (apply_file_change by_words (insert_word (120 ∷ 121 ∷ 122 ∷ [])) four_words)
    ≡ record { start = 0; end = 1 }
      ∷ record { start = 2; end = 5 }
      ∷ record { start = 6; end = 7 }
      ∷ record { start = 7; end = 8 }
      ∷ record { start = 11; end = 12 }
      ∷ []
unfolding apply_open by_words four_words insert_word ranges_after
insert_word_stale = refl

-- `small` is the document opened on "a".
small_opened : State.new whole (97 ∷ []) (pos 0) ≡ ok small
unfolding State.new apply_open small
small_opened = refl

edited-Tracks_example : Tracks small ([] ++ appended.0, appended.1)
edited-Tracks_example =
    edited-Tracks whole (97 ∷ []) (pos 0) small ([] ++ appended.0) appended.1 small_opened
      (edited [] small opened append_b appended append_b_run)
