-- ===== src/Parsed/Tests.antt =====
-- A parsed document of one statement, a function with the body "b".
use postgres_lsp.Prelude.{
  ℕ, zero, suc, pos, ◌+◌, ◌≡◌, refl, Option, none, some, List, [], ◌∷◌, arith, Outcome, ok, ◌>>=◌,
  if◌then◌else◌, ◌==◌, false,
}
use postgres_lsp.TextSize.Range.{TextRange}
use postgres_lsp.TextSize.Range
use postgres_lsp.Document.Id.{root, child, id_eq, create_child, get_child_id}
use postgres_lsp.Document.Content.{Text, byte_len, index_range}
use postgres_lsp.Document.Params.{ChangeFileParams, apply_to_text}
use postgres_lsp.Document.State.{Document, SplitResult}
use postgres_lsp.Document.State
use postgres_lsp.Document.Apply.{apply_file_change, apply_each, apply_full_change}
use postgres_lsp.Document.Apply
use postgres_lsp.Lexer.Merge.{LexResult, lexed, scan_errors}
use postgres_lsp.Parsed.Store.{Store}
use postgres_lsp.Parsed.PgQuery.{parsed}
use postgres_lsp.Parsed.SqlFunction.{SqlFunctionBody, NodeView, get_sql_fn, get_function_body}
use postgres_lsp.Parsed.Annotation.{StatementAnnotations, annotate, get_annotations}
use postgres_lsp.Parsed.Edit.{edit_from_change}
use postgres_lsp.Parsed.State.{Parsers, ParsedDocument, add_each, new, update_all, apply_change}
use postgres_lsp.Parsed.Filters.{no_filter, get_completions_filter}
use postgres_lsp.Parsed.Iterate.{
  Item, collect, next, next_pending, next_from, give, enter_statement, iterator,
}
use postgres_lsp.Parsed.Mappers.{default_mapper, execute_statement_mapper, iter_with_filter}
use postgres_lsp.Parsed.Collected.{keep}
use postgres_lsp.Parsed.Described.{flatten}
use postgres_lsp.Parsed.Flattened.{iter_with_filter-flatten}
use postgres_lsp.Parsed.Held.{Stored}
use postgres_lsp.Parsed.Reads.{execute}
use postgres_lsp.Parsed.Iterated.{opened, changed, gone_over, lived-Stored}
use postgres_lsp.Parsed.Bodies.{get_sql_fn-slice}
use postgres_lsp.Parsed.Edits.{Bytes, edit_from_change-Bytes, edit_from_change-ends}
use postgres_lsp.Parsed.Caches.{get_annotations-second}

-- 0 is a function with the options 1 and 2; 1 is its language, 2 its body.
view_options : ℕ → Option (List (Option ℕ))
view_options zero = some (some 1 ∷ none ∷ some 2 ∷ [])
view_options (suc n) = none

view_def_elem : ℕ → Option (Text × Option ℕ)
view_def_elem zero = none
view_def_elem (suc zero) = some (108 ∷ 97 ∷ 110 ∷ 103 ∷ 117 ∷ 97 ∷ 103 ∷ 101 ∷ [], some 3)
view_def_elem (suc (suc zero)) = some (97 ∷ 115 ∷ [], some 4)
view_def_elem (suc (suc (suc n))) = none

view_string : ℕ → Option Text
view_string n =
    if n == 3 then some (115 ∷ 113 ∷ 108 ∷ []) else if n == 4 then some (98 ∷ []) else none

small_view : NodeView ℕ
unfolding view_options view_def_elem view_string
small_view = record {
  create_function_options = view_options;
  def_elem = view_def_elem;
  string = view_string;
  items = λ n. none;
}

one_range : Text → SplitResult
one_range t = SplitResult.parsed (record { start = 0; end = byte_len t } ∷ []) []

small_parsers : Parsers ℕ ℕ Text
unfolding small_view one_range
small_parsers = record {
  split = λ t. ok (one_range t);
  lex = λ t. ok (scan_errors []);
  parse = λ t. parsed 0;
  view = small_view;
  parse_tree = λ t old. some t;
  edit_tree = λ e t. t;
}

-- "ab"
ab : Text
ab = 97 ∷ 98 ∷ []

ab_parsed : ParsedDocument ℕ ℕ Text
unfolding ab
ab_parsed = record {
  doc = record {
    content = ab;
    version = pos 0;
    diagnostics = [];
    positions = (root 0, record { start = 0; end = 2 }) ∷ [];
    id_generator = record { next_id = 1 };
  };
  ast_db = [];
  cst_db = (root 0, ab) ∷ [];
  sql_fn_db = [];
  annotation_db = [];
}

ab_opened : new small_parsers ab (pos 0) ≡ ok ab_parsed
unfolding small_parsers ab_parsed new add_each State.new index_range byte_len
    State.split_with_diagnostics
ab_opened = refl

-- The body stands at [1, 2) of the statement.
ab_body : SqlFunctionBody
ab_body = record { range = record { start = 1; end = 2 }; body = 98 ∷ [] }

ab_read : ParsedDocument ℕ ℕ Text
unfolding ab_parsed ab_body
ab_read = record ab_parsed {
  ast_db = (child 0, parsed 0) ∷ (root 0, parsed 0) ∷ [];
  sql_fn_db = (root 0, some ab_body) ∷ [];
}

ab_items : List (Item × Option ℕ)
unfolding ab
ab_items =
    ((root 0, record { start = 0; end = 2 }, ab), some 0)
    ∷ ((child 0, record { start = 1; end = 2 }, 98 ∷ []), some 0)
    ∷ []

ab_gone_over :
    iter_with_filter small_parsers (execute_statement_mapper small_parsers) no_filter 5 ab_parsed
    ≡ ok (ab_items, ab_read)
unfolding iter_with_filter small_parsers ab_parsed ab_read ab_items collect next next_from
    next_pending give enter_statement index_range no_filter execute_statement_mapper
    get_function_body get_sql_fn iterator byte_len id_eq create_child
ab_gone_over = refl

-- "c" in place of the whole text.
to_c : ChangeFileParams
to_c = record { version = pos 1; changes = record { range = none; text = 99 ∷ [] } ∷ [] }

c_parsed : ParsedDocument ℕ ℕ Text
c_parsed = record {
  doc = record {
    content = 99 ∷ [];
    version = pos 1;
    diagnostics = [];
    positions = (root 1, record { start = 0; end = 1 }) ∷ [];
    id_generator = record { next_id = 2 };
  };
  ast_db = [];
  cst_db = (root 1, 99 ∷ []) ∷ [];
  sql_fn_db = [];
  annotation_db = [];
}

ab_changed : apply_change small_parsers to_c ab_read ≡ ok c_parsed
unfolding apply_change small_parsers ab_read to_c c_parsed apply_file_change apply_each
    Apply.apply_change apply_full_change update_all byte_len index_range id_eq get_child_id
    apply_to_text State.split_with_diagnostics State.has_fatal_error
ab_changed = refl

lived-Stored_example : Stored c_parsed.doc c_parsed
lived-Stored_example = lived-Stored small_parsers c_parsed (
    changed ab_read c_parsed to_c
      (gone_over ab_parsed (Item × Option ℕ) (execute_statement_mapper small_parsers) no_filter 5
        (ab_items, ab_read) (opened ab (pos 0) ab_parsed ab_opened) execute ab_gone_over)
      ab_changed)

iter_with_filter-flatten_example :
    iter_with_filter small_parsers
      (default_mapper small_parsers)
      (get_completions_filter 1)
      3
      ab_parsed
    ≡ (do
      (items, p) ← flatten small_parsers ab_parsed.doc.positions ab_parsed
      ok (keep (get_completions_filter 1) items, p))
unfolding ab_parsed
iter_with_filter-flatten_example =
    iter_with_filter-flatten small_parsers (get_completions_filter 1) 3 ab_parsed (omega arith)

-- The statement "ab" of the text "zab".
ab_stands : index_range (122 ∷ ab) (record { start = 1; end = 3 }) ≡ ok ab
unfolding index_range ab
ab_stands = refl

get_sql_fn-slice_example :
    (found : Option SqlFunctionBody) × (get_sql_fn small_view 0 ab ≡ ok found)
    × ((b : SqlFunctionBody)
        → found ≡ some b
        → (moved : TextRange) × (Range.add b.range 1 ≡ ok moved)
          × (index_range (122 ∷ ab) moved ≡ ok b.body))
unfolding ab byte_len
get_sql_fn-slice_example =
    get_sql_fn-slice small_view 0 (122 ∷ ab) ab (record { start = 1; end = 3 }) (omega arith)
      ab_stands

-- "xéz" with the middle character replaced by "ab".
edit_from_change-Bytes_example :
    Bytes
      (edit_from_change (120 ∷ 233 ∷ 122 ∷ []) 1 2 ab)
      (byte_len (120 ∷ []))
      (byte_len (120 ∷ 233 ∷ []))
      (byte_len (120 ∷ []) + byte_len ab)
edit_from_change-Bytes_example =
    edit_from_change-Bytes (120 ∷ []) (233 ∷ []) (122 ∷ []) ab (omega arith) (omega arith)

edit_from_change-ends_example :
    Bytes (edit_from_change (120 ∷ 121 ∷ []) 0 0 ab) 0 (byte_len (120 ∷ 121 ∷ [])) (byte_len ab)
    × Bytes (edit_from_change (120 ∷ 121 ∷ []) 2 2 ab) 0 (byte_len (120 ∷ 121 ∷ [])) (byte_len ab)
edit_from_change-ends_example = edit_from_change-ends 120 (121 ∷ []) ab

no_tokens : Text → Outcome LexResult
no_tokens t = ok (lexed [])

unannotated : Option StatementAnnotations × Store (Option StatementAnnotations)
unannotated = (some (record { ends_with_semicolon = false }), (root 0, none) ∷ [])

unannotated_run : get_annotations no_tokens (root 0) [] [] ≡ ok unannotated
unfolding get_annotations no_tokens unannotated
unannotated_run = refl

get_annotations-second_example :
    ((tokens : LexResult) × (no_tokens [] ≡ ok tokens) × (unannotated.0 ≡ annotate tokens))
    × (get_annotations no_tokens (root 0) ab unannotated.1 ≡ ok (none, unannotated.1))
get_annotations-second_example =
    get_annotations-second no_tokens (root 0) [] ab [] unannotated refl unannotated_run
