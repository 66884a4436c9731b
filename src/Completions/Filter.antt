-- ===== src/Completions/Filter.antt =====
-- crates/pgt_completions/src/relevance/filtering.rs: which completions are relevant at all.
use postgres_lsp.Prelude.{
  Bool, true, false, not, ◌&&◌, ◌||◌, Option, none, some, [], ◌∷◌, if◌then◌else◌,
}
use postgres_lsp.Document.Content.{Text}
use postgres_lsp.Parsed.Find.{text_eq, starts_with}
use postgres_lsp.Completions.Data.{
  RelevanceData, table, function, column, schema, ClauseType, select_clause, where_clause,
  from_clause, update_clause, delete_clause, CompletionContext,
}

-- "keyword_", "=", ",", "literal", "ERROR", "identifier" and "object_reference"
abbrev keyword_prefix : Text
keyword_prefix = 107 ∷ 101 ∷ 121 ∷ 119 ∷ 111 ∷ 114 ∷ 100 ∷ 95 ∷ []

abbrev literal_kind : Text
literal_kind = 108 ∷ 105 ∷ 116 ∷ 101 ∷ 114 ∷ 97 ∷ 108 ∷ []

abbrev error_kind : Text
error_kind = 69 ∷ 82 ∷ 82 ∷ 79 ∷ 82 ∷ []

abbrev identifier_kind : Text
identifier_kind = 105 ∷ 100 ∷ 101 ∷ 110 ∷ 116 ∷ 105 ∷ 102 ∷ 105 ∷ 101 ∷ 114 ∷ []

abbrev object_reference_kind : Text
object_reference_kind =
    111 ∷ 98 ∷ 106 ∷ 101 ∷ 99 ∷ 116 ∷ 95 ∷ 114 ∷ 101 ∷ 102 ∷ 101 ∷ 114 ∷ 101 ∷ 110 ∷ 99 ∷ 101 ∷ []

unfoldable pub no_completion_kind : Text → Bool
unfolding text_eq starts_with
no_completion_kind kind =
    starts_with kind keyword_prefix
    || (text_eq kind (61 ∷ [])
        || (text_eq kind (44 ∷ []) || (text_eq kind literal_kind || text_eq kind error_kind)))

abbrev behind_identifier : Text → Option Text → Bool
behind_identifier kind none = false
behind_identifier kind (some prev) =
    (text_eq prev identifier_kind || text_eq prev object_reference_kind)
    && text_eq kind identifier_kind

unfoldable pub completable_context : CompletionContext → Bool
unfolding no_completion_kind text_eq
completable_context ctx = elim ctx.node_under_cursor [
  | none ↦ not (no_completion_kind [])
  | some n ↦
      if no_completion_kind n.kind
      then false
      else not (behind_identifier n.kind n.prev_sibling_kind)
]

abbrev table_clause : ClauseType → Bool
table_clause select_clause = false
table_clause where_clause = false
table_clause from_clause = true
table_clause update_clause = true
table_clause delete_clause = true

abbrev column_clause : ClauseType → Bool
column_clause from_clause = false
column_clause select_clause = true
column_clause where_clause = true
column_clause update_clause = true
column_clause delete_clause = true

abbrev some_clause : (ClauseType → Bool) → Option ClauseType → Bool
some_clause fits none = true
some_clause fits (some c) = fits c

unfoldable pub check_clause : RelevanceData → CompletionContext → Bool
check_clause (table t) ctx = some_clause table_clause ctx.wrapping_clause_type
check_clause (column c) ctx = some_clause column_clause ctx.wrapping_clause_type
check_clause (function f) ctx = true
check_clause (schema s) ctx = true

unfoldable pub check_invocation : RelevanceData → CompletionContext → Bool
check_invocation (table t) ctx = not ctx.is_invocation
check_invocation (column c) ctx = not ctx.is_invocation
check_invocation (function f) ctx = true
check_invocation (schema s) ctx = true

abbrev pub in_schema : RelevanceData → Option Text → Bool
in_schema item none = true
in_schema (table t) (some name) = text_eq t.schema name
in_schema (function f) (some name) = text_eq f.schema name
in_schema (column c) (some name) = false
in_schema (schema s) (some name) = false

unfoldable pub check_mentioned_schema : RelevanceData → CompletionContext → Bool
unfolding text_eq
check_mentioned_schema item ctx = in_schema item ctx.schema_name

-- `Some(())` is true.
unfoldable pub is_relevant : RelevanceData → CompletionContext → Bool
unfolding completable_context check_clause check_invocation check_mentioned_schema
is_relevant item ctx =
    completable_context ctx
    && (check_clause item ctx && (check_invocation item ctx && check_mentioned_schema item ctx))
