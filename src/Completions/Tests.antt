-- ===== src/Completions/Tests.antt =====
-- The completions of a small schema.
use postgres_lsp.Prelude.{
  ◌-◌, ◌≤◌, ◌≡◌, refl, false, none, some, List, [], ◌∷◌, ◌++◌, length, arith, Outcome, ok, Returns,
}
use postgres_lsp.Document.Content.{Text, byte_len, len_utf8}
use postgres_lsp.Completions.Data.{
  Table, Column, RelevanceData, table, column, from_clause, CompletionContext, sanitized_token,
  get_node_under_cursor_content, get_ts_node_content, is_sanitized_token,
}
use postgres_lsp.Completions.Score.{no_score}
use postgres_lsp.Completions.Builder.{PossibleCompletionItem, CompletionItem, table_kind, rank}
use postgres_lsp.Completions.Sanitize.{with_adjusted_sql}
use postgres_lsp.Completions.Providers.{complete}
use postgres_lsp.Completions.Sanitized.{spaces, with_adjusted_sql_parts}
use postgres_lsp.Completions.Ordered.{Each}
use postgres_lsp.Completions.Ranked.{IsShort, Ranked}
use postgres_lsp.Completions.Schemas.{OfSchema, rank-OfSchema}
use postgres_lsp.Completions.SortTexts.{Climbs}
use postgres_lsp.Completions.Complete.{IsPlaced, complete-Climbs}

-- The tables "a.ab" and "b.ac", and the column "ab" of the first.
table_ab : Table
table_ab = record { schema = 97 ∷ []; name = 97 ∷ 98 ∷ [] }

table_ac : Table
table_ac = record { schema = 98 ∷ []; name = 97 ∷ 99 ∷ [] }

column_ab : Column
column_ab = record { name = 97 ∷ 98 ∷ []; table_name = 97 ∷ 98 ∷ []; schema_name = 97 ∷ [] }

-- "from a.a", with the cursor on the last letter.
in_from : CompletionContext
unfolding table_ab table_ac column_ab
in_from = record {
  node_under_cursor = some (record {
    start_byte = 7;
    end_byte = 8;
    kind = 105 ∷ [];
    prev_sibling_kind = none;
    utf8_text = some (97 ∷ []);
  });
  schema_cache = record {
    schemas = [];
    tables = table_ab ∷ table_ac ∷ [];
    functions = [];
    columns = column_ab ∷ [];
  };
  schema_name = some (97 ∷ []);
  wrapping_clause_type = some from_clause;
  wrapping_node_kind = none;
  is_invocation = false;
  mentioned_relations = [];
}

item_of : RelevanceData → Text → PossibleCompletionItem
item_of item name = record {
  label = name;
  description = [];
  kind = table_kind;
  score = no_score;
  data_of = item;
  completion_text = none;
}

small_items : List PossibleCompletionItem
unfolding table_ab table_ac column_ab item_of
small_items =
    item_of (table table_ac) (97 ∷ 99 ∷ [])
    ∷ item_of (table table_ab) (97 ∷ 98 ∷ [])
    ∷ item_of (column column_ab) (97 ∷ 98 ∷ [])
    ∷ []

in_from-IsShort : IsShort in_from
unfolding in_from get_node_under_cursor_content get_ts_node_content is_sanitized_token byte_len
in_from-IsShort = omega arith

in_from_schema : in_from.schema_name ≡ some (97 ∷ [])
unfolding in_from
in_from_schema = refl

rank-OfSchema_example :
    Returns (Each (λ i. OfSchema in_from (97 ∷ []) i.data_of)) (rank in_from small_items)
rank-OfSchema_example = rank-OfSchema in_from small_items (97 ∷ []) in_from-IsShort in_from_schema

in_from-IsPlaced : IsPlaced in_from
unfolding in_from
in_from-IsPlaced = (omega arith, omega arith)

complete-Climbs_example : Returns (λ out. (length out ≤ 50) × Climbs out) (complete in_from)
complete-Climbs_example = complete-Climbs in_from in_from-IsPlaced in_from-IsShort

labels : Outcome (List CompletionItem) → List Text
labels (ok ((x ∷ xs))) = x.label ∷ labels (ok xs)
labels _ = []

-- "ab" alone: the other table is in another schema, and columns are not offered.
in_from_offers : labels (complete in_from) ≡ (97 ∷ 98 ∷ []) ∷ []
unfolding complete in_from labels
in_from_offers = refl

-- "éx" with the cursor in front of the second letter, at byte 2: the token stands behind the text,
-- since the bytes of the cursor are compared with the number of the character.
wide_cursor : with_adjusted_sql 2 (233 ∷ 120 ∷ []) ≡ 233 ∷ 120 ∷ sanitized_token
unfolding with_adjusted_sql len_utf8
wide_cursor = refl

with_adjusted_sql_parts_example :
    (with_adjusted_sql 1 (97 ∷ 98 ∷ 99 ∷ [])
      ≡ (97 ∷ [])
        ++ (sanitized_token
            ++ (98 ∷ ((99 ∷ []) ++ spaces (byte_len ((97 ∷ []) ++ 98 ∷ 99 ∷ []) - 3)))))
    × (with_adjusted_sql 3 (97 ∷ [])
        ≡ (97 ∷ []) ++ (spaces 2 ++ (sanitized_token ++ spaces (byte_len (97 ∷ []) - 4))))
with_adjusted_sql_parts_example = with_adjusted_sql_parts (97 ∷ []) (99 ∷ []) 98 (97 ∷ []) 2
