-- ===== src/Completions/Providers.antt =====
-- crates/pgt_completions/src/providers and complete.rs: the items made of the entries of the schema cache.
use postgres_lsp.Prelude.{
  Option, none, some, List, [], ◌∷◌, ◌++◌, ◌||◌, if◌then◌else◌, Outcome, ok, ◌>>=◌, unwrap,
}
use postgres_lsp.TextSize.Size
use postgres_lsp.TextSize.Range
use postgres_lsp.Document.Content.{Text}
use postgres_lsp.Parsed.Find.{text_eq}
use postgres_lsp.Completions.Data.{
  Table, Function, Column, Schema, table, function, column, schema, CompletionContext,
}
use postgres_lsp.Completions.Score.{no_score, public_name, is_there}
use postgres_lsp.Completions.Builder.{
  PossibleCompletionItem, CompletionItem, table_kind, function_kind, column_kind, schema_kind,
  CompletionText, finish,
}

-- "Schema: ", "Table: " and "Schema"
abbrev schema_prefix : Text
schema_prefix = 83 ∷ 99 ∷ 104 ∷ 101 ∷ 109 ∷ 97 ∷ 58 ∷ 32 ∷ []

abbrev table_prefix : Text
table_prefix = 84 ∷ 97 ∷ 98 ∷ 108 ∷ 101 ∷ 58 ∷ 32 ∷ []

abbrev schema_word : Text
schema_word = 83 ∷ 99 ∷ 104 ∷ 101 ∷ 109 ∷ 97 ∷ []

abbrev dot : Text
dot = 46 ∷ []

unfoldable pub get_completion_text_with_schema :
    CompletionContext → Text → Text → Outcome (Option CompletionText)
unfolding text_eq Size.try_from Range.new
get_completion_text_with_schema ctx item_name item_schema_name =
    if text_eq item_schema_name public_name || is_there ctx.schema_name then ok none else (do
      node ← unwrap ctx.node_under_cursor
      start ← unwrap (Size.try_from node.start_byte)
      end ← unwrap (Size.try_from node.end_byte)
      range ← Range.new start end
      ok (some (record { text = item_schema_name ++ (dot ++ item_name); range = range })))

unfoldable pub complete_tables :
    CompletionContext → List Table → Outcome (List PossibleCompletionItem)
unfolding get_completion_text_with_schema
complete_tables ctx [] = ok []
complete_tables ctx (t ∷ ts) = do
  text ← get_completion_text_with_schema ctx t.name t.schema
  rest ← complete_tables ctx ts
  ok (
      record {
        label = t.name;
        description = schema_prefix ++ t.schema;
        kind = table_kind;
        score = no_score;
        data_of = table t;
        completion_text = text;
      }
      ∷ rest)

unfoldable pub complete_functions :
    CompletionContext → List Function → Outcome (List PossibleCompletionItem)
unfolding get_completion_text_with_schema
complete_functions ctx [] = ok []
complete_functions ctx (f ∷ fs) = do
  text ← get_completion_text_with_schema ctx f.name f.schema
  rest ← complete_functions ctx fs
  ok (
      record {
        label = f.name;
        description = schema_prefix ++ f.schema;
        kind = function_kind;
        score = no_score;
        data_of = function f;
        completion_text = text;
      }
      ∷ rest)

unfoldable pub complete_columns : List Column → List PossibleCompletionItem
complete_columns [] = []
complete_columns (c ∷ cs) =
    record {
      label = c.name;
      description = table_prefix ++ (c.schema_name ++ (dot ++ c.table_name));
      kind = column_kind;
      score = no_score;
      data_of = column c;
      completion_text = none;
    }
    ∷ complete_columns cs

unfoldable pub complete_schemas : List Schema → List PossibleCompletionItem
complete_schemas [] = []
complete_schemas (s ∷ ss) =
    record {
      label = s.name;
      description = schema_word;
      kind = schema_kind;
      score = no_score;
      data_of = schema s;
      completion_text = none;
    }
    ∷ complete_schemas ss

-- `complete`, behind the context
unfoldable pub complete : CompletionContext → Outcome (List CompletionItem)
unfolding complete_tables complete_functions complete_columns complete_schemas finish
complete ctx = do
  tables ← complete_tables ctx ctx.schema_cache.tables
  functions ← complete_functions ctx ctx.schema_cache.functions
  finish ctx (
      tables
      ++ (functions
          ++ (complete_columns ctx.schema_cache.columns
              ++ complete_schemas ctx.schema_cache.schemas)))
