-- ===== src/Schema/Lookup.antt =====
-- crates/pgt_schema_cache/src/schema_cache.rs: the lookups in the schema cache.
use postgres_lsp.Prelude.{
  ℕ, Bool, true, not, ◌&&◌, ◌||◌, Option, none, some, List, [], ◌∷◌, if◌then◌else◌,
}
use postgres_lsp.Document.Content.{Text}
use postgres_lsp.Parsed.Find.{text_eq}
use postgres_lsp.Completions.Data.{Table, Column}
use postgres_lsp.Completions.Score.{is_there, key_eq}

-- `.iter().find(test)`
abbrev pub find_first : {A : Type 0} → (A → Bool) → List A → Option A
find_first test [] = none
find_first test (x ∷ xs) = let later = find_first test xs in if test x then some x else later

-- `t.name == name && schema.is_none() || Some(t.schema.as_str()) == schema`
unfoldable pub named_or_in : Text → Option Text → Text → Text → Bool
unfolding text_eq
named_or_in name schema own_name own_schema =
    (text_eq own_name name && not (is_there schema)) || key_eq (some own_schema) schema

unfoldable pub find_table : Text → Option Text → List Table → Option Table
unfolding named_or_in
find_table name schema tables = find_first (λ t. named_or_in name schema t.name t.schema) tables

pub record PostgresType : Type 0 where
  pub id : ℕ
  pub name : Text
  pub schema : Text

unfoldable pub find_type : Text → Option Text → List PostgresType → Option PostgresType
unfolding named_or_in
find_type name schema types = find_first (λ t. named_or_in name schema t.name t.schema) types

unfoldable pub find_types : Text → Option Text → List PostgresType → List PostgresType
unfolding named_or_in
find_types name schema [] = []
find_types name schema (t ∷ ts) =
    let rest = find_types name schema ts in
    if named_or_in name schema t.name t.schema then t ∷ rest else rest

abbrev fits_schema : Option Text → Text → Bool
fits_schema none own = true
fits_schema (some s) own = text_eq s own

unfoldable pub is_column : Text → Text → Option Text → Column → Bool
unfolding text_eq
is_column name table schema c =
    text_eq c.name name && (text_eq c.table_name table && fits_schema schema c.schema_name)

unfoldable pub find_col : Text → Text → Option Text → List Column → Option Column
unfolding is_column
find_col name table schema columns = find_first (is_column name table schema) columns
