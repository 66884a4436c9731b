-- ===== src/Schema/Tests.antt =====
-- Lookups in a small schema.
use postgres_lsp.Prelude.{◌≡◌, refl, ◌↔◌, true, false, none, some, List, [], ◌∷◌, ok}
use postgres_lsp.Parsed.Find.{text_eq}
use postgres_lsp.Completions.Data.{Table, Function}
use postgres_lsp.Schema.Lookup.{find_first, find_table}
use postgres_lsp.Schema.Resolve.{any_of, function_matches, resolve_func_call}
use postgres_lsp.Schema.Found.{find_table_lem, Named, Arity, Fit, function_matches_lem}

-- "f" of the schema "s", with one parameter without a default, as the query loads it
one_parameter : Function
one_parameter = record {
  schema = 115 ∷ [];
  name = 102 ∷ [];
  args = record { type_id = 23; has_default = some false } ∷ [];
}

function_matches_lem_example :
    (function_matches one_parameter none (102 ∷ []) (any_of (23 ∷ []) ∷ []) ≡ true) ↔ (
      Named one_parameter none (102 ∷ [])
      × Arity one_parameter (any_of (23 ∷ []) ∷ [])
      × Fit one_parameter.args (any_of (23 ∷ []) ∷ []))
function_matches_lem_example =
    function_matches_lem one_parameter none (102 ∷ []) (any_of (23 ∷ []) ∷ [])

-- A call without arguments resolves to it: `has_default` counts as a default where it is `false`.
call_without_arguments :
    resolve_func_call ((102 ∷ []) ∷ []) [] (one_parameter ∷ []) ≡ ok (some one_parameter)
unfolding resolve_func_call one_parameter
call_without_arguments = refl

-- "a" and "b", both in the schema "s"
two_tables : List Table
two_tables =
    record { schema = 115 ∷ []; name = 97 ∷ [] } ∷ record { schema = 115 ∷ []; name = 98 ∷ [] } ∷ []

find_table_lem_example :
    (find_table (98 ∷ []) none two_tables ≡ find_first (λ t. text_eq t.name (98 ∷ [])) two_tables)
    × (find_table (98 ∷ []) (some (115 ∷ [])) two_tables
        ≡ find_first (λ t. text_eq t.schema (115 ∷ [])) two_tables)
find_table_lem_example = find_table_lem (98 ∷ []) (115 ∷ []) two_tables

-- Asked for "s.b", the first table of the schema is found.
wrong_table :
    find_table (98 ∷ []) (some (115 ∷ [])) two_tables
    ≡ some (record { schema = 115 ∷ []; name = 97 ∷ [] })
unfolding find_table two_tables
wrong_table = refl
