-- ===== src/Schema/Resolve.antt =====
-- crates/pgt_type_resolver/src/functions.rs: the function that a call means. The types of the arguments
-- are resolved by `resolve_type`, on nodes of pg_query, and given here, as are the names.
use postgres_lsp.Prelude.{
  ℕ, suc, ◌-◌, Bool, true, false, not, ◌&&◌, ◌||◌, Option, none, some, List, [], ◌∷◌, length, ltb,
  leb, ◌==◌, if◌then◌else◌, Outcome, ok, panic, ◌>>=◌,
}
use postgres_lsp.Document.Content.{Text}
use postgres_lsp.Parsed.Find.{text_eq}
use postgres_lsp.Completions.Data.{Function, FunctionArg}
use postgres_lsp.Completions.Score.{is_there, key_eq}

pub data PossibleType : Type 0 where
  null : PossibleType
  any_of : List ℕ → PossibleType

unfoldable pub resolve_func_identifier : List Text → Outcome (Option Text × Text)
resolve_func_identifier [] = panic
resolve_func_identifier (name ∷ []) = ok (none, name)
resolve_func_identifier (schema ∷ name ∷ []) = ok (some schema, name)
resolve_func_identifier (a ∷ b ∷ c ∷ rest) = panic

unfoldable pub count_defaults : List FunctionArg → ℕ
count_defaults [] = 0
count_defaults (a ∷ args) =
    let rest = count_defaults args in if is_there a.has_default then suc rest else rest

-- `types.iter().all(|type_id| *type_id != func_arg.type_id)`
unfoldable pub all_differ : ℕ → List ℕ → Bool
all_differ id [] = true
all_differ id (t ∷ ts) = not (t == id) && all_differ id ts

abbrev pub misfits : ℕ → PossibleType → Bool
misfits id null = false
misfits id (any_of types) = all_differ id types

-- `has_default.unwrap_or(false)`
abbrev default_or_false : Option Bool → Bool
default_or_false none = false
default_or_false (some b) = b

-- The loop over the arguments and the types, with the test of the index
unfoldable pub args_match : ℕ → ℕ → List FunctionArg → List PossibleType → Bool
unfolding all_differ
args_match i arg_count [] types = true
args_match i arg_count (a ∷ args) [] = true
args_match i arg_count (a ∷ args) (t ∷ types) =
    let rest = args_match (suc i) arg_count args types in
    if misfits a.type_id t
    then false
    else if leb arg_count i && not (default_or_false a.has_default)
    then false
    else rest

unfoldable pub function_matches : Function → Option Text → Text → List PossibleType → Bool
unfolding args_match count_defaults text_eq
function_matches func schema name arg_types =
    let arg_count = length arg_types in
    let total_args = length func.args in
    let matched = args_match 0 arg_count func.args arg_types in
    if not (text_eq func.name name)
    then false
    else if is_there schema && not (key_eq (some func.schema) schema)
    then false
    else if ltb total_args arg_count || ltb arg_count (total_args - count_defaults func.args)
    then false
    else matched

unfoldable pub matching : Option Text → Text → List PossibleType → List Function → List Function
unfolding function_matches
matching schema name types [] = []
matching schema name types (f ∷ fs) =
    let rest = matching schema name types fs in
    if function_matches f schema name types then f ∷ rest else rest

-- `if fns.len() == 1 { Some(fns[0]) } else { None }`
abbrev pub only_one : List Function → Option Function
only_one [] = none
only_one (f ∷ []) = some f
only_one (f ∷ g ∷ rest) = none

unfoldable pub resolve_func_call :
    List Text → List PossibleType → List Function → Outcome (Option Function)
unfolding resolve_func_identifier matching
resolve_func_call funcname types functions = do
  (schema, name) ← resolve_func_identifier funcname
  ok (only_one (matching schema name types functions))
