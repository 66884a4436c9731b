-- ===== src/Schema/Found.antt =====
-- What the lookups find, and which function a call means.
use postgres_lsp.Prelude.{
  ℕ, suc, ◌+◌, ◌-◌, ◌≤◌, ◌≡◌, refl, ◌↔◌, inl, inr, Bool, true, false, not, ◌&&◌, ◌||◌, Option, none,
  some, List, [], ◌∷◌, length, ltb, leb, if◌then◌else◌, arith, Bool-cases, Option-cases, ◌⊎◌, ◌==◌,
}
use postgres_lsp.Document.Content.{Text}
use postgres_lsp.Parsed.Find.{text_eq, text_eq→≡, ≡→text_eq}
use postgres_lsp.Completions.Data.{Table, Function, FunctionArg}
use postgres_lsp.Completions.Score.{is_there, key_eq}
use postgres_lsp.Schema.Lookup.{find_first, named_or_in, find_table}
use postgres_lsp.Schema.Resolve.{
  PossibleType, null, any_of, all_differ, count_defaults, misfits, args_match, function_matches,
}

find_first-same :
    {A : Type 0} (test test' : A → Bool) (xs : List A)
    → ((x : A) → test x ≡ test' x)
    → find_first test xs ≡ find_first test' xs
find_first-same test test' [] same = refl
find_first-same test test' (x ∷ xs) same = rw (same x, find_first-same test test' xs same) refl

-- Without a schema `find_table` gives the first table of the name; with one it gives the first table of
-- the schema, whatever its name.
pub find_table_lem :
    (name schema : Text) (tables : List Table)
    → (find_table name none tables ≡ find_first (λ t. text_eq t.name name) tables)
      × (find_table name (some schema) tables ≡ find_first (λ t. text_eq t.schema schema) tables)
unfolding find_table named_or_in
find_table_lem name schema tables =
    (find_first-same _ _ tables (λ t. ground arith), find_first-same _ _ tables (λ t. ground arith))

-- A type is a possible one: `null` may be of every type.
abbrev pub Possible : ℕ → PossibleType → Type 0
Possible id null = Unit {0}
Possible id (any_of []) = ⊥
Possible id (any_of (t ∷ ts)) = (id ≡ t) ⊎ Possible id (any_of ts)

-- Each type fits the argument in its place.
abbrev pub Fit : List FunctionArg → List PossibleType → Type 0
Fit [] types = Unit {0}
Fit (a ∷ args) [] = Unit {0}
Fit (a ∷ args) (t ∷ types) = Possible a.type_id t × Fit args types

all_differ-Possible : (id : ℕ) (ts : List ℕ) → all_differ id ts ≡ false → Possible id (any_of ts)
unfolding all_differ
all_differ-Possible id [] h = cc h
all_differ-Possible id (t ∷ ts) h = elim (Bool-cases (t == id)) [
  | inl e ↦ inl (ground arith)
  | inr e ↦ inr (all_differ-Possible id ts (ground arith))
]

Possible-all_differ : (id : ℕ) (ts : List ℕ) → Possible id (any_of ts) → all_differ id ts ≡ false
unfolding all_differ
Possible-all_differ id [] h = absurd h
Possible-all_differ id (t ∷ ts) (inl e) = ground arith
Possible-all_differ id (t ∷ ts) (inr h) = let rest = Possible-all_differ id ts h in ground arith

misfits-Possible : (id : ℕ) (t : PossibleType) → misfits id t ≡ false → Possible id t
misfits-Possible id null h = tt
misfits-Possible id (any_of ts) h = all_differ-Possible id ts h

Possible-misfits : (id : ℕ) (t : PossibleType) → Possible id t → misfits id t ≡ false
Possible-misfits id null h = refl
Possible-misfits id (any_of ts) h = Possible-all_differ id ts h

args_match-Fit :
    (i arg_count : ℕ) (args : List FunctionArg) (types : List PossibleType)
    → args_match i arg_count args types ≡ true
    → Fit args types
unfolding args_match
args_match-Fit i n [] types h = tt
args_match-Fit i n (a ∷ args) [] h = tt
args_match-Fit i n (a ∷ args) (t ∷ types) h = elim (Bool-cases (misfits a.type_id t)) [
  | inl e ↦ cc (h, e)
  | inr e ↦
      (misfits-Possible a.type_id t e, args_match-Fit (suc i) n args types (ground (arith, h, e)))
]

-- The test of the index never turns a function away.
Fit-args_match :
    (i arg_count : ℕ) (args : List FunctionArg) (types : List PossibleType)
    → i + length types ≤ arg_count
    → Fit args types
    → args_match i arg_count args types ≡ true
unfolding args_match
Fit-args_match i n [] types h fit = refl
Fit-args_match i n (a ∷ args) [] h fit = refl
Fit-args_match i n (a ∷ args) (t ∷ types) h fit =
    let within : leb n i ≡ false = ground arith in
    rw (Possible-misfits a.type_id t fit.0, within)
      (Fit-args_match (suc i) n args types (omega arith) fit.1)

-- The parameters of which the cache does not say whether they have a default
abbrev pub unsaid : List FunctionArg → List FunctionArg
unsaid [] = []
unsaid (a ∷ args) = elim a.has_default [ none ↦ a ∷ unsaid args | some said ↦ unsaid args ]

-- The number of arguments lies between that of these parameters and that of all.
abbrev pub Arity : Function → List PossibleType → Type 0
Arity f types = (length (unsaid f.args) ≤ length types) × (length types ≤ length f.args)

abbrev pub Named : Function → Option Text → Text → Type 0
Named f none name = f.name ≡ name
Named f (some schema) name = (f.name ≡ name) × (f.schema ≡ schema)

count_defaults-unsaid :
    (args : List FunctionArg) → count_defaults args + length (unsaid args) ≡ length args
unfolding count_defaults
count_defaults-unsaid [] = refl
count_defaults-unsaid (a ∷ args) =
    let rest = count_defaults-unsaid args in
    elim (Option-cases a.has_default) [
      | inl e ↦ rw e (omega arith)
      | inr (said, e) ↦ rw e (omega arith)
    ]

-- The tests in front of the loop
abbrev fits_head : Bool → Bool → Bool → Bool → Bool
fits_head named placed counted matched =
    if not named then false else if placed then false else if counted then false else matched

fits_head-true :
    (named placed counted matched : Bool)
    → fits_head named placed counted matched ≡ true
    → (named ≡ true) × (placed ≡ false) × (counted ≡ false) × (matched ≡ true)
fits_head-true true false false true h = (refl, refl, refl, refl)
fits_head-true true false false false h = cc h
fits_head-true true false true matched h = cc h
fits_head-true true true counted matched h = cc h
fits_head-true false placed counted matched h = cc h

Named-true :
    (f : Function) (schema : Option Text) (name : Text)
    → text_eq f.name name ≡ true
    → (is_there schema && not (key_eq (some f.schema) schema)) ≡ false
    → Named f schema name
Named-true f none name h k = text_eq→≡ f.name name h
Named-true f (some s) name h k = (text_eq→≡ f.name name h, text_eq→≡ f.schema s (ground (arith, k)))

true-Named :
    (f : Function) (schema : Option Text) (name : Text)
    → Named f schema name
    → (text_eq f.name name ≡ true)
      × ((is_there schema && not (key_eq (some f.schema) schema)) ≡ false)
true-Named f none name h = (≡→text_eq f.name name h, refl)
true-Named f (some s) name h =
    let placed = ≡→text_eq f.schema s h.1 in (≡→text_eq f.name name h.0, ground (arith, placed))

Arity-counted :
    (f : Function) (types : List PossibleType)
    → (ltb (length f.args) (length types)
        || ltb (length types) (length f.args - count_defaults f.args))
      ≡ false
    → Arity f types
Arity-counted f types h = let all = count_defaults-unsaid f.args in (ground arith, ground arith)

counted-Arity :
    (f : Function) (types : List PossibleType)
    → Arity f types
    → (ltb (length f.args) (length types)
        || ltb (length types) (length f.args - count_defaults f.args))
      ≡ false
counted-Arity f types h =
    let (low, high) = h in let all = count_defaults-unsaid f.args in ground arith

-- A function matches a call exactly when it has the name, and the schema where one is given, the
-- arguments are no more than its parameters and no fewer than those of which the cache says nothing
-- about a default, not even that there is none, and the type of each argument is `null` or one of its
-- possible types is that of the parameter in its place.
pub function_matches_lem :
    (f : Function) (schema : Option Text) (name : Text) (types : List PossibleType)
    → (function_matches f schema name types ≡ true)
      ↔ (Named f schema name × Arity f types × Fit f.args types)
unfolding function_matches
function_matches_lem f schema name types = (there, back)
  where
    there :
        function_matches f schema name types ≡ true
        → Named f schema name × Arity f types × Fit f.args types
    there h =
        let (named, placed, counted, matched) = fits_head-true _ _ _ _ h in
        (
          Named-true f schema name named placed,
          Arity-counted f types counted,
          args_match-Fit 0 (length types) f.args types matched,
        )

    back :
        Named f schema name × Arity f types × Fit f.args types
        → function_matches f schema name types ≡ true
    back (named, arity, fit) =
        let (hit, placed) = true-Named f schema name named in
        rw
          (
            hit,
            placed,
            counted-Arity f types arity,
            Fit-args_match 0 (length types) f.args types (omega arith) fit,
          )
          refl
