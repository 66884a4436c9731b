-- ===== src/Parsed/Store.antt =====
-- The maps of the stores of crates/pgt_workspace/src/workspace/server: a `DashMap` keyed by
-- statement identifiers, as an association list with one entry for a key.
use postgres_lsp.Prelude.{
  ◌≡◌, refl, Bool, true, false, Option, none, some, List, [], ◌∷◌, if◌then◌else◌, arith, Bool-cases,
  inl, inr,
}
use postgres_lsp.Document.Id.{StatementId, id_eq}
use postgres_lsp.Document.Id
use postgres_lsp.Document.View.{id_eq_sym, id_eq→≡}

abbrev pub Store {ℓ} : Type ℓ → Type ℓ
Store V = List (StatementId × V)

abbrev pub is_some {ℓ} : {A : Type ℓ} → Option A → Bool
is_some none = false
is_some (some a) = true

same_key : (id key k : StatementId) → id_eq key k ≡ true → id_eq id k ≡ id_eq id key
same_key id key k e = rw (id_eq→≡ key k e) refl

other_key :
    (id key k : StatementId) → id_eq key k ≡ false → id_eq id k ≡ true → id_eq id key ≡ false
other_key id key k e e' = rw (id_eq→≡ id k e', id_eq_sym k key) e

module _ {ℓ} {V : Type ℓ} where
  abbrev pub get : StatementId → Store V → Option V
  get id [] = none
  get id ((key, v) ∷ rest) = if id_eq id key then some v else get id rest

  abbrev pub remove : StatementId → Store V → Store V
  remove id [] = []
  remove id ((key, v) ∷ rest) =
      let others = remove id rest in if id_eq id key then others else (key, v) ∷ others

  abbrev pub insert : StatementId → V → Store V → Store V
  insert id v s = (id, v) ∷ remove id s

  abbrev pub holds : StatementId → Store V → Bool
  holds id s = is_some (get id s)

  -- The entry of the statement's child goes with its own.
  abbrev pub remove_child : Option StatementId → Store V → Store V
  remove_child none s = s
  remove_child (some child_id) s = remove child_id s

  -- `clear_statement` of three stores and `remove_statement` of the fourth.
  unfoldable pub clear_statement : StatementId → Store V → Store V
  clear_statement id s = remove_child (Id.get_child_id id) (remove id s)

  -- What a removal leaves of each entry.
  pub get-remove :
      (id key : StatementId) (s : Store V)
      → get id (remove key s) ≡ (if id_eq id key then none else get id s)
  get-remove id key [] = ground arith
  get-remove id key ((k, v) ∷ rest) = elim (Bool-cases (id_eq key k)) [
    | inl e ↦ ground (arith, get-remove id key rest, same_key id key k e)
    | inr e ↦ elim (Bool-cases (id_eq id k)) [
      | inl e' ↦ rw (e, e', other_key id key k e e') refl
      | inr e' ↦ ground (arith, get-remove id key rest)
    ]
  ]

  pub get-insert :
      (id key : StatementId) (v : V) (s : Store V)
      → get id (insert key v s) ≡ (if id_eq id key then some v else get id s)
  get-insert id key v s = ground (arith, get-remove id key s)
