-- ===== src/Splitter/Scan.antt =====
-- The searches of the parser over its token list, in either direction, and what they find.
use postgres_lsp.Prelude.{
  ℕ, zero, suc, ◌≤◌, ◌<◌, ◌≡◌, refl, Bool, true, false, Option, none, some, List, [], ◌∷◌, length,
  get_or, arith, Bool-cases, inl, inr, if◌then◌else◌,
}

module _ {ℓ} {A : Type ℓ} where
  abbrev shift : Option (ℕ × A) → Option (ℕ × A)
  shift none = none
  shift (some (i, a)) = some (suc i, a)

  -- `xs.iter().enumerate().skip(n).find(test)`
  unfoldable pub find_from : (A → Bool) → ℕ → List A → Option (ℕ × A)
  find_from test n [] = none
  find_from test zero (x ∷ xs) =
      let rest = shift (find_from test zero xs) in if test x then some (0, x) else rest
  find_from test (suc n) (x ∷ xs) = shift (find_from test n xs)

  -- `xs.iter().enumerate().take(n).rfind(test)`
  unfoldable pub rfind_before : (A → Bool) → ℕ → List A → Option (ℕ × A)
  rfind_before test zero xs = none
  rfind_before test (suc n) [] = none
  rfind_before test (suc n) (x ∷ xs) = elim (rfind_before test n xs) [
    | some (i, a) ↦ some (suc i, a)
    | none ↦ if test x then some (0, x) else none
  ]

module _ {A : Type 0} (d : A) (test : A → Bool) where
  -- What `find_from` returns: the first hit at or behind `n`.
  abbrev pub FirstFrom : ℕ → List A → Option (ℕ × A) → Type 0
  FirstFrom n xs none = (i : ℕ) → n ≤ i → i < length xs → test (get_or d xs i) ≡ false
  FirstFrom n xs (some (j, b)) =
      (n ≤ j)
      × (j < length xs)
      × (get_or d xs j ≡ b)
      × (test b ≡ true)
      × ((i : ℕ) → n ≤ i → i < j → test (get_or d xs i) ≡ false)

  shift-FirstFrom :
      (n : ℕ) (x : A) (xs : List A) (r : Option (ℕ × A))
      → FirstFrom n xs r
      → FirstFrom (suc n) (x ∷ xs) (shift r)
  shift-FirstFrom n x xs none h = nowhere
    where
      nowhere : (i : ℕ) → suc n ≤ i → i < length (x ∷ xs) → test (get_or d (x ∷ xs) i) ≡ false
      nowhere zero le lt = absurd (omega arith)
      nowhere (suc i) le lt = h i (omega arith) (omega arith)
  shift-FirstFrom n x xs (some (j, b)) h = (omega arith, omega arith, h.2, h.3, λ i. before i)
    where
      before : (i : ℕ) → suc n ≤ i → i < suc j → test (get_or d (x ∷ xs) i) ≡ false
      before zero le lt = absurd (omega arith)
      before (suc i) le lt = h.4 i (omega arith) (omega arith)

  skip-FirstFrom :
      (x : A) (xs : List A) (r : Option (ℕ × A))
      → test x ≡ false
      → FirstFrom 0 xs r
      → FirstFrom 0 (x ∷ xs) (shift r)
  skip-FirstFrom x xs none miss h = nowhere
    where
      nowhere : (i : ℕ) → 0 ≤ i → i < length (x ∷ xs) → test (get_or d (x ∷ xs) i) ≡ false
      nowhere zero le lt = miss
      nowhere (suc i) le lt = h i (omega arith) (omega arith)
  skip-FirstFrom x xs (some (j, b)) miss h = (omega arith, omega arith, h.2, h.3, λ i. before i)
    where
      before : (i : ℕ) → 0 ≤ i → i < suc j → test (get_or d (x ∷ xs) i) ≡ false
      before zero le lt = miss
      before (suc i) le lt = h.4 i (omega arith) (omega arith)

  pub find_from-FirstFrom : (n : ℕ) (xs : List A) → FirstFrom n xs (find_from test n xs)
  unfolding find_from
  find_from-FirstFrom n [] = λ i le lt. absurd (omega arith)
  find_from-FirstFrom zero (x ∷ xs) = elim (Bool-cases (test x)) [
    | inl hit ↦ rw hit (omega arith, omega arith, refl, hit, λ i le lt. absurd (omega arith))
    | inr miss ↦ rw miss (skip-FirstFrom x xs _ miss (find_from-FirstFrom zero xs))
  ]
  find_from-FirstFrom (suc n) (x ∷ xs) = shift-FirstFrom n x xs _ (find_from-FirstFrom n xs)

  -- What `rfind_before` returns: the last hit in front of `n`.
  abbrev pub LastBefore : ℕ → List A → Option (ℕ × A) → Type 0
  LastBefore n xs none = (i : ℕ) → i < n → i < length xs → test (get_or d xs i) ≡ false
  LastBefore n xs (some (j, b)) =
      (j < n)
      × (j < length xs)
      × (get_or d xs j ≡ b)
      × (test b ≡ true)
      × ((i : ℕ) → j < i → i < n → i < length xs → test (get_or d xs i) ≡ false)

  abbrev cons_result : A → Option (ℕ × A) → Option (ℕ × A)
  cons_result x r = elim r [
    | some (i, a) ↦ some (suc i, a)
    | none ↦ if test x then some (0, x) else none
  ]

  cons-LastBefore :
      (n : ℕ) (x : A) (xs : List A) (r : Option (ℕ × A))
      → LastBefore n xs r
      → LastBefore (suc n) (x ∷ xs) (cons_result x r)
  cons-LastBefore n x xs none h = elim (Bool-cases (test x)) [
    | inl hit ↦ rw hit (omega arith, omega arith, refl, hit, λ i. behind i)
    | inr miss ↦ rw miss (λ i. nowhere miss i)
  ]
    where
      behind :
          (i : ℕ) → 0 < i → i < suc n → i < length (x ∷ xs) → test (get_or d (x ∷ xs) i) ≡ false
      behind zero pos lt len = absurd (omega arith)
      behind (suc i) pos lt len = h i (omega arith) (omega arith)

      nowhere :
          test x ≡ false
          → (i : ℕ) → i < suc n
          → i < length (x ∷ xs)
          → test (get_or d (x ∷ xs) i) ≡ false
      nowhere miss zero lt len = miss
      nowhere miss (suc i) lt len = h i (omega arith) (omega arith)
  cons-LastBefore n x xs (some (j, b)) h = (omega arith, omega arith, h.2, h.3, λ i. behind i)
    where
      behind :
          (i : ℕ) → suc j < i → i < suc n → i < length (x ∷ xs) → test (get_or d (x ∷ xs) i) ≡ false
      behind zero pos lt len = absurd (omega arith)
      behind (suc i) pos lt len = h.4 i (omega arith) (omega arith) (omega arith)

  pub rfind_before-LastBefore : (n : ℕ) (xs : List A) → LastBefore n xs (rfind_before test n xs)
  unfolding rfind_before
  rfind_before-LastBefore zero xs = λ i lt len. absurd (omega arith)
  rfind_before-LastBefore (suc n) [] = λ i lt len. absurd (omega arith)
  rfind_before-LastBefore (suc n) (x ∷ xs) = cons-LastBefore n x xs _ (rfind_before-LastBefore n xs)
