-- ===== src/Completions/Ordered.antt =====
-- The order of the items that `finish` leaves, and how far they differ.
use postgres_lsp.Prelude.{
  ℕ, zero, suc, ◌≤◌, ◌≡◌, refl, sym, ◌⊎◌, true, false, List, [], ◌∷◌, length, take, arith,
  Bool-cases, inl, inr, split_if,
}
use mathlib.Core.Path.{subst}
use postgres_lsp.Parsed.Find.{text_eq}
use postgres_lsp.Completions.Data.{CompletionContext}
use postgres_lsp.Completions.Filter.{is_relevant}
use postgres_lsp.Completions.Builder.{
  PossibleCompletionItem, ordered, insert_ordered, sort_items, dedup_behind, dedup_items,
}
use postgres_lsp.Completions.Order.{ordered_total, ordered_trans}

abbrev pub Each : (PossibleCompletionItem → Type 0) → List PossibleCompletionItem → Type 0
Each P [] = Unit {0}
Each P (x ∷ xs) = P x × Each P xs

-- Each item stands in front of all that follow it, in the order of the scores and labels.
abbrev pub Ordered : List PossibleCompletionItem → Type 0
Ordered [] = Unit {0}
Ordered (x ∷ xs) = Each (λ y. ordered x y ≡ true) xs × Ordered xs

-- Neighbours have different labels.
abbrev pub Apart : List PossibleCompletionItem → Type 0
Apart [] = Unit {0}
Apart (x ∷ []) = Unit {0}
Apart (x ∷ (y ∷ ys)) = (text_eq y.label x.label ≡ false) × Apart (y ∷ ys)

abbrev pub In : PossibleCompletionItem → List PossibleCompletionItem → Type 0
In x [] = ⊥
In x (y ∷ ys) = (x ≡ y) ⊎ In x ys

-- A relevant item that was added, but for its score.
abbrev pub Offered :
    CompletionContext → List PossibleCompletionItem → PossibleCompletionItem → Type 0
Offered ctx items i =
    (is_relevant i.data_of ctx ≡ true)
    × ((added : PossibleCompletionItem) × In added items × (record added { score = i.score } ≡ i))

pub Each-map :
    (P Q : PossibleCompletionItem → Type 0) (xs : List PossibleCompletionItem)
    → ((x : PossibleCompletionItem) → P x → Q x)
    → Each P xs
    → Each Q xs
Each-map P Q [] f h = tt
Each-map P Q (x ∷ xs) f h = (f x h.0, Each-map P Q xs f h.1)

dedup_behind-drop :
    (kept x : PossibleCompletionItem) (xs : List PossibleCompletionItem)
    → text_eq x.label kept.label ≡ true
    → dedup_behind kept (x ∷ xs) ≡ dedup_behind kept xs
unfolding dedup_behind
dedup_behind-drop kept x xs e = rw (e, dedup_behind) refl

dedup_behind-keep :
    (kept x : PossibleCompletionItem) (xs : List PossibleCompletionItem)
    → text_eq x.label kept.label ≡ false
    → dedup_behind kept (x ∷ xs) ≡ kept ∷ dedup_behind x xs
unfolding dedup_behind
dedup_behind-keep kept x xs e = rw (e, dedup_behind) refl

-- A statement about what is left, by whether the second item goes.
dedup_split :
    (T : List PossibleCompletionItem → Type 0) (kept x : PossibleCompletionItem)
    (xs : List PossibleCompletionItem)
    → (text_eq x.label kept.label ≡ true → T (dedup_behind kept xs))
    → (text_eq x.label kept.label ≡ false → T (kept ∷ dedup_behind x xs))
    → T (dedup_behind kept (x ∷ xs))
dedup_split T kept x xs drop keep = elim (Bool-cases (text_eq x.label kept.label)) [
  | inl e ↦ subst T (sym (dedup_behind-drop kept x xs e)) (drop e)
  | inr e ↦ subst T (sym (dedup_behind-keep kept x xs e)) (keep e)
]

module _ (P : PossibleCompletionItem → Type 0) where
  insert_ordered-Each :
      (x : PossibleCompletionItem) (xs : List PossibleCompletionItem)
      → P x
      → Each P xs
      → Each P (insert_ordered x xs)
  unfolding insert_ordered
  insert_ordered-Each x [] p h = (p, tt)
  insert_ordered-Each x (y ∷ ys) p h =
      split_if (Each P) (ordered x y) (λ e. (p, h)) λ e. (h.0, insert_ordered-Each x ys p h.1)

  pub sort_items-Each : (xs : List PossibleCompletionItem) → Each P xs → Each P (sort_items xs)
  unfolding sort_items
  sort_items-Each [] h = tt
  sort_items-Each (x ∷ xs) h = insert_ordered-Each x (sort_items xs) h.0 (sort_items-Each xs h.1)

  dedup_behind-Each :
      (kept : PossibleCompletionItem) (xs : List PossibleCompletionItem)
      → P kept
      → Each P xs
      → Each P (dedup_behind kept xs)
  unfolding dedup_behind
  dedup_behind-Each kept [] p h = (p, tt)
  dedup_behind-Each kept (x ∷ xs) p h =
      dedup_split (Each P) kept x xs (λ e. dedup_behind-Each kept xs p h.1)
        λ e. (p, dedup_behind-Each x xs h.0 h.1)

  pub dedup_items-Each : (xs : List PossibleCompletionItem) → Each P xs → Each P (dedup_items xs)
  unfolding dedup_items
  dedup_items-Each [] h = tt
  dedup_items-Each (x ∷ xs) h = dedup_behind-Each x xs h.0 h.1

  pub take-Each : (n : ℕ) (xs : List PossibleCompletionItem) → Each P xs → Each P (take n xs)
  take-Each zero xs h = tt
  take-Each (suc n) [] h = tt
  take-Each (suc n) (x ∷ xs) h = (h.0, take-Each n xs h.1)

insert_ordered-Ordered :
    (x : PossibleCompletionItem) (xs : List PossibleCompletionItem)
    → Ordered xs
    → Ordered (insert_ordered x xs)
unfolding insert_ordered
insert_ordered-Ordered x [] h = (tt, tt)
insert_ordered-Ordered x (y ∷ ys) h =
    split_if Ordered (ordered x y)
      (λ e. ((e, Each-map _ _ ys (λ z le. ordered_trans x y z e le) h.0), h))
      λ e. (
        insert_ordered-Each (λ z. ordered y z ≡ true) x ys (ordered_total x y e) h.0,
        insert_ordered-Ordered x ys h.1,
      )

pub sort_items-Ordered : (xs : List PossibleCompletionItem) → Ordered (sort_items xs)
unfolding sort_items
sort_items-Ordered [] = tt
sort_items-Ordered (x ∷ xs) = insert_ordered-Ordered x (sort_items xs) (sort_items-Ordered xs)

dedup_behind-Ordered :
    (kept : PossibleCompletionItem) (xs : List PossibleCompletionItem)
    → Ordered (kept ∷ xs)
    → Ordered (dedup_behind kept xs)
unfolding dedup_behind
dedup_behind-Ordered kept [] h = (tt, tt)
dedup_behind-Ordered kept (x ∷ xs) h =
    dedup_split Ordered kept x xs (λ e. dedup_behind-Ordered kept xs (h.0.1, h.1.1))
      λ e. (
        dedup_behind-Each (λ y. ordered kept y ≡ true) x xs h.0.0 h.0.1,
        dedup_behind-Ordered x xs h.1,
      )

pub dedup_items-Ordered : (xs : List PossibleCompletionItem) → Ordered xs → Ordered (dedup_items xs)
unfolding dedup_items
dedup_items-Ordered [] h = tt
dedup_items-Ordered (x ∷ xs) h = dedup_behind-Ordered x xs h

pub take-Ordered : (n : ℕ) (xs : List PossibleCompletionItem) → Ordered xs → Ordered (take n xs)
take-Ordered zero xs h = tt
take-Ordered (suc n) [] h = tt
take-Ordered (suc n) (x ∷ xs) h = (take-Each _ n xs h.0, take-Ordered n xs h.1)

-- Behind the kept item the first label is another one.
dedup_behind-Apart :
    (before : PossibleCompletionItem) (kept : PossibleCompletionItem)
    (xs : List PossibleCompletionItem)
    → text_eq kept.label before.label ≡ false
    → Apart (before ∷ dedup_behind kept xs)
unfolding dedup_behind
dedup_behind-Apart before kept [] h = (h, tt)
dedup_behind-Apart before kept (x ∷ xs) h =
    dedup_split (λ l. Apart (before ∷ l)) kept x xs (λ e. dedup_behind-Apart before kept xs h)
      λ e. (h, dedup_behind-Apart kept x xs e)

Apart-tail :
    (x : PossibleCompletionItem) (xs : List PossibleCompletionItem) → Apart (x ∷ xs) → Apart xs
Apart-tail x [] h = tt
Apart-tail x (y ∷ ys) h = h.1

first-Apart :
    (kept : PossibleCompletionItem) (xs : List PossibleCompletionItem)
    → Apart (dedup_behind kept xs)
unfolding dedup_behind
first-Apart kept [] = tt
first-Apart kept (x ∷ xs) =
    dedup_split Apart kept x xs (λ e. first-Apart kept xs) λ e. dedup_behind-Apart kept x xs e

pub dedup_items-Apart : (xs : List PossibleCompletionItem) → Apart (dedup_items xs)
unfolding dedup_items
dedup_items-Apart [] = tt
dedup_items-Apart (x ∷ xs) = first-Apart x xs

pub take-Apart : (n : ℕ) (xs : List PossibleCompletionItem) → Apart xs → Apart (take n xs)
take-Apart zero xs h = tt
take-Apart (suc n) [] h = tt
take-Apart (suc zero) (x ∷ xs) h = tt
take-Apart (suc (suc n)) (x ∷ []) h = tt
take-Apart (suc (suc n)) (x ∷ (y ∷ ys)) h = (h.0, take-Apart (suc n) (y ∷ ys) h.1)

pub length-take : (n : ℕ) (xs : List PossibleCompletionItem) → length (take n xs) ≤ n
length-take zero xs = omega arith
length-take (suc n) [] = omega arith
length-take (suc n) (x ∷ xs) = omega (arith, length-take n xs)
