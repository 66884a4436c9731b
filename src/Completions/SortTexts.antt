-- ===== src/Completions/SortTexts.antt =====
-- The texts that a client sorts the completions by.
use postgres_lsp.Prelude.{
  ℕ, suc, ◌+◌, ◌/◌, ◌%◌, ◌<◌, ◌≤◌, ◌≡◌, refl, ap, Bool, true, false, List, [], ◌∷◌, length, ltb,
  arith, lt→ltb, Bool-cases, inl, inr, ltb→lt, Returns, Returns-bind,
}
use postgres_lsp.Completions.Data.{CompletionContext}
use postgres_lsp.Completions.Builder.{
  PossibleCompletionItem, CompletionItem, text_le, digits, to_string, zeros, padded, items_from,
  finish, rank, should_preselect_first_item,
}
use postgres_lsp.Completions.Ranked.{IsShort, Ranked, rank-Ranked}

to_string-one : (n : ℕ) → n < 10 → to_string n ≡ (48 + n) ∷ []
unfolding to_string digits
to_string-one n h = rw (lt→ltb n 10 h) refl

to_string-two : (n : ℕ) → 10 ≤ n → n < 100 → to_string n ≡ (48 + n / 10) ∷ (48 + n % 10) ∷ []
unfolding to_string digits
to_string-two n h k =
    let wide : ltb n 10 ≡ false = ground arith in
    let narrow : ltb (n / 10) 10 ≡ true = lt→ltb (n / 10) 10 (omega arith) in rw (wide, narrow) refl

padded-one : (n : ℕ) → n < 10 → padded n 1 ≡ (48 + n) ∷ []
unfolding padded zeros
padded-one n h = rw (to_string-one n h) refl

padded-short : (n : ℕ) → n < 10 → padded n 2 ≡ 48 ∷ (48 + n) ∷ []
unfolding padded zeros
padded-short n h = rw (to_string-one n h) refl

padded-long : (n : ℕ) → 10 ≤ n → n < 100 → padded n 2 ≡ (48 + n / 10) ∷ (48 + n % 10) ∷ []
unfolding padded zeros
padded-long n h k = rw (to_string-two n h k) refl

padded-two : (i j : ℕ) → i < j → j < 100 → text_le (padded j 2) (padded i 2) ≡ false
unfolding text_le
padded-two i j h small = elim (Bool-cases (ltb j 10)) [
  | inl e ↦
      let e' : j < 10 = ltb→lt j 10 e in
      rw (padded-short i (omega arith), padded-short j e') (ground arith)
  | inr e ↦
      let e' : 10 ≤ j = ground arith in
      rw (padded-long j e' small) (elim (Bool-cases (ltb i 10)) [
        | inl f ↦ rw (padded-short i (ltb→lt i 10 f)) (ground arith)
        | inr f ↦
            let f' : 10 ≤ i = ground arith in rw (padded-long i f' (omega arith)) (ground arith)
      ])
]

-- Of two indices the smaller one has the smaller text.
padded-lt :
    (n i j : ℕ)
    → i < j
    → j < n
    → n < 100
    → text_le (padded j (length (to_string n))) (padded i (length (to_string n))) ≡ false
unfolding text_le
padded-lt n i j h k small = elim (Bool-cases (ltb n 10)) [
  | inl few ↦
      let few' : n < 10 = ltb→lt n 10 few in
      rw (to_string-one n few', padded-one i (omega arith), padded-one j (omega arith))
        (ground arith)
  | inr many ↦
      let many' : 10 ≤ n = ground arith in
      rw (to_string-two n many' small) (padded-two i j h (omega arith))
]

abbrev EachItem : (CompletionItem → Type 0) → List CompletionItem → Type 0
EachItem P [] = Unit {0}
EachItem P (x ∷ xs) = P x × EachItem P xs

-- Each item's sort text is smaller than those of all that follow it.
abbrev pub Climbs : List CompletionItem → Type 0
Climbs [] = Unit {0}
Climbs (x ∷ xs) = EachItem (λ y. text_le y.sort_text x.sort_text ≡ false) xs × Climbs xs

module _ (n : ℕ) (small : n < 100) (preselect : Bool) where
  items_from-behind :
      (i j : ℕ) (items : List PossibleCompletionItem)
      → i < j
      → j + length items ≤ n
      → EachItem
          (λ y. text_le y.sort_text (padded i (length (to_string n))) ≡ false)
          (items_from j (length (to_string n)) preselect items)
  unfolding items_from
  items_from-behind i j [] h k = tt
  items_from-behind i j (x ∷ xs) h k = (
    padded-lt n i j h (omega arith) small,
    items_from-behind i (suc j) xs (omega arith) (omega arith),
  )

  items_from-Climbs :
      (i : ℕ) (items : List PossibleCompletionItem)
      → i + length items ≤ n
      → Climbs (items_from i (length (to_string n)) preselect items)
  unfolding items_from
  items_from-Climbs i [] k = tt
  items_from-Climbs i (x ∷ xs) k = (
    items_from-behind i (suc i) xs (omega arith) (omega arith),
    items_from-Climbs (suc i) xs (omega arith),
  )

length-items_from :
    (i padding : ℕ) (preselect : Bool) (items : List PossibleCompletionItem)
    → length (items_from i padding preselect items) ≡ length items
unfolding items_from
length-items_from i padding preselect [] = refl
length-items_from i padding preselect (x ∷ xs) =
    ap (λ n. suc n) (length-items_from (suc i) padding preselect xs)

-- Where the text under the cursor is shorter than 2 GiB, `finish` ends without a panic and gives at most
-- 50 items, and a client that sorts them by their sort texts gets them in the order given.
pub finish-Climbs :
    (ctx : CompletionContext) (items : List PossibleCompletionItem)
    → IsShort ctx
    → Returns (λ out. (length out ≤ 50) × Climbs out) (finish ctx items)
unfolding finish
finish-Climbs ctx items short =
    Returns-bind (Ranked ctx items) _ (rank ctx items) _ (rank-Ranked ctx items short) λ ranked r.
      let few = r.few in
      let size =
        length-items_from 0 (length (to_string (length ranked)))
          (should_preselect_first_item ranked) ranked in
      (
        omega (arith, size),
        items_from-Climbs (length ranked) (omega arith) (should_preselect_first_item ranked) 0
            ranked (omega arith),
      )
