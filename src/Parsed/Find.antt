-- ===== src/Parsed/Find.antt =====
-- `str::find` with a text as its pattern, and equality of texts.
use postgres_lsp.Prelude.{
  ℕ, ◌+◌, ◌≡◌, refl, ap, Bool, true, false, ◌&&◌, Option, none, some, [], ◌∷◌, ◌++◌, ◌==◌,
  if◌then◌else◌, arith, Bool-cases, Option-cases, inl, inr,
}
use postgres_lsp.Document.Content.{Text, byte_len, len_utf8}

-- `==` of texts
unfoldable pub text_eq : Text → Text → Bool
text_eq [] [] = true
text_eq [] (d ∷ ds) = false
text_eq (c ∷ cs) [] = false
text_eq (c ∷ cs) (d ∷ ds) = c == d && text_eq cs ds

unfoldable pub starts_with : Text → Text → Bool
starts_with cs [] = true
starts_with [] (d ∷ ds) = false
starts_with (c ∷ cs) (d ∷ ds) = c == d && starts_with cs ds

abbrev shift_found : (ℕ → ℕ) → Option ℕ → Option ℕ
shift_found f none = none
shift_found f (some n) = some (f n)

-- The byte offset of the first place where the pattern stands.
unfoldable pub find : Text → Text → Option ℕ
unfolding starts_with
find pattern_text [] = if starts_with [] pattern_text then some 0 else none
find pattern_text (c ∷ cs) =
    let later = shift_found (λ n. len_utf8 c + n) (find pattern_text cs) in
    if starts_with (c ∷ cs) pattern_text then some 0 else later

pub text_eq→≡ : (a b : Text) → text_eq a b ≡ true → a ≡ b
unfolding text_eq
text_eq→≡ [] [] h = refl
text_eq→≡ [] (d ∷ ds) h = cc
text_eq→≡ (c ∷ cs) [] h = cc
text_eq→≡ (c ∷ cs) (d ∷ ds) h = grind (arith, text_eq→≡ cs ds)

text_eq_refl : (t : Text) → text_eq t t ≡ true
unfolding text_eq
text_eq_refl [] = refl
text_eq_refl (c ∷ cs) = let rest = text_eq_refl cs in ground arith

pub ≡→text_eq : (a b : Text) → a ≡ b → text_eq a b ≡ true
≡→text_eq a b e = rw (e) (text_eq_refl b)

-- A text that starts with a pattern is the pattern and a rest.
starts_with-append :
    (t pattern_text : Text)
    → starts_with t pattern_text ≡ true
    → (rest : Text) × (t ≡ pattern_text ++ rest)
unfolding starts_with
starts_with-append t [] h = (t, refl)
starts_with-append [] (d ∷ ds) h = cc
starts_with-append (c ∷ cs) (d ∷ ds) h =
    let (rest, e) = starts_with-append cs ds (ground arith) in
    (rest, (let same : c ≡ d = ground arith in rw (same, e) refl))

-- What is found stands in the text, at the offset given.
pub find-parts :
    (pattern_text t : Text) (n : ℕ)
    → find pattern_text t ≡ some n
    → (before rest : Text) × (t ≡ before ++ (pattern_text ++ rest)) × (byte_len before ≡ n)
unfolding find byte_len
find-parts pattern_text [] n h = elim (Bool-cases (starts_with [] pattern_text)) [
  | inl e ↦
      let (rest, whole) = starts_with-append [] pattern_text e in
      ([], rest, whole, ground (arith, h))
  | inr e ↦ cc (h, e)
]
find-parts pattern_text (c ∷ cs) n h = elim (Bool-cases (starts_with (c ∷ cs) pattern_text)) [
  | inl e ↦
      let (rest, whole) = starts_with-append (c ∷ cs) pattern_text e in
      ([], rest, whole, ground arith)
  | inr e ↦ elim (Option-cases (find pattern_text cs)) [
    | inl missing ↦ cc (h, e, missing)
    | inr (k, found) ↦
        let (before, rest, whole, size) = find-parts pattern_text cs k found in
        (c ∷ before, rest, ap (λ z. c ∷ z) whole, ground (arith, h, e, found, size))
  ]
]
