-- ===== src/Lexer/Slices.antt =====
-- Slices of a text: what is in front of an offset, and how slices join.
use postgres_lsp.Prelude.{
  ℕ, zero, suc, ◌+◌, ◌-◌, ◌≤◌, ◌<◌, ◌≡◌, refl, sym, ap, ◌∙◌, Option, none, some, [], ◌∷◌, ◌++◌,
  append_assoc, arith, leb, le→leb, leb→le, Bool-cases, inl, inr, ok, panic, unwrap, ◌>>=◌,
  Option-cases,
}
use postgres_lsp.Document.Content.{
  Text, len_utf8, byte_len, split_at, cons_left, slice, slice_to, slice_from,
}

pub len_utf8_positive : (c : ℕ) → 0 < len_utf8 c
unfolding len_utf8
len_utf8_positive c = ground arith

pub byte_len-append : (a b : Text) → byte_len (a ++ b) ≡ byte_len a + byte_len b
unfolding byte_len
byte_len-append [] b = omega arith
byte_len-append (c ∷ a) b = omega (arith, byte_len-append a b)

split_at-cons :
    (c : ℕ) (cs : Text) (n : ℕ)
    → len_utf8 c ≤ n
    → split_at (c ∷ cs) n ≡ cons_left c (split_at cs (n - len_utf8 c))
unfolding split_at
split_at-cons c cs zero h = absurd (omega (arith, len_utf8_positive c))
split_at-cons c cs (suc n) h = rw (le→leb _ _ h) refl

-- The offset behind a part cuts the text there.
pub split_at-append : (a b : Text) → split_at (a ++ b) (byte_len a) ≡ some (a, b)
unfolding byte_len split_at
split_at-append [] b = refl
split_at-append (c ∷ a) b =
    let e : len_utf8 c + byte_len a - len_utf8 c ≡ byte_len a = omega arith in
    rw (split_at-cons c (a ++ b) (len_utf8 c + byte_len a) (omega arith), e, split_at-append a b)
      refl

cons_left-some :
    (c : ℕ) (o : Option (Text × Text)) (x b : Text)
    → cons_left c o ≡ some (x, b)
    → (a : Text) × (x ≡ c ∷ a) × (o ≡ some (a, b))
cons_left-some c none x b h = cc
cons_left-some c (some (a, b')) x b h = (a, cc, cc)

-- A cut splits the text in two, at the offset.
pub split_at_parts :
    (t : Text) (n : ℕ) (x b : Text) → split_at t n ≡ some (x, b) → (t ≡ x ++ b) × (byte_len x ≡ n)
unfolding split_at byte_len
split_at_parts t zero x b h =
    let e : [] ≡ x = cc in let e' : t ≡ b = cc in (rw (sym e) e', rw (sym e) refl)
split_at_parts [] (suc n) x b h = cc
split_at_parts (c ∷ cs) (suc n) x b h = elim (Bool-cases (leb (len_utf8 c) (suc n))) [
  | inl fits ↦
      let fit : len_utf8 c ≤ suc n = leb→le _ _ fits in
      let (a, e, tail) =
        cons_left-some c (split_at cs (suc n - len_utf8 c)) x b
          (sym (split_at-cons c cs (suc n) fit) ∙ h) in
      let (whole, size) = split_at_parts cs (suc n - len_utf8 c) a b tail in
      (rw (e, whole) refl, rw (e, byte_len) (omega (arith, size)))
  | inr wide ↦ cc wide
]

slice_to-ok :
    (b : Text) (n : ℕ) (y : Text) → slice_to b n ≡ ok y → (c : Text) × (split_at b n ≡ some (y, c))
unfolding slice_to
slice_to-ok b n y h = elim (Option-cases (split_at b n)) [
  | inl e ↦ cc (e, h)
  | inr ((a, c), e) ↦
      let run : ok a ≡ ok y = sym (ap (λ o. unwrap o >>= λ parts. ok parts.0) e) ∙ h in
      (c, e ∙ (let q : a ≡ y = cc run in rw q refl))
]

slice-ok :
    (t : Text) (s e : ℕ) (x b y : Text)
    → split_at t s ≡ some (x, b)
    → slice t s e ≡ ok y
    → (s ≤ e) × ((c : Text) × (split_at b (e - s) ≡ some (y, c)))
unfolding slice slice_from
slice-ok t s e x b y at_s cut = elim (Bool-cases (leb s e)) [
  | inl le ↦
      let run : slice t s e ≡ slice_to b (e - s) = rw (le, at_s) refl in
      (leb→le s e le, slice_to-ok b (e - s) y (sym run ∙ cut))
  | inr gt ↦ let stuck : slice t s e ≡ panic = rw gt refl in cc (stuck, cut)
]

-- What follows a cut: a slice from there on moves the cut to the end of the slice.
pub split_at-slice :
    (t : Text) (s e : ℕ) (x b y : Text)
    → split_at t s ≡ some (x, b)
    → slice t s e ≡ ok y
    → (c : Text) × (split_at t e ≡ some (x ++ y, c)) × (s + byte_len y ≡ e)
split_at-slice t s e x b y at_s cut =
    let (le, (c, rest)) = slice-ok t s e x b y at_s cut in
    let (whole, size) = split_at_parts t s x b at_s in
    let (whole', size') = split_at_parts b (e - s) y c rest in
    let len : byte_len (x ++ y) ≡ e = omega (arith, byte_len-append x y) in
    let joined : t ≡ (x ++ y) ++ c = whole ∙ (ap (λ z. x ++ z) whole' ∙ sym (append_assoc x y c)) in
    (
      c,
      (let cut : split_at ((x ++ y) ++ c) (byte_len (x ++ y)) ≡ some (x ++ y, c) =
            split_at-append (x ++ y) c in
          rw (joined, sym len) cut),
      omega arith,
    )
