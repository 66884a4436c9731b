-- ===== src/Completions/Sanitized.antt =====
-- Where the token stands in the adjusted text.
use postgres_lsp.Prelude.{
  ℕ, zero, suc, ◌+◌, ◌-◌, ◌<◌, ◌≤◌, ◌≡◌, ◌≢◌, refl, ap, ◌∙◌, true, false, [], ◌∷◌, ◌++◌, length,
  length-append, ◌==◌, arith,
}
use postgres_lsp.Document.Content.{Text, byte_len}
use postgres_lsp.Lexer.Slices.{len_utf8_positive}
use postgres_lsp.Completions.Data.{sanitized_token}
use postgres_lsp.Completions.Sanitize.{adjust, with_adjusted_sql}

abbrev pub spaces : ℕ → Text
spaces zero = []
spaces (suc n) = 32 ∷ spaces n

==-same : (a b : ℕ) → a ≡ b → (a == b) ≡ true
==-same a b h = ground arith

==-other : (a b : ℕ) → a ≢ b → (a == b) ≡ false
==-other a b h = ground arith

-- A text has no more characters than bytes.
pub length-byte_len : (t : Text) → length t ≤ byte_len t
unfolding byte_len
length-byte_len [] = omega arith
length-byte_len (c ∷ cs) = omega (arith, length-byte_len cs, len_utf8_positive c)

adjust-nil : (cursor idx left : ℕ) → cursor < idx → adjust cursor idx left [] ≡ spaces left
unfolding adjust
adjust-nil cursor idx zero h = refl
adjust-nil cursor idx (suc left) h =
    let other : idx ≢ cursor = λ q. omega arith in
    rw (==-other idx cursor other)
      (ap (λ z. 32 ∷ z) (adjust-nil cursor (suc idx) left (omega arith)))

-- Behind the cursor the rest is kept, and spaces fill the rounds that are left.
adjust-behind :
    (cursor idx left : ℕ) (cs : Text) (extra : ℕ)
    → cursor < idx
    → left ≡ length cs + extra
    → adjust cursor idx left cs ≡ cs ++ spaces extra
unfolding adjust
adjust-behind cursor idx left [] extra h e =
    let same : left ≡ extra = omega arith in adjust-nil cursor idx left h ∙ ap spaces same
adjust-behind cursor idx zero (c ∷ cs) extra h e = absurd (omega arith)
adjust-behind cursor idx (suc left) (c ∷ cs) extra h e =
    let other : idx ≢ cursor = λ q. omega arith in
    rw (==-other idx cursor other)
      (ap (λ z. c ∷ z) (adjust-behind cursor (suc idx) left cs extra (omega arith) (omega arith)))

-- In front of the character at the cursor stands the token.
adjust-inside :
    (cursor idx left : ℕ) (a : Text) (c : ℕ) (b : Text) (extra : ℕ)
    → cursor ≡ idx + length a
    → left ≡ length a + (suc (length b) + extra)
    → adjust cursor idx left (a ++ c ∷ b) ≡ a ++ (sanitized_token ++ (c ∷ (b ++ spaces extra)))
unfolding adjust
adjust-inside cursor idx zero a c b extra h e = absurd (omega arith)
adjust-inside cursor idx (suc left) [] c b extra h e =
    let here : idx ≡ cursor = omega arith in
    rw (==-same idx cursor here) (
      ap (λ z. sanitized_token ++ (c ∷ z))
        (adjust-behind cursor (suc idx) left b extra (omega arith) (omega arith)))
adjust-inside cursor idx (suc left) (x ∷ a) c b extra h e =
    let other : idx ≢ cursor = λ q. omega arith in
    rw (==-other idx cursor other) (
      ap (λ z. x ∷ z) (adjust-inside cursor (suc idx) left a c b extra (omega arith) (omega arith)))

-- Behind the text spaces lead up to the token.
adjust-past :
    (cursor idx left gap extra : ℕ)
    → cursor ≡ idx + gap
    → left ≡ gap + suc extra
    → adjust cursor idx left [] ≡ spaces gap ++ (sanitized_token ++ spaces extra)
unfolding adjust
adjust-past cursor idx zero gap extra h e = absurd (omega arith)
adjust-past cursor idx (suc left) zero extra h e =
    let here : idx ≡ cursor = omega arith in
    let same : left ≡ extra = omega arith in
    rw (==-same idx cursor here) (
      ap (λ z. sanitized_token ++ z)
        (adjust-nil cursor (suc idx) left (omega arith) ∙ ap spaces same))
adjust-past cursor idx (suc left) (suc gap) extra h e =
    let other : idx ≢ cursor = λ q. omega arith in
    rw (==-other idx cursor other)
      (ap (λ z. 32 ∷ z) (adjust-past cursor (suc idx) left gap extra (omega arith) (omega arith)))

adjust-outside :
    (cursor idx left : ℕ) (cs : Text) (gap extra : ℕ)
    → cursor ≡ idx + (length cs + gap)
    → left ≡ length cs + (gap + suc extra)
    → adjust cursor idx left cs ≡ cs ++ (spaces gap ++ (sanitized_token ++ spaces extra))
unfolding adjust
adjust-outside cursor idx left [] gap extra h e =
    adjust-past cursor idx left gap extra (omega arith) (omega arith)
adjust-outside cursor idx zero (c ∷ cs) gap extra h e = absurd (omega arith)
adjust-outside cursor idx (suc left) (c ∷ cs) gap extra h e =
    let other : idx ≢ cursor = λ q. omega arith in
    rw (==-other idx cursor other) (
      ap (λ z. c ∷ z)
        (adjust-outside cursor (suc idx) left cs gap extra (omega arith) (omega arith)))

-- With the cursor on a character of the text, counted in characters, the adjusted text is the part in
-- front of it, the token, the rest, and a space for each byte that the text has more than characters.
-- With the cursor behind the text it is the text, spaces up to the cursor, the token, and a space for
-- each byte that the text has behind the cursor.
pub with_adjusted_sql_parts :
    (a b : Text) (c : ℕ) (text : Text) (gap : ℕ)
    → (with_adjusted_sql (length a) (a ++ c ∷ b)
        ≡ a
          ++ (sanitized_token ++ (c ∷ (b ++ spaces (byte_len (a ++ c ∷ b) - length (a ++ c ∷ b))))))
      × (with_adjusted_sql (length text + gap) text
          ≡ text
            ++ (spaces gap
                ++ (sanitized_token ++ spaces (byte_len text - (length text + gap + 1)))))
unfolding with_adjusted_sql
with_adjusted_sql_parts a b c text gap = (
  adjust-inside (length a) 0 _ a c b _ (omega arith)
      (omega (arith, length-byte_len (a ++ c ∷ b), length-append a (c ∷ b))),
  adjust-outside (length text + gap) 0 _ text gap _ (omega arith)
      (omega (arith, length-byte_len text)),
)
