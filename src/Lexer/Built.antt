-- ===== src/Lexer/Built.antt =====
-- What the lexer has built up to an offset: tokens without gaps whose texts make up the text.
use postgres_lsp.Prelude.{
  ℕ, ◌+◌, ◌≤◌, ◌<◌, ◌≡◌, refl, sym, ◌∙◌, ap, inl, inr, true, false, some, List, [], ◌∷◌, ◌++◌,
  append-nil, append_assoc, ok, arith, ltb, Bool-cases,
}
use postgres_lsp.Splitter.Kind.{SyntaxKind, is, contains}
use postgres_lsp.Splitter.Token.{Token, whitespace_tokens, is_whitespace_type}
use postgres_lsp.Document.Content.{Text, byte_len, slice, split_at}
use postgres_lsp.Lexer.Merge.{drop_before}
use postgres_lsp.Lexer.Slices.{split_at-slice, split_at_parts, byte_len-append}

-- The tokens fill the bytes between two offsets, and none is empty.
abbrev pub Tiled : ℕ → List Token → ℕ → Type 0
Tiled lo [] hi = lo ≡ hi
Tiled lo (t ∷ ts) hi = (t.span.start ≡ lo) × (t.span.start < t.span.end) × Tiled t.span.end ts hi

-- The texts of the tokens in a row.
abbrev pub texts : List Token → Text
texts [] = []
texts (t ∷ ts) = t.text ++ texts ts

-- A token of a whitespace kind has the whitespace type, and none has the kind of the end.
abbrev pub Typed : Token → Type 0
Typed t =
    (contains whitespace_tokens t.kind ≡ true → is_whitespace_type t ≡ true)
    × (is t.kind SyntaxKind.eof ≡ false)

abbrev pub AllTyped : List Token → Type 0
AllTyped [] = Unit {0}
AllTyped (t ∷ ts) = Typed t × AllTyped ts

-- A token cuts its text out at its span.
abbrev pub Cut : Text → Token → Type 0
Cut text t = slice text t.span.start t.span.end ≡ ok t.text

abbrev pub AllCut : Text → List Token → Type 0
AllCut text [] = Unit {0}
AllCut text (w ∷ ws) = (Cut text w × Typed w) × AllCut text ws

pub record Built (text : Text) (tokens : List Token) (pos : ℕ) : Type 0 where
  pub joined : (b : Text) × (split_at text pos ≡ some (texts tokens, b))
  pub tiled : Tiled 0 tokens pos
  pub typed : AllTyped tokens

texts-push : (ts : List Token) (t : Token) → texts (ts ++ t ∷ []) ≡ texts ts ++ t.text
texts-push [] t = append-nil t.text
texts-push (s ∷ ts) t =
    ap (λ z. s.text ++ z) (texts-push ts t) ∙ sym (append_assoc s.text (texts ts) t.text)

Tiled-push :
    (lo hi : ℕ) (ts : List Token) (t : Token)
    → Tiled lo ts hi
    → t.span.start ≡ hi
    → t.span.start < t.span.end
    → Tiled lo (ts ++ t ∷ []) t.span.end
Tiled-push lo hi [] t h at pos = (omega arith, pos, refl)
Tiled-push lo hi (s ∷ ts) t h at pos = (h.0, h.1, Tiled-push s.span.end hi ts t h.2 at pos)

AllTyped-push : (ts : List Token) (t : Token) → AllTyped ts → Typed t → AllTyped (ts ++ t ∷ [])
AllTyped-push [] t h k = (k, tt)
AllTyped-push (s ∷ ts) t h k = (h.0, AllTyped-push ts t h.1 k)

module _ (text : Text) (tokens : List Token) (pos : ℕ) (built : Built text tokens pos) where
  pub Built-within : pos ≤ byte_len text
  Built-within =
      let (b, front) = built.joined in
      let (whole, len) = split_at_parts text pos (texts tokens) b front in
      rw whole (omega (arith, len, byte_len-append (texts tokens) b))

  -- A piece of the text behind the tokens is as long as its text and ends within the text.
  pub cut_bounds :
      (s e : ℕ) (y : Text)
      → s ≡ pos
      → slice text s e ≡ ok y
      → (s + byte_len y ≡ e) × (e ≤ byte_len text)
  cut_bounds s e y at cut =
      let (b, front) = built.joined in
      let (c, moved, size) = split_at-slice text s e (texts tokens) b y (rw at front) cut in
      let (whole, len) = split_at_parts text e (texts tokens ++ y) c moved in
      (size, rw whole (omega (arith, len, byte_len-append (texts tokens ++ y) c)))

  pub push-Built :
      (t : Token)
      → Cut text t
      → t.span.start ≡ pos
      → t.span.start < t.span.end
      → Typed t
      → Built text (tokens ++ t ∷ []) t.span.end
  push-Built t cut at step typed =
      let (b, front) = built.joined in
      let (c, moved, size) =
        split_at-slice text t.span.start t.span.end (texts tokens) b t.text (rw at front) cut in
      record {
        joined = (c, rw (texts-push tokens t) moved);
        tiled = Tiled-push 0 pos tokens t built.tiled at step;
        typed = AllTyped-push tokens t built.typed typed;
      }

pub drop_before-AllCut :
    (text : Text) (n : ℕ) (ws : List Token) → AllCut text ws → AllCut text (drop_before n ws)
unfolding drop_before
drop_before-AllCut text n [] h = tt
drop_before-AllCut text n (w ∷ ws) h = elim (Bool-cases (ltb w.span.start n)) [
  | inl gone ↦ rw gone (drop_before-AllCut text n ws h.1)
  | inr kept ↦ rw kept h
]
