-- ===== src/Parsed/Bodies.antt =====
-- Where the body of an SQL function stands in the document.
use postgres_lsp.Prelude.{
  ℕ, ◌+◌, ◌-◌, ◌<◌, ◌≡◌, refl, sym, ap, ◌∙◌, not, Option, none, some, ◌++◌, append_assoc, arith,
  Bool-cases, Option-cases, inl, inr, leb, le→leb, lt→ltb, ok, panic, Returns, Returns-value,
  split_if,
}
use mathlib.Core.Path.{subst}
use postgres_lsp.TextSize.Size.{u32_mod}
use postgres_lsp.TextSize.Size
use postgres_lsp.TextSize.Range.{TextRange}
use postgres_lsp.TextSize.Range
use postgres_lsp.Document.Content.{
  Text, byte_len, split_at, slice, slice_to, slice_from, index_range,
}
use postgres_lsp.Lexer.Slices.{split_at-append, split_at_parts, split_at-slice, byte_len-append}
use postgres_lsp.Parsed.Find.{text_eq, find, find-parts}
use postgres_lsp.Parsed.SqlFunction.{
  SqlFunctionBody, Wrappers, NodeView, get_sql_fn, body_at, locate, body_in_language,
  body_in_options, find_option_value, as_name, sql_name, language_name,
}

slice-missing : (t : Text) (s e : ℕ) → split_at t s ≡ none → slice t s e ≡ panic
unfolding slice slice_from
slice-missing t s e missing = elim (Bool-cases (leb s e)) [
  | inl le ↦ rw (le, missing) refl
  | inr gt ↦ rw gt refl
]

-- What `slice` takes stands in the text.
pub slice-parts :
    (t : Text) (s e : ℕ) (y : Text)
    → slice t s e ≡ ok y
    → (x c : Text) × (t ≡ x ++ (y ++ c)) × (byte_len x ≡ s) × (s + byte_len y ≡ e)
slice-parts t s e y h = elim (Option-cases (split_at t s)) [
  | inl missing ↦ cc (h, slice-missing t s e missing)
  | inr ((x, b), at_s) ↦
      let (c, at_e, size) = split_at-slice t s e x b y at_s h in
      (
        x,
        c,
        (split_at_parts t e (x ++ y) c at_e).0 ∙ append_assoc x y c,
        (split_at_parts t s x b at_s).1,
        size,
      )
]

-- A part of a text is what `slice` takes there.
pub slice-append :
    (x y c : Text) → slice (x ++ (y ++ c)) (byte_len x) (byte_len x + byte_len y) ≡ ok y
unfolding slice slice_from slice_to
slice-append x y c =
    let size : byte_len x + byte_len y - byte_len x ≡ byte_len y = omega arith in
    rw
      (
        le→leb (byte_len x) (byte_len x + byte_len y) (omega arith),
        split_at-append x (y ++ c),
        size,
        split_at-append y c,
      )
      refl

-- Both ends of a moved range fit when its end does.
add-fits :
    (r : TextRange) (o : ℕ)
    → r.start + o < u32_mod
    → r.end + o < u32_mod
    → Range.add r o ≡ ok (record { start = r.start + o; end = r.end + o })
unfolding Range.add Range.checked_add Size.checked_add
add-fits r o s e = rw (lt→ltb (r.start + o) u32_mod s, lt→ltb (r.end + o) u32_mod e) refl

-- A slice of a part of a text is the slice of the text at the moved range.
slice-moved :
    (x content c : Text) (r : TextRange) (y : Text)
    → byte_len (x ++ (content ++ c)) < u32_mod
    → slice content r.start r.end ≡ ok y
    → (moved : TextRange) × (Range.add r (byte_len x) ≡ ok moved)
      × (slice (x ++ (content ++ c)) moved.start moved.end ≡ ok y)
slice-moved x content c r y small cut =
    let (x', c', whole, start, size) = slice-parts content r.start r.end y cut in
    let parts : x ++ (content ++ c) ≡ (x ++ x') ++ (y ++ (c' ++ c)) =
      ap (λ z. x ++ (z ++ c)) whole
      ∙ (ap (λ z. x ++ z) (append_assoc x' (y ++ c') c ∙ ap (λ z. x' ++ z) (append_assoc y c' c))
          ∙ sym (append_assoc x x' (y ++ (c' ++ c)))) in
    let front : byte_len (x ++ x') ≡ r.start + byte_len x =
      omega (arith, byte_len-append x x', start) in
    let back : byte_len (x ++ x') + byte_len y ≡ r.end + byte_len x = omega (arith, front, size) in
    let total : byte_len (x ++ (content ++ c))
        ≡ byte_len (x ++ x') + (byte_len y + byte_len (c' ++ c)) =
      ap byte_len parts
      ∙ (byte_len-append (x ++ x') (y ++ (c' ++ c))
          ∙ ap (λ k. byte_len (x ++ x') + k) (byte_len-append y (c' ++ c))) in
    (
      record { start = r.start + byte_len x; end = r.end + byte_len x },
      add-fits r (byte_len x) (omega arith) (omega arith),
      rw (parts, sym front, sym back) (slice-append (x ++ x') y (c' ++ c)),
    )

-- The body stands in the content, at its range.
abbrev pub BodyIn : Text → Option SqlFunctionBody → Type 0
BodyIn content none = Unit {0}
BodyIn content (some b) = slice content b.range.start b.range.end ≡ ok b.body

body_at-BodyIn :
    (content sql_body : Text) (found : Option ℕ)
    → byte_len content < u32_mod
    → found ≡ find sql_body content
    → Returns (BodyIn content) (body_at sql_body found)
unfolding Size.try_from Range.new
body_at-BodyIn content sql_body none small e = tt
body_at-BodyIn content sql_body (some n) small e =
    let (before, rest, whole, size) = find-parts sql_body content n (sym e) in
    let total : byte_len content ≡ byte_len before + (byte_len sql_body + byte_len rest) =
      ap byte_len whole
      ∙ (byte_len-append before (sql_body ++ rest)
          ∙ ap (λ k. byte_len before + k) (byte_len-append sql_body rest)) in
    rw
      (
        lt→ltb n u32_mod (omega arith),
        lt→ltb (n + byte_len sql_body) u32_mod (omega arith),
        le→leb n (n + byte_len sql_body) (omega arith),
      )
      (rw (whole, sym size) (slice-append before sql_body rest))

locate-BodyIn :
    (content : Text) (sql_body : Option Text)
    → byte_len content < u32_mod
    → Returns (BodyIn content) (locate content sql_body)
locate-BodyIn content none small = tt
locate-BodyIn content (some sql_body) small =
    body_at-BodyIn content sql_body (find sql_body content) small refl

module _ {Node : Type 0} (view : NodeView Node) where
  body_in_language-BodyIn :
      (options : Wrappers Node) (content : Text) (language : Option Text)
      → byte_len content < u32_mod
      → Returns (BodyIn content) (body_in_language view options content language)
  body_in_language-BodyIn options content none small = tt
  body_in_language-BodyIn options content (some language) small =
      split_if (Returns (BodyIn content)) (not (text_eq language sql_name)) (λ e. tt)
        λ e. locate-BodyIn content (find_option_value view options as_name) small

  body_in_options-BodyIn :
      (content : Text) (options : Option (Wrappers Node))
      → byte_len content < u32_mod
      → Returns (BodyIn content) (body_in_options view content options)
  body_in_options-BodyIn content none small = tt
  body_in_options-BodyIn content (some options) small =
      body_in_language-BodyIn options content (find_option_value view options language_name) small

  -- Of a statement that stands in a document shorter than 4 GiB the search for a function body does
  -- not panic, and the body found stands in the document at its range moved by the statement's start,
  -- a sum that does not overflow.
  pub get_sql_fn-slice :
      (ast : Node) (text content : Text) (range : TextRange)
      → byte_len text < u32_mod
      → index_range text range ≡ ok content
      → (found : Option SqlFunctionBody) × (get_sql_fn view ast content ≡ ok found)
        × ((b : SqlFunctionBody)
            → found ≡ some b
            → (moved : TextRange) × (Range.add b.range range.start ≡ ok moved)
              × (index_range text moved ≡ ok b.body))
  unfolding index_range get_sql_fn Range.add
  get_sql_fn-slice ast text content range small at =
      let (x, c, whole, start, size) = slice-parts text range.start range.end content at in
      let whole_size : byte_len text ≡ byte_len x + (byte_len content + byte_len c) =
        ap byte_len whole
        ∙ (byte_len-append x (content ++ c)
            ∙ ap (λ k. byte_len x + k) (byte_len-append content c)) in
      let (found, run, stands) =
        Returns-value (BodyIn content) _
          (body_in_options-BodyIn content (view.create_function_options ast) (omega arith)) in
      (
        found,
        run,
        λ b e.
            rw (whole, sym start)
              (slice-moved x content c b.range b.body (rw (sym whole) small)
                (subst (BodyIn content) e stands)),
      )
