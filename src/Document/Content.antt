-- ===== src/Document/Content.antt =====
-- Texts as the code reads them: a list of characters, addressed by bytes of UTF-8.
use postgres_lsp.Prelude.{
  ℕ, zero, suc, ◌+◌, ◌-◌, Option, none, some, List, [], ◌∷◌, take, ltb, leb, if◌then◌else◌, Outcome,
  ok, assert, unwrap, ◌>>=◌, ◌>>◌,
}
use postgres_lsp.TextSize.Size.{TextSize}
use postgres_lsp.TextSize.Size
use postgres_lsp.TextSize.Range.{TextRange}

-- The code points of a `String`.
abbrev pub Text : Type 0
Text = List ℕ

-- `char::len_utf8`
unfoldable pub len_utf8 : ℕ → ℕ
len_utf8 c = if ltb c 0x80 then 1 else if ltb c 0x800 then 2 else if ltb c 0x10000 then 3 else 4

-- `str::len`
unfoldable pub byte_len : Text → ℕ
unfolding len_utf8
byte_len [] = 0
byte_len (c ∷ cs) = len_utf8 c + byte_len cs

-- `TextLen for &str`: panics for a text of 4 GiB.
unfoldable pub text_len : Text → Outcome TextSize
unfolding Size.try_from byte_len
text_len t = unwrap (Size.try_from (byte_len t))

abbrev pub cons_left : ℕ → Option (Text × Text) → Option (Text × Text)
cons_left c none = none
cons_left c (some (before, behind)) = some (c ∷ before, behind)

-- The text in front of a byte offset and the text behind it, where a character starts there.
unfoldable pub split_at : Text → ℕ → Option (Text × Text)
unfolding len_utf8
split_at cs zero = some ([], cs)
split_at [] (suc n) = none
split_at (c ∷ cs) (suc n) =
    let rest = cons_left c (split_at cs (suc n - len_utf8 c)) in
    if leb (len_utf8 c) (suc n) then rest else none

-- `&text[..end]`
unfoldable pub slice_to : Text → ℕ → Outcome Text
unfolding split_at
slice_to t end = do parts ← unwrap (split_at t end); ok parts.0

-- `&text[start..]`
unfoldable pub slice_from : Text → ℕ → Outcome Text
unfolding split_at
slice_from t start = do parts ← unwrap (split_at t start); ok parts.1

-- `&text[start..end]`
unfoldable pub slice : Text → ℕ → ℕ → Outcome Text
unfolding slice_to slice_from
slice t start end = do
  assert (leb start end)
  rest ← slice_from t start
  slice_to rest (end - start)

-- `&text[range]`
unfoldable pub index_range : Text → TextRange → Outcome Text
unfolding slice
index_range t r = slice t r.start r.end

-- `.char_indices().nth(n).map(|(i, _)| i).unwrap_or(content.len())`
unfoldable pub nth_char_byte : Text → ℕ → ℕ
unfolding byte_len
nth_char_byte t n = byte_len (take n t)

-- `get_affected` at the end of server/change.rs: it counts characters, not bytes.
unfoldable pub get_affected : Text → TextRange → Outcome Text
unfolding nth_char_byte slice
get_affected content range =
    slice content (nth_char_byte content range.start) (nth_char_byte content range.end)
