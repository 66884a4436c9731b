-- ===== src/Document/Params.antt =====
-- `ChangeParams` of workspace.rs and its methods in server/change.rs.
use postgres_lsp.Prelude.{
  ℕ, ℤ, ◌-◌, Bool, false, Option, none, some, List, [], ◌++◌, length, ltb, leb, if◌then◌else◌,
  Outcome, ok, unwrap, ◌>>=◌,
}
use postgres_lsp.TextSize.Size.{TextSize}
use postgres_lsp.TextSize.Size
use postgres_lsp.TextSize.Range.{TextRange}
use postgres_lsp.TextSize.Range
use postgres_lsp.Document.Content.{Text, byte_len, slice_to, slice_from}

pub record ChangeParams : Type 0 where
  pub range : Option TextRange
  pub text : Text

-- The path selects the document and is not read by it.
pub record ChangeFileParams : Type 0 where
  pub version : ℤ
  pub changes : List ChangeParams

-- `(a as i64 - b as i64).abs()`
unfoldable pub abs_diff : ℕ → ℕ → ℕ
abs_diff a b = if leb b a then a - b else b - a

diff_of : Text → Option TextRange → ℕ
diff_of text (some range) = abs_diff (length text) (Range.len range)
diff_of text none = length text

-- The characters of the text against the bytes of the range.
unfoldable pub diff_size : ChangeParams → Outcome TextSize
unfolding diff_of abs_diff Range.len Size.try_from
diff_size c = unwrap (Size.try_from (diff_of c.text c.range))

addition_of : Text → Option TextRange → Bool
addition_of text (some range) = ltb (Range.len range) (byte_len text)
addition_of text none = false

-- The bytes of the text against the bytes of the range.
unfoldable pub is_addition : ChangeParams → Bool
unfolding addition_of Range.len byte_len
is_addition c = addition_of c.text c.range

deletion_of : Text → Option TextRange → Bool
deletion_of text (some range) = ltb (byte_len text) (Range.len range)
deletion_of text none = false

unfoldable pub is_deletion : ChangeParams → Bool
unfolding deletion_of Range.len byte_len
is_deletion c = deletion_of c.text c.range

tail_of : Text → ℕ → Outcome Text
tail_of text end = if ltb end (byte_len text) then slice_from text end else ok []

replace_in : Text → Text → Option TextRange → Outcome Text
replace_in text new none = ok new
replace_in text new (some range) = do
  before ← slice_to text range.start
  behind ← tail_of text range.end
  ok (before ++ (new ++ behind))

unfoldable pub apply_to_text : ChangeParams → Text → Outcome Text
unfolding replace_in tail_of byte_len slice_to slice_from
apply_to_text c text = replace_in text c.text c.range
