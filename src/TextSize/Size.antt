-- ===== src/TextSize/Size.antt =====
-- crates/pgt_text_size/src/size.rs: an offset into a text, a `u32`. It is a plain number here, and
-- what is said of it states `< u32_mod` where it matters.
use postgres_lsp.Prelude.{
  ℕ, ◌+◌, ◌-◌, ◌%◌, ◌^◌, Option, none, some, List, [], ◌∷◌, ltb, leb, if◌then◌else◌,
}

abbrev pub TextSize : Type 0
TextSize = ℕ

abbrev pub u32_mod : ℕ
u32_mod = 2 ^ 32

-- `u32::checked_add`
unfoldable pub checked_add : TextSize → TextSize → Option TextSize
checked_add a b = if ltb (a + b) u32_mod then some (a + b) else none

-- `u32::checked_sub`
unfoldable pub checked_sub : TextSize → TextSize → Option TextSize
checked_sub a b = if leb b a then some (a - b) else none

-- `+` on the `u32`, as the release build computes it: it wraps.
unfoldable pub add : TextSize → TextSize → TextSize
add a b = (a + b) % u32_mod

-- `-` on the `u32`, as the release build computes it: it wraps.
unfoldable pub sub : TextSize → TextSize → TextSize
sub a b = (a + u32_mod - b) % u32_mod

-- `TextSize::try_from(usize)`
unfoldable pub try_from : ℕ → Option TextSize
try_from n = if ltb n u32_mod then some n else none

sum_from : TextSize → List TextSize → TextSize
sum_from acc [] = acc
sum_from acc (x ∷ xs) = sum_from (add acc x) xs

-- `iter.fold(0.into(), Add::add)`
unfoldable pub sum : List TextSize → TextSize
unfolding sum_from
sum xs = sum_from 0 xs
