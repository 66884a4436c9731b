-- ===== src/TextSize/Range.antt =====
-- crates/pgt_text_size/src/range.rs: the range between two offsets, its constructors, its tests and
-- its operations. A panic of the code is the outcome `panic`.
use Prim.Native.Nat.{Ordering}
use postgres_lsp.Prelude.{
  ◌≤◌, ◌<◌, min, max, Bool, ◌&&◌, Option, none, some, ltb, leb, ◌==◌, if◌then◌else◌, Outcome, ok,
  assert, unwrap, ◌>>=◌, ◌>>◌,
}
use postgres_lsp.TextSize.Size.{TextSize, u32_mod}
use postgres_lsp.TextSize.Size

-- Invariant of the code: start <= end.
pub record TextRange : Type 0 where
  pub start : TextSize
  pub end : TextSize

-- The invariant that the code keeps, and that both offsets fit a `u32`.
pub record IsRange (r : TextRange) : Type 0 where
  pub ordered : r.start ≤ r.end
  pub fits : r.end < u32_mod

unfoldable pub new : TextSize → TextSize → Outcome TextRange
new start end = do assert (leb start end); ok (record { start = start; end = end })

unfoldable pub at : TextSize → TextSize → Outcome TextRange
unfolding new Size.add
at offset len = new offset (Size.add offset len)

unfoldable pub empty : TextSize → TextRange
empty offset = record { start = offset; end = offset }

unfoldable pub up_to : TextSize → TextRange
up_to end = record { start = 0; end = end }

unfoldable pub len : TextRange → TextSize
unfolding Size.sub
len r = Size.sub r.end r.start

unfoldable pub is_empty : TextRange → Bool
is_empty r = r.start == r.end

unfoldable pub contains : TextRange → TextSize → Bool
contains r offset = leb r.start offset && ltb offset r.end

unfoldable pub contains_inclusive : TextRange → TextSize → Bool
contains_inclusive r offset = leb r.start offset && leb offset r.end

unfoldable pub contains_range : TextRange → TextRange → Bool
contains_range r other = leb r.start other.start && leb other.end r.end

-- `TextRange::new` checks again what the test has shown; its panic is the outer result.
unfoldable pub intersect : TextRange → TextRange → Outcome (Option TextRange)
unfolding new
intersect r other =
    let start = max r.start other.start in
    let end = min r.end other.end in
    if ltb end start then ok none else (do shared ← new start end; ok (some shared))

unfoldable pub cover : TextRange → TextRange → Outcome TextRange
unfolding new
cover r other = new (min r.start other.start) (max r.end other.end)

unfoldable pub cover_offset : TextRange → TextSize → Outcome TextRange
unfolding cover empty
cover_offset r offset = cover r (empty offset)

abbrev bind_option {ℓ κ} : {A : Type ℓ} {B : Type κ} → Option A → (A → Option B) → Option B
bind_option none f = none
bind_option (some a) f = f a

unfoldable pub checked_add : TextRange → TextSize → Option TextRange
unfolding Size.checked_add
checked_add r offset =
    bind_option (Size.checked_add r.start offset)
      λ s. bind_option (Size.checked_add r.end offset) λ e. some (record { start = s; end = e })

unfoldable pub checked_expand_end : TextRange → TextSize → Option TextRange
unfolding Size.checked_add
checked_expand_end r offset =
    bind_option (Size.checked_add r.end offset) λ e. some (record { start = r.start; end = e })

unfoldable pub checked_sub : TextRange → TextSize → Option TextRange
unfolding Size.checked_sub
checked_sub r offset =
    bind_option (Size.checked_sub r.start offset)
      λ s. bind_option (Size.checked_sub r.end offset) λ e. some (record { start = s; end = e })

unfoldable pub ordering : TextRange → TextRange → Ordering
ordering r other =
    if leb r.end other.start
    then Ordering.lt
    else if leb other.end r.start
    then Ordering.gt
    else Ordering.eq

-- `impl Add<TextSize> for TextRange`: panics where the checked sum does not fit.
unfoldable pub add : TextRange → TextSize → Outcome TextRange
unfolding checked_add
add r offset = unwrap (checked_add r offset)

-- `impl Sub<TextSize> for TextRange`
unfoldable pub sub : TextRange → TextSize → Outcome TextRange
unfolding checked_sub
sub r offset = unwrap (checked_sub r offset)
