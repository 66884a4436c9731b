-- ===== src/TextSize/Shifts.antt =====
-- Ranges moved by an offset, covered, and compared.
use Prim.Native.Nat.{Ordering}
use postgres_lsp.Prelude.{
  ◌+◌, ◌≤◌, ◌<◌, min, max, ◌≡◌, ◌⊎◌, inl, inr, true, arith, ltb, leb, Bool-cases, ok, panic,
}
use postgres_lsp.TextSize.Size.{TextSize, u32_mod}
use postgres_lsp.TextSize.Range.{TextRange, IsRange}
use postgres_lsp.TextSize.Range

abbrev shifted : TextRange → TextSize → TextRange
shifted r d = record { start = r.start + d; end = r.end + d }

-- Adding an offset to a range succeeds exactly when the moved end fits a `u32`, and panics
-- otherwise; what it returns is a range of the same length, and subtracting the offset gives the
-- first range back.
pub add-sub :
    (r : TextRange) (d : TextSize)
    → IsRange r
    → ((u32_mod ≤ r.end + d) × (Range.add r d ≡ panic))
      ⊎ ((s : TextRange) × (Range.add r d ≡ ok s)
          × IsRange s
          × (Range.len s ≡ Range.len r)
          × (Range.sub s d ≡ ok r))
unfolding Range.add Range.sub Range.len
add-sub r d h = elim (Bool-cases (ltb (r.end + d) u32_mod)) [
  | inl fits ↦ inr (shifted r d, ground arith, ground arith, ground arith, ground arith)
  | inr over ↦ inl (ground arith, ground arith)
]

-- `cover` of two ranges never panics; its result contains both, and every range that contains both
-- contains it.
pub cover_least :
    (r s : TextRange)
    → IsRange r
    → IsRange s
    → (t : TextRange) × (Range.cover r s ≡ ok t)
      × (Range.contains_range t r ≡ true)
      × (Range.contains_range t s ≡ true)
      × ((u : TextRange)
          → Range.contains_range u r ≡ true
          → Range.contains_range u s ≡ true
          → Range.contains_range u t ≡ true)
unfolding Range.cover Range.contains_range
cover_least r s hr hs = (
  record { start = min r.start s.start; end = max r.end s.end },
  ground arith,
  ground arith,
  ground arith,
  λ u p q. ground arith,
)

-- The order of two ranges that are not empty: it is `Equal` exactly when some offset lies in both,
-- `Less` exactly when every offset of the first lies below every offset of the second, and it turns
-- round with the arguments.
pub ordering_lem :
    (r s : TextRange)
    → r.start < r.end
    → s.start < s.end
    → ((Range.ordering r s ≡ Ordering.eq)
        × (Range.ordering s r ≡ Ordering.eq)
        × (Range.contains r (max r.start s.start) ≡ true)
        × (Range.contains s (max r.start s.start) ≡ true))
      ⊎ ((Range.ordering r s ≡ Ordering.lt)
          × (Range.ordering s r ≡ Ordering.gt)
          × ((x y : TextSize) → Range.contains r x ≡ true → Range.contains s y ≡ true → x < y))
      ⊎ ((Range.ordering r s ≡ Ordering.gt)
          × (Range.ordering s r ≡ Ordering.lt)
          × ((x y : TextSize) → Range.contains r x ≡ true → Range.contains s y ≡ true → y < x))
unfolding Range.ordering Range.contains
ordering_lem r s hr hs = elim (Bool-cases (leb r.end s.start)) [
  | inl before ↦ inr (inl (ground arith, ground arith, λ x y p q. ground arith))
  | inr more ↦ elim (Bool-cases (leb s.end r.start)) [
    | inl behind ↦ inr (inr (ground arith, ground arith, λ x y p q. ground arith))
    | inr meets ↦ inl (ground arith, ground arith, ground arith, ground arith)
  ]
]
