-- ===== src/TextSize/Tests.antt =====
-- The laws of text ranges at concrete ranges.
use Prim.Native.Nat.{Ordering}
use postgres_lsp.Prelude.{◌≤◌, ◌<◌, ◌+◌, ◌≡◌, ◌↔◌, ◌⊎◌, true, arith, none, some, ok, panic, max}
use postgres_lsp.TextSize.Size.{TextSize, u32_mod}
use postgres_lsp.TextSize.Range.{TextRange, IsRange}
use postgres_lsp.TextSize.Range
use postgres_lsp.TextSize.Intersection.{intersect-inclusive}
use postgres_lsp.TextSize.Shifts.{add-sub, cover_least, ordering_lem}

abbrev low : TextRange
low = record { start = 2; end = 7 }

abbrev high : TextRange
high = record { start = 5; end = 9 }

intersect-inclusive_example :
    ((Range.intersect low high ≡ ok none) × ((low.end < high.start) ⊎ (high.end < low.start)))
    ⊎ ((t : TextRange) × (Range.intersect low high ≡ ok (some t))
        × IsRange t
        × ((Range.contains_inclusive t 6 ≡ true)
            ↔ ((Range.contains_inclusive low 6 ≡ true) × (Range.contains_inclusive high 6 ≡ true))))
intersect-inclusive_example = intersect-inclusive low high 6 (omega arith) (omega arith)

add-sub_example :
    ((u32_mod ≤ low.end + 3) × (Range.add low 3 ≡ panic))
    ⊎ ((s : TextRange) × (Range.add low 3 ≡ ok s)
        × IsRange s
        × (Range.len s ≡ Range.len low)
        × (Range.sub s 3 ≡ ok low))
add-sub_example = add-sub low 3 (omega arith)

cover_least_example :
    (t : TextRange) × (Range.cover low high ≡ ok t)
    × (Range.contains_range t low ≡ true)
    × (Range.contains_range t high ≡ true)
    × ((u : TextRange)
        → Range.contains_range u low ≡ true
        → Range.contains_range u high ≡ true
        → Range.contains_range u t ≡ true)
cover_least_example = cover_least low high (omega arith) (omega arith)

ordering_lem_example :
    ((Range.ordering low high ≡ Ordering.eq)
      × (Range.ordering high low ≡ Ordering.eq)
      × (Range.contains low (max low.start high.start) ≡ true)
      × (Range.contains high (max low.start high.start) ≡ true))
    ⊎ ((Range.ordering low high ≡ Ordering.lt)
        × (Range.ordering high low ≡ Ordering.gt)
        × ((x y : TextSize) → Range.contains low x ≡ true → Range.contains high y ≡ true → x < y))
    ⊎ ((Range.ordering low high ≡ Ordering.gt)
        × (Range.ordering high low ≡ Ordering.lt)
        × ((x y : TextSize) → Range.contains low x ≡ true → Range.contains high y ≡ true → y < x))
ordering_lem_example = ordering_lem low high (omega arith) (omega arith)
