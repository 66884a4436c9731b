-- ===== src/TextSize/Intersection.antt =====
-- Ranges as sets of offsets.
use postgres_lsp.Prelude.{
  ◌≤◌, ◌<◌, min, max, ◌≡◌, ◌↔◌, ◌⊎◌, inl, inr, true, false, none, some, arith, ltb, Bool-cases, ok,
}
use postgres_lsp.TextSize.Size.{TextSize}
use postgres_lsp.TextSize.Range.{TextRange, IsRange}
use postgres_lsp.TextSize.Range

abbrev Holds : TextRange → TextSize → Type 0
Holds r x = (r.start ≤ x) × (x ≤ r.end)

pub contains_inclusive-Holds :
    (r : TextRange) (x : TextSize) → (Range.contains_inclusive r x ≡ true) ↔ Holds r x
unfolding Range.contains_inclusive
contains_inclusive-Holds r x = ground arith

abbrev shared : TextRange → TextRange → TextRange
shared r s = record { start = max r.start s.start; end = min r.end s.end }

intersect-disjoint :
    (r s : TextRange)
    → ltb (min r.end s.end) (max r.start s.start) ≡ true
    → Range.intersect r s ≡ ok none
unfolding Range.intersect
intersect-disjoint r s h = rw h

intersect-meets :
    (r s : TextRange)
    → ltb (min r.end s.end) (max r.start s.start) ≡ false
    → Range.intersect r s ≡ ok (some (shared r s))
unfolding Range.intersect
intersect-meets r s h = ground arith

-- Of two ranges `intersect` never panics. It is `none` exactly when one range ends before the other
-- starts, and what it returns is a range that holds exactly the offsets that both hold, the end
-- offsets included.
pub intersect-inclusive :
    (r s : TextRange) (x : TextSize)
    → IsRange r
    → IsRange s
    → ((Range.intersect r s ≡ ok none) × ((r.end < s.start) ⊎ (s.end < r.start)))
      ⊎ ((t : TextRange) × (Range.intersect r s ≡ ok (some t))
          × IsRange t
          × ((Range.contains_inclusive t x ≡ true)
              ↔ ((Range.contains_inclusive r x ≡ true) × (Range.contains_inclusive s x ≡ true))))
unfolding Range.contains_inclusive
intersect-inclusive r s x hr hs = elim (Bool-cases (ltb (min r.end s.end) (max r.start s.start))) [
  | inl h ↦ inl (intersect-disjoint r s h, ground arith)
  | inr h ↦ inr (shared r s, intersect-meets r s h, ground arith, ground arith)
]
