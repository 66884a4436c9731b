-- ===== src/Document/Affected.antt =====
-- `get_affected` and `move_ranges` of server/change.rs: which statements a change touches, and how the
-- ranges behind it move.
use postgres_lsp.Prelude.{
  ℕ, suc, Bool, true, false, not, Option, none, some, List, [], ◌∷◌, ◌++◌, get_elem?, min, max,
  ◌&&◌, ltb, leb, if◌then◌else◌, Outcome, ok, panic, out_of_fuel, unwrap, ◌>>=◌,
}
use postgres_lsp.TextSize.Size.{TextSize}
use postgres_lsp.TextSize.Size
use postgres_lsp.TextSize.Range.{TextRange}
use postgres_lsp.TextSize.Range
use postgres_lsp.Document.State.{StatementPos}

pub record Affected : Type 0 where
  pub affected_range : TextRange
  pub affected_indices : List ℕ
  pub prev_index : Option ℕ
  pub next_index : Option ℕ
  pub full_affected_range : TextRange

-- The variables of the loop over the positions.
pub record Search : Type 0 where
  pub start : TextSize
  pub end : TextSize
  pub affected_indices : List ℕ
  pub prev_index : Option ℕ
  pub next_index : Option ℕ

-- `.intersect(…).is_some()`
unfoldable pub intersects : TextRange → TextRange → Bool
unfolding Range.intersect
intersects r s = elim (Range.intersect r s) [
  | ok found ↦ elim found [ some t ↦ true | none ↦ false ]
  | panic ↦ false
  | out_of_fuel ↦ false
]

abbrev pub is_none {ℓ} : {A : Type ℓ} → Option A → Bool
is_none none = true
is_none (some a) = false

-- The loop from an index on.
unfoldable pub search_positions : TextRange → ℕ → List StatementPos → Search → Search
unfolding intersects
search_positions change index [] s = s
search_positions change index ((id, range) ∷ rest) s =
    let hit = search_positions change (suc index) rest (record s {
      affected_indices = s.affected_indices ++ index ∷ [];
      start = min s.start range.start;
      end = max s.end range.end;
    }) in
    let before = search_positions change (suc index) rest (record s { prev_index = some index }) in
    let pass = search_positions change (suc index) rest s in
    if intersects range change
    then hit
    else if leb range.end change.start
    then before
    else if leb change.end range.start && is_none s.next_index
    then record s { next_index = some index }
    else pass

-- `.map(|i| self.positions[i].1)`
unfoldable pub range_at : List StatementPos → Option ℕ → Outcome (Option TextRange)
range_at positions none = ok none
range_at positions (some i) = do (id, range) ← unwrap (get_elem? positions i); ok (some range)

abbrev start_or : TextSize → Option TextRange → TextSize
start_or d none = d
start_or d (some r) = r.start

abbrev end_or : TextSize → Option TextRange → TextSize
end_or d none = d
end_or d (some r) = r.end

abbrev is_empty {ℓ} : {A : Type ℓ} → List A → Bool
is_empty [] = true
is_empty (x ∷ xs) = false

-- How an offset moves: up for an addition, down else, and not at all for a trim at the end.
unfoldable pub moved : Bool → Bool → TextSize → TextSize → TextSize
unfolding Size.add Size.sub
moved is_addition is_trim diff_size offset =
    if is_addition
    then Size.add offset diff_size
    else if not is_trim
    then Size.sub offset diff_size
    else offset

unfoldable pub get_affected :
    List StatementPos → TextRange → TextSize → TextSize → Bool → Outcome Affected
unfolding search_positions range_at moved Range.new
get_affected positions change content_size diff_size is_addition =
    let is_trim = leb content_size change.start in
    let s = search_positions change 0 positions (record {
      start = change.start;
      end = min change.end content_size;
      affected_indices = [];
      prev_index = none;
      next_index = none;
    }) in
    let start = if is_empty s.affected_indices && is_none s.prev_index then 0 else s.start in
    let old_end =
      if is_empty s.affected_indices && is_none s.next_index then content_size else s.end in
    do
      prev ← range_at positions s.prev_index
      next ← range_at positions s.next_index
      let first_start = start_or start prev
      let last_end = moved is_addition is_trim diff_size (end_or old_end next)
      let end = min (moved is_addition is_trim diff_size old_end) content_size
      affected_range ← Range.new (min start end) end
      full_affected_range ← Range.new first_start (max (min last_end content_size) first_start)
      ok (record {
        affected_range = affected_range;
        affected_indices = s.affected_indices;
        prev_index = s.prev_index;
        next_index = s.next_index;
        full_affected_range = full_affected_range;
      })

unfoldable pub move_range : Bool → TextSize → TextRange → Outcome TextRange
move_range is_addition diff_size range =
    if is_addition then Range.add range diff_size else Range.sub range diff_size

-- `for_each` over the positions behind the skipped ones.
unfoldable pub move_all : Bool → TextSize → List StatementPos → Outcome (List StatementPos)
unfolding move_range Range.add Range.sub
move_all is_addition diff_size [] = ok []
move_all is_addition diff_size ((id, range) ∷ rest) = do
  range' ← move_range is_addition diff_size range
  rest' ← move_all is_addition diff_size rest
  ok ((id, range') ∷ rest')

abbrev cons_ok : StatementPos → Outcome (List StatementPos) → Outcome (List StatementPos)
cons_ok p rest = rest >>= λ ps. ok (p ∷ ps)

-- `.skip_while(|(_, r)| offset > r.start())`
unfoldable pub move_ranges :
    TextSize → TextSize → Bool → List StatementPos → Outcome (List StatementPos)
unfolding move_all
move_ranges offset diff_size is_addition [] = ok []
move_ranges offset diff_size is_addition ((id, range) ∷ rest) =
    let skipped = cons_ok (id, range) (move_ranges offset diff_size is_addition rest) in
    if ltb range.start offset then skipped else move_all is_addition diff_size ((id, range) ∷ rest)
