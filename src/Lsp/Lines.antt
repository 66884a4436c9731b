-- ===== src/Lsp/Lines.antt =====
-- The lines of an index, and the way from an offset to its position and back.
use mathlib.Core.Path.{subst}
use postgres_lsp.Prelude.{
  ℕ, zero, suc, ◌+◌, ◌≤◌, ◌<◌, ◌≡◌, refl, sym, some, List, [], ◌∷◌, ◌++◌, get_elem?, length, leb,
  arith, Bool-cases, inl, inr, ok, Returns, Returns-bind, Returns-value,
}
use postgres_lsp.TextSize.Size.{TextSize, u32_mod}
use postgres_lsp.TextSize.Size
use postgres_lsp.Document.Content.{Text, byte_len}
use postgres_lsp.Lexer.Slices.{byte_len-append}
use postgres_lsp.Lsp.LineIndex.{
  LineIndex, LineCol, Indexing, utf8, index_char, index_newline, index_other, index_from,
  starts_until, line_at, line_col, column, add_col,
}
use postgres_lsp.Lsp.LineIndex
use postgres_lsp.Lsp.Starts.{
  starts_after, starts_after_few, try_from_fits, index_from_starts, line_starts,
}
use postgres_lsp.Lsp.Positions.{position, offset, encoded}
use postgres_lsp.Lsp.Walks.{walk, Walked, walk-Walked}

starts_until-le : (o : TextSize) (ns : List TextSize) → starts_until o ns ≤ length ns
unfolding starts_until
starts_until-le o [] = omega arith
starts_until-le o (n ∷ ns) = ground (arith, starts_until-le o ns)

-- The last start that is counted is not above the offset.
starts_until_last :
    (o : TextSize) (ns : List TextSize) (i : ℕ)
    → starts_until o ns ≡ suc i
    → (s : TextSize) × (get_elem? ns i ≡ some s) × (s ≤ o)
unfolding starts_until
starts_until_last o [] i h = absurd (omega arith)
starts_until_last o (n ∷ ns) zero h = (n, refl, ground arith)
starts_until_last o (n ∷ ns) (suc i) h = starts_until_last o ns i (ground arith)

-- The next start is above it.
starts_until_next :
    (o : TextSize) (ns : List TextSize) (s : TextSize)
    → get_elem? ns (starts_until o ns) ≡ some s
    → o < s
unfolding starts_until
starts_until_next o [] s h = cc
starts_until_next o (n ∷ ns) s h = elim (Bool-cases (leb n o)) [
  | inl le ↦
      let count : starts_until o (n ∷ ns) ≡ suc (starts_until o ns) = rw le refl in
      starts_until_next o ns s (subst (λ i. get_elem? (n ∷ ns) i ≡ some s) count h)
  | inr gt ↦
      let count : starts_until o (n ∷ ns) ≡ 0 = rw gt refl in
      let first : some n ≡ some s = subst (λ i. get_elem? (n ∷ ns) i ≡ some s) count h in
      let same : n ≡ s = cc first in rw (sym same) (ground arith)
]

-- What `new` returns for a text shorter than 4 GiB: the starts of its lines.
abbrev Indexed : Text → LineIndex → Type 0
Indexed text index = index.newlines ≡ line_starts text

new-Indexed : (text : Text) → byte_len text < u32_mod → Returns (Indexed text) (LineIndex.new text)
unfolding LineIndex.new
new-Indexed text fits =
    Returns-bind (λ s. s.newlines ≡ line_starts text) (Indexed text) _ _
      (index_from_starts 0 text _ (omega (arith, fits))) λ s started. started

add_back : (s o : ℕ) → s ≤ o → o < u32_mod → Size.add s (Size.sub o s) ≡ o
unfolding Size.add Size.sub
add_back s o le fits = omega arith

plus_zero : (n : ℕ) → 0 + n ≡ n
plus_zero n = omega arith

add_sum : (s c o : ℕ) → s + c ≡ o → o < u32_mod → Size.add s c ≡ o
unfolding Size.add
add_sum s c o h fits = omega arith

sub_sum : (s c o : ℕ) → s + c ≡ o → o < u32_mod → Size.sub o s ≡ c
unfolding Size.sub
sub_sum s c o h fits = omega arith

-- The position of an offset, and the offset of the position.
abbrev pub Returning : LineIndex → TextSize → Type 0
Returning index o =
    (p : LineCol) × (position index o utf8 ≡ some p)
    × (offset index p utf8 ≡ some o)
    × ((s : TextSize) → get_elem? index.newlines (suc p.line) ≡ some s → o < s)

first_counts :
    (o : TextSize) (ns rest : List TextSize)
    → ns ≡ 0 ∷ rest
    → starts_until o ns ≡ suc (starts_until o rest)
unfolding starts_until
first_counts o ns rest e = rw (e, starts_until) (ground arith)

index_returns :
    (index : LineIndex) (rest : List TextSize) (o : TextSize)
    → index.newlines ≡ 0 ∷ rest
    → length index.newlines ≤ u32_mod
    → o < u32_mod
    → Returning index o
unfolding position encoded offset line_col line_at LineIndex.offset
index_returns index rest o first few below =
    let count : starts_until o index.newlines ≡ suc (starts_until o rest) =
      first_counts o index.newlines rest first in
    let (s, found, le) = starts_until_last o index.newlines (starts_until o rest) count in
    let line_fits : starts_until o rest < u32_mod =
      omega (arith, starts_until-le o index.newlines) in
    (
      record { line = starts_until o rest; col = Size.sub o s },
      rw (count, found, try_from_fits (starts_until o rest) line_fits) refl,
      rw (found, add_col, add_back s o le below) refl,
      λ next at_next.
          starts_until_next o index.newlines next
            (subst (λ i. get_elem? index.newlines i ≡ some next) (sym count) at_next),
    )

-- The position of the end of a part of the text.
index_walked :
    (index : LineIndex) (before rest : Text)
    → index.newlines ≡ line_starts (before ++ rest)
    → length index.newlines ≤ u32_mod
    → byte_len before < u32_mod
    → (position index (byte_len before) utf8 ≡ some (walk (record { line = 0; col = 0 }) before))
      × (offset index (walk (record { line = 0; col = 0 }) before) utf8 ≡ some (byte_len before))
unfolding position encoded offset line_col line_at LineIndex.offset
index_walked index before rest starts few below =
    let p = walk (record { line = 0; col = 0 }) before in
    let starts' = starts_after 0 (before ++ rest) in
    let w =
      subst (λ e. Walked 0 0 starts' e p) (plus_zero (byte_len before))
        (walk-Walked 0 0 0 0 before rest refl) in
    let count = first_counts (byte_len before) index.newlines starts' starts in
    let found =
      subst (λ ns. get_elem? ns (starts_until (byte_len before) starts') ≡ some w.found)
        (sym starts) w.at_line in
    let small : starts_until (byte_len before) starts' < u32_mod =
      omega (arith, starts_until-le (byte_len before) index.newlines, count, few) in
    let line : starts_until (byte_len before) starts' ≡ p.line = omega (arith, w.line_eq) in
    let col : Size.sub (byte_len before) w.found ≡ p.col =
      sub_sum w.found p.col (byte_len before) w.sum below in
    let back : get_elem? index.newlines p.line ≡ some w.found =
      subst (λ i. get_elem? index.newlines i ≡ some w.found) line found in
    (
      rw (count, found, try_from_fits _ small, line, col) refl,
      rw (back, add_col, add_sum w.found p.col (byte_len before) w.sum below) refl,
    )

-- Take a text shorter than 4 GiB in two parts. Its index is made without a panic and holds the starts
-- of its lines, 0 and the offsets behind the newlines. The UTF-8 position of the offset between the
-- parts is where a cursor stands that has walked over the first, and its own offset is that one. Every
-- `u32` offset has a UTF-8 position, whose own offset it is, and the line behind that of the position,
-- where there is one, starts above the offset.
pub position-offset :
    (before rest : Text) (o : TextSize)
    → byte_len (before ++ rest) < u32_mod
    → o < u32_mod
    → (index : LineIndex) × (LineIndex.new (before ++ rest) ≡ ok index)
      × (index.newlines ≡ line_starts (before ++ rest))
      × (position index (byte_len before) utf8 ≡ some (walk (record { line = 0; col = 0 }) before))
      × (offset index (walk (record { line = 0; col = 0 }) before) utf8 ≡ some (byte_len before))
      × Returning index o
position-offset before rest o fits below =
    let (index, made, starts) =
      Returns-value (Indexed (before ++ rest)) (LineIndex.new (before ++ rest))
        (new-Indexed (before ++ rest) fits) in
    let few : length index.newlines ≤ u32_mod =
      rw starts (omega (arith, starts_after_few 0 (before ++ rest), fits)) in
    let shorter : byte_len before < u32_mod = omega (arith, byte_len-append before rest, fits) in
    let (at_walk, back) = index_walked index before rest starts few shorter in
    (index, made, starts, at_walk, back, index_returns index _ o starts few below)
