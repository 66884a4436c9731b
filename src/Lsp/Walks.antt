-- ===== src/Lsp/Walks.antt =====
-- The way of a cursor over a text, and the line and column that the starts of the lines give for it.
use postgres_lsp.Prelude.{
  ℕ, suc, ◌+◌, ◌≤◌, ◌≡◌, refl, some, List, [], ◌∷◌, ◌++◌, get_elem?, leb, true, ◌==◌, if◌then◌else◌,
  arith, Bool-cases, inl, inr,
}
use postgres_lsp.TextSize.Size.{TextSize}
use postgres_lsp.Document.Content.{Text, len_utf8, byte_len}
use postgres_lsp.Lexer.Slices.{len_utf8_positive}
use postgres_lsp.Lsp.LineIndex.{LineCol, starts_until}
use postgres_lsp.Lsp.Starts.{starts_after}

-- Where a cursor stands behind a text: a newline leads it to the start of the next line, each other
-- character as far ahead as it has bytes.
abbrev pub walk : LineCol → Text → LineCol
walk p [] = p
walk p (c ∷ cs) =
    let next = walk (record { line = suc p.line; col = 0 }) cs in
    let ahead = walk (record { line = p.line; col = p.col + len_utf8 c }) cs in
    if c == 10 then next else ahead

-- No start behind an offset is counted for it.
starts_until_above : (o at : ℕ) (cs : Text) → o ≤ at → starts_until o (starts_after at cs) ≡ 0
unfolding starts_until
starts_until_above o at [] h = refl
starts_until_above o at (c ∷ cs) h =
    let rest = starts_until_above o (at + len_utf8 c) cs (omega arith) in ground arith

-- The count of starts up to the end of a part gives the line and the column of the cursor there.
pub record Walked (line start : ℕ) (starts : List TextSize) (end : ℕ) (p : LineCol) : Type 0 where
  pub found : TextSize
  pub at_line : get_elem? (start ∷ starts) (starts_until end starts) ≡ some found
  pub line_eq : p.line ≡ line + starts_until end starts
  pub sum : found + p.col ≡ end

next-Walked :
    (line start next end : ℕ) (starts : List TextSize) (p : LineCol)
    → next ≤ end
    → Walked (suc line) next starts end p
    → Walked line start (next ∷ starts) end p
unfolding starts_until
next-Walked line start next end starts p le w =
    let count : starts_until end (next ∷ starts) ≡ suc (starts_until end starts) =
      (let hit : leb next end ≡ true = ground arith in rw hit refl) in
    record {
      found = w.found;
      at_line = rw count w.at_line;
      line_eq = omega (arith, count, w.line_eq);
      sum = w.sum;
    }

pub walk-Walked :
    (line col start at : ℕ) (before rest : Text)
    → start + col ≡ at
    → Walked line start
        (starts_after at (before ++ rest))
        (at + byte_len before)
        (walk (record { line = line; col = col }) before)
unfolding byte_len
walk-Walked line col start at [] rest h =
    let none_yet = starts_until_above (at + 0) at rest (omega arith) in
    record {
      found = start;
      at_line = rw none_yet refl;
      line_eq = omega (arith, none_yet);
      sum = omega arith;
    }
walk-Walked line col start at (c ∷ cs) rest h = elim (Bool-cases (c == 10)) [
  | inl hit ↦
      let w = walk-Walked (suc line) 0 (at + 1) (at + len_utf8 c) cs rest (ground (arith, hit)) in
      let assoc : at + (len_utf8 c + byte_len cs) ≡ at + len_utf8 c + byte_len cs = omega arith in
      let le : at + 1 ≤ at + len_utf8 c + byte_len cs = omega (arith, len_utf8_positive c) in
      rw (hit, assoc)
        (next-Walked line start (at + 1) (at + len_utf8 c + byte_len cs)
          (starts_after (at + len_utf8 c) (cs ++ rest)) _ le w)
  | inr miss ↦
      let w = walk-Walked line (col + len_utf8 c) start (at + len_utf8 c) cs rest (omega arith) in
      let assoc : at + (len_utf8 c + byte_len cs) ≡ at + len_utf8 c + byte_len cs = omega arith in
      rw (miss, assoc) w
]
