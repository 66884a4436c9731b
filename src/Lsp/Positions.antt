-- ===== src/Lsp/Positions.antt =====
-- The conversions of crates/pgt_lsp/src/adapters/from_lsp.rs and to_lsp.rs.
use postgres_lsp.Prelude.{Option, none, some, Outcome, ok, ◌>>=◌}
use postgres_lsp.TextSize.Range.{TextRange}
use postgres_lsp.TextSize.Range
use postgres_lsp.TextSize.Size.{TextSize}
use postgres_lsp.Lsp.LineIndex.{
  LineIndex, LineCol, PositionEncoding, utf8, wide, line_col, to_wide, to_utf8,
}
use postgres_lsp.Lsp.LineIndex

-- `from_lsp::offset`
unfoldable pub offset : LineIndex → LineCol → PositionEncoding → Option TextSize
unfolding LineIndex.offset to_utf8
offset index position utf8 = LineIndex.offset index position
offset index position (wide enc) = LineIndex.offset index (to_utf8 index enc position)

unfoldable pub encoded : LineIndex → PositionEncoding → Option LineCol → Option LineCol
unfolding to_wide
encoded index encoding none = none
encoded index utf8 (some p) = some p
encoded index (wide enc) (some p) = to_wide index enc p

-- `to_lsp::position`
unfoldable pub position : LineIndex → TextSize → PositionEncoding → Option LineCol
unfolding line_col encoded
position index o encoding = encoded index encoding (line_col index o)

between : Option TextSize → Option TextSize → Outcome (Option TextRange)
between none end = ok none
between (some start) none = ok none
between (some start) (some end) = do r ← Range.new start end; ok (some r)

-- `from_lsp::text_range`: a range of the protocol is its two positions.
unfoldable pub text_range :
    LineIndex → LineCol × LineCol → PositionEncoding → Outcome (Option TextRange)
unfolding between offset Range.new
text_range index (start, end) encoding =
    between (offset index start encoding) (offset index end encoding)

pair : Option LineCol → Option LineCol → Option (LineCol × LineCol)
pair none end = none
pair (some start) none = none
pair (some start) (some end) = some (start, end)

-- `to_lsp::range`
unfoldable pub range : LineIndex → TextRange → PositionEncoding → Option (LineCol × LineCol)
unfolding pair position
range index r encoding = pair (position index r.start encoding) (position index r.end encoding)
