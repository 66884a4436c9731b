-- ===== src/Lsp/Tests.antt =====
-- Positions in a concrete text.
use postgres_lsp.Prelude.{◌≡◌, refl, some, ok, [], ◌∷◌, arith, Option, Outcome, ◌>>=◌}
use postgres_lsp.TextSize.Size.{TextSize, u32_mod}
use postgres_lsp.TextSize.Size
use postgres_lsp.Document.Content.{Text, byte_len, len_utf8}
use postgres_lsp.Lsp.LineIndex.{
  LineIndex, LineCol, utf8, wide, utf16, PositionEncoding, line_col, index_from, index_newline,
  index_other, starts_until, to_wide, to_utf8, save_wide, wide_chars_of, to_wide_loop, to_utf8_loop,
  wide_len, wide_char_len,
}
use postgres_lsp.Lsp.LineIndex
use postgres_lsp.Lsp.Positions.{position, offset}
use postgres_lsp.Lsp.Starts.{line_starts}
use postgres_lsp.Lsp.Lines.{Returning, position-offset}

-- "a", a newline, and an en dash in front of "b"
abbrev dashed : Text
dashed = 97 ∷ 10 ∷ 0x2013 ∷ 98 ∷ []

position-offset_example :
    (index : LineIndex) × (LineIndex.new dashed ≡ ok index)
    × (index.newlines ≡ line_starts dashed)
    × (position index 5 utf8 ≡ some (record { line = 1; col = 3 }))
    × (offset index (record { line = 1; col = 3 }) utf8 ≡ some 5)
    × Returning index 4
unfolding byte_len len_utf8
position-offset_example =
    position-offset (97 ∷ 10 ∷ 0x2013 ∷ []) (98 ∷ []) 4 (omega arith) (omega arith)

-- The position of an offset in a text.
position_in : Text → TextSize → PositionEncoding → Outcome (Option LineCol)
unfolding LineIndex.new index_from index_newline index_other save_wide position line_col
    starts_until to_wide to_wide_loop wide_chars_of wide_len wide_char_len len_utf8 Size.add
    Size.sub Size.try_from
position_in text o encoding = do index ← LineIndex.new text; ok (position index o encoding)

-- The "b" stands at byte 5, which is byte 3 and code unit 1 of its line.
utf8_position : position_in dashed 5 utf8 ≡ ok (some (record { line = 1; col = 3 }))
unfolding position_in
utf8_position = refl

utf16_position : position_in dashed 5 (wide utf16) ≡ ok (some (record { line = 1; col = 1 }))
unfolding position_in
utf16_position = refl
