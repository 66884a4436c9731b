-- ===== src/Lsp/LineIndex.antt =====
-- crates/pgt_lsp/src/adapters/line_index.rs, with the types of mod.rs and the conversions of
-- from_lsp.rs and to_lsp.rs. An error of the conversions is `none`.
use postgres_lsp.Prelude.{
  ℕ, zero, suc, ◌+◌, ◌-◌, Option, none, some, List, [], ◌∷◌, ◌++◌, get_elem?, ltb, leb, ◌==◌,
  if◌then◌else◌, Outcome, ok, unwrap, ◌>>=◌,
}
use postgres_lsp.TextSize.Size.{TextSize}
use postgres_lsp.TextSize.Size
use postgres_lsp.Document.Content.{Text, len_utf8}

pub data WideEncoding : Type 0 where
  utf16 utf32 : WideEncoding

pub data PositionEncoding : Type 0 where
  utf8 : PositionEncoding
  wide : WideEncoding → PositionEncoding

-- `PositionEncodingKind` of the protocol.
pub data EncodingKind : Type 0 where
  utf8_kind utf16_kind utf32_kind other_kind : EncodingKind

-- The encodings that the client names, in its order.
unfoldable pub negotiated_encoding : List EncodingKind → PositionEncoding
negotiated_encoding [] = wide utf16
negotiated_encoding (utf8_kind ∷ rest) = utf8
negotiated_encoding (utf32_kind ∷ rest) = wide utf32
negotiated_encoding (utf16_kind ∷ rest) = negotiated_encoding rest
negotiated_encoding (other_kind ∷ rest) = negotiated_encoding rest

-- `LineCol`, `WideLineCol` and `Position` of the protocol have the same two fields; what the column
-- counts is said where one is made.
pub record LineCol : Type 0 where
  pub line : ℕ
  pub col : ℕ

pub record WideChar : Type 0 where
  pub start : TextSize
  pub end : TextSize

unfoldable pub wide_char_len : WideChar → TextSize
wide_char_len c = Size.sub c.end c.start

unfoldable pub wide_len : WideEncoding → WideChar → ℕ
unfolding wide_char_len Size.sub
wide_len utf16 c = if wide_char_len c == 4 then 2 else 1
wide_len utf32 c = 1

-- The map is a list of entries, the newest first.
pub record LineIndex : Type 0 where
  pub newlines : List TextSize
  pub line_wide_chars : List (ℕ × List WideChar)

-- The variables of the loop of `new`.
pub record Indexing : Type 0 where
  pub newlines : List TextSize
  pub line_wide_chars : List (ℕ × List WideChar)
  pub wide_chars : List WideChar
  pub current_col : TextSize
  pub line : ℕ

-- The wide characters seen on a line are saved, where there are any.
unfoldable pub save_wide : ℕ → List WideChar → List (ℕ × List WideChar) → List (ℕ × List WideChar)
save_wide line [] saved = saved
save_wide line (c ∷ cs) saved = (line, c ∷ cs) ∷ saved

unfoldable pub index_newline : ℕ → ℕ → Indexing → Outcome Indexing
unfolding save_wide Size.add Size.try_from
index_newline offset size s = do
  char_offset ← unwrap (Size.try_from offset)
  ok (record {
    newlines = s.newlines ++ Size.add char_offset size ∷ [];
    line_wide_chars = save_wide s.line s.wide_chars s.line_wide_chars;
    wide_chars = [];
    current_col = 0;
    line = suc s.line;
  })

-- A character is ASCII below 0x80.
unfoldable pub index_other : ℕ → ℕ → Indexing → Indexing
unfolding Size.add
index_other char size s = record {
  newlines = s.newlines;
  line_wide_chars = s.line_wide_chars;
  wide_chars =
      if ltb char 0x80
      then s.wide_chars
      else s.wide_chars ++ record { start = s.current_col; end = Size.add s.current_col size } ∷ [];
  current_col = Size.add s.current_col size;
  line = s.line;
}

-- One round of the loop, for the character at an offset.
unfoldable pub index_char : ℕ → ℕ → Indexing → Outcome Indexing
unfolding index_newline index_other len_utf8
index_char offset char s =
    if char == 10
    then index_newline offset (len_utf8 char) s
    else ok (index_other char (len_utf8 char) s)

-- The loop from an offset on.
unfoldable pub index_from : ℕ → Text → Indexing → Outcome Indexing
unfolding index_char
index_from offset [] s = ok s
index_from offset (c ∷ cs) s = do s' ← index_char offset c s; index_from (offset + len_utf8 c) cs s'

-- `LineIndex::new`
unfoldable pub new : Text → Outcome LineIndex
unfolding index_from save_wide
new text = do
  s ← index_from 0 text (record {
    newlines = 0 ∷ [];
    line_wide_chars = [];
    wide_chars = [];
    current_col = 0;
    line = 0;
  })
  ok (record {
    newlines = s.newlines;
    line_wide_chars = save_wide s.line s.wide_chars s.line_wide_chars;
  })

-- `partition_point(|&it| it <= offset)`: over the ascending starts, how many are not above the offset.
unfoldable pub starts_until : TextSize → List TextSize → ℕ
starts_until offset [] = 0
starts_until offset (n ∷ ns) =
    let rest = starts_until offset ns in if leb n offset then suc rest else 0

unfoldable pub column : TextSize → Option TextSize → Option ℕ → Option LineCol
unfolding Size.sub
column offset none line = none
column offset (some start) none = none
column offset (some start) (some line) = some (record { line = line; col = Size.sub offset start })

-- The line behind a count of starts: at 0 the release build wraps, and no line is there.
unfoldable pub line_at : LineIndex → TextSize → ℕ → Option LineCol
unfolding column Size.try_from
line_at index offset zero = none
line_at index offset (suc line) = column offset (get_elem? index.newlines line) (Size.try_from line)

unfoldable pub line_col : LineIndex → TextSize → Option LineCol
unfolding starts_until line_at
line_col index offset = line_at index offset (starts_until offset index.newlines)

unfoldable pub add_col : ℕ → Option TextSize → Option TextSize
unfolding Size.add
add_col col none = none
add_col col (some start) = some (Size.add start col)

unfoldable pub offset : LineIndex → LineCol → Option TextSize
unfolding add_col
offset index p = add_col p.col (get_elem? index.newlines p.line)

-- `line_wide_chars.get(&line)`, with no characters for a line that is not there.
unfoldable pub wide_chars_of : ℕ → List (ℕ × List WideChar) → List WideChar
wide_chars_of line [] = []
wide_chars_of line ((l, cs) ∷ rest) =
    let later = wide_chars_of line rest in if l == line then cs else later

-- The loop of `utf8_to_wide_col`. A character is no longer in code units than in bytes.
unfoldable pub to_wide_loop : WideEncoding → TextSize → List WideChar → ℕ → ℕ
unfolding wide_len wide_char_len
to_wide_loop enc col [] res = res
to_wide_loop enc col (c ∷ cs) res =
    let rest = to_wide_loop enc col cs (res - (wide_char_len c - wide_len enc c)) in
    if leb c.end col then rest else res

unfoldable pub utf8_to_wide_col : LineIndex → WideEncoding → ℕ → TextSize → ℕ
unfolding to_wide_loop wide_chars_of
utf8_to_wide_col index enc line col =
    to_wide_loop enc col (wide_chars_of line index.line_wide_chars) col

-- The loop of `wide_to_utf8_col`.
unfoldable pub to_utf8_loop : WideEncoding → List WideChar → ℕ → ℕ
unfolding wide_len wide_char_len Size.add Size.sub
to_utf8_loop enc [] col = col
to_utf8_loop enc (c ∷ cs) col =
    let rest = to_utf8_loop enc cs (Size.add col (Size.sub (wide_char_len c) (wide_len enc c))) in
    if ltb c.start col then rest else col

unfoldable pub wide_to_utf8_col : LineIndex → WideEncoding → ℕ → ℕ → TextSize
unfolding to_utf8_loop wide_chars_of
wide_to_utf8_col index enc line col =
    to_utf8_loop enc (wide_chars_of line index.line_wide_chars) col

wide_position : ℕ → Option ℕ → Option LineCol
wide_position line none = none
wide_position line (some col) = some (record { line = line; col = col })

unfoldable pub to_wide : LineIndex → WideEncoding → LineCol → Option LineCol
unfolding wide_position utf8_to_wide_col Size.try_from
to_wide index enc p = wide_position p.line (Size.try_from (utf8_to_wide_col index enc p.line p.col))

unfoldable pub to_utf8 : LineIndex → WideEncoding → LineCol → LineCol
unfolding wide_to_utf8_col
to_utf8 index enc p = record { line = p.line; col = wide_to_utf8_col index enc p.line p.col }
