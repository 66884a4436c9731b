-- ===== src/Parsed/Edit.antt =====
-- server/tree_sitter.rs, `edit_from_change`: the edit that tree-sitter is told of. Its types `Point`
-- and `InputEdit` are tree-sitter's.
use postgres_lsp.Prelude.{ℕ, suc, ◌+◌, ◌-◌, ◌&&◌, [], ◌∷◌, length, ◌==◌, ltb, if◌then◌else◌}
use postgres_lsp.Document.Content.{Text, byte_len, len_utf8}

pub record Point : Type 0 where
  pub row : ℕ
  pub column : ℕ

pub record InputEdit : Type 0 where
  pub start_byte : ℕ
  pub old_end_byte : ℕ
  pub new_end_byte : ℕ
  pub start_position : Point
  pub old_end_position : Point
  pub new_end_position : Point

-- The variables of the loop.
pub record EditScan : Type 0 where
  pub start_byte : ℕ
  pub end_byte : ℕ
  pub chars_counted : ℕ
  pub line : ℕ
  pub current_line_char_start : ℕ
  pub column_start : ℕ
  pub column_end : ℕ

unfoldable pub edit_scan : EditScan
edit_scan = record {
  start_byte = 0;
  end_byte = 0;
  chars_counted = 0;
  line = 0;
  current_line_char_start = 0;
  column_start = 0;
  column_end = 0;
}

unfoldable pub set_start : ℕ → ℕ → EditScan → EditScan
set_start start_char idx s =
    if s.chars_counted == start_char
    then record s { start_byte = idx; column_start = s.chars_counted - s.current_line_char_start }
    else s

unfoldable pub set_end : ℕ → EditScan → EditScan
set_end idx s = record s {
  end_byte = idx;
  column_end = s.chars_counted - s.current_line_char_start;
}

unfoldable pub count_char : ℕ → EditScan → EditScan
count_char c s =
    if c == 10
    then record s {
      line = suc s.line;
      current_line_char_start = suc s.chars_counted;
      chars_counted = suc s.chars_counted;
    }
    else record s { chars_counted = suc s.chars_counted }

-- `for (idx, c) in text.char_indices()`
unfoldable pub scan_edit : ℕ → ℕ → ℕ → Text → EditScan → EditScan
unfolding set_start set_end count_char
scan_edit start_char end_char idx [] s = s
scan_edit start_char end_char idx (c ∷ cs) s =
    let s' = set_start start_char idx s in
    let rest = scan_edit start_char end_char (idx + len_utf8 c) cs (count_char c s') in
    if s'.chars_counted == end_char then set_end idx s' else rest

-- The case of an end at the end of the text.
unfoldable pub end_of_text : Text → ℕ → EditScan → EditScan
end_of_text text end_char s =
    if (end_char == s.chars_counted) && (s.end_byte == 0)
    then record s {
      end_byte = byte_len text;
      column_end = s.chars_counted - s.current_line_char_start;
    }
    else s

-- `replacement_text.matches('\n').count()`
unfoldable pub count_newlines : Text → ℕ
count_newlines [] = 0
count_newlines (c ∷ cs) = let rest = count_newlines cs in if c == 10 then suc rest else rest

-- The characters of the last part of `split('\n')`, behind `n` of them.
unfoldable pub last_part_chars : ℕ → Text → ℕ
last_part_chars n [] = n
last_part_chars n (c ∷ cs) = last_part_chars (if c == 10 then 0 else suc n) cs

unfoldable pub last_line_length : Text → ℕ
unfolding count_newlines last_part_chars
last_line_length t = if ltb 0 (count_newlines t) then last_part_chars 0 t else length t

unfoldable pub new_end_position : Point → Text → Point
unfolding last_line_length count_newlines
new_end_position start replacement_text =
    if ltb 0 (count_newlines replacement_text)
    then record {
      row = start.row + count_newlines replacement_text;
      column = last_line_length replacement_text;
    }
    else record { row = start.row; column = start.column + last_line_length replacement_text }

unfoldable pub edit_from_scan : EditScan → Text → InputEdit
unfolding new_end_position
edit_from_scan s replacement_text =
    let start_point : Point = record { row = s.line; column = s.column_start } in
    record {
      start_byte = s.start_byte;
      old_end_byte = s.end_byte;
      new_end_byte = s.start_byte + byte_len replacement_text;
      start_position = start_point;
      old_end_position = record { row = s.line; column = s.column_end };
      new_end_position = new_end_position start_point replacement_text;
    }

unfoldable pub edit_from_change : Text → ℕ → ℕ → Text → InputEdit
unfolding edit_from_scan end_of_text scan_edit edit_scan
edit_from_change text start_char end_char replacement_text =
    edit_from_scan (end_of_text text end_char (scan_edit start_char end_char 0 text edit_scan))
      replacement_text
