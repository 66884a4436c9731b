-- ===== src/Parsed/Edits.antt =====
-- The bytes of the edit that `edit_from_change` makes.
use postgres_lsp.Prelude.{
  ℕ, ◌+◌, ◌<◌, ◌≡◌, ◌≢◌, refl, sym, ap, ◌∙◌, [], ◌∷◌, ◌++◌, length, append-nil, arith,
}
use postgres_lsp.Document.Content.{Text, byte_len, len_utf8}
use postgres_lsp.Lexer.Slices.{len_utf8_positive}
use postgres_lsp.Parsed.Edit.{
  EditScan, InputEdit, set_start, set_end, count_char, scan_edit, edit_scan, end_of_text,
  edit_from_scan, edit_from_change,
}
use postgres_lsp.Parsed.Scans.{
  ==-true, ==-false, ended, count_char-chars, count_char-start, count_char-end, Scanned,
  set_start-before, scan_edit-Scanned,
}

-- The bytes of an edit.
pub record Bytes (e : InputEdit) (start old_end new_end : ℕ) : Type 0 where
  pub start_eq : e.start_byte ≡ start
  pub old_end_eq : e.old_end_byte ≡ old_end
  pub new_end_eq : e.new_end_byte ≡ new_end

byte_len-positive : (t : Text) → 0 < length t → 0 < byte_len t
unfolding byte_len
byte_len-positive [] h = h
byte_len-positive (c ∷ cs) h = omega (arith, len_utf8_positive c)

-- No end found: it is that of the text.
end_of_text-end :
    (text replacement_text : Text) (n start : ℕ) (s : EditScan)
    → Scanned s n start 0
    → Bytes
        (edit_from_scan (end_of_text text n s) replacement_text)
        start
        (byte_len text)
        (start + byte_len replacement_text)
unfolding end_of_text edit_from_scan
end_of_text-end text replacement_text n start s r =
    rw (==-true n s.chars_counted (sym r.chars_eq), ==-true s.end_byte 0 r.end_eq)
      (record {
        start_eq = r.start_eq;
        old_end_eq = refl;
        new_end_eq = ap (λ k. k + byte_len replacement_text) r.start_eq;
      })

-- A start behind all characters is not found.
scan_edit-past :
    (start idx : ℕ) (t : Text) (s : EditScan)
    → start ≡ s.chars_counted + length t
    → Scanned (scan_edit start start idx t s) start s.start_byte s.end_byte
unfolding scan_edit
scan_edit-past start idx [] s e = record { chars_eq = omega arith; start_eq = refl; end_eq = refl }
scan_edit-past start idx (c ∷ t) s e =
    let chars = count_char-chars c s in
    let before : s.chars_counted ≢ start = λ q. omega arith in
    let rest = scan_edit-past start (idx + len_utf8 c) t (count_char c s) (omega arith) in
    rw (set_start-before start idx s before, ==-false s.chars_counted start before)
      (record {
        chars_eq = rest.chars_eq;
        start_eq = rest.start_eq ∙ count_char-start c s;
        end_eq = rest.end_eq ∙ count_char-end c s;
      })

from_zero : (n : ℕ) → 0 + n ≡ n
from_zero n = omega arith

end_of_text-Bytes :
    (a m b replacement_text : Text) (s : EditScan)
    → 0 < length (a ++ m)
    → Scanned s (length a + length m) (byte_len a) (ended b 0 (byte_len (a ++ m)))
    → Bytes
        (edit_from_scan (end_of_text (a ++ (m ++ b)) (length a + length m) s) replacement_text)
        (byte_len a)
        (byte_len (a ++ m))
        (byte_len a + byte_len replacement_text)
unfolding end_of_text edit_from_scan
end_of_text-Bytes a m [] replacement_text s h r =
    let e =
      end_of_text-end (a ++ (m ++ [])) replacement_text (length a + length m) (byte_len a) s r in
    record {
      start_eq = e.start_eq;
      old_end_eq = e.old_end_eq ∙ ap (λ z. byte_len (a ++ z)) (append-nil m);
      new_end_eq = e.new_end_eq;
    }
end_of_text-Bytes a m (c ∷ b) replacement_text s h r =
    let positive : s.end_byte ≢ 0 = λ q. omega (arith, byte_len-positive (a ++ m) h, r.end_eq) in
    rw
      (
        ==-true (length a + length m) s.chars_counted (sym r.chars_eq),
        ==-false s.end_byte 0 positive,
      )
      (record {
        start_eq = r.start_eq;
        old_end_eq = r.end_eq;
        new_end_eq = ap (λ k. k + byte_len replacement_text) r.start_eq;
      })

-- Take a text in three parts of which the middle one is replaced. Unless the change stands at the very
-- end and takes nothing away, or stands at the very start and takes nothing away, the edit begins
-- behind the bytes of the first part, its old end is behind those of the first two, and its new end
-- behind those of the first part and the replacement. The offsets of the change are counts of
-- characters here, where `modify_statement` gives counts of bytes.
pub edit_from_change-Bytes :
    (a m b replacement_text : Text)
    → 0 < length (m ++ b)
    → 0 < length (a ++ m)
    → Bytes
        (edit_from_change (a ++ (m ++ b)) (length a) (length a + length m) replacement_text)
        (byte_len a)
        (byte_len (a ++ m))
        (byte_len a + byte_len replacement_text)
unfolding edit_from_change edit_scan
edit_from_change-Bytes a m b replacement_text h h' =
    let r =
      scan_edit-Scanned (length a) (length a + length m) 0 a m b edit_scan h (omega arith) refl in
    end_of_text-Bytes a m b replacement_text _ h' (record {
      chars_eq = r.chars_eq;
      start_eq = r.start_eq ∙ from_zero (byte_len a);
      end_eq = r.end_eq ∙ ap (ended b 0) (from_zero (byte_len (a ++ m)));
    })

-- A change that takes nothing away gets wrong bytes at both ends of a text that is not empty. At the
-- start the old end is that of the whole text; at the end the edit begins at the first byte.
pub edit_from_change-ends :
    (c : ℕ) (text replacement_text : Text)
    → Bytes
        (edit_from_change (c ∷ text) 0 0 replacement_text)
        0
        (byte_len (c ∷ text))
        (byte_len replacement_text)
      × Bytes
          (edit_from_change (c ∷ text) (length (c ∷ text)) (length (c ∷ text)) replacement_text)
          0
          (byte_len (c ∷ text))
          (byte_len replacement_text)
unfolding edit_from_change edit_scan edit_from_scan end_of_text scan_edit set_start set_end
edit_from_change-ends c text replacement_text = (
  record { start_eq = refl; old_end_eq = refl; new_end_eq = from_zero (byte_len replacement_text) },
  (let e =
        end_of_text-end (c ∷ text) replacement_text (length (c ∷ text)) 0 _
          (scan_edit-past (length (c ∷ text)) 0 (c ∷ text) edit_scan (sym (from_zero _))) in
      record {
        start_eq = e.start_eq;
        old_end_eq = e.old_end_eq;
        new_end_eq = e.new_end_eq ∙ from_zero (byte_len replacement_text);
      }),
)
