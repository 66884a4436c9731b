-- ===== src/Parsed/Scans.antt =====
-- What the loop of `edit_from_change` finds in a text.
use postgres_lsp.Prelude.{
  ℕ, suc, ◌+◌, ◌-◌, ◌<◌, ◌≡◌, ◌≢◌, refl, sym, ap, ◌∙◌, true, false, [], ◌∷◌, ◌++◌, length, ◌==◌,
  arith,
}
use mathlib.Core.Path.{subst}
use postgres_lsp.Document.Content.{Text, byte_len, len_utf8}
use postgres_lsp.Parsed.Edit.{EditScan, set_start, set_end, count_char, scan_edit}

pub ==-true : (a b : ℕ) → a ≡ b → (a == b) ≡ true
==-true a b h = ground arith

pub ==-false : (a b : ℕ) → a ≢ b → (a == b) ≡ false
==-false a b h = ground arith

-- The end found by the loop: none where nothing stands behind it.
abbrev pub ended : Text → ℕ → ℕ → ℕ
ended [] kept found = kept
ended (c ∷ cs) kept found = found

pub count_char-chars : (c : ℕ) (s : EditScan) → (count_char c s).chars_counted ≡ suc s.chars_counted
unfolding count_char
count_char-chars c s = ground arith

pub count_char-start : (c : ℕ) (s : EditScan) → (count_char c s).start_byte ≡ s.start_byte
unfolding count_char
count_char-start c s = ground arith

pub count_char-end : (c : ℕ) (s : EditScan) → (count_char c s).end_byte ≡ s.end_byte
unfolding count_char
count_char-end c s = ground arith

-- What the loop leaves.
pub record Scanned (r : EditScan) (chars start_byte end_byte : ℕ) : Type 0 where
  pub chars_eq : r.chars_counted ≡ chars
  pub start_eq : r.start_byte ≡ start_byte
  pub end_eq : r.end_byte ≡ end_byte

set_start-behind :
    (start idx : ℕ) (s : EditScan) → start < s.chars_counted → set_start start idx s ≡ s
unfolding set_start
set_start-behind start idx s h = rw (==-false s.chars_counted start (omega arith)) refl

pub set_start-before :
    (start idx : ℕ) (s : EditScan) → s.chars_counted ≢ start → set_start start idx s ≡ s
unfolding set_start
set_start-before start idx s h = rw (==-false s.chars_counted start h) refl

-- Behind the start, up to the end.
scan_edit-end :
    (start end idx : ℕ) (m b : Text) (s : EditScan)
    → start < s.chars_counted
    → end ≡ s.chars_counted + length m
    → Scanned
        (scan_edit start end idx (m ++ b) s)
        end
        s.start_byte
        (ended b s.end_byte (idx + byte_len m))
unfolding scan_edit byte_len set_end
scan_edit-end start end idx [] [] s h e = record {
  chars_eq = omega arith;
  start_eq = refl;
  end_eq = refl;
}
scan_edit-end start end idx [] (c ∷ b) s h e =
    rw (set_start-behind start idx s h, ==-true s.chars_counted end (omega arith))
      (record { chars_eq = omega arith; start_eq = refl; end_eq = omega arith })
scan_edit-end start end idx (c ∷ m) b s h e =
    let chars = count_char-chars c s in
    let apart : s.chars_counted ≢ end = λ q. omega arith in
    let rest =
      scan_edit-end start end (idx + len_utf8 c) m b (count_char c s) (omega arith) (omega arith) in
    let moved : idx + len_utf8 c + byte_len m ≡ idx + (len_utf8 c + byte_len m) = omega arith in
    rw (set_start-behind start idx s h, ==-false s.chars_counted end apart)
      (record {
        chars_eq = rest.chars_eq;
        start_eq = rest.start_eq ∙ count_char-start c s;
        end_eq =
            rest.end_eq
            ∙ (ap (λ k. ended b k (idx + len_utf8 c + byte_len m)) (count_char-end c s)
                ∙ ap (ended b s.end_byte) moved);
      })

-- From the start on: the first character sets it.
scan_edit-here :
    (start end idx c : ℕ) (m b : Text) (s : EditScan)
    → s.chars_counted ≡ start
    → end ≡ s.chars_counted + length (c ∷ m)
    → Scanned
        (scan_edit start end idx (c ∷ (m ++ b)) s)
        end
        idx
        (ended b s.end_byte (idx + byte_len (c ∷ m)))
unfolding scan_edit byte_len set_start
scan_edit-here start end idx c m b s e e' =
    let s' : EditScan = record s {
      start_byte = idx;
      column_start = s.chars_counted - s.current_line_char_start;
    } in
    let chars = count_char-chars c s' in
    let apart : s.chars_counted ≢ end = λ q. omega arith in
    let rest =
      scan_edit-end start end (idx + len_utf8 c) m b (count_char c s') (omega arith)
        (omega arith) in
    let moved : idx + len_utf8 c + byte_len m ≡ idx + (len_utf8 c + byte_len m) = omega arith in
    rw (==-true s.chars_counted start e, ==-false s.chars_counted end apart)
      (record {
        chars_eq = rest.chars_eq;
        start_eq = rest.start_eq ∙ count_char-start c s';
        end_eq =
            rest.end_eq
            ∙ (ap (λ k. ended b k (idx + len_utf8 c + byte_len m)) (count_char-end c s')
                ∙ ap (ended b s.end_byte) moved);
      })

scan_edit-insert :
    (start end idx c : ℕ) (b : Text) (s : EditScan)
    → s.chars_counted ≡ start
    → s.chars_counted ≡ end
    → Scanned (scan_edit start end idx (c ∷ b) s) end idx idx
unfolding scan_edit set_start set_end
scan_edit-insert start end idx c b s e e' =
    rw (==-true s.chars_counted start e, ==-true s.chars_counted end e')
      (record { chars_eq = e'; start_eq = refl; end_eq = refl })

-- The loop finds a start in front of a character, and an end that is.
pub scan_edit-Scanned :
    (start end idx : ℕ) (a m b : Text) (s : EditScan)
    → 0 < length (m ++ b)
    → start ≡ s.chars_counted + length a
    → end ≡ start + length m
    → Scanned
        (scan_edit start end idx (a ++ (m ++ b)) s)
        end
        (idx + byte_len a)
        (ended b s.end_byte (idx + byte_len (a ++ m)))
unfolding scan_edit byte_len
scan_edit-Scanned start end idx [] [] [] s h e e' = elim h [ ]
scan_edit-Scanned start end idx [] [] (c ∷ b) s h e e' =
    let here : idx + 0 ≡ idx = omega arith in
    subst (λ k. Scanned (scan_edit start end idx (c ∷ b) s) end k k) (sym here)
      (scan_edit-insert start end idx c b s (omega arith) (omega arith))
scan_edit-Scanned start end idx [] (c ∷ m) b s h e e' =
    let here : idx + 0 ≡ idx = omega arith in
    subst
      (λ k.
        Scanned (scan_edit start end idx (c ∷ (m ++ b)) s) end k
          (ended b s.end_byte (idx + byte_len (c ∷ m))))
      (sym here) (scan_edit-here start end idx c m b s (omega arith) (omega arith))
scan_edit-Scanned start end idx (c ∷ a) m b s h e e' =
    let chars = count_char-chars c s in
    let before : s.chars_counted ≢ start = λ q. omega arith in
    let before' : s.chars_counted ≢ end = λ q. omega arith in
    let rest =
      scan_edit-Scanned start end (idx + len_utf8 c) a m b (count_char c s) h (omega arith) e' in
    let moved : (n : ℕ) → idx + len_utf8 c + n ≡ idx + (len_utf8 c + n) = λ n. omega arith in
    rw (set_start-before start idx s before, ==-false s.chars_counted end before')
      (record {
        chars_eq = rest.chars_eq;
        start_eq = rest.start_eq ∙ moved (byte_len a);
        end_eq =
            rest.end_eq
            ∙ (ap (λ k. ended b k (idx + len_utf8 c + byte_len (a ++ m))) (count_char-end c s)
                ∙ ap (ended b s.end_byte) (moved (byte_len (a ++ m))));
      })
