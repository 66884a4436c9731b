-- ===== src/Lsp/Starts.antt =====
-- The starts that the loop of `LineIndex::new` records, and the lines of the text.
use mathlib.Core.Path.{subst}
use postgres_lsp.Prelude.{
  ℕ, ◌+◌, ◌≤◌, ◌<◌, ◌≡◌, refl, sym, List, [], ◌∷◌, ◌++◌, append-nil, append_assoc, length, ◌==◌,
  if◌then◌else◌, lt→ltb, arith, Bool-cases, inl, inr, Returns, Returns-bind, some,
}
use postgres_lsp.TextSize.Size.{TextSize, u32_mod}
use postgres_lsp.TextSize.Size
use postgres_lsp.Document.Content.{Text, len_utf8, byte_len}
use postgres_lsp.Lexer.Slices.{len_utf8_positive}
use postgres_lsp.Lsp.LineIndex.{Indexing, index_char, index_newline, index_other, index_from}

-- The offsets behind the newlines of a text that begins at an offset
abbrev pub starts_after : ℕ → Text → List TextSize
starts_after at [] = []
starts_after at (c ∷ cs) =
    let rest = starts_after (at + len_utf8 c) cs in if c == 10 then (at + 1) ∷ rest else rest

-- The starts of the lines of a text
abbrev pub line_starts : Text → List TextSize
line_starts text = 0 ∷ starts_after 0 text

pub starts_after_few : (at : ℕ) (cs : Text) → length (starts_after at cs) ≤ byte_len cs
unfolding byte_len
starts_after_few at [] = omega arith
starts_after_few at (c ∷ cs) =
    let few = starts_after_few (at + len_utf8 c) cs in
    let positive = len_utf8_positive c in ground arith

pub try_from_fits : (n : ℕ) → n < u32_mod → Size.try_from n ≡ some n
unfolding Size.try_from
try_from_fits n h = rw (lt→ltb _ _ h) refl

newline_start : (at c : ℕ) → c ≡ 10 → at + len_utf8 c < u32_mod → Size.add at (len_utf8 c) ≡ at + 1
unfolding Size.add len_utf8
newline_start at c h fits = ground arith

-- A round adds the start behind a newline.
abbrev Rounded : ℕ → ℕ → Indexing → Indexing → Type 0
Rounded at c s s' = s'.newlines ≡ s.newlines ++ (if c == 10 then (at + 1) ∷ [] else [])

index_char-Rounded :
    (at c : ℕ) (s : Indexing)
    → at + len_utf8 c < u32_mod
    → Returns (Rounded at c s) (index_char at c s)
unfolding index_char index_newline index_other
index_char-Rounded at c s fits = elim (Bool-cases (c == 10)) [
  | inl hit ↦
      let fit : Size.try_from at ≡ some at = try_from_fits at (omega (arith, fits)) in
      let start = newline_start at c (ground (arith, hit)) fits in
      rw (hit, fit, start) (rw hit refl)
  | inr miss ↦ rw miss (rw miss (sym (append-nil s.newlines)))
]

split_starts :
    (at c : ℕ) (cs : Text)
    → starts_after at (c ∷ cs)
      ≡ (if c == 10 then (at + 1) ∷ [] else []) ++ starts_after (at + len_utf8 c) cs
split_starts at c cs = elim (Bool-cases (c == 10)) [ inl e ↦ rw e refl | inr e ↦ rw e refl ]

pub index_from_starts :
    (at : ℕ) (cs : Text) (s : Indexing)
    → at + byte_len cs < u32_mod
    → Returns (λ s'. s'.newlines ≡ s.newlines ++ starts_after at cs) (index_from at cs s)
unfolding index_from byte_len
index_from_starts at [] s fits = sym (append-nil s.newlines)
index_from_starts at (c ∷ cs) s fits =
    Returns-bind (Rounded at c s) (λ s'. s'.newlines ≡ s.newlines ++ starts_after at (c ∷ cs))
      (index_char at c s) (λ s'. index_from (at + len_utf8 c) cs s')
      (index_char-Rounded at c s (omega arith))
      λ s' rounded.
        let whole : s'.newlines ++ starts_after (at + len_utf8 c) cs
            ≡ s.newlines ++ starts_after at (c ∷ cs) =
          rw (rounded, split_starts at c cs) (append_assoc s.newlines _ _) in
        subst
          (λ starts. Returns (λ s''. s''.newlines ≡ starts) (index_from (at + len_utf8 c) cs s'))
          whole (index_from_starts (at + len_utf8 c) cs s' (omega arith))
