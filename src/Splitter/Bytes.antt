-- ===== src/Splitter/Bytes.antt =====
-- From token ranges to ranges of the text: `finish` of parser.rs.
use postgres_lsp.Prelude.{
  ℕ, zero, suc, ◌≤◌, ◌<◌, ◌≡◌, refl, List, [], ◌∷◌, length, get_or, map, arith, ok, ◌⊎◌, inl, inr,
  lt→ltb, le→leb,
}
use native.Mathlib.Decide.{dec_lt}
use postgres_lsp.TextSize.Range.{TextRange}
use postgres_lsp.Splitter.Token.{Token}
use postgres_lsp.Splitter.Parser.{Tokens, token_at, count, finish_range, finish_ranges}
use postgres_lsp.Splitter.Ranges.{Ordered, Ordered-le, InSome}

-- The spans of the tokens follow one another.
abbrev pub Spans : ℕ → List Token → Type 0
Spans lo [] = Unit {0}
Spans lo (t ∷ ts) = (lo ≤ t.span.start) × (t.span.start ≤ t.span.end) × Spans t.span.end ts

-- Text ranges that follow one another between two offsets.
abbrev pub Follow : ℕ → List TextRange → ℕ → Type 0
Follow lo [] hi = lo ≤ hi
Follow lo (r ∷ rs) hi = (lo ≤ r.start) × (r.start ≤ r.end) × Follow r.end rs hi

-- A span lies in one of the ranges.
abbrev pub Covered : TextRange → List TextRange → Type 0
Covered s [] = ⊥
Covered s (r ∷ rs) = ((r.start ≤ s.start) × (s.end ≤ r.end)) ⊎ Covered s rs

module _ (d : Token) where
  Spans-above :
      (lo : ℕ) (ts : List Token) (i : ℕ)
      → Spans lo ts
      → i < length ts
      → lo ≤ (get_or d ts i).span.start
  Spans-above lo [] i h lt = absurd (omega arith)
  Spans-above lo (t ∷ ts) zero h lt = h.0
  Spans-above lo (t ∷ ts) (suc i) h lt =
      omega (arith, h.0, h.1, Spans-above t.span.end ts i h.2 (omega arith))

  Spans-ordered :
      (lo : ℕ) (ts : List Token) (i : ℕ)
      → Spans lo ts
      → i < length ts
      → (get_or d ts i).span.start ≤ (get_or d ts i).span.end
  Spans-ordered lo [] i h lt = absurd (omega arith)
  Spans-ordered lo (t ∷ ts) zero h lt = h.1
  Spans-ordered lo (t ∷ ts) (suc i) h lt = Spans-ordered t.span.end ts i h.2 (omega arith)

  Spans-apart :
      (lo : ℕ) (ts : List Token) (i j : ℕ)
      → Spans lo ts
      → i < j
      → j < length ts
      → (get_or d ts i).span.end ≤ (get_or d ts j).span.start
  Spans-apart lo [] i j h lt len = absurd (omega arith)
  Spans-apart lo (t ∷ ts) i zero h lt len = absurd (omega arith)
  Spans-apart lo (t ∷ ts) zero (suc j) h lt len = Spans-above t.span.end ts j h.2 (omega arith)
  Spans-apart lo (t ∷ ts) (suc i) (suc j) h lt len =
      Spans-apart t.span.end ts i j h.2 (omega arith) (omega arith)

-- From the start of the first token to the end of the last.
abbrev pub text_range : Tokens → ℕ × ℕ → TextRange
text_range src (a, b) = record {
  start = (token_at src a).span.start;
  end = (token_at src b).span.end;
}

module _ (src : Tokens) (spans : Spans 0 src.tokens) where
  abbrev span_at : ℕ → TextRange
  span_at i = (token_at src i).span

  starts_mono : (i j : ℕ) → i ≤ j → j < count src → (span_at i).start ≤ (span_at j).start
  starts_mono i j le lt = elim (dec_lt i j) [
    | yes below ↦ omega (
      arith,
      Spans-ordered src.eof_token 0 src.tokens i spans (omega arith),
      Spans-apart src.eof_token 0 src.tokens i j spans below lt,
    )
    | no ge ↦ let e : i ≡ j = omega arith in rw e (omega arith)
  ]

  ends_mono : (i j : ℕ) → i ≤ j → j < count src → (span_at i).end ≤ (span_at j).end
  ends_mono i j le lt = elim (dec_lt i j) [
    | yes below ↦ omega (
      arith,
      Spans-ordered src.eof_token 0 src.tokens j spans (omega arith),
      Spans-apart src.eof_token 0 src.tokens i j spans below lt,
    )
    | no ge ↦ let e : i ≡ j = omega arith in rw e (omega arith)
  ]

  span_range : (a b : ℕ) → a ≤ b → b < count src → (span_at a).start ≤ (span_at b).end
  span_range a b le lt =
      omega (arith, starts_mono a b le lt, Spans-ordered src.eof_token 0 src.tokens b spans lt)

  finish_range_lem :
      (a b : ℕ) → a ≤ b → b < count src → finish_range src (a, b) ≡ ok (text_range src (a, b))
  unfolding finish_range
  finish_range_lem a b le lt =
      rw (lt→ltb a (count src) (omega arith), le→leb _ _ (span_range a b le lt))

  -- Token ranges in order become text ranges in order.
  pub finish_ranges-map :
      (lo : ℕ) (rs : List (ℕ × ℕ)) (hi : ℕ)
      → Ordered src lo rs hi
      → hi ≤ count src
      → finish_ranges src rs ≡ ok (map (text_range src) rs)
  unfolding finish_ranges
  finish_ranges-map lo [] hi h le = refl
  finish_ranges-map lo ((a, b) ∷ rs) hi h le =
      let rest = finish_ranges-map (suc b) rs hi h.4 le in
      let lt : b < count src = omega (arith, Ordered-le src (suc b) rs hi h.4) in
      rw (finish_range_lem a b h.1 lt, rest)

  pub map-Follow :
      (lo : ℕ) (rs : List (ℕ × ℕ)) (hi x y : ℕ)
      → Ordered src lo rs hi
      → hi ≤ count src
      → ((i : ℕ) → lo ≤ i → i < count src → x ≤ (span_at i).start)
      → x ≤ y
      → ((i : ℕ) → i < count src → (span_at i).end ≤ y)
      → Follow x (map (text_range src) rs) y
  map-Follow lo [] hi x y h le above xy below = xy
  map-Follow lo ((a, b) ∷ rs) hi x y h le above xy below =
      let lt : b < count src = omega (arith, Ordered-le src (suc b) rs hi h.4) in
      (
        above a h.0 (omega (arith, h.1)),
        span_range a b h.1 lt,
        map-Follow (suc b) rs hi (span_at b).end y h.4 le
            (λ i ge i_lt. Spans-apart src.eof_token 0 src.tokens b i spans ge i_lt) (below b lt)
            below,
      )

  pub map-Covered :
      (lo : ℕ) (rs : List (ℕ × ℕ)) (hi i : ℕ)
      → Ordered src lo rs hi
      → hi ≤ count src
      → InSome i rs
      → Covered (span_at i) (map (text_range src) rs)
  map-Covered lo [] hi i h le found = found
  map-Covered lo ((a, b) ∷ rs) hi i h le (inl (ge, i_le)) =
      let lt : b < count src = omega (arith, Ordered-le src (suc b) rs hi h.4) in
      inl (starts_mono a i ge (omega arith), ends_mono i b i_le lt)
  map-Covered lo ((a, b) ∷ rs) hi i h le (inr later) =
      inr (map-Covered (suc b) rs hi i h.4 le later)
