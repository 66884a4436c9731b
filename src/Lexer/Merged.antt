-- ===== src/Lexer/Merged.antt =====
-- The loop of `lex` ends, without a panic, at the end of the text.
use postgres_lsp.Prelude.{
  ℕ, ◌+◌, ◌-◌, ◌≤◌, ◌<◌, ◌≡◌, ◌≢◌, refl, ◌∙◌, ◌⊎◌, inl, inr, true, false, List, [], ◌∷◌, ◌++◌, ok,
  arith, ltb, ◌==◌, lt→ltb, ltb→lt, le→leb, Bool-cases, Returns, Returns-bind, Round, loop,
  loop-Returns, split_if, continue,
}
use mathlib.Core.Path.{subst}
use postgres_lsp.TextSize.Size.{u32_mod}
use postgres_lsp.TextSize.Size
use postgres_lsp.TextSize.Range
use postgres_lsp.Splitter.Kind.{SyntaxKind, is, contains}
use postgres_lsp.Splitter.Token.{Token, whitespace_tokens}
use postgres_lsp.Document.Content.{Text, byte_len, slice, text_len}
use postgres_lsp.Lexer.Scanned.{ScanToken, token_type}
use postgres_lsp.Lexer.Merge.{
  Merge, has_whitespace, drop_before, take_scanned, take_white, next_white, next_token, merge_round,
}
use postgres_lsp.Lexer.Inputs.{
  Inputs, InScan, InWhite, ScanSpread, WhiteSpread, ScanCuts, InScan-first, InWhite-first,
  drop_before-Spread, drop_before-InWhite, drop_before-Cuts, rest-Cuts, passed-Spread, Apart-Spread,
  InScan-rest, InWhite-rest,
}
use postgres_lsp.Lexer.Built.{
  Built, AllCut, Typed, cut_bounds, push-Built, Built-within, drop_before-AllCut,
}

pub text_len-ok : (t : Text) → byte_len t < u32_mod → text_len t ≡ ok (byte_len t)
unfolding text_len Size.try_from
text_len-ok t h = rw (lt→ltb _ _ h) refl

equal_test : (a b : ℕ) → a ≡ b → (a == b) ≡ true
equal_test a b h = ground arith

same_of : (a b : ℕ) → (a == b) ≡ true → a ≡ b
same_of a b h = ground arith

different_test : (a b : ℕ) → (a == b) ≡ false → a ≢ b
different_test a b h e = ground arith

add-fits : (a b : ℕ) → a + b < u32_mod → Size.add a b ≡ a + b
unfolding Size.add
add-fits a b h = omega arith

range_new-ok : (s e : ℕ) → s ≤ e → Range.new s e ≡ ok (record { start = s; end = e })
unfolding Range.new
range_new-ok s e h = rw (le→leb _ _ h) refl

-- Only the two comment kinds are whitespace kinds, and no kind is that of the end: the generated
-- `SyntaxKind::from` maps each number of libpg_query to the kind of its name.
pub record KindsAgree (kind_of : ScanToken → SyntaxKind) : Type 0 where
  pub comments :
      (t : ScanToken)
      → contains whitespace_tokens (kind_of t) ≡ true
      → (t.token ≡ 275) ⊎ (t.token ≡ 276)
  pub no_eof : (t : ScanToken) → is (kind_of t) SyntaxKind.eof ≡ false

-- The token made of a token of the scan.
abbrev pub made : (ScanToken → SyntaxKind) → ScanToken → Text → Token
made kind_of t y = record {
  kind = kind_of t;
  text = y;
  span = record { start = t.start; end = t.end };
  token_type = token_type t;
}

made-Typed :
    (kind_of : ScanToken → SyntaxKind) (t : ScanToken) (y : Text)
    → KindsAgree kind_of
    → Typed (made kind_of t y)
unfolding token_type
made-Typed kind_of t y agree = (
  λ white. elim (agree.comments t white) [ inl sql ↦ rw sql refl | inr c ↦ rw c refl ],
  agree.no_eof t,
)

pub record Merging (text : Text) (m : Merge) : Type 0 where
  pub inputs : Inputs text m.scan_tokens m.white m.pos
  pub built : Built text m.tokens m.pos
  pub whites : AllCut text m.white

module _ (kind_of : ScanToken → SyntaxKind) (agree : KindsAgree kind_of) (text : Text) where
  abbrev left : Merge → ℕ
  left m = byte_len text - m.pos

  abbrev state : ℕ → List ScanToken → List Token → List Token → Merge
  state pos ts ws toks = record { pos = pos; scan_tokens = ts; white = ws; tokens = toks }

  abbrev After : Merge → Merge → Type 0
  After m m' = Merging text m' × (left m' < left m)

  white_rest :
      (p : ℕ) (w : Token) (ws : List Token) (ts : List ScanToken)
      → w.span.end ≤ p
      → InScan p ts ⊎ InWhite p (w ∷ ws)
      → InScan p ts ⊎ InWhite p ws
  white_rest p w ws ts le (inl i) = inl i
  white_rest p w ws ts le (inr i) = inr (InWhite-rest p w ws le i)

  scan_rest :
      (p : ℕ) (t : ScanToken) (ts : List ScanToken) (ws white : List Token)
      → t.end ≤ p
      → (InWhite p ws → InWhite p white)
      → InScan p (t ∷ ts) ⊎ InWhite p ws
      → InScan p ts ⊎ InWhite p white
  scan_rest p t ts ws white le keep (inl i) = inl (InScan-rest p t ts le i)
  scan_rest p t ts ws white le keep (inr i) = inr (keep i)

  -- The state behind a token of the scan, whatever is kept of the white space.
  scanned_state :
      (t : ScanToken) (y : Text) (ts : List ScanToken) (ws toks : List Token) (pos : ℕ)
      → Merging text (state pos (t ∷ ts) ws toks)
      → t.start ≡ pos
      → pos < byte_len text
      → slice text t.start t.end ≡ ok y
      → (white : List Token) → WhiteSpread t.end white
      → ScanCuts text ts white
      → ((p : ℕ) → t.end ≤ p → InWhite p ws → InWhite p white)
      → AllCut text white
      → After (state pos (t ∷ ts) ws toks) (state t.end ts white (toks ++ made kind_of t y ∷ []))
  scanned_state t y ts ws toks pos h at inside cut white spread cuts keep whites = (
    record {
      inputs = record {
        fits = h.inputs.fits;
        scan_spread = h.inputs.scan_spread.2;
        white_spread = spread;
        cuts = cuts;
        covered = λ p le lt.
            scan_rest p t ts ws white le (keep p le)
              (h.inputs.covered p (omega (arith, h.inputs.scan_spread)) lt);
      };
      built =
          push-Built text toks pos h.built (made kind_of t y) cut at h.inputs.scan_spread.1
            (made-Typed kind_of t y agree);
      whites = whites;
    },
    omega (arith, h.inputs.scan_spread.1),
  )

  take_scanned-After :
      (t : ScanToken) (ts : List ScanToken) (ws toks : List Token) (pos : ℕ)
      → Merging text (state pos (t ∷ ts) ws toks)
      → t.start ≡ pos
      → pos < byte_len text
      → Returns
          (After (state pos (t ∷ ts) ws toks))
          (take_scanned kind_of text t ts (state pos (t ∷ ts) ws toks))
  unfolding take_scanned
  take_scanned-After t ts ws toks pos h at inside =
      let ((y, cut, apart), cuts) = h.inputs.cuts in
      let (size, bound) = cut_bounds text toks pos h.built t.start t.end y at cut in
      let step : t.start < t.end = h.inputs.scan_spread.1 in
      let end : Size.add pos (byte_len y) ≡ t.end =
        add-fits pos (byte_len y) (omega (arith, h.inputs.fits)) ∙ omega arith in
      rw
        (
          cut,
          text_len-ok y (omega (arith, h.inputs.fits)),
          range_new-ok t.start t.end (omega arith),
          end,
        )
        (elim (Bool-cases (has_whitespace y)) [
          | inl holds ↦ rw holds (
              scanned_state t y ts ws toks pos h at inside cut (drop_before t.end ws)
                (drop_before-Spread pos t y ws h.inputs.white_spread)
                (drop_before-Cuts text t.end ts ws cuts)
                (λ p le. drop_before-InWhite p t y ws le step apart)
                (drop_before-AllCut text t.end ws h.whites))
          | inr holds_none ↦ rw holds_none (
              scanned_state t y ts ws toks pos h at inside cut ws
                (Apart-Spread pos t y ws holds_none at step apart h.inputs.white_spread) cuts
                (λ p le i. i) h.whites)
        ])

  take_white-After :
      (w : Token) (ws toks : List Token) (ts : List ScanToken) (pos : ℕ)
      → Merging text (state pos ts (w ∷ ws) toks)
      → w.span.start ≡ pos
      → pos < byte_len text
      → ScanSpread w.span.end ts
      → Returns
          (After (state pos ts (w ∷ ws) toks))
          (take_white kind_of text w ws (state pos ts (w ∷ ws) toks))
  unfolding take_white
  take_white-After w ws toks ts pos h at inside passed =
      let ((cut, typed), whites) = h.whites in
      let (size, bound) = cut_bounds text toks pos h.built w.span.start w.span.end w.text at cut in
      let step : w.span.start < w.span.end = h.inputs.white_spread.1 in
      let end : Size.add pos (byte_len w.text) ≡ w.span.end =
        add-fits pos (byte_len w.text) (omega (arith, h.inputs.fits)) ∙ omega arith in
      rw (text_len-ok w.text (omega (arith, h.inputs.fits)), end)
        (
          record {
            inputs = record {
              fits = h.inputs.fits;
              scan_spread = passed;
              white_spread = h.inputs.white_spread.2;
              cuts = rest-Cuts text ts w ws h.inputs.cuts;
              covered = λ p le lt.
                  white_rest p w ws ts le
                    (h.inputs.covered p (omega (arith, h.inputs.white_spread.0)) lt);
            };
            built = push-Built text toks pos h.built w cut at step typed;
            whites = whites;
          },
          omega arith,
        )

  next_white-After :
      (ts : List ScanToken) (ws toks : List Token) (pos : ℕ)
      → Merging text (state pos ts ws toks)
      → pos < byte_len text
      → InWhite pos ws
      → ((w : Token) (rest : List Token)
          → ws ≡ w ∷ rest
          → w.span.start ≡ pos
          → ScanSpread w.span.end ts)
      → Returns (After (state pos ts ws toks)) (next_white kind_of text ws (state pos ts ws toks))
  unfolding next_white
  next_white-After ts [] toks pos h inside i passed = absurd i
  next_white-After ts (w ∷ ws) toks pos h inside i passed =
      let at : w.span.start ≡ pos = InWhite-first pos w ws h.inputs.white_spread i in
      rw (equal_test w.span.start pos at)
        (take_white-After w ws toks ts pos h at inside (passed w ws refl at))

  only_white : (p : ℕ) (ws : List Token) → InScan p [] ⊎ InWhite p ws → InWhite p ws
  only_white p ws (inl i) = absurd i
  only_white p ws (inr i) = i

  not_scan :
      (p : ℕ) (t : ScanToken) (ts : List ScanToken) (ws : List Token)
      → t.start ≢ p
      → ScanSpread p (t ∷ ts)
      → InScan p (t ∷ ts) ⊎ InWhite p ws
      → InWhite p ws
  not_scan p t ts ws apart spread (inl i) = absurd (apart (InScan-first p t ts spread i))
  not_scan p t ts ws apart spread (inr i) = i

  next_token-After :
      (ts : List ScanToken) (ws toks : List Token) (pos : ℕ)
      → Merging text (state pos ts ws toks)
      → pos < byte_len text
      → Returns (After (state pos ts ws toks)) (next_token kind_of text ts (state pos ts ws toks))
  unfolding next_token
  next_token-After [] ws toks pos h inside =
      next_white-After [] ws toks pos h inside
        (only_white pos ws (h.inputs.covered pos (omega arith) inside)) (λ w rest e at. tt)
  next_token-After (t ∷ ts) ws toks pos h inside =
      split_if (Returns (After (state pos (t ∷ ts) ws toks))) (t.start == pos)
        (λ here. take_scanned-After t ts ws toks pos h (same_of t.start pos here) inside)
        λ apart.
          next_white-After (t ∷ ts) ws toks pos h inside
            (not_scan pos t ts ws (different_test t.start pos apart) h.inputs.scan_spread
              (h.inputs.covered pos (omega arith) inside))
            λ w rest e at.
              passed-Spread text t ts w rest pos h.inputs.scan_spread at
                (different_test t.start pos apart)
                (subst (λ z. ScanCuts text (t ∷ ts) z) e h.inputs.cuts)

  abbrev pub Done : Merge → Type 0
  Done m = Merging text m × (m.pos ≡ byte_len text)

  Round-keeps :
      (m : Merge)
      → Merging text m
      → Returns (Round (Merging text) left Done (left m)) (merge_round kind_of text m)
  unfolding merge_round
  Round-keeps m h = rw (text_len-ok text h.inputs.fits) (
      split_if (Returns (Round (Merging text) left Done (left m))) (ltb m.pos (byte_len text))
        (λ inside.
          Returns-bind (After m) (Round (Merging text) left Done (left m)) _
            (λ m'. ok (continue m'))
            (next_token-After m.scan_tokens m.white m.tokens m.pos h (ltb→lt _ _ inside))
            (λ m' a. a))
        λ at_end. (h, ground (arith, Built-within text m.tokens m.pos h.built)))

  -- With more rounds than bytes, the loop comes to the end of the text.
  pub merge-Done :
      (fuel : ℕ) (m : Merge)
      → Merging text m
      → byte_len text < fuel
      → Returns Done (loop fuel (merge_round kind_of text) m)
  merge-Done fuel m h enough =
      loop-Returns (Merging text) left Done (merge_round kind_of text) Round-keeps fuel m h
        (omega arith)
