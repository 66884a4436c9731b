-- ===== src/Lexer/Inputs.antt =====
-- What the lexer relies on: how the tokens of the scan and the white space lie in the text.
use postgres_lsp.Prelude.{
  ℕ, ◌≤◌, ◌<◌, ◌≡◌, ◌⊎◌, inl, inr, true, false, List, [], ◌∷◌, ltb, ok, arith, Bool-cases, ltb→lt,
  ◌≢◌,
}
use postgres_lsp.TextSize.Size.{u32_mod}
use postgres_lsp.Splitter.Token.{Token}
use postgres_lsp.Document.Content.{Text, byte_len, slice}
use postgres_lsp.Lexer.Scanned.{ScanToken}
use postgres_lsp.Lexer.Merge.{has_whitespace, drop_before}

-- The tokens of the scan are not empty and follow one another.
abbrev pub ScanSpread : ℕ → List ScanToken → Type 0
ScanSpread lo [] = Unit {0}
ScanSpread lo (t ∷ ts) = (lo ≤ t.start) × (t.start < t.end) × ScanSpread t.end ts

-- So do the pieces of white space.
abbrev pub WhiteSpread : ℕ → List Token → Type 0
WhiteSpread lo [] = Unit {0}
WhiteSpread lo (w ∷ ws) =
    (lo ≤ w.span.start) × (w.span.start < w.span.end) × WhiteSpread w.span.end ws

-- A byte lies in a token of the scan.
abbrev pub InScan : ℕ → List ScanToken → Type 0
InScan p [] = ⊥
InScan p (t ∷ ts) = ((t.start ≤ p) × (p < t.end)) ⊎ InScan p ts

-- A byte lies in a piece of white space.
abbrev pub InWhite : ℕ → List Token → Type 0
InWhite p [] = ⊥
InWhite p (w ∷ ws) = ((w.span.start ≤ p) × (p < w.span.end)) ⊎ InWhite p ws

-- A piece of white space lies in front of a token or behind it, or inside it, where the text of the
-- token holds a space or a newline.
abbrev pub Apart : ScanToken → Text → List Token → Type 0
Apart t y [] = Unit {0}
Apart t y (w ∷ ws) =
    ((w.span.end ≤ t.start)
      ⊎ ((t.end ≤ w.span.start)
          ⊎ ((t.start ≤ w.span.start) × (w.span.end ≤ t.end) × (has_whitespace y ≡ true))))
    × Apart t y ws

-- Every token of the scan cuts a piece out of the text, and no white space sticks out of it.
abbrev pub ScanCuts : Text → List ScanToken → List Token → Type 0
ScanCuts text [] ws = Unit {0}
ScanCuts text (t ∷ ts) ws =
    ((y : Text) × (slice text t.start t.end ≡ ok y) × Apart t y ws) × ScanCuts text ts ws

-- What lies behind an offset.
pub record Inputs (text : Text) (ts : List ScanToken) (ws : List Token) (pos : ℕ) : Type 0 where
  pub fits : byte_len text < u32_mod
  pub scan_spread : ScanSpread pos ts
  pub white_spread : WhiteSpread pos ws
  pub cuts : ScanCuts text ts ws
  pub covered : (p : ℕ) → pos ≤ p → p < byte_len text → InScan p ts ⊎ InWhite p ws

InScan-above : (lo p : ℕ) (ts : List ScanToken) → ScanSpread lo ts → InScan p ts → lo ≤ p
InScan-above lo p [] h i = absurd i
InScan-above lo p (t ∷ ts) h (inl i) = omega arith
InScan-above lo p (t ∷ ts) h (inr i) = omega (arith, InScan-above t.end p ts h.2 i)

InWhite-above : (lo p : ℕ) (ws : List Token) → WhiteSpread lo ws → InWhite p ws → lo ≤ p
InWhite-above lo p [] h i = absurd i
InWhite-above lo p (w ∷ ws) h (inl i) = omega arith
InWhite-above lo p (w ∷ ws) h (inr i) = omega (arith, InWhite-above w.span.end p ws h.2 i)

-- The token in which the first byte lies is the first, and starts there.
pub InScan-first :
    (p : ℕ) (t : ScanToken) (ts : List ScanToken)
    → ScanSpread p (t ∷ ts)
    → InScan p (t ∷ ts)
    → t.start ≡ p
InScan-first p t ts h (inl i) = omega arith
InScan-first p t ts h (inr i) = absurd (omega (arith, InScan-above t.end p ts h.2 i))

pub InWhite-first :
    (p : ℕ) (w : Token) (ws : List Token)
    → WhiteSpread p (w ∷ ws)
    → InWhite p (w ∷ ws)
    → w.span.start ≡ p
InWhite-first p w ws h (inl i) = omega arith
InWhite-first p w ws h (inr i) = absurd (omega (arith, InWhite-above w.span.end p ws h.2 i))

-- What is left of the white space behind a token of the scan that holds white space.
pub drop_before-Spread :
    (lo : ℕ) (t : ScanToken) (y : Text) (ws : List Token)
    → WhiteSpread lo ws
    → WhiteSpread t.end (drop_before t.end ws)
unfolding drop_before
drop_before-Spread lo t y [] h = tt
drop_before-Spread lo t y (w ∷ ws) h = elim (Bool-cases (ltb w.span.start t.end)) [
  | inl gone ↦ rw gone (drop_before-Spread w.span.end t y ws h.2)
  | inr kept ↦ rw kept (ground arith, h.1, h.2)
]

not_in_dropped :
    (p : ℕ) (t : ScanToken) (y : Text) (w : Token) (ws : List Token)
    → t.end ≤ p
    → t.start < t.end
    → w.span.start < t.end
    → Apart t y (w ∷ ws)
    → InWhite p (w ∷ ws)
    → InWhite p ws
not_in_dropped p t y w ws le pos lt a (inr i) = i
not_in_dropped p t y w ws le pos lt (inl before, a) (inl i) = absurd (omega arith)
not_in_dropped p t y w ws le pos lt (inr (inl behind), a) (inl i) = absurd (omega arith)
not_in_dropped p t y w ws le pos lt (inr (inr inside), a) (inl i) = absurd (omega (arith, inside.1))

-- No byte behind the token is lost.
pub drop_before-InWhite :
    (p : ℕ) (t : ScanToken) (y : Text) (ws : List Token)
    → t.end ≤ p
    → t.start < t.end
    → Apart t y ws
    → InWhite p ws
    → InWhite p (drop_before t.end ws)
unfolding drop_before
drop_before-InWhite p t y [] le pos a i = i
drop_before-InWhite p t y (w ∷ ws) le pos a i = elim (Bool-cases (ltb w.span.start t.end)) [
  | inl gone ↦ rw gone (
      drop_before-InWhite p t y ws le pos a.1
        (not_in_dropped p t y w ws le pos (ltb→lt _ _ gone) a i))
  | inr kept ↦ rw kept i
]

drop_before-Apart :
    (n : ℕ) (t : ScanToken) (y : Text) (ws : List Token)
    → Apart t y ws
    → Apart t y (drop_before n ws)
unfolding drop_before
drop_before-Apart n t y [] a = a
drop_before-Apart n t y (w ∷ ws) a = elim (Bool-cases (ltb w.span.start n)) [
  | inl gone ↦ rw gone (drop_before-Apart n t y ws a.1)
  | inr kept ↦ rw kept a
]

pub drop_before-Cuts :
    (text : Text) (n : ℕ) (ts : List ScanToken) (ws : List Token)
    → ScanCuts text ts ws
    → ScanCuts text ts (drop_before n ws)
drop_before-Cuts text n [] ws h = tt
drop_before-Cuts text n (t ∷ ts) ws ((y, cut, a), h) =
    ((y, cut, drop_before-Apart n t y ws a), drop_before-Cuts text n ts ws h)

-- White space that is passed leaves the rest apart.
pub rest-Cuts :
    (text : Text) (ts : List ScanToken) (w : Token) (ws : List Token)
    → ScanCuts text ts (w ∷ ws)
    → ScanCuts text ts ws
rest-Cuts text [] w ws h = tt
rest-Cuts text (t ∷ ts) w ws ((y, cut, a), h) = ((y, cut, a.1), rest-Cuts text ts w ws h)

-- A piece of white space in front of the next token ends in front of it.
pub passed-Spread :
    (text : Text) (t : ScanToken) (ts : List ScanToken) (w : Token) (ws : List Token) (lo : ℕ)
    → ScanSpread lo (t ∷ ts)
    → w.span.start ≡ lo
    → t.start ≢ lo
    → ScanCuts text (t ∷ ts) (w ∷ ws)
    → ScanSpread w.span.end (t ∷ ts)
passed-Spread text t ts w ws lo h at apart ((y, cut, (inl before, a)), rest) = (before, h.1, h.2)
passed-Spread text t ts w ws lo h at apart ((y, cut, (inr (inl behind), a)), rest) =
    absurd (omega (arith, h.0, h.1))
passed-Spread text t ts w ws lo h at apart ((y, cut, (inr (inr inside), a)), rest) =
    absurd (apart (omega (arith, h.0, inside.0)))

-- Without white space in the token, the next piece of white space lies behind it.
pub Apart-Spread :
    (lo : ℕ) (t : ScanToken) (y : Text) (ws : List Token)
    → has_whitespace y ≡ false
    → t.start ≡ lo
    → t.start < t.end
    → Apart t y ws
    → WhiteSpread lo ws
    → WhiteSpread t.end ws
Apart-Spread lo t y [] none_in at pos a h = tt
Apart-Spread lo t y (w ∷ ws) none_in at pos (inl before, a) h = absurd (omega arith)
Apart-Spread lo t y (w ∷ ws) none_in at pos (inr (inl behind), a) h = (behind, h.1, h.2)
Apart-Spread lo t y (w ∷ ws) none_in at pos (inr (inr inside), a) h = cc (none_in, inside.2)

-- Behind a token or a piece of white space, a byte lies in the rest.
pub InScan-rest :
    (p : ℕ) (t : ScanToken) (ts : List ScanToken) → t.end ≤ p → InScan p (t ∷ ts) → InScan p ts
InScan-rest p t ts le (inl i) = absurd (omega arith)
InScan-rest p t ts le (inr i) = i

pub InWhite-rest :
    (p : ℕ) (w : Token) (ws : List Token) → w.span.end ≤ p → InWhite p (w ∷ ws) → InWhite p ws
InWhite-rest p w ws le (inl i) = absurd (omega arith)
InWhite-rest p w ws le (inr i) = i
