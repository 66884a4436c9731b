-- ===== src/Splitter/Ranges.antt =====
-- The statements' token ranges: in order, disjoint, from a relevant token to a relevant token.
use postgres_lsp.Prelude.{ℕ, suc, ◌≤◌, ◌<◌, ◌≡◌, true, List, [], ◌∷◌, ◌++◌, arith, ◌⊎◌, inl, inr}
use postgres_lsp.Splitter.Token.{is_relevant}
use postgres_lsp.Splitter.Parser.{Tokens, token_at}

-- The ranges follow one another between two positions.
abbrev pub Ordered : Tokens → ℕ → List (ℕ × ℕ) → ℕ → Type 0
Ordered src lo [] hi = lo ≤ hi
Ordered src lo ((a, b) ∷ rs) hi =
    (lo ≤ a)
    × (a ≤ b)
    × (is_relevant (token_at src a) ≡ true)
    × (is_relevant (token_at src b) ≡ true)
    × Ordered src (suc b) rs hi

-- A token index lies in one of the ranges.
abbrev pub InSome : ℕ → List (ℕ × ℕ) → Type 0
InSome i [] = ⊥
InSome i ((a, b) ∷ rs) = ((a ≤ i) × (i ≤ b)) ⊎ InSome i rs

pub Ordered-le :
    (src : Tokens) (lo : ℕ) (rs : List (ℕ × ℕ)) (hi : ℕ) → Ordered src lo rs hi → lo ≤ hi
Ordered-le src lo [] hi h = h
Ordered-le src lo ((a, b) ∷ rs) hi h = omega (arith, Ordered-le src (suc b) rs hi h.4)

pub Ordered-mono :
    (src : Tokens) (lo : ℕ) (rs : List (ℕ × ℕ)) (hi hi' : ℕ)
    → Ordered src lo rs hi
    → hi ≤ hi'
    → Ordered src lo rs hi'
Ordered-mono src lo [] hi hi' h le = omega arith
Ordered-mono src lo ((a, b) ∷ rs) hi hi' (x, y, ra, rb, rest) le =
    (x, y, ra, rb, Ordered-mono src (suc b) rs hi hi' rest le)

pub Ordered-push :
    (src : Tokens) (lo : ℕ) (rs : List (ℕ × ℕ)) (a b hi : ℕ)
    → Ordered src lo rs a
    → a ≤ b
    → b < hi
    → is_relevant (token_at src a) ≡ true
    → is_relevant (token_at src b) ≡ true
    → Ordered src lo (rs ++ (a, b) ∷ []) hi
Ordered-push src lo [] a b hi h le lt ra rb = (h, le, ra, rb, lt)
Ordered-push src lo ((c, d) ∷ rs) a b hi (x, y, rc, rd, rest) le lt ra rb =
    (x, y, rc, rd, Ordered-push src (suc d) rs a b hi rest le lt ra rb)

pub InSome-push : (i : ℕ) (rs : List (ℕ × ℕ)) (r : ℕ × ℕ) → InSome i rs → InSome i (rs ++ r ∷ [])
InSome-push i [] r h = absurd h
InSome-push i ((a, b) ∷ rs) r (inl h) = inl h
InSome-push i ((a, b) ∷ rs) r (inr h) = inr (InSome-push i rs r h)

pub InSome-last :
    (i : ℕ) (rs : List (ℕ × ℕ)) (a b : ℕ) → a ≤ i → i ≤ b → InSome i (rs ++ (a, b) ∷ [])
InSome-last i [] a b x y = inl (x, y)
InSome-last i ((c, d) ∷ rs) a b x y = inr (InSome-last i rs a b x y)
