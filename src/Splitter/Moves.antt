-- ===== src/Splitter/Moves.antt =====
-- How the parser moves over its tokens: `advance` and `expect` go forward, from one relevant token
-- to the next.
use postgres_lsp.Prelude.{
  ℕ, suc, ◌≢◌, ap, ◌≤◌, ◌<◌, ◌≡◌, refl, ◌∙◌, Bool, true, false, Option, none, some, List, [], ◌∷◌,
  length, get_or, arith, Bool-cases, inl, inr,
}
use native.Mathlib.Decide.{dec_le, dec_lt}
use postgres_lsp.Splitter.Kind.{SyntaxKind, discriminant, is}
use postgres_lsp.Splitter.Token.{Token, is_relevant}
use postgres_lsp.Splitter.Scan.{find_from, find_from-FirstFrom, FirstFrom}
use postgres_lsp.Splitter.Parser.{
  Tokens, Parser, token_at, count, current, relevant_from, advance, expect,
}

get_or-length {ℓ} : {A : Type ℓ} (d : A) (xs : List A) → get_or d xs (length xs) ≡ d
get_or-length d [] = refl
get_or-length d (x ∷ xs) = get_or-length d xs

-- A position at which the parser rests: a relevant token, or the end.
pub record IsStop (src : Tokens) (i : ℕ) : Type 0 where
  pub within : i ≤ count src
  pub relevant : is_relevant (token_at src i) ≡ true

-- `j` is the first relevant position at or behind `i`.
pub record Lands (src : Tokens) (i j : ℕ) : Type 0 where
  pub reach : i ≤ count src → i ≤ j
  pub reach_end : i ≤ suc (count src) → i ≤ suc j
  pub stops : IsStop src j
  pub skipped : (k : ℕ) → i ≤ k → k < j → is_relevant (token_at src k) ≡ false

-- The parser rests behind where it was, and no statement was opened or closed.
pub record Moves (src : Tokens) (p q : Parser) : Type 0 where
  pub later : p.current_pos ≤ q.current_pos
  pub stops : IsStop src q.current_pos
  pub same_ranges : q.stmt_ranges ≡ p.stmt_ranges
  pub same_start : q.current_stmt_start ≡ p.current_stmt_start

pub Moves-refl : (src : Tokens) (p : Parser) → IsStop src p.current_pos → Moves src p p
Moves-refl src p s = record {
  later = omega arith;
  stops = s;
  same_ranges = refl;
  same_start = refl;
}

pub Moves-trans : (src : Tokens) {p q r : Parser} → Moves src p q → Moves src q r → Moves src p r
Moves-trans src a b = record {
  later = omega arith;
  stops = b.stops;
  same_ranges = b.same_ranges ∙ a.same_ranges;
  same_start = b.same_start ∙ a.same_start;
}

-- The token behind the last one: relevant, of kind `Eof` and of the type of white space.
pub record HasEnd (src : Tokens) : Type 0 where
  pub relevant : is_relevant src.eof_token ≡ true
  pub kind : src.eof_token.kind ≡ SyntaxKind.eof

module _ (src : Tokens) (has_end : HasEnd src) where
  pub IsStop-count : IsStop src (count src)
  IsStop-count = record {
    within = omega arith;
    relevant = rw (get_or-length src.eof_token src.tokens) has_end.relevant;
  }

  landing :
      (i : ℕ) (r : Option (ℕ × Token))
      → r ≡ find_from is_relevant i src.tokens
      → FirstFrom src.eof_token is_relevant i src.tokens r
      → Lands src i (relevant_from src i)
  unfolding relevant_from
  landing i none e h =
      rw (← e, relevant_from)
        (record { reach = λ le. le; reach_end = λ le. le; stops = IsStop-count; skipped = h })
  landing i (some (j, t)) e h =
      rw (← e, relevant_from)
        (record {
          reach = λ le. h.0;
          reach_end = λ le. omega arith;
          stops = record { within = omega arith; relevant = rw h.2 h.3 };
          skipped = h.4;
        })

  pub relevant_from-Lands : (i : ℕ) → Lands src i (relevant_from src i)
  relevant_from-Lands i =
      landing i _ refl (find_from-FirstFrom src.eof_token is_relevant i src.tokens)

  pub advance-Moves : (p : Parser) → p.current_pos ≤ count src → Moves src p (advance src p)
  unfolding advance
  advance-Moves p s =
      let l = relevant_from-Lands (suc p.current_pos) in
      record {
        later = omega (arith, l.reach_end (omega arith));
        stops = l.stops;
        same_ranges = refl;
        same_start = refl;
      }

  pub advance_strict :
      (p : Parser) → p.current_pos < count src → p.current_pos < (advance src p).current_pos
  unfolding advance
  advance_strict p h = (relevant_from-Lands (suc p.current_pos)).reach h

  -- `advance` does not pass a relevant token.
  pub advance_bound :
      (p : Parser) (j : ℕ)
      → p.current_pos < j
      → is_relevant (token_at src j) ≡ true
      → (advance src p).current_pos ≤ j
  unfolding advance
  advance_bound p j h relevant =
      let l = relevant_from-Lands (suc p.current_pos) in
      elim (dec_le (relevant_from src (suc p.current_pos)) j) [
        | yes le ↦ le
        | no gt ↦ cc (l.skipped j h (omega arith))
      ]

  pub advance_skips :
      (p : Parser) (i : ℕ)
      → p.current_pos < i
      → i < (advance src p).current_pos
      → is_relevant (token_at src i) ≡ false
  unfolding advance
  advance_skips p i behind before =
      (relevant_from-Lands (suc p.current_pos)).skipped i behind before

  -- A token that a test tells apart from the end token does not stand at the end.
  pub before_end :
      (test : Token → Bool) (p : Parser)
      → p.current_pos ≤ count src
      → test (current src p) ≢ test src.eof_token
      → p.current_pos < count src
  unfolding current
  before_end test p le differ = elim (dec_lt p.current_pos (count src)) [
    | yes lt ↦ lt
    | no ge ↦ absurd (
        differ (ap test (ap (token_at src) (omega arith) ∙ get_or-length src.eof_token src.tokens)))
  ]

  pub expect-Moves :
      (kind : SyntaxKind) (p : Parser) → IsStop src p.current_pos → Moves src p (expect src kind p)
  unfolding expect
  expect-Moves kind p s = elim (Bool-cases (is (current src p).kind kind)) [
    | inl hit ↦ rw hit (advance-Moves p s.within)
    | inr miss ↦
        rw miss (record { later = omega arith; stops = s; same_ranges = refl; same_start = refl })
  ]

  pub expect-advance :
      (kind : SyntaxKind) (p : Parser)
      → is (current src p).kind kind ≡ true
      → expect src kind p ≡ advance src p
  unfolding expect
  expect-advance kind p hit = rw hit

  pub not_eof :
      (p : Parser)
      → IsStop src p.current_pos
      → is (current src p).kind SyntaxKind.eof ≡ false
      → p.current_pos < count src
  unfolding discriminant
  not_eof p s h =
      before_end (λ t. is t.kind SyntaxKind.eof) p s.within
        λ e. let at_end : is src.eof_token.kind SyntaxKind.eof ≡ true = rw has_end.kind in cc

-- A token of one kind is not of another.
pub is_other : (k a b : SyntaxKind) → is a b ≡ false → is k a ≡ true → is k b ≡ false
is_other k a b differ h = ground arith

-- The parser has moved on by a token at least.
pub record Advances (src : Tokens) (p q : Parser) : Type 0 where
  pub moves : Moves src p q
  pub further : p.current_pos < q.current_pos

module _ (src : Tokens) (has_end : HasEnd src) (p : Parser) (s : IsStop src p.current_pos) where
  pub advance-Advances :
      is (current src p).kind SyntaxKind.eof ≡ false → Advances src p (advance src p)
  advance-Advances h = record {
    moves = advance-Moves src has_end p s.within;
    further = advance_strict src has_end p (not_eof src has_end p s h);
  }

  pub expect_pos :
      (kind : SyntaxKind)
      → is (current src p).kind kind ≡ true
      → (expect src kind p).current_pos ≡ relevant_from src (suc p.current_pos)
  unfolding advance
  expect_pos kind hit = rw (expect-advance src has_end kind p hit)

  -- What moves on from behind an expected token that is there moves on from the token.
  pub expect-Advances :
      (kind : SyntaxKind) (r : Parser)
      → is kind SyntaxKind.eof ≡ false
      → is (current src p).kind kind ≡ true
      → Moves src (expect src kind p) r
      → Advances src p r
  expect-Advances kind r differ hit m =
      let a = advance-Advances (is_other (current src p).kind kind SyntaxKind.eof differ hit) in
      let n : Moves src (advance src p) r = rw (expect-advance src has_end kind p hit) at m in
      record { moves = Moves-trans src a.moves n; further = omega (arith, a.further, n.later) }
