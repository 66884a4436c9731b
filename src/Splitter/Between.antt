-- ===== src/Splitter/Between.antt =====
-- The parser between two statements: what each round of `source` keeps.
use postgres_lsp.Prelude.{ℕ, ◌≤◌, ◌<◌, ◌≡◌, ◌∙◌, true, false, none, [], ◌∷◌, ◌++◌, arith}
use native.Mathlib.Decide.{dec_lt, dec_le}
use postgres_lsp.Splitter.Kind.{SyntaxKind, is, contains}
use postgres_lsp.Splitter.Token.{
  Token, is_relevant, is_irrelevant_token, is_whitespace_type, whitespace_tokens,
}
use postgres_lsp.Splitter.Parser.{Tokens, Parser, token_at, count, current, advance}
use postgres_lsp.Splitter.Moves.{IsStop, Moves, Advances, HasEnd, advance-Moves, advance_skips}
use postgres_lsp.Splitter.Unknown.{IsClosed, IsEnough}
use postgres_lsp.Splitter.Closing.{Parsed}
use postgres_lsp.Splitter.Ranges.{
  Ordered, Ordered-mono, Ordered-push, InSome, InSome-push, InSome-last,
}

-- What the lexer keeps: a token of a whitespace kind has the whitespace type, and no token is of the
-- kind that the end has.
pub record IsLexed (src : Tokens) : Type 0 where
  pub white :
      (i : ℕ)
      → i < count src
      → contains whitespace_tokens (token_at src i).kind ≡ true
      → is_whitespace_type (token_at src i) ≡ true
  pub no_eof : (i : ℕ) → i < count src → is (token_at src i).kind SyntaxKind.eof ≡ false

-- No token is a backslash.
abbrev pub NoCommand : Tokens → Type 0
NoCommand src = (i : ℕ) → i < count src → is (token_at src i).kind SyntaxKind.ascii92 ≡ false

-- The state of the parser between two statements.
pub record Between (src : Tokens) (p : Parser) : Type 0 where
  pub stops : IsStop src p.current_pos
  pub idle : p.current_stmt_start ≡ none
  pub ordered : Ordered src 0 p.stmt_ranges p.current_pos
  pub covered :
      NoCommand src
      → (i : ℕ) → i < p.current_pos
      → is_whitespace_type (token_at src i) ≡ false
      → InSome i p.stmt_ranges

-- At the end of the tokens.
pub record Finished (src : Tokens) (p : Parser) : Type 0 where
  pub between : Between src p
  pub at_end : is (current src p).kind SyntaxKind.eof ≡ true

pub irrelevant_kind : (t : Token) → is_relevant t ≡ false → contains whitespace_tokens t.kind ≡ true
unfolding is_relevant is_irrelevant_token whitespace_tokens
irrelevant_kind t h = ground arith

pub newline_kind :
    (t : Token) → is t.kind SyntaxKind.newline ≡ true → contains whitespace_tokens t.kind ≡ true
unfolding whitespace_tokens
newline_kind t h = ground arith

module _ (src : Tokens) (has_end : HasEnd src) (closed : IsClosed src) (lexed : IsLexed src)
    (fuel : ℕ) (enough : IsEnough src fuel) where
  irrelevant_white :
      (i : ℕ)
      → i < count src
      → is_relevant (token_at src i) ≡ false
      → is_whitespace_type (token_at src i) ≡ true
  irrelevant_white i lt h = lexed.white i lt (irrelevant_kind _ h)

  -- Moving on over tokens of the whitespace type.
  skip_white :
      (p q : Parser)
      → Between src p
      → Moves src p q
      → ((i : ℕ)
          → p.current_pos ≤ i
          → i < q.current_pos
          → NoCommand src
          → is_whitespace_type (token_at src i) ≡ true)
      → Between src q
  skip_white p q b m white = record {
    stops = m.stops;
    idle = m.same_start ∙ b.idle;
    ordered = rw m.same_ranges (Ordered-mono src 0 p.stmt_ranges _ _ b.ordered m.later);
    covered = λ none_is i before dark. rw m.same_ranges (covered none_is i before dark);
  }
    where
      covered :
          NoCommand src
          → (i : ℕ) → i < q.current_pos
          → is_whitespace_type (token_at src i) ≡ false
          → InSome i p.stmt_ranges
      covered none_is i before dark = elim (dec_lt i p.current_pos) [
        | yes old ↦ b.covered none_is i old dark
        | no ge ↦ cc (white i (omega arith) before none_is)
      ]

  pub skip-Between :
      (p : Parser)
      → Between src p
      → is (current src p).kind SyntaxKind.eof ≡ false
      → is_whitespace_type (current src p) ≡ true
      → Between src (advance src p)
  unfolding current
  skip-Between p b no_end white = skip_white p (advance src p) b m λ i ge lt _. here i ge lt
    where
      m : Moves src p (advance src p)
      m = advance-Moves src has_end p b.stops.within

      here :
          (i : ℕ)
          → p.current_pos ≤ i
          → i < (advance src p).current_pos
          → is_whitespace_type (token_at src i) ≡ true
      here i ge lt = elim (dec_lt p.current_pos i) [
        | yes behind ↦
            irrelevant_white i (omega (arith, m.stops.within))
              (advance_skips src has_end p i behind lt)
        | no at_start ↦ let e : i ≡ p.current_pos = omega arith in rw e white
      ]

  pub after_statement : (p r : Parser) → Between src p → Parsed src p r → Between src r
  after_statement p r b s = record {
    stops = s.stops;
    idle = s.idle;
    ordered = rw s.added (
        Ordered-push src 0 p.stmt_ranges p.current_pos s.last r.current_pos b.ordered s.ordered
          s.before b.stops.relevant s.last_relevant);
    covered = λ none_is i before dark. rw s.added (covered none_is i before dark);
  }
    where
      covered :
          NoCommand src
          → (i : ℕ) → i < r.current_pos
          → is_whitespace_type (token_at src i) ≡ false
          → InSome i (p.stmt_ranges ++ (p.current_pos, s.last) ∷ [])
      covered none_is i before dark = elim (dec_lt i p.current_pos) [
        | yes old ↦ InSome-push i p.stmt_ranges _ (b.covered none_is i old dark)
        | no ge ↦ elim (dec_le i s.last) [
          | yes inside ↦ InSome-last i p.stmt_ranges p.current_pos s.last (omega arith) inside
          | no gt ↦ cc (
              irrelevant_white i (omega (arith, s.stops.within)) (s.skipped i (omega arith) before))
        ]
      ]

  -- A command adds no range.
  pub after_command :
      (p r : Parser)
      → Between src p
      → is (current src p).kind SyntaxKind.ascii92 ≡ true
      → Advances src p r
      → Between src r
  unfolding current
  after_command p r b hit a =
      skip_white p r b a.moves
        λ i _ _ none_is. cc (none_is p.current_pos (omega (arith, a.further, a.moves.stops.within)))
