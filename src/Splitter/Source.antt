-- ===== src/Splitter/Source.antt =====
-- The loop of `source` ends, without a panic, at the end of the tokens.
use postgres_lsp.Prelude.{
  ℕ, ◌-◌, ◌<◌, ◌≡◌, refl, true, false, arith, Outcome, ok, Flow, continue, split_if, Round, Returns,
  Returns-map, Returns-bind, Bool-cases, inl, inr, ◌>>=◌, loop-Returns,
}
use postgres_lsp.Splitter.Kind.{SyntaxKind, is, discriminant}
use postgres_lsp.Splitter.Token.{is_whitespace_type}
use postgres_lsp.Splitter.Parser.{Tokens, Parser, token_at, count, current, expect}
use postgres_lsp.Splitter.Grammar.{statement, plpgsql_command, source, source_round}
use postgres_lsp.Splitter.Moves.{
  Moves, HasEnd, advance_strict, expect-Advances, expect_pos, not_eof, is_other,
}
use postgres_lsp.Splitter.Commands.{plpgsql_command-Moves}
use postgres_lsp.Splitter.Unknown.{IsClosed, IsEnough}
use postgres_lsp.Splitter.Statements.{CanStart}
use postgres_lsp.Splitter.Closing.{Parsed, statement-Parsed}
use postgres_lsp.Splitter.Between.{
  IsLexed, Between, Finished, skip-Between, after_statement, after_command, newline_kind,
}

module _ (src : Tokens) (has_end : HasEnd src) (closed : IsClosed src) (lexed : IsLexed src)
    (fuel : ℕ) (enough : IsEnough src fuel) where
  abbrev left : Parser → ℕ
  left q = count src - q.current_pos

  abbrev Ahead : Parser → Parser → Type 0
  Ahead p q = Between src q × (left q < left p)

  abbrev Next : Parser → Flow Parser → Type 0
  Next p = Round (Between src) left (Finished src) (left p)

  command_round :
      (p : Parser)
      → Between src p
      → is (current src p).kind SyntaxKind.ascii92 ≡ true
      → Returns (Ahead p) (plpgsql_command src fuel p)
  unfolding current discriminant
  command_round p b hit =
      let lt =
        not_eof src has_end p b.stops (is_other _ SyntaxKind.ascii92 SyntaxKind.eof refl hit) in
      Returns-map (Moves src (expect src SyntaxKind.ascii92 p)) (Ahead p) _
        (plpgsql_command-Moves src has_end fuel p (omega arith) (
          rw (expect_pos src has_end p b.stops SyntaxKind.ascii92 hit)
            (closed.command_ends p.current_pos lt hit)))
        λ r m.
          let a = expect-Advances src has_end p b.stops SyntaxKind.ascii92 r refl hit m in
          (
            after_command src has_end closed lexed fuel enough p r b hit a,
            omega (arith, a.further, m.stops.within),
          )

  statement_round :
      (p : Parser) → Between src p → CanStart src p → Returns (Ahead p) (statement src fuel p)
  statement_round p b c =
      Returns-map (Parsed src p) (Ahead p) _
        (statement-Parsed src has_end closed fuel enough p b.stops b.idle c)
        λ r s. (
          after_statement src has_end closed lexed fuel enough p r b s,
          omega (arith, s.ordered, s.before, s.stops.within),
        )

  goes_on :
      (p : Parser) (m : Outcome Parser)
      → Returns (Ahead p) m
      → Returns (Next p) (m >>= λ q. ok (continue q))
  goes_on p m h = Returns-bind (Ahead p) (Next p) m (λ q. ok (continue q)) h (λ q a. a)

  dark_newline :
      (p : Parser)
      → p.current_pos < count src
      → is_whitespace_type (current src p) ≡ false
      → is (current src p).kind SyntaxKind.newline ≡ false
  unfolding current
  dark_newline p lt dark =
      elim (Bool-cases (is (token_at src p.current_pos).kind SyntaxKind.newline)) [
        | inl hit ↦
            cc (lexed.white p.current_pos lt (newline_kind (token_at src p.current_pos) hit))
        | inr miss ↦ miss
      ]

  round_keeps : (p : Parser) → Between src p → Returns (Next p) (source_round src fuel p)
  unfolding source_round
  round_keeps p b =
      let T : Outcome (Flow Parser) → Type 0 = Returns (Next p) in
      split_if T (is (current src p).kind SyntaxKind.eof) (λ h. record { between = b; at_end = h })
        λ no_end.
          let lt = not_eof src has_end p b.stops no_end in
          split_if T (is_whitespace_type (current src p))
            (λ white. (
              skip-Between src has_end closed lexed fuel enough p b no_end white,
              omega (arith, advance_strict src has_end p lt),
            ))
            λ dark.
              split_if T (is (current src p).kind SyntaxKind.ascii92)
                (λ hit. goes_on p _ (command_round p b hit))
                λ miss. goes_on p _ (
                  statement_round p b (record {
                    no_end = no_end;
                    no_newline = dark_newline p lt dark;
                    no_command = miss;
                  }))

  pub source-Finished : (p : Parser) → Between src p → Returns (Finished src) (source src fuel p)
  unfolding source
  source-Finished p b =
      loop-Returns (Between src) left (Finished src) (source_round src fuel) round_keeps fuel p b
        (omega arith)
