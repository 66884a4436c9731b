-- ===== src/Splitter/Commands.antt =====
-- When `plpgsql_command` ends, and when it does not.
use postgres_lsp.Prelude.{
  ℕ, suc, ◌-◌, ◌≤◌, ◌<◌, ◌≡◌, ◌∙◌, refl, true, arith, ok, out_of_fuel, split_if, continue, Round,
  loop-Returns, loop_endless, Returns,
}
use postgres_lsp.Splitter.Kind.{SyntaxKind, is}
use postgres_lsp.Splitter.Parser.{Tokens, Parser, token_at, count, current, expect}
use postgres_lsp.Splitter.Grammar.{plpgsql_command, plpgsql_round}
use postgres_lsp.Splitter.Moves.{Moves, HasEnd, advance-Moves}
use postgres_lsp.Splitter.Cases.{HasFrom, Without, apart}

-- The parser has stepped from `p` to `q`, token by token, not past `j`.
record Steps (j : ℕ) (p q : Parser) : Type 0 where
  later : p.current_pos ≤ q.current_pos
  before : q.current_pos ≤ j
  same_ranges : q.stmt_ranges ≡ p.stmt_ranges
  same_start : q.current_stmt_start ≡ p.current_stmt_start

module _ (src : Tokens) (has_end : HasEnd src) where
  abbrev left : ℕ → Parser → ℕ
  left j q = j - q.current_pos

  plpgsql_round_ends :
      (j : ℕ) (p q : Parser)
      → j < count src
      → is (token_at src j).kind SyntaxKind.newline ≡ true
      → Steps j p q
      → Returns (Round (Steps j p) (left j) (Moves src p) (left j q)) (plpgsql_round src q)
  unfolding plpgsql_round current
  plpgsql_round_ends j p q inside found s =
      let m = advance-Moves src has_end q (omega arith) in
      split_if (Returns (Round (Steps j p) (left j) (Moves src p) (left j q)))
        (is (current src q).kind SyntaxKind.newline)
        (λ h. record {
          later = omega (arith, m.later);
          stops = m.stops;
          same_ranges = m.same_ranges ∙ s.same_ranges;
          same_start = m.same_start ∙ s.same_start;
        })
        λ h.
          let differ = apart src SyntaxKind.newline q.current_pos j h found in
          (
            record {
              later = omega arith;
              before = omega (arith, differ);
              same_ranges = s.same_ranges;
              same_start = s.same_start;
            },
            omega (arith, differ),
          )

  pub plpgsql_command-Moves :
      (fuel : ℕ) (p : Parser)
      → count src < fuel
      → HasFrom src SyntaxKind.newline (expect src SyntaxKind.ascii92 p).current_pos
      → Returns (Moves src (expect src SyntaxKind.ascii92 p)) (plpgsql_command src fuel p)
  unfolding plpgsql_command
  plpgsql_command-Moves fuel p enough h =
      let q : Parser = expect src SyntaxKind.ascii92 p in
      loop-Returns (Steps h.place q) (left h.place) (Moves src q) (plpgsql_round src)
        (λ r b. plpgsql_round_ends h.place q r h.inside h.is_kind b) fuel q
        (record { later = omega arith; before = h.behind; same_ranges = refl; same_start = refl })
        (omega (arith, h.inside))

  -- A `\` command with no newline behind it: whatever the number of rounds, `plpgsql_command` has
  -- not ended.
  pub plpgsql_command_endless :
      (fuel : ℕ) (p : Parser)
      → Without src SyntaxKind.newline (expect src SyntaxKind.ascii92 p).current_pos
      → plpgsql_command src fuel p ≡ out_of_fuel
  unfolding plpgsql_command
  plpgsql_command_endless fuel p h =
      loop_endless (λ q. Without src SyntaxKind.newline q.current_pos) (λ q. 0) (λ q. Unit {0})
        (plpgsql_round src) goes_on fuel _ h
    where
      goes_on :
          (q : Parser)
          → Without src SyntaxKind.newline q.current_pos
          → (t : Parser) × (plpgsql_round src q ≡ ok (continue t))
            × Without src SyntaxKind.newline t.current_pos
      goes_on q none_left = (
        record q { current_pos = suc q.current_pos },
        unfold plpgsql_round current in rw (none_left q.current_pos (omega arith)),
        λ j le. none_left j (omega arith),
      )
