-- ===== src/Splitter/Hangs.antt =====
-- Inputs on which the splitter never returns.
use postgres_lsp.Prelude.{
  ℕ, suc, ◌≡◌, refl, true, false, some, none, List, [], out_of_fuel, loop_stuck,
}
use postgres_lsp.Splitter.Kind.{SyntaxKind, discriminant, is}
use postgres_lsp.Splitter.Token.{Token, is_whitespace_type}
use postgres_lsp.Splitter.Parser.{
  Tokens, Parser, token_at, current, new, new_tokens, first_relevant, advance, start_stmt,
  relevant_from,
}
use postgres_lsp.Splitter.Grammar.{
  case, plpgsql_command, unknown, unknown_round, select, statement, statement_body, source,
  source_round,
}
use postgres_lsp.Splitter.Moves.{IsStop, HasEnd, advance-Moves, expect-advance, is_other}
use postgres_lsp.Splitter.Cases.{Without, case_endless}
use postgres_lsp.Splitter.Commands.{plpgsql_command_endless}
use postgres_lsp.Splitter.Between.{IsLexed}
use postgres_lsp.Splitter.Split.{split_tokens, new_tokens-HasEnd, new-Between}

module _ (src : Tokens) (has_end : HasEnd src) (fuel : ℕ) where
  abbrev kind_of : Parser → SyntaxKind
  kind_of p = (current src p).kind

  unknown_hangs :
      (ex : List SyntaxKind) (p : Parser)
      → is (kind_of p) SyntaxKind.case ≡ true
      → case src fuel p ≡ out_of_fuel
      → unknown src fuel ex p ≡ out_of_fuel
  unfolding unknown discriminant
  unknown_hangs ex p hit e = loop_stuck (unknown_round src fuel ex) fuel p round
    where
      round : unknown_round src fuel ex p ≡ out_of_fuel
      round =
          unfold unknown_round in
          rw (
            is_other (kind_of p) SyntaxKind.case SyntaxKind.ascii59 refl hit,
            is_other (kind_of p) SyntaxKind.case SyntaxKind.newline refl hit,
            is_other (kind_of p) SyntaxKind.case SyntaxKind.eof refl hit,
            hit,
            e,
          )

  statement_hangs :
      (p : Parser)
      → statement_body src fuel (record p { current_stmt_start = some p.current_pos }) ≡ out_of_fuel
      → p.current_stmt_start ≡ none
      → statement src fuel p ≡ out_of_fuel
  unfolding statement start_stmt
  statement_hangs p e idle = simp (idle, e)

  select_hangs :
      (p : Parser)
      → is (kind_of p) SyntaxKind.select ≡ true
      → unknown src fuel [] (advance src p) ≡ out_of_fuel
      → statement_body src fuel p ≡ out_of_fuel
  unfolding statement_body select discriminant
  select_hangs p hit e = rw (
    is_other (kind_of p) SyntaxKind.select SyntaxKind.with_kw refl hit,
    hit,
    expect-advance src has_end SyntaxKind.select p hit,
    e,
  )

  source_hangs :
      (p : Parser)
      → is (kind_of p) SyntaxKind.select ≡ true
      → is_whitespace_type (current src p) ≡ false
      → statement src fuel p ≡ out_of_fuel
      → source src fuel p ≡ out_of_fuel
  unfolding source discriminant
  source_hangs p hit dark e = loop_stuck (source_round src fuel) fuel p round
    where
      round : source_round src fuel p ≡ out_of_fuel
      round =
          unfold source_round in
          rw (
            is_other (kind_of p) SyntaxKind.select SyntaxKind.eof refl hit,
            dark,
            is_other (kind_of p) SyntaxKind.select SyntaxKind.ascii92 refl hit,
            e,
          )

  source_hangs_command :
      (p : Parser)
      → is (kind_of p) SyntaxKind.ascii92 ≡ true
      → is_whitespace_type (current src p) ≡ false
      → plpgsql_command src fuel p ≡ out_of_fuel
      → source src fuel p ≡ out_of_fuel
  unfolding source discriminant
  source_hangs_command p hit dark e = loop_stuck (source_round src fuel) fuel p round
    where
      round : source_round src fuel p ≡ out_of_fuel
      round =
          unfold source_round in
          rw (is_other (kind_of p) SyntaxKind.ascii92 SyntaxKind.eof refl hit, dark, hit, e)

module _ (fuel : ℕ) (tokens : List Token) (lexed : IsLexed (new_tokens tokens)) where
  abbrev src : Tokens
  src = new_tokens tokens

  abbrev first : ℕ
  first = first_relevant tokens

  abbrev second : ℕ
  second = relevant_from src (suc first)

  -- A text that begins with `select case` and has no `END` behind the `case`: whatever the number of
  -- rounds, the splitter has not returned.
  pub unterminated_case :
      is (token_at src first).kind SyntaxKind.select ≡ true
      → is_whitespace_type (token_at src first) ≡ false
      → is (token_at src second).kind SyntaxKind.case ≡ true
      → Without src SyntaxKind.end_p (relevant_from src (suc second))
      → split_tokens fuel tokens ≡ out_of_fuel
  unfolding split_tokens new current advance
  unterminated_case starts dark then_case no_end = rw (
      source_hangs src has_end fuel (new tokens) starts dark (
        statement_hangs src has_end fuel (new tokens)
          (select_hangs src has_end fuel opened starts (
            unknown_hangs src has_end fuel [] (advance src opened) then_case (
              case_endless src has_end fuel (advance src opened) stops (
                rw (expect-advance src has_end SyntaxKind.case (advance src opened) then_case)
                  no_end))))
          refl))
    where
      has_end : HasEnd src
      has_end = new_tokens-HasEnd tokens

      opened : Parser
      opened = record (new tokens) { current_stmt_start = some first }

      stops : IsStop src (advance src opened).current_pos
      stops = (advance-Moves src has_end opened (new-Between tokens lexed).stops.within).stops

  -- A text that begins with a backslash and has no newline behind the token that follows it: whatever
  -- the number of rounds, the splitter has not returned.
  pub unterminated_command :
      is (token_at src first).kind SyntaxKind.ascii92 ≡ true
      → is_whitespace_type (token_at src first) ≡ false
      → Without src SyntaxKind.newline second
      → split_tokens fuel tokens ≡ out_of_fuel
  unfolding split_tokens new current advance
  unterminated_command starts dark no_newline = rw (
      source_hangs_command src has_end fuel (new tokens) starts dark (
        plpgsql_command_endless src has_end fuel (new tokens)
          (rw (expect-advance src has_end SyntaxKind.ascii92 (new tokens) starts) no_newline)))
    where
      has_end : HasEnd src
      has_end = new_tokens-HasEnd tokens
