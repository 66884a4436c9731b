-- ===== src/Splitter/Tests.antt =====
-- The splitter at concrete tokens.
use postgres_lsp.Prelude.{
  ℕ, zero, suc, ◌<◌, ◌≡◌, refl, Bool, true, false, not, ◌&&◌, ◌||◌, List, [], ◌∷◌, length, get_or,
  arith, ok, out_of_fuel, Outcome, loop,
}
use postgres_lsp.Splitter.Kind.{SyntaxKind, discriminant, is, contains}
use postgres_lsp.Splitter.Token.{
  Token, TokenType, whitespace_tokens, is_relevant, is_irrelevant_token, is_whitespace_type,
}
use postgres_lsp.Splitter.Parser.{
  ParserResult, token_at, count, new, new_tokens, last_end, first_relevant, relevant_from,
}
use postgres_lsp.Splitter.Scan.{find_from, rfind_before}
use postgres_lsp.Splitter.Parser.{
  current, advance, expect, find_last_relevant, look_back, look_ahead, start_stmt, close_stmt,
  finish, finish_ranges,
}
use postgres_lsp.Splitter.Grammar.{
  source, source_round, statement, statement_body, select, insert, update, delete, create, alter,
  cte, cte_round, unknown, unknown_round, start_or_advance, starts_here, at_statement_start,
  behind_newline, parenthesis, parenthesis_round, case, case_round, plpgsql_command, plpgsql_round,
}
use postgres_lsp.Splitter.Cases.{Without}
use postgres_lsp.Splitter.Unknown.{IsClosed}
use postgres_lsp.Splitter.Between.{IsLexed, NoCommand}
use postgres_lsp.Splitter.Bytes.{Spans, Follow, Covered}
use postgres_lsp.Splitter.Split.{split_tokens, split_ranges, split_covers}
use postgres_lsp.Splitter.Hangs.{unterminated_case, unterminated_command}

all_tokens : (Token → Bool) → List Token → Bool
all_tokens test [] = true
all_tokens test (t ∷ ts) = test t && all_tokens test ts

all_tokens_sound :
    (test : Token → Bool) (d : Token) (ts : List Token) (i : ℕ)
    → all_tokens test ts ≡ true
    → i < length ts
    → test (get_or d ts i) ≡ true
unfolding all_tokens
all_tokens_sound test d [] i h lt = absurd (omega arith)
all_tokens_sound test d (t ∷ ts) zero h lt = ground arith
all_tokens_sound test d (t ∷ ts) (suc i) h lt =
    all_tokens_sound test d ts i (ground arith) (omega arith)

all_tokens_everywhere :
    (test : Token → Bool) (d : Token) (ts : List Token) (i : ℕ)
    → all_tokens test ts ≡ true
    → test d ≡ true
    → test (get_or d ts i) ≡ true
unfolding all_tokens
all_tokens_everywhere test d [] i h e = e
all_tokens_everywhere test d (t ∷ ts) zero h e = ground arith
all_tokens_everywhere test d (t ∷ ts) (suc i) h e =
    all_tokens_everywhere test d ts i (ground arith) e

true_of_not : (b : Bool) → not b ≡ true → b ≡ false
true_of_not b h = ground arith

white_of : (a b : Bool) → (not a || b) ≡ true → a ≡ true → b ≡ true
white_of a b h k = ground arith

token : SyntaxKind → TokenType → ℕ → ℕ → Token
token kind type start end = record {
  kind = kind;
  text = 0 ∷ [];
  span = record { start = start; end = end };
  token_type = type;
}

abbrev is_white_kind : Token → Bool
is_white_kind t = not (contains whitespace_tokens t.kind) || is_whitespace_type t

abbrev not_kind : SyntaxKind → Token → Bool
not_kind k t = not (is t.kind k)

lex_ok-IsLexed :
    (tokens : List Token)
    → all_tokens is_white_kind tokens ≡ true
    → all_tokens (not_kind SyntaxKind.eof) tokens ≡ true
    → IsLexed (new_tokens tokens)
unfolding new_tokens
lex_ok-IsLexed tokens white no_eof = record {
  white = λ i lt. white_of _ _ (all_tokens_sound is_white_kind _ tokens i white lt);
  no_eof = λ i lt. true_of_not _ (all_tokens_sound (not_kind SyntaxKind.eof) _ tokens i no_eof lt);
}

none_of :
    (kind : SyntaxKind) (tokens : List Token)
    → all_tokens (not_kind kind) tokens ≡ true
    → (i : ℕ) → i < count (new_tokens tokens)
    → is (token_at (new_tokens tokens) i).kind kind ≡ false
unfolding new_tokens
none_of kind tokens h i lt = true_of_not _ (all_tokens_sound (not_kind kind) _ tokens i h lt)

closes-IsClosed :
    (tokens : List Token)
    → all_tokens (not_kind SyntaxKind.case) tokens ≡ true
    → all_tokens (not_kind SyntaxKind.ascii92) tokens ≡ true
    → IsClosed (new_tokens tokens)
closes-IsClosed tokens a b = record {
  case_ends = λ i lt h. cc (none_of SyntaxKind.case tokens a i lt);
  command_ends = λ i lt h. cc (none_of SyntaxKind.ascii92 tokens b i lt);
}

-- select 1; select 2
two_selects : List Token
unfolding token
two_selects =
    token SyntaxKind.select TokenType.reserved_keyword 0 6
    ∷ token SyntaxKind.whitespace TokenType.whitespace 6 7
    ∷ token (SyntaxKind.other 0) TokenType.no_keyword 7 8
    ∷ token SyntaxKind.ascii59 TokenType.no_keyword 8 9
    ∷ token SyntaxKind.whitespace TokenType.whitespace 9 10
    ∷ token SyntaxKind.select TokenType.reserved_keyword 10 16
    ∷ token SyntaxKind.whitespace TokenType.whitespace 16 17
    ∷ token (SyntaxKind.other 0) TokenType.no_keyword 17 18
    ∷ []

-- The splitter with all its parts open.
split_open : ℕ → List Token → Outcome ParserResult
unfolding split_tokens source source_round statement statement_body start_stmt close_stmt select
    insert update delete create alter cte cte_round unknown unknown_round start_or_advance
    starts_here at_statement_start behind_newline parenthesis parenthesis_round case case_round
    plpgsql_command plpgsql_round loop current advance expect relevant_from find_from rfind_before
    find_last_relevant look_back look_ahead finish finish_ranges new new_tokens first_relevant
    discriminant is_relevant is_irrelevant_token whitespace_tokens token
split_open = split_tokens

two_selects_split :
    split_tokens 30 two_selects
    ≡ ok (record {
      ranges = record { start = 0; end = 9 } ∷ record { start = 10; end = 18 } ∷ [];
      errors = [];
    })
unfolding split_open two_selects
two_selects_split = refl

two_selects-Spans : Spans 0 two_selects
unfolding two_selects token
two_selects-Spans = omega arith

two_selects-IsClosed : IsClosed (new_tokens two_selects)
unfolding all_tokens two_selects token discriminant
two_selects-IsClosed = closes-IsClosed two_selects refl refl

two_selects-IsLexed : IsLexed (new_tokens two_selects)
unfolding all_tokens two_selects token discriminant whitespace_tokens
two_selects-IsLexed = lex_ok-IsLexed two_selects refl refl

two_selects-NoCommand : NoCommand (new_tokens two_selects)
unfolding all_tokens two_selects token discriminant
two_selects-NoCommand = none_of SyntaxKind.ascii92 two_selects refl

split_ranges_example :
    (r : ParserResult) × (split_tokens 30 two_selects ≡ ok r)
    × Follow 0 r.ranges (last_end 0 two_selects)
unfolding new_tokens two_selects
split_ranges_example =
    split_ranges 30 two_selects two_selects-Spans two_selects-IsClosed two_selects-IsLexed
      (omega arith)

split_covers_example :
    (r : ParserResult) × (split_tokens 30 two_selects ≡ ok r)
    × ((i : ℕ)
        → i < count (new_tokens two_selects)
        → is_whitespace_type (token_at (new_tokens two_selects) i) ≡ false
        → Covered (token_at (new_tokens two_selects) i).span r.ranges)
unfolding new_tokens two_selects
split_covers_example =
    split_covers 30 two_selects two_selects-Spans two_selects-IsClosed two_selects-IsLexed
      (omega arith) two_selects-NoCommand

-- select case x
select_case : List Token
unfolding token
select_case =
    token SyntaxKind.select TokenType.reserved_keyword 0 6
    ∷ token SyntaxKind.whitespace TokenType.whitespace 6 7
    ∷ token SyntaxKind.case TokenType.reserved_keyword 7 11
    ∷ token SyntaxKind.whitespace TokenType.whitespace 11 12
    ∷ token SyntaxKind.ident TokenType.no_keyword 12 13
    ∷ []

select_case-IsLexed : IsLexed (new_tokens select_case)
unfolding all_tokens select_case token discriminant whitespace_tokens
select_case-IsLexed = lex_ok-IsLexed select_case refl refl

lacks-Without :
    (kind : SyntaxKind) (tokens : List Token) (i : ℕ)
    → all_tokens (not_kind kind) tokens ≡ true
    → is SyntaxKind.eof kind ≡ false
    → Without (new_tokens tokens) kind i
unfolding new_tokens
lacks-Without kind tokens i h e j le =
    true_of_not _ (all_tokens_everywhere (not_kind kind) _ tokens j h (rw e))

unterminated_case_example : split_tokens 100 select_case ≡ out_of_fuel
unfolding split_open select_case all_tokens
unterminated_case_example =
    unterminated_case 100 select_case select_case-IsLexed refl refl refl
      (lacks-Without SyntaxKind.end_p select_case _ refl refl)

-- A backslash command at the end of the text.
quit : List Token
unfolding token
quit =
    token SyntaxKind.ascii92 TokenType.no_keyword 0 1
    ∷ token SyntaxKind.ident TokenType.no_keyword 1 2
    ∷ []

quit-IsLexed : IsLexed (new_tokens quit)
unfolding all_tokens quit token discriminant whitespace_tokens
quit-IsLexed = lex_ok-IsLexed quit refl refl

unterminated_command_example : split_tokens 100 quit ≡ out_of_fuel
unfolding split_open quit all_tokens
unterminated_command_example =
    unterminated_command 100 quit quit-IsLexed refl refl
      (lacks-Without SyntaxKind.newline quit _ refl refl)
