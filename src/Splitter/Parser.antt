-- ===== src/Splitter/Parser.antt =====
-- The parser's state and methods: crates/pgt_statement_splitter/src/parser.rs. `Tokens` holds the
-- two fields that no method writes, `Parser` the others.
use postgres_lsp.Prelude.{
  ℕ, suc, Bool, true, false, Option, none, some, List, [], ◌∷◌, ◌++◌, length, get_or, ltb,
  if◌then◌else◌, Outcome, ok, assert, unwrap, ◌>>=◌, ◌>>◌,
}
use postgres_lsp.TextSize.Range.{TextRange}
use postgres_lsp.TextSize.Range
use postgres_lsp.Splitter.Kind.{SyntaxKind, is}
use postgres_lsp.Splitter.Token.{Token, is_relevant, is_irrelevant_token}
use postgres_lsp.Splitter.Token
use postgres_lsp.Splitter.Scan.{find_from, rfind_before}

-- The message of the code is "Expected " and the kind.
pub record SplitDiagnostic : Type 0 where
  pub span : Option TextRange
  pub expected : SyntaxKind

pub record ParserResult : Type 0 where
  pub ranges : List TextRange
  pub errors : List SplitDiagnostic

pub record Tokens : Type 0 where
  pub tokens : List Token
  pub eof_token : Token

pub record Parser : Type 0 where
  pub stmt_ranges : List (ℕ × ℕ)
  pub errors : List SplitDiagnostic
  pub current_stmt_start : Option ℕ
  pub current_pos : ℕ

unfoldable pub last_end : ℕ → List Token → ℕ
last_end n [] = n
last_end n (t ∷ ts) = last_end t.span.end ts

-- `while is_irrelevant_token(tokens.get(current_pos).unwrap_or(&eof_token))`, from position 0. The
-- end token is relevant, so the loop stops there.
unfoldable pub first_relevant : List Token → ℕ
first_relevant [] = 0
first_relevant (t ∷ ts) =
    let rest = first_relevant ts in if is_irrelevant_token t then suc rest else 0

-- `Parser::new`
unfoldable pub new_tokens : List Token → Tokens
unfolding last_end Token.eof
new_tokens tokens = record { tokens = tokens; eof_token = Token.eof (last_end 0 tokens) }

unfoldable pub new : List Token → Parser
unfolding first_relevant
new tokens = record {
  stmt_ranges = [];
  errors = [];
  current_stmt_start = none;
  current_pos = first_relevant tokens;
}

abbrev is_none {ℓ} : {A : Type ℓ} → Option A → Bool
is_none none = true
is_none (some a) = false

module _ (src : Tokens) where
  -- The token at a position, the end token behind the last.
  abbrev pub token_at : ℕ → Token
  token_at i = get_or src.eof_token src.tokens i

  abbrev pub count : ℕ
  count = length src.tokens

  unfoldable pub current : Parser → Token
  current p = token_at p.current_pos

  abbrev found_pos : Option (ℕ × Token) → ℕ
  found_pos none = count
  found_pos (some (i, t)) = i

  -- The position of the first relevant token at or behind an index, or the end.
  unfoldable pub relevant_from : ℕ → ℕ
  unfolding find_from
  relevant_from i = found_pos (find_from is_relevant i src.tokens)

  unfoldable pub advance : Parser → Parser
  advance p = record p { current_pos = relevant_from (suc p.current_pos) }

  abbrev found_token {ℓ} : {A : Type ℓ} → Option (ℕ × A) → Option A
  found_token none = none
  found_token (some (i, t)) = some t

  unfoldable pub look_ahead : Parser → Option Token
  unfolding find_from
  look_ahead p = found_token (find_from is_relevant (suc p.current_pos) src.tokens)

  unfoldable pub find_last_relevant : Parser → Option (ℕ × Token)
  find_last_relevant p = rfind_before is_relevant p.current_pos src.tokens

  unfoldable pub look_back : Parser → Option Token
  unfolding find_last_relevant rfind_before
  look_back p = found_token (find_last_relevant p)

  unfoldable pub expect : SyntaxKind → Parser → Parser
  expect kind p = if is (current p).kind kind then advance p else record p {
    errors = p.errors ++ record { span = some (current p).span; expected = kind } ∷ [];
  }

  unfoldable pub start_stmt : Parser → Outcome Parser
  start_stmt p = do
    assert (is_none p.current_stmt_start)
    ok (record p { current_stmt_start = some p.current_pos })

  unfoldable pub close_stmt : Parser → Outcome Parser
  close_stmt p = do
    start_token_pos ← unwrap p.current_stmt_start
    assert (ltb start_token_pos p.current_pos)
    last ← unwrap (find_last_relevant p)
    ok (record p {
      stmt_ranges = p.stmt_ranges ++ (start_token_pos, last.0) ∷ [];
      current_stmt_start = none;
    })

  -- One entry of `finish`: `from.unwrap()` panics for a start behind the last token.
  unfoldable pub finish_range : ℕ × ℕ → Outcome TextRange
  unfolding Range.new
  finish_range (start_token_pos, end_token_pos) = do
    assert (ltb start_token_pos count)
    Range.new (token_at start_token_pos).span.start (token_at end_token_pos).span.end

  unfoldable pub finish_ranges : List (ℕ × ℕ) → Outcome (List TextRange)
  unfolding finish_range
  finish_ranges [] = ok []
  finish_ranges (r ∷ rs) = do first ← finish_range r; rest ← finish_ranges rs; ok (first ∷ rest)

  unfoldable pub finish : Parser → Outcome ParserResult
  finish p = do
    ranges ← finish_ranges p.stmt_ranges
    ok (record { ranges = ranges; errors = p.errors })
