-- ===== src/Splitter/Whole.antt =====
-- `split` of crates/pgt_statement_splitter/src/lib.rs on a text: the lexer and the parser together.
use postgres_lsp.Prelude.{ℕ, Option, List, map, Outcome, ok, ◌>>=◌}
use postgres_lsp.TextSize.Range.{TextRange}
use postgres_lsp.Splitter.Kind.{SyntaxKind}
use postgres_lsp.Splitter.Token.{Token}
use postgres_lsp.Splitter.Parser.{SplitDiagnostic}
use postgres_lsp.Splitter.Split.{split_tokens}
use postgres_lsp.Document.Content.{Text}
use postgres_lsp.Document.State.{SplitResult, parsed, failed}
use postgres_lsp.Lexer.Scanned.{ScanToken, ScanResult, Capture}
use postgres_lsp.Lexer.Merge.{LexResult, lexed, scan_errors, lex}
use postgres_lsp.Lexer.Inputs.{Inputs}

abbrev span_of : SplitDiagnostic → Option TextRange
span_of d = d.span

-- The parser on what the lexer returns.
unfoldable pub split_lexed : ℕ → LexResult → Outcome SplitResult
unfolding split_tokens
split_lexed fuel (scan_errors errors) = ok (failed errors)
split_lexed fuel (lexed tokens) = do
  result ← split_tokens fuel tokens
  ok (parsed result.ranges (map span_of result.errors))

-- `split`
unfoldable pub split :
    (ScanToken → SyntaxKind) → ℕ → Text → List Capture → ScanResult → Outcome SplitResult
unfolding split_lexed lex
split kind_of fuel text captures result = do
  tokens ← lex kind_of text fuel captures result
  split_lexed fuel tokens
