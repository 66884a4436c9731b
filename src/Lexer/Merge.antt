-- ===== src/Lexer/Merge.antt =====
-- `lex` of crates/pgt_lexer/src/lib.rs: the two token lists merged into one.
use postgres_lsp.Prelude.{
  ℕ, Bool, false, List, [], ◌∷◌, ◌++◌, ◌||◌, ◌==◌, ltb, if◌then◌else◌, Outcome, ok, panic, ◌>>=◌,
  Flow, stop, continue, loop, Option,
}
use postgres_lsp.TextSize.Size.{TextSize}
use postgres_lsp.TextSize.Size
use postgres_lsp.TextSize.Range.{TextRange}
use postgres_lsp.TextSize.Range
use postgres_lsp.Splitter.Kind.{SyntaxKind}
use postgres_lsp.Splitter.Token.{Token}
use postgres_lsp.Document.Content.{Text, slice, text_len}
use postgres_lsp.Lexer.Scanned.{
  ScanToken, ScanResult, scanned, failed, Capture, token_type, whitespace_tokens,
}

-- The variables of the loop.
pub record Merge : Type 0 where
  pub pos : TextSize
  pub scan_tokens : List ScanToken
  pub white : List Token
  pub tokens : List Token

pub data LexResult : Type 0 where
  lexed : List Token → LexResult
  scan_errors : List (Option TextRange) → LexResult

-- `token_text.contains(" ") || token_text.contains("\n")`
unfoldable pub has_whitespace : Text → Bool
has_whitespace [] = false
has_whitespace (c ∷ cs) = c == 32 || (c == 10 || has_whitespace cs)

-- The white space inside a token is dropped.
unfoldable pub drop_before : TextSize → List Token → List Token
drop_before pos [] = []
drop_before pos (w ∷ ws) =
    let rest = drop_before pos ws in if ltb w.span.start pos then rest else w ∷ ws

-- `SyntaxKind::from` is generated code, so it is a parameter.
module _ (kind_of : ScanToken → SyntaxKind) (text : Text) where
  unfoldable pub take_scanned : ScanToken → List ScanToken → Merge → Outcome Merge
  unfolding slice text_len Range.new Size.add has_whitespace drop_before token_type
  take_scanned t rest m = do
    token_text ← slice text t.start t.end
    len ← text_len token_text
    span ← Range.new t.start t.end
    let pos = Size.add m.pos len
    ok (record {
      pos = pos;
      scan_tokens = rest;
      white = if has_whitespace token_text then drop_before pos m.white else m.white;
      tokens =
          m.tokens
          ++ record { kind = kind_of t; text = token_text; span = span; token_type = token_type t }
            ∷ [];
    })

  unfoldable pub take_white : Token → List Token → Merge → Outcome Merge
  unfolding text_len Size.add
  take_white w rest m = do
    len ← text_len w.text
    ok (record {
      pos = Size.add m.pos len;
      scan_tokens = m.scan_tokens;
      white = rest;
      tokens = m.tokens ++ w ∷ [];
    })

  -- The white space at the position; no token there panics.
  unfoldable pub next_white : List Token → Merge → Outcome Merge
  unfolding take_white
  next_white [] m = panic
  next_white (w ∷ ws) m = if w.span.start == m.pos then take_white w ws m else panic

  unfoldable pub next_token : List ScanToken → Merge → Outcome Merge
  unfolding take_scanned next_white
  next_token [] m = next_white m.white m
  next_token (t ∷ ts) m = if t.start == m.pos then take_scanned t ts m else next_white m.white m

  -- One round of the loop.
  unfoldable pub merge_round : Merge → Outcome (Flow Merge)
  unfolding next_token text_len
  merge_round m = do
    size ← text_len text
    if ltb m.pos size then (do m' ← next_token m.scan_tokens m; ok (continue m')) else ok (stop m)

  unfoldable pub lex_with : ℕ → List Token → ScanResult → Outcome LexResult
  unfolding merge_round
  lex_with fuel white (failed errors) = ok (scan_errors errors)
  lex_with fuel white (scanned tokens) = do
    m ← loop fuel merge_round (record { pos = 0; scan_tokens = tokens; white = white; tokens = [] })
    ok (lexed m.tokens)

  -- `lex`, on the matches of the white space pattern and the result of the scan.
  unfoldable pub lex : ℕ → List Capture → ScanResult → Outcome LexResult
  unfolding lex_with whitespace_tokens
  lex fuel captures result = do white ← whitespace_tokens text captures; lex_with fuel white result
