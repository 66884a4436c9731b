-- ===== src/Lexer/Lossless.antt =====
-- `lex` loses nothing of the text, and its tokens are what the statement splitter relies on.
use postgres_lsp.Prelude.{ℕ, ◌≡◌, List, [], ◌∷◌, arith}
use postgres_lsp.TextSize.Size
use postgres_lsp.TextSize.Range
use postgres_lsp.Splitter.Token.{Token}
use postgres_lsp.Splitter.Parser.{last_end}
use postgres_lsp.Splitter.Bytes.{Spans}
use postgres_lsp.Lexer.Inputs.{Inputs}
use postgres_lsp.Lexer.Built.{Tiled}

pub Tiled-Spans : (lo hi : ℕ) (ts : List Token) → Tiled lo ts hi → Spans lo ts
Tiled-Spans lo hi [] h = tt
Tiled-Spans lo hi (t ∷ ts) h = (omega arith, omega arith, Tiled-Spans t.span.end hi ts h.2)

pub Tiled-last_end : (lo hi : ℕ) (ts : List Token) → Tiled lo ts hi → last_end lo ts ≡ hi
unfolding last_end
Tiled-last_end lo hi [] h = h
Tiled-last_end lo hi (t ∷ ts) h = Tiled-last_end t.span.end hi ts h.2
