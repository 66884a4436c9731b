-- ===== src/Lexer/Tests.antt =====
-- The lexer at a concrete text.
use postgres_lsp.Splitter.Token.{Token}
