-- ===== src/Splitter/Token.antt =====
-- Tokens: `Token`, `TokenType` and `WHITESPACE_TOKENS` of crates/pgt_lexer/src/lib.rs, and the
-- relevance tests at the end of crates/pgt_statement_splitter/src/parser.rs.
use postgres_lsp.Prelude.{ℕ, Bool, true, false, not, ◌&&◌, ◌||◌, List, [], ◌∷◌, length, ◌==◌}
use postgres_lsp.TextSize.Range.{TextRange}
use postgres_lsp.Splitter.Kind.{SyntaxKind, is, contains}

pub data TokenType : Type 0 where
  whitespace no_keyword unreserved_keyword col_name_keyword : TokenType
  type_func_name_keyword reserved_keyword : TokenType

-- `text` holds the characters of the token.
pub record Token : Type 0 where
  pub kind : SyntaxKind
  pub text : List ℕ
  pub span : TextRange
  pub token_type : TokenType

-- The range is `TextRange::at(pos, 0)`; `pos` is an offset of the text here, so the conversion to a
-- `u32` does not fail.
unfoldable pub eof : ℕ → Token
eof pos = record {
  kind = SyntaxKind.eof;
  text = [];
  span = record { start = pos; end = pos };
  token_type = whitespace;
}

unfoldable pub whitespace_tokens : List SyntaxKind
whitespace_tokens =
    SyntaxKind.whitespace ∷ SyntaxKind.tab ∷ SyntaxKind.newline ∷ SyntaxKind.sql_comment
    ∷ SyntaxKind.c_comment ∷ []

-- The build for other systems than Windows: a double newline is relevant, a single one is not.
unfoldable pub is_irrelevant_token : Token → Bool
unfolding whitespace_tokens
is_irrelevant_token t =
    contains whitespace_tokens t.kind && (not (is t.kind SyntaxKind.newline) || length t.text == 1)

unfoldable pub is_relevant : Token → Bool
is_relevant t = not (is_irrelevant_token t)

abbrev pub is_whitespace_type : Token → Bool
is_whitespace_type t = elim t.token_type [ whitespace ↦ true | _ ↦ false ]
