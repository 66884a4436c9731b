-- ===== src/Lexer/Scanned.antt =====
-- What the lexer reads: the tokens of `pg_query::scan` and the matches of the white space pattern.
-- Both come from libraries, so they are inputs here. crates/pgt_lexer/src/lib.rs.
use postgres_lsp.Prelude.{
  ℕ, List, [], ◌∷◌, ◌||◌, ◌==◌, if◌then◌else◌, Outcome, ok, unwrap, ◌>>=◌, Option,
}
use postgres_lsp.TextSize.Size
use postgres_lsp.TextSize.Range.{TextRange}
use postgres_lsp.TextSize.Range
use postgres_lsp.Splitter.Kind.{SyntaxKind}
use postgres_lsp.Splitter.Token.{Token, TokenType}
use postgres_lsp.Document.Content.{Text, slice}

pub data KeywordKind : Type 0 where
  no_keyword unreserved_keyword col_name_keyword : KeywordKind
  type_func_name_keyword reserved_keyword : KeywordKind

-- The fields that the lexer reads; the offsets are byte offsets, and `token` is the number that
-- libpg_query gives to the kind.
pub record ScanToken : Type 0 where
  pub start : ℕ
  pub end : ℕ
  pub token : ℕ
  pub keyword_kind : KeywordKind

-- `pg_query::scan`: its tokens, or the spans of the errors made of its message.
pub data ScanResult : Type 0 where
  scanned : List ScanToken → ScanResult
  failed : List (Option TextRange) → ScanResult

keyword_type : KeywordKind → TokenType
keyword_type no_keyword = TokenType.no_keyword
keyword_type unreserved_keyword = TokenType.unreserved_keyword
keyword_type col_name_keyword = TokenType.col_name_keyword
keyword_type type_func_name_keyword = TokenType.type_func_name_keyword
keyword_type reserved_keyword = TokenType.reserved_keyword

-- `TokenType::from`; the two numbers are those of the comments.
unfoldable pub token_type : ScanToken → TokenType
unfolding keyword_type
token_type t =
    if t.token == 275 || t.token == 276 then TokenType.whitespace else keyword_type t.keyword_kind

-- The named groups of `PATTERN_LEXER`. A match has one of them, so that "No match" is not reached.
pub data Group : Type 0 where
  whitespace newline tab : Group

pub record Capture : Type 0 where
  pub group : Group
  pub start : ℕ
  pub end : ℕ

abbrev pub group_kind : Group → SyntaxKind
group_kind whitespace = SyntaxKind.whitespace
group_kind newline = SyntaxKind.newline
group_kind tab = SyntaxKind.tab

unfoldable pub whitespace_token : Text → Capture → Outcome Token
unfolding slice Size.try_from Range.new
whitespace_token text c = do
  matched ← slice text c.start c.end
  start ← unwrap (Size.try_from c.start)
  end ← unwrap (Size.try_from c.end)
  span ← Range.new start end
  ok (record {
    kind = group_kind c.group;
    text = matched;
    span = span;
    token_type = TokenType.whitespace;
  })

-- `whitespace_tokens` on the matches of the pattern.
unfoldable pub whitespace_tokens : Text → List Capture → Outcome (List Token)
unfolding whitespace_token
whitespace_tokens text [] = ok []
whitespace_tokens text (c ∷ cs) = do
  first ← whitespace_token text c
  rest ← whitespace_tokens text cs
  ok (first ∷ rest)
