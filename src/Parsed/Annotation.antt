-- ===== src/Parsed/Annotation.antt =====
-- server/annotation.rs: whether a statement ends with a semicolon, and the store that is meant to
-- keep it. The lexer is a parameter: `lex` on a text, where an error is `scan_errors`.
use postgres_lsp.Prelude.{
  Bool, false, not, Option, none, some, List, [], ◌∷◌, if◌then◌else◌, Outcome, ok, ◌>>=◌,
}
use postgres_lsp.Splitter.Kind.{SyntaxKind, contains, is}
use postgres_lsp.Splitter.Token.{Token, whitespace_tokens}
use postgres_lsp.Document.Id.{StatementId}
use postgres_lsp.Document.Content.{Text}
use postgres_lsp.Lexer.Merge.{LexResult, lexed, scan_errors}
use postgres_lsp.Parsed.Store.{Store, get, insert}

pub record StatementAnnotations : Type 0 where
  pub ends_with_semicolon : Bool

-- `.iter().rev().find(|token| !WHITESPACE_TOKENS.contains(&token.kind))`
unfoldable pub last_token : List Token → Option Token
unfolding whitespace_tokens
last_token [] = none
last_token (t ∷ ts) = elim (last_token ts) [
  | some later ↦ some later
  | none ↦ if not (contains whitespace_tokens t.kind) then some t else none
]

-- `.is_some_and(|token| token.kind == SyntaxKind::Ascii59)`
abbrev is_semicolon : Option Token → Bool
is_semicolon none = false
is_semicolon (some t) = is t.kind SyntaxKind.ascii59

unfoldable pub annotate : LexResult → Option StatementAnnotations
unfolding last_token
annotate (scan_errors errors) = none
annotate (lexed tokens) = some (record { ends_with_semicolon = is_semicolon (last_token tokens) })

module _ (lex : Text → Outcome LexResult) where
  abbrev pub keep_annotations :
      StatementId
      → Text
      → Store (Option StatementAnnotations)
      → Option (Option StatementAnnotations)
      → Outcome (Option StatementAnnotations × Store (Option StatementAnnotations))
  keep_annotations id content db (some existing) = ok (existing, db)
  keep_annotations id content db none = do
    result ← lex content
    ok (annotate result, insert id none db)

  -- `AnnotationStore::get_annotations`, with the store behind it: what is kept is `None`.
  unfoldable pub get_annotations :
      StatementId
      → Text
      → Store (Option StatementAnnotations)
      → Outcome (Option StatementAnnotations × Store (Option StatementAnnotations))
  unfolding annotate
  get_annotations id content db = keep_annotations id content db (get id db)
