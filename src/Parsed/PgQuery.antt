-- ===== src/Parsed/PgQuery.antt =====
-- server/pg_query.rs: the syntax trees of the statements, made when they are first asked for. The
-- parser is libpg_query's and a parameter here: `Ast` stands for its trees, `Diagnostic` for its
-- errors.
use postgres_lsp.Prelude.{Option, none, some}
use postgres_lsp.Document.Id.{StatementId}
use postgres_lsp.Document.Content.{Text}
use postgres_lsp.Parsed.Store.{Store, get, insert}

-- `Result<NodeEnum, SyntaxDiagnostic>`
pub data ParseResult (Ast Diagnostic : Type 0) : Type 0 where
  parsed : Ast → ParseResult Ast Diagnostic
  syntax_error : Diagnostic → ParseResult Ast Diagnostic

module _ {Ast Diagnostic : Type 0} (parse : Text → ParseResult Ast Diagnostic) where
  abbrev pub keep_ast :
      StatementId
      → Text
      → Store (ParseResult Ast Diagnostic)
      → Option (ParseResult Ast Diagnostic)
      → ParseResult Ast Diagnostic × Store (ParseResult Ast Diagnostic)
  keep_ast id content db (some existing) = (existing, db)
  keep_ast id content db none = (parse content, insert id (parse content) db)

  -- `PgQueryStore::get_or_cache_ast`, with the store behind it.
  unfoldable pub get_or_cache_ast :
      StatementId
      → Text
      → Store (ParseResult Ast Diagnostic)
      → ParseResult Ast Diagnostic × Store (ParseResult Ast Diagnostic)
  get_or_cache_ast id content db = keep_ast id content db (get id db)
