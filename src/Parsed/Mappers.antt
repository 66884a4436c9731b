-- ===== src/Parsed/Mappers.antt =====
-- server/parsed_document.rs: the mappers, which say what an iteration gives for a statement, and the
-- iterations of the parsed document itself.
use postgres_lsp.Prelude.{ℕ, Option, none, some, List, length, Outcome, ok, ◌>>=◌}
use postgres_lsp.TextSize.Range.{TextRange}
use postgres_lsp.Document.Id.{StatementId}
use postgres_lsp.Parsed.PgQuery.{ParseResult, parsed, syntax_error, get_or_cache_ast}
use postgres_lsp.Parsed.TreeSitter.{get_or_cache_tree}
use postgres_lsp.Parsed.State.{Parsers, ParsedDocument}
use postgres_lsp.Parsed.Filters.{StatementFilter, no_filter, id_filter}
use postgres_lsp.Parsed.Iterate.{Item, StatementMapper, next, iterator, collect}

module _ {Node Diagnostic Tree : Type 0} (parsers : Parsers Node Diagnostic Tree) where
  -- `DefaultMapper`
  unfoldable pub default_mapper : StatementMapper parsers Item
  default_mapper p item = ok (item, p)

  abbrev ast_option : ParseResult Node Diagnostic → Option Node
  ast_option (parsed ast) = some ast
  ast_option (syntax_error d) = none

  abbrev syntax_diagnostic : ParseResult Node Diagnostic → Option Diagnostic
  syntax_diagnostic (parsed ast) = none
  syntax_diagnostic (syntax_error d) = some d

  -- `ExecuteStatementMapper`
  unfoldable pub execute_statement_mapper : StatementMapper parsers (Item × Option Node)
  unfolding get_or_cache_ast
  execute_statement_mapper p item =
      let (result, ast_db) = get_or_cache_ast parsers.parse item.0 item.2 p.ast_db in
      ok ((item, ast_option result), record p { ast_db = ast_db })

  -- `AsyncDiagnosticsMapper`
  unfoldable pub async_diagnostics_mapper : StatementMapper parsers (Item × Option Node × Tree)
  unfolding get_or_cache_ast get_or_cache_tree
  async_diagnostics_mapper p item = do
    let (result, ast_db) = get_or_cache_ast parsers.parse item.0 item.2 p.ast_db
    (tree, cst_db) ← get_or_cache_tree parsers.parse_tree item.0 item.2 p.cst_db
    ok ((item, ast_option result, tree), record p { ast_db = ast_db; cst_db = cst_db })

  -- `SyncDiagnosticsMapper`
  unfoldable pub sync_diagnostics_mapper :
      StatementMapper parsers (StatementId × TextRange × Option Node × Option Diagnostic)
  unfolding get_or_cache_ast
  sync_diagnostics_mapper p item =
      let (result, ast_db) = get_or_cache_ast parsers.parse item.0 item.2 p.ast_db in
      ok (
        (item.0, item.1, ast_option result, syntax_diagnostic result),
        record p { ast_db = ast_db },
      )

  -- `GetCompletionsMapper`
  unfoldable pub get_completions_mapper : StatementMapper parsers (Item × Tree)
  unfolding get_or_cache_tree
  get_completions_mapper p item = do
    (tree, cst_db) ← get_or_cache_tree parsers.parse_tree item.0 item.2 p.cst_db
    ok ((item, tree), record p { cst_db = cst_db })

  -- `ParsedDocument::find`
  unfoldable pub find :
      {Output : Type 0}
      → StatementMapper parsers Output
      → StatementId
      → ParsedDocument Node Diagnostic Tree
      → Outcome (Option Output × ParsedDocument Node Diagnostic Tree)
  unfolding next iterator id_filter
  find mapper id p = do
    (output, it, p') ← next parsers mapper (id_filter id) (iterator p) p
    ok (output, p')

  -- `ParsedDocument::iter_with_filter`, to its end
  unfoldable pub iter_with_filter :
      {Output : Type 0}
      → StatementMapper parsers Output
      → StatementFilter
      → ℕ
      → ParsedDocument Node Diagnostic Tree
      → Outcome (List Output × ParsedDocument Node Diagnostic Tree)
  unfolding collect iterator
  iter_with_filter mapper filter fuel p = collect parsers mapper filter fuel (iterator p) p

  -- `ParsedDocument::iter`, to its end
  unfoldable pub iter :
      {Output : Type 0}
      → StatementMapper parsers Output
      → ℕ
      → ParsedDocument Node Diagnostic Tree
      → Outcome (List Output × ParsedDocument Node Diagnostic Tree)
  unfolding iter_with_filter
  iter mapper fuel p = iter_with_filter mapper no_filter fuel p

  -- `ParsedDocument::count`
  unfoldable pub count :
      ℕ → ParsedDocument Node Diagnostic Tree → Outcome (ℕ × ParsedDocument Node Diagnostic Tree)
  unfolding iter
  count fuel p = do (items, p') ← iter default_mapper fuel p; ok (length items, p')
