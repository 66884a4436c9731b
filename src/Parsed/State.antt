-- ===== src/Parsed/State.antt =====
-- server/parsed_document.rs: a document with the stores of what its statements parse to.
use postgres_lsp.Prelude.{ℤ, Option, List, [], ◌∷◌, Outcome, ok, ◌>>=◌}
use postgres_lsp.Document.Id.{StatementId}
use postgres_lsp.Document.Content.{Text, index_range}
use postgres_lsp.Document.Params.{ChangeFileParams}
use postgres_lsp.Document.State.{Document, StatementPos, Splitter}
use postgres_lsp.Document.State
use postgres_lsp.Document.Change.{StatementChange, added, deleted, modified}
use postgres_lsp.Document.Apply.{apply_file_change}
use postgres_lsp.Lexer.Merge.{LexResult}
use postgres_lsp.Parsed.Store.{Store, clear_statement}
use postgres_lsp.Parsed.PgQuery.{ParseResult}
use postgres_lsp.Parsed.SqlFunction.{SqlFunctionBody, NodeView}
use postgres_lsp.Parsed.Annotation.{StatementAnnotations}
use postgres_lsp.Parsed.Edit.{InputEdit}
use postgres_lsp.Parsed.TreeSitter.{add_statement, modify_statement}

-- What the document calls: the splitter, libpg_query, tree-sitter and the lexer.
pub record Parsers (Node Diagnostic Tree : Type 0) : Type 0 where
  pub split : Splitter
  pub lex : Text → Outcome LexResult
  pub parse : Text → ParseResult Node Diagnostic
  pub view : NodeView Node
  pub parse_tree : Text → Option Tree → Option Tree
  pub edit_tree : InputEdit → Tree → Tree

-- The path is left out.
pub record ParsedDocument (Node Diagnostic Tree : Type 0) : Type 0 where
  pub doc : Document
  pub ast_db : Store (ParseResult Node Diagnostic)
  pub cst_db : Store Tree
  pub sql_fn_db : Store (Option SqlFunctionBody)
  pub annotation_db : Store (Option StatementAnnotations)

module _ {Node Diagnostic Tree : Type 0} (parsers : Parsers Node Diagnostic Tree) where
  -- `doc.iter().for_each(..)`
  unfoldable pub add_each : Text → List StatementPos → Store Tree → Outcome (Store Tree)
  unfolding index_range add_statement
  add_each content [] db = ok db
  add_each content ((stmt, range) ∷ rest) db = do
    text ← index_range content range
    db' ← add_statement parsers.parse_tree stmt text db
    add_each content rest db'

  unfoldable pub new : Text → ℤ → Outcome (ParsedDocument Node Diagnostic Tree)
  unfolding add_each State.new
  new content version = do
    doc ← State.new parsers.split content version
    cst_db ← add_each doc.content doc.positions []
    ok (record { doc = doc; ast_db = []; cst_db = cst_db; sql_fn_db = []; annotation_db = [] })

  -- The three stores that are only cleared.
  abbrev pub clear_rest :
      StatementId → ParsedDocument Node Diagnostic Tree → ParsedDocument Node Diagnostic Tree
  unfolding clear_statement
  clear_rest id p = record p {
    ast_db = clear_statement id p.ast_db;
    sql_fn_db = clear_statement id p.sql_fn_db;
    annotation_db = clear_statement id p.annotation_db;
  }

  unfoldable pub update_stores :
      StatementChange
      → ParsedDocument Node Diagnostic Tree
      → Outcome (ParsedDocument Node Diagnostic Tree)
  unfolding add_statement modify_statement clear_statement
  update_stores (added s) p = do
    cst_db ← add_statement parsers.parse_tree s.stmt s.text p.cst_db
    ok (record p { cst_db = cst_db })
  update_stores (deleted s) p = ok (clear_rest s (record p { cst_db = clear_statement s p.cst_db }))
  update_stores (modified s) p = do
    cst_db ← modify_statement parsers.parse_tree parsers.edit_tree s p.cst_db
    ok (clear_rest s.old_stmt (record p { cst_db = cst_db }))

  unfoldable pub update_all :
      List StatementChange
      → ParsedDocument Node Diagnostic Tree
      → Outcome (ParsedDocument Node Diagnostic Tree)
  unfolding update_stores
  update_all [] p = ok p
  update_all (c ∷ cs) p = do p' ← update_stores c p; update_all cs p'

  unfoldable pub apply_change :
      ChangeFileParams
      → ParsedDocument Node Diagnostic Tree
      → Outcome (ParsedDocument Node Diagnostic Tree)
  unfolding update_all apply_file_change
  apply_change params p = do
    (changes, doc) ← apply_file_change parsers.split params p.doc
    update_all changes (record p { doc = doc })
