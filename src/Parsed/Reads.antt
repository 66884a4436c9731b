-- ===== src/Parsed/Reads.antt =====
-- An iteration over a parsed document fills its stores, for statements of the document alone.
use postgres_lsp.Prelude.{
  ◌≡◌, sym, ◌∙◌, true, Option, none, some, List, arith, Bool-cases, inl, inr, unwrap, IfOk,
  IfOk-any, IfOk-bind,
}
use postgres_lsp.TextSize.Range.{TextRange}
use postgres_lsp.Document.Id.{StatementId, root, child, raw, id_eq}
use postgres_lsp.Document.Content.{Text}
use postgres_lsp.Document.State.{Document, StatementPos}
use postgres_lsp.Document.View.{has, id_eq→≡}
use postgres_lsp.Parsed.Store.{Store, get, insert}
use postgres_lsp.Parsed.PgQuery.{ParseResult, get_or_cache_ast, keep_ast}
use postgres_lsp.Parsed.SqlFunction.{SqlFunctionBody, keep_body, get_sql_fn}
use postgres_lsp.Parsed.TreeSitter.{get_or_cache_tree, keep_tree}
use postgres_lsp.Parsed.State.{Parsers, ParsedDocument}
use postgres_lsp.Parsed.Iterate.{Item, StatementMapper}
use postgres_lsp.Parsed.Mappers.{
  default_mapper, execute_statement_mapper, async_diagnostics_mapper, sync_diagnostics_mapper,
  get_completions_mapper,
}
use postgres_lsp.Parsed.Keys.{holds-insert}
use postgres_lsp.Parsed.Held.{Exact, Inside, Stored}

-- The number is that of a statement.
abbrev pub Known : List StatementPos → StatementId → Type 0
Known ps id = has (root (raw id)) ps ≡ true

module _ {V : Type 0} (ps : List StatementPos) where
  Exact-insert :
      (id : StatementId) (v : V) (s : Store V) → Known ps id → Exact ps s → Exact ps (insert id v s)
  unfolding id_eq raw
  Exact-insert (root n) v s known h k = elim (Bool-cases (id_eq (root k) (root n))) [
    | inl e ↦ rw (holds-insert (root k) (root n) v s, e, id_eq→≡ (root k) (root n) e) (sym known)
    | inr e ↦ rw (holds-insert (root k) (root n) v s, e) (h k)
  ]
  Exact-insert (child n) v s known h k = holds-insert (root k) (child n) v s ∙ h k

  Inside-insert :
      (id : StatementId) (v : V) (s : Store V)
      → Known ps id
      → Inside ps s
      → Inside ps (insert id v s)
  Inside-insert id v s known h other there = elim (Bool-cases (id_eq other id)) [
    | inl e ↦ rw (id_eq→≡ other id e) known
    | inr e ↦ h other (ground (arith, holds-insert other id v s))
  ]

module _ {Node Diagnostic Tree : Type 0} (parsers : Parsers Node Diagnostic Tree) where
  -- The mappers of the code.
  pub data IsMapper : (Output : Type 0) → StatementMapper parsers Output → Type 1 where
    default : IsMapper Item (default_mapper parsers)
    execute : IsMapper (Item × Option Node) (execute_statement_mapper parsers)
    async_diagnostics : IsMapper (Item × Option Node × Tree) (async_diagnostics_mapper parsers)
    sync_diagnostics :
        IsMapper
          (StatementId × TextRange × Option Node × Option Diagnostic)
          (sync_diagnostics_mapper parsers)
    get_completions : IsMapper (Item × Tree) (get_completions_mapper parsers)

module _ {Node Diagnostic Tree : Type 0} (parsers : Parsers Node Diagnostic Tree)
    (d : Document) where
  with_asts :
      (p : ParsedDocument Node Diagnostic Tree) (db : Store (ParseResult Node Diagnostic))
      → Inside d.positions db
      → Stored d p
      → Stored d (record p { ast_db = db })
  with_asts p db new h = record {
    same = h.same;
    numbered = h.numbered;
    trees = h.trees;
    asts = new;
    bodies = h.bodies;
    annotations = h.annotations;
  }

  with_trees :
      (p : ParsedDocument Node Diagnostic Tree) (db : Store Tree)
      → Exact d.positions db
      → Stored d p
      → Stored d (record p { cst_db = db })
  with_trees p db new h = record {
    same = h.same;
    numbered = h.numbered;
    trees = new;
    asts = h.asts;
    bodies = h.bodies;
    annotations = h.annotations;
  }

  with_bodies :
      (p : ParsedDocument Node Diagnostic Tree) (db : Store (Option SqlFunctionBody))
      → Inside d.positions db
      → Stored d p
      → Stored d (record p { sql_fn_db = db })
  with_bodies p db new h = record {
    same = h.same;
    numbered = h.numbered;
    trees = h.trees;
    asts = h.asts;
    bodies = new;
    annotations = h.annotations;
  }

  keep_ast-Stored :
      (id : StatementId) (text : Text) (p : ParsedDocument Node Diagnostic Tree)
      (found : Option (ParseResult Node Diagnostic))
      → Known d.positions id
      → Stored d p
      → Stored d (record p { ast_db = (keep_ast parsers.parse id text p.ast_db found).1 })
  keep_ast-Stored id text p (some existing) known h = with_asts p p.ast_db h.asts h
  keep_ast-Stored id text p none known h =
      with_asts p _ (Inside-insert d.positions id (parsers.parse text) p.ast_db known h.asts) h

  pub get_or_cache_ast-Stored :
      (id : StatementId) (text : Text) (p : ParsedDocument Node Diagnostic Tree)
      → Known d.positions id
      → Stored d p
      → Stored d (record p { ast_db = (get_or_cache_ast parsers.parse id text p.ast_db).1 })
  unfolding get_or_cache_ast
  get_or_cache_ast-Stored id text p known h = keep_ast-Stored id text p (get id p.ast_db) known h

  keep_tree-Stored :
      (id : StatementId) (text : Text) (p : ParsedDocument Node Diagnostic Tree)
      (found : Option Tree)
      → Known d.positions id
      → Stored d p
      → IfOk
          (λ r. Stored d (record p { cst_db = r.1 }))
          (keep_tree parsers.parse_tree id text p.cst_db found)
  keep_tree-Stored id text p (some existing) known h = with_trees p p.cst_db h.trees h
  keep_tree-Stored id text p none known h =
      IfOk-any _ (unwrap (parsers.parse_tree text none)) _
        λ tree. with_trees p _ (Exact-insert d.positions id tree p.cst_db known h.trees) h

  get_or_cache_tree-Stored :
      (id : StatementId) (text : Text) (p : ParsedDocument Node Diagnostic Tree)
      → Known d.positions id
      → Stored d p
      → IfOk
          (λ r. Stored d (record p { cst_db = r.1 }))
          (get_or_cache_tree parsers.parse_tree id text p.cst_db)
  unfolding get_or_cache_tree
  get_or_cache_tree-Stored id text p known h = keep_tree-Stored id text p (get id p.cst_db) known h

  pub keep_body-Stored :
      (id : StatementId) (ast : Node) (text : Text) (p : ParsedDocument Node Diagnostic Tree)
      (found : Option (Option SqlFunctionBody))
      → Known d.positions id
      → Stored d p
      → IfOk
          (λ r. Stored d (record p { sql_fn_db = r.1 }))
          (keep_body parsers.view id ast text p.sql_fn_db found)
  keep_body-Stored id ast text p (some existing) known h = with_bodies p p.sql_fn_db h.bodies h
  keep_body-Stored id ast text p none known h =
      IfOk-any _ (get_sql_fn parsers.view ast text) _
        λ body. with_bodies p _ (Inside-insert d.positions id body p.sql_fn_db known h.bodies) h

  pub mapper-Stored :
      (Output : Type 0) (mapper : StatementMapper parsers Output)
      → IsMapper parsers Output mapper
      → (item : Item) (p : ParsedDocument Node Diagnostic Tree) → Known d.positions item.0
      → Stored d p
      → IfOk (λ r. Stored d r.1) (mapper p item)
  unfolding default_mapper execute_statement_mapper async_diagnostics_mapper sync_diagnostics_mapper
      get_completions_mapper
  mapper-Stored Output mapper default item p known h = h
  mapper-Stored Output mapper execute item p known h =
      get_or_cache_ast-Stored item.0 item.2 p known h
  mapper-Stored Output mapper sync_diagnostics item p known h =
      get_or_cache_ast-Stored item.0 item.2 p known h
  mapper-Stored Output mapper async_diagnostics item p known h =
      let db = (get_or_cache_ast parsers.parse item.0 item.2 p.ast_db).1 in
      IfOk-bind _ _ (get_or_cache_tree parsers.parse_tree item.0 item.2 p.cst_db) _
        (get_or_cache_tree-Stored item.0 item.2 (record p { ast_db = db }) known
          (get_or_cache_ast-Stored item.0 item.2 p known h))
        λ r k. k
  mapper-Stored Output mapper get_completions item p known h =
      IfOk-bind _ _ (get_or_cache_tree parsers.parse_tree item.0 item.2 p.cst_db) _
        (get_or_cache_tree-Stored item.0 item.2 p known h) λ r k. k
