-- ===== src/Parsed/Described.antt =====
-- What an iteration is to give: the statements in the order of the document, each with its body behind it,
-- less those that the filter turns away. The description stands by itself: it names no part of the
-- iterator.
use postgres_lsp.Prelude.{Option, none, some, List, [], ◌∷◌, ◌++◌, Outcome, ok, panic, ◌>>=◌}
use postgres_lsp.TextSize.Range.{TextRange}
use postgres_lsp.TextSize.Range
use postgres_lsp.Document.Id.{StatementId, root, child}
use postgres_lsp.Document.Content.{Text, index_range}
use postgres_lsp.Document.State.{StatementPos}
use postgres_lsp.Parsed.Store.{Store, get, insert}
use postgres_lsp.Parsed.PgQuery.{ParseResult, parsed, syntax_error}
use postgres_lsp.Parsed.SqlFunction.{SqlFunctionBody, get_sql_fn}
use postgres_lsp.Parsed.State.{Parsers, ParsedDocument}
use postgres_lsp.Parsed.Iterate.{Item}

-- What is kept of a statement, or else what is made of it.
abbrev pub kept_or {ℓ} : {V : Type ℓ} → V → Option V → V
kept_or made none = made
kept_or made (some v) = v

-- The store with it
abbrev pub keeping {ℓ} : {V : Type ℓ} → StatementId → V → Option V → Store V → Store V
keeping id made none db = insert id made db
keeping id made (some v) db = db

-- The body of a statement goes behind it, as its child, moved by the start of the statement.
abbrev pub with_body : StatementId → TextRange → Text → Option SqlFunctionBody → Outcome (List Item)
with_body id range content none = ok ((id, range, content) ∷ [])
with_body (child n) range content (some body) = panic
with_body (root n) range content (some body) = do
  moved ← Range.add body.range range.start
  ok ((root n, range, content) ∷ (child n, moved, body.body) ∷ [])

module _ {Node Diagnostic Tree : Type 0} (parsers : Parsers Node Diagnostic Tree) where
  -- The body that is kept of a statement, or else the one that is found; none of one with an error.
  abbrev pub body_of :
      StatementId
      → Text
      → ParseResult Node Diagnostic
      → Option (Option SqlFunctionBody)
      → Outcome (Option SqlFunctionBody)
  body_of id content (syntax_error d) found = ok none
  body_of id content (parsed ast) (some body) = ok body
  body_of id content (parsed ast) none = get_sql_fn parsers.view ast content

  -- The store of bodies behind a statement
  abbrev pub bodies_with :
      StatementId
      → ParseResult Node Diagnostic
      → Option SqlFunctionBody
      → Store (Option SqlFunctionBody)
      → Store (Option SqlFunctionBody)
  bodies_with id (syntax_error d) body db = db
  bodies_with id (parsed ast) body db = keeping id body (get id db) db

  -- A statement with its body, and the stores behind it
  abbrev pub describe :
      StatementPos
      → ParsedDocument Node Diagnostic Tree
      → Outcome (List Item × ParsedDocument Node Diagnostic Tree)
  describe (id, range) p = do
    content ← index_range p.doc.content range
    let ast = kept_or (parsers.parse content) (get id p.ast_db)
    body ← body_of id content ast (get id p.sql_fn_db)
    items ← with_body id range content body
    ok (
      items,
      record p {
        ast_db = keeping id (parsers.parse content) (get id p.ast_db) p.ast_db;
        sql_fn_db = bodies_with id ast body p.sql_fn_db;
      },
    )

  -- All statements with their bodies
  abbrev pub flatten :
      List StatementPos
      → ParsedDocument Node Diagnostic Tree
      → Outcome (List Item × ParsedDocument Node Diagnostic Tree)
  flatten [] p = ok ([], p)
  flatten (pos ∷ rest) p = do
    (items, p') ← describe pos p
    (more, p'') ← flatten rest p'
    ok (items ++ more, p'')
