-- ===== src/Parsed/Flattened.antt =====
-- The rounds of an iteration beside the description in `Parsed.Described`.
use postgres_lsp.Prelude.{
  ℕ, ◌*◌, ◌<◌, ◌≡◌, refl, sym, Option, none, some, List, [], ◌∷◌, ◌++◌, length, Outcome, ok, panic,
  out_of_fuel, ◌>>=◌,
}
use postgres_lsp.TextSize.Range.{TextRange}
use postgres_lsp.TextSize.Range
use postgres_lsp.Document.Id.{StatementId, root, child, create_child}
use postgres_lsp.Document.Content.{Text, index_range}
use postgres_lsp.Document.State.{StatementPos}
use postgres_lsp.Parsed.Store.{get, insert}
use postgres_lsp.Parsed.PgQuery.{ParseResult, parsed, syntax_error, keep_ast, get_or_cache_ast}
use postgres_lsp.Parsed.SqlFunction.{SqlFunctionBody, get_sql_fn, keep_body, get_function_body}
use postgres_lsp.Parsed.State.{Parsers, ParsedDocument}
use postgres_lsp.Parsed.Filters.{StatementFilter}
use postgres_lsp.Parsed.Iterate.{Item, push_body, find_body, enter_statement}
use postgres_lsp.Parsed.Mappers.{default_mapper, iter_with_filter}
use postgres_lsp.Parsed.Collected.{keep, entered, iter_with_filter-entered}
use postgres_lsp.Parsed.Described.{
  kept_or, keeping, with_body, body_of, bodies_with, describe, flatten,
}

module _ {Node Diagnostic Tree : Type 0} (parsers : Parsers Node Diagnostic Tree) where
  -- The items of a statement as the iterator makes them
  abbrev listed :
      StatementPos
      → Outcome (Text × List Item × ParsedDocument Node Diagnostic Tree)
      → Outcome (List Item × ParsedDocument Node Diagnostic Tree)
  listed pos run = do (content, bodies, p) ← run; ok ((pos.0, pos.1, content) ∷ bodies, p)

  module _ (id : StatementId) (range : TextRange) (content : Text) where
    -- The same, from what waits and the document
    abbrev waiting :
        Outcome (List Item × ParsedDocument Node Diagnostic Tree)
        → Outcome (List Item × ParsedDocument Node Diagnostic Tree)
    waiting run = listed (id, range) (do (pending, p) ← run; ok (content, pending, p))

    -- The same, from a body
    abbrev placed :
        ParsedDocument Node Diagnostic Tree
        → Option SqlFunctionBody
        → Outcome (List Item × ParsedDocument Node Diagnostic Tree)
    placed p body = do items ← with_body id range content body; ok (items, p)

    moved_placed :
        (item : TextRange → Item) (p : ParsedDocument Node Diagnostic Tree)
        (run : Outcome TextRange)
        → waiting (do pending ← (do moved ← run; ok (item moved ∷ [])); ok (pending, p)) ≡ (do
          items ← (do moved ← run; ok ((id, range, content) ∷ item moved ∷ []))
          ok (items, p))
    moved_placed item p (ok moved) = refl
    moved_placed item p panic = refl
    moved_placed item p out_of_fuel = refl

  push_body-placed :
      (id : StatementId) (range : TextRange) (content : Text)
      (p : ParsedDocument Node Diagnostic Tree) (body : Option SqlFunctionBody)
      → waiting id range content (do pending ← push_body parsers id range body []; ok (pending, p))
        ≡ placed id range content p body
  unfolding push_body create_child
  push_body-placed id range content p none = refl
  push_body-placed (child n) range content p (some body) = refl
  push_body-placed (root n) range content p (some body) =
      moved_placed (root n) range content (λ moved. (child n, moved, body.body)) p
        (Range.add body.range range.start)

  module _ (id : StatementId) (range : TextRange) (content : Text) where
    sought_placed :
        (p : ParsedDocument Node Diagnostic Tree) (run : Outcome (Option SqlFunctionBody))
        → waiting id range content (do
          (body, sql_fn_db) ← (do body ← run; ok (body, insert id body p.sql_fn_db))
          pending ← push_body parsers id range body []
          ok (pending, record p { sql_fn_db = sql_fn_db }))
          ≡ (do
            body ← run
            placed id range content (record p { sql_fn_db = insert id body p.sql_fn_db }) body)
    sought_placed p (ok body) =
        push_body-placed id range content (record p { sql_fn_db = insert id body p.sql_fn_db }) body
    sought_placed p panic = refl
    sought_placed p out_of_fuel = refl

    -- From the parse of the statement on, by what is kept of its body
    kept_body_placed :
        (p : ParsedDocument Node Diagnostic Tree) (ast : Node)
        (found : Option (Option SqlFunctionBody))
        → waiting id range content (do
          (body, sql_fn_db) ← keep_body parsers.view id ast content p.sql_fn_db found
          pending ← push_body parsers id range body []
          ok (pending, record p { sql_fn_db = sql_fn_db }))
          ≡ (do
            body ← body_of parsers id content (parsed ast) found
            placed id range content
                (record p { sql_fn_db = keeping id body found p.sql_fn_db })
                body)
    kept_body_placed p ast (some body) = push_body-placed id range content p body
    kept_body_placed p ast none = sought_placed p (get_sql_fn parsers.view ast content)

    find_body-placed :
        (p : ParsedDocument Node Diagnostic Tree) (result : ParseResult Node Diagnostic)
        → waiting id range content (find_body parsers id range content result [] p) ≡ (do
          body ← body_of parsers id content result (get id p.sql_fn_db)
          placed id range content
              (record p { sql_fn_db = bodies_with parsers id result body p.sql_fn_db })
              body)
    unfolding find_body get_function_body
    find_body-placed p (syntax_error d) = refl
    find_body-placed p (parsed ast) = kept_body_placed p ast (get id p.sql_fn_db)

    -- From the text on, by what is kept of its parse
    kept_ast_placed :
        (p : ParsedDocument Node Diagnostic Tree) (found : Option (ParseResult Node Diagnostic))
        → waiting id range content (
            let (result, ast_db) = keep_ast parsers.parse id content p.ast_db found in
            find_body parsers id range content result [] (record p { ast_db = ast_db }))
          ≡ (do
            body ←
                body_of parsers id content
                  (kept_or (parsers.parse content) found)
                  (get id p.sql_fn_db)
            placed id range content
                (record p {
                  ast_db = keeping id (parsers.parse content) found p.ast_db;
                  sql_fn_db =
                      bodies_with parsers id
                        (kept_or (parsers.parse content) found)
                        body
                        p.sql_fn_db;
                })
                body)
    kept_ast_placed p none =
        find_body-placed (record p { ast_db = insert id (parsers.parse content) p.ast_db })
          (parsers.parse content)
    kept_ast_placed p (some result) = find_body-placed p result

  text_placed :
      (id : StatementId) (range : TextRange) (p : ParsedDocument Node Diagnostic Tree)
      (run : Outcome Text)
      → listed
          (id, range)
          (do
            content ← run
            let (result, ast_db) = get_or_cache_ast parsers.parse id content p.ast_db
            (pending, p') ←
                find_body parsers id range content result [] (record p { ast_db = ast_db })
            ok (content, pending, p'))
        ≡ (do
          content ← run
          let ast = kept_or (parsers.parse content) (get id p.ast_db)
          body ← body_of parsers id content ast (get id p.sql_fn_db)
          placed id range content
              (record p {
                ast_db = keeping id (parsers.parse content) (get id p.ast_db) p.ast_db;
                sql_fn_db = bodies_with parsers id ast body p.sql_fn_db;
              })
              body)
  unfolding get_or_cache_ast
  text_placed id range p (ok content) = kept_ast_placed id range content p (get id p.ast_db)
  text_placed id range p panic = refl
  text_placed id range p out_of_fuel = refl

  enter_statement-listed :
      (pos : StatementPos) (p : ParsedDocument Node Diagnostic Tree)
      → listed pos (enter_statement parsers pos [] p) ≡ describe parsers pos p
  unfolding enter_statement
  enter_statement-listed (id, range) p = text_placed id range p (index_range p.doc.content range)

  abbrev with_rest :
      StatementPos
      → (ParsedDocument Node Diagnostic Tree
          → Outcome (List Item × ParsedDocument Node Diagnostic Tree))
      → Outcome (Text × List Item × ParsedDocument Node Diagnostic Tree)
      → Outcome (List Item × ParsedDocument Node Diagnostic Tree)
  with_rest pos later run = do
    (content, bodies, p) ← run
    (items, p') ← later p
    ok ((pos.0, pos.1, content) ∷ (bodies ++ items), p')

  abbrev then_flatten :
      List StatementPos
      → Outcome (List Item × ParsedDocument Node Diagnostic Tree)
      → Outcome (List Item × ParsedDocument Node Diagnostic Tree)
  then_flatten rest run = do
    (items, p) ← run
    (more, p') ← flatten parsers rest p
    ok (items ++ more, p')

  entered-listed :
      (pos : StatementPos) (rest : List StatementPos)
      (run : Outcome (Text × List Item × ParsedDocument Node Diagnostic Tree))
      → ((p : ParsedDocument Node Diagnostic Tree)
          → entered parsers rest p ≡ flatten parsers rest p)
      → with_rest pos (entered parsers rest) run ≡ then_flatten rest (listed pos run)
  entered-listed pos rest (ok (content, bodies, p)) h = rw (h p) refl
  entered-listed pos rest panic h = refl
  entered-listed pos rest out_of_fuel h = refl

  entered-flatten :
      (statements : List StatementPos) (p : ParsedDocument Node Diagnostic Tree)
      → entered parsers statements p ≡ flatten parsers statements p
  entered-flatten [] p = refl
  entered-flatten (pos ∷ rest) p =
      rw (sym (enter_statement-listed pos p))
        (entered-listed pos rest (enter_statement parsers pos [] p) (entered-flatten rest))

  -- With fuel above twice the statements, an iteration over a parsed document gives each statement in
  -- order, with its text, and behind it, where a body is kept or found for it, the body as its child,
  -- its range moved by the start of the statement, less the items that the filter turns away. It
  -- leaves the stores with what was made of the statements, and panics where the text of a statement,
  -- its body or the moved range cannot be made.
  pub iter_with_filter-flatten :
      (filter : StatementFilter) (fuel : ℕ) (p : ParsedDocument Node Diagnostic Tree)
      → 2 * length p.doc.positions < fuel
      → iter_with_filter parsers (default_mapper parsers) filter fuel p
        ≡ (do (items, p') ← flatten parsers p.doc.positions p; ok (keep filter items, p'))
  iter_with_filter-flatten filter fuel p h =
      rw (sym (entered-flatten p.doc.positions p))
        (iter_with_filter-entered parsers filter fuel p h)
