-- ===== src/Parsed/Iterate.antt =====
-- server/parsed_document.rs, `ParseIterator`: the statements of a document with the SQL bodies of
-- the functions among them. An iteration fills the stores, so that it returns the document.
use postgres_lsp.Prelude.{
  ℕ, zero, suc, Option, none, some, List, [], ◌∷◌, if◌then◌else◌, Outcome, ok, out_of_fuel, ◌>>=◌,
}
use postgres_lsp.TextSize.Range.{TextRange}
use postgres_lsp.TextSize.Range
use postgres_lsp.Document.Id.{StatementId, create_child}
use postgres_lsp.Document.Content.{Text, index_range}
use postgres_lsp.Document.State.{StatementPos}
use postgres_lsp.Parsed.PgQuery.{ParseResult, parsed, syntax_error, get_or_cache_ast}
use postgres_lsp.Parsed.SqlFunction.{SqlFunctionBody, get_function_body}
use postgres_lsp.Parsed.State.{Parsers, ParsedDocument}
use postgres_lsp.Parsed.Filters.{StatementFilter}

-- A statement or a body: its identifier, its range in the document and its text.
abbrev pub Item : Type 0
Item = StatementId × TextRange × Text

-- The variables of the iterator: the statements that are left and the bodies that wait.
pub record IterState : Type 0 where
  pub statements : List StatementPos
  pub pending_sub_statements : List Item

module _ {Node Diagnostic Tree : Type 0} (parsers : Parsers Node Diagnostic Tree) where
  -- The trait `StatementMapper`: a mapper may fill the stores.
  abbrev pub StatementMapper : Type 0 → Type 0
  StatementMapper Output =
      ParsedDocument Node Diagnostic Tree
      → Item
      → Outcome (Output × ParsedDocument Node Diagnostic Tree)

  -- The body goes on the stack, its range moved to the document.
  unfoldable pub push_body :
      StatementId → TextRange → Option SqlFunctionBody → List Item → Outcome (List Item)
  unfolding Range.add create_child
  push_body root_id range none pending = ok pending
  push_body root_id range (some sub_statement) pending = do
    child_id ← create_child root_id
    moved ← Range.add sub_statement.range range.start
    ok ((child_id, moved, sub_statement.body) ∷ pending)

  -- `if let Ok(ast) = ..`
  unfoldable pub find_body :
      StatementId
      → TextRange
      → Text
      → ParseResult Node Diagnostic
      → List Item
      → ParsedDocument Node Diagnostic Tree
      → Outcome (List Item × ParsedDocument Node Diagnostic Tree)
  unfolding get_function_body push_body
  find_body root_id range content (syntax_error d) pending p = ok (pending, p)
  find_body root_id range content (parsed ast) pending p = do
    (body, sql_fn_db) ← get_function_body parsers.view root_id ast content p.sql_fn_db
    pending' ← push_body root_id range body pending
    ok (pending', record p { sql_fn_db = sql_fn_db })

  -- A top-level statement, before the filter: its text, and what waits then.
  unfoldable pub enter_statement :
      StatementPos
      → List Item
      → ParsedDocument Node Diagnostic Tree
      → Outcome (Text × List Item × ParsedDocument Node Diagnostic Tree)
  unfolding find_body get_or_cache_ast index_range
  enter_statement (root_id, range) pending p = do
    content ← index_range p.doc.content range
    let (result, ast_db) = get_or_cache_ast parsers.parse root_id content p.ast_db
    (pending', p') ← find_body root_id range content result pending (record p { ast_db = ast_db })
    ok (content, pending', p')

  module _ {Output : Type 0} (mapper : StatementMapper Output) (filter : StatementFilter) where
    -- What `next` returns, with the iterator and the document behind it.
    abbrev pub Next : Type 0
    Next = Option Output × IterState × ParsedDocument Node Diagnostic Tree

    unfoldable pub give :
        Item → List StatementPos → List Item → ParsedDocument Node Diagnostic Tree → Outcome Next
    give item statements pending p = do
      (output, p') ← mapper p item
      ok (some output, record { statements = statements; pending_sub_statements = pending }, p')

    -- The waiting items: the first that passes the filter, or what `rest` does without any.
    unfoldable pub next_pending :
        List StatementPos
        → List Item
        → ParsedDocument Node Diagnostic Tree
        → Outcome Next
        → Outcome Next
    unfolding give
    next_pending statements [] p rest = rest
    next_pending statements (item ∷ pending) p rest =
        let later = next_pending statements pending p rest in
        if filter item.0 item.1 item.2 then give item statements pending p else later

    -- A top-level statement behind the filter: it is given, or what `later` does.
    abbrev pub give_or :
        Item
        → List StatementPos
        → List Item
        → ParsedDocument Node Diagnostic Tree
        → Outcome Next
        → Outcome Next
    give_or item statements pending p later =
        if filter item.0 item.1 item.2 then give item statements pending p else later

    -- `ParseIterator::next`, on its two lists; where an item does not pass the filter the code calls
    -- itself.
    unfoldable pub next_from :
        List StatementPos → List Item → ParsedDocument Node Diagnostic Tree → Outcome Next
    unfolding next_pending enter_statement give
    next_from [] pending p =
        next_pending [] pending p
          (ok (none, record { statements = []; pending_sub_statements = [] }, p))
    next_from (pos ∷ rest) pending p = next_pending (pos ∷ rest) pending p (do
      (content, pending', p') ← enter_statement pos [] p
      give_or (pos.0, pos.1, content) rest pending' p' (next_from rest pending' p'))

    unfoldable pub next : IterState → ParsedDocument Node Diagnostic Tree → Outcome Next
    unfolding next_from
    next it p = next_from it.statements it.pending_sub_statements p

    -- `while let Some(output) = it.next()`, in at most `fuel` rounds.
    unfoldable pub collect :
        ℕ
        → IterState
        → ParsedDocument Node Diagnostic Tree
        → Outcome (List Output × ParsedDocument Node Diagnostic Tree)
    unfolding next
    collect zero it p = out_of_fuel
    collect (suc fuel) it p = do
      (output, it', p') ← next it p
      let rest = collect fuel it' p' in
          elim output [ none ↦ ok ([], p') | some x ↦ (do (xs, p'') ← rest; ok (x ∷ xs, p'')) ]

-- `ParseIterator::new`
unfoldable pub iterator :
    {Node Diagnostic Tree : Type 0} → ParsedDocument Node Diagnostic Tree → IterState
iterator p = record { statements = p.doc.positions; pending_sub_statements = [] }
