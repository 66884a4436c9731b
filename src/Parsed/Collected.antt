-- ===== src/Parsed/Collected.antt =====
-- What the rounds of an iteration come to: each statement entered in turn, and what is on the stack
-- behind it.
use postgres_lsp.Prelude.{
  ℕ, zero, suc, ◌+◌, ◌*◌, ◌≤◌, ◌<◌, ◌≡◌, refl, sym, ◌∙◌, true, false, Option, none, some, List, [],
  ◌∷◌, ◌++◌, length, if◌then◌else◌, arith, Outcome, ok, panic, out_of_fuel, ◌>>=◌, Bool-cases, inl,
  inr, IfOk, IfOk-any, IfOk-bind, IfOk-map,
}
use postgres_lsp.TextSize.Range.{TextRange}
use postgres_lsp.TextSize.Range
use postgres_lsp.Document.Id.{StatementId, create_child}
use postgres_lsp.Document.Content.{Text, index_range}
use postgres_lsp.Document.State.{StatementPos}
use postgres_lsp.Parsed.PgQuery.{ParseResult, parsed, syntax_error, get_or_cache_ast}
use postgres_lsp.Parsed.SqlFunction.{SqlFunctionBody, get_function_body}
use postgres_lsp.Parsed.State.{Parsers, ParsedDocument}
use postgres_lsp.Parsed.Filters.{StatementFilter}
use postgres_lsp.Parsed.Iterate.{
  Item, push_body, find_body, enter_statement, give, next, next_from, next_pending, collect,
  iterator, Next, give_or,
}
use postgres_lsp.Parsed.Mappers.{default_mapper, iter_with_filter}

abbrev pub keep : StatementFilter → List Item → List Item
keep filter [] = []
keep filter (item ∷ items) =
    let rest = keep filter items in if filter item.0 item.1 item.2 then item ∷ rest else rest

keep-append :
    (filter : StatementFilter) (xs ys : List Item)
    → keep filter (xs ++ ys) ≡ keep filter xs ++ keep filter ys
keep-append filter [] ys = refl
keep-append filter ((id, r, t) ∷ xs) ys = ground (arith, keep-append filter xs ys)

module _ {Node Diagnostic Tree : Type 0} (parsers : Parsers Node Diagnostic Tree) where
  -- All items: each statement, then what waits behind it.
  abbrev pub entered :
      List StatementPos
      → ParsedDocument Node Diagnostic Tree
      → Outcome (List Item × ParsedDocument Node Diagnostic Tree)
  entered [] p = ok ([], p)
  entered (pos ∷ rest) p = do
    (content, bodies, p') ← enter_statement parsers pos [] p
    (items, p'') ← entered rest p'
    ok ((pos.0, pos.1, content) ∷ (bodies ++ items), p'')

  push_body-short :
      (root_id : StatementId) (range : TextRange) (body : Option SqlFunctionBody)
      → IfOk (λ pending. length pending ≤ 1) (push_body parsers root_id range body [])
  unfolding push_body
  push_body-short root_id range none = omega arith
  push_body-short root_id range (some b) =
      IfOk-any (λ pending. length pending ≤ 1) (create_child root_id) _
        λ child_id.
          IfOk-any (λ pending. length pending ≤ 1) (Range.add b.range range.start) _
            λ moved. omega arith

  find_body-short :
      (root_id : StatementId) (range : TextRange) (content : Text)
      (result : ParseResult Node Diagnostic) (p : ParsedDocument Node Diagnostic Tree)
      → IfOk (λ r. length r.0 ≤ 1) (find_body parsers root_id range content result [] p)
  unfolding find_body
  find_body-short root_id range content (syntax_error d) p = omega arith
  find_body-short root_id range content (parsed ast) p =
      IfOk-any (λ r. length r.0 ≤ 1)
        (get_function_body parsers.view root_id ast content p.sql_fn_db) _
        λ found.
          IfOk-bind (λ pending. length pending ≤ 1) (λ r. length r.0 ≤ 1)
            (push_body parsers root_id range found.0 []) _ (push_body-short root_id range found.0)
            λ pending few. few

  -- A statement has at most one body.
  enter_statement-short :
      (pos : StatementPos) (p : ParsedDocument Node Diagnostic Tree)
      → IfOk (λ r. length r.1 ≤ 1) (enter_statement parsers pos [] p)
  unfolding enter_statement
  enter_statement-short (root_id, range) p =
      IfOk-any (λ r. length r.1 ≤ 1) (index_range p.doc.content range) _
        λ content.
          let (result, ast_db) = get_or_cache_ast parsers.parse root_id content p.ast_db in
          IfOk-bind (λ r. length r.0 ≤ 1) (λ r. length r.1 ≤ 1)
            (find_body parsers root_id range content result [] (record p { ast_db = ast_db })) _
            (find_body-short root_id range content result (record p { ast_db = ast_db }))
            λ r few. few

  module _ (filter : StatementFilter) where
    abbrev kept :
        List Item
        → Outcome (List Item × ParsedDocument Node Diagnostic Tree)
        → Outcome (List Item × ParsedDocument Node Diagnostic Tree)
    kept pending run = do (items, p) ← run; ok (keep filter (pending ++ items), p)

    -- A round behind its call of `next`.
    abbrev round :
        ℕ
        → Outcome (Next parsers (default_mapper parsers) filter)
        → Outcome (List Item × ParsedDocument Node Diagnostic Tree)
    round fuel run = do
      (output, it, p) ← run
      let rest = collect parsers (default_mapper parsers) filter fuel it p in
          elim output [ none ↦ ok ([], p) | some x ↦ (do (xs, p') ← rest; ok (x ∷ xs, p')) ]

    kept-cons :
        (item : Item) (pending : List Item)
        (run : Outcome (List Item × ParsedDocument Node Diagnostic Tree))
        → filter item.0 item.1 item.2 ≡ true
        → kept (item ∷ pending) run ≡ (do (xs, p) ← kept pending run; ok (item ∷ xs, p))
    kept-cons item pending (ok (items, p)) h = rw h refl
    kept-cons item pending panic h = refl
    kept-cons item pending out_of_fuel h = refl

    kept-skip :
        (item : Item) (pending : List Item)
        (run : Outcome (List Item × ParsedDocument Node Diagnostic Tree))
        → filter item.0 item.1 item.2 ≡ false
        → kept (item ∷ pending) run ≡ kept pending run
    kept-skip item pending (ok (items, p)) h = rw h refl
    kept-skip item pending panic h = refl
    kept-skip item pending out_of_fuel h = refl

    round-pending :
        (fuel : ℕ) (statements : List StatementPos) (p : ParsedDocument Node Diagnostic Tree)
        (rest : Outcome (Next parsers (default_mapper parsers) filter))
        (run : Outcome (List Item × ParsedDocument Node Diagnostic Tree))
        → round fuel rest ≡ kept [] run
        → ((pending : List Item)
            → length pending + 2 * length statements < fuel
            → collect parsers
                (default_mapper parsers)
                filter
                fuel
                (record { statements = statements; pending_sub_statements = pending })
                p
              ≡ kept pending run)
        → (pending : List Item) → length pending + 2 * length statements < suc fuel
        → round fuel
            (next_pending parsers (default_mapper parsers) filter statements pending p rest)
          ≡ kept pending run
    unfolding next_pending give default_mapper
    round-pending fuel statements p rest run none_left later [] h = none_left
    round-pending fuel statements p rest run none_left later (item ∷ pending) h =
        elim (Bool-cases (filter item.0 item.1 item.2)) [
          | inl e ↦
              let first : round fuel (
                    next_pending parsers (default_mapper parsers) filter statements (item ∷ pending)
                      p rest)
                  ≡ (do (xs, p) ← kept pending run; ok (item ∷ xs, p)) =
                rw (e, later pending (omega arith)) refl in
              first ∙ sym (kept-cons item pending run e)
          | inr e ↦
              let others : round fuel (
                    next_pending parsers (default_mapper parsers) filter statements (item ∷ pending)
                      p rest)
                  ≡ kept pending run =
                rw e (
                  round-pending fuel statements p rest run none_left later pending (omega arith)) in
              others ∙ sym (kept-skip item pending run e)
        ]

    give_or-next_from :
        (item : Item) (rest : List StatementPos) (pending : List Item)
        (p : ParsedDocument Node Diagnostic Tree)
        → give_or parsers
            (default_mapper parsers)
            filter
            item
            rest
            pending
            p
            (next_from parsers (default_mapper parsers) filter rest pending p)
          ≡ next_from parsers (default_mapper parsers) filter rest (item ∷ pending) p
    unfolding next_from next_pending
    give_or-next_from item [] pending p = refl
    give_or-next_from item (pos ∷ rest) pending p = refl

    -- What waits goes in front of what the rest gives.
    kept-bind :
        (pending : List Item) (item : Item)
        (run : Outcome (List Item × ParsedDocument Node Diagnostic Tree))
        → kept (item ∷ pending) run
          ≡ kept [] (do (items, p) ← run; ok (item ∷ (pending ++ items), p))
    kept-bind pending item (ok (items, p)) = refl
    kept-bind pending item panic = refl
    kept-bind pending item out_of_fuel = refl

    round-entered :
        (fuel : ℕ) (pos : StatementPos) (rest : List StatementPos)
        (run : Outcome (Text × List Item × ParsedDocument Node Diagnostic Tree))
        → IfOk
            (λ r.
              round fuel (
                next_from parsers
                  (default_mapper parsers)
                  filter
                  rest
                  ((pos.0, pos.1, r.0) ∷ r.1)
                  r.2)
              ≡ kept ((pos.0, pos.1, r.0) ∷ r.1) (entered rest r.2))
            run
        → round fuel (do
          (content, pending, p) ← run
          give_or parsers
              (default_mapper parsers)
              filter
              (pos.0, pos.1, content)
              rest
              pending
              p
              (next_from parsers (default_mapper parsers) filter rest pending p))
          ≡ kept [] (do
            (content, bodies, p) ← run
            (items, p') ← entered rest p
            ok ((pos.0, pos.1, content) ∷ (bodies ++ items), p'))
    round-entered fuel pos rest (ok (content, pending, p)) h =
        rw (give_or-next_from (pos.0, pos.1, content) rest pending p)
          (h ∙ kept-bind pending (pos.0, pos.1, content) (entered rest p))
    round-entered fuel pos rest panic h = refl
    round-entered fuel pos rest out_of_fuel h = refl

    collect-entered :
        (fuel : ℕ) (statements : List StatementPos) (pending : List Item)
        (p : ParsedDocument Node Diagnostic Tree)
        → length pending + 2 * length statements < fuel
        → collect parsers
            (default_mapper parsers)
            filter
            fuel
            (record { statements = statements; pending_sub_statements = pending })
            p
          ≡ kept pending (entered statements p)
    unfolding collect next next_from
    collect-entered zero statements pending p h = elim h [ ]
    collect-entered (suc fuel) [] pending p h =
        round-pending fuel [] p _ (entered [] p) refl
          (λ pending' h'. collect-entered fuel [] pending' p h') pending h
    collect-entered (suc fuel) (pos ∷ rest) pending p h =
        round-pending fuel (pos ∷ rest) p _ (entered (pos ∷ rest) p)
          (round-entered fuel pos rest (enter_statement parsers pos [] p) (
            IfOk-map (λ r. length r.1 ≤ 1) _ _ (enter_statement-short pos p)
              λ r few.
                collect-entered (suc fuel) rest ((pos.0, pos.1, r.0) ∷ r.1) r.2 (omega arith)))
          (λ pending' h'. collect-entered fuel (pos ∷ rest) pending' p h') pending h

    -- With fuel above twice the statements, an iteration over a parsed document gives what `entered`
    -- makes of its statements, in that order, less the items that the filter turns away, and leaves
    -- the same stores; it panics where `entered` does.
    pub iter_with_filter-entered :
        (fuel : ℕ) (p : ParsedDocument Node Diagnostic Tree)
        → 2 * length p.doc.positions < fuel
        → iter_with_filter parsers (default_mapper parsers) filter fuel p
          ≡ (do (items, p') ← entered p.doc.positions p; ok (keep filter items, p'))
    unfolding iter_with_filter iterator
    iter_with_filter-entered fuel p h = collect-entered fuel p.doc.positions [] p (omega arith)
