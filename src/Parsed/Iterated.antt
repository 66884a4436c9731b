-- ===== src/Parsed/Iterated.antt =====
-- An iteration over a parsed document, and its life of changes and iterations.
use postgres_lsp.Prelude.{
  ℕ, zero, suc, ◌≡◌, refl, sym, true, Option, none, some, List, [], ◌∷◌, arith, Outcome, ok, ◌>>=◌,
  IfOk, IfOk-any, IfOk-bind, IfOk-map, IfOk-value, split_if, ℤ,
}
use mathlib.Core.Path.{subst}
use postgres_lsp.TextSize.Range.{TextRange}
use postgres_lsp.TextSize.Range
use postgres_lsp.Document.Id.{StatementId, root, child, raw, create_child}
use postgres_lsp.Document.Content.{Text, index_range}
use postgres_lsp.Document.Params.{ChangeFileParams}
use postgres_lsp.Document.State.{Document, StatementPos}
use postgres_lsp.Document.View.{has, id_eq_refl, Numbered}
use postgres_lsp.Parsed.PgQuery.{ParseResult, parsed, syntax_error, get_or_cache_ast}
use postgres_lsp.Parsed.SqlFunction.{SqlFunctionBody, get_function_body}
use postgres_lsp.Parsed.Store.{get}
use postgres_lsp.Parsed.State.{Parsers, ParsedDocument, new, apply_change}
use postgres_lsp.Parsed.Filters.{StatementFilter}
use postgres_lsp.Parsed.Iterate.{
  Item, IterState, StatementMapper, Next, push_body, find_body, enter_statement, give, next,
  next_from, next_pending, collect, iterator,
}
use postgres_lsp.Parsed.Mappers.{iter_with_filter}
use postgres_lsp.Parsed.Held.{Stored, new-Stored, apply_change-Stored}
use postgres_lsp.Parsed.Reads.{
  Known, IsMapper, mapper-Stored, get_or_cache_ast-Stored, keep_body-Stored,
}

abbrev AllKnown : List StatementPos → List StatementPos → Type 0
AllKnown ps [] = Unit {0}
AllKnown ps ((id, range) ∷ rest) = Known ps id × AllKnown ps rest

abbrev AllPending : List StatementPos → List Item → Type 0
AllPending ps [] = Unit {0}
AllPending ps ((id, r, t) ∷ rest) = Known ps id × AllPending ps rest

-- The statements of a document are known to it.
Numbered-AllKnown :
    (n : ℕ) (ps rest : List StatementPos)
    → ((id : StatementId) → has id rest ≡ true → has id ps ≡ true)
    → Numbered n rest
    → AllKnown ps rest
unfolding raw
Numbered-AllKnown n ps [] within h = tt
Numbered-AllKnown n ps ((root k, range) ∷ rest) within h = (
  within (root k) (rw (id_eq_refl (root k)) refl),
  Numbered-AllKnown n ps rest (λ id there. within id (ground (there, arith))) h.2,
)
Numbered-AllKnown n ps ((child k, range) ∷ rest) within h = absurd h.0

module _ {Node Diagnostic Tree : Type 0} (parsers : Parsers Node Diagnostic Tree)
    (d : Document) where
  abbrev Entered : List Item × ParsedDocument Node Diagnostic Tree → Type 0
  Entered r = AllPending d.positions r.0 × Stored d r.1

  create_child-raw : (id : StatementId) → IfOk (λ c. raw c ≡ raw id) (create_child id)
  unfolding create_child raw
  create_child-raw (root k) = refl
  create_child-raw (child k) = tt

  push_body-AllPending :
      (id : StatementId) (range : TextRange) (body : Option SqlFunctionBody) (pending : List Item)
      → Known d.positions id
      → AllPending d.positions pending
      → IfOk (AllPending d.positions) (push_body parsers id range body pending)
  unfolding push_body
  push_body-AllPending id range none pending known h = h
  push_body-AllPending id range (some b) pending known h =
      IfOk-bind _ (AllPending d.positions) (create_child id) _ (create_child-raw id) λ c same.
        IfOk-any (AllPending d.positions) (Range.add b.range range.start) _
          λ moved. (rw same known, h)

  find_body-Entered :
      (id : StatementId) (range : TextRange) (text : Text) (result : ParseResult Node Diagnostic)
      (pending : List Item) (p : ParsedDocument Node Diagnostic Tree)
      → Known d.positions id
      → AllPending d.positions pending
      → Stored d p
      → IfOk Entered (find_body parsers id range text result pending p)
  unfolding find_body get_function_body
  find_body-Entered id range text (syntax_error e) pending p known waits h = (waits, h)
  find_body-Entered id range text (parsed ast) pending p known waits h =
      IfOk-bind _ Entered (get_function_body parsers.view id ast text p.sql_fn_db) _
        (keep_body-Stored parsers d id ast text p (get id p.sql_fn_db) known h)
        λ r stored.
          IfOk-bind (AllPending d.positions) Entered (push_body parsers id range r.0 pending) _
            (push_body-AllPending id range r.0 pending known waits)
            λ pending' waits'. (waits', stored)

  enter_statement-Entered :
      (pos : StatementPos) (p : ParsedDocument Node Diagnostic Tree)
      → Known d.positions pos.0
      → Stored d p
      → IfOk (λ r. AllPending d.positions r.1 × Stored d r.2) (enter_statement parsers pos [] p)
  unfolding enter_statement
  enter_statement-Entered (id, range) p known h =
      IfOk-any _ (index_range p.doc.content range) _ λ content.
        let result = get_or_cache_ast parsers.parse id content p.ast_db in
        IfOk-bind Entered _ (find_body parsers id range content result.0 [] _) _
          (find_body-Entered id range content result.0 [] (record p { ast_db = result.1 }) known tt
            (get_or_cache_ast-Stored parsers d id content p known h))
          λ r e. e

  module _ {Output : Type 0} (mapper : StatementMapper parsers Output)
      (is_mapper : IsMapper parsers Output mapper) (filter : StatementFilter) where
    abbrev NextStored : Next parsers mapper filter → Type 0
    NextStored r =
        AllKnown d.positions r.1.statements
        × AllPending d.positions r.1.pending_sub_statements
        × Stored d r.2

    give-Stored :
        (item : Item) (statements : List StatementPos) (pending : List Item)
        (p : ParsedDocument Node Diagnostic Tree)
        → Known d.positions item.0
        → AllKnown d.positions statements
        → AllPending d.positions pending
        → Stored d p
        → IfOk NextStored (give parsers mapper filter item statements pending p)
    unfolding give
    give-Stored item statements pending p known left waits h =
        IfOk-bind _ NextStored (mapper p item) _
          (mapper-Stored parsers d Output mapper is_mapper item p known h)
          λ r stored. (left, waits, stored)

    next_pending-Stored :
        (statements : List StatementPos) (pending : List Item)
        (p : ParsedDocument Node Diagnostic Tree) (rest : Outcome (Next parsers mapper filter))
        → AllKnown d.positions statements
        → AllPending d.positions pending
        → Stored d p
        → IfOk NextStored rest
        → IfOk NextStored (next_pending parsers mapper filter statements pending p rest)
    unfolding next_pending
    next_pending-Stored statements [] p rest left waits h later = later
    next_pending-Stored statements ((id, r, t) ∷ pending) p rest left waits h later =
        split_if (IfOk NextStored) (filter id r t)
          (λ e. give-Stored (id, r, t) statements pending p waits.0 left waits.1 h)
          (λ e. next_pending-Stored statements pending p rest left waits.1 h later)

    next_from-Stored :
        (statements : List StatementPos) (pending : List Item)
        (p : ParsedDocument Node Diagnostic Tree)
        → AllKnown d.positions statements
        → AllPending d.positions pending
        → Stored d p
        → IfOk NextStored (next_from parsers mapper filter statements pending p)
    unfolding next_from
    next_from-Stored [] pending p left waits h =
        next_pending-Stored [] pending p _ left waits h (tt, tt, h)
    next_from-Stored (pos ∷ rest) pending p left waits h =
        next_pending-Stored (pos ∷ rest) pending p _ left waits h (
          IfOk-bind (λ r. AllPending d.positions r.1 × Stored d r.2) NextStored
            (enter_statement parsers pos [] p) _ (enter_statement-Entered pos p left.0 h)
            λ r e.
              split_if (IfOk NextStored) (filter pos.0 pos.1 r.0)
                (λ given. give-Stored (pos.0, pos.1, r.0) rest r.1 r.2 left.0 left.1 e.0 e.1)
                (λ passed. next_from-Stored rest r.1 r.2 left.1 e.0 e.1))

    abbrev CollectStored : List Output × ParsedDocument Node Diagnostic Tree → Type 0
    CollectStored r = Stored d r.1

    collected :
        (o : Option Output) (p : ParsedDocument Node Diagnostic Tree)
        (run : Outcome (List Output × ParsedDocument Node Diagnostic Tree))
        → Stored d p
        → IfOk CollectStored run
        → IfOk CollectStored
            (elim o [ none ↦ ok ([], p) | some x ↦ (do (xs, p') ← run; ok (x ∷ xs, p')) ])
    collected none p run h rest = h
    collected (some x) p run h rest =
        IfOk-bind CollectStored CollectStored run _ rest λ r stored. stored

    collect-Stored :
        (fuel : ℕ) (it : IterState) (p : ParsedDocument Node Diagnostic Tree)
        → AllKnown d.positions it.statements
        → AllPending d.positions it.pending_sub_statements
        → Stored d p
        → IfOk CollectStored (collect parsers mapper filter fuel it p)
    unfolding collect next
    collect-Stored zero it p left waits h = tt
    collect-Stored (suc fuel) it p left waits h =
        IfOk-bind NextStored CollectStored (next parsers mapper filter it p) _
          (next_from-Stored it.statements it.pending_sub_statements p left waits h)
          λ r stored.
            collected r.0 r.2 (collect parsers mapper filter fuel r.1 r.2) stored.2
              (collect-Stored fuel r.1 r.2 stored.0 stored.1 stored.2)

module _ {Node Diagnostic Tree : Type 0} (parsers : Parsers Node Diagnostic Tree) where
  -- A parsed document over its life: opened, changed, and gone over.
  pub data Lived : ParsedDocument Node Diagnostic Tree → Type 1 where
    opened :
        (text : Text) (version : ℤ) (p : ParsedDocument Node Diagnostic Tree)
        → new parsers text version ≡ ok p
        → Lived p
    changed :
        (p q : ParsedDocument Node Diagnostic Tree) (params : ChangeFileParams)
        → Lived p
        → apply_change parsers params p ≡ ok q
        → Lived q
    gone_over :
        (p : ParsedDocument Node Diagnostic Tree) (Output : Type 0)
        (mapper : StatementMapper parsers Output) (filter : StatementFilter) (fuel : ℕ)
        (r : List Output × ParsedDocument Node Diagnostic Tree)
        → Lived p
        → IsMapper parsers Output mapper
        → iter_with_filter parsers mapper filter fuel p ≡ ok r
        → Lived r.1

  iter_with_filter-Stored :
      (p : ParsedDocument Node Diagnostic Tree) (Output : Type 0)
      (mapper : StatementMapper parsers Output) (filter : StatementFilter) (fuel : ℕ)
      → IsMapper parsers Output mapper
      → Stored p.doc p
      → IfOk (λ r. Stored r.1.doc r.1) (iter_with_filter parsers mapper filter fuel p)
  unfolding iter_with_filter iterator
  iter_with_filter-Stored p Output mapper filter fuel is_mapper h =
      IfOk-map (λ r. Stored p.doc r.1) (λ r. Stored r.1.doc r.1) _
        (collect-Stored parsers p.doc mapper is_mapper filter fuel (iterator p) p
          (Numbered-AllKnown _ p.doc.positions p.doc.positions (λ id there. there) h.numbered) tt h)
        λ r stored. subst (λ d. Stored d r.1) (sym stored.same) stored

  -- Open a parsed document and let it go through changes and iterations that return. Then its
  -- statements have distinct roots below the generator's next number, a root has a tree exactly where
  -- it is that of a statement, and a syntax tree, a function body or an annotation is kept of
  -- statements and their bodies alone. Nothing is said of the trees that are kept of bodies.
  pub lived-Stored : (p : ParsedDocument Node Diagnostic Tree) → Lived p → Stored p.doc p
  lived-Stored p (opened text version p' made) = new-Stored parsers text version p made
  lived-Stored q (changed p q' params before run) =
      apply_change-Stored parsers params p q (lived-Stored p before) run
  lived-Stored q (gone_over p Output mapper filter fuel r before is_mapper run) =
      IfOk-value (λ r. Stored r.1.doc r.1) _ r
        (iter_with_filter-Stored p Output mapper filter fuel is_mapper (lived-Stored p before)) run
