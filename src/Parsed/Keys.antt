-- ===== src/Parsed/Keys.antt =====
-- Which statements the stores of a parsed document have entries for, under the changes of the
-- document.
use postgres_lsp.Prelude.{
  ℕ, ◌≡◌, refl, ap, ◌∙◌, Bool, true, false, not, ◌&&◌, ◌||◌, Option, none, some, List, [], ◌∷◌,
  arith, unwrap, IfOk, IfOk-any, IfOk-bind, IfOk-map,
}
use postgres_lsp.Document.Id.{StatementId, root, child, raw, id_eq, get_child_id}
use postgres_lsp.Document.Content.{Text}
use postgres_lsp.Document.Change.{
  AddedStatement, StatementChange, ModifiedStatement, added, deleted, modified,
}
use postgres_lsp.Document.View.{after_change, replay}
use postgres_lsp.Parsed.Store.{
  Store, get, insert, remove, holds, clear_statement, get-remove, get-insert,
}
use postgres_lsp.Parsed.TreeSitter.{add_statement, modify_statement, modify_removed}
use postgres_lsp.Parsed.State.{Parsers, ParsedDocument, update_stores, update_all}

module _ {V : Type 0} where
  pub holds-insert :
      (id key : StatementId) (v : V) (s : Store V)
      → holds id (insert key v s) ≡ (id_eq id key || holds id s)
  holds-insert id key v s = ground (arith, get-insert id key v s)

  pub holds-remove :
      (id key : StatementId) (s : Store V)
      → holds id (remove key s) ≡ (not (id_eq id key) && holds id s)
  holds-remove id key s = ground (arith, get-remove id key s)

  -- Of the root entries a cleared statement takes its own.
  pub holds-clear :
      (k : ℕ) (id : StatementId) (s : Store V)
      → holds (root k) (clear_statement id s) ≡ (not (id_eq (root k) id) && holds (root k) s)
  unfolding clear_statement get_child_id id_eq
  holds-clear k (child n) s = holds-remove (root k) (child n) s
  holds-clear k (root n) s =
      holds-remove (root k) (child n) (remove (root n) s) ∙ holds-remove (root k) (root n) s

  -- A number with an entry left was not cleared.
  clear-other :
      (id key : StatementId) (s : Store V)
      → holds id (clear_statement key s) ≡ true
      → (id_eq (root (raw id)) key ≡ false) × (holds id s ≡ true)
  unfolding clear_statement get_child_id id_eq raw
  clear-other (root k) (root n) s h =
      ground (
        arith,
        holds-remove (root k) (child n) (remove (root n) s),
        holds-remove (root k) (root n) s,
      )
  clear-other (child k) (root n) s h = ground (
    arith,
    holds-remove (child k) (child n) (remove (root n) s),
    holds-remove (child k) (root n) s,
  )
  clear-other id (child n) s h = ground (arith, holds-remove id (child n) s)

-- The entries are kept up by a change: a client that has every number with an entry before has every
-- such number behind.
abbrev pub Kept : {V : Type 0} → List StatementChange → Store V → Store V → Type 0
Kept cs s s' =
    (id : StatementId) (b : Bool)
    → (holds id s ≡ true → b ≡ true)
    → holds id s' ≡ true
    → replay (root (raw id)) cs b ≡ true

-- The same for the trees, of which each statement has one.
abbrev pub Follows : {V : Type 0} → List StatementChange → Store V → Store V → Type 0
Follows cs s s' = (k : ℕ) → holds (root k) s' ≡ replay (root k) cs (holds (root k) s)

module _ {V : Type 0} where
  Kept-deleted :
      (key : StatementId) (s : Store V) → Kept (deleted key ∷ []) s (clear_statement key s)
  Kept-deleted key s id b known h =
      let (other, there) = clear-other id key s h in rw (other, known there) refl

  Kept-modified :
      (m : ModifiedStatement) (s : Store V)
      → Kept (modified m ∷ []) s (clear_statement m.old_stmt s)
  Kept-modified m s id b known h =
      let (other, there) = clear-other id m.old_stmt s h in ground (other, known there, arith)

  Kept-added : (c : AddedStatement) (s : Store V) → Kept (added c ∷ []) s s
  Kept-added c s id b known h = ground (known h, arith)

  Kept-then :
      (c : StatementChange) (cs : List StatementChange) (s t u : Store V)
      → Kept (c ∷ []) s t
      → Kept cs t u
      → Kept (c ∷ cs) s u
  Kept-then c cs s t u first rest id b known h =
      rest id (after_change (root (raw id)) c b) (first id b known) h

  Follows-then :
      (c : StatementChange) (cs : List StatementChange) (s t u : Store V)
      → Follows (c ∷ []) s t
      → Follows cs t u
      → Follows (c ∷ cs) s u
  Follows-then c cs s t u first rest k = rest k ∙ ap (replay (root k) cs) (first k)

-- The root entries are those before and the statement's.
abbrev pub Gains : {V : Type 0} → StatementId → Store V → Store V → Type 0
Gains id db db' = (k : ℕ) → holds (root k) db' ≡ (id_eq (root k) id || holds (root k) db)

module _ {Node Diagnostic Tree : Type 0} (parsers : Parsers Node Diagnostic Tree) where
  pub add_statement-Gains :
      (id : StatementId) (text : Text) (db : Store Tree)
      → IfOk (Gains id db) (add_statement parsers.parse_tree id text db)
  unfolding add_statement
  add_statement-Gains id text db =
      IfOk-any _ (unwrap (parsers.parse_tree text none)) _
        λ tree k. holds-insert (root k) id tree db

  modify_removed-Gains :
      (m : ModifiedStatement) (db : Store Tree) (old : Option Tree)
      → IfOk (Gains m.new_stmt db) (modify_removed parsers.parse_tree parsers.edit_tree m db old)
  unfolding modify_removed
  modify_removed-Gains m db none = add_statement-Gains m.new_stmt m.change_text db
  modify_removed-Gains m db (some old) =
      IfOk-any _ (unwrap (parsers.parse_tree m.new_stmt_text _)) _
        λ tree k. holds-insert (root k) m.new_stmt tree db

  modify_statement-Follows :
      (m : ModifiedStatement) (db : Store Tree)
      → IfOk
          (Follows (modified m ∷ []) db)
          (modify_statement parsers.parse_tree parsers.edit_tree m db)
  unfolding modify_statement
  modify_statement-Follows m db =
      IfOk-map (Gains m.new_stmt (remove m.old_stmt db)) (Follows (modified m ∷ []) db) _
        (modify_removed-Gains m (remove m.old_stmt db) (get m.old_stmt db))
        λ db' h k.
          h k ∙ ap (λ b. id_eq (root k) m.new_stmt || b) (holds-remove (root k) m.old_stmt db)

  -- What changes make of the stores.
  pub record Moved (cs : List StatementChange) (p q : ParsedDocument Node Diagnostic Tree)
      : Type 0 where
    pub same : q.doc ≡ p.doc
    pub trees : Follows cs p.cst_db q.cst_db
    pub asts : Kept cs p.ast_db q.ast_db
    pub bodies : Kept cs p.sql_fn_db q.sql_fn_db
    pub annotations : Kept cs p.annotation_db q.annotation_db

  update_stores-Moved :
      (c : StatementChange) (p : ParsedDocument Node Diagnostic Tree)
      → IfOk (Moved (c ∷ []) p) (update_stores parsers c p)
  unfolding update_stores
  update_stores-Moved (added a) p =
      IfOk-bind _ _ (add_statement parsers.parse_tree a.stmt a.text p.cst_db) _
        (add_statement-Gains a.stmt a.text p.cst_db)
        λ db h. record {
          same = refl;
          trees = h;
          asts = Kept-added a p.ast_db;
          bodies = Kept-added a p.sql_fn_db;
          annotations = Kept-added a p.annotation_db;
        }
  update_stores-Moved (deleted id) p = record {
    same = refl;
    trees = λ k. holds-clear k id p.cst_db;
    asts = Kept-deleted id p.ast_db;
    bodies = Kept-deleted id p.sql_fn_db;
    annotations = Kept-deleted id p.annotation_db;
  }
  update_stores-Moved (modified m) p =
      IfOk-bind _ _ (modify_statement parsers.parse_tree parsers.edit_tree m p.cst_db) _
        (modify_statement-Follows m p.cst_db)
        λ db h. record {
          same = refl;
          trees = h;
          asts = Kept-modified m p.ast_db;
          bodies = Kept-modified m p.sql_fn_db;
          annotations = Kept-modified m p.annotation_db;
        }

  pub update_all-Moved :
      (cs : List StatementChange) (p : ParsedDocument Node Diagnostic Tree)
      → IfOk (Moved cs p) (update_all parsers cs p)
  unfolding update_all
  update_all-Moved [] p = record {
    same = refl;
    trees = λ k. refl;
    asts = λ id b known h. known h;
    bodies = λ id b known h. known h;
    annotations = λ id b known h. known h;
  }
  update_all-Moved (c ∷ cs) p =
      IfOk-bind (Moved (c ∷ []) p) (Moved (c ∷ cs) p) (update_stores parsers c p) _
        (update_stores-Moved c p)
        λ q first. IfOk-map (Moved cs q) (Moved (c ∷ cs) p) _ (update_all-Moved cs q) λ r rest.
          record {
            same = rest.same ∙ first.same;
            trees = Follows-then c cs p.cst_db q.cst_db r.cst_db first.trees rest.trees;
            asts = Kept-then c cs p.ast_db q.ast_db r.ast_db first.asts rest.asts;
            bodies = Kept-then c cs p.sql_fn_db q.sql_fn_db r.sql_fn_db first.bodies rest.bodies;
            annotations =
                Kept-then c cs p.annotation_db q.annotation_db r.annotation_db first.annotations
                  rest.annotations;
          }
