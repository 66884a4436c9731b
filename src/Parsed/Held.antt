-- ===== src/Parsed/Held.antt =====
-- The stores of a parsed document over its whole life: each statement has a tree, and nothing that
-- has gone is remembered.
use postgres_lsp.Prelude.{
  ℕ, ◌≡◌, refl, sym, ap, ◌∙◌, true, ◌||◌, List, [], ◌∷◌, arith, ok, IfOk, IfOk-any, IfOk-bind,
  IfOk-map, IfOk-value, ℤ, >>=-eq-ok,
}
use mathlib.Core.Path.{subst}
use postgres_lsp.Document.Id.{StatementId, root, raw}
use postgres_lsp.Document.Content.{Text, index_range}
use postgres_lsp.Document.Params.{ChangeFileParams}
use postgres_lsp.Document.State.{Document, StatementPos}
use postgres_lsp.Document.State
use postgres_lsp.Document.Apply.{apply_file_change}
use postgres_lsp.Document.Change.{Changed}
use postgres_lsp.Document.View.{has, replay, IsNumbered, Tracks}
use postgres_lsp.Document.Reports.{apply_file_change-Tracks}
use postgres_lsp.Document.History.{new-IsNumbered}
use postgres_lsp.Parsed.Store.{Store, holds}
use postgres_lsp.Parsed.State.{Parsers, ParsedDocument, add_each, new, apply_change}
use postgres_lsp.Parsed.TreeSitter.{add_statement}
use postgres_lsp.Parsed.Keys.{Moved, update_all-Moved, Gains, add_statement-Gains, Kept}

module _ {V : Type 0} where
  -- The root entries are those of the statements.
  abbrev pub Exact : List StatementPos → Store V → Type 0
  Exact ps s = (k : ℕ) → holds (root k) s ≡ has (root k) ps

  -- An entry's number is that of a statement.
  abbrev pub Inside : List StatementPos → Store V → Type 0
  Inside ps s = (id : StatementId) → holds id s ≡ true → has (root (raw id)) ps ≡ true

Inside-after :
    {V : Type 0} (d : Document) (c : Changed)
    → Tracks d c
    → (s s' : Store V) → Inside d.positions s
    → Kept c.0 s s'
    → Inside c.1.positions s'
Inside-after d c t s s' before kept id h =
    t.mirror (root (raw id)) ∙ kept id (has (root (raw id)) d.positions) (before id) h

-- The statements have distinct roots, each has a tree and no other root has one; syntax trees, bodies and
-- annotations are kept of statements alone.
pub record Stored {Node Diagnostic Tree : Type 0} (d : Document)
    (p : ParsedDocument Node Diagnostic Tree) : Type 0 where
  pub same : p.doc ≡ d
  pub numbered : IsNumbered d
  pub trees : Exact d.positions p.cst_db
  pub asts : Inside d.positions p.ast_db
  pub bodies : Inside d.positions p.sql_fn_db
  pub annotations : Inside d.positions p.annotation_db

module _ {Node Diagnostic Tree : Type 0} (parsers : Parsers Node Diagnostic Tree) where
  add_each-Exact :
      (content : Text) (ps : List StatementPos) (db : Store Tree)
      → IfOk
          (λ db'. (k : ℕ) → holds (root k) db' ≡ (has (root k) ps || holds (root k) db))
          (add_each parsers content ps db)
  unfolding add_each
  add_each-Exact content [] db = λ k. refl
  add_each-Exact content ((id, range) ∷ ps) db = IfOk-any _ (index_range content range) _ λ text.
      IfOk-bind (Gains id db) _ (add_statement parsers.parse_tree id text db) _
        (add_statement-Gains parsers id text db)
        λ db' gain.
          IfOk-map (λ db''. (k : ℕ) → holds (root k) db'' ≡ (has (root k) ps || holds (root k) db'))
            _ _ (add_each-Exact content ps db') λ db'' h k. ground (arith, h k, gain k)

  pub new-Stored :
      (text : Text) (version : ℤ) (p : ParsedDocument Node Diagnostic Tree)
      → new parsers text version ≡ ok p
      → Stored p.doc p
  unfolding new
  new-Stored text version p h =
      let (doc, opened, made) = >>=-eq-ok (State.new parsers.split text version) _ h in
      let (db, filled, packed) = >>=-eq-ok (add_each parsers doc.content doc.positions []) _ made in
      let exact = IfOk-value _ _ db (add_each-Exact doc.content doc.positions []) filled in
      let made_of : record {
        doc = doc;
        ast_db = [];
        cst_db = db;
        sql_fn_db = [];
        annotation_db = [];
      }
          ≡ p =
        cc packed in
      subst (λ p. Stored p.doc p) made_of
        (record {
          same = refl;
          numbered = new-IsNumbered parsers.split text version doc opened;
          trees = λ k. ground (arith, exact k);
          asts = λ id h. cc h;
          bodies = λ id h. cc h;
          annotations = λ id h. cc h;
        })

  pub apply_change-Stored :
      (params : ChangeFileParams) (p q : ParsedDocument Node Diagnostic Tree)
      → Stored p.doc p
      → apply_change parsers params p ≡ ok q
      → Stored q.doc q
  unfolding apply_change
  apply_change-Stored params p q h run =
      let (c, changed, updated) = >>=-eq-ok (apply_file_change parsers.split params p.doc) _ run in
      let t = apply_file_change-Tracks parsers.split params p.doc c h.numbered changed in
      let m : Moved parsers c.0 (record p { doc = c.1 }) q =
        IfOk-value _ _ q (update_all-Moved parsers c.0 (record p { doc = c.1 })) updated in
      let held : Stored c.1 q = record {
        same = m.same;
        numbered = t.numbered;
        trees = λ k. m.trees k ∙ (ap (replay (root k) c.0) (h.trees k) ∙ sym (t.mirror (root k)));
        asts = Inside-after p.doc c t p.ast_db q.ast_db h.asts m.asts;
        bodies = Inside-after p.doc c t p.sql_fn_db q.sql_fn_db h.bodies m.bodies;
        annotations =
            Inside-after p.doc c t p.annotation_db q.annotation_db h.annotations m.annotations;
      } in
      subst (λ d. Stored d q) (sym m.same) held
