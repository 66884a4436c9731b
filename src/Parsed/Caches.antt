-- ===== src/Parsed/Caches.antt =====
-- What the stores of syntax trees and annotations answer the second time.
use postgres_lsp.Prelude.{◌≡◌, refl, ap, ◌∙◌, Option, none, some, arith, Outcome, ok, >>=-eq-ok}
use postgres_lsp.Document.Id.{StatementId}
use postgres_lsp.Document.Content.{Text}
use postgres_lsp.Document.View.{id_eq_refl}
use postgres_lsp.Lexer.Merge.{LexResult}
use postgres_lsp.Parsed.Store.{Store, get, insert, get-insert}
use postgres_lsp.Parsed.Annotation.{
  StatementAnnotations, annotate, get_annotations, keep_annotations,
}

get-insert_self :
    {V : Type 0} (id : StatementId) (v : V) (s : Store V) → get id (insert id v s) ≡ some v
get-insert_self id v s = ground (arith, get-insert id id v s, id_eq_refl id)

module _ (lex : Text → Outcome LexResult) where
  keep_annotations-none :
      (id : StatementId) (content : Text) (db : Store (Option StatementAnnotations))
      (found : Option (Option StatementAnnotations))
      (r : Option StatementAnnotations × Store (Option StatementAnnotations))
      → found ≡ none
      → keep_annotations lex id content db found ≡ ok r
      → (tokens : LexResult) × (lex content ≡ ok tokens)
        × (r.0 ≡ annotate tokens)
        × (r.1 ≡ insert id none db)
  keep_annotations-none id content db (some existing) r h run = cc h
  keep_annotations-none id content db none r h run =
      let (tokens, scanned, made) = >>=-eq-ok (lex content) _ run in
      (tokens, scanned, cc made, cc made)

  keep_annotations-some :
      (id : StatementId) (content : Text) (db : Store (Option StatementAnnotations))
      (found : Option (Option StatementAnnotations)) (existing : Option StatementAnnotations)
      → found ≡ some existing
      → keep_annotations lex id content db found ≡ ok (existing, db)
  keep_annotations-some id content db (some other) existing h =
      let same : other ≡ existing = cc h in rw same refl
  keep_annotations-some id content db none existing h = cc h

  -- Of a statement that is not in the store the first call that returns gives the annotations of the
  -- text; every later call on the store behind gives none, whatever the text, and leaves the store.
  pub get_annotations-second :
      (id : StatementId) (content later : Text) (db : Store (Option StatementAnnotations))
      (r : Option StatementAnnotations × Store (Option StatementAnnotations))
      → get id db ≡ none
      → get_annotations lex id content db ≡ ok r
      → ((tokens : LexResult) × (lex content ≡ ok tokens) × (r.0 ≡ annotate tokens))
        × (get_annotations lex id later r.1 ≡ ok (none, r.1))
  unfolding get_annotations
  get_annotations-second id content later db r fresh run =
      let (tokens, scanned, first, behind) =
        keep_annotations-none id content db (get id db) r fresh run in
      (
        (tokens, scanned, first),
        keep_annotations-some id later r.1 (get id r.1) none
            (ap (get id) behind ∙ get-insert_self id none db),
      )
