-- ===== src/Completions/Schemas.antt =====
-- What is offered behind the name of a schema.
use postgres_lsp.Prelude.{
  ◌≡◌, refl, Bool, true, false, ◌&&◌, some, List, arith, Returns, Returns-map,
}
use mathlib.Core.Path.{subst}
use postgres_lsp.Document.Content.{Text}
use postgres_lsp.Parsed.Find.{text_eq→≡}
use postgres_lsp.Completions.Data.{
  RelevanceData, table, function, column, schema, CompletionContext,
}
use postgres_lsp.Completions.Filter.{
  is_relevant, check_invocation, check_mentioned_schema, in_schema,
}
use postgres_lsp.Completions.Builder.{PossibleCompletionItem, rank}
use postgres_lsp.Completions.Ordered.{Each, Each-map, Offered}
use postgres_lsp.Completions.Ranked.{IsShort, Ranked, rank-Ranked}

-- A table or a function of the schema, and no table in a call.
abbrev pub OfSchema : CompletionContext → Text → RelevanceData → Type 0
OfSchema ctx name (table t) = (t.schema ≡ name) × (ctx.is_invocation ≡ false)
OfSchema ctx name (function f) = f.schema ≡ name
OfSchema ctx name (column c) = ⊥
OfSchema ctx name (schema s) = ⊥

both-true : (a b : Bool) → (a && b) ≡ true → (a ≡ true) × (b ≡ true)
both-true true b h = (refl, h)
both-true false b h = cc h

in_schema-OfSchema :
    (ctx : CompletionContext) (name : Text) (item : RelevanceData)
    → check_invocation item ctx ≡ true
    → in_schema item (some name) ≡ true
    → OfSchema ctx name item
unfolding check_invocation
in_schema-OfSchema ctx name (table t) h k = (text_eq→≡ t.schema name k, ground (arith, h))
in_schema-OfSchema ctx name (function f) h k = text_eq→≡ f.schema name k
in_schema-OfSchema ctx name (column c) h k = cc k
in_schema-OfSchema ctx name (schema s) h k = cc k

relevant-OfSchema :
    (ctx : CompletionContext) (name : Text) (item : RelevanceData)
    → ctx.schema_name ≡ some name
    → is_relevant item ctx ≡ true
    → OfSchema ctx name item
unfolding is_relevant check_mentioned_schema
relevant-OfSchema ctx name item named h =
    let (context, rest) = both-true _ _ h in
    let (clause, rest') = both-true _ _ rest in
    let (invocation, inside) = both-true _ _ rest' in
    in_schema-OfSchema ctx name item invocation (subst (λ o. in_schema item o ≡ true) named inside)

-- Behind the name of a schema, and where the text under the cursor is shorter than 2 GiB, ranking ends
-- without a panic, and all that it leaves are tables and functions of that schema, with no table
-- inside a call.
pub rank-OfSchema :
    (ctx : CompletionContext) (items : List PossibleCompletionItem) (name : Text)
    → IsShort ctx
    → ctx.schema_name ≡ some name
    → Returns (Each (λ i. OfSchema ctx name i.data_of)) (rank ctx items)
rank-OfSchema ctx items name short named =
    Returns-map (Ranked ctx items) (Each (λ i. OfSchema ctx name i.data_of)) (rank ctx items)
      (rank-Ranked ctx items short)
      λ ranked r.
        Each-map (Offered ctx items) (λ i. OfSchema ctx name i.data_of) ranked
          (λ i offered. relevant-OfSchema ctx name i.data_of named offered.0) r.offered
