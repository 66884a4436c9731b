-- ===== src/Completions/Complete.antt =====
-- The completions as a whole.
use postgres_lsp.Prelude.{
  ◌<◌, ◌≤◌, Option, none, some, List, [], ◌∷◌, length, ◌||◌, arith, lt→ltb, le→leb, split_if,
  unwrap, Returns, Returns-bind,
}
use postgres_lsp.TextSize.Size.{u32_mod}
use postgres_lsp.TextSize.Size
use postgres_lsp.TextSize.Range
use postgres_lsp.Document.Content.{Text}
use postgres_lsp.Parsed.Find.{text_eq}
use postgres_lsp.Completions.Data.{Table, Function, TsNode, CompletionContext}
use postgres_lsp.Completions.Score.{public_name, is_there}
use postgres_lsp.Completions.Providers.{
  get_completion_text_with_schema, complete_tables, complete_functions, complete,
}
use postgres_lsp.Completions.Ranked.{IsShort}
use postgres_lsp.Completions.SortTexts.{Climbs, finish-Climbs}

-- There is a node under the cursor, and it lies in a text shorter than 4 GiB.
abbrev NodeAt : Option TsNode → Type 0
NodeAt none = ⊥
NodeAt (some n) = (n.start_byte ≤ n.end_byte) × (n.end_byte < u32_mod)

abbrev pub IsPlaced : CompletionContext → Type 0
IsPlaced ctx = NodeAt ctx.node_under_cursor

unwrap-NodeAt :
    (o : Option TsNode)
    → NodeAt o
    → Returns (λ n. (n.start_byte ≤ n.end_byte) × (n.end_byte < u32_mod)) (unwrap o)
unwrap-NodeAt none h = h
unwrap-NodeAt (some n) h = h

abbrev Any {ℓ} : {A : Type ℓ} → A → Type 0
Any a = Unit {0}

get_completion_text_with_schema-Returns :
    (ctx : CompletionContext) (name schema : Text)
    → IsPlaced ctx
    → Returns Any (get_completion_text_with_schema ctx name schema)
unfolding get_completion_text_with_schema Size.try_from Range.new
get_completion_text_with_schema-Returns ctx name schema h =
    split_if (Returns Any) (text_eq schema public_name || is_there ctx.schema_name) (λ e. tt)
      λ e.
        Returns-bind _ Any (unwrap ctx.node_under_cursor) _ (unwrap-NodeAt ctx.node_under_cursor h)
          λ n b.
            rw
              (
                lt→ltb n.start_byte u32_mod (omega arith),
                lt→ltb n.end_byte u32_mod b.1,
                le→leb n.start_byte n.end_byte b.0,
              )
              tt

complete_tables-Returns :
    (ctx : CompletionContext) (ts : List Table)
    → IsPlaced ctx
    → Returns Any (complete_tables ctx ts)
unfolding complete_tables
complete_tables-Returns ctx [] h = tt
complete_tables-Returns ctx (t ∷ ts) h =
    Returns-bind Any Any (get_completion_text_with_schema ctx t.name t.schema) _
      (get_completion_text_with_schema-Returns ctx t.name t.schema h)
      λ text any.
        Returns-bind Any Any (complete_tables ctx ts) _ (complete_tables-Returns ctx ts h)
          λ rest any'. tt

complete_functions-Returns :
    (ctx : CompletionContext) (fs : List Function)
    → IsPlaced ctx
    → Returns Any (complete_functions ctx fs)
unfolding complete_functions
complete_functions-Returns ctx [] h = tt
complete_functions-Returns ctx (f ∷ fs) h =
    Returns-bind Any Any (get_completion_text_with_schema ctx f.name f.schema) _
      (get_completion_text_with_schema-Returns ctx f.name f.schema h)
      λ text any.
        Returns-bind Any Any (complete_functions ctx fs) _ (complete_functions-Returns ctx fs h)
          λ rest any'. tt

-- With a node under the cursor that lies in a text shorter than 4 GiB, and a text under the cursor
-- shorter than 2 GiB, `complete` ends without a panic and gives at most 50 items, and a client that
-- sorts them by their sort texts gets them in the order given.
pub complete-Climbs :
    (ctx : CompletionContext)
    → IsPlaced ctx
    → IsShort ctx
    → Returns (λ out. (length out ≤ 50) × Climbs out) (complete ctx)
unfolding complete
complete-Climbs ctx h short =
    Returns-bind Any _ (complete_tables ctx ctx.schema_cache.tables) _
      (complete_tables-Returns ctx ctx.schema_cache.tables h)
      λ tables any.
        Returns-bind Any _ (complete_functions ctx ctx.schema_cache.functions) _
          (complete_functions-Returns ctx ctx.schema_cache.functions h)
          λ functions any'. finish-Climbs ctx _ short
