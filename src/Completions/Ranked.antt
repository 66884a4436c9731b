-- ===== src/Completions/Ranked.antt =====
-- What `finish` offers: relevant items alone, the best first, at most fifty.
use postgres_lsp.Prelude.{
  ◌<◌, ◌≤◌, ◌^◌, ◌≡◌, refl, ap, Option, none, some, List, [], ◌∷◌, length, lt→ltb, inl, inr,
  split_if, Returns, Returns-bind,
}
use postgres_lsp.Document.Content.{Text, byte_len}
use postgres_lsp.Parsed.Find.{starts_with}
use postgres_lsp.Completions.Data.{RelevanceData, CompletionContext, get_node_under_cursor_content}
use postgres_lsp.Completions.Score.{
  Score, calc_score, check_matches_query_input, match_input, item_name,
}
use postgres_lsp.Completions.Filter.{is_relevant}
use postgres_lsp.Completions.Builder.{
  PossibleCompletionItem, limit, filter_items, score_items, sort_items, dedup_items, rank,
}
use postgres_lsp.Completions.Ordered.{
  Each, Ordered, Apart, In, Offered, sort_items-Each, dedup_items-Each, take-Each,
  sort_items-Ordered, dedup_items-Ordered, take-Ordered, dedup_items-Apart, take-Apart, length-take,
}

filter_items-Each :
    (ctx : CompletionContext) (all items : List PossibleCompletionItem)
    → ((x : PossibleCompletionItem) → In x items → In x all)
    → Each (Offered ctx all) (filter_items ctx items)
unfolding filter_items
filter_items-Each ctx all [] within = tt
filter_items-Each ctx all (x ∷ xs) within =
    split_if (Each (Offered ctx all)) (is_relevant x.data_of ctx)
      (λ e.
        ((e, (x, within x (inl refl), refl)), filter_items-Each ctx all xs λ y h. within y (inr h)))
      λ e. filter_items-Each ctx all xs λ y h. within y (inr h)

abbrev ShortText : Option Text → Type 0
ShortText none = Unit {0}
ShortText (some t) = byte_len t < 2 ^ 31

-- The text under the cursor is shorter than 2 GiB.
abbrev pub IsShort : CompletionContext → Type 0
IsShort ctx = ShortText (get_node_under_cursor_content ctx)

abbrev Any : Score → Type 0
Any s = Unit {0}

match_input-Returns :
    (item : RelevanceData) (content : Option Text) (s : Score)
    → ShortText content
    → Returns Any (match_input item content s)
match_input-Returns item none s h = tt
match_input-Returns item (some t) s h =
    split_if (Returns Any) (starts_with (item_name item) t)
      (λ e. rw (lt→ltb (byte_len t) (2 ^ 31) h) tt) λ e. tt

calc_score-Returns :
    (item : RelevanceData) (ctx : CompletionContext) (s : Score)
    → IsShort ctx
    → Returns Any (calc_score item ctx s)
unfolding calc_score check_matches_query_input
calc_score-Returns item ctx s h =
    Returns-bind Any Any (match_input item (get_node_under_cursor_content ctx) _) _
      (match_input-Returns item (get_node_under_cursor_content ctx) _ h) λ t any. tt

rescored :
    (all : List PossibleCompletionItem) (x : PossibleCompletionItem) (s : Score)
    → ((added : PossibleCompletionItem) × In added all × (record added { score = x.score } ≡ x))
    → (added : PossibleCompletionItem) × In added all
      × (record added { score = s } ≡ record x { score = s })
rescored all x s (added, there, same) =
    let rescore : PossibleCompletionItem → PossibleCompletionItem = λ i. record i { score = s } in
    (added, there, ap rescore same)

score_items-Each :
    (ctx : CompletionContext) (all items : List PossibleCompletionItem)
    → IsShort ctx
    → Each (Offered ctx all) items
    → Returns (Each (Offered ctx all)) (score_items ctx items)
unfolding score_items
score_items-Each ctx all [] short h = tt
score_items-Each ctx all (x ∷ xs) short h =
    Returns-bind Any (Each (Offered ctx all)) (calc_score x.data_of ctx x.score) _
      (calc_score-Returns x.data_of ctx x.score short)
      λ s any.
        Returns-bind (Each (Offered ctx all)) (Each (Offered ctx all)) (score_items ctx xs) _
          (score_items-Each ctx all xs short h.1)
          λ rest offered. ((h.0.0, rescored all x s h.0.1), offered)

-- What is ranked.
pub record Ranked (ctx : CompletionContext) (items ranked : List PossibleCompletionItem)
    : Type 0 where
  pub few : length ranked ≤ limit
  pub in_order : Ordered ranked
  pub apart : Apart ranked
  pub offered : Each (Offered ctx items) ranked

pub rank-Ranked :
    (ctx : CompletionContext) (items : List PossibleCompletionItem)
    → IsShort ctx
    → Returns (Ranked ctx items) (rank ctx items)
unfolding rank
rank-Ranked ctx items short =
    Returns-bind (Each (Offered ctx items)) (Ranked ctx items)
      (score_items ctx (filter_items ctx items)) _
      (score_items-Each ctx items (filter_items ctx items) short
        (filter_items-Each ctx items items λ x h. h))
      λ scored h. record {
        few = length-take limit (dedup_items (sort_items scored));
        in_order =
            take-Ordered limit _
              (dedup_items-Ordered (sort_items scored) (sort_items-Ordered scored));
        apart = take-Apart limit _ (dedup_items-Apart (sort_items scored));
        offered =
            take-Each _ limit _
              (dedup_items-Each _ (sort_items scored) (sort_items-Each _ scored h));
      }
