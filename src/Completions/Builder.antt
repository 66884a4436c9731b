-- ===== src/Completions/Builder.antt =====
-- crates/pgt_completions/src/builder.rs: the completions that are offered, in order.
use postgres_lsp.Prelude.{
  ℕ, zero, suc, ◌+◌, ◌-◌, ◌/◌, ◌%◌, ◌^◌, Bool, true, false, ◌&&◌, Option, List, [], ◌∷◌, ◌++◌, ltb,
  ◌==◌, length, take, if◌then◌else◌, Outcome, ok, ◌>>=◌,
}
use postgres_lsp.TextSize.Range.{TextRange}
use postgres_lsp.Document.Content.{Text}
use postgres_lsp.Parsed.Find.{text_eq}
use postgres_lsp.Completions.Data.{RelevanceData, CompletionContext}
use postgres_lsp.Completions.Score.{Score, calc_score}
use postgres_lsp.Completions.Filter.{is_relevant}

pub data CompletionItemKind : Type 0 where
  table_kind function_kind column_kind schema_kind : CompletionItemKind

pub record CompletionText : Type 0 where
  pub text : Text
  pub range : TextRange

-- The score and the filter hold the same data.
pub record PossibleCompletionItem : Type 0 where
  pub label : Text
  pub description : Text
  pub kind : CompletionItemKind
  pub score : Score
  pub data_of : RelevanceData
  pub completion_text : Option CompletionText

pub record CompletionItem : Type 0 where
  pub label : Text
  pub description : Text
  pub preselected : Bool
  pub kind : CompletionItemKind
  pub sort_text : Text
  pub completion_text : Option CompletionText

abbrev pub limit : ℕ
limit = 50

unfoldable pub filter_items :
    CompletionContext → List PossibleCompletionItem → List PossibleCompletionItem
unfolding is_relevant
filter_items ctx [] = []
filter_items ctx (item ∷ items) =
    let rest = filter_items ctx items in if is_relevant item.data_of ctx then item ∷ rest else rest

unfoldable pub score_items :
    CompletionContext → List PossibleCompletionItem → Outcome (List PossibleCompletionItem)
unfolding calc_score
score_items ctx [] = ok []
score_items ctx (item ∷ items) = do
  score ← calc_score item.data_of ctx item.score
  rest ← score_items ctx items
  ok (record item { score = score } ∷ rest)

-- `a <= b` of texts. The bytes of UTF-8 order texts as their characters do.
unfoldable pub text_le : Text → Text → Bool
text_le [] b = true
text_le (c ∷ cs) [] = false
text_le (c ∷ cs) (d ∷ ds) = let rest = text_le cs ds in if c == d then rest else ltb c d

-- Not behind in the order that `sort_by` is given: the higher score first, then by label.
unfoldable pub ordered : PossibleCompletionItem → PossibleCompletionItem → Bool
unfolding text_le
ordered a b = if a.score == b.score then text_le a.label b.label else ltb b.score a.score

unfoldable pub insert_ordered :
    PossibleCompletionItem → List PossibleCompletionItem → List PossibleCompletionItem
unfolding ordered
insert_ordered x [] = x ∷ []
insert_ordered x (y ∷ ys) =
    let later = insert_ordered x ys in if ordered x y then x ∷ (y ∷ ys) else y ∷ later

-- `Vec::sort_by`, a stable sort
unfoldable pub sort_items : List PossibleCompletionItem → List PossibleCompletionItem
unfolding insert_ordered
sort_items [] = []
sort_items (x ∷ xs) = insert_ordered x (sort_items xs)

-- `Vec::dedup_by` on the labels, behind an item that is kept
unfoldable pub dedup_behind :
    PossibleCompletionItem → List PossibleCompletionItem → List PossibleCompletionItem
unfolding text_eq
dedup_behind kept [] = kept ∷ []
dedup_behind kept (x ∷ xs) = elim (text_eq x.label kept.label) [
  | true ↦ dedup_behind kept xs
  | false ↦ kept ∷ dedup_behind x xs
]

unfoldable pub dedup_items : List PossibleCompletionItem → List PossibleCompletionItem
unfolding dedup_behind
dedup_items [] = []
dedup_items (x ∷ xs) = dedup_behind x xs

-- The items of `finish` up to `truncate`
unfoldable pub rank :
    CompletionContext → List PossibleCompletionItem → Outcome (List PossibleCompletionItem)
unfolding filter_items score_items sort_items dedup_items
rank ctx items = do
  scored ← score_items ctx (filter_items ctx items)
  ok (take limit (dedup_items (sort_items scored)))

-- The difference of two scores is an `i32` as they are.
unfoldable pub should_preselect_first_item : List PossibleCompletionItem → Bool
should_preselect_first_item [] = false
should_preselect_first_item (f ∷ []) = true
should_preselect_first_item (f ∷ (s ∷ rest)) =
    ltb (2 ^ 31 + 10) ((f.score + 2 ^ 31 + 2 ^ 32 - s.score) % 2 ^ 32)

-- The decimal digits of a number, of which there are at most `fuel`.
unfoldable pub digits : ℕ → ℕ → Text
digits zero n = []
digits (suc fuel) n =
    let front = digits fuel (n / 10) in
    if ltb n 10 then (48 + n) ∷ [] else front ++ (48 + n % 10) ∷ []

-- `to_string` of a `usize`
unfoldable pub to_string : ℕ → Text
unfolding digits
to_string n = digits 20 n

unfoldable pub zeros : ℕ → Text
zeros zero = []
zeros (suc n) = 48 ∷ zeros n

-- `format!("{:0>padding$}", idx)`
unfoldable pub padded : ℕ → ℕ → Text
unfolding zeros to_string
padded idx padding = zeros (padding - length (to_string idx)) ++ to_string idx

unfoldable pub items_from : ℕ → ℕ → Bool → List PossibleCompletionItem → List CompletionItem
unfolding padded
items_from idx padding preselect [] = []
items_from idx padding preselect (item ∷ items) =
    record {
      label = item.label;
      description = item.description;
      preselected = (idx == 0) && preselect;
      kind = item.kind;
      sort_text = padded idx padding;
      completion_text = item.completion_text;
    }
    ∷ items_from (suc idx) padding preselect items

-- `CompletionBuilder::finish`
unfoldable pub finish :
    CompletionContext → List PossibleCompletionItem → Outcome (List CompletionItem)
unfolding rank should_preselect_first_item items_from to_string
finish ctx items = do
  ranked ← rank ctx items
  let max_padding = length (to_string (length ranked))
  ok (items_from 0 max_padding (should_preselect_first_item ranked) ranked)
