-- ===== src/Completions/Order.antt =====
-- The order in which completions are offered is total and transitive.
use postgres_lsp.Prelude.{◌≡◌, refl, true, false, [], ◌∷◌, arith}
use postgres_lsp.Document.Content.{Text}
use postgres_lsp.Completions.Builder.{PossibleCompletionItem, text_le, ordered}

text_le_total : (a b : Text) → text_le a b ≡ false → text_le b a ≡ true
unfolding text_le
text_le_total [] b h = cc h
text_le_total (c ∷ cs) [] h = refl
text_le_total (c ∷ cs) (d ∷ ds) h = ground (arith, text_le_total cs ds)

text_le_trans : (a b c : Text) → text_le a b ≡ true → text_le b c ≡ true → text_le a c ≡ true
unfolding text_le
text_le_trans [] b c h k = refl
text_le_trans (x ∷ xs) [] c h k = cc h
text_le_trans (x ∷ xs) (y ∷ ys) [] h k = cc k
text_le_trans (x ∷ xs) (y ∷ ys) (z ∷ zs) h k = grind (arith, text_le_trans xs ys zs)

pub ordered_total : (a b : PossibleCompletionItem) → ordered a b ≡ false → ordered b a ≡ true
unfolding ordered
ordered_total a b h = ground (arith, text_le_total a.label b.label)

pub ordered_trans :
    (a b c : PossibleCompletionItem) → ordered a b ≡ true → ordered b c ≡ true → ordered a c ≡ true
unfolding ordered
ordered_trans a b c h k = grind (arith, text_le_trans a.label b.label c.label)
