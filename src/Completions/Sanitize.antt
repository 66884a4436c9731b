-- ===== src/Completions/Sanitize.antt =====
-- crates/pgt_completions/src/sanitization.rs: the text with a token at the cursor.
use postgres_lsp.Prelude.{ℕ, zero, suc, ◌+◌, max, [], ◌∷◌, ◌++◌, ◌==◌, if◌then◌else◌}
use postgres_lsp.Document.Content.{Text, byte_len}
use postgres_lsp.Completions.Data.{sanitized_token}

-- `for idx in 0..max`, with the rounds that are left
unfoldable pub adjust : ℕ → ℕ → ℕ → Text → Text
adjust cursor_pos idx zero cs = []
adjust cursor_pos idx (suc left) [] =
    let rest = adjust cursor_pos (suc idx) left [] in
    if idx == cursor_pos then sanitized_token ++ rest else 32 ∷ rest
adjust cursor_pos idx (suc left) (c ∷ cs) =
    let rest = adjust cursor_pos (suc idx) left cs in
    if idx == cursor_pos then sanitized_token ++ (c ∷ rest) else c ∷ rest

-- The text of `with_adjusted_sql`
unfoldable pub with_adjusted_sql : ℕ → Text → Text
unfolding adjust byte_len
with_adjusted_sql cursor_pos text = adjust cursor_pos 0 (max (cursor_pos + 1) (byte_len text)) text
