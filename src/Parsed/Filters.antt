-- ===== src/Parsed/Filters.antt =====
-- server/parsed_document.rs: the filters, which say which statements an iteration gives.
use postgres_lsp.Prelude.{Bool, true, false, Option, none, some, [], ◌∷◌, ◌==◌, if◌then◌else◌}
use postgres_lsp.TextSize.Size.{TextSize}
use postgres_lsp.TextSize.Range.{TextRange}
use postgres_lsp.TextSize.Range
use postgres_lsp.Document.Id.{StatementId, id_eq}
use postgres_lsp.Document.Content.{Text}

-- The trait `StatementFilter`.
abbrev pub StatementFilter : Type 0
StatementFilter = StatementId → TextRange → Text → Bool

-- `content.chars().last().is_some_and(|c| c == ';')`
unfoldable pub is_terminated_by_semi : Text → Bool
is_terminated_by_semi [] = false
is_terminated_by_semi (c ∷ []) = c == 59
is_terminated_by_semi (c ∷ (d ∷ ds)) = is_terminated_by_semi (d ∷ ds)

abbrev or_range : TextRange → Option TextRange → TextRange
or_range range none = range
or_range range (some wider) = wider

unfoldable pub measuring_range : TextRange → Text → TextRange
unfolding is_terminated_by_semi Range.checked_expand_end
measuring_range range content =
    if is_terminated_by_semi content
    then range
    else or_range range (Range.checked_expand_end range 2)

unfoldable pub get_completions_filter : TextSize → StatementFilter
unfolding measuring_range Range.contains
get_completions_filter cursor_position id range content =
    Range.contains (measuring_range range content) cursor_position

unfoldable pub no_filter : StatementFilter
no_filter id range content = true

unfoldable pub cursor_position_filter : TextSize → StatementFilter
unfolding Range.contains
cursor_position_filter pos id range content = Range.contains range pos

unfoldable pub id_filter : StatementId → StatementFilter
unfolding id_eq
id_filter wanted id range content = id_eq id wanted
