-- ===== src/Analyser/Filter.antt =====
-- crates/pgt_analyse/src/filter.rs: which rules a run of the analyser looks at.
use postgres_lsp.Prelude.{Bool, true, false, not, ◌&&◌, ◌||◌, Option, none, some, List, [], ◌∷◌}
use postgres_lsp.Document.Content.{Text}
use postgres_lsp.Parsed.Find.{text_eq}

pub data RuleCategory : Type 0 where
  lint action transformation : RuleCategory

-- A group, or a group and a rule
pub data RuleFilter : Type 0 where
  group_filter : Text → RuleFilter
  rule_filter : Text → Text → RuleFilter

-- A rule, by the name of its group and its own
pub record RuleKey : Type 0 where
  pub group : Text
  pub rule : Text

-- The flags of the categories
pub record RuleCategories : Type 0 where
  pub has_lint : Bool
  pub has_action : Bool
  pub has_transformation : Bool

pub record AnalysisFilter : Type 0 where
  pub categories : RuleCategories
  pub enabled_rules : Option (List RuleFilter)
  pub disabled_rules : List RuleFilter

abbrev pub any : (RuleFilter → Bool) → List RuleFilter → Bool
any test [] = false
any test (f ∷ fs) = test f || any test fs

unfoldable pub contains_category : RuleCategories → RuleCategory → Bool
contains_category flags lint = flags.has_lint
contains_category flags action = flags.has_action
contains_category flags transformation = flags.has_transformation

-- `RuleFilter::match_group`
unfoldable pub filter_matches_group : Text → RuleFilter → Bool
unfolding text_eq
filter_matches_group name (group_filter group) = text_eq group name
filter_matches_group name (rule_filter group rule) = text_eq group name

-- `RuleFilter::match_rule`
unfoldable pub filter_matches_rule : RuleKey → RuleFilter → Bool
unfolding text_eq
filter_matches_rule key (group_filter group) = text_eq group key.group
filter_matches_rule key (rule_filter group rule) = text_eq group key.group && text_eq rule key.rule

-- `matches!(filter, RuleFilter::Group(_)) && filter.match_group::<G>()`
unfoldable pub is_group_filter : Text → RuleFilter → Bool
unfolding filter_matches_group
is_group_filter name (group_filter group) = filter_matches_group name (group_filter group)
is_group_filter name (rule_filter group rule) = false

abbrev pub enabled : (RuleFilter → Bool) → Option (List RuleFilter) → Bool
enabled test none = true
enabled test (some fs) = any test fs

unfoldable pub match_category : AnalysisFilter → RuleCategory → Bool
unfolding contains_category
match_category filter category = contains_category filter.categories category

unfoldable pub match_group : AnalysisFilter → RuleCategory → Text → Bool
unfolding match_category filter_matches_group is_group_filter
match_group filter category name =
    match_category filter category
    && (enabled (filter_matches_group name) filter.enabled_rules
        && not (any (is_group_filter name) filter.disabled_rules))

unfoldable pub match_rule : AnalysisFilter → RuleCategory → RuleKey → Bool
unfolding match_category filter_matches_rule
match_rule filter category key =
    match_category filter category
    && (enabled (filter_matches_rule key) filter.enabled_rules
        && not (any (filter_matches_rule key) filter.disabled_rules))
