-- ===== src/Analyser/Visitor.antt =====
-- crates/pgt_workspace/src/workspace/server/analyser.rs: the rules that a request and the settings
-- select. The groups and rules of the lint category are listed by generated code, so that they are an
-- argument.
use postgres_lsp.Prelude.{Bool, false, ◌&&◌, Option, none, some, List, [], ◌∷◌, ◌++◌, if◌then◌else◌}
use postgres_lsp.Document.Content.{Text}
use postgres_lsp.Parsed.Find.{text_eq}
use postgres_lsp.Analyser.Filter.{
  lint, RuleFilter, group_filter, rule_filter, RuleKey, RuleCategories, AnalysisFilter, any,
  filter_matches_group, filter_matches_rule, match_category, match_group, match_rule,
}

-- A group and the names of its rules
abbrev pub Group : Type 0
Group = Text × List Text

-- The selectors are the filters that they are turned into; `settings` are the rules enabled there,
-- none without linter rules.
pub record LintVisitor : Type 0 where
  pub enabled_rules : List RuleFilter
  pub disabled_rules : List RuleFilter

unfoldable pub filter_eq : RuleFilter → RuleFilter → Bool
unfolding text_eq
filter_eq (group_filter g) (group_filter h) = text_eq g h
filter_eq (rule_filter g r) (rule_filter h s) = text_eq g h && text_eq r s
filter_eq (group_filter g) (rule_filter h s) = false
filter_eq (rule_filter g r) (group_filter h) = false

-- `FxHashSet::insert`
unfoldable pub insert_filter : RuleFilter → List RuleFilter → List RuleFilter
unfolding filter_eq
insert_filter f fs = if any (filter_eq f) fs then fs else f ∷ fs

-- The loop of `push_rule` over one list of selectors
unfoldable pub push_matching : RuleKey → List RuleFilter → List RuleFilter → List RuleFilter
unfolding insert_filter filter_matches_rule
push_matching key [] set = set
push_matching key (f ∷ fs) set =
    push_matching key fs (if filter_matches_rule key f then insert_filter f set else set)

abbrev pub insert_each_filter : List RuleFilter → List RuleFilter → List RuleFilter
insert_each_filter [] set = set
insert_each_filter (f ∷ fs) set = insert_each_filter fs (insert_filter f set)

module _ (only skip : List RuleFilter) where
  -- `record_rule`
  unfoldable pub push_rule : RuleKey → LintVisitor → LintVisitor
  unfolding push_matching
  push_rule key v = record {
    enabled_rules = push_matching key only v.enabled_rules;
    disabled_rules = push_matching key skip v.disabled_rules;
  }

  unfoldable pub record_rules : Text → List Text → LintVisitor → LintVisitor
  unfolding push_rule
  record_rules group [] v = v
  record_rules group (rule ∷ rules) v =
      record_rules group rules (push_rule (record { group = group; rule = rule }) v)

  -- One of the loops of `record_group`
  unfoldable pub record_selected : List RuleFilter → Group → LintVisitor → LintVisitor
  unfolding record_rules filter_matches_group
  record_selected [] group v = v
  record_selected (f ∷ fs) group v =
      record_selected fs group
        (if filter_matches_group group.0 f then record_rules group.0 group.1 v else v)

  unfoldable pub record_group : Group → LintVisitor → LintVisitor
  unfolding record_selected
  record_group group v = record_selected skip group (record_selected only group v)

  -- `visit_registry`, which records the lint category, and so its groups
  unfoldable pub record_groups : List Group → LintVisitor → LintVisitor
  unfolding record_group
  record_groups [] v = v
  record_groups (group ∷ groups) v = record_groups groups (record_group group v)

  unfoldable pub finish : Option (List RuleFilter) → LintVisitor → LintVisitor
  unfolding insert_filter
  finish settings v = elim only [
    | f ∷ fs ↦ v
    | [] ↦ elim settings [
      | none ↦ v
      | some rules ↦ record v { enabled_rules = insert_each_filter rules v.enabled_rules }
    ]
  ]

  -- `AnalyserVisitorBuilder::finish` with linter rules
  unfoldable pub select_rules : Option (List RuleFilter) → List Group → LintVisitor
  unfolding record_groups finish
  select_rules settings groups =
      finish settings (record_groups groups (record { enabled_rules = []; disabled_rules = [] }))

  -- The filter of a run, in `pull_diagnostics`
  unfoldable pub run_filter :
      RuleCategories → Option (List RuleFilter) → List Group → AnalysisFilter
  unfolding select_rules
  run_filter categories settings groups = record {
    categories = categories;
    enabled_rules = some (select_rules settings groups).enabled_rules;
    disabled_rules = (select_rules settings groups).disabled_rules;
  }

-- `RuleRegistryBuilder` of crates/pgt_analyse/src/registry.rs: the rules that a run executes, in order
module _ (filter : AnalysisFilter) where
  unfoldable pub register_rules : Text → List Text → List RuleKey
  unfolding match_rule
  register_rules group [] = []
  register_rules group (rule ∷ rules) =
      let rest = register_rules group rules in
      let key : RuleKey = record { group = group; rule = rule } in
      if match_rule filter lint key then key ∷ rest else rest

  unfoldable pub register_groups : List Group → List RuleKey
  unfolding register_rules match_group
  register_groups [] = []
  register_groups ((group, rules) ∷ groups) =
      let rest = register_groups groups in
      if match_group filter lint group then register_rules group rules ++ rest else rest

  unfoldable pub register : List Group → List RuleKey
  unfolding register_groups match_category
  register groups = if match_category filter lint then register_groups groups else []
