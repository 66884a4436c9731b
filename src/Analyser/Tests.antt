-- ===== src/Analyser/Tests.antt =====
-- A registry of one group "s" with the rules "a" and "b".
use postgres_lsp.Prelude.{◌≡◌, refl, ◌↔◌, inl, inr, true, false, not, ◌&&◌, none, List, [], ◌∷◌}
use postgres_lsp.Analyser.Filter.{
  RuleFilter, group_filter, rule_filter, RuleKey, RuleCategories, lint, any, contains_category,
  filter_matches_rule, match_rule,
}
use postgres_lsp.Analyser.Visitor.{Group, run_filter, register}
use postgres_lsp.Analyser.Runs.{InGroups, InKeys, wanted, run_filter-wanted}
use postgres_lsp.Analyser.Registered.{In-register}

registry : List Group
registry = (115 ∷ [], (97 ∷ []) ∷ (98 ∷ []) ∷ []) ∷ []

rule_b : RuleKey
rule_b = record { group = 115 ∷ []; rule = 98 ∷ [] }

-- The whole group, but for the rule "a"
only_s : List RuleFilter
only_s = group_filter (115 ∷ []) ∷ []

skip_a : List RuleFilter
skip_a = rule_filter (115 ∷ []) (97 ∷ []) ∷ []

lint_alone : RuleCategories
lint_alone = record { has_lint = true; has_action = false; has_transformation = false }

rule_b-InGroups : InGroups rule_b registry
unfolding rule_b registry
rule_b-InGroups = inl (refl, inr (inl refl))

run_filter-wanted_example :
    match_rule (run_filter only_s skip_a lint_alone none registry) lint rule_b ≡ (
      contains_category lint_alone lint
      && (any (filter_matches_rule rule_b) (wanted only_s none)
          && not (any (filter_matches_rule rule_b) skip_a)))
run_filter-wanted_example =
    run_filter-wanted only_s skip_a none registry lint_alone rule_b rule_b-InGroups

-- Of the two rules the run holds the second.
registered_b : register (run_filter only_s skip_a lint_alone none registry) registry ≡ rule_b ∷ []
unfolding register run_filter only_s skip_a lint_alone registry rule_b match_rule
registered_b = refl

In-register_example :
    InKeys rule_b (register (run_filter only_s skip_a lint_alone none registry) registry) ↔ (
      InGroups rule_b registry
      × (match_rule (run_filter only_s skip_a lint_alone none registry) lint rule_b ≡ true))
In-register_example =
    In-register (run_filter only_s skip_a lint_alone none registry) rule_b registry
