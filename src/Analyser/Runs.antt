-- ===== src/Analyser/Runs.antt =====
-- Which rules a run executes, in terms of its selectors and the settings.
use postgres_lsp.Prelude.{
  ◌≡◌, refl, sym, ap, ◌∙◌, ◌⊎◌, inl, inr, true, false, not, ◌&&◌, Option, none, some, List, [], ◌∷◌,
  ◌++◌, arith, Bool-cases,
}
use mathlib.Core.Path.{subst}
use postgres_lsp.Document.Content.{Text}
use postgres_lsp.Analyser.Filter.{
  RuleFilter, group_filter, rule_filter, RuleKey, RuleCategories, lint, any, contains_category,
  filter_matches_group, filter_matches_rule, match_category, match_rule,
}
use postgres_lsp.Analyser.Visitor.{
  Group, LintVisitor, push_matching, record_groups, finish, select_rules, run_filter,
}
use postgres_lsp.Analyser.Selected.{
  any-insert_each, push_mono, push_sound, push_complete, keys, selected_keys, all_keys, push_each,
  record_groups-keys,
}

abbrev pub InTexts : Text → List Text → Type 0
InTexts t [] = ⊥
InTexts t (u ∷ us) = (t ≡ u) ⊎ InTexts t us

-- The rule is one of the group's.
abbrev pub InGroup : RuleKey → Group → Type 0
InGroup key group = (key.group ≡ group.0) × InTexts key.rule group.1

abbrev pub InGroups : RuleKey → List Group → Type 0
InGroups key [] = ⊥
InGroups key (g ∷ gs) = InGroup key g ⊎ InGroups key gs

abbrev pub InKeys : RuleKey → List RuleKey → Type 0
InKeys key [] = ⊥
InKeys key (k ∷ ks) = (key ≡ k) ⊎ InKeys key ks

pub In-left : (key : RuleKey) (ks ls : List RuleKey) → InKeys key ks → InKeys key (ks ++ ls)
In-left key [] ls h = absurd h
In-left key (k ∷ ks) ls (inl e) = inl e
In-left key (k ∷ ks) ls (inr h) = inr (In-left key ks ls h)

pub In-right : (key : RuleKey) (ks ls : List RuleKey) → InKeys key ls → InKeys key (ks ++ ls)
In-right key [] ls h = h
In-right key (k ∷ ks) ls h = inr (In-right key ks ls h)

keys-In :
    (group rule : Text) (rules : List Text)
    → InTexts rule rules
    → InKeys (record { group = group; rule = rule }) (keys group rules)
keys-In group rule [] h = absurd h
keys-In group rule (r ∷ rules) (inl e) = inl (ap (λ t. key_of t) e)
  where
    key_of : Text → RuleKey
    key_of t = record { group = group; rule = t }
keys-In group rule (r ∷ rules) (inr h) = inr (keys-In group rule rules h)

-- A filter that matches a rule matches its group.
pub rule_group :
    (key : RuleKey) (f : RuleFilter)
    → filter_matches_rule key f ≡ true
    → filter_matches_group key.group f ≡ true
unfolding filter_matches_rule filter_matches_group
rule_group key (group_filter g) h = h
rule_group key (rule_filter g r) h = ground (arith, h)

selected_keys-In :
    (key : RuleKey) (fs : List RuleFilter) (group : Group)
    → InGroup key group
    → any (filter_matches_rule key) fs ≡ true
    → InKeys key (selected_keys fs group)
selected_keys-In key [] group inside h = cc h
selected_keys-In key (f ∷ fs) group inside h = elim (Bool-cases (filter_matches_rule key f)) [
  | inl e ↦
      let hit : filter_matches_group group.0 f ≡ true =
        subst (λ g. filter_matches_group g f ≡ true) inside.0 (rule_group key f e) in
      In-left key _ (selected_keys fs group) (
        rw hit (
          subst (λ g. InKeys key (keys g group.1)) inside.0
            (keys-In key.group key.rule group.1 inside.1)))
  | inr e ↦
      In-right key _ (selected_keys fs group)
        (selected_keys-In key fs group inside (ground (arith, h, e)))
]

all_keys-In :
    (key : RuleKey) (only skip : List RuleFilter) (groups : List Group)
    → InGroups key groups
    → (any (filter_matches_rule key) only ≡ true) ⊎ (any (filter_matches_rule key) skip ≡ true)
    → InKeys key (all_keys only skip groups)
all_keys-In key only skip [] inside h = absurd inside
all_keys-In key only skip (g ∷ gs) (inl here) (inl h) =
    In-left key _ (all_keys only skip gs)
      (In-left key _ (selected_keys skip g) (selected_keys-In key only g here h))
all_keys-In key only skip (g ∷ gs) (inl here) (inr h) =
    In-left key _ (all_keys only skip gs)
      (In-right key (selected_keys only g) _ (selected_keys-In key skip g here h))
all_keys-In key only skip (g ∷ gs) (inr later) h =
    In-right key _ (all_keys only skip gs) (all_keys-In key only skip gs later h)

module _ (key : RuleKey) (fs : List RuleFilter) where
  push_each_mono :
      (ks : List RuleKey) (set : List RuleFilter)
      → any (filter_matches_rule key) set ≡ true
      → any (filter_matches_rule key) (push_each fs ks set) ≡ true
  push_each_mono [] set h = h
  push_each_mono (k ∷ ks) set h =
      push_each_mono ks (push_matching k fs set) (push_mono (filter_matches_rule key) k fs set h)

  push_each_sound :
      (ks : List RuleKey) (set : List RuleFilter)
      → any (filter_matches_rule key) fs ≡ false
      → any (filter_matches_rule key) set ≡ false
      → any (filter_matches_rule key) (push_each fs ks set) ≡ false
  push_each_sound [] set h k = k
  push_each_sound (l ∷ ks) set h k =
      push_each_sound ks (push_matching l fs set) h
        (push_sound (filter_matches_rule key) l fs set h k)

  push_each_complete :
      (ks : List RuleKey) (set : List RuleFilter)
      → InKeys key ks
      → any (filter_matches_rule key) fs ≡ true
      → any (filter_matches_rule key) (push_each fs ks set) ≡ true
  push_each_complete [] set inside h = absurd inside
  push_each_complete (k ∷ ks) set (inl e) h = push_each_mono ks (push_matching k fs set) (
      subst (λ l. any (filter_matches_rule key) (push_matching l fs set) ≡ true) e
        (push_complete key fs set h))
  push_each_complete (k ∷ ks) set (inr later) h =
      push_each_complete ks (push_matching k fs set) later h

  push_each-any :
      (ks : List RuleKey)
      → (any (filter_matches_rule key) fs ≡ true → InKeys key ks)
      → any (filter_matches_rule key) (push_each fs ks []) ≡ any (filter_matches_rule key) fs
  push_each-any ks recorded = elim (Bool-cases (any (filter_matches_rule key) fs)) [
    | inl e ↦ push_each_complete ks [] (recorded e) e ∙ sym e
    | inr e ↦ push_each_sound ks [] e refl ∙ sym e
  ]

-- The selectors that count: those of the request, or without any the rules of the settings.
abbrev pub wanted : List RuleFilter → Option (List RuleFilter) → List RuleFilter
wanted (f ∷ fs) settings = f ∷ fs
wanted [] (some rules) = rules
wanted [] none = []

empty_visitor : LintVisitor
empty_visitor = record { enabled_rules = []; disabled_rules = [] }

recorded :
    (key : RuleKey) (only skip : List RuleFilter) (groups : List Group)
    → InGroups key groups
    → (any (filter_matches_rule key) (record_groups only skip groups empty_visitor).enabled_rules
        ≡ any (filter_matches_rule key) only)
      × (any (filter_matches_rule key) (record_groups only skip groups empty_visitor).disabled_rules
          ≡ any (filter_matches_rule key) skip)
unfolding empty_visitor
recorded key only skip groups inside =
    let ks = all_keys only skip groups in
    let walked = record_groups-keys only skip groups empty_visitor in
    (
      ap (λ v. any (filter_matches_rule key) v.enabled_rules) walked
          ∙ push_each-any key only ks (λ h. all_keys-In key only skip groups inside (inl h)),
      ap (λ v. any (filter_matches_rule key) v.disabled_rules) walked
          ∙ push_each-any key skip ks (λ h. all_keys-In key only skip groups inside (inr h)),
    )

finish-wanted :
    (key : RuleKey) (only skip : List RuleFilter) (settings : Option (List RuleFilter))
    (groups : List Group)
    → InGroups key groups
    → (any (filter_matches_rule key) (select_rules only skip settings groups).enabled_rules
        ≡ any (filter_matches_rule key) (wanted only settings))
      × (any (filter_matches_rule key) (select_rules only skip settings groups).disabled_rules
          ≡ any (filter_matches_rule key) skip)
unfolding select_rules finish empty_visitor
finish-wanted key (f ∷ fs) skip settings groups inside = recorded key (f ∷ fs) skip groups inside
finish-wanted key [] skip none groups inside = recorded key [] skip groups inside
finish-wanted key [] skip (some rules) groups inside =
    let r = recorded key [] skip groups inside in
    (
      any-insert_each (filter_matches_rule key) rules
            (record_groups [] skip groups empty_visitor).enabled_rules
          ∙ ground (arith, r.0),
      r.1,
    )

-- A rule of the registry is matched by the filter of a run exactly when lint rules are asked for, one of
-- the selectors that count matches it, those of the request or, where it has none, the rules of the
-- settings, and no selector that is skipped matches it.
pub run_filter-wanted :
    (only skip : List RuleFilter) (settings : Option (List RuleFilter)) (groups : List Group)
    (categories : RuleCategories) (key : RuleKey)
    → InGroups key groups
    → match_rule (run_filter only skip categories settings groups) lint key ≡ (
        contains_category categories lint
        && (any (filter_matches_rule key) (wanted only settings)
            && not (any (filter_matches_rule key) skip)))
unfolding match_rule match_category run_filter
run_filter-wanted only skip settings groups categories key inside =
    let w = finish-wanted key only skip settings groups inside in rw (w.0, w.1) refl
