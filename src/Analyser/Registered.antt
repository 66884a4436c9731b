-- ===== src/Analyser/Registered.antt =====
-- The rules that the registry of a run holds are exactly those that its filter matches.
use postgres_lsp.Prelude.{
  ◌≡◌, refl, sym, ap, ◌⊎◌, ◌↔◌, inl, inr, Bool, true, false, ◌&&◌, Option, none, some, List, [],
  ◌∷◌, ◌++◌, arith, if◌then◌else◌, Bool-cases,
}
use mathlib.Core.Path.{subst}
use postgres_lsp.Document.Content.{Text}
use postgres_lsp.Analyser.Filter.{
  RuleFilter, group_filter, rule_filter, RuleKey, AnalysisFilter, lint, any, enabled,
  filter_matches_group, filter_matches_rule, is_group_filter, match_category, match_group,
  match_rule,
}
use postgres_lsp.Analyser.Visitor.{Group, register_rules, register_groups, register}
use postgres_lsp.Analyser.Runs.{InGroup, InGroups, InKeys, In-left, In-right, rule_group}

any-group :
    (key : RuleKey) (fs : List RuleFilter)
    → any (filter_matches_rule key) fs ≡ true
    → any (filter_matches_group key.group) fs ≡ true
any-group key [] h = cc h
any-group key (f ∷ fs) h = elim (Bool-cases (filter_matches_rule key f)) [
  | inl e ↦ rw (rule_group key f e) refl
  | inr e ↦ ground (arith, any-group key fs (ground (arith, h, e)))
]

-- A disabled group disables its rules.
group_rule :
    (key : RuleKey) (f : RuleFilter)
    → is_group_filter key.group f ≡ true
    → filter_matches_rule key f ≡ true
unfolding is_group_filter filter_matches_group filter_matches_rule
group_rule key (group_filter g) h = h
group_rule key (rule_filter g r) h = cc h

any-disabled :
    (key : RuleKey) (fs : List RuleFilter)
    → any (filter_matches_rule key) fs ≡ false
    → any (is_group_filter key.group) fs ≡ false
any-disabled key [] h = refl
any-disabled key (f ∷ fs) h = elim (Bool-cases (is_group_filter key.group f)) [
  | inl e ↦ let hit = group_rule key f e in absurd (ground (arith, h, hit))
  | inr e ↦ rw e (any-disabled key fs (ground (arith, h)))
]

enabled-group :
    (key : RuleKey) (fs : Option (List RuleFilter))
    → enabled (filter_matches_rule key) fs ≡ true
    → enabled (filter_matches_group key.group) fs ≡ true
enabled-group key none h = refl
enabled-group key (some fs) h = any-group key fs h

both : (a b : Bool) → (a && b) ≡ true → (a ≡ true) × (b ≡ true)
both true b h = (refl, h)
both false b h = cc h

-- The filter matches the group and the category of a rule that it matches.
match_rule-match_group :
    (filter : AnalysisFilter) (key : RuleKey)
    → match_rule filter lint key ≡ true
    → (match_category filter lint ≡ true) × (match_group filter lint key.group ≡ true)
unfolding match_rule match_group
match_rule-match_group filter key h =
    let (category, rest) = both _ _ h in
    let (on, off) = both _ _ rest in
    let disabled = any-disabled key filter.disabled_rules (ground (arith, off)) in
    (category, rw (category, enabled-group key filter.enabled_rules on, disabled) refl)

In-cons_if :
    (key k : RuleKey) (b : Bool) (ks : List RuleKey)
    → InKeys key (if b then k ∷ ks else ks)
    → ((key ≡ k) × (b ≡ true)) ⊎ InKeys key ks
In-cons_if key k true ks (inl e) = inl (e, refl)
In-cons_if key k true ks (inr h) = inr h
In-cons_if key k false ks h = inr h

In-append :
    (key : RuleKey) (ks ls : List RuleKey) → InKeys key (ks ++ ls) → InKeys key ks ⊎ InKeys key ls
In-append key [] ls h = inr h
In-append key (k ∷ ks) ls (inl e) = inl (inl e)
In-append key (k ∷ ks) ls (inr h) = elim (In-append key ks ls h) [
  | inl here ↦ inl (inr here)
  | inr there ↦ inr there
]

In-append_if :
    (key : RuleKey) (b : Bool) (ks ls : List RuleKey)
    → InKeys key (if b then ks ++ ls else ls)
    → InKeys key ks ⊎ InKeys key ls
In-append_if key true ks ls h = In-append key ks ls h
In-append_if key false ks ls h = inr h

In-cons_behind :
    (key k : RuleKey) (b : Bool) (ks : List RuleKey)
    → InKeys key ks
    → InKeys key (if b then k ∷ ks else ks)
In-cons_behind key k true ks h = inr h
In-cons_behind key k false ks h = h

In-only_if :
    (key : RuleKey) (b : Bool) (ks : List RuleKey)
    → InKeys key (if b then ks else [])
    → InKeys key ks
In-only_if key true ks h = h
In-only_if key false ks h = absurd h

In-open_if :
    (key : RuleKey) (b : Bool) (ks : List RuleKey)
    → b ≡ true
    → InKeys key ks
    → InKeys key (if b then ks else [])
In-open_if key true ks e h = h
In-open_if key false ks e h = cc e

In-behind_if :
    (key : RuleKey) (b : Bool) (ks ls : List RuleKey)
    → InKeys key ls
    → InKeys key (if b then ks ++ ls else ls)
In-behind_if key true ks ls h = In-right key ks ls h
In-behind_if key false ks ls h = h

module _ (filter : AnalysisFilter) (key : RuleKey) where
  register_rules-In :
      (group : Text) (rules : List Text)
      → InKeys key (register_rules filter group rules)
      → InGroup key (group, rules) × (match_rule filter lint key ≡ true)
  unfolding register_rules
  register_rules-In group [] h = absurd h
  register_rules-In group (r ∷ rules) h =
      elim (In-cons_if key (record { group = group; rule = r })
        (match_rule filter lint (record { group = group; rule = r }))
        (register_rules filter group rules) h) [
          | inl (e, m) ↦ (
            (ap (λ k. k.group) e, inl (ap (λ k. k.rule) e)),
            subst (λ k. match_rule filter lint k ≡ true) (sym e) m,
          )
          | inr later ↦
              let (inside, m) = register_rules-In group rules later in ((inside.0, inr inside.1), m)
        ]

  register_groups-In :
      (groups : List Group)
      → InKeys key (register_groups filter groups)
      → InGroups key groups × (match_rule filter lint key ≡ true)
  unfolding register_groups
  register_groups-In [] h = absurd h
  register_groups-In ((group, rules) ∷ groups) h =
      elim (In-append_if key (match_group filter lint group) (register_rules filter group rules)
        (register_groups filter groups) h) [
          | inl here ↦ let (inside, m) = register_rules-In group rules here in (inl inside, m)
          | inr later ↦ let (inside, m) = register_groups-In groups later in (inr inside, m)
        ]

  In-register_rules :
      (group : Text) (rules : List Text)
      → InGroup key (group, rules)
      → match_rule filter lint key ≡ true
      → InKeys key (register_rules filter group rules)
  unfolding register_rules
  In-register_rules group [] inside m = absurd inside.1
  In-register_rules group (r ∷ rules) (same, inl e) m =
      let key_eq : key ≡ record { group = group; rule = r } = rw (sym same, sym e) refl in
      let hit : match_rule filter lint (record { group = group; rule = r }) ≡ true =
        subst (λ k. match_rule filter lint k ≡ true) key_eq m in
      rw hit (inl key_eq)
  In-register_rules group (r ∷ rules) (same, inr later) m =
      In-cons_behind key (record { group = group; rule = r })
        (match_rule filter lint (record { group = group; rule = r }))
        (register_rules filter group rules) (In-register_rules group rules (same, later) m)

  In-register_groups :
      (groups : List Group)
      → InGroups key groups
      → match_rule filter lint key ≡ true
      → InKeys key (register_groups filter groups)
  unfolding register_groups
  In-register_groups [] inside m = absurd inside
  In-register_groups ((group, rules) ∷ groups) (inl here) m =
      let hit : match_group filter lint group ≡ true =
        subst (λ g. match_group filter lint g ≡ true) here.0
          (match_rule-match_group filter key m).1 in
      rw hit (
        In-left key (register_rules filter group rules) (register_groups filter groups)
          (In-register_rules group rules here m))
  In-register_groups ((group, rules) ∷ groups) (inr later) m =
      In-behind_if key (match_group filter lint group) (register_rules filter group rules)
        (register_groups filter groups) (In-register_groups groups later m)

  -- A rule is registered for a run exactly when it is one of the registry and the filter matches it:
  -- the tests of its category and its group turn away no rule that the filter matches.
  pub In-register :
      (groups : List Group)
      → InKeys key (register filter groups)
        ↔ (InGroups key groups × (match_rule filter lint key ≡ true))
  unfolding register
  In-register groups = (there, back)
    where
      there :
          InKeys key (register filter groups)
          → InGroups key groups × (match_rule filter lint key ≡ true)
      there h =
          register_groups-In groups
            (In-only_if key (match_category filter lint) (register_groups filter groups) h)

      back :
          InGroups key groups × (match_rule filter lint key ≡ true)
          → InKeys key (register filter groups)
      back (inside, m) =
          In-open_if key (match_category filter lint) (register_groups filter groups)
            (match_rule-match_group filter key m).0 (In-register_groups groups inside m)
