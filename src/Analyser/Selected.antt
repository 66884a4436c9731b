-- ===== src/Analyser/Selected.antt =====
-- The rules that a run looks at are those that its selectors and the settings ask for.
use postgres_lsp.Prelude.{
  ◌≡◌, refl, sym, ap, ◌∙◌, inl, inr, Bool, true, false, ◌||◌, List, [], ◌∷◌, ◌++◌, arith,
  if◌then◌else◌, Bool-cases, split_if,
}
use postgres_lsp.Document.Content.{Text}
use postgres_lsp.Parsed.Find.{text_eq→≡}
use postgres_lsp.Analyser.Filter.{
  RuleFilter, group_filter, rule_filter, RuleKey, any, filter_matches_group, filter_matches_rule,
}
use postgres_lsp.Analyser.Visitor.{
  Group, LintVisitor, filter_eq, insert_filter, push_matching, push_rule, record_rules,
  record_selected, record_group, record_groups, insert_each_filter,
}

filter_eq→≡ : (f g : RuleFilter) → filter_eq f g ≡ true → f ≡ g
unfolding filter_eq
filter_eq→≡ (group_filter g) (group_filter h) e = ap group_filter (text_eq→≡ g h e)
filter_eq→≡ (rule_filter g r) (rule_filter h s) e =
    rw (text_eq→≡ g h (ground (arith, e)), text_eq→≡ r s (ground (arith, e))) refl
filter_eq→≡ (group_filter g) (rule_filter h s) e = cc e
filter_eq→≡ (rule_filter g r) (group_filter h) e = cc e

module _ (test : RuleFilter → Bool) where
  any-same :
      (f : RuleFilter) (fs : List RuleFilter)
      → any (filter_eq f) fs ≡ true
      → test f ≡ true
      → any test fs ≡ true
  any-same f [] h t = cc h
  any-same f (g ∷ gs) h t = elim (Bool-cases (filter_eq f g)) [
    | inl e ↦ let same : test g ≡ true = ap test (sym (filter_eq→≡ f g e)) ∙ t in rw same refl
    | inr e ↦ let later = any-same f gs (ground (h, e, arith)) t in ground (later, arith)
  ]

  -- A test of a set into which a filter was put
  any-insert :
      (f : RuleFilter) (fs : List RuleFilter)
      → any test (insert_filter f fs) ≡ (test f || any test fs)
  unfolding insert_filter
  any-insert f fs = elim (Bool-cases (any (filter_eq f) fs)) [
    | inr e ↦ rw e refl
    | inl e ↦ elim (Bool-cases (test f)) [
      | inl t ↦ rw (e, t) (any-same f fs e t)
      | inr t ↦ rw (e, t) refl
    ]
  ]

  pub any-insert_each :
      (fs set : List RuleFilter)
      → any test (insert_each_filter fs set) ≡ (any test fs || any test set)
  any-insert_each [] set = refl
  any-insert_each (f ∷ fs) set =
      ground (arith, any-insert_each fs (insert_filter f set), any-insert f set)

  pub push_mono :
      (key : RuleKey) (fs set : List RuleFilter)
      → any test set ≡ true
      → any test (push_matching key fs set) ≡ true
  unfolding push_matching
  push_mono key [] set h = h
  push_mono key (f ∷ fs) set h = push_mono key fs _ (
      split_if (λ s. any test s ≡ true) (filter_matches_rule key f)
        (λ e. ground (arith, any-insert f set, h)) λ e. h)

  pub push_sound :
      (key : RuleKey) (fs set : List RuleFilter)
      → any test fs ≡ false
      → any test set ≡ false
      → any test (push_matching key fs set) ≡ false
  unfolding push_matching
  push_sound key [] set h k = k
  push_sound key (f ∷ fs) set h k = push_sound key fs _ (ground (arith, h)) (
      split_if (λ s. any test s ≡ false) (filter_matches_rule key f)
        (λ e. ground (arith, any-insert f set, h, k)) λ e. k)

pub push_complete :
    (key : RuleKey) (fs set : List RuleFilter)
    → any (filter_matches_rule key) fs ≡ true
    → any (filter_matches_rule key) (push_matching key fs set) ≡ true
unfolding push_matching
push_complete key [] set h = cc h
push_complete key (f ∷ fs) set h = elim (Bool-cases (filter_matches_rule key f)) [
  | inl e ↦
      let put = any-insert (filter_matches_rule key) f set in
      rw e
        (push_mono (filter_matches_rule key) key fs (insert_filter f set) (ground (arith, put, e)))
  | inr e ↦ push_complete key fs _ (ground (arith, h, e))
]

-- The rules that are recorded, in order
abbrev pub keys : Text → List Text → List RuleKey
keys group [] = []
keys group (rule ∷ rules) = record { group = group; rule = rule } ∷ keys group rules

abbrev pub selected_keys : List RuleFilter → Group → List RuleKey
selected_keys [] group = []
selected_keys (f ∷ fs) group =
    (if filter_matches_group group.0 f then keys group.0 group.1 else []) ++ selected_keys fs group

abbrev pub all_keys : List RuleFilter → List RuleFilter → List Group → List RuleKey
all_keys only skip [] = []
all_keys only skip (g ∷ gs) =
    (selected_keys only g ++ selected_keys skip g) ++ all_keys only skip gs

abbrev pub push_each : List RuleFilter → List RuleKey → List RuleFilter → List RuleFilter
push_each fs [] set = set
push_each fs (k ∷ ks) set = push_each fs ks (push_matching k fs set)

push_each-append :
    (fs : List RuleFilter) (ks ls : List RuleKey) (set : List RuleFilter)
    → push_each fs (ks ++ ls) set ≡ push_each fs ls (push_each fs ks set)
push_each-append fs [] ls set = refl
push_each-append fs (k ∷ ks) ls set = push_each-append fs ks ls (push_matching k fs set)

module _ (only skip : List RuleFilter) where
  abbrev pub push_keys : List RuleKey → LintVisitor → LintVisitor
  push_keys ks v = record {
    enabled_rules = push_each only ks v.enabled_rules;
    disabled_rules = push_each skip ks v.disabled_rules;
  }

  push_keys-append :
      (ks ls : List RuleKey) (v : LintVisitor)
      → push_keys (ks ++ ls) v ≡ push_keys ls (push_keys ks v)
  push_keys-append ks ls v =
      rw (push_each-append only ks ls v.enabled_rules, push_each-append skip ks ls v.disabled_rules)
        refl

  record_rules-keys :
      (group : Text) (rules : List Text) (v : LintVisitor)
      → record_rules only skip group rules v ≡ push_keys (keys group rules) v
  unfolding record_rules push_rule
  record_rules-keys group [] v = refl
  record_rules-keys group (r ∷ rules) v =
      record_rules-keys group rules (push_rule only skip (record { group = group; rule = r }) v)

  record_selected-keys :
      (fs : List RuleFilter) (group : Group) (v : LintVisitor)
      → record_selected only skip fs group v ≡ push_keys (selected_keys fs group) v
  unfolding record_selected
  record_selected-keys [] group v = refl
  record_selected-keys (f ∷ fs) group v = elim (Bool-cases (filter_matches_group group.0 f)) [
    | inl e ↦
        rw (e, record_rules-keys group.0 group.1 v)
          (record_selected-keys fs group (push_keys (keys group.0 group.1) v)
            ∙ sym (push_keys-append (keys group.0 group.1) (selected_keys fs group) v))
    | inr e ↦ rw e (record_selected-keys fs group v)
  ]

  pub record_groups-keys :
      (groups : List Group) (v : LintVisitor)
      → record_groups only skip groups v ≡ push_keys (all_keys only skip groups) v
  unfolding record_groups record_group
  record_groups-keys [] v = refl
  record_groups-keys (g ∷ gs) v =
      let ks = selected_keys only g in
      let ls = selected_keys skip g in
      let v' = push_keys ks v in
      let v'' = push_keys ls v' in
      let first = record_selected-keys only g v in
      let second : record_selected only skip skip g (record_selected only skip only g v) ≡ v'' =
        ap (λ w. record_selected only skip skip g w) first ∙ record_selected-keys skip g v' in
      ap (λ w. record_groups only skip gs w) second
      ∙ (record_groups-keys gs v''
          ∙ sym (
              push_keys-append (ks ++ ls) (all_keys only skip gs) v
              ∙ ap (push_keys (all_keys only skip gs)) (push_keys-append ks ls v)))
