-- ===== src/Alerting/Router/Rules.antt =====
-- Which rule an alert falls under, and which channels it is handed to.
use seerflow.Base.{
  All, Bool, Bool-cases, List, Option, String, [], ap, arith, false, inl, inr, length, negsuc, none,
  pos, refl, some, subst, sym, true, ℕ, ℤ, ◌++◌, ◌+◌, ◌∷◌, ◌≡◌,
}
use seerflow.Models.Alert.{Alert}
use seerflow.Alerting.Router.{
  NotificationRouter, default_notify, RoutingRule, RoutingRuleNotify, drop_alert, notify_default,
  rule_matches, first_match, select_notify_with_idx,
}

module _ (glob : String → String → Bool) (alert : Alert) where
  -- No rule of the list matches.
  abbrev pub NoneMatch : List RoutingRule → Type 0
  NoneMatch = All (λ rule. rule_matches glob rule alert ≡ false)

  -- The first rule that matches, with the rules before it and after it.
  pub record IsFirst (rules : List RoutingRule) (idx : ℕ) (notify : List RoutingRuleNotify)
      : Type 0 where
    pub before : List RoutingRule
    pub rule : RoutingRule
    pub after : List RoutingRule
    pub splits : rules ≡ before ++ rule ∷ after
    pub none_before : NoneMatch before
    pub matches : rule_matches glob rule alert ≡ true
    pub at : idx ≡ length before
    pub notifies : notify ≡ rule.notify

  -- What `first_match` answers of the rules from the index `idx` on.
  abbrev Answers : ℕ → List RoutingRule → Option (ℕ × List RoutingRuleNotify) → Type 0
  Answers idx rules none = NoneMatch rules
  Answers idx rules (some (j, notify)) = (i : ℕ) × (j ≡ idx + i) × IsFirst rules i notify

  Answers-later :
      (idx : ℕ) (r : RoutingRule) (rules : List RoutingRule)
      (o : Option (ℕ × List RoutingRuleNotify))
      → rule_matches glob r alert ≡ false
      → Answers (idx + 1) rules o
      → Answers idx (r ∷ rules) o
  Answers-later idx r rules none miss h = (miss, h)
  Answers-later idx r rules (some (j, notify)) miss (i, at, h) = (
    i + 1,
    omega arith,
    record {
      before = r ∷ h.before;
      rule = h.rule;
      after = h.after;
      splits = ap (λ xs. r ∷ xs) h.splits;
      none_before = (miss, h.none_before);
      matches = h.matches;
      at = omega (arith, h.at);
      notifies = h.notifies;
    },
  )

  first_match_lem :
      (idx : ℕ) (rules : List RoutingRule) → Answers idx rules (first_match glob alert idx rules)
  unfolding first_match
  first_match_lem idx [] = tt
  first_match_lem idx (r ∷ rules) = elim (Bool-cases (rule_matches glob r alert)) [
    | inl hit ↦ rw hit (
      0,
      omega arith,
      record {
        before = [];
        rule = r;
        after = rules;
        splits = refl;
        none_before = tt;
        matches = hit;
        at = refl;
        notifies = refl;
      },
    )
    | inr miss ↦ rw miss (
        Answers-later idx r rules (first_match glob alert (idx + 1) rules) miss
          (first_match_lem (idx + 1) rules))
  ]

-- An index that is not negative is that of the first rule that matches the alert, with the rule's
-- entries; the index -1 is that of the default.
abbrev pub Selected :
    (String → String → Bool) → NotificationRouter → Alert → ℤ × List RoutingRuleNotify → Type 0
Selected glob r alert (pos i, notify) = IsFirst glob alert r.rules i notify
Selected glob r alert (negsuc n, notify) =
    NoneMatch glob alert r.rules
    × (r.default_routing.action ≡ drop_alert → notify ≡ [])
    × (r.default_routing.action ≡ notify_default → notify ≡ r.default_routing.notify)

chosen :
    (glob : String → String → Bool) (r : NotificationRouter) (alert : Alert)
    → (o : Option (ℕ × List RoutingRuleNotify)) → first_match glob alert 0 r.rules ≡ o
    → Answers glob alert 0 r.rules o
    → Selected glob r alert (select_notify_with_idx glob r alert)
unfolding select_notify_with_idx
chosen glob r alert none e h =
    let is_default : select_notify_with_idx glob r alert
        ≡ (negsuc 0, default_notify r.default_routing) =
      ground arith in
    subst (Selected glob r alert) (sym is_default) (h, λ d. ground arith, λ d. ground arith)
chosen glob r alert (some (j, notify)) e (i, at, h) =
    let same : i ≡ j = omega arith in
    let is_rule : select_notify_with_idx glob r alert ≡ (pos i, notify) = ground arith in
    subst (Selected glob r alert) (sym is_rule) h

-- The entries chosen for an alert are those of the first rule that matches it, under the index of that
-- rule; when no rule matches they are those of the default routing under the index -1, none for one
-- that drops.
pub select_notify_with_idx_lem :
    (glob : String → String → Bool) (r : NotificationRouter) (alert : Alert)
    → Selected glob r alert (select_notify_with_idx glob r alert)
select_notify_with_idx_lem glob r alert =
    chosen glob r alert (first_match glob alert 0 r.rules) refl
      (first_match_lem glob alert 0 r.rules)
