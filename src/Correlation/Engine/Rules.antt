-- ===== src/Correlation/Engine/Rules.antt =====
-- When a correlation rule fires, told from the rule itself.
use seerflow.Base.{
  All, Bool, List, Option, String, [], arith, false, if◌then◌else◌, insert, is_empty, ite, keep,
  leb, length, lookup, lookup-insert, map, none, not, refl, some, string_discrete, subst, suc,
  text_eq, true, ℕ, ◌&&◌, ◌++◌, ◌+◌, ◌∷◌, ◌≡◌, ◌≢◌,
}
use seerflow.Models.Event.{SeerflowEvent}
use seerflow.Models.Alert.{CorrelationRule, SourceCondition, EntityType-discrete}
use seerflow.Models.Entity.{infer_entity_type}
use seerflow.Correlation.Window.{EntityWindowBuffer, query}
use seerflow.Correlation.Engine.{
  Library, CorrelationEngine, Patterns, compile_rules, init, match_event, at_index, patterns_of,
  matching_events, count_sources, create_alert, rule_range, evaluate_rule,
}

-- The events that meet the conditions of a source, and whether they are enough.
abbrev pub events_for : Library → List SeerflowEvent → SourceCondition → List SeerflowEvent
events_for lib events source =
    keep (λ e. match_event lib e source.conditions)
      (keep (λ e. text_eq e.source_type source.source_type) events)

unfoldable pub is_met : Library → List SeerflowEvent → SourceCondition → Bool
is_met lib events source = leb source.min_count (length (events_for lib events source))

-- The ids of the events of the sources that are met.
unfoldable pub ids_for : Library → List SeerflowEvent → List SourceCondition → List String
ids_for lib events [] = []
ids_for lib events (source ∷ sources) =
    let rest = ids_for lib events sources in
    if is_met lib events source
    then map (λ e. e.event_id) (events_for lib events source) ++ rest
    else rest

-- The engine holds the rule's own patterns.
abbrev pub IsCompiled : CorrelationEngine → CorrelationRule → Type 0
IsCompiled g rule =
    lookup string_discrete rule.name g.compiled ≡ some (map (λ s. s.conditions) rule.sources)

matching_events_lem :
    (lib : Library) (g : CorrelationEngine) (name : String) (idx : ℕ) (source : SourceCondition)
    → (events : List SeerflowEvent) → patterns_of g name idx ≡ some source.conditions
    → matching_events lib g name idx source events ≡ some (events_for lib events source)
unfolding matching_events keep
matching_events_lem lib g name idx source events found =
    by_type (keep (λ e. text_eq e.source_type source.source_type) events)
  where
    by_type :
        (of_type : List SeerflowEvent)
        → (if is_empty of_type
            then some []
            else elim (patterns_of g name idx) as (λ _. Option (List SeerflowEvent)) [
              | none ↦ none
              | some patterns ↦ some (keep (λ e. match_event lib e patterns) of_type)
            ])
          ≡ some (keep (λ e. match_event lib e source.conditions) of_type)
    by_type [] = refl
    by_type (x ∷ xs) = rw found refl

count_sources_lem :
    (lib : Library) (g : CorrelationEngine) (name : String) (idx : ℕ)
    (sources : List SourceCondition)
    → (events : List SeerflowEvent)
    → ((j : ℕ) → patterns_of g name (idx + j) ≡ at_index j (map (λ s. s.conditions) sources))
    → count_sources lib g name idx sources events
      ≡ some (length (keep (is_met lib events) sources), ids_for lib events sources)
unfolding count_sources keep is_met ids_for
count_sources_lem lib g name idx [] events found = refl
count_sources_lem lib g name idx (s ∷ sources) events found =
    let here : patterns_of g name idx ≡ some s.conditions =
      subst (λ i. patterns_of g name i ≡ some s.conditions) (omega arith) (found 0) in
    let later : (j : ℕ)
        → patterns_of g name (idx + 1 + j) ≡ at_index j (map (λ x. x.conditions) sources) =
      λ j.
        subst (λ i. patterns_of g name i ≡ at_index j (map (λ x. x.conditions) sources))
          (omega arith) (found (suc j)) in
    ground (
      arith,
      matching_events_lem lib g name idx s events here,
      count_sources_lem lib g name (idx + 1) sources events later,
    )

-- What the query of a rule's window answers.
abbrev pub rule_events :
    CorrelationEngine → ℕ → CorrelationRule → String → SeerflowEvent → List SeerflowEvent
rule_events g now rule entity trigger =
    (query g.window now entity (some (rule_range rule trigger)) none).1

-- The rule fires: the trigger's entity has the rule's type, there are events in the window, and as many
-- sources as the rule asks are met.
unfoldable pub fires :
    Library → CorrelationEngine → ℕ → CorrelationRule → String → SeerflowEvent → Bool
fires lib g now rule entity trigger =
    let events = rule_events g now rule entity trigger in
    ite (EntityType-discrete (infer_entity_type lib.is_ip trigger) rule.entity_type) true false
    && not (is_empty events)
    && leb rule.min_sources (length (keep (is_met lib events) rule.sources))

-- For a rule whose own patterns the engine holds, an evaluation raises no KeyError or IndexError, and
-- returns an alert exactly when the rule fires: the trigger's entity has the rule's type, the entity's
-- window holds events, and at least as many sources as the rule asks have enough events there that
-- match all their patterns. The alert names the events of those sources.
pub evaluate_rule_lem :
    (lib : Library) (g : CorrelationEngine) (now : ℕ) (rule : CorrelationRule) (entity : String)
    → (trigger : SeerflowEvent) → IsCompiled g rule
    → let ids = ids_for lib (rule_events g now rule entity trigger) rule.sources in
      (g' : CorrelationEngine) × (evaluate_rule lib g now rule entity trigger
        ≡ some (
          g',
          (if fires lib g now rule entity trigger
              then some (create_alert lib rule entity trigger ids)
              else none),
        ))
      × (g'.rules ≡ g.rules)
      × (g'.compiled ≡ g.compiled)
unfolding evaluate_rule fires patterns_of
evaluate_rule_lem lib g now rule entity trigger own =
    let events = rule_events g now rule entity trigger in
    let g' : CorrelationEngine = record g {
      window = (query g.window now entity (some (rule_range rule trigger)) none).0;
    } in
    let counted = count_sources_lem lib g' rule.name 0 rule.sources events (λ j. ground arith) in
    elim (EntityType-discrete (infer_entity_type lib.is_ip trigger) rule.entity_type) [
      | no differs ↦ (g, ground arith, refl, refl)
      | yes same ↦ (g', ground (arith, counted), refl, refl)
    ]

-- No rule of the list has the name.
abbrev NotNamed : String → List CorrelationRule → Type 0
NotNamed name = All (λ r. r.name ≢ name)

lookup-compile_rules :
    (name : String) (rules : List CorrelationRule) (compiled : List (String × List Patterns))
    → NotNamed name rules
    → lookup string_discrete name (compile_rules rules compiled)
      ≡ lookup string_discrete name compiled
unfolding compile_rules
lookup-compile_rules name [] compiled others = refl
lookup-compile_rules name (r ∷ rules) compiled others =
    let patterns = map (λ s. s.conditions) r.sources in
    ground (
      arith,
      lookup-compile_rules name rules (insert string_discrete r.name patterns compiled) others.1,
      lookup-insert string_discrete r.name name patterns compiled,
    )

compile_rules-append :
    (xs ys : List CorrelationRule) (compiled : List (String × List Patterns))
    → compile_rules (xs ++ ys) compiled ≡ compile_rules ys (compile_rules xs compiled)
unfolding compile_rules
compile_rules-append [] ys compiled = refl
compile_rules-append (x ∷ xs) ys compiled =
    compile_rules-append xs ys
      (insert string_discrete x.name (map (λ s. s.conditions) x.sources) compiled)

-- A new engine holds the patterns of each of its rules that no later rule has the name of.
pub init-IsCompiled :
    (before after : List CorrelationRule) (rule : CorrelationRule) (window : EntityWindowBuffer)
    → NotNamed rule.name after
    → IsCompiled (init (before ++ rule ∷ after) window) rule
unfolding init compile_rules
init-IsCompiled before after rule window others =
    let earlier = compile_rules before [] in
    let patterns = map (λ s. s.conditions) rule.sources in
    ground (
      arith,
      compile_rules-append before (rule ∷ after) [],
      lookup-compile_rules rule.name after (insert string_discrete rule.name patterns earlier)
          others,
      lookup-insert string_discrete rule.name rule.name patterns earlier,
    )
