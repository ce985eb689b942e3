-- ===== src/Correlation/Engine.antt =====
-- src/seerflow/correlation/engine.py, `CorrelationEngine`. Regular expressions, `getattr` with `str` on
-- an event's field, the test for an address and the uuid library are parameters. Patterns stand for
-- their compiled form. Risk scores are in thousandths, in exact arithmetic. The text of an alert's
-- description is left out.
pub mod Rules
mod Tests
use seerflow.Base.{
  Bool, List, Option, String, [], false, if◌then◌else◌, insert, is_empty, keep, leb, length, lookup,
  ltb, map, min, none, prefix, some, string_discrete, suc, take, text_eq, true, zero, ℕ, ◌&&◌, ◌*◌,
  ◌+◌, ◌-◌, ◌||◌, ◌∷◌,
}
use seerflow.Models.Event.{SeerflowEvent, severity_value}
use seerflow.Models.Alert.{
  Alert, CorrelationRule, SourceCondition, EntityType-discrete, correlation,
}
use seerflow.Models.Entity.{infer_entity_type, primary_entity_value}
use seerflow.Models.Query.{TimeRange}
use seerflow.Correlation.Window.{EntityWindowBuffer, query}
use mathlib.Core.List.{◌++◌}
use Prim.Native.String.{◌++◌ as concat}

-- What `getattr(event, field, None)` gives, its values as texts.
pub data FieldValue : Type 0 where
  missing : FieldValue
  single : String → FieldValue
  several : List String → FieldValue

pub record Library : Type 0 where
  pub search : String → String → Bool
  pub getattr : SeerflowEvent → String → FieldValue
  pub is_ip : String → Bool
  pub alert_uuid : String → String → ℕ → String

abbrev pub Patterns : Type 0
Patterns = List (String × String)

pub record CorrelationEngine : Type 0 where
  pub rules : List CorrelationRule
  pub window : EntityWindowBuffer
  pub compiled : List (String × List Patterns)

abbrev pub max_match_input : ℕ
max_match_input = 4096

abbrev pub max_tuple_entries : ℕ
max_tuple_entries = 20

-- The loop of `__init__`: a rule's patterns replace those of a rule of the same name.
unfoldable pub compile_rules :
    List CorrelationRule → List (String × List Patterns) → List (String × List Patterns)
compile_rules [] compiled = compiled
compile_rules (rule ∷ rules) compiled =
    compile_rules rules
      (insert string_discrete rule.name (map (λ s. s.conditions) rule.sources) compiled)

unfoldable pub init : List CorrelationRule → EntityWindowBuffer → CorrelationEngine
unfolding compile_rules
init rules window = record { rules = rules; window = window; compiled = compile_rules rules [] }

abbrev any_of {ℓ} : {A : Type ℓ} → (A → Bool) → List A → Bool
any_of p [] = false
any_of p (x ∷ xs) = p x || any_of p xs

unfoldable pub value_matches : Library → String → FieldValue → Bool
unfolding prefix
value_matches lib pattern missing = false
value_matches lib pattern (single v) = lib.search pattern (prefix max_match_input v)
value_matches lib pattern (several vs) =
    any_of (λ v. lib.search pattern (prefix max_match_input v)) (take max_tuple_entries vs)

-- `_match_event`, with the patterns that it looks up.
unfoldable pub match_event : Library → SeerflowEvent → Patterns → Bool
unfolding value_matches
match_event lib e [] = true
match_event lib e ((field, pattern) ∷ patterns) =
    value_matches lib pattern (lib.getattr e field) && match_event lib e patterns

abbrev pub at_index {ℓ} : {A : Type ℓ} → ℕ → List A → Option A
at_index n [] = none
at_index zero (x ∷ xs) = some x
at_index (suc n) (x ∷ xs) = at_index n xs

-- `self._compiled[rule_name][source_idx]`; `none` is a KeyError or an IndexError.
unfoldable pub patterns_of : CorrelationEngine → String → ℕ → Option Patterns
patterns_of g rule_name source_idx = elim (lookup string_discrete rule_name g.compiled) [
  | none ↦ none
  | some patterns ↦ at_index source_idx patterns
]

-- The events of a source that match; the patterns are looked up once for each event of the source.
unfoldable pub matching_events :
    Library
    → CorrelationEngine
    → String
    → ℕ
    → SourceCondition
    → List SeerflowEvent
    → Option (List SeerflowEvent)
unfolding patterns_of match_event
matching_events lib g rule_name idx source events =
    let of_type = keep (λ e. text_eq e.source_type source.source_type) events in
    if is_empty of_type then some [] else elim (patterns_of g rule_name idx) [
      | none ↦ none
      | some patterns ↦ some (keep (λ e. match_event lib e patterns) of_type)
    ]

-- The loop over the sources, from the index `idx`: how many are met, and the events that meet them.
unfoldable pub count_sources :
    Library
    → CorrelationEngine
    → String
    → ℕ
    → List SourceCondition
    → List SeerflowEvent
    → Option (ℕ × List String)
unfolding matching_events
count_sources lib g rule_name idx [] events = some (0, [])
count_sources lib g rule_name idx (source ∷ sources) events =
    let rest = count_sources lib g rule_name (idx + 1) sources events in
    elim (matching_events lib g rule_name idx source events) [
      | none ↦ none
      | some matching ↦ elim rest [
        | none ↦ none
        | some (met, ids) ↦
            if leb source.min_count (length matching)
            then some (met + 1, map (λ e. e.event_id) matching ++ ids)
            else some (met, ids)
      ]
    ]

unfoldable pub create_alert :
    Library → CorrelationRule → String → SeerflowEvent → List String → Alert
unfolding severity_value infer_entity_type primary_entity_value
create_alert lib rule entity_uuid trigger ids = record {
  alert_id = lib.alert_uuid rule.name entity_uuid trigger.timestamp_ns;
  alert_type = correlation;
  timestamp_ns = trigger.timestamp_ns;
  severity_id = rule.alert_severity;
  rule_name = rule.name;
  entity_uuid = entity_uuid;
  entity_value = primary_entity_value lib.is_ip trigger;
  entity_type = infer_entity_type lib.is_ip trigger;
  contributing_events = ids;
  mitre_tactics = rule.mitre_tactics;
  mitre_techniques = rule.mitre_techniques;
  risk_score = min 1000 (severity_value rule.alert_severity * 100 + min (length ids * 40) 400);
  dedup_key = concat "corr:" (concat rule.name (concat ":" entity_uuid));
}

-- The window of a rule; a start before the epoch is the epoch, before which there is no event.
unfoldable pub rule_range : CorrelationRule → SeerflowEvent → TimeRange
rule_range rule trigger = record {
  start_ns = trigger.timestamp_ns - rule.window_seconds * 1000000000;
  end_ns = trigger.timestamp_ns;
}

abbrev decide : Library → CorrelationRule → String → SeerflowEvent → ℕ × List String → Option Alert
decide lib rule entity_uuid trigger (met, ids) =
    if ltb met rule.min_sources then none else some (create_alert lib rule entity_uuid trigger ids)

-- `_evaluate_rule` at the time `now`, with the window that its query leaves; the outer `none` is a
-- KeyError or an IndexError.
unfoldable pub evaluate_rule :
    Library
    → CorrelationEngine
    → ℕ
    → CorrelationRule
    → String
    → SeerflowEvent
    → Option (CorrelationEngine × Option Alert)
unfolding count_sources create_alert rule_range
evaluate_rule lib g now rule entity_uuid trigger =
    let (window, events) = query g.window now entity_uuid (some (rule_range rule trigger)) none in
    let g' = record g { window = window } in
    elim (EntityType-discrete (infer_entity_type lib.is_ip trigger) rule.entity_type) [
      | no _ ↦ some (g, none)
      | yes _ ↦
          if is_empty events
          then some (g', none)
          else elim (count_sources lib g' rule.name 0 rule.sources events) [
            | none ↦ none
            | some counted ↦ some (g', decide lib rule entity_uuid trigger counted)
          ]
    ]

abbrev with_alert : Option Alert → List Alert → List Alert
with_alert none alerts = alerts
with_alert (some a) alerts = a ∷ alerts

unfoldable pub evaluate_rules :
    Library
    → CorrelationEngine
    → ℕ
    → List CorrelationRule
    → String
    → SeerflowEvent
    → Option (CorrelationEngine × List Alert)
unfolding evaluate_rule
evaluate_rules lib g now [] entity trigger = some (g, [])
evaluate_rules lib g now (rule ∷ rules) entity trigger =
    elim (evaluate_rule lib g now rule entity trigger) [
      | none ↦ none
      | some (g', alert) ↦ elim (evaluate_rules lib g' now rules entity trigger) [
        | none ↦ none
        | some (end, alerts) ↦ some (end, with_alert alert alerts)
      ]
    ]

-- `evaluate`: every rule for every entity, with one reading of the clock.
unfoldable pub evaluate :
    Library
    → CorrelationEngine
    → ℕ
    → SeerflowEvent
    → List String
    → Option (CorrelationEngine × List Alert)
unfolding evaluate_rules
evaluate lib g now event [] = some (g, [])
evaluate lib g now event (entity ∷ entities) =
    elim (evaluate_rules lib g now g.rules entity event) [
      | none ↦ none
      | some (g', alerts) ↦ elim (evaluate lib g' now event entities) [
        | none ↦ none
        | some (end, more) ↦ some (end, alerts ++ more)
      ]
    ]
