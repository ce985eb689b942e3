-- ===== src/Correlation/Engine/Tests.antt =====
-- One rule of two sources, and a window of two events.
use seerflow.Base.{
  String, [], erase, false, if◌then◌else◌, insert, keep, lookup, negsuc, none, refl, some, sorted,
  string_discrete, text_eq, ℕ, ◌∷◌, ◌≡◌,
}
use seerflow.Models.Event.{SeerflowEvent, critical, notice}
use seerflow.Models.Alert.{CorrelationRule, SourceCondition, user}
use seerflow.Correlation.Window.{EntityWindowBuffer}
use seerflow.Correlation.Engine.{
  Library, CorrelationEngine, single, init, evaluate_rule, create_alert,
}
use seerflow.Correlation.Engine.Rules.{ids_for, rule_events, IsCompiled, fires, evaluate_rule_lem}

program : Unit {0}
unfolding evaluate_rule init seerflow.Correlation.Window.query seerflow.Correlation.Window.expire
    lookup insert erase keep sorted string_discrete seerflow.Models.Alert.EntityType-discrete
    seerflow.Correlation.Window.in_range seerflow.Correlation.Window.of_source
program = tt

abbrev lib : Library
lib = record {
  search = text_eq;
  getattr = λ e field. single e.event_id;
  is_ip = λ s. false;
  alert_uuid = λ name entity t. name;
}

abbrev event : String → ℕ → String → SeerflowEvent
event id t source = record {
  event_id = id;
  timestamp_ns = t;
  severity_id = notice;
  source_type = source;
  template_id = negsuc 0;
  entity_refs = "u" ∷ [];
  related_ips = [];
  related_users = "eve" ∷ [];
  related_hosts = [];
  related_files = [];
  related_domains = [];
  related_processes = [];
}

abbrev source : String → String → SourceCondition
source type pattern = record {
  source_type = type;
  conditions = ("event_id", pattern) ∷ [];
  min_count = 1;
}

abbrev rule : CorrelationRule
rule = record {
  name = "r";
  entity_type = user;
  window_seconds = 1;
  sources = source "syslog" "first" ∷ source "otlp" "second" ∷ source "file" "third" ∷ [];
  min_sources = 2;
  alert_severity = critical;
  mitre_tactics = "impact" ∷ [];
  mitre_techniques = [];
}

abbrev window : EntityWindowBuffer
window = record {
  window_ns = 5000000000;
  max_events = 10;
  max_entities = 10;
  buffers = ("u", event "first" 5 "syslog" ∷ event "second" 6 "otlp" ∷ []) ∷ [];
  eviction_count = 0;
}

abbrev trigger : SeerflowEvent
trigger = event "second" 6 "otlp"

abbrev engine : CorrelationEngine
engine = record {
  rules = rule ∷ [];
  window = window;
  compiled =
      (
        "r",
        (("event_id", "first") ∷ [])
            ∷ (("event_id", "second") ∷ [])
            ∷ (("event_id", "third") ∷ [])
            ∷ [],
      )
      ∷ [];
}

starts : init (rule ∷ []) window ≡ engine
unfolding program
starts = refl

raised :
    evaluate_rule lib engine 6 rule "u" trigger
    ≡ some (engine, some (create_alert lib rule "u" trigger ("first" ∷ "second" ∷ [])))
unfolding program
raised = refl

own : IsCompiled engine rule
unfolding lookup string_discrete
own = refl

evaluate_rule_lem_example :
    let ids = ids_for lib (rule_events engine 6 rule "u" trigger) rule.sources in
    (g' : CorrelationEngine) × (evaluate_rule lib engine 6 rule "u" trigger
      ≡ some (
        g',
        (if fires lib engine 6 rule "u" trigger
            then some (create_alert lib rule "u" trigger ids)
            else none),
      ))
    × (g'.rules ≡ engine.rules)
    × (g'.compiled ≡ engine.compiled)
evaluate_rule_lem_example = evaluate_rule_lem lib engine 6 rule "u" trigger own
