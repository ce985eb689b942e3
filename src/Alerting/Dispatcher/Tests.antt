-- ===== src/Alerting/Dispatcher/Tests.antt =====
-- A dispatcher with a queue of one.
use seerflow.Base.{Bool, List, String, [], arith, false, none, refl, some, true, ◌∷◌, ◌≡◌}
use seerflow.Models.Event.{critical}
use seerflow.Models.Alert.{Alert, ueba, host}
use seerflow.Alerting.Dispatcher.{AlertDispatcher, Formatters, posted, init, enqueue, stop, run}
use seerflow.Alerting.Dispatcher.Draining.{
  hand_on, IsDrained, run_drains, Event, enqueues, turns, Conserves, run_events, enqueue-conserves,
}

program : Unit {0}
unfolding run init enqueue stop seerflow.Queues.put_nowait seerflow.Queues.get_nowait
program = tt

abbrev formatters : Formatters
formatters = record {
  Payload = String;
  format_slack = λ alert. none;
  format_teams = λ alert. some alert.rule_name;
  format_json = λ alert. some alert.alert_id;
}

abbrev glob : String → String → Bool
glob name pattern = true

abbrev alert : String → Alert
alert id = record {
  alert_id = id;
  alert_type = ueba;
  timestamp_ns = 0;
  severity_id = critical;
  rule_name = "rule";
  entity_uuid = "e";
  entity_value = "e";
  entity_type = host;
  contributing_events = [];
  mitre_tactics = [];
  mitre_techniques = [];
  risk_score = 0;
  dedup_key = "";
}

abbrev dispatcher : AlertDispatcher
dispatcher = record {
  targets =
      record { name = "a"; url = "slack-url"; format = "slack"; min_severity = 0 }
      ∷ record { name = "b"; url = "json-url"; format = "json"; min_severity = 5 }
      ∷ record { name = "c"; url = "mild-url"; format = "teams"; min_severity = 6 }
      ∷ [];
  queue = record { maxsize = 1; items = alert "first" ∷ []; dropped = 0 };
  running = false;
  router = none;
}

-- The formatter for "a" raises, and "c" asks for more severity.
posts :
    run formatters glob 2 dispatcher 0
    ≡ some (
      record dispatcher { queue = record { maxsize = 1; items = []; dropped = 0 } },
      posted "json-url" "first" ∷ [],
    )
unfolding program
posts = refl

run_drains_example :
    (end : AlertDispatcher) × (run formatters glob 2 dispatcher 0
      ≡ some (end, hand_on formatters glob dispatcher 0 (alert "first" ∷ [])))
    × IsDrained formatters glob end
run_drains_example = run_drains formatters glob dispatcher 0 refl

abbrev acts : List Event
acts = enqueues (alert "second") ∷ turns 0 ∷ enqueues (alert "third") ∷ []

enqueue-conserves_example :
    Conserves formatters glob dispatcher (run_events formatters glob dispatcher acts)
enqueue-conserves_example = enqueue-conserves formatters glob dispatcher acts (λ h. omega arith)
