-- ===== src/Alerting/Router/Tests.antt =====
-- A router with two channels and one rule.
use seerflow.Base.{
  Bool, List, String, [], arith, contains, erase, false, insert, keep, lookup, ltb, map, none, pos,
  refl, some, string_discrete, true, ℕ_discrete, ◌++◌, ◌∷◌, ◌≡◌, ◌≢◌,
}
use seerflow.Models.Event.{critical, notice, SeverityLevel}
use seerflow.Models.Alert.{Alert, ueba, host}
use seerflow.Alerting.Router.{
  NotificationRouter, RoutingRule, RoutingRuleNotify, DeliveryTarget, QuietHours, Key, Key-discrete,
  anything, exactly, immediate, digest, drop_alert, select_notify_with_idx, buffer_of, route,
  in_quiet_window, flush_begin, stop, notify_one, buffer_for_digest, flush_end,
}
use seerflow.Alerting.Router.Channels.{IsNamed, at_once, into_digest, copies, route_lem}
use seerflow.Alerting.Router.Quiet.{since, in_quiet_window-since}
use seerflow.Alerting.Router.Digest.{
  buffers, flushes, run, all_handed, all_meant, run-conserves, IsScheduled, run-IsScheduled,
  flush_loses,
}

program : Unit {0}
unfolding Key-discrete ℕ_discrete route flush_begin stop run all_handed buffer_of lookup insert
    erase string_discrete contains
program = tt

abbrev glob : String → String → Bool
glob name pattern = true

abbrev now_entry : RoutingRuleNotify
now_entry = record { channel = "pager"; mode = immediate; digest_window_minutes = 15 }

abbrev digest_entry : RoutingRuleNotify
digest_entry = record { channel = "mail"; mode = digest; digest_window_minutes = 15 }

abbrev rule : RoutingRule
rule = record {
  criteria = record {
    alert_type = exactly "ueba";
    rule_name = some "*";
    entity_type = anything;
    min_severity = some 2;
    max_severity = none;
  };
  notify = now_entry ∷ digest_entry ∷ [];
}

abbrev night : QuietHours
night = record { start = 79200000000; end = 21600000000; min_severity = 5 }

abbrev router : NotificationRouter
router = record {
  targets =
      ("pager", record { name = "pager"; min_severity = 3 })
      ∷ ("mail", record { name = "mail"; min_severity = 0 })
      ∷ [];
  rules = rule ∷ [];
  default_routing = record { action = drop_alert; notify = [] };
  quiet = ("mail", night) ∷ [];
  running = true;
  digest_buffers = [];
  digest_tasks = [];
  digest_warned = [];
}

abbrev alert : SeverityLevel → Alert
alert severity = record {
  alert_id = "id";
  alert_type = ueba;
  timestamp_ns = 0;
  severity_id = severity;
  rule_name = "rule";
  entity_uuid = "e";
  entity_value = "e";
  entity_type = host;
  contributing_events = [];
  mitre_tactics = [];
  mitre_techniques = [];
  risk_score = 0;
  dedup_key = "";
}

abbrev mail : Key
mail = (pos 0, "mail")

-- Severe enough for both channels.
severe : (route glob router 0 (alert critical)).1 ≡ "pager" ∷ []
unfolding program
severe = refl

-- Too mild for the pager, and in the night for the mail.
mild : route glob router 0 (alert notice) ≡ (router, [])
unfolding program
mild = refl

mild_by_day : buffer_of (route glob router 43200000000 (alert notice)).0 mail ≡ alert notice ∷ []
unfolding program
mild_by_day = refl

drained : (stop (route glob router 43200000000 (alert notice)).0).1 ≡ (mail, alert notice ∷ []) ∷ []
unfolding program
drained = refl

named : IsNamed router
unfolding lookup
named k t found = ground arith

route_lem_example :
    let chosen = select_notify_with_idx glob router (alert notice) in
    (router.running ≡ true
      → ((route glob router 0 (alert notice)).1
          ≡ map (λ e. e.channel) (keep (at_once router 0 (alert notice)) chosen.1))
        × ((key : Key)
            → buffer_of (route glob router 0 (alert notice)).0 key
              ≡ buffer_of router key
                ++ copies
                    (alert notice)
                    (keep (into_digest router 0 chosen.0 (alert notice) key) chosen.1)))
    × (router.running ≡ false → route glob router 0 (alert notice) ≡ (router, []))
route_lem_example = route_lem glob router 0 (alert notice) named

in_quiet_window-since_example :
    in_quiet_window night 3600000000
    ≡ ltb (since 79200000000 3600000000) (since 79200000000 21600000000)
in_quiet_window-since_example =
    in_quiet_window-since night 3600000000 (omega arith) (omega arith) (omega arith)

abbrev acts : List seerflow.Alerting.Router.Digest.Act
acts =
    buffers (pos 0) digest_entry (alert notice)
    ∷ flushes mail
    ∷ buffers (pos 0) digest_entry (alert critical)
    ∷ []

run-conserves_example :
    all_handed router mail acts ++ buffer_of (run router acts) mail
    ≡ buffer_of router mail ++ all_meant mail acts
run-conserves_example = run-conserves router mail acts

nothing_buffered : IsScheduled router
unfolding lookup
nothing_buffered key untimed = refl

run-IsScheduled_example : IsScheduled (run router acts)
run-IsScheduled_example = run-IsScheduled router acts nothing_buffered

abbrev waiting : NotificationRouter
waiting = record router { digest_buffers = (mail, alert notice ∷ []) ∷ [] }

flushed : (flush_begin waiting mail).1 ≡ alert notice ∷ []
unfolding program
flushed = refl

something : (flush_begin waiting mail).1 ≢ []
something = rw flushed (λ e. cc)

flush_loses_example :
    let during =
      buffer_for_digest (flush_begin waiting mail).0 (pos 0) digest_entry (alert critical) in
    (buffer_of during mail ≡ (flush_begin waiting mail).1 ++ alert critical ∷ [])
    × (buffer_of (flush_end during mail) mail ≡ [])
flush_loses_example = flush_loses waiting (pos 0) digest_entry (alert critical) something
