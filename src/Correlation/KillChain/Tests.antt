-- ===== src/Correlation/KillChain/Tests.antt =====
-- The kill-chain tracker on small inputs.
use seerflow.Base.{
  List, String, [], arith, erase, if◌then◌else◌, insert, keep, keys, length, lookup, ltb, not,
  prefix, refl, some, sorted, string_discrete, true, ℕ, ◌||◌, ◌∷◌, ◌≡◌, ◌≤◌,
}
use seerflow.Models.Event.{error}
use seerflow.Models.Alert.{Alert, sigma, host}
use seerflow.Correlation.KillChain.{
  KillChainConfig, KillChainTracker, UuidLib, init, is_stale, record_alert, get_entity_state,
  is_fired, progression_alert, first_seen,
}
use seerflow.Correlation.KillChain.Invariant.{IsValid, init-IsValid}
use seerflow.Correlation.KillChain.Firing.{fresh_tactics, stale_tactics, tactics_after, still_fired}
use seerflow.Correlation.KillChain.Alerts.{
  AllRecent, is_recorded, record_alert_lem, record_alert-IsValid,
}
use seerflow.Correlation.KillChain.Threshold.{record_alert_unreachable}
use seerflow.Correlation.KillChain.Sound.{record_alert_sound}

program : Unit {0}
unfolding record_alert init is_recorded tactics_after stale_tactics fresh_tactics lookup insert
    erase keep sorted string_discrete prefix is_stale
program = tt

abbrev lib : UuidLib
lib = record { parse = λ text. some text; kill_chain_id = λ entity t. entity }

abbrev config : KillChainConfig
config = record { enabled = true; tactic_threshold = 2; window_seconds = 60; max_entities = 1 }

abbrev alert : String → ℕ → List String → Alert
alert entity t tactics = record {
  alert_id = "id";
  alert_type = sigma;
  timestamp_ns = t;
  severity_id = error;
  rule_name = "rule";
  entity_uuid = entity;
  entity_value = entity;
  entity_type = host;
  contributing_events = [];
  mitre_tactics = tactics;
  mitre_techniques = [];
  risk_score = 0;
  dedup_key = "";
}

abbrev first : Alert
first = alert "a" 5 ("execution" ∷ "impact" ∷ [])

abbrev fired : KillChainTracker
fired = record {
  config = config;
  entity_tactics = ("a", ("execution", (5, "id")) ∷ ("impact", (5, "id")) ∷ []) ∷ [];
  lru = ("a", tt) ∷ [];
  fired_entities = ("a", tt) ∷ [];
  eviction_count = 0;
}

abbrev raised : Alert
raised = record {
  alert_id = "a";
  alert_type = seerflow.Models.Alert.correlation;
  timestamp_ns = 5;
  severity_id = error;
  rule_name = "kill-chain-progression";
  entity_uuid = "a";
  entity_value = "a";
  entity_type = host;
  contributing_events = "id" ∷ "id" ∷ [];
  mitre_tactics = "execution" ∷ "impact" ∷ [];
  mitre_techniques = [];
  risk_score = 400;
  dedup_key = "kill-chain:a";
}

first_fires : record_alert lib (init config) first ≡ (fired, raised ∷ [])
unfolding program
first_fires = refl

-- The only place is taken by the newer entity.
evicts : record_alert lib fired (alert "b" 6 ("impact" ∷ [])) ≡ (
  record {
    config = config;
    entity_tactics = ("b", ("impact", (6, "id")) ∷ []) ∷ [];
    lru = ("b", tt) ∷ [];
    fired_entities = [];
    eviction_count = 1;
  },
  [],
)
unfolding program
evicts = refl

next : Alert
next = alert "a" 7 ("collection" ∷ [])

record_alert_lem_example :
    let after = tactics_after (init config) first in
    let quiet = ltb (length after) 2 || still_fired (init config) "a" 5 in
    ((record_alert lib (init config) first).1
      ≡ (if quiet then [] else progression_alert lib "a" 5 after ∷ []))
    × (get_entity_state (record_alert lib (init config) first).0 "a" ≡ after)
    × (is_fired (record_alert lib (init config) first).0 "a"
        ≡ (not quiet || still_fired (init config) "a" 5))
unfolding program
record_alert_lem_example = record_alert_lem lib (init config) first refl (omega arith)

record_alert-IsValid_example : IsValid (record_alert lib (init config) first).0
unfolding init
record_alert-IsValid_example =
    record_alert-IsValid lib (init config) first (init-IsValid config) (omega arith) (omega arith)

first_raises : (record_alert lib (init config) first).1 ≡ raised ∷ []
unfolding program
first_raises = refl

record_alert_sound_example :
    (◌≡◌ {A = List Alert} [] [])
    × (raised.entity_uuid ≡ "a")
    × (raised.timestamp_ns ≡ 5)
    × (2 ≤ length raised.mitre_tactics)
    × (raised.mitre_tactics ≡ keys (sorted first_seen (tactics_after (init config) first)))
    × AllRecent (init config) first
    × (raised.risk_score ≤ 1000)
unfolding init
record_alert_sound_example =
    record_alert_sound lib (init config) first raised [] (omega arith) first_raises

none_stale : stale_tactics (record_alert lib (init config) first).0 "a" 7 ≡ []
unfolding program
none_stale = refl

abbrev high : KillChainConfig
high = record config { tactic_threshold = 15 }

record_alert_unreachable_example : (record_alert lib (init high) first).1 ≡ []
unfolding init
record_alert_unreachable_example =
    record_alert_unreachable lib (init high) first (init-IsValid high) (omega arith) (omega arith)
