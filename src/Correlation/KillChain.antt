-- ===== src/Correlation/KillChain.antt =====
-- src/seerflow/correlation/kill_chain.py, `KillChainTracker`. Dictionaries are association lists in
-- insertion order, and a set or an `OrderedDict[str, None]` is one with no values. What the `uuid`
-- library computes is a parameter. The text of an alert's `description` is left out.
pub mod Invariant
pub mod Firing
pub mod Alerts
pub mod Sound
pub mod Threshold
mod Tests
use seerflow.Base.{
  Bool, Bounds, List, Option, String, [], erase, false, if◌then◌else◌, insert, is_empty, keep, keys,
  leb, length, lookup, ltb, min, move_to_end, none, not, prefix, some, sorted, string_discrete,
  text_eq, true, ℕ, ◌&&◌, ◌*◌, ◌+◌, ◌||◌, ◌∷◌,
}
use Prim.Native.String.{◌++◌ as concat}
use seerflow.Models.Event.{error}
use seerflow.Models.Alert.{Alert, correlation, host}

pub record KillChainConfig : Type 0 where
  pub enabled : Bool
  pub tactic_threshold : ℕ
  pub window_seconds : ℕ
  pub max_entities : ℕ

-- The tactics of an entity: first seen at, and by which alert.
abbrev pub Tactics : Type 0
Tactics = List (String × (ℕ × String))

abbrev pub Names : Type 0
Names = List (String × Unit {0})

pub record KillChainTracker : Type 0 where
  pub config : KillChainConfig
  pub entity_tactics : List (String × Tactics)
  pub lru : Names
  pub fired_entities : Names
  pub eviction_count : ℕ

-- `uuid.UUID(text)`, `none` for a ValueError, and the UUID5 of "kill-chain:{entity}:{time}".
pub record UuidLib : Type 0 where
  pub parse : String → Option String
  pub kill_chain_id : String → ℕ → String

abbrev pub max_tactics_per_entity : ℕ
max_tactics_per_entity = 14

unfoldable pub init : KillChainConfig → KillChainTracker
init config = record {
  config = config;
  entity_tactics = [];
  lru = [];
  fired_entities = [];
  eviction_count = 0;
}

-- `ts < now_ns - window_seconds * 1_000_000_000`
unfoldable pub is_stale : ℕ → ℕ → String × (ℕ × String) → Bool
is_stale window_seconds now_ns (t, (ts, _)) = ltb (ts + window_seconds * 1000000000) now_ns

unfoldable pub evict_stale : KillChainTracker → String → ℕ → KillChainTracker
unfolding is_stale
evict_stale s entity_id now_ns = elim (lookup string_discrete entity_id s.entity_tactics) [
  | none ↦ s
  | some tactics ↦
      let stale = is_stale s.config.window_seconds now_ns in
      record s {
        entity_tactics =
            insert string_discrete entity_id (keep (λ t. not (stale t)) tactics) s.entity_tactics;
        fired_entities =
            if is_empty (keep stale tactics)
            then s.fired_entities
            else erase string_discrete entity_id s.fired_entities;
      }
]

-- The loop over the alert's tactics: the entity's tactics, and whether one was new.
unfoldable pub add_tactics : List String → ℕ × String → Tactics → Tactics × Bool
add_tactics [] seen tactics = (tactics, false)
add_tactics (t ∷ ts) seen tactics = elim (lookup string_discrete t tactics) [
  | some _ ↦ add_tactics ts seen tactics
  | none ↦
      if ltb (length tactics) max_tactics_per_entity
      then ((add_tactics ts seen (insert string_discrete t seen tactics)).0, true)
      else add_tactics ts seen tactics
]

unfoldable pub touch_entity : KillChainTracker → String → KillChainTracker
touch_entity s entity_id = record s { lru = move_to_end string_discrete entity_id tt s.lru }

-- The loop of `_enforce_max_entities`, over the entities still listed, oldest first.
unfoldable pub enforce_max_entities : Names → KillChainTracker → KillChainTracker
enforce_max_entities [] s = record s { lru = [] }
enforce_max_entities ((oldest, u) ∷ rest) s =
    let next = enforce_max_entities rest (record s {
      entity_tactics = erase string_discrete oldest s.entity_tactics;
      fired_entities = erase string_discrete oldest s.fired_entities;
      eviction_count = s.eviction_count + 1;
    }) in
    if leb (length ((oldest, u) ∷ rest)) s.config.max_entities
    then record s { lru = (oldest, u) ∷ rest }
    else next

unfoldable pub first_seen : String × (ℕ × String) → ℕ
first_seen (t, (ts, _)) = ts

unfoldable pub parsed_ids : UuidLib → Tactics → List String
parsed_ids lib [] = []
parsed_ids lib ((t, (ts, aid)) ∷ rest) = elim (lib.parse aid) [
  | none ↦ parsed_ids lib rest
  | some id ↦ id ∷ parsed_ids lib rest
]

-- The `Alert(...)` of `_check_threshold`; the risk score `min(1.0, n / 5.0)` in thousandths.
unfoldable pub progression_alert : UuidLib → String → ℕ → Tactics → Alert
unfolding first_seen parsed_ids
progression_alert lib entity_id timestamp_ns tactics =
    let sorted_tactics = sorted first_seen tactics in
    record {
      alert_id = lib.kill_chain_id entity_id timestamp_ns;
      alert_type = correlation;
      timestamp_ns = timestamp_ns;
      severity_id = error;
      rule_name = "kill-chain-progression";
      entity_uuid = entity_id;
      entity_value = prefix 16 entity_id;
      entity_type = host;
      contributing_events = parsed_ids lib sorted_tactics;
      mitre_tactics = keys sorted_tactics;
      mitre_techniques = [];
      risk_score = min 1000 (length (keys sorted_tactics) * 200);
      dedup_key = concat "kill-chain:" entity_id;
    }

-- `self._entity_tactics.get(entity_id, {})`, which `get_entity_state` copies.
unfoldable pub get_entity_state : KillChainTracker → String → Tactics
get_entity_state s entity_id = elim (lookup string_discrete entity_id s.entity_tactics) [
  | none ↦ []
  | some tactics ↦ tactics
]

unfoldable pub is_fired : KillChainTracker → String → Bool
is_fired s entity_id = elim (lookup string_discrete entity_id s.fired_entities) [
  | none ↦ false
  | some _ ↦ true
]

unfoldable pub check_threshold :
    UuidLib → KillChainTracker → String → ℕ → KillChainTracker × List Alert
unfolding get_entity_state is_fired progression_alert
check_threshold lib s entity_id timestamp_ns =
    if ltb (length (get_entity_state s entity_id)) s.config.tactic_threshold
    then (s, [])
    else if is_fired s entity_id
    then (s, [])
    else (
      record s { fired_entities = insert string_discrete entity_id tt s.fired_entities },
      progression_alert lib entity_id timestamp_ns (get_entity_state s entity_id) ∷ [],
    )

-- `record_alert` past its first test: the tactics are recorded, and the entity is the newest.
unfoldable pub record_tactics : KillChainTracker → Alert → KillChainTracker × Bool
unfolding evict_stale add_tactics touch_entity enforce_max_entities get_entity_state
record_tactics s alert =
    let s1 = evict_stale s alert.entity_uuid alert.timestamp_ns in
    let added =
      add_tactics alert.mitre_tactics (alert.timestamp_ns, alert.alert_id)
        (get_entity_state s1 alert.entity_uuid) in
    let s2 =
      touch_entity
        (record s1 {
          entity_tactics = insert string_discrete alert.entity_uuid added.0 s1.entity_tactics;
        })
        alert.entity_uuid in
    (enforce_max_entities s2.lru s2, added.1)

unfoldable pub record_alert : UuidLib → KillChainTracker → Alert → KillChainTracker × List Alert
unfolding record_tactics check_threshold is_fired
record_alert lib s alert =
    if not s.config.enabled || is_empty alert.mitre_tactics || text_eq alert.entity_uuid ""
    then (s, [])
    else let (s', changed) = record_tactics s alert in
      if not changed && is_fired s' alert.entity_uuid
      then (s', [])
      else check_threshold lib s' alert.entity_uuid alert.timestamp_ns

unfoldable pub bounds : KillChainTracker → Bounds
bounds s = record {
  current = length s.lru;
  cap = s.config.max_entities;
  evictions = s.eviction_count;
}
