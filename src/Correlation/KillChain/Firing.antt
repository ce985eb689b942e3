-- ===== src/Correlation/KillChain/Firing.antt =====
-- When `record_alert` fires, and what it leaves.
use seerflow.Base.{
  Bool, Bool-cases, Option-cases, String, [], arith, erase, inl, inr, insert, is_empty, keep, leb,
  length, lookup, lookup-erase, lookup-erase_self, lookup-insert, move_to_end, none, not,
  string_discrete, suc, ℕ, ◌&&◌, ◌++◌, ◌+◌, ◌<◌, ◌∷◌, ◌≡◌,
}
use seerflow.Models.Alert.{Alert}
use seerflow.Correlation.KillChain.{
  KillChainTracker, Names, Tactics, evict_stale, is_stale, add_tactics, touch_entity,
  enforce_max_entities, record_tactics, get_entity_state, is_fired,
}

-- The entity's tactics that are still within the window at a time, and those that are not.
unfoldable pub fresh_tactics : KillChainTracker → String → ℕ → Tactics
fresh_tactics s k now =
    keep (λ t. not (is_stale s.config.window_seconds now t)) (get_entity_state s k)

unfoldable pub stale_tactics : KillChainTracker → String → ℕ → Tactics
stale_tactics s k now = keep (is_stale s.config.window_seconds now) (get_entity_state s k)

-- The entity's tactics once an alert is recorded.
unfoldable pub tactics_after : KillChainTracker → Alert → Tactics
tactics_after s alert =
    (add_tactics alert.mitre_tactics (alert.timestamp_ns, alert.alert_id)
      (fresh_tactics s alert.entity_uuid alert.timestamp_ns)).0

-- Whether the entity has fired and lost no tactic since.
unfoldable pub still_fired : KillChainTracker → String → ℕ → Bool
still_fired s k now = is_fired s k && is_empty (stale_tactics s k now)

evict_stale-state :
    (s : KillChainTracker) (k : String) (now : ℕ)
    → (get_entity_state (evict_stale s k now) k ≡ fresh_tactics s k now)
      × (is_fired (evict_stale s k now) k ≡ still_fired s k now)
      × ((evict_stale s k now).config ≡ s.config)
unfolding evict_stale get_entity_state fresh_tactics stale_tactics still_fired is_fired keep
evict_stale-state s k now = elim (Option-cases (lookup string_discrete k s.entity_tactics)) [
  | inl e ↦ ground arith
  | inr (tactics, e) ↦
      let left = keep (λ t. not (is_stale s.config.window_seconds now t)) tactics in
      ground (
        arith,
        lookup-insert string_discrete k k left s.entity_tactics,
        lookup-erase string_discrete k k s.fired_entities,
      )
]

-- The newest entity is not among those that are dropped.
enforce-newest :
    (k : String) (l : Names) (s : KillChainTracker)
    → lookup string_discrete k l ≡ none
    → 0 < s.config.max_entities
    → let s' = enforce_max_entities (l ++ (k, tt) ∷ []) s in
      (lookup string_discrete k s'.entity_tactics ≡ lookup string_discrete k s.entity_tactics)
      × (lookup string_discrete k s'.fired_entities ≡ lookup string_discrete k s.fired_entities)
      × (s'.config ≡ s.config)
unfolding enforce_max_entities lookup
enforce-newest k [] s h room = ground arith
enforce-newest k ((j, u) ∷ l) s h room =
    let next : KillChainTracker = record s {
      entity_tactics = erase string_discrete j s.entity_tactics;
      fired_entities = erase string_discrete j s.fired_entities;
      eviction_count = s.eviction_count + 1;
    } in
    elim (Bool-cases (leb (suc (length (l ++ (k, tt) ∷ []))) s.config.max_entities)) [
      | inl fits ↦ ground arith
      | inr more ↦ ground (
        arith,
        enforce-newest k l next,
        lookup-erase string_discrete j k s.entity_tactics,
        lookup-erase string_discrete j k s.fired_entities,
      )
    ]

-- What `record_tactics` leaves for the entity of the alert.
pub record_tactics-state :
    (s : KillChainTracker) (alert : Alert)
    → 0 < s.config.max_entities
    → let s' = (record_tactics s alert).0 in
      (get_entity_state s' alert.entity_uuid ≡ tactics_after s alert)
      × (is_fired s' alert.entity_uuid ≡ still_fired s alert.entity_uuid alert.timestamp_ns)
      × (s'.config ≡ s.config)
unfolding record_tactics touch_entity get_entity_state is_fired tactics_after
record_tactics-state s alert room =
    let k = alert.entity_uuid in
    let s1 = evict_stale s k alert.timestamp_ns in
    let (state, fired, config) = evict_stale-state s k alert.timestamp_ns in
    let tactics =
      (add_tactics alert.mitre_tactics (alert.timestamp_ns, alert.alert_id)
        (get_entity_state s1 k)).0 in
    let s2 : KillChainTracker = record s1 {
      entity_tactics = insert string_discrete k tactics s1.entity_tactics;
      lru = move_to_end string_discrete k tt s1.lru;
    } in
    ground (
      arith,
      state,
      fired,
      config,
      enforce-newest k (erase string_discrete k s1.lru) s2
          (lookup-erase_self string_discrete k s1.lru),
      lookup-insert string_discrete k k tactics s1.entity_tactics,
    )
