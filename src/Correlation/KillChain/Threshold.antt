-- ===== src/Correlation/KillChain/Threshold.antt =====
-- Which thresholds an entity can reach.
use seerflow.Base.{
  AllValues-lookup, Bool-cases, List, Option-cases, String, [], ap, arith, inl, inr, length, lookup,
  refl, string_discrete, ◌<◌, ◌∙◌, ◌∷◌, ◌≡◌, ◌≤◌,
}
use seerflow.Models.Alert.{Alert}
use seerflow.Correlation.KillChain.{
  KillChainConfig, KillChainTracker, UuidLib, max_tactics_per_entity, init, record_alert,
  get_entity_state,
}
use seerflow.Correlation.KillChain.Invariant.{Fits, IsValid, init-IsValid}
use seerflow.Correlation.KillChain.Firing.{tactics_after}
use seerflow.Correlation.KillChain.Alerts.{is_recorded, record_alert_lem, record_alert-IsValid}
use seerflow.Correlation.KillChain.Sound.{untaken, record_alert-config}

-- A tracker after a sequence of alerts.
unfoldable pub record_alerts : UuidLib → KillChainTracker → List Alert → KillChainTracker
record_alerts lib s [] = s
record_alerts lib s (a ∷ alerts) = record_alerts lib (record_alert lib s a).0 alerts

record_alerts_keeps :
    (lib : UuidLib) (s : KillChainTracker) (alerts : List Alert)
    → IsValid s
    → 0 < s.config.tactic_threshold
    → 0 < s.config.max_entities
    → IsValid (record_alerts lib s alerts) × ((record_alerts lib s alerts).config ≡ s.config)
unfolding record_alerts
record_alerts_keeps lib s [] v positive room = (v, refl)
record_alerts_keeps lib s (a ∷ alerts) v positive room =
    let next = (record_alert lib s a).0 in
    let same = record_alert-config lib s a room in
    let (v', same') =
      record_alerts_keeps lib next alerts (record_alert-IsValid lib s a v positive room)
        (rw same positive) (rw same room) in
    (v', same' ∙ same)

pub record_alerts-IsValid :
    (lib : UuidLib) (config : KillChainConfig) (alerts : List Alert)
    → 0 < config.tactic_threshold
    → 0 < config.max_entities
    → IsValid (record_alerts lib (init config) alerts)
      × ((record_alerts lib (init config) alerts).config ≡ config)
unfolding init
record_alerts-IsValid lib config alerts positive room =
    record_alerts_keeps lib (init config) alerts (init-IsValid config) positive room

get_entity_state-le :
    (s : KillChainTracker) (k : String)
    → IsValid s
    → length (get_entity_state s k) ≤ max_tactics_per_entity
unfolding get_entity_state
get_entity_state-le s k v = elim (Option-cases (lookup string_discrete k s.entity_tactics)) [
  | inl absent ↦ ground arith
  | inr (tactics, found) ↦
      let fits =
        AllValues-lookup string_discrete Fits k s.entity_tactics v.consistent.tactics_fit found in
      ground (arith, fits.1)
]

-- A valid tracker with a cap of at least one entity and a threshold above the cap on tactics per
-- entity, 14, raises no alert.
pub record_alert_unreachable :
    (lib : UuidLib) (s : KillChainTracker) (alert : Alert)
    → IsValid s
    → 0 < s.config.max_entities
    → max_tactics_per_entity < s.config.tactic_threshold
    → (record_alert lib s alert).1 ≡ []
record_alert_unreachable lib s alert v room high = elim (Bool-cases (is_recorded s alert)) [
  | inr skipped ↦ ap (λ r. r.1) (untaken lib s alert skipped)
  | inl taken ↦
      let v' = record_alert-IsValid lib s alert v (omega arith) room in
      let few = get_entity_state-le (record_alert lib s alert).0 alert.entity_uuid v' in
      let same = (record_alert_lem lib s alert taken room).1 in
      let short : length (tactics_after s alert) ≤ max_tactics_per_entity = rw (← same) few in
      ground (arith, record_alert_lem lib s alert taken room)
]
