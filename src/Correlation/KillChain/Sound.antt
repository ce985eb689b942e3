-- ===== src/Correlation/KillChain/Sound.antt =====
-- What an alert of the kill-chain tracker stands for, and when it is repeated.
use seerflow.Base.{
  Bool-cases, List, [], ap, arith, false, inl, inr, keys, length, length-map, length-sorted, refl,
  sorted, true, ◌<◌, ◌∷◌, ◌≡◌, ◌≤◌,
}
use seerflow.Models.Alert.{Alert}
use seerflow.Correlation.KillChain.{
  KillChainTracker, UuidLib, record_alert, progression_alert, first_seen, check_threshold, is_fired,
}
use seerflow.Correlation.KillChain.Firing.{
  record_tactics-state, stale_tactics, tactics_after, still_fired,
}
use seerflow.Correlation.KillChain.Alerts.{
  AllRecent, is_recorded, record_alert_lem, tactics_after-AllRecent,
}

pub untaken :
    (lib : UuidLib) (s : KillChainTracker) (alert : Alert)
    → is_recorded s alert ≡ false
    → record_alert lib s alert ≡ (s, [])
unfolding record_alert is_recorded
untaken lib s alert h = ground arith

was_taken :
    (lib : UuidLib) (s : KillChainTracker) (alert x : Alert) (more : List Alert)
    → (record_alert lib s alert).1 ≡ x ∷ more
    → is_recorded s alert ≡ true
was_taken lib s alert x more fired = elim (Bool-cases (is_recorded s alert)) [
  | inl taken ↦ taken
  | inr skipped ↦ cc (ap (λ r. r.1) (untaken lib s alert skipped))
]

pub record_alert-config :
    (lib : UuidLib) (s : KillChainTracker) (alert : Alert)
    → 0 < s.config.max_entities
    → (record_alert lib s alert).0.config ≡ s.config
unfolding record_alert check_threshold
record_alert-config lib s alert room = ground (arith, (record_tactics-state s alert room).2)

fired_shape :
    (lib : UuidLib) (s : KillChainTracker) (alert x : Alert) (more : List Alert)
    → is_recorded s alert ≡ true
    → 0 < s.config.max_entities
    → (record_alert lib s alert).1 ≡ x ∷ more
    → (x ≡ progression_alert lib alert.entity_uuid alert.timestamp_ns (tactics_after s alert))
      × (more ≡ [])
      × (s.config.tactic_threshold ≤ length (tactics_after s alert))
fired_shape lib s alert x more taken room fired =
    ground (arith, (record_alert_lem lib s alert taken room).0)

-- With a cap of at least one entity, an alert that `record_alert` returns is the only one, is of
-- the entity and the time of the alert recorded, names at least as many tactics as the threshold,
-- all of them seen within the window, and has a risk score of at most 1.
pub record_alert_sound :
    (lib : UuidLib) (s : KillChainTracker) (alert x : Alert) (more : List Alert)
    → 0 < s.config.max_entities
    → (record_alert lib s alert).1 ≡ x ∷ more
    → (more ≡ [])
      × (x.entity_uuid ≡ alert.entity_uuid)
      × (x.timestamp_ns ≡ alert.timestamp_ns)
      × (s.config.tactic_threshold ≤ length x.mitre_tactics)
      × (x.mitre_tactics ≡ keys (sorted first_seen (tactics_after s alert)))
      × AllRecent s alert
      × (x.risk_score ≤ 1000)
unfolding progression_alert
record_alert_sound lib s alert x more room fired =
    let after = tactics_after s alert in
    let taken = was_taken lib s alert x more fired in
    let (is_x, alone, enough) = fired_shape lib s alert x more taken room fired in
    rw is_x (
      alone,
      refl,
      refl,
      omega
          (arith, length-map (sorted first_seen after) (λ t. t.0), length-sorted first_seen after),
      refl,
      tactics_after-AllRecent s alert,
      omega arith,
    )

-- With a cap of at least one entity, once an entity has fired, the next alert on it is silent as
-- long as no recorded tactic has aged out of the window, also when it brings new tactics.
pub record_alert_once :
    (lib : UuidLib) (s : KillChainTracker) (first next x : Alert) (more : List Alert)
    → 0 < s.config.max_entities
    → next.entity_uuid ≡ first.entity_uuid
    → (record_alert lib s first).1 ≡ x ∷ more
    → stale_tactics (record_alert lib s first).0 next.entity_uuid next.timestamp_ns ≡ []
    → (record_alert lib (record_alert lib s first).0 next).1 ≡ []
unfolding still_fired
record_alert_once lib s first next x more room same fired none_stale =
    let s1 = (record_alert lib s first).0 in
    let taken = was_taken lib s first x more fired in
    let marked : is_fired s1 first.entity_uuid ≡ true =
      ground (arith, record_alert_lem lib s first taken room) in
    let still : still_fired s1 next.entity_uuid next.timestamp_ns ≡ true =
      rw (none_stale, same, marked) refl in
    let room1 : 0 < s1.config.max_entities = rw (record_alert-config lib s first room) room in
    elim (Bool-cases (is_recorded s1 next)) [
      | inr skipped ↦ ap (λ r. r.1) (untaken lib s1 next skipped)
      | inl again ↦ ground (arith, still, record_alert_lem lib s1 next again room1)
    ]
