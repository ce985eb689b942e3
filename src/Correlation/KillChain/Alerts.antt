-- ===== src/Correlation/KillChain/Alerts.antt =====
-- The alerts of `record_alert`, and the invariant over the whole call.
use seerflow.Base.{
  All, All-append, All-keep_test, Bool, Bool-cases, List, Option-cases, String, [], ap, arith,
  if◌then◌else◌, inl, inr, insert, insert_absent, is_empty, length, lookup, lookup-insert, ltb,
  none, not, string_discrete, text_eq, true, ℕ, ◌&&◌, ◌*◌, ◌+◌, ◌<◌, ◌||◌, ◌∷◌, ◌≡◌, ◌≢◌,
}
use seerflow.Models.Alert.{Alert}
use seerflow.Correlation.KillChain.{
  KillChainTracker, UuidLib, check_threshold, record_tactics, record_alert, get_entity_state,
  is_fired, progression_alert, first_seen, Tactics, add_tactics, is_stale,
}
use seerflow.Correlation.KillChain.Invariant.{IsValid, record_tactics-IsValid}
use seerflow.Correlation.KillChain.Firing.{
  tactics_after, still_fired, record_tactics-state, fresh_tactics,
}

-- The test at the top of `record_alert`.
unfoldable pub is_recorded : KillChainTracker → Alert → Bool
is_recorded s alert =
    not (not s.config.enabled || is_empty alert.mitre_tactics || text_eq alert.entity_uuid "")

pub check_threshold_lem :
    (lib : UuidLib) (s : KillChainTracker) (k : String) (t : ℕ)
    → let quiet = ltb (length (get_entity_state s k)) s.config.tactic_threshold || is_fired s k in
      ((check_threshold lib s k t).1
        ≡ (if quiet then [] else progression_alert lib k t (get_entity_state s k) ∷ []))
      × (get_entity_state (check_threshold lib s k t).0 k ≡ get_entity_state s k)
      × (is_fired (check_threshold lib s k t).0 k ≡ (not quiet || is_fired s k))
unfolding check_threshold get_entity_state is_fired
check_threshold_lem lib s k t =
    ground (arith, lookup-insert string_discrete k k tt s.fired_entities)

-- On a tracker with a cap of at least one entity, an alert that is recorded makes it fire exactly
-- if the entity now has as many tactics as the threshold, those too old for the window dropped
-- first, and has not fired before without losing a tactic since; the entity's tactics are then as
-- computed.
pub record_alert_lem :
    (lib : UuidLib) (s : KillChainTracker) (alert : Alert)
    → is_recorded s alert ≡ true
    → 0 < s.config.max_entities
    → let k = alert.entity_uuid in
      let after = tactics_after s alert in
      let quiet =
        ltb (length after) s.config.tactic_threshold || still_fired s k alert.timestamp_ns in
      ((record_alert lib s alert).1
        ≡ (if quiet then [] else progression_alert lib k alert.timestamp_ns after ∷ []))
      × (get_entity_state (record_alert lib s alert).0 k ≡ after)
      × (is_fired (record_alert lib s alert).0 k
          ≡ (not quiet || still_fired s k alert.timestamp_ns))
unfolding record_alert is_recorded
record_alert_lem lib s alert taken room =
    let s' = (record_tactics s alert).0 in
    let k = alert.entity_uuid in
    let (state, fired, config) = record_tactics-state s alert room in
    ground (arith, state, fired, config, check_threshold_lem lib s' k alert.timestamp_ns)

-- The tactics that the tracker keeps after an alert were all seen within the window.
abbrev pub AllRecent : KillChainTracker → Alert → Type 0
AllRecent s alert =
    All (λ t. first_seen t + s.config.window_seconds * 1000000000 < alert.timestamp_ns → ⊥)
      (tactics_after s alert)

All-insert_entry :
    (P : String × (ℕ × String) → Type 0) (k : String) (v : ℕ × String) (d : Tactics)
    → P (k, v)
    → lookup string_discrete k d ≡ none
    → All P d
    → All P (insert string_discrete k v d)
All-insert_entry P k v d p absent h =
    rw (insert_absent string_discrete k v d absent) (All-append P d ((k, v) ∷ []) h (p, tt))

add_tactics-All :
    (P : String × (ℕ × String) → Type 0) (ts : List String) (seen : ℕ × String) (d : Tactics)
    → ((t : String) → P (t, seen))
    → All P d
    → All P (add_tactics ts seen d).0
unfolding add_tactics
add_tactics-All P [] seen d p h = h
add_tactics-All P (t ∷ ts) seen d p h = elim (Option-cases (lookup string_discrete t d)) [
  | inr (v, old) ↦ rw (old, add_tactics) (add_tactics-All P ts seen d p h)
  | inl new ↦ elim (Bool-cases (ltb (length d) 14)) [
    | inl room ↦
        rw (new, room, add_tactics)
          (add_tactics-All P ts seen (insert string_discrete t seen d) p
            (All-insert_entry P t seen d (p t) new h))
    | inr full ↦ rw (new, full, add_tactics) (add_tactics-All P ts seen d p h)
  ]
]

All-weaken :
    {A : Type 0} (P Q : A → Type 0) (xs : List A) → ((x : A) → P x → Q x) → All P xs → All Q xs
All-weaken P Q [] f h = tt
All-weaken P Q (x ∷ xs) f h = (f x h.0, All-weaken P Q xs f h.1)

pub tactics_after-AllRecent : (s : KillChainTracker) (alert : Alert) → AllRecent s alert
unfolding tactics_after fresh_tactics is_stale first_seen
tactics_after-AllRecent s alert =
    let now = alert.timestamp_ns in
    let window = s.config.window_seconds in
    add_tactics-All (λ t. first_seen t + window * 1000000000 < now → ⊥) alert.mitre_tactics
      (now, alert.alert_id) (fresh_tactics s alert.entity_uuid now) (λ t h. omega arith)
      (All-weaken (λ t. not (is_stale window now t) ≡ true) _
        (fresh_tactics s alert.entity_uuid now) (λ t h late. ground arith)
        (All-keep_test (λ t. not (is_stale window now t)) (get_entity_state s alert.entity_uuid)))

mark-IsValid :
    (s : KillChainTracker) (k : String)
    → IsValid s
    → get_entity_state s k ≢ []
    → IsValid (record s { fired_entities = insert string_discrete k tt s.fired_entities })
unfolding get_entity_state
mark-IsValid s k v some_state = record {
  consistent = record {
    lru_unique = v.consistent.lru_unique;
    tactics_unique = v.consistent.tactics_unique;
    tactics_fit = v.consistent.tactics_fit;
    kept = v.consistent.kept;
    listed = λ j h. (
      (v.consistent.listed j h).0,
      ground (
        arith,
        v.consistent.listed j h,
        some_state,
        lookup-insert string_discrete k j tt s.fired_entities,
      ),
    );
  };
  entities = v.entities;
}

check_threshold-IsValid :
    (lib : UuidLib) (s : KillChainTracker) (k : String) (t : ℕ)
    → IsValid s
    → 0 < s.config.tactic_threshold
    → IsValid (check_threshold lib s k t).0
unfolding check_threshold
check_threshold-IsValid lib s k t v positive =
    let state = get_entity_state s k in
    elim (Bool-cases (ltb (length state) s.config.tactic_threshold)) [
      | inl few ↦ rw few v
      | inr enough ↦ elim (Bool-cases (is_fired s k)) [
        | inl fired ↦ rw (enough, fired) v
        | inr not_yet ↦
            rw (enough, not_yet)
              (mark-IsValid s k v
                (λ e. let zero_length : length state ≡ 0 = ap length e in ground arith))
      ]
    ]

-- `record_alert` keeps the invariant of a tracker whose threshold and cap are at least one: the
-- dictionary has an entry for exactly the entities in the order of use, only these are in the fired
-- set, no entity or tactic stands twice, at most 14 tactics to an entity, and no more entities than
-- the cap.
pub record_alert-IsValid :
    (lib : UuidLib) (s : KillChainTracker) (alert : Alert)
    → IsValid s
    → 0 < s.config.tactic_threshold
    → 0 < s.config.max_entities
    → IsValid (record_alert lib s alert).0
unfolding record_alert
record_alert-IsValid lib s alert v positive room =
    let taken =
      not s.config.enabled || is_empty alert.mitre_tactics || text_eq alert.entity_uuid "" in
    let s' = (record_tactics s alert).0 in
    let v' = record_tactics-IsValid s alert v.consistent in
    let (state, fired, config) = record_tactics-state s alert room in
    elim (Bool-cases taken) [
      | inl skip ↦ rw skip v
      | inr goes ↦
          elim (Bool-cases (not (record_tactics s alert).1 && is_fired s' alert.entity_uuid)) [
            | inl same ↦ rw (goes, same) v'
            | inr new ↦
                rw (goes, new)
                  (check_threshold-IsValid lib s' alert.entity_uuid alert.timestamp_ns v'
                    (rw config positive))
          ]
    ]
