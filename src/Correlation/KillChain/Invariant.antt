-- ===== src/Correlation/KillChain/Invariant.antt =====
-- The invariant of the kill-chain tracker.
use seerflow.Base.{
  AllValues, AllValues-erase, AllValues-insert, AllValues-lookup, Bool, Bool-cases, IsDict, List,
  Option-cases, String, [], arith, erase, erase-IsDict, inl, inr, insert, insert-IsDict, keep, leb,
  length, length-insert_new, length-keep-le, lookup, lookup-erase, lookup-insert,
  lookup-move_to_end, ltb, move_to_end-IsDict, none, not, refl, string_discrete, suc, ℕ, ◌+◌, ◌∷◌,
  ◌≡◌, ◌≤◌,
}
use seerflow.Models.Alert.{Alert}
use seerflow.Correlation.KillChain.{
  KillChainConfig, KillChainTracker, Names, Tactics, max_tactics_per_entity, init, evict_stale,
  is_stale, add_tactics, touch_entity, enforce_max_entities, record_tactics, get_entity_state,
}

-- An entity's tactics: no tactic twice, and at most the cap.
abbrev pub Fits : Tactics → Type 0
Fits tactics = IsDict string_discrete tactics × (length tactics ≤ max_tactics_per_entity)

-- The invariant but for the cap on entities, which holds again after `enforce_max_entities`.
pub record IsConsistent (s : KillChainTracker) : Type 0 where
  pub lru_unique : IsDict string_discrete s.lru
  pub tactics_unique : IsDict string_discrete s.entity_tactics
  pub tactics_fit : AllValues string_discrete Fits s.entity_tactics
  pub listed :
      (k : String)
      → lookup string_discrete k s.lru ≡ none
      → (lookup string_discrete k s.entity_tactics ≡ none)
        × (lookup string_discrete k s.fired_entities ≡ none)
  pub kept :
      (k : String)
      → lookup string_discrete k s.entity_tactics ≡ none
      → lookup string_discrete k s.lru ≡ none

pub record IsValid (s : KillChainTracker) : Type 0 where
  pub consistent : IsConsistent s
  pub entities : length s.lru ≤ s.config.max_entities

pub init-IsValid : (c : KillChainConfig) → IsValid (init c)
unfolding init lookup
init-IsValid c = record {
  consistent = record {
    lru_unique = tt;
    tactics_unique = tt;
    tactics_fit = tt;
    listed = λ k h. (refl, refl);
    kept = λ k h. refl;
  };
  entities = omega arith;
}

keep-lookup-none :
    (p : String × (ℕ × String) → Bool) (k : String) (d : Tactics)
    → lookup string_discrete k d ≡ none
    → lookup string_discrete k (keep p d) ≡ none
unfolding keep lookup
keep-lookup-none p k [] h = refl
keep-lookup-none p k ((j, v) ∷ d) h = ground (arith, keep-lookup-none p k d)

keep-IsDict :
    (p : String × (ℕ × String) → Bool) (d : Tactics)
    → IsDict string_discrete d
    → IsDict string_discrete (keep p d)
unfolding keep
keep-IsDict p [] u = tt
keep-IsDict p ((j, v) ∷ d) u = ground (arith, keep-IsDict p d u.1, keep-lookup-none p j d u.0)

keep-Fits : (p : String × (ℕ × String) → Bool) (d : Tactics) → Fits d → Fits (keep p d)
keep-Fits p d (u, le) = (keep-IsDict p d u, omega (arith, le, length-keep-le p d))

pub add_tactics-Fits :
    (ts : List String) (seen : ℕ × String) (d : Tactics) → Fits d → Fits (add_tactics ts seen d).0
unfolding add_tactics
add_tactics-Fits [] seen d h = h
add_tactics-Fits (t ∷ ts) seen d h = elim (Option-cases (lookup string_discrete t d)) [
  | inr (v, old) ↦ rw (old, add_tactics) (add_tactics-Fits ts seen d h)
  | inl new ↦ elim (Bool-cases (ltb (length d) max_tactics_per_entity)) [
    | inl room ↦
        rw (new, room, add_tactics)
          (add_tactics-Fits ts seen (insert string_discrete t seen d) (
            insert-IsDict string_discrete t seen d h.0,
            ground (arith, length-insert_new string_discrete t seen d new),
          ))
    | inr full ↦ rw (new, full, add_tactics) (add_tactics-Fits ts seen d h)
  ]
]

evict_stale-IsConsistent :
    (s : KillChainTracker) (k : String) (now : ℕ)
    → IsConsistent s
    → IsConsistent (evict_stale s k now)
unfolding evict_stale
evict_stale-IsConsistent s k now v =
    elim (Option-cases (lookup string_discrete k s.entity_tactics)) [
      | inl e ↦ rw (e, evict_stale) v
      | inr (tactics, e) ↦
          let stale = is_stale s.config.window_seconds now in
          let left = keep (λ t. not (stale t)) tactics in
          let fit : Fits tactics =
            AllValues-lookup string_discrete Fits k s.entity_tactics v.tactics_fit e in
          rw (e, evict_stale)
            (record {
              lru_unique = v.lru_unique;
              tactics_unique =
                  insert-IsDict string_discrete k left s.entity_tactics v.tactics_unique;
              tactics_fit =
                  AllValues-insert string_discrete Fits k left s.entity_tactics
                    (keep-Fits (λ t. not (stale t)) tactics fit) v.tactics_fit;
              listed = λ j h. (
                ground
                    (arith, v.listed j h, lookup-insert string_discrete k j left s.entity_tactics),
                ground (arith, v.listed j h, lookup-erase string_discrete k j s.fired_entities),
              );
              kept = λ j h.
                  ground (arith, v.kept j, lookup-insert string_discrete k j left s.entity_tactics);
            })
    ]

-- The entity's tactics are written, and the entity becomes the newest.
record_new-IsConsistent :
    (s : KillChainTracker) (k : String) (tactics : Tactics)
    → IsConsistent s
    → Fits tactics
    → IsConsistent (
        touch_entity
          (record s { entity_tactics = insert string_discrete k tactics s.entity_tactics })
          k)
unfolding touch_entity
record_new-IsConsistent s k tactics v fit = record {
  lru_unique = move_to_end-IsDict string_discrete k tt s.lru v.lru_unique;
  tactics_unique = insert-IsDict string_discrete k tactics s.entity_tactics v.tactics_unique;
  tactics_fit = AllValues-insert string_discrete Fits k tactics s.entity_tactics fit v.tactics_fit;
  listed = λ j h. (
    ground (
      arith,
      v.listed j,
      lookup-move_to_end string_discrete k j tt s.lru,
      lookup-insert string_discrete k j tactics s.entity_tactics,
    ),
    ground (arith, v.listed j, lookup-move_to_end string_discrete k j tt s.lru),
  );
  kept = λ j h. ground (
    arith,
    v.kept j,
    lookup-move_to_end string_discrete k j tt s.lru,
    lookup-insert string_discrete k j tactics s.entity_tactics,
  );
}

-- The oldest entity is dropped from the tactics and the fired set as it leaves the list.
drop_first-IsConsistent :
    (s : KillChainTracker) (oldest : String) (u : Unit {0}) (rest : Names)
    → IsConsistent (record s { lru = (oldest, u) ∷ rest })
    → IsConsistent (record s {
      lru = rest;
      entity_tactics = erase string_discrete oldest s.entity_tactics;
      fired_entities = erase string_discrete oldest s.fired_entities;
      eviction_count = s.eviction_count + 1;
    })
unfolding lookup
drop_first-IsConsistent s oldest u rest v = record {
  lru_unique = v.lru_unique.1;
  tactics_unique = erase-IsDict string_discrete oldest s.entity_tactics v.tactics_unique;
  tactics_fit = AllValues-erase string_discrete Fits oldest s.entity_tactics v.tactics_fit;
  listed = λ j h. (
    ground (arith, v.listed j, lookup-erase string_discrete oldest j s.entity_tactics),
    ground (arith, v.listed j, lookup-erase string_discrete oldest j s.fired_entities),
  );
  kept = λ j h.
      ground
        (arith, v.kept j, v.lru_unique.0, lookup-erase string_discrete oldest j s.entity_tactics);
}

enforce-IsValid :
    (l : Names) (s : KillChainTracker)
    → IsConsistent (record s { lru = l })
    → IsValid (enforce_max_entities l s) × ((enforce_max_entities l s).config ≡ s.config)
unfolding enforce_max_entities
enforce-IsValid [] s v = (record { consistent = v; entities = omega arith }, refl)
enforce-IsValid ((oldest, u) ∷ rest) s v =
    elim (Bool-cases (leb (suc (length rest)) s.config.max_entities)) [
      | inl fits ↦
          rw (fits, enforce_max_entities) (record { consistent = v; entities = ground arith }, refl)
      | inr more ↦
          rw (more, enforce_max_entities)
            (enforce-IsValid rest
              (record s {
                entity_tactics = erase string_discrete oldest s.entity_tactics;
                fired_entities = erase string_discrete oldest s.fired_entities;
                eviction_count = s.eviction_count + 1;
              })
              (drop_first-IsConsistent s oldest u rest v))
    ]

state_Fits : (s : KillChainTracker) (k : String) → IsConsistent s → Fits (get_entity_state s k)
unfolding get_entity_state
state_Fits s k v = elim (Option-cases (lookup string_discrete k s.entity_tactics)) [
  | inl e ↦ rw (e, get_entity_state) (tt, omega arith)
  | inr (tactics, e) ↦
      rw (e, get_entity_state)
        (AllValues-lookup string_discrete Fits k s.entity_tactics v.tactics_fit e)
]

pub record_tactics-IsValid :
    (s : KillChainTracker) (alert : Alert) → IsConsistent s → IsValid (record_tactics s alert).0
unfolding record_tactics
record_tactics-IsValid s alert v =
    let k = alert.entity_uuid in
    let s1 = evict_stale s k alert.timestamp_ns in
    let v1 = evict_stale-IsConsistent s k alert.timestamp_ns v in
    let added =
      add_tactics alert.mitre_tactics (alert.timestamp_ns, alert.alert_id)
        (get_entity_state s1 k) in
    (enforce-IsValid _ _ (
      record_new-IsConsistent s1 k added.0 v1 (
        add_tactics-Fits alert.mitre_tactics (alert.timestamp_ns, alert.alert_id)
          (get_entity_state s1 k) (state_Fits s1 k v1)))).0
