-- ===== src/Ueba/Store/Capped.antt =====
-- The store against a bounded least-recently-used map, and a restored store above its cap.
use seerflow.Base.{
  Bool-cases, IsDict, List, Option, String, [], ap, arith, drop, erase, erase_absent, excess, inl,
  inr, length, length-append, length-drop, length-erase-le, length-lru_put-le, lookup, lru_put,
  lru_put-IsDict, ltb, move_to_end, none, some, string_discrete, subst, sym, trim_oldest-drop,
  trim_oldest-lru_put, ℕ, ◌++◌, ◌+◌, ◌-◌, ◌<◌, ◌∙◌, ◌∷◌, ◌≡◌, ◌≤◌,
}
use seerflow.Models.Event.{SeerflowEvent}
use seerflow.Models.Alert.{EntityType}
use seerflow.Ueba.Store.{
  BaselineStore, get, store_baseline, restore, learn_one, learn_all, snapshot_and_learn,
}

module _ {Baseline : Type 0} where
  pub record IsValid (s : BaselineStore Baseline) : Type 0 where
    pub unique : IsDict string_discrete s.baselines
    pub entities : length s.baselines ≤ s.max_entities
    pub room : 0 < s.max_entities

  unfoldable pub after_store : BaselineStore Baseline → String → Baseline → BaselineStore Baseline
  after_store s k new = record s {
    baselines = lru_put string_discrete s.max_entities k new s.baselines;
    eviction_count = s.eviction_count + excess string_discrete s.max_entities k s.baselines;
  }

  -- The store with the oldest `n` of the entries dropped and counted.
  abbrev cut : BaselineStore Baseline → List (String × Baseline) → ℕ → BaselineStore Baseline
  cut s stored n = record s { baselines = drop n stored; eviction_count = s.eviction_count + n }

  abbrev with_entries :
      BaselineStore Baseline → List (String × Baseline) × ℕ → BaselineStore Baseline
  with_entries s p = record s { baselines = p.0; eviction_count = p.1 }

  cut-after_store :
      (s : BaselineStore Baseline) (k : String) (new : Baseline) (n : ℕ)
      → IsValid s
      → length (move_to_end string_discrete k new s.baselines) - s.max_entities ≡ n
      → cut s (move_to_end string_discrete k new s.baselines) n ≡ after_store s k new
  unfolding after_store
  cut-after_store s k new n v is_n =
      let stored = move_to_end string_discrete k new s.baselines in
      subst (λ m. cut s stored m ≡ after_store s k new) is_n
        (ap (with_entries s) (
          sym (trim_oldest-drop s.max_entities stored s.eviction_count)
          ∙ trim_oldest-lru_put string_discrete s.max_entities k new s.baselines s.eviction_count
              v.room))

  store_baseline-after_store :
      (s : BaselineStore Baseline) (k : String) (new : Baseline)
      → IsValid s
      → store_baseline s k new ≡ after_store s k new
  unfolding store_baseline
  store_baseline-after_store s k new v =
      let rest = erase string_discrete k s.baselines in
      let stored = move_to_end string_discrete k new s.baselines in
      let small : length rest ≤ s.max_entities =
        omega (arith, v.entities, length-erase-le string_discrete k s.baselines) in
      let size = length-append rest ((k, new) ∷ []) in
      elim (Bool-cases (ltb s.max_entities (length stored))) [
        | inl over ↦
            let one : length stored - s.max_entities ≡ 1 = ground (arith, size) in
            rw (over, store_baseline) (cut-after_store s k new 1 v one)
        | inr fits ↦
            let nothing : length stored - s.max_entities ≡ 0 = ground arith in
            let same : s.eviction_count ≡ s.eviction_count + 0 = omega arith in
            rw (fits, store_baseline)
              (ap (λ n. with_entries s (stored, n)) same ∙ cut-after_store s k new 0 v nothing)
      ]

  after_store-IsValid :
      (s : BaselineStore Baseline) (k : String) (new : Baseline)
      → IsValid s
      → IsValid (after_store s k new)
  unfolding after_store
  after_store-IsValid s k new v = record {
    unique = lru_put-IsDict string_discrete s.max_entities k new s.baselines v.unique;
    entities = length-lru_put-le string_discrete s.max_entities k new s.baselines v.room;
    room = v.room;
  }

  module _ (apply_event : Option Baseline → String → EntityType → SeerflowEvent → Baseline) where
    learn_one-IsValid :
        (s : BaselineStore Baseline) (k : String) (type : EntityType) (event : SeerflowEvent)
        → IsValid s
        → IsValid (learn_one apply_event s k type event)
    unfolding learn_one
    learn_one-IsValid s k type event v =
        let new = apply_event (get s k) k type event in
        subst IsValid (sym (store_baseline-after_store s k new v)) (after_store-IsValid s k new v)

    learn_all-IsValid :
        (s : BaselineStore Baseline) (refs : List String) (types : List EntityType)
        → (event : SeerflowEvent) → IsValid s
        → IsValid (learn_all apply_event s refs types event)
    unfolding learn_all
    learn_all-IsValid s [] types event v = v
    learn_all-IsValid s (ref ∷ refs) [] event v = v
    learn_all-IsValid s (ref ∷ refs) (type ∷ types) event v =
        learn_all-IsValid (learn_one apply_event s ref type event) refs types event
          (learn_one-IsValid s ref type event v)

    -- On a valid store with room for one entity, learning an entity is the write of a bounded
    -- least-recently-used map with its baseline updated by the event, and the oldest baselines that
    -- then are too many are dropped and counted; and `snapshot_and_learn` keeps the store valid: no
    -- entity twice, and no more entities than the cap.
    pub learn_one-after_store :
        (s : BaselineStore Baseline) (k : String) (type : EntityType) (event : SeerflowEvent)
        → (types : List EntityType) → IsValid s
        → (learn_one apply_event s k type event
            ≡ after_store s k (apply_event (get s k) k type event))
          × IsValid (snapshot_and_learn apply_event s event types).0
    unfolding learn_one snapshot_and_learn
    learn_one-after_store s k type event types v = (
      store_baseline-after_store s k (apply_event (get s k) k type event) v,
      learn_all-IsValid s event.entity_refs types event v,
    )

    -- A store restored with more entities than its cap stays above the cap: each new entity learned
    -- drops one only, so the number of entities is as before.
    pub restore-learn_one :
        (s : BaselineStore Baseline) (items : List (String × Baseline)) (k : String)
        → (type : EntityType) (event : SeerflowEvent) → s.max_entities < length items
        → lookup string_discrete k items ≡ none
        → let restored = (restore (some items) s).0 in
          (length restored.baselines ≡ length items)
          × (length (learn_one apply_event restored k type event).baselines ≡ length items)
    unfolding restore learn_one store_baseline
    restore-learn_one s items k type event over new =
        let b = apply_event (lookup string_discrete k items) k type event in
        let x = apply_event (get (restore (some items) s).0 k) k type event in
        ground (
          arith,
          erase_absent string_discrete k items new,
          length-append items ((k, x) ∷ []),
          length-drop 1 (items ++ (k, x) ∷ []),
        )
