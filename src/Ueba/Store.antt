-- ===== src/Ueba/Store.antt =====
-- src/seerflow/ueba/store.py, `BaselineStore`. What an event makes of a baseline, `apply_event` of
-- src/seerflow/ueba/baseline.py, and the bytes of the model store are parameters of the operations.
-- The `OrderedDict` is an association list, least recently learned entity first.
pub mod Capped
mod Tests
use seerflow.Base.{
  Bounds, List, Option, String, [], drop, if◌then◌else◌, length, lookup, ltb, move_to_end, none,
  some, string_discrete, ℕ, ◌+◌, ◌∷◌,
}
use seerflow.Models.Event.{SeerflowEvent}
use seerflow.Models.Alert.{EntityType}

pub record BaselineStore (Baseline : Type 0) : Type 0 where
  pub max_entities : ℕ
  pub baselines : List (String × Baseline)
  pub eviction_count : ℕ

module _ {Baseline : Type 0} where
  unfoldable pub init : ℕ → BaselineStore Baseline
  init max_entities = record { max_entities = max_entities; baselines = []; eviction_count = 0 }

  unfoldable pub get : BaselineStore Baseline → String → Option Baseline
  get s entity_uuid = lookup string_discrete entity_uuid s.baselines

  -- The last lines of `_learn_one`: one entry at most is popped.
  unfoldable pub store_baseline :
      BaselineStore Baseline → String → Baseline → BaselineStore Baseline
  store_baseline s entity_uuid new =
      let stored = move_to_end string_discrete entity_uuid new s.baselines in
      if ltb s.max_entities (length stored)
      then record s { baselines = drop 1 stored; eviction_count = s.eviction_count + 1 }
      else record s { baselines = stored }

  -- `restore`, given the entries decoded; the keys of a stored dictionary are distinct. `none` stands
  -- for no blob, or one that cannot be loaded or decoded.
  unfoldable pub restore :
      Option (List (String × Baseline)) → BaselineStore Baseline → BaselineStore Baseline × ℕ
  restore none s = (s, 0)
  restore (some items) s = (record s { baselines = items }, length items)

  unfoldable pub bounds : BaselineStore Baseline → Bounds
  bounds s = record {
    current = length s.baselines;
    cap = s.max_entities;
    evictions = s.eviction_count;
  }

  module _ (apply_event : Option Baseline → String → EntityType → SeerflowEvent → Baseline) where
    unfoldable pub learn_one :
        BaselineStore Baseline → String → EntityType → SeerflowEvent → BaselineStore Baseline
    unfolding get store_baseline
    learn_one s entity_uuid entity_type event =
        store_baseline s entity_uuid (apply_event (get s entity_uuid) entity_uuid entity_type event)

    -- The loop over `zip(refs, entity_types)`.
    unfoldable pub learn_all :
        BaselineStore Baseline
        → List String
        → List EntityType
        → SeerflowEvent
        → BaselineStore Baseline
    unfolding learn_one
    learn_all s [] types event = s
    learn_all s (ref ∷ refs) [] event = s
    learn_all s (ref ∷ refs) (type ∷ types) event =
        learn_all (learn_one s ref type event) refs types event

    abbrev first_baseline : BaselineStore Baseline → List String → Option Baseline
    first_baseline s [] = none
    first_baseline s (ref ∷ refs) = get s ref

    unfoldable pub snapshot_and_learn :
        BaselineStore Baseline
        → SeerflowEvent
        → List EntityType
        → BaselineStore Baseline × Option Baseline
    unfolding learn_all
    snapshot_and_learn s event entity_types =
        (learn_all s event.entity_refs entity_types event, first_baseline s event.entity_refs)
