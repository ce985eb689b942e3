-- ===== src/Correlation/Window.antt =====
-- src/seerflow/correlation/window.py, `EntityWindowBuffer`. The dictionary of deques is an
-- association list, least recently used entity first. `now` is what a call of `clock_ns` returns.
-- A comparison with the cutoff `now - window_ns`, which may be negative, has the window moved to its
-- other side.
pub mod Invariant
pub mod Queries
pub mod Pruning
mod Tests
use seerflow.Base.{
  Bool, Bounds, List, Option, String, [], append_bounded, contains, erase, evict_oldest,
  if◌then◌else◌, insert, is_empty, keep, leb, length, lookup, ltb, move_to_end, none, some, sorted,
  string_discrete, true, ℕ, ◌&&◌, ◌+◌, ◌∷◌,
}
use seerflow.Models.Event.{SeerflowEvent}
use seerflow.Models.Query.{TimeRange}

abbrev pub Buffers : Type 0
Buffers = List (String × List SeerflowEvent)

pub record EntityWindowBuffer : Type 0 where
  pub window_ns : ℕ
  pub max_events : ℕ
  pub max_entities : ℕ
  pub buffers : Buffers
  pub eviction_count : ℕ

unfoldable pub init : ℕ → ℕ → ℕ → EntityWindowBuffer
init window_ns max_events max_entities = record {
  window_ns = window_ns;
  max_events = max_events;
  max_entities = max_entities;
  buffers = [];
  eviction_count = 0;
}

-- `none` is a StopIteration, which a cap of 0 entities raises.
unfoldable pub add_event : EntityWindowBuffer → String → SeerflowEvent → Option EntityWindowBuffer
unfolding append_bounded
add_event b entity_uuid event = elim (lookup string_discrete entity_uuid b.buffers) [
  | some buf ↦ some (record b {
    buffers =
        insert string_discrete entity_uuid (append_bounded b.max_events buf event)
          (move_to_end string_discrete entity_uuid buf b.buffers);
  })
  | none ↦ elim (evict_oldest b.max_entities b.buffers b.eviction_count) [
    | none ↦ none
    | some (rest, evictions) ↦ some (record b {
      buffers =
          insert string_discrete entity_uuid (append_bounded b.max_events [] event)
            (insert string_discrete entity_uuid [] rest);
      eviction_count = evictions;
    })
  ]
]

-- `while buf and buf[0].timestamp_ns < cutoff: buf.popleft()`
unfoldable pub expire : ℕ → ℕ → List SeerflowEvent → List SeerflowEvent
expire window now [] = []
expire window now (e ∷ es) =
    let rest = expire window now es in if ltb (e.timestamp_ns + window) now then rest else e ∷ es

unfoldable pub in_range : Option TimeRange → SeerflowEvent → Bool
in_range none e = true
in_range (some r) e = leb r.start_ns e.timestamp_ns && leb e.timestamp_ns r.end_ns

unfoldable pub of_source : Option (List String) → SeerflowEvent → Bool
unfolding contains
of_source none e = true
of_source (some types) e = contains e.source_type types

-- The rest of `query`, once the deque is pruned: an empty one is deleted, and else the events are
-- filtered by range, then by source, and sorted.
unfoldable pub answer :
    EntityWindowBuffer
    → String
    → Option TimeRange
    → Option (List String)
    → List SeerflowEvent
    → EntityWindowBuffer × List SeerflowEvent
answer b entity_uuid range source_types [] =
    (record b { buffers = erase string_discrete entity_uuid b.buffers }, [])
answer b entity_uuid range source_types (e ∷ es) = (
  record b { buffers = insert string_discrete entity_uuid (e ∷ es) b.buffers },
  sorted (λ x. x.timestamp_ns) (keep (of_source source_types) (keep (in_range range) (e ∷ es))),
)

unfoldable pub query :
    EntityWindowBuffer
    → ℕ
    → String
    → Option TimeRange
    → Option (List String)
    → EntityWindowBuffer × List SeerflowEvent
unfolding answer
query b now entity_uuid range source_types = elim (lookup string_discrete entity_uuid b.buffers) [
  | none ↦ (b, [])
  | some buf ↦ answer b entity_uuid range source_types (expire b.window_ns now buf)
]

-- The two loops of `prune`: expire each buffer, then delete the entities that have none left.
unfoldable pub prune_buffers : ℕ → ℕ → Buffers → Buffers
prune_buffers window now [] = []
prune_buffers window now ((k, buf) ∷ bs) =
    let rest = prune_buffers window now bs in
    if is_empty (expire window now buf) then rest else (k, expire window now buf) ∷ rest

unfoldable pub prune : EntityWindowBuffer → ℕ → EntityWindowBuffer
unfolding prune_buffers
prune b now = record b { buffers = prune_buffers b.window_ns now b.buffers }

unfoldable pub total_events : Buffers → ℕ
total_events [] = 0
total_events ((k, buf) ∷ bs) = length buf + total_events bs

-- `stats()`: the entity count and the total of events.
unfoldable pub stats : EntityWindowBuffer → ℕ × ℕ
unfolding total_events
stats b = (length b.buffers, total_events b.buffers)

unfoldable pub bounds : EntityWindowBuffer → Bounds
bounds b = record { current = length b.buffers; cap = b.max_entities; evictions = b.eviction_count }
