-- ===== src/Correlation/Window/Invariant.antt =====
-- The invariant of the window buffer, and `add_event` against a bounded least-recently-used map.
use seerflow.Base.{
  AllValues, IsDict, List, Option-cases, String, [], append_bounded, arith, evict_oldest-drop,
  excess, excess_new, excess_old, inl, inr, ite, length, length-append_bounded, length-erase-le,
  length-lru_put-le, lookup, lookup-lru_put, lru_put, lru_put-AllValues, lru_put-IsDict,
  lru_put_fresh, lru_put_old, none, some, some-injective, string_discrete, sym, ℕ, ◌+◌, ◌<◌, ◌∙◌,
  ◌≡◌, ◌≤◌,
}
use seerflow.Models.Event.{SeerflowEvent}
use seerflow.Correlation.Window.{EntityWindowBuffer, init, add_event}

-- A deque is never empty, and never longer than its cap.
abbrev pub Fits : ℕ → List SeerflowEvent → Type 0
Fits cap buf = (0 < length buf) × (length buf ≤ cap)

pub record IsValid (b : EntityWindowBuffer) : Type 0 where
  pub unique : IsDict string_discrete b.buffers
  pub entities : length b.buffers ≤ b.max_entities
  pub events : AllValues string_discrete (Fits b.max_events) b.buffers

pub init-IsValid : (w e n : ℕ) → IsValid (init w e n)
unfolding init
init-IsValid w e n = omega arith

-- The events of an entity; none if it is not tracked.
unfoldable pub events_of : EntityWindowBuffer → String → List SeerflowEvent
events_of b k = elim (lookup string_discrete k b.buffers) [ none ↦ [] | some buf ↦ buf ]

-- The buffer after an event, written with the bounded map.
unfoldable pub after_event : EntityWindowBuffer → String → SeerflowEvent → EntityWindowBuffer
after_event b k event = record b {
  buffers =
      lru_put string_discrete b.max_entities k (append_bounded b.max_events (events_of b k) event)
        b.buffers;
  eviction_count = b.eviction_count + excess string_discrete b.max_entities k b.buffers;
}

-- On a valid buffer with room for one entity `add_event` raises nothing, and is the write of a
-- bounded least-recently-used map: the event is appended to the entity's deque, the entity becomes
-- the newest, and the oldest entities are dropped and counted until all fit.
pub add_event-after_event :
    (b : EntityWindowBuffer) (k : String) (event : SeerflowEvent)
    → IsValid b
    → 0 < b.max_entities
    → add_event b k event ≡ some (after_event b k event)
unfolding add_event after_event events_of
add_event-after_event b k event v room = elim (Option-cases (lookup string_discrete k b.buffers)) [
  | inl new ↦ ground (
    arith,
    evict_oldest-drop b.max_entities b.buffers b.eviction_count room,
    excess_new string_discrete b.max_entities k b.buffers new,
    lru_put_fresh string_discrete b.max_entities k (append_bounded b.max_events [] event) []
        b.buffers new,
  )
  | inr (buf, old) ↦ ground (
    arith,
    excess_old string_discrete b.max_entities k b.buffers {v = buf} v.unique old v.entities,
    lru_put_old string_discrete b.max_entities k (append_bounded b.max_events buf event) buf
        b.buffers v.unique old v.entities,
  )
]

-- On a valid buffer whose caps are at least one `add_event` raises nothing and keeps the
-- invariant: no entity twice, no more entities than the cap, and every deque filled with at least
-- one event and at most the cap.
pub add_event-IsValid :
    (b : EntityWindowBuffer) (k : String) (event : SeerflowEvent)
    → IsValid b
    → 0 < b.max_entities
    → 0 < b.max_events
    → (b' : EntityWindowBuffer) × (add_event b k event ≡ some b') × IsValid b'
unfolding after_event
add_event-IsValid b k event v room some_event = (
  after_event b k event,
  add_event-after_event b k event v room,
  record {
    unique = lru_put-IsDict string_discrete b.max_entities k _ b.buffers v.unique;
    entities = length-lru_put-le string_discrete b.max_entities k _ b.buffers room;
    events =
        lru_put-AllValues string_discrete (Fits b.max_events) b.max_entities k
          (append_bounded b.max_events (events_of b k) event) b.buffers
          (omega (arith, length-append_bounded b.max_events (events_of b k) event)) v.events;
  },
)

-- On a valid buffer with room for one entity more, after `add_event` the deque of the entity is
-- the old one with the event appended and cut to the cap, and the deques of all other entities
-- are as before.
pub events_of-add_event :
    (b b' : EntityWindowBuffer) (k j : String) (event : SeerflowEvent)
    → IsValid b
    → length b.buffers < b.max_entities
    → add_event b k event ≡ some b'
    → events_of b' j
      ≡ ite
          (string_discrete k j)
          (append_bounded b.max_events (events_of b k) event)
          (events_of b j)
unfolding events_of after_event
events_of-add_event b b' k j event v room added =
    let new = append_bounded b.max_events (events_of b k) event in
    let same : after_event b k event ≡ b' =
      some-injective _ _ (sym (add_event-after_event b k event v (omega arith)) ∙ added) in
    rw (← same) (
      ground (
        arith,
        lookup-lru_put string_discrete b.max_entities k j new b.buffers
            (omega (arith, length-erase-le string_discrete k b.buffers)),
      ))
