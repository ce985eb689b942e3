-- ===== src/Correlation/Window/Tests.antt =====
-- The window buffer on small inputs.
use seerflow.Base.{
  All, IsSorted, List, Option, [], append_bounded, arith, contains, erase, evict_oldest, insert,
  keep, lookup, lru_put, none, pos, refl, some, sorted, string_discrete, ℕ, ◌++◌, ◌+◌, ◌<◌, ◌∷◌,
  ◌≡◌,
}
use mathlib.Core.List.{Perm}
use seerflow.Models.Event.{SeerflowEvent, informational}
use seerflow.Models.Query.{TimeRange}
use seerflow.Correlation.Window.{
  EntityWindowBuffer, init, add_event, expire, in_range, of_source, query, prune,
}
use seerflow.Correlation.Window.Invariant.{IsValid, events_of, after_event, add_event-after_event}
use seerflow.Correlation.Window.Queries.{at_time, IsFreshFirst, IsWanted, query-perm, matching}

program : Unit {0}
unfolding add_event expire in_range of_source query prune events_of after_event lookup insert erase
    evict_oldest lru_put append_bounded keep sorted contains string_discrete matching
program = tt

abbrev event : ℕ → SeerflowEvent
event t = record {
  event_id = "e";
  timestamp_ns = t;
  severity_id = informational;
  source_type = "syslog";
  template_id = pos 1;
  entity_refs = "a" ∷ [];
  related_ips = [];
  related_users = [];
  related_hosts = [];
  related_files = [];
  related_domains = [];
  related_processes = [];
}

-- One entity of two, with a deque of two events of at most three, and a window of 10.
abbrev one : EntityWindowBuffer
one = record {
  window_ns = 10;
  max_events = 3;
  max_entities = 2;
  buffers = ("a", event 5 ∷ event 7 ∷ []) ∷ [];
  eviction_count = 0;
}

one-IsValid : IsValid one
unfolding program
one-IsValid = record { unique = (refl, tt); entities = omega arith; events = omega arith }

abbrev two : EntityWindowBuffer
two = record one { buffers = ("a", event 5 ∷ event 7 ∷ []) ∷ ("b", event 9 ∷ []) ∷ [] }

-- A third entity evicts the oldest, and a touched entity becomes the newest.
add_third :
    add_event two "c" (event 11)
    ≡ some (record two {
      buffers = ("b", event 9 ∷ []) ∷ ("c", event 11 ∷ []) ∷ [];
      eviction_count = 1;
    })
unfolding program
add_third = refl

add_again :
    add_event two "a" (event 11)
    ≡ some (record two {
      buffers = ("b", event 9 ∷ []) ∷ ("a", event 5 ∷ event 7 ∷ event 11 ∷ []) ∷ [];
    })
unfolding program
add_again = refl

-- A cap of no entities raises.
add_to_none : add_event (init 10 3 0) "a" (event 1) ≡ none
unfolding program init
add_to_none = refl

query_sorts :
    (query (record one { buffers = ("a", event 9 ∷ event 7 ∷ []) ∷ [] }) 10 "a" none none).1
    ≡ event 7 ∷ event 9 ∷ []
unfolding program
query_sorts = refl

query_deletes : (query one 30 "a" none none).0.buffers ≡ []
unfolding program
query_deletes = refl

abbrev one_more : EntityWindowBuffer
one_more = record one { buffers = ("a", event 5 ∷ event 7 ∷ []) ∷ ("b", event 9 ∷ []) ∷ [] }

add_event-after_event_example : add_event one "b" (event 9) ≡ some (after_event one "b" (event 9))
add_event-after_event_example = add_event-after_event one "b" (event 9) one-IsValid (omega arith)

add_b : add_event one "b" (event 9) ≡ some one_more
unfolding program
add_b = refl

abbrev from_six : Option TimeRange
from_six = some (record { start_ns = 6; end_ns = 20 })

query-perm_example :
    let answered = (query one 16 "a" from_six none).1 in
    (dropped rest found others : List SeerflowEvent) × (events_of one "a" ≡ dropped ++ rest)
    × All (λ e. e.timestamp_ns + 10 < 16) dropped
    × IsFreshFirst 10 16 rest
    × Perm rest (found ++ others)
    × All (IsWanted from_six none) found
    × All (λ e. ¬ IsWanted from_six none e) others
    × Perm answered found
    × IsSorted at_time answered
query-perm_example = query-perm one 16 "a" from_six none

in_order : IsSorted at_time (events_of one "a")
unfolding program
in_order = omega arith

-- The event of time 1 arrived late, and is older than the window of 10 at time 18.
abbrev late : EntityWindowBuffer
late = record one { buffers = ("a", event 9 ∷ event 1 ∷ []) ∷ [] }

late_events : events_of late "a" ≡ event 9 ∷ event 1 ∷ []
unfolding program
late_events = refl
