-- ===== src/Api/Connections/Tests.antt =====
-- A manager of two clients with queues of two events.
use seerflow.Base.{
  List, [], append_bounded, arith, contains, erase, false, insert, length, lookup, none, pos, refl,
  some, string_discrete, ℕ, ◌*◌, ◌+◌, ◌∷◌, ◌≡◌, ◌≤◌,
}
use seerflow.Models.Event.{SeerflowEvent, severity_value}
use seerflow.Detection.Samples.{event_at}
use seerflow.Api.Connections.{
  text, number, nested, missing, items, scalar, FilterMessage, ClientFilter, matches_event,
  parse_filter, parse_texts, parse_numbers, parse_alert_types, split_types, parse_min_severity,
  clamp_severity, all_texts, all_numbers,
}
use seerflow.Api.Connections.Manager.{
  BroadcastEvent, ClientState, ConnectionManager, new_client, is_origin_allowed, admit, register,
  disconnect, set_filter, offer_event, each_client, broadcast_event, drain_events, bounds, queued,
}
use seerflow.Api.Connections.Queued.{Step, offers, drains, run, Conserves, run-Conserves}
use seerflow.Api.Connections.Handshakes as Handshakes
use seerflow.Api.Connections.Bounded.{IsValid, events}
use seerflow.Api.Connections.Handshakes.{Live, IsLive, Act, begins, makes, calls, run-bounds}
use seerflow.Api.Connections.Filters.{
  has_nested, IsBounded, parse_filter-IsBounded, set_filter-nested,
}

program : Unit {0}
unfolding matches_event parse_filter parse_texts parse_numbers parse_alert_types split_types
    parse_min_severity clamp_severity all_texts all_numbers is_origin_allowed admit register
    Handshakes.run Handshakes.act seerflow.Api.Connections.Bounded.step disconnect set_filter
    offer_event each_client broadcast_event drain_events bounds queued severity_value append_bounded
    lookup insert erase string_discrete contains run has_nested
program = tt

abbrev client : ClientState ℕ
client = new_client

abbrev manager : ConnectionManager ℕ ℕ
manager = record {
  max_connections = 2;
  queue_maxlen = 2;
  batch_max_events = 1;
  allowed_origins = some ("https://ui" ∷ []);
  filter_min_interval_ns = 100;
  timeline_ring = 0;
  clients = ("c", client) ∷ [];
  events_broadcast_count = 0;
}

abbrev be : ℕ → BroadcastEvent ℕ
be t = record { event = event_at t (pos 1) []; detection = none }

abbrev steps : List (Step ℕ)
steps = offers (be 1) ∷ offers (be 2) ∷ offers (be 3) ∷ drains ∷ offers (be 4) ∷ []

-- The oldest event is dropped, the next one sent.
keeps_latest : (run 2 1 client steps).client.event_deque ≡ be 3 ∷ be 4 ∷ []
unfolding program
keeps_latest = refl

counts_dropped : (run 2 1 client steps).client.dropped_events ≡ 1
unfolding program
counts_dropped = refl

refuses_origin : is_origin_allowed manager (some "https://other") ≡ false
unfolding program
refuses_origin = refl

run-Conserves_example : Conserves 2 1 client (run 2 1 client steps)
run-Conserves_example = run-Conserves 2 1 client steps (omega arith)

manager-IsValid : IsValid 2 1 2 manager
unfolding lookup
manager-IsValid = record {
  same_cap = refl;
  same_maxlen = refl;
  unique = (refl, tt);
  few = omega arith;
  small = ((omega arith, omega arith), tt);
}

abbrev count_score : ℕ → SeerflowEvent → ℕ → ℕ
count_score ring event extra = ring + 1

abbrev live : Live ℕ ℕ
live = record { manager = manager; pending = 0; overlaps = 0 }

live-IsLive : IsLive count_score 2 2 live
live-IsLive = record { limit = 1; valid = manager-IsValid; room = omega arith }

-- A second connection is admitted during the handshake of the first one.
abbrev acts : List (Act ℕ)
acts = begins ∷ begins ∷ makes "d" ∷ calls (events (event_at 0 (pos 1) []) none) ∷ makes "e" ∷ []

exceeds_cap : length (Handshakes.run count_score live acts).manager.clients ≡ 3
unfolding program
exceeds_cap = refl

run-bounds_example :
    let l = Handshakes.run count_score live acts in
    (length l.manager.clients + l.pending ≤ 2 + l.overlaps)
    × IsValid 2 (2 + l.overlaps) 2 l.manager
    × ((bounds l.manager).current ≤ (2 + l.overlaps) * (2 * 2))
    × (l.overlaps ≡ 0 → (bounds l.manager).current ≤ (bounds l.manager).cap)
run-bounds_example = run-bounds count_score 2 2 live acts live-IsLive

abbrev wish : FilterMessage
wish = record {
  sources = items (text "sshd" ∷ []);
  template_ids = missing;
  alert_types = items (text "ml" ∷ []);
  min_severity = scalar (number (pos 9));
}

abbrev granted : ClientFilter
granted = record {
  sources = "sshd" ∷ [];
  min_severity = 6;
  alert_types = "ml" ∷ [];
  template_ids = [];
}

parses : parse_filter wish ≡ some (granted, [])
unfolding program
parses = refl

parse_filter-IsBounded_example : IsBounded granted
parse_filter-IsBounded_example = parse_filter-IsBounded wish granted [] parses

set_filter-nested_example :
    set_filter manager "c" (record wish { alert_types = items (nested ∷ []) }) 0 ≡ none
unfolding program
set_filter-nested_example =
    set_filter-nested manager "c" (record wish { alert_types = items (nested ∷ []) }) 0
      (nested ∷ []) {c = client} refl refl refl refl
