-- ===== src/Api/Connections/Manager.antt =====
-- src/seerflow/api/ws.py: the state of a client and of the manager, and the calls that change them.
use seerflow.Base.{
  Bool, Bounds, List, Option, String, [], append_bounded, contains, drop, erase, false,
  if◌then◌else◌, insert, is_empty, leb, length, lookup, ltb, none, not, some, string_discrete, take,
  text_eq, true, ℕ, ◌&&◌, ◌*◌, ◌+◌, ◌-◌, ◌==◌, ◌∷◌,
}
use seerflow.Models.Event.{SeerflowEvent}
use seerflow.Models.Alert.{Alert}
use seerflow.Api.Connections.{
  ClientFilter, empty_filter, FilterMessage, FilterError, throttled, parse_filter, matches_event,
  matches_alert,
}

pub record BroadcastEvent (Extra : Type 0) : Type 0 where
  pub event : SeerflowEvent
  pub detection : Option Extra

pub record ClientState (Extra : Type 0) : Type 0 where
  pub filter : ClientFilter
  pub event_deque : List (BroadcastEvent Extra)
  pub alert_deque : List Alert
  pub wakeup : Bool
  pub has_sender : Bool
  pub dropped_events : ℕ
  pub dropped_alerts : ℕ
  pub last_filter_ns : ℕ
  pub dead : Bool

pub record ConnectionManager (Extra Ring : Type 0) : Type 0 where
  pub max_connections : ℕ
  pub queue_maxlen : ℕ
  pub batch_max_events : ℕ
  pub allowed_origins : Option (List String)
  pub filter_min_interval_ns : ℕ
  pub timeline_ring : Ring
  pub clients : List (String × ClientState Extra)
  pub events_broadcast_count : ℕ

module _ {Extra : Type 0} where
  abbrev pub new_client : ClientState Extra
  new_client = record {
    filter = empty_filter;
    event_deque = [];
    alert_deque = [];
    wakeup = false;
    has_sender = false;
    dropped_events = 0;
    dropped_alerts = 0;
    last_filter_ns = 0;
    dead = false;
  }

  -- The body of the loop of `broadcast_event`.
  unfoldable pub offer_event : ℕ → BroadcastEvent Extra → ClientState Extra → ClientState Extra
  offer_event maxlen be c =
      if c.dead then c else if not (matches_event c.filter be.event) then c else record c {
        event_deque = append_bounded maxlen c.event_deque be;
        dropped_events =
            if length c.event_deque == maxlen then c.dropped_events + 1 else c.dropped_events;
        wakeup = true;
      }

  unfoldable pub offer_alert : ℕ → Alert → ClientState Extra → ClientState Extra
  offer_alert maxlen alert c =
      if c.dead then c else if not (matches_alert c.filter alert) then c else record c {
        alert_deque = append_bounded maxlen c.alert_deque alert;
        dropped_alerts =
            if length c.alert_deque == maxlen then c.dropped_alerts + 1 else c.dropped_alerts;
        wakeup = true;
      }

  unfoldable pub each_client :
      (ClientState Extra → ClientState Extra)
      → List (String × ClientState Extra)
      → List (String × ClientState Extra)
  each_client f [] = []
  each_client f ((k, c) ∷ rest) = (k, f c) ∷ each_client f rest

  -- `_drain_events`: the batch that is sent, and the client with the rest.
  unfoldable pub drain_events :
      ℕ → ClientState Extra → ClientState Extra × List (BroadcastEvent Extra)
  drain_events batch c =
      (record c { event_deque = drop batch c.event_deque }, take batch c.event_deque)

  unfoldable pub drain_alerts : ℕ → ClientState Extra → ClientState Extra × List Alert
  drain_alerts batch c =
      (record c { alert_deque = drop batch c.alert_deque }, take batch c.alert_deque)

  unfoldable pub queued : List (String × ClientState Extra) → ℕ
  queued [] = 0
  queued ((k, c) ∷ rest) = length c.event_deque + length c.alert_deque + queued rest

module _ {Extra Ring : Type 0} where
  unfoldable pub is_origin_allowed : ConnectionManager Extra Ring → Option String → Bool
  is_origin_allowed m origin = elim m.allowed_origins [
    | none ↦ true
    | some allowed ↦ elim origin [
      | none ↦ true
      | some o ↦ if text_eq o "" then true else contains o allowed
    ]
  ]

  -- `connect` before the handshake is awaited: false is the WebSocketException of a manager that is
  -- full.
  unfoldable pub admit : ConnectionManager Extra Ring → Bool
  admit m = not (leb m.max_connections (length m.clients))

  -- `connect` once the handshake is done; `client_id` is a new uuid.
  unfoldable pub register : ConnectionManager Extra Ring → String → ConnectionManager Extra Ring
  register m client_id = record m {
    clients = insert string_discrete client_id new_client m.clients;
  }

  unfoldable pub disconnect : ConnectionManager Extra Ring → String → ConnectionManager Extra Ring
  disconnect m client_id = record m { clients = erase string_discrete client_id m.clients }

  unfoldable pub update_client :
      ConnectionManager Extra Ring
      → String
      → (ClientState Extra → ClientState Extra)
      → ConnectionManager Extra Ring
  update_client m client_id f = elim (lookup string_discrete client_id m.clients) [
    | none ↦ m
    | some c ↦ record m { clients = insert string_discrete client_id (f c) m.clients }
  ]

  -- The new manager and the errors; `none` is a TypeError.
  unfoldable pub set_filter :
      ConnectionManager Extra Ring
      → String
      → FilterMessage
      → ℕ
      → Option (ConnectionManager Extra Ring × List FilterError)
  set_filter m client_id msg now_ns = elim (lookup string_discrete client_id m.clients) [
    | none ↦ some (m, [])
    | some c ↦
        if ltb 0 c.last_filter_ns && ltb (now_ns - c.last_filter_ns) m.filter_min_interval_ns
        then some (m, throttled ∷ [])
        else elim (parse_filter msg) [
          | none ↦ none
          | some (f, errors) ↦
              if not (is_empty errors)
              then some (m, errors)
              else some (
                record m {
                  clients =
                      insert string_discrete client_id
                        (record c { filter = f; last_filter_ns = now_ns }) m.clients;
                },
                [],
              )
        ]
  ]

  module _ (record_score : Ring → SeerflowEvent → Extra → Ring) where
    unfoldable pub broadcast_event :
        ConnectionManager Extra Ring → SeerflowEvent → Option Extra → ConnectionManager Extra Ring
    broadcast_event m event detection =
        let be : BroadcastEvent Extra = record { event = event; detection = detection } in
        record m {
          events_broadcast_count = m.events_broadcast_count + 1;
          timeline_ring = elim detection [
            | none ↦ m.timeline_ring
            | some d ↦ record_score m.timeline_ring event d
          ];
          clients = each_client (offer_event m.queue_maxlen be) m.clients;
        }

  unfoldable pub broadcast_alert :
      ConnectionManager Extra Ring → Alert → ConnectionManager Extra Ring
  broadcast_alert m alert = record m {
    clients = each_client (offer_alert m.queue_maxlen alert) m.clients;
  }

  unfoldable pub start_client_sender :
      ConnectionManager Extra Ring → String → ConnectionManager Extra Ring
  start_client_sender m client_id = update_client m client_id (λ c. record c { has_sender = true })

  -- A turn of `_client_sender` whose sends succeed.
  unfoldable pub sender_turn : ConnectionManager Extra Ring → String → ConnectionManager Extra Ring
  sender_turn m client_id = update_client m client_id (λ c.
      (drain_alerts m.batch_max_events
        (drain_events m.batch_max_events (record c { wakeup = false })).0).0)

  -- One that fails with an error.
  unfoldable pub sender_fails : ConnectionManager Extra Ring → String → ConnectionManager Extra Ring
  sender_fails m client_id = update_client m client_id (λ c. record c { dead = true })

  unfoldable pub bounds : ConnectionManager Extra Ring → Bounds
  bounds m = record {
    current = queued m.clients;
    cap = m.max_connections * m.queue_maxlen * 2;
    evictions = 0;
  }
