-- ===== src/Alerting/Dispatcher.antt =====
-- src/seerflow/alerting/dispatcher.py, `AlertDispatcher`. The three formatters are parameters, `none`
-- for an exception; what a POST comes to does not change the dispatcher, so a dispatch returns what it
-- hands on. `now` is the time of day.
pub mod Draining
mod Tests
use seerflow.Base.{
  Bool, Bounds, List, Option, String, [], false, if◌then◌else◌, is_empty, length, ltb, map, none,
  not, some, suc, text_eq, true, zero, ℕ, ◌++◌, ◌||◌, ◌∷◌,
}
use seerflow.Models.Event.{severity_value}
use seerflow.Models.Alert.{Alert}
use seerflow.Queues.{Queue, put_nowait, get_nowait}
use seerflow.Alerting.Router.{NotificationRouter, route, stop as router_stop}

pub record WebhookTarget : Type 0 where
  pub name : String
  pub url : String
  pub format : String
  pub min_severity : ℕ

pub record Formatters : Type 1 where
  pub Payload : Type 0
  pub format_slack : Alert → Option Payload
  pub format_teams : Alert → Option Payload
  pub format_json : Alert → Option Payload

pub record AlertDispatcher : Type 0 where
  pub targets : List WebhookTarget
  pub queue : Queue Alert
  pub running : Bool
  pub router : Option NotificationRouter

unfoldable pub init : List WebhookTarget → ℕ → Option NotificationRouter → AlertDispatcher
init targets queue_maxsize router = record {
  targets = targets;
  queue = record { maxsize = queue_maxsize; items = []; dropped = 0 };
  running = true;
  router = router;
}

unfoldable pub enqueue : AlertDispatcher → Alert → AlertDispatcher
enqueue d alert = record d { queue = (put_nowait d.queue alert).0 }

unfoldable pub stop : AlertDispatcher → AlertDispatcher
stop d = record d { running = false }

unfoldable pub bounds : AlertDispatcher → Bounds
bounds d = record {
  current = length d.queue.items;
  cap = d.queue.maxsize;
  evictions = d.queue.dropped;
}

module _ (F : Formatters) (glob : String → String → Bool) where
  open F use {Payload, format_slack, format_teams, format_json}

  -- A POST to a webhook's URL, or an alert that the router hands to a channel.
  pub data Delivery : Type 0 where
    posted : String → Payload → Delivery
    routed : String → Alert → Delivery

  unfoldable pub format : Alert → String → Option Payload
  format alert fmt =
      if text_eq fmt "slack"
      then format_slack alert
      else if text_eq fmt "teams"
      then format_teams alert
      else format_json alert

  -- The loop of `_dispatch` over the targets.
  unfoldable pub fan_out : List WebhookTarget → Alert → List Delivery
  unfolding format severity_value
  fan_out [] alert = []
  fan_out (t ∷ ts) alert =
      let rest = fan_out ts alert in
      if ltb (severity_value alert.severity_id) t.min_severity
      then rest
      else elim (format alert t.format) [ none ↦ rest | some payload ↦ posted t.url payload ∷ rest ]

  unfoldable pub dispatch : AlertDispatcher → ℕ → Alert → AlertDispatcher × List Delivery
  unfolding fan_out
  dispatch d now alert = elim d.router [
    | none ↦ (d, fan_out d.targets alert)
    | some r ↦
        let (r', channels) = route glob r now alert in
        (record d { router = some r' }, map (λ c. routed c alert) channels)
  ]

  -- One turn of the loop of `run`; a queue that stays empty is a timeout.
  unfoldable pub consume : AlertDispatcher → ℕ → AlertDispatcher × List Delivery
  unfolding dispatch
  consume d now = elim (get_nowait d.queue).1 [
    | none ↦ (d, [])
    | some alert ↦ dispatch (record d { queue = (get_nowait d.queue).0 }) now alert
  ]

  abbrev close_router : AlertDispatcher → AlertDispatcher
  close_router d = elim d.router [
    | none ↦ d
    | some r ↦ record d { router = some (router_stop r).0 }
  ]

  -- `run` on fuel, `none` when it runs out: the dispatcher at the end, and what it handed on.
  unfoldable pub run : ℕ → AlertDispatcher → ℕ → Option (AlertDispatcher × List Delivery)
  unfolding consume
  run zero d now = none
  run (suc fuel) d now =
      let (d', handed) = consume d now in
      let rest = run fuel d' now in
      if d.running || not (is_empty d.queue.items)
      then elim rest [ none ↦ none | some (end, more) ↦ some (end, handed ++ more) ]
      else some (close_router d, [])
