-- ===== src/Receivers/Manager.antt =====
-- src/seerflow/receivers/manager.py, `ReceiverManager`. What a receiver's `start` comes to is a
-- parameter; an exception of its `stop` is only logged. The payload of an event is not read.
pub mod Lifecycle
mod Tests
use seerflow.Base.{
  Bool, Bounds, List, Option, String, [], false, if◌then◌else◌, insert, is_empty, keys, leb, length,
  none, not, some, string_discrete, true, ℕ, ◌&&◌, ◌*◌, ◌==◌, ◌∷◌,
}
use seerflow.Queues.{Queue, put_nowait, get_nowait}

pub record RawEvent : Type 0 where
  pub source_type : String
  pub source_id : String
  pub received_ns : ℕ

pub record ReceiverManager (Receiver : Type 0) : Type 0 where
  pub receivers : List (String × Receiver)
  pub queue : Queue RawEvent
  pub started : Bool
  pub stopped : Bool

module _ {Receiver : Type 0} where
  unfoldable pub init : ℕ → ReceiverManager Receiver
  init queue_maxsize = record {
    receivers = [];
    queue = record { maxsize = queue_maxsize; items = []; dropped = 0 };
    started = false;
    stopped = false;
  }

  unfoldable pub register : ReceiverManager Receiver → String → Receiver → ReceiverManager Receiver
  register m source_id receiver = record m {
    receivers = insert string_discrete source_id receiver m.receivers;
  }

  -- Those whose start raises; `starts` says whether one starts.
  unfoldable pub failed_of : (Receiver → Bool) → List (String × Receiver) → List String
  failed_of starts [] = []
  failed_of starts ((source_id, receiver) ∷ rs) =
      let rest = failed_of starts rs in if starts receiver then rest else source_id ∷ rest

  -- The manager, the failed source ids, and the receivers whose `start` was called.
  unfoldable pub start :
      (Receiver → Bool)
      → ReceiverManager Receiver
      → ReceiverManager Receiver × (List String × List String)
  unfolding failed_of
  start starts m =
      if m.started
      then (m, ([], []))
      else (record m { started = true }, (failed_of starts m.receivers, keys m.receivers))

  -- The manager, and the receivers whose `stop` was called.
  unfoldable pub stop : ReceiverManager Receiver → ReceiverManager Receiver × List String
  stop m = if m.stopped then (m, []) else (record m { stopped = true }, keys m.receivers)

  -- `put_event` and `put_event_sync`: false is backpressure.
  unfoldable pub put_event : ReceiverManager Receiver → RawEvent → ReceiverManager Receiver × Bool
  put_event m event = let (q, taken) = put_nowait m.queue event in (record m { queue = q }, taken)

  -- What `get_event` does once it has an event or the manager is stopped; while neither holds it waits,
  -- which is `none`.
  unfoldable pub get_event :
      ReceiverManager Receiver → Option (ReceiverManager Receiver × Option RawEvent)
  get_event m =
      let (q, event) = get_nowait m.queue in
      if not m.stopped && is_empty m.queue.items then none else some (record m { queue = q }, event)

  -- Whether `_enqueue` warns: four fifths of the capacity are used.
  unfoldable pub is_crowded : ReceiverManager Receiver → Bool
  is_crowded m = not (m.queue.maxsize == 0) && leb (4 * m.queue.maxsize) (5 * length m.queue.items)

  unfoldable pub bounds : ReceiverManager Receiver → Bounds
  bounds m = record {
    current = length m.queue.items;
    cap = m.queue.maxsize;
    evictions = m.queue.dropped;
  }
