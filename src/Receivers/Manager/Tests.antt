-- ===== src/Receivers/Manager/Tests.antt =====
-- A manager of two receivers, one of which does not start.
use seerflow.Base.{Bool, List, String, [], false, insert, refl, string_discrete, true, ◌∷◌, ◌≡◌}
use seerflow.Queues.{Act, puts, gets}
use seerflow.Receivers.Manager.{RawEvent, ReceiverManager, init, register, start, put_event}
use seerflow.Receivers.Manager.Lifecycle.{run_acts}

program : Unit {0}
unfolding init register start run_acts insert string_discrete seerflow.Receivers.Manager.get_event
    seerflow.Queues.put_nowait seerflow.Queues.get_nowait put_event
program = tt

abbrev event : String → RawEvent
event id = record { source_type = "syslog"; source_id = id; received_ns = 0 }

abbrev manager : ReceiverManager Bool
manager = record {
  receivers = ("syslog", true) ∷ ("file", false) ∷ [];
  queue = record { maxsize = 1; items = event "first" ∷ []; dropped = 0 };
  started = false;
  stopped = true;
}

abbrev starts : Bool → Bool
starts ok = ok

reports : (start starts manager).1 ≡ ("file" ∷ [], "syslog" ∷ "file" ∷ [])
unfolding program
reports = refl

abbrev acts : List (Act RawEvent)
acts = puts (event "second") ∷ gets ∷ puts (event "third") ∷ []

refuses : (run_acts manager acts).queue.dropped ≡ 1
unfolding program
refuses = refl
