-- ===== src/Receivers/Manager/Lifecycle.antt =====
-- Starting once, stopping once, and the events between.
use seerflow.Base.{
  Bool, List, String, [], arith, false, keep, keys, length, none, not, refl, some, subst, suc, true,
  zero, ℕ, ◌+◌, ◌∷◌, ◌≡◌,
}
use seerflow.Queues.{Act, puts, gets, get_nowait, run as run_queue}
use seerflow.Receivers.Manager.{RawEvent, ReceiverManager, start, failed_of, put_event, get_event}

module _ {Receiver : Type 0} where
  -- A failed receiver is one whose start raises.
  failed_of_lem :
      (starts : Receiver → Bool) (rs : List (String × Receiver))
      → failed_of starts rs ≡ keys (keep (λ r. not (starts r.1)) rs)
  unfolding failed_of keep
  failed_of_lem starts [] = refl
  failed_of_lem starts ((k, r) ∷ rs) = ground (arith, failed_of_lem starts rs)

  -- A first `start` calls each registered receiver once, in order, whichever of them raise, and reports
  -- exactly those that do; a second one calls none and reports none.
  pub start_once :
      (starts again : Receiver → Bool) (m : ReceiverManager Receiver)
      → m.started ≡ false
      → ((start starts m).1 ≡ (keys (keep (λ r. not (starts r.1)) m.receivers), keys m.receivers))
        × (start again (start starts m).0 ≡ ((start starts m).0, ([], [])))
  unfolding start
  start_once starts again m fresh = ground (arith, failed_of_lem starts m.receivers)

  -- What is left of the queue comes out of a stopped manager one event at a time, in order, and then
  -- nothing more.
  unfoldable pub drain_events : ℕ → ReceiverManager Receiver → List RawEvent
  drain_events zero m = []
  drain_events (suc n) m = elim (get_event m) [
    | none ↦ []
    | some (m', none) ↦ []
    | some (m', some event) ↦ event ∷ drain_events n m'
  ]

  drain_over :
      (items : List RawEvent) (m : ReceiverManager Receiver) (more : ℕ)
      → m.stopped ≡ true
      → m.queue.items ≡ items
      → drain_events (more + length items) m ≡ items
  unfolding drain_events get_event get_nowait
  drain_over [] m zero off e = refl
  drain_over [] m (suc more) off e = ground arith
  drain_over (x ∷ items) m more off e =
      let m' = record m { queue = record m.queue { items = items } } in
      let one_more : suc (more + length items) ≡ more + suc (length items) = omega arith in
      subst (λ n. drain_events n m ≡ x ∷ items) one_more
        (ground (arith, drain_over items m' more off refl))

  -- A stopped manager gives out every event still queued, in order, and after them no event.
  pub drain_events_lem :
      (m : ReceiverManager Receiver) (more : ℕ)
      → m.stopped ≡ true
      → drain_events (more + length m.queue.items) m ≡ m.queue.items
  drain_events_lem m more off = drain_over m.queue.items m more off refl

  -- Events put, and events got while there is one.
  abbrev pub act : ReceiverManager Receiver → Act RawEvent → ReceiverManager Receiver
  act m (puts event) = (put_event m event).0
  act m gets = elim (get_event m) [ none ↦ m | some (m', _) ↦ m' ]

  unfoldable pub run_acts :
      ReceiverManager Receiver → List (Act RawEvent) → ReceiverManager Receiver
  run_acts m [] = m
  run_acts m (x ∷ xs) = run_acts (act m x) xs
