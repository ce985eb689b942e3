-- ===== src/Alerting/Dispatcher/Draining.antt =====
-- What the dispatcher takes, drops and hands on.
use seerflow.Base.{
  Bool, Bool-cases, List, Option-cases, String, [], ap, append-nil, append_assoc, arith, false,
  if◌then◌else◌, inl, inr, leb, length, length-append, map, not, refl, some, subst, suc, sym, ℕ,
  ◌&&◌, ◌++◌, ◌+◌, ◌==◌, ◌∙◌, ◌∷◌, ◌≡◌,
}
use seerflow.Models.Alert.{Alert}
use seerflow.Queues.{Queue, IsBounded, get_nowait, put_nowait}
use seerflow.Alerting.Router.{NotificationRouter, stop as router_stop}
use seerflow.Alerting.Dispatcher.{
  AlertDispatcher, Formatters, Delivery, enqueue, dispatch, consume, run,
}

module _ (F : Formatters) (glob : String → String → Bool) where
  -- What the dispatcher hands on for alerts one after another, and its router after them.
  unfoldable pub hand_on : AlertDispatcher → ℕ → List Alert → List (Delivery F glob)
  hand_on d now [] = []
  hand_on d now (a ∷ rest) =
      (dispatch F glob d now a).1 ++ hand_on (dispatch F glob d now a).0 now rest

  dispatch-queue :
      (d : AlertDispatcher) (now : ℕ) (alert : Alert)
      → ((dispatch F glob d now alert).0.queue ≡ d.queue)
        × ((dispatch F glob d now alert).0.running ≡ d.running)
  unfolding dispatch
  dispatch-queue d now alert = ground arith

  dispatch_elsewhere :
      (d : AlertDispatcher) (q : Queue Alert) (now : ℕ) (alert : Alert)
      → dispatch F glob (record d { queue = q }) now alert
        ≡ (record (dispatch F glob d now alert).0 { queue = q }, (dispatch F glob d now alert).1)
  unfolding dispatch
  dispatch_elsewhere d q now alert = ground arith

  hand_on-elsewhere :
      (d : AlertDispatcher) (q : Queue Alert) (now : ℕ) (alerts : List Alert)
      → hand_on (record d { queue = q }) now alerts ≡ hand_on d now alerts
  unfolding hand_on
  hand_on-elsewhere d q now [] = refl
  hand_on-elsewhere d q now (a ∷ rest) = rw (dispatch_elsewhere d q now a) (
      ap (λ ys. (dispatch F glob d now a).1 ++ ys)
        (hand_on-elsewhere (dispatch F glob d now a).0 q now rest))

  -- The dispatcher has nothing left to hand on.
  pub record IsDrained (d : AlertDispatcher) : Type 0 where
    pub queue_empty : d.queue.items ≡ []
    pub digests_flushed : (r : NotificationRouter) → d.router ≡ some r → r.digest_buffers ≡ []

  abbrev RunsTo : ℕ → AlertDispatcher → ℕ → List (Delivery F glob) → Type 0
  RunsTo fuel d now handed =
      (end : AlertDispatcher) × (run F glob fuel d now ≡ some (end, handed)) × IsDrained end

  consume_next :
      (d : AlertDispatcher) (now : ℕ) (a : Alert) (rest : List Alert)
      → d.queue.items ≡ a ∷ rest
      → consume F glob d now
        ≡ dispatch F glob (record d { queue = record d.queue { items = rest } }) now a
  unfolding consume get_nowait
  consume_next d now a rest e = rw e refl

  done :
      (d : AlertDispatcher) (now : ℕ) → d.queue.items ≡ [] → d.running ≡ false → RunsTo 1 d now []
  unfolding run router_stop
  done d now e off = elim (Option-cases d.router) [
    | inl direct ↦
        (d, ground arith, record { queue_empty = e; digests_flushed = λ r h. ground arith })
    | inr (r, routing) ↦ (
      record d { router = some (router_stop r).0 },
      ground arith,
      record { queue_empty = e; digests_flushed = λ r' h. ground arith },
    )
  ]

  run_next :
      (d : AlertDispatcher) (now fuel : ℕ) (a : Alert) (rest : List Alert)
      → d.queue.items ≡ a ∷ rest
      → (end : AlertDispatcher) (handed : List (Delivery F glob))
      → run F glob fuel (consume F glob d now).0 now ≡ some (end, handed)
      → run F glob (suc fuel) d now ≡ some (end, (consume F glob d now).1 ++ handed)
  unfolding run
  run_next d now fuel a rest e end handed ran = ground arith

  run_over :
      (items : List Alert) (d : AlertDispatcher) (now : ℕ)
      → d.queue.items ≡ items
      → d.running ≡ false
      → RunsTo (suc (length items)) d now (hand_on d now items)
  unfolding hand_on
  run_over [] d now e off = done d now e off
  run_over (a ∷ rest) d now e off =
      let q : Queue Alert = record d.queue { items = rest } in
      let here = dispatch F glob d now a in
      let next = record here.0 { queue = q } in
      let stopped : next.running ≡ false = (dispatch-queue d now a).1 ∙ off in
      let (end, ran, drained) = run_over rest next now refl stopped in
      let consumed : consume F glob d now ≡ (next, here.1) =
        consume_next d now a rest e ∙ dispatch_elsewhere d q now a in
      let same : here.1 ++ hand_on next now rest ≡ hand_on d now (a ∷ rest) =
        ap (λ ys. here.1 ++ ys) (hand_on-elsewhere here.0 q now rest) in
      (
        end,
        run_next d now (suc (length rest)) a rest e end (hand_on next now rest)
              (ap (λ c. run F glob (suc (length rest)) c.0 now) consumed ∙ ran)
            ∙ ap some
                (ap (λ ys. (end, ys)) (ap (λ c. c.1 ++ hand_on next now rest) consumed ∙ same)),
        drained,
      )

  -- Once stopped, the consumer ends within one turn more than there are alerts queued: it has
  -- handed them all on, in the order in which they were queued, its queue is empty, and the
  -- router that it has, if it has one, holds no digest.
  pub run_drains :
      (d : AlertDispatcher) (now : ℕ)
      → d.running ≡ false
      → (end : AlertDispatcher) × (run F glob (suc (length d.queue.items)) d now
          ≡ some (end, hand_on d now d.queue.items))
        × IsDrained end
  run_drains d now off = run_over d.queue.items d now refl off

-- What becomes of a dispatcher: a call of `enqueue`, or a turn of the consumer at a time of day.
pub data Event : Type 0 where
  enqueues : Alert → Event
  turns : ℕ → Event

-- An alert that a full queue refuses is lost.
abbrev pub refuses : AlertDispatcher → Bool
refuses d = not (d.queue.maxsize == 0) && leb d.queue.maxsize (length d.queue.items)

-- An outcome: the dispatcher, what it handed on, the alerts not refused, how many were refused, and the
-- alerts that were first in the queue at a turn, each with the time of the turn.
pub record Outcome (F : Formatters) (glob : String → String → Bool) : Type 0 where
  pub dispatcher : AlertDispatcher
  pub handed : List (Delivery F glob)
  pub accepted : List Alert
  pub refused : ℕ
  pub consumed : List (ℕ × Alert)

module _ (F : Formatters) (glob : String → String → Bool) where
  abbrev consumed_first : ℕ → List Alert → List (ℕ × Alert) → List (ℕ × Alert)
  consumed_first now [] later = later
  consumed_first now (a ∷ items) later = (now, a) ∷ later

  unfoldable pub run_events : AlertDispatcher → List Event → Outcome F glob
  run_events d [] = record {
    dispatcher = d;
    handed = [];
    accepted = [];
    refused = 0;
    consumed = [];
  }
  run_events d (enqueues alert ∷ es) =
      let rest = run_events (enqueue d alert) es in
      record rest {
        accepted = if refuses d then rest.accepted else alert ∷ rest.accepted;
        refused = if refuses d then rest.refused + 1 else rest.refused;
      }
  run_events d (turns now ∷ es) =
      let turn = consume F glob d now in
      let rest = run_events turn.0 es in
      record rest {
        handed = turn.1 ++ rest.handed;
        consumed = consumed_first now d.queue.items rest.consumed;
      }

  -- What the dispatcher hands on for alerts one after another, each at its time.
  unfoldable pub hand_on_at : AlertDispatcher → List (ℕ × Alert) → List (Delivery F glob)
  hand_on_at d [] = []
  hand_on_at d ((now, a) ∷ rest) =
      (dispatch F glob d now a).1 ++ hand_on_at (dispatch F glob d now a).0 rest

  hand_on_at-elsewhere :
      (d : AlertDispatcher) (q : Queue Alert) (xs : List (ℕ × Alert))
      → hand_on_at (record d { queue = q }) xs ≡ hand_on_at d xs
  unfolding hand_on_at
  hand_on_at-elsewhere d q [] = refl
  hand_on_at-elsewhere d q ((now, a) ∷ rest) = rw (dispatch_elsewhere F glob d q now a) (
      ap (λ ys. (dispatch F glob d now a).1 ++ ys)
        (hand_on_at-elsewhere (dispatch F glob d now a).0 q rest))

  pub record Conserves (d : AlertDispatcher) (o : Outcome F glob) : Type 0 where
    pub order :
        map (λ (x : ℕ × Alert). x.1) o.consumed ++ o.dispatcher.queue.items
        ≡ d.queue.items ++ o.accepted
    pub deliveries : o.handed ≡ hand_on_at d o.consumed
    pub counted : o.refused + d.queue.dropped ≡ o.dispatcher.queue.dropped
    pub bounded : IsBounded o.dispatcher.queue

  consume_none :
      (d : AlertDispatcher) (now : ℕ) → d.queue.items ≡ [] → consume F glob d now ≡ (d, [])
  unfolding consume get_nowait
  consume_none d now e = rw e refl

  by_turn :
      (d : AlertDispatcher) (now : ℕ) (es : List Event) (items : List Alert)
      → IsBounded d.queue
      → d.queue.items ≡ items
      → ((d' : AlertDispatcher) → IsBounded d'.queue → Conserves d' (run_events d' es))
      → Conserves d (run_events d (turns now ∷ es))
  unfolding run_events hand_on_at
  by_turn d now es [] fits e rest =
      let nothing = consume_none d now e in
      let same : run_events d es ≡ run_events d (turns now ∷ es) = ground (arith, nothing, e) in
      subst (Conserves d) same (rest d fits)
  by_turn d now es (a ∷ items) fits e rest =
      let q : Queue Alert = record d.queue { items = items } in
      let here = dispatch F glob d now a in
      let next = record here.0 { queue = q } in
      let turn : consume F glob d now ≡ (next, here.1) =
        consume_next F glob d now a items e ∙ dispatch_elsewhere F glob d q now a in
      let later = run_events next es in
      let r = rest next (λ some_bound. ground (arith, fits some_bound, e)) in
      let o : Outcome F glob = record later {
        handed = here.1 ++ later.handed;
        consumed = (now, a) ∷ later.consumed;
      } in
      let same : o ≡ run_events d (turns now ∷ es) = ground (arith, turn, e) in
      subst (Conserves d) same (record {
        order = ap (λ xs. a ∷ xs) r.order ∙ ap (λ (xs : List Alert). xs ++ later.accepted) (sym e);
        deliveries =
            ap (λ ys. here.1 ++ ys) (r.deliveries ∙ hand_on_at-elsewhere here.0 q later.consumed);
        counted = r.counted;
        bounded = r.bounded;
      })

  by_enqueue :
      (d : AlertDispatcher) (alert : Alert) (es : List Event)
      → IsBounded d.queue
      → ((d' : AlertDispatcher) → IsBounded d'.queue → Conserves d' (run_events d' es))
      → Conserves d (run_events d (enqueues alert ∷ es))
  unfolding run_events enqueue put_nowait
  by_enqueue d alert es fits rest = elim (Bool-cases (refuses d)) [
    | inl full ↦
        let q : Queue Alert = record d.queue { dropped = d.queue.dropped + 1 } in
        let d1 = record d { queue = q } in
        let put : enqueue d alert ≡ d1 = ground arith in
        let later = run_events d1 es in
        let r = rest d1 fits in
        let o : Outcome F glob = record later { refused = later.refused + 1 } in
        let same : o ≡ run_events d (enqueues alert ∷ es) = ground (arith, put) in
        subst (Conserves d) same (record {
          order = r.order;
          deliveries = r.deliveries ∙ hand_on_at-elsewhere d q later.consumed;
          counted = omega (arith, r.counted);
          bounded = r.bounded;
        })
    | inr room ↦
        let q : Queue Alert = record d.queue { items = d.queue.items ++ alert ∷ [] } in
        let d1 = record d { queue = q } in
        let put : enqueue d alert ≡ d1 = ground arith in
        let later = run_events d1 es in
        let r =
          rest d1 (λ some_bound. ground (arith, room, length-append d.queue.items (alert ∷ []))) in
        let o : Outcome F glob = record later { accepted = alert ∷ later.accepted } in
        let same : o ≡ run_events d (enqueues alert ∷ es) = ground (arith, put) in
        subst (Conserves d) same (record {
          order = r.order ∙ append_assoc d.queue.items (alert ∷ []) later.accepted;
          deliveries = r.deliveries ∙ hand_on_at-elsewhere d q later.consumed;
          counted = r.counted;
          bounded = r.bounded;
        })
  ]

  -- From a queue within its bound, however calls of `enqueue` and turns of the consumer alternate: the
  -- alerts consumed, then those still queued, are those queued before, then those not refused, in
  -- order; what was handed on is what the dispatcher hands on for the alerts consumed, each at the time
  -- of its turn; every alert refused is counted as dropped; and a bounded queue never holds more than
  -- its bound.
  pub enqueue-conserves :
      (d : AlertDispatcher) (es : List Event) → IsBounded d.queue → Conserves d (run_events d es)
  unfolding run_events hand_on_at
  enqueue-conserves d [] fits = record {
    order = sym (append-nil d.queue.items);
    deliveries = refl;
    counted = omega arith;
    bounded = fits;
  }
  enqueue-conserves d (enqueues alert ∷ es) fits =
      by_enqueue d alert es fits (λ d' fits'. enqueue-conserves d' es fits')
  enqueue-conserves d (turns now ∷ es) fits =
      by_turn d now es d.queue.items fits refl (λ d' fits'. enqueue-conserves d' es fits')
