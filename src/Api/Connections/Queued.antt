-- ===== src/Api/Connections/Queued.antt =====
-- What becomes of the events offered to one client.
use mathlib.Core.List.{◌++◌}
use seerflow.Base.{
  Bool, Bool-cases, List, [], ap, append-nil, append_assoc, append_bounded, arith, drop, false,
  if◌then◌else◌, inl, inr, length, length-append, length-drop, length-take, refl, subst, suc, sym,
  take, true, zero, ℕ, ◌+◌, ◌-◌, ◌∙◌, ◌∷◌, ◌≡◌, ◌≤◌,
}
use seerflow.Api.Connections.{ClientFilter, matches_event}
use seerflow.Api.Connections.Manager.{BroadcastEvent, ClientState, offer_event, drain_events}

take-append-drop : {A : Type 0} (n : ℕ) (xs : List A) → take n xs ++ drop n xs ≡ xs
take-append-drop zero xs = refl
take-append-drop (suc n) [] = refl
take-append-drop (suc n) (x ∷ xs) = ap (λ ys. x ∷ ys) (take-append-drop n xs)

-- Two stretches of a queue's life, one after the other.
join :
    {A : Type 0} (d now gone d' later gone' end : List A)
    → d ++ now ≡ gone ++ d'
    → d' ++ later ≡ gone' ++ end
    → d ++ (now ++ later) ≡ (gone ++ gone') ++ end
join d now gone d' later gone' end p q =
    sym (append_assoc d now later)
    ∙ ap (λ xs. xs ++ later) p
    ∙ append_assoc gone d' later
    ∙ ap (λ xs. gone ++ xs) q
    ∙ sym (append_assoc gone gone' end)

pub data Step (Extra : Type 0) : Type 0 where
  offers : BroadcastEvent Extra → Step Extra
  drains : Step Extra
  refilters : ClientFilter → Step Extra
  dies : Step Extra

pub record Outcome (Extra : Type 0) : Type 0 where
  pub client : ClientState Extra
  pub matched : List (BroadcastEvent Extra)
  pub sent : List (BroadcastEvent Extra)

module _ {Extra : Type 0} (maxlen batch : ℕ) where
  abbrev wants : ClientState Extra → BroadcastEvent Extra → Bool
  wants c be = if c.dead then false else matches_event c.filter be.event

  -- The client after the steps, the events offered that it wanted then, and those sent to it.
  unfoldable pub run : ClientState Extra → List (Step Extra) → Outcome Extra
  run c [] = record { client = c; matched = []; sent = [] }
  run c (offers be ∷ steps) =
      let rest = run (offer_event maxlen be c) steps in
      record rest { matched = if wants c be then be ∷ rest.matched else rest.matched }
  run c (drains ∷ steps) =
      let turn = drain_events batch c in
      let rest = run turn.0 steps in record rest { sent = turn.1 ++ rest.sent }
  run c (refilters f ∷ steps) = run (record c { filter = f }) steps
  run c (dies ∷ steps) = run (record c { dead = true }) steps

  pub record Conserves (c : ClientState Extra) (o : Outcome Extra) : Type 0 where
    pub gone : List (BroadcastEvent Extra)
    pub order : c.event_deque ++ o.matched ≡ gone ++ o.client.event_deque
    pub counted : length gone + c.dropped_events ≡ length o.sent + o.client.dropped_events
    pub bounded : length o.client.event_deque ≤ maxlen

  offered :
      (c : ClientState Extra) (be : BroadcastEvent Extra)
      → length c.event_deque ≤ maxlen
      → wants c be ≡ true
      → (gone : List (BroadcastEvent Extra)) × (c.event_deque ++ be ∷ []
          ≡ gone ++ (offer_event maxlen be c).event_deque)
        × (length gone + c.dropped_events ≡ (offer_event maxlen be c).dropped_events)
        × (length (offer_event maxlen be c).event_deque ≤ maxlen)
  unfolding offer_event append_bounded
  offered c be le yes_please =
      let all = c.event_deque ++ be ∷ [] in
      let over = length all - maxlen in
      let size = length-append c.event_deque (be ∷ []) in
      (
        take over all,
        ground (arith, take-append-drop over all),
        ground (arith, size, length-take over all),
        ground (arith, size, length-drop over all),
      )

  refused :
      (c : ClientState Extra) (be : BroadcastEvent Extra)
      → wants c be ≡ false
      → offer_event maxlen be c ≡ c
  unfolding offer_event
  refused c be no_thanks = ground arith

  offers_wanted :
      (c : ClientState Extra) (be : BroadcastEvent Extra) (steps : List (Step Extra))
      → wants c be ≡ true
      → let rest = run (offer_event maxlen be c) steps in
        record rest { matched = be ∷ rest.matched } ≡ run c (offers be ∷ steps)
  unfolding run
  offers_wanted c be steps on = rw on

  offers_unwanted :
      (c : ClientState Extra) (be : BroadcastEvent Extra) (steps : List (Step Extra))
      → wants c be ≡ false
      → run c steps ≡ run c (offers be ∷ steps)
  unfolding run
  offers_unwanted c be steps off = rw (off, refused c be off)

  -- What a step does, before the others.
  after :
      (c c1 : ClientState Extra) (o : Outcome Extra) (gone now sent : List (BroadcastEvent Extra))
      → c.event_deque ++ now ≡ gone ++ c1.event_deque
      → length gone + c.dropped_events ≡ length sent + c1.dropped_events
      → Conserves c1 o
      → Conserves c (record o { matched = now ++ o.matched; sent = sent ++ o.sent })
  after c c1 o gone now sent order counted rest = record {
    gone = gone ++ rest.gone;
    order =
        join c.event_deque now gone c1.event_deque o.matched rest.gone o.client.event_deque order
          rest.order;
    counted =
        omega
          (arith, counted, rest.counted, length-append gone rest.gone, length-append sent o.sent);
    bounded = rest.bounded;
  }

  -- From a queue within its bound, however offers, drains and new filters follow each other: the events
  -- queued at first, then those that the client wanted when they came, are those that left the queue,
  -- then those still in it, in order; those that left are as many as were sent or newly counted as
  -- dropped; and the queue stays within its bound.
  pub run-Conserves :
      (c : ClientState Extra) (steps : List (Step Extra))
      → length c.event_deque ≤ maxlen
      → Conserves c (run c steps)
  unfolding run drain_events
  run-Conserves c [] le = record {
    gone = [];
    order = append-nil c.event_deque;
    counted = refl;
    bounded = le;
  }
  run-Conserves c (offers be ∷ steps) le = elim (Bool-cases (wants c be)) [
    | inl on ↦
        let (gone, order, counted, small) = offered c be le on in
        let c1 = offer_event maxlen be c in
        let done =
          after c c1 (run c1 steps) gone (be ∷ []) [] order (omega (arith, counted))
            (run-Conserves c1 steps small) in
        subst (Conserves c) (offers_wanted c be steps on) done
    | inr off ↦ subst (Conserves c) (offers_unwanted c be steps off) (run-Conserves c steps le)
  ]
  run-Conserves c (drains ∷ steps) le =
      let c1 = (drain_events batch c).0 in
      let small : length (drop batch c.event_deque) ≤ maxlen =
        omega (arith, length-drop batch c.event_deque) in
      after c c1 (run c1 steps) (take batch c.event_deque) [] (take batch c.event_deque)
        (append-nil c.event_deque ∙ sym (take-append-drop batch c.event_deque)) refl
        (run-Conserves c1 steps small)
  run-Conserves c (refilters f ∷ steps) le =
      let rest = run-Conserves (record c { filter = f }) steps le in
      record {
        gone = rest.gone;
        order = rest.order;
        counted = rest.counted;
        bounded = rest.bounded;
      }
  run-Conserves c (dies ∷ steps) le =
      let rest = run-Conserves (record c { dead = true }) steps le in
      record {
        gone = rest.gone;
        order = rest.order;
        counted = rest.counted;
        bounded = rest.bounded;
      }
