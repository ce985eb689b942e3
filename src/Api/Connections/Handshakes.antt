-- ===== src/Api/Connections/Handshakes.antt =====
-- The bounds of the manager, however the handshakes of connections overlap.
use seerflow.Api.Connections.Small.{IsSmall, queued-le}
use seerflow.Base.{
  AllValues-insert, Bool-cases, List, String, [], arith, if◌then◌else◌, inl, inr, insert-IsDict,
  leb, length, length-insert-le, not, string_discrete, subst, ℕ, ◌*◌, ◌+◌, ◌-◌, ◌==◌, ◌∷◌, ◌≡◌, ◌≤◌,
}
use seerflow.Models.Event.{SeerflowEvent}
use native.Mathlib.Nat.{mul-le-mul_right, mul_assoc}
use seerflow.Api.Connections.Manager.{
  ConnectionManager, admit, register, queued, new_client, bounds,
}
use seerflow.Api.Connections.Bounded.{Call, step, IsValid, step-IsValid}

-- What happens to a manager: a connection begins, or is made once its handshake is done, or gives up in
-- the handshake; or a call.
pub data Act (Extra : Type 0) : Type 0 where
  begins : Act Extra
  makes : String → Act Extra
  gives_up : Act Extra
  calls : Call Extra → Act Extra

-- A manager, the connections in their handshake, and how many were admitted while another one was.
pub record Live (Extra Ring : Type 0) : Type 0 where
  pub manager : ConnectionManager Extra Ring
  pub pending : ℕ
  pub overlaps : ℕ

module _ {Extra Ring : Type 0} (record_score : Ring → SeerflowEvent → Extra → Ring) where
  unfoldable pub act : Live Extra Ring → Act Extra → Live Extra Ring
  act l begins = if not (admit l.manager) then l else record l {
    pending = l.pending + 1;
    overlaps = if l.pending == 0 then l.overlaps else l.overlaps + 1;
  }
  act l (makes id) =
      if l.pending == 0
      then l
      else record l { manager = register l.manager id; pending = l.pending - 1 }
  act l gives_up = record l { pending = l.pending - 1 }
  act l (calls c) = record l { manager = step record_score l.manager c }

  unfoldable pub run : Live Extra Ring → List (Act Extra) → Live Extra Ring
  run l [] = l
  run l (x ∷ xs) = run (act l x) xs

  module _ (cap maxlen : ℕ) where
    -- Within the bounds, with room for the connections in their handshake.
    pub record IsLive (l : Live Extra Ring) : Type 0 where
      pub limit : ℕ
      pub valid : IsValid cap limit maxlen l.manager
      pub room : limit + l.pending ≤ cap + l.overlaps

    begins-IsLive : (l : Live Extra Ring) → IsLive l → IsLive (act l begins)
    unfolding act admit
    begins-IsLive l v =
        elim (Bool-cases (leb l.manager.max_connections (length l.manager.clients))) [
          | inl full ↦ let same : l ≡ act l begins = ground arith in subst IsLive same v
          | inr spare ↦ elim (Bool-cases (l.pending == 0)) [
            | inl alone ↦
                let l1 = record l { pending = l.pending + 1 } in
                let same : l1 ≡ act l begins = ground arith in
                subst IsLive same (record {
                  limit = length l.manager.clients;
                  valid = record {
                    same_cap = v.valid.same_cap;
                    same_maxlen = v.valid.same_maxlen;
                    unique = v.valid.unique;
                    few = omega arith;
                    small = v.valid.small;
                  };
                  room = ground (arith, v.valid.same_cap);
                })
            | inr among ↦
                let l1 = record l { pending = l.pending + 1; overlaps = l.overlaps + 1 } in
                let same : l1 ≡ act l begins = ground arith in
                subst IsLive same
                  (record { limit = v.limit; valid = v.valid; room = omega (arith, v.room) })
          ]
        ]

    makes-IsLive : (l : Live Extra Ring) (id : String) → IsLive l → IsLive (act l (makes id))
    unfolding act register
    makes-IsLive l id v = elim (Bool-cases (l.pending == 0)) [
      | inl idle ↦ let same : l ≡ act l (makes id) = ground arith in subst IsLive same v
      | inr waiting ↦
          let m = l.manager in
          let l1 : Live Extra Ring = record l {
            manager = register m id;
            pending = l.pending - 1;
          } in
          let same : l1 ≡ act l (makes id) = ground arith in
          subst IsLive same (record {
            limit = v.limit + 1;
            valid = record {
              same_cap = v.valid.same_cap;
              same_maxlen = v.valid.same_maxlen;
              unique = insert-IsDict string_discrete id new_client m.clients v.valid.unique;
              few =
                  omega (
                    arith,
                    v.valid.few,
                    length-insert-le id (new_client {Extra = Extra}) m.clients,
                  );
              small =
                  AllValues-insert string_discrete (IsSmall maxlen) id new_client m.clients
                    (omega arith, omega arith) v.valid.small;
            };
            room = ground (arith, v.room);
          })
    ]

    act-IsLive : (l : Live Extra Ring) (x : Act Extra) → IsLive l → IsLive (act l x)
    unfolding act
    act-IsLive l begins v = begins-IsLive l v
    act-IsLive l (makes id) v = makes-IsLive l id v
    act-IsLive l gives_up v = record {
      limit = v.limit;
      valid = v.valid;
      room = omega (arith, v.room);
    }
    act-IsLive l (calls c) v = record {
      limit = v.limit;
      valid = step-IsValid cap v.limit maxlen record_score l.manager c v.valid;
      room = v.room;
    }

    run-IsLive : (l : Live Extra Ring) (xs : List (Act Extra)) → IsLive l → IsLive (run l xs)
    unfolding run
    run-IsLive l [] v = v
    run-IsLive l (x ∷ xs) v = run-IsLive (act l x) xs (act-IsLive l x v)

    -- From a manager within its bounds, however handshakes of connections, disconnects, broadcasts,
    -- filters and turns of senders interleave: the clients and the connections in their handshake are
    -- no more than the cap and one for each connection that was admitted while another one was in its
    -- handshake; no id is there twice, no queue is longer than its bound, and what is queued in all is
    -- within two full queues for each of these places, which is the `max` that `bounds` reports if no
    -- two handshakes overlapped.
    pub run-bounds :
        (l : Live Extra Ring) (xs : List (Act Extra))
        → IsLive l
        → let l' = run l xs in
          (length l'.manager.clients + l'.pending ≤ cap + l'.overlaps)
          × IsValid cap (cap + l'.overlaps) maxlen l'.manager
          × ((bounds l'.manager).current ≤ (cap + l'.overlaps) * (maxlen * 2))
          × (l'.overlaps ≡ 0 → (bounds l'.manager).current ≤ (bounds l'.manager).cap)
    unfolding bounds
    run-bounds l xs v =
        let end = run-IsLive l xs v in
        let l' = run l xs in
        let few : length l'.manager.clients + l'.pending ≤ cap + l'.overlaps =
          omega (arith, end.valid.few, end.room) in
        let most : length l'.manager.clients ≤ cap + l'.overlaps = omega (arith, few) in
        let total = queued-le maxlen l'.manager.clients end.valid.small in
        let places = mul-le-mul_right (maxlen * 2) most in
        let all : queued l'.manager.clients ≤ (cap + l'.overlaps) * (maxlen * 2) =
          omega (arith, total, places) in
        (
          few,
          record {
            same_cap = end.valid.same_cap;
            same_maxlen = end.valid.same_maxlen;
            unique = end.valid.unique;
            few = most;
            small = end.valid.small;
          },
          all,
          λ none_over.
              let plain : cap + l'.overlaps ≡ cap = omega (arith, none_over) in
              let within : queued l'.manager.clients ≤ cap * (maxlen * 2) =
                subst (λ (n : ℕ). queued l'.manager.clients ≤ n * (maxlen * 2)) plain all in
              rw (end.valid.same_cap, end.valid.same_maxlen)
                (omega (arith, within, mul_assoc cap maxlen 2)),
        )
