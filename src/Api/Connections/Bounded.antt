-- ===== src/Api/Connections/Bounded.antt =====
-- What keeps the manager within its bounds, call by call.
use seerflow.Api.Connections.Small.{
  IsSmall, offer_event-IsSmall, offer_alert-IsSmall, each_client-IsDict, length-each_client,
  each_client-IsSmall,
}
use seerflow.Base.{
  AllValues, AllValues-erase, AllValues-insert, AllValues-lookup, Bool-cases, IsDict, List, Option,
  Option-cases, String, [], arith, erase-IsDict, inl, inr, insert, insert-IsDict, length,
  length-drop, length-erase-le, length-insert_old, lookup, ltb, none, some, string_discrete, subst,
  sym, true, ℕ, ◌&&◌, ◌-◌, ◌∷◌, ◌≡◌, ◌≤◌,
}
use seerflow.Models.Event.{SeerflowEvent}
use seerflow.Models.Alert.{Alert}
use seerflow.Api.Connections.{FilterMessage, FilterError, parse_filter}
use seerflow.Api.Connections.Manager.{
  BroadcastEvent, ClientState, ConnectionManager, disconnect, set_filter, offer_event, offer_alert,
  each_client, broadcast_event, broadcast_alert, start_client_sender, sender_turn, sender_fails,
  update_client, drain_events, drain_alerts,
}

pub data Call (Extra : Type 0) : Type 0 where
  disconnects : String → Call Extra
  events : SeerflowEvent → Option Extra → Call Extra
  alerts : Alert → Call Extra
  filters : String → FilterMessage → ℕ → Call Extra
  starts : String → Call Extra
  turns : String → Call Extra
  fails : String → Call Extra

module _ {Extra Ring : Type 0} where
  -- A call; one that raises changes nothing.
  unfoldable pub step :
      (Ring → SeerflowEvent → Extra → Ring)
      → ConnectionManager Extra Ring
      → Call Extra
      → ConnectionManager Extra Ring
  step record_score m (disconnects id) = disconnect m id
  step record_score m (events e d) = broadcast_event record_score m e d
  step record_score m (alerts a) = broadcast_alert m a
  step record_score m (filters id msg now) = elim (set_filter m id msg now) [
    | none ↦ m
    | some (m', errors) ↦ m'
  ]
  step record_score m (starts id) = start_client_sender m id
  step record_score m (turns id) = sender_turn m id
  step record_score m (fails id) = sender_fails m id

  -- No more clients than the limit, no id twice, and each queue within its bound.
  pub record IsValid (cap limit maxlen : ℕ) (m : ConnectionManager Extra Ring) : Type 0 where
    pub same_cap : m.max_connections ≡ cap
    pub same_maxlen : m.queue_maxlen ≡ maxlen
    pub unique : IsDict string_discrete m.clients
    pub few : length m.clients ≤ limit
    pub small : AllValues string_discrete (IsSmall maxlen) m.clients

  module _ (cap limit maxlen : ℕ) where
    each_client-IsValid :
        (m : ConnectionManager Extra Ring) (f : ClientState Extra → ClientState Extra)
        → ((c : ClientState Extra) → IsSmall maxlen c → IsSmall maxlen (f c))
        → IsValid cap limit maxlen m
        → IsValid cap limit maxlen (record m { clients = each_client f m.clients })
    each_client-IsValid m f kept v = record {
      same_cap = v.same_cap;
      same_maxlen = v.same_maxlen;
      unique = each_client-IsDict f m.clients v.unique;
      few = omega (arith, v.few, length-each_client f m.clients);
      small = each_client-IsSmall f maxlen m.clients kept v.small;
    }

    insert-IsValid :
        (m : ConnectionManager Extra Ring) (id : String) (c : ClientState Extra)
        → length (insert string_discrete id c m.clients) ≤ limit
        → IsSmall maxlen c
        → IsValid cap limit maxlen m
        → IsValid cap limit maxlen (record m { clients = insert string_discrete id c m.clients })
    insert-IsValid m id c few small v = record {
      same_cap = v.same_cap;
      same_maxlen = v.same_maxlen;
      unique = insert-IsDict string_discrete id c m.clients v.unique;
      few = few;
      small = AllValues-insert string_discrete (IsSmall maxlen) id c m.clients small v.small;
    }

    update_client-IsValid :
        (m : ConnectionManager Extra Ring) (id : String)
        → (f : ClientState Extra → ClientState Extra)
        → ((c : ClientState Extra) → IsSmall maxlen c → IsSmall maxlen (f c))
        → IsValid cap limit maxlen m
        → IsValid cap limit maxlen (update_client m id f)
    unfolding update_client
    update_client-IsValid m id f kept v =
        elim (Option-cases (lookup string_discrete id m.clients)) [
          | inl missing ↦
              let same : m ≡ update_client m id f = ground arith in
              subst (IsValid cap limit maxlen) same v
          | inr (c, there) ↦
              let m1 = record m { clients = insert string_discrete id (f c) m.clients } in
              let same : m1 ≡ update_client m id f = ground arith in
              subst (IsValid cap limit maxlen) same (
                insert-IsValid m id (f c)
                  (omega (arith, length-insert_old string_discrete id (f c) m.clients there, v.few))
                  (kept c
                    (AllValues-lookup string_discrete (IsSmall maxlen) id m.clients v.small there))
                  v)
        ]

    set_filter-IsValid :
        (m m' : ConnectionManager Extra Ring) (id : String) (msg : FilterMessage) (now : ℕ)
        → {errors : List FilterError} → set_filter m id msg now ≡ some (m', errors)
        → IsValid cap limit maxlen m
        → IsValid cap limit maxlen m'
    unfolding set_filter
    set_filter-IsValid m m' id msg now made v =
        elim (Option-cases (lookup string_discrete id m.clients)) [
          | inl missing ↦
              let same : m ≡ m' = ground arith in subst (IsValid cap limit maxlen) same v
          | inr (c, there) ↦
              elim (Bool-cases
                (ltb 0 c.last_filter_ns && ltb (now - c.last_filter_ns) m.filter_min_interval_ns)) [
                  | inl early ↦
                      let same : m ≡ m' = ground arith in subst (IsValid cap limit maxlen) same v
                  | inr due ↦ elim (Option-cases (parse_filter msg)) [
                    | inl bad ↦ absurd (ground arith)
                    | inr ((filter, []), parsed) ↦
                        let c1 = record c { filter = filter; last_filter_ns = now } in
                        let m1 = record m { clients = insert string_discrete id c1 m.clients } in
                        let same : m1 ≡ m' = ground arith in
                        subst (IsValid cap limit maxlen) same (
                          insert-IsValid m id c1
                            (omega (
                              arith,
                              length-insert_old string_discrete id c1 m.clients there,
                              v.few,
                            ))
                            (AllValues-lookup string_discrete (IsSmall maxlen) id m.clients v.small
                              there)
                            v)
                    | inr ((filter, e ∷ es), parsed) ↦
                        let same : m ≡ m' = ground arith in subst (IsValid cap limit maxlen) same v
                  ]
                ]
        ]

    module _ (record_score : Ring → SeerflowEvent → Extra → Ring) where
      broadcast_event-IsValid :
          (m : ConnectionManager Extra Ring) (e : SeerflowEvent) (d : Option Extra)
          → IsValid cap limit maxlen m
          → IsValid cap limit maxlen (broadcast_event record_score m e d)
      unfolding broadcast_event
      broadcast_event-IsValid m e d v =
          let be : BroadcastEvent Extra = record { event = e; detection = d } in
          let kept = offer_event-IsSmall maxlen be in
          let v' =
            each_client-IsValid m (offer_event m.queue_maxlen be)
              (subst
                (λ (n : ℕ).
                  (c : ClientState Extra) → IsSmall maxlen c → IsSmall maxlen (offer_event n be c))
                (sym v.same_maxlen) kept)
              v in
          record {
            same_cap = v'.same_cap;
            same_maxlen = v'.same_maxlen;
            unique = v'.unique;
            few = v'.few;
            small = v'.small;
          }

      pub step-IsValid :
          (m : ConnectionManager Extra Ring) (c : Call Extra)
          → IsValid cap limit maxlen m
          → IsValid cap limit maxlen (step record_score m c)
      unfolding step disconnect broadcast_alert start_client_sender sender_turn sender_fails
          drain_events drain_alerts
      step-IsValid m (disconnects id) v = record {
        same_cap = v.same_cap;
        same_maxlen = v.same_maxlen;
        unique = erase-IsDict string_discrete id m.clients v.unique;
        few = omega (arith, v.few, length-erase-le string_discrete id m.clients);
        small = AllValues-erase string_discrete (IsSmall maxlen) id m.clients v.small;
      }
      step-IsValid m (events e d) v = broadcast_event-IsValid m e d v
      step-IsValid m (alerts a) v =
          each_client-IsValid m (offer_alert m.queue_maxlen a)
            (subst
              (λ (n : ℕ).
                (c : ClientState Extra) → IsSmall maxlen c → IsSmall maxlen (offer_alert n a c))
              (sym v.same_maxlen) (offer_alert-IsSmall maxlen a))
            v
      step-IsValid m (filters id msg now) v = elim (Option-cases (set_filter m id msg now)) [
        | inl bad ↦
            let same : m ≡ step record_score m (filters id msg now) = ground arith in
            subst (IsValid cap limit maxlen) same v
        | inr ((m', errors), made) ↦
            let same : m' ≡ step record_score m (filters id msg now) = ground arith in
            subst (IsValid cap limit maxlen) same (set_filter-IsValid m m' id msg now made v)
      ]
      step-IsValid m (starts id) v =
          update_client-IsValid m id (λ c. record c { has_sender = true }) (λ c small. small) v
      step-IsValid m (turns id) v =
          update_client-IsValid m id _
            (λ c small. (
              omega (arith, small.0, length-drop m.batch_max_events c.event_deque),
              omega (arith, small.1, length-drop m.batch_max_events c.alert_deque),
            ))
            v
      step-IsValid m (fails id) v =
          update_client-IsValid m id (λ c. record c { dead = true }) (λ c small. small) v
