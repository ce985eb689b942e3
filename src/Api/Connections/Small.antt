-- ===== src/Api/Connections/Small.antt =====
-- What keeps the queues of each client within their bound.
use native.Mathlib.Nat.{suc-mul}
use seerflow.Base.{
  AllValues, IsDict, List, String, [], ap, arith, length, length-append_bounded, lookup, none, refl,
  string_discrete, suc, ℕ, ◌*◌, ◌∷◌, ◌≡◌, ◌≤◌,
}
use seerflow.Models.Alert.{Alert}
use seerflow.Api.Connections.Manager.{
  BroadcastEvent, ClientState, offer_event, offer_alert, each_client, queued,
}

module _ {Extra : Type 0} where
  abbrev pub IsSmall : ℕ → ClientState Extra → Type 0
  IsSmall n c = (length c.event_deque ≤ n) × (length c.alert_deque ≤ n)

  module _ (maxlen : ℕ) where
    pub offer_event-IsSmall :
        (be : BroadcastEvent Extra) (c : ClientState Extra)
        → IsSmall maxlen c
        → IsSmall maxlen (offer_event maxlen be c)
    unfolding offer_event
    offer_event-IsSmall be c h = ground (arith, length-append_bounded maxlen c.event_deque be)

    pub offer_alert-IsSmall :
        (a : Alert) (c : ClientState Extra)
        → IsSmall maxlen c
        → IsSmall maxlen (offer_alert maxlen a c)
    unfolding offer_alert
    offer_alert-IsSmall a c h = ground (arith, length-append_bounded maxlen c.alert_deque a)

  -- What kepts each client small kepts the manager valid.
  module _ (f : ClientState Extra → ClientState Extra) where
    lookup-each_client :
        (k : String) (d : List (String × ClientState Extra))
        → lookup string_discrete k d ≡ none
        → lookup string_discrete k (each_client f d) ≡ none
    unfolding lookup each_client
    lookup-each_client k [] h = refl
    lookup-each_client k ((j, c) ∷ d) h = ground (arith, lookup-each_client k d)

    pub each_client-IsDict :
        (d : List (String × ClientState Extra))
        → IsDict string_discrete d
        → IsDict string_discrete (each_client f d)
    unfolding each_client
    each_client-IsDict [] u = tt
    each_client-IsDict ((k, c) ∷ d) u = (lookup-each_client k d u.0, each_client-IsDict d u.1)

    pub length-each_client :
        (d : List (String × ClientState Extra)) → length (each_client f d) ≡ length d
    unfolding each_client
    length-each_client [] = refl
    length-each_client ((k, c) ∷ d) = ap suc (length-each_client d)

    pub each_client-IsSmall :
        (n : ℕ) (d : List (String × ClientState Extra))
        → ((c : ClientState Extra) → IsSmall n c → IsSmall n (f c))
        → AllValues string_discrete (IsSmall n) d
        → AllValues string_discrete (IsSmall n) (each_client f d)
    unfolding each_client
    each_client-IsSmall n [] kept h = tt
    each_client-IsSmall n ((k, c) ∷ d) kept h = (kept c h.0, each_client-IsSmall n d kept h.1)

  pub queued-le :
      (n : ℕ) (d : List (String × ClientState Extra))
      → AllValues string_discrete (IsSmall n) d
      → queued d ≤ length d * (n * 2)
  unfolding queued
  queued-le n [] h = omega arith
  queued-le n ((k, c) ∷ d) h =
      omega (arith, queued-le n d h.1, h.0.0, h.0.1, suc-mul (length d) (n * 2))
