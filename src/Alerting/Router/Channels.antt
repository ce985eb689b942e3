-- ===== src/Alerting/Router/Channels.antt =====
-- Which channels an alert is handed to at once, and which digests it goes into.
use seerflow.Base.{
  Bool, List, Option-cases, String, [], append-nil, append_assoc, arith, false, if◌then◌else◌, inl,
  inr, ite, keep, leb, lookup, lookup-insert, map, none, not, refl, some, string_discrete, sym,
  true, ℕ, ℤ, ◌&&◌, ◌++◌, ◌∷◌, ◌≡◌,
}
use seerflow.Models.Event.{severity_value}
use seerflow.Models.Alert.{Alert}
use seerflow.Alerting.Router.{
  NotificationRouter, RoutingRuleNotify, DeliveryTarget, Mode, Key, Key-discrete, immediate, digest,
  is_quiet_suppressed, buffer_for_digest, buffer_of, notify_one, notify_all, route, register_target,
  select_notify_with_idx,
}

-- Each target stands under its own name.
abbrev pub IsNamed : NotificationRouter → Type 0
IsNamed r =
    (k : String) (t : DeliveryTarget) → lookup string_discrete k r.targets ≡ some t → t.name ≡ k

-- Registering a target keeps the names.
pub register_target-IsNamed :
    (r r' : NotificationRouter) (t : DeliveryTarget)
    → IsNamed r
    → register_target r t ≡ some r'
    → IsNamed r'
unfolding register_target
register_target-IsNamed r r' t named added k u found =
    ground (arith, named k u, lookup-insert string_discrete t.name k t r.targets)

-- A channel takes an alert: it is a target, the alert is as severe as the target asks, and no quiet
-- hours suppress it.
unfoldable pub admits : NotificationRouter → ℕ → Alert → String → Bool
admits r now alert channel = elim (lookup string_discrete channel r.targets) [
  | none ↦ false
  | some t ↦
      leb t.min_severity (severity_value alert.severity_id)
      && not (is_quiet_suppressed r now channel alert)
]

abbrev is_immediate : Mode → Bool
is_immediate immediate = true
is_immediate digest = false

unfoldable pub at_once : NotificationRouter → ℕ → Alert → RoutingRuleNotify → Bool
unfolding admits
at_once r now alert e = admits r now alert e.channel && is_immediate e.mode

-- The entry puts the alert in the digest of `key`.
unfoldable pub into_digest : NotificationRouter → ℕ → ℤ → Alert → Key → RoutingRuleNotify → Bool
unfolding admits
into_digest r now idx alert key e =
    admits r now alert e.channel
    && not (is_immediate e.mode)
    && ite (Key-discrete key (idx, e.channel)) true false

buffer_of-buffer_for_digest :
    (r : NotificationRouter) (idx : ℤ) (e : RoutingRuleNotify) (alert : Alert) (key : Key)
    → buffer_of (buffer_for_digest r idx e alert) key
      ≡ ite (Key-discrete (idx, e.channel) key) (buffer_of r key ++ alert ∷ []) (buffer_of r key)
unfolding buffer_of buffer_for_digest
buffer_of-buffer_for_digest r idx e alert key = ground (
  arith,
  lookup-insert Key-discrete (idx, e.channel) key (buffer_of r (idx, e.channel) ++ alert ∷ [])
      r.digest_buffers,
)

notify_one-keeps :
    (r : NotificationRouter) (now : ℕ) (idx : ℤ) (alert : Alert) (e : RoutingRuleNotify)
    → ((notify_one r now idx alert e).0.targets ≡ r.targets)
      × ((notify_one r now idx alert e).0.quiet ≡ r.quiet)
unfolding notify_one buffer_for_digest
notify_one-keeps r now idx alert e = ground arith

admits_same :
    (r r' : NotificationRouter) (now : ℕ) (alert : Alert) (c : String)
    → r'.targets ≡ r.targets
    → r'.quiet ≡ r.quiet
    → admits r' now alert c ≡ admits r now alert c
unfolding admits is_quiet_suppressed
admits_same r r' now alert c same_targets same_quiet = rw (same_targets, same_quiet) refl

notify_one_lem :
    (r : NotificationRouter) (now : ℕ) (idx : ℤ) (alert : Alert) (e : RoutingRuleNotify)
    → IsNamed r
    → (notify_one r now idx alert e).1 ≡ (if at_once r now alert e then some e.channel else none)
unfolding notify_one at_once admits
notify_one_lem r now idx alert e named =
    elim (Option-cases (lookup string_discrete e.channel r.targets)) [
      | inl absent ↦ ground arith
      | inr (t, found) ↦ ground (arith, named e.channel t found)
    ]

buffer_of-notify_one :
    (r : NotificationRouter) (now : ℕ) (idx : ℤ) (alert : Alert) (e : RoutingRuleNotify) (key : Key)
    → buffer_of (notify_one r now idx alert e).0 key ≡ (
        if into_digest r now idx alert key e
        then buffer_of r key ++ alert ∷ []
        else buffer_of r key)
unfolding notify_one into_digest admits
buffer_of-notify_one r now idx alert e key =
    ground (arith, buffer_of-buffer_for_digest r idx e alert key)

keep_ext {ℓ} :
    {A : Type ℓ} (p q : A → Bool) (xs : List A) → ((x : A) → p x ≡ q x) → keep p xs ≡ keep q xs
unfolding keep
keep_ext p q [] h = refl
keep_ext p q (x ∷ xs) h = ground (arith, h x, keep_ext p q xs h)

at_once_same :
    (r : NotificationRouter) (now : ℕ) (idx : ℤ) (alert : Alert) (e x : RoutingRuleNotify)
    → at_once (notify_one r now idx alert e).0 now alert x ≡ at_once r now alert x
unfolding at_once
at_once_same r now idx alert e x =
    let (same_targets, same_quiet) = notify_one-keeps r now idx alert e in
    rw (admits_same r (notify_one r now idx alert e).0 now alert x.channel same_targets same_quiet)
      refl

into_digest_same :
    (r : NotificationRouter) (now : ℕ) (idx : ℤ) (alert : Alert) (key : Key)
    (e x : RoutingRuleNotify)
    → into_digest (notify_one r now idx alert e).0 now idx alert key x
      ≡ into_digest r now idx alert key x
unfolding into_digest
into_digest_same r now idx alert key e x =
    let (same_targets, same_quiet) = notify_one-keeps r now idx alert e in
    rw (admits_same r (notify_one r now idx alert e).0 now alert x.channel same_targets same_quiet)
      refl

notify_all-channels :
    (r : NotificationRouter) (now : ℕ) (idx : ℤ) (alert : Alert) (es : List RoutingRuleNotify)
    → IsNamed r
    → (notify_all r now idx alert es).1 ≡ map (λ e. e.channel) (keep (at_once r now alert) es)
unfolding notify_all keep
notify_all-channels r now idx alert [] named = refl
notify_all-channels r now idx alert (e ∷ es) named =
    let r1 = (notify_one r now idx alert e).0 in
    let named1 : IsNamed r1 = rw ((notify_one-keeps r now idx alert e).0) named in
    ground (
      arith,
      notify_one_lem r now idx alert e named,
      notify_all-channels r1 now idx alert es named1,
      keep_ext (at_once r1 now alert) (at_once r now alert) es (at_once_same r now idx alert e),
    )

-- The same alert, once for each entry.
abbrev pub copies : Alert → List RoutingRuleNotify → List Alert
copies alert = map (λ _. alert)

buffer_of-notify_all :
    (r : NotificationRouter) (now : ℕ) (idx : ℤ) (alert : Alert) (key : Key)
    (es : List RoutingRuleNotify)
    → buffer_of (notify_all r now idx alert es).0 key
      ≡ buffer_of r key ++ copies alert (keep (into_digest r now idx alert key) es)
unfolding notify_all keep
buffer_of-notify_all r now idx alert key [] = sym (append-nil (buffer_of r key))
buffer_of-notify_all r now idx alert key (e ∷ es) =
    let r1 = (notify_one r now idx alert e).0 in
    ground (
      arith,
      buffer_of-notify_one r now idx alert e key,
      buffer_of-notify_all r1 now idx alert key es,
      keep_ext (into_digest r1 now idx alert key) (into_digest r now idx alert key) es
          (into_digest_same r now idx alert key e),
      append_assoc (buffer_of r key) (alert ∷ [])
          (copies alert (keep (into_digest r now idx alert key) es)),
    )

-- A running router whose targets stand under their own names hands an alert at once to exactly
-- the channels that the chosen rule lists as immediate and that admit it, in the rule's order,
-- and appends it to exactly the digests that the rule lists for admitting channels; a stopped
-- router does neither. A channel admits an alert when it is a target, the alert is as severe as
-- the target asks, and no quiet hours suppress it.
pub route_lem :
    (glob : String → String → Bool) (r : NotificationRouter) (now : ℕ) (alert : Alert)
    → IsNamed r
    → let chosen = select_notify_with_idx glob r alert in
      (r.running ≡ true
        → ((route glob r now alert).1 ≡ map (λ e. e.channel) (keep (at_once r now alert) chosen.1))
          × ((key : Key)
              → buffer_of (route glob r now alert).0 key
                ≡ buffer_of r key
                  ++ copies alert (keep (into_digest r now chosen.0 alert key) chosen.1)))
      × (r.running ≡ false → route glob r now alert ≡ (r, []))
unfolding route
route_lem glob r now alert named =
    let chosen = select_notify_with_idx glob r alert in
    (
      λ on. (
        ground (arith, notify_all-channels r now chosen.0 alert chosen.1 named),
        λ key. ground (arith, buffer_of-notify_all r now chosen.0 alert key chosen.1),
      ),
      λ off. ground arith,
    )
