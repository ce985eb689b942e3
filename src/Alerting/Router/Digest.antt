-- ===== src/Alerting/Router/Digest.antt =====
-- What becomes of the alerts of a digest.
use seerflow.Base.{
  List, [], ap, append-nil, append_assoc, arith, erase, ite, lookup, lookup-erase, lookup-insert,
  none, sym, ℤ, ◌*◌, ◌++◌, ◌∙◌, ◌∷◌, ◌≡◌, ◌≢◌,
}
use seerflow.Models.Alert.{Alert}
use seerflow.Alerting.Router.{
  NotificationRouter, RoutingRuleNotify, Key, Key-discrete, buffer_for_digest, buffer_of,
  flush_begin, flush_end,
}

-- What happens to the digests: an alert is buffered, or the flush of a key runs with nothing between
-- its two parts.
pub data Act : Type 0 where
  buffers : ℤ → RoutingRuleNotify → Alert → Act
  flushes : Key → Act

unfoldable pub act : NotificationRouter → Act → NotificationRouter
act r (buffers idx e alert) = buffer_for_digest r idx e alert
act r (flushes key) = flush_end (flush_begin r key).0 key

-- The alerts that an act hands to the channel of `key`, and those that it means for its digest.
unfoldable pub handed : NotificationRouter → Key → Act → List Alert
handed r key (buffers idx e alert) = []
handed r key (flushes k) = ite (Key-discrete k key) (flush_begin r k).1 []

unfoldable pub meant : Key → Act → List Alert
meant key (buffers idx e alert) = ite (Key-discrete (idx, e.channel) key) (alert ∷ []) []
meant key (flushes k) = []

unfoldable pub run : NotificationRouter → List Act → NotificationRouter
run r [] = r
run r (a ∷ acts) = run (act r a) acts

unfoldable pub all_handed : NotificationRouter → Key → List Act → List Alert
all_handed r key [] = []
all_handed r key (a ∷ acts) = handed r key a ++ all_handed (act r a) key acts

unfoldable pub all_meant : Key → List Act → List Alert
all_meant key [] = []
all_meant key (a ∷ acts) = meant key a ++ all_meant key acts

act-conserves :
    (r : NotificationRouter) (key : Key) (a : Act)
    → handed r key a ++ buffer_of (act r a) key ≡ buffer_of r key ++ meant key a
unfolding handed meant act buffer_of buffer_for_digest flush_begin flush_end
act-conserves r key (buffers idx e alert) = ground (
  arith,
  lookup-insert Key-discrete (idx, e.channel) key (buffer_of r (idx, e.channel) ++ alert ∷ [])
      r.digest_buffers,
  append-nil (buffer_of r key),
)
act-conserves r key (flushes k) = ground (
  arith,
  lookup-erase Key-discrete k key r.digest_buffers,
  lookup-erase Key-discrete k key (erase Key-discrete k r.digest_buffers),
  append-nil (buffer_of r key),
  append-nil (buffer_of r k),
)

-- When flushes are not interrupted, the alerts handed to a key's channel, in the order of the flushes,
-- followed by those still in its buffer, are those that were in its buffer before followed by all that
-- were meant for its digest: none is lost, repeated or reordered.
pub run-conserves :
    (r : NotificationRouter) (key : Key) (acts : List Act)
    → all_handed r key acts ++ buffer_of (run r acts) key ≡ buffer_of r key ++ all_meant key acts
unfolding run all_handed all_meant
run-conserves r key [] = sym (append-nil (buffer_of r key))
run-conserves r key (a ∷ acts) =
    let next = act r a in
    append_assoc (handed r key a) (all_handed next key acts) (buffer_of (run next acts) key)
    ∙ ap (λ xs. handed r key a ++ xs) (run-conserves next key acts)
    ∙ sym (append_assoc (handed r key a) (buffer_of next key) (all_meant key acts))
    ∙ ap (λ xs. xs ++ all_meant key acts) (act-conserves r key a)
    ∙ append_assoc (buffer_of r key) (meant key a) (all_meant key acts)

-- Every buffer has a task that will flush it.
abbrev pub IsScheduled : NotificationRouter → Type 0
IsScheduled r =
    (key : Key)
    → lookup Key-discrete key r.digest_tasks ≡ none
    → lookup Key-discrete key r.digest_buffers ≡ none

act-IsScheduled : (r : NotificationRouter) (a : Act) → IsScheduled r → IsScheduled (act r a)
unfolding act buffer_for_digest flush_begin flush_end
act-IsScheduled r (buffers idx e alert) v key untimed =
    let k : Key = (idx, e.channel) in
    ground (
      arith,
      v key,
      lookup-insert Key-discrete k key (buffer_of r k ++ alert ∷ []) r.digest_buffers,
      lookup-insert Key-discrete k key (e.digest_window_minutes * 60) r.digest_tasks,
    )
act-IsScheduled r (flushes k) v key untimed = ground (
  arith,
  v key,
  lookup-erase Key-discrete k key r.digest_buffers,
  lookup-erase Key-discrete k key (erase Key-discrete k r.digest_buffers),
  lookup-erase Key-discrete k key r.digest_tasks,
)

-- When flushes are not interrupted and every buffer has a pending task that flushes its key, that
-- stays so after any sequence of alerts buffered and keys flushed.
pub run-IsScheduled :
    (r : NotificationRouter) (acts : List Act) → IsScheduled r → IsScheduled (run r acts)
unfolding run
run-IsScheduled r [] v = v
run-IsScheduled r (a ∷ acts) v = run-IsScheduled (act r a) acts (act-IsScheduled r a v)

-- An alert buffered while the digest that a flush has taken is being delivered is lost, where the
-- delivery reads its alerts at the start: the flush took the buffer without it, and then drops
-- the buffer that holds it.
pub flush_loses :
    (r : NotificationRouter) (idx : ℤ) (e : RoutingRuleNotify) (alert : Alert)
    → (flush_begin r (idx, e.channel)).1 ≢ []
    → let key : Key = (idx, e.channel) in
      let during = buffer_for_digest (flush_begin r key).0 idx e alert in
      (buffer_of during key ≡ (flush_begin r key).1 ++ alert ∷ [])
      × (buffer_of (flush_end during key) key ≡ [])
unfolding buffer_of buffer_for_digest flush_begin flush_end
flush_loses r idx e alert taken =
    let key : Key = (idx, e.channel) in
    ground (
      arith,
      lookup-erase Key-discrete key key r.digest_buffers,
      lookup-insert Key-discrete key key ((flush_begin r key).1 ++ alert ∷ [])
          (flush_begin r key).0.digest_buffers,
      lookup-erase Key-discrete key key
          (buffer_for_digest (flush_begin r key).0 idx e alert).digest_buffers,
    )
