-- ===== src/Alerting/Router.antt =====
-- src/seerflow/alerting/router.py, `NotificationRouter`: routing rules, quiet hours and digests. A
-- time of day is the number of microseconds since midnight, UTC. `fnmatchcase`, and what a channel
-- does with an alert handed to it, are not modelled: the first is a parameter, and a delivery is a
-- value returned. The code awaits only deliveries and sleeps, so each definition is what runs between
-- two awaits, or a sequence of such steps; the deliveries that `route` awaits one after another are one
-- step, at the time of the first.
mod Settings
pub mod Rules
pub mod Channels
pub mod Quiet
pub mod Digest
mod Tests
unfoldable pub use Settings.*
use seerflow.Base.{
  Bool, List, Option, String, [], contains, erase, false, if◌then◌else◌, insert, is_empty, leb,
  length, lookup, ltb, negsuc, none, not, pos, some, string_discrete, text_eq, true, ℕ, ℤ, ◌&&◌,
  ◌*◌, ◌++◌, ◌+◌, ◌||◌, ◌∷◌,
}
use seerflow.Models.Event.{SeverityLevel, severity_value}
use seerflow.Models.Alert.{
  Alert, AlertType, EntityType, ml, sigma, correlation, ueba, ioc, user, ip, host, process, file,
  domain,
}

unfoldable pub alert_type_name : AlertType → String
alert_type_name ml = "ml"
alert_type_name sigma = "sigma"
alert_type_name correlation = "correlation"
alert_type_name ueba = "ueba"
alert_type_name ioc = "ioc"

unfoldable pub entity_type_name : EntityType → String
entity_type_name user = "user"
entity_type_name ip = "ip"
entity_type_name host = "host"
entity_type_name process = "process"
entity_type_name file = "file"
entity_type_name domain = "domain"

unfoldable pub matches_str_or_tuple : StrPredicate → String → Bool
unfolding contains
matches_str_or_tuple anything value = true
matches_str_or_tuple (exactly p) value = text_eq p value
matches_str_or_tuple (one_of ps) value = contains value ps

abbrev least : Option ℕ → ℕ → Bool
least none sev = true
least (some m) sev = not (ltb sev m)

abbrev most : Option ℕ → ℕ → Bool
most none sev = true
most (some m) sev = not (ltb m sev)

abbrev globbed : (String → String → Bool) → Option String → String → Bool
globbed glob none name = true
globbed glob (some p) name = glob name p

-- `glob name pattern` is `fnmatch.fnmatchcase(name, pattern)`.
unfoldable pub rule_matches : (String → String → Bool) → RoutingRule → Alert → Bool
unfolding matches_str_or_tuple alert_type_name entity_type_name severity_value
rule_matches glob rule alert =
    let m = rule.criteria in
    matches_str_or_tuple m.alert_type (alert_type_name alert.alert_type)
    && globbed glob m.rule_name alert.rule_name
    && matches_str_or_tuple m.entity_type (entity_type_name alert.entity_type)
    && least m.min_severity (severity_value alert.severity_id)
    && most m.max_severity (severity_value alert.severity_id)

-- The loop over `enumerate(self._rules)`, from the index `idx`.
unfoldable pub first_match :
    (String → String → Bool) → Alert → ℕ → List RoutingRule → Option (ℕ × List RoutingRuleNotify)
unfolding rule_matches
first_match glob alert idx [] = none
first_match glob alert idx (rule ∷ rules) =
    let rest = first_match glob alert (idx + 1) rules in
    if rule_matches glob rule alert then some (idx, rule.notify) else rest

abbrev pub default_notify : DefaultRouting → List RoutingRuleNotify
default_notify d = elim d.action [ drop_alert ↦ [] | notify_default ↦ d.notify ]

unfoldable pub select_notify_with_idx :
    (String → String → Bool) → NotificationRouter → Alert → ℤ × List RoutingRuleNotify
unfolding first_match
select_notify_with_idx glob r alert = elim (first_match glob alert 0 r.rules) [
  | none ↦ (negsuc 0, default_notify r.default_routing)
  | some (idx, notify) ↦ (pos idx, notify)
]

unfoldable pub in_quiet_window : QuietHours → ℕ → Bool
in_quiet_window qh t =
    if leb qh.start qh.end then leb qh.start t && ltb t qh.end else leb qh.start t || ltb t qh.end

-- `now` is the time of day.
unfoldable pub is_quiet_suppressed : NotificationRouter → ℕ → String → Alert → Bool
unfolding in_quiet_window severity_value
is_quiet_suppressed r now channel alert = elim (lookup string_discrete channel r.quiet) [
  | none ↦ false
  | some qh ↦ in_quiet_window qh now && ltb (severity_value alert.severity_id) qh.min_severity
]

abbrev pub digest_warn_threshold : ℕ
digest_warn_threshold = 1000

-- `self._digest_buffers.get(key, [])`
unfoldable pub buffer_of : NotificationRouter → Key → List Alert
buffer_of r key = elim (lookup Key-discrete key r.digest_buffers) [ none ↦ [] | some buf ↦ buf ]

-- A task is the number of seconds that it sleeps before it flushes the key.
unfoldable pub buffer_for_digest :
    NotificationRouter → ℤ → RoutingRuleNotify → Alert → NotificationRouter
unfolding buffer_of
buffer_for_digest r rule_idx entry alert =
    let key : Key = (rule_idx, entry.channel) in
    let buf = buffer_of r key in
    record r {
      digest_buffers = insert Key-discrete key (buf ++ alert ∷ []) r.digest_buffers;
      digest_warned =
          if leb digest_warn_threshold (length buf)
          then insert Key-discrete key tt r.digest_warned
          else r.digest_warned;
      digest_tasks = elim (lookup Key-discrete key r.digest_tasks) [
        | none ↦ insert Key-discrete key (entry.digest_window_minutes * 60) r.digest_tasks
        | some _ ↦ r.digest_tasks
      ];
    }

-- One turn of the loop of `route`: the router, and the channel that the alert is handed to, if any.
unfoldable pub notify_one :
    NotificationRouter → ℕ → ℤ → Alert → RoutingRuleNotify → NotificationRouter × Option String
unfolding is_quiet_suppressed buffer_for_digest severity_value
notify_one r now rule_idx alert entry = elim (lookup string_discrete entry.channel r.targets) [
  | none ↦ (r, none)
  | some target ↦
      if ltb (severity_value alert.severity_id) target.min_severity
        || is_quiet_suppressed r now entry.channel alert
      then (r, none)
      else elim entry.mode [
        | immediate ↦ (r, some target.name)
        | digest ↦ (buffer_for_digest r rule_idx entry alert, none)
      ]
]

abbrev with_name : Option String → List String → List String
with_name none names = names
with_name (some name) names = name ∷ names

unfoldable pub notify_all :
    NotificationRouter → ℕ → ℤ → Alert → List RoutingRuleNotify → NotificationRouter × List String
unfolding notify_one
notify_all r now rule_idx alert [] = (r, [])
notify_all r now rule_idx alert (entry ∷ entries) =
    let (r1, sent) = notify_one r now rule_idx alert entry in
    let (r2, names) = notify_all r1 now rule_idx alert entries in (r2, with_name sent names)

-- `route`: the router after it, and the channels that the alert is handed to at once.
unfoldable pub route :
    (String → String → Bool) → NotificationRouter → ℕ → Alert → NotificationRouter × List String
unfolding select_notify_with_idx notify_all
route glob r now alert =
    let (rule_idx, notify) = select_notify_with_idx glob r alert in
    if not r.running then (r, []) else notify_all r now rule_idx alert notify

-- `_flush_key` up to its await: the alerts that it hands to the channel; none when it ends there.
unfoldable pub flush_begin : NotificationRouter → Key → NotificationRouter × List Alert
unfolding buffer_of
flush_begin r key =
    let buf = buffer_of r key in
    let awake = record r {
      digest_tasks = erase Key-discrete key r.digest_tasks;
      digest_warned = erase Key-discrete key r.digest_warned;
    } in
    (
      if is_empty buf
          then record awake { digest_buffers = erase Key-discrete key r.digest_buffers }
          else awake,
      buf,
    )

-- The rest of `_flush_key`, delivered or failed. (A cancelled one leaves the router as it is.)
unfoldable pub flush_end : NotificationRouter → Key → NotificationRouter
flush_end r key = record r { digest_buffers = erase Key-discrete key r.digest_buffers }

-- The loop of `stop` over the buffers: the digests handed to their channels.
unfoldable pub drain :
    List (String × DeliveryTarget) → List (Key × List Alert) → List (Key × List Alert)
drain targets [] = []
drain targets ((key, buf) ∷ bs) =
    let rest = drain targets bs in
    elim (lookup string_discrete key.1 targets) [
      | none ↦ rest
      | some target ↦ if is_empty buf then rest else (key, buf) ∷ rest
    ]

-- Every key of the snapshot is popped, so no buffer is left.
unfoldable pub stop : NotificationRouter → NotificationRouter × List (Key × List Alert)
unfolding drain
stop r = (
  record r { running = false; digest_tasks = []; digest_buffers = [] },
  drain r.targets r.digest_buffers,
)

unfoldable pub start : NotificationRouter → NotificationRouter
start r = record r { running = true }

-- `none` is the ValueError of a name that is taken.
unfoldable pub register_target : NotificationRouter → DeliveryTarget → Option NotificationRouter
register_target r t = elim (lookup string_discrete t.name r.targets) [
  | none ↦ some (record r { targets = insert string_discrete t.name t r.targets })
  | some _ ↦ none
]
