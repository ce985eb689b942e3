-- ===== src/Alerting/Router/Settings.antt =====
-- src/seerflow/alerting/router.py: routing rules, quiet hours and the router's state.
use seerflow.Base.{Bool, List, Option, String, string_discrete, ℕ, ℕ_discrete, ℤ}
use seerflow.Models.Alert.{Alert}

pub record QuietHours : Type 0 where
  pub start : ℕ
  pub end : ℕ
  pub min_severity : ℕ

-- `str | tuple[str, ...] | None`
pub data StrPredicate : Type 0 where
  anything : StrPredicate
  exactly : String → StrPredicate
  one_of : List String → StrPredicate

pub record RoutingRuleMatch : Type 0 where
  pub alert_type : StrPredicate
  pub rule_name : Option String
  pub entity_type : StrPredicate
  pub min_severity : Option ℕ
  pub max_severity : Option ℕ

pub data Mode : Type 0 where
  immediate digest : Mode

pub record RoutingRuleNotify : Type 0 where
  pub channel : String
  pub mode : Mode
  pub digest_window_minutes : ℕ

pub record RoutingRule : Type 0 where
  pub criteria : RoutingRuleMatch
  pub notify : List RoutingRuleNotify

pub data DefaultAction : Type 0 where
  drop_alert notify_default : DefaultAction

pub record DefaultRouting : Type 0 where
  pub action : DefaultAction
  pub notify : List RoutingRuleNotify

-- The name and the least severity of a `DeliveryTarget`.
pub record DeliveryTarget : Type 0 where
  pub name : String
  pub min_severity : ℕ

-- The index of a rule, -1 for the default, and a channel.
abbrev pub Key : Type 0
Key = ℤ × String

unfoldable pub Key-discrete : Discrete Key
Key-discrete = hlevel (ℕ_discrete, string_discrete)

pub record NotificationRouter : Type 0 where
  pub targets : List (String × DeliveryTarget)
  pub rules : List RoutingRule
  pub default_routing : DefaultRouting
  pub quiet : List (String × QuietHours)
  pub running : Bool
  pub digest_buffers : List (Key × List Alert)
  pub digest_tasks : List (Key × ℕ)
  pub digest_warned : List (Key × Unit {0})
