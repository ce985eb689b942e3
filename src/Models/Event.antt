-- ===== src/Models/Event.antt =====
-- src/seerflow/models/event.py: the normalised event. The record holds the fields that the modelled
-- components read; times are nanoseconds since the epoch.
use seerflow.Base.{List, String, ℕ, ℤ}

pub data SeverityLevel : Type 0 where
  trace informational notice warning error critical fatal : SeverityLevel

-- `int(severity)`
unfoldable pub severity_value : SeverityLevel → ℕ
severity_value trace = 0
severity_value informational = 1
severity_value notice = 2
severity_value warning = 3
severity_value error = 4
severity_value critical = 5
severity_value fatal = 6

pub record SeerflowEvent : Type 0 where
  pub event_id : String
  pub timestamp_ns : ℕ
  pub severity_id : SeverityLevel
  pub source_type : String
  pub template_id : ℤ
  pub entity_refs : List String
  pub related_ips : List String
  pub related_users : List String
  pub related_hosts : List String
  pub related_files : List String
  pub related_domains : List String
  pub related_processes : List String
