-- ===== src/Models/Alert.antt =====
-- src/seerflow/models/alert.py, _types.py: alerts and correlation rules. The free text of
-- `description` is left out. A risk score is a number of thousandths, in exact arithmetic.
use seerflow.Base.{List, String, ℕ}
use seerflow.Models.Event.{SeverityLevel}

pub data AlertType : Type 0 where
  ml sigma correlation ueba ioc : AlertType

pub data EntityType : Type 0 where
  user ip host process file domain : EntityType

unfoldable pub EntityType-discrete : Discrete EntityType
EntityType-discrete = hlevel

pub record Alert : Type 0 where
  pub alert_id : String
  pub alert_type : AlertType
  pub timestamp_ns : ℕ
  pub severity_id : SeverityLevel
  pub rule_name : String
  pub entity_uuid : String
  pub entity_value : String
  pub entity_type : EntityType
  pub contributing_events : List String
  pub mitre_tactics : List String
  pub mitre_techniques : List String
  pub risk_score : ℕ
  pub dedup_key : String

-- `conditions` maps the name of an event's field to a pattern.
pub record SourceCondition : Type 0 where
  pub source_type : String
  pub conditions : List (String × String)
  pub min_count : ℕ

pub record CorrelationRule : Type 0 where
  pub name : String
  pub entity_type : EntityType
  pub window_seconds : ℕ
  pub sources : List SourceCondition
  pub min_sources : ℕ
  pub alert_severity : SeverityLevel
  pub mitre_tactics : List String
  pub mitre_techniques : List String
