-- ===== src/Ueba/Engine.antt =====
-- src/seerflow/ueba/engine.py, `UEBAEngine`. Parameters: the integer part of a float, the uuid library,
-- `str` of a template's number, an alert's risk score in thousandths, and the literals. `none` is an error
-- that the source raises.
pub mod Alerts
pub mod Total
mod Tests
use Prim.Native.String.{◌++◌ as concat}
use seerflow.Base.{
  List, Option, String, [], contains, if◌then◌else◌, insert, is_empty, ite, length, lookup, map,
  max, min, negsuc, none, not, some, string_discrete, suc, zero, ℕ, ℤ, ℤ_discrete, ◌+◌, ◌==◌, ◌∷◌,
}
use seerflow.Models.Event.{
  SeerflowEvent, SeverityLevel, trace, informational, notice, warning, error, critical, fatal,
}
use seerflow.Models.Alert.{Alert, EntityType, EntityType-discrete, ueba}
use seerflow.Detection.Floats.{Floats, max_float, min_float}
use seerflow.Detection.Threshold
use seerflow.Detection.Threshold.{Tails, DSpotThreshold, update}
use seerflow.Ueba.Baseline.{EntityBaseline, bucket_hour_utc}

-- `max(hours)`; `none` is the ValueError of an empty tuple.
unfoldable pub max_of : List ℕ → Option ℕ
max_of [] = none
max_of (n ∷ ns) = elim (max_of ns) [ none ↦ some n | some m ↦ some (max n m) ]

-- `hours[hour]`
unfoldable pub get_elem? : List ℕ → ℕ → Option ℕ
get_elem? [] i = none
get_elem? (n ∷ ns) zero = some n
get_elem? (n ∷ ns) (suc i) = get_elem? ns i

-- `sum(ip in known for ip in event_ips)`
unfoldable pub count_known : List String → List String → ℕ
count_known known [] = 0
count_known known (ip ∷ ips) = (if contains ip known then 1 else 0) + count_known known ips

-- `SeverityLevel(value)`, of a value between 0 and 6.
unfoldable pub severity_of : ℕ → SeverityLevel
severity_of n =
    if n == 0
    then trace
    else if n == 1
    then informational
    else if n == 2
    then notice
    else if n == 3
    then warning
    else if n == 4
    then error
    else if n == 5
    then critical
    else fatal

module _ (F : Floats) where
  open F use {
    Float, zero_point, one_point, of_count, plus, minus, times, divided_by, square_root, lt_float,
    le_float,
  }

  pub record Library : Type 0 where
    -- `int(x)` with 0 for a negative one, `none` for the error of a nan or an infinity.
    pub truncate : Float → Option ℕ
    pub alert_uuid : String → ℕ → String
    pub text_of : ℤ → String
    pub risk_score : Float → ℕ
    pub micro : Float
    pub three : Float
    pub six : Float
    pub dspot_risk_level : Float
    pub default_cap_multiplier : Float

  pub record ScoreBreakdown : Type 0 where
    pub time_of_day : Float
    pub source_novelty : Float
    pub volume : Float
    pub pattern_novelty : Float
    pub composite : Float

  -- The fields of `UEBAConfig` that the engine reads, with the weights of the sub-scores.
  pub record UebaConfig : Type 0 where
    pub score_threshold : Float
    pub weight_time_of_day : Float
    pub weight_source_novelty : Float
    pub weight_volume : Float
    pub weight_pattern_novelty : Float

  unfoldable pub score_time_of_day : ℕ → List ℕ → Option Float
  score_time_of_day ts_ns hours = elim (max_of hours) [
    | none ↦ none
    | some max_count ↦
        if max_count == 0 then some zero_point else elim (get_elem? hours (bucket_hour_utc ts_ns)) [
          | none ↦ none
          | some n ↦ some (
              max_float F zero_point
                (minus one_point (divided_by (of_count n) (of_count max_count))))
        ]
  ]

  unfoldable pub score_source_novelty : List String → List String → Float
  score_source_novelty event_ips known =
      if is_empty event_ips
      then zero_point
      else minus one_point
          (divided_by (of_count (count_known known event_ips)) (of_count (length event_ips)))

  unfoldable pub score_volume : Library → Float → Float
  score_volume lib volume_ema_min =
      if le_float volume_ema_min zero_point
      then zero_point
      else let lam : Float = max_float F volume_ema_min lib.micro in
        let z : Float = divided_by (minus one_point lam) (square_root lam) in
        min_float F one_point (max_float F zero_point (divided_by z lib.three))

  -- The loop of `score_pattern_novelty`: the weight of the template, the last one if it stands twice,
  -- and the greatest weight.
  unfoldable pub scan_templates :
      String → List (String × Float) → Option Float × Float → Option Float × Float
  scan_templates key [] found = found
  scan_templates key ((k, w) ∷ rest) (matched, max_w) =
      scan_templates key rest
        (ite (string_discrete k key) (some w) matched, if lt_float max_w w then w else max_w)

  unfoldable pub score_pattern_novelty : Library → ℤ → List (String × Float) → Float
  score_pattern_novelty lib template_id templates =
      ite (ℤ_discrete template_id (negsuc 0)) zero_point (
        let found = scan_templates (lib.text_of template_id) templates (none, zero_point) in
        elim found.0 [
          | none ↦ one_point
          | some w ↦
              if le_float found.1 zero_point
              then zero_point
              else minus one_point (divided_by w found.1)
        ])

  abbrev pub zero_breakdown : ScoreBreakdown
  zero_breakdown = record {
    time_of_day = zero_point;
    source_novelty = zero_point;
    volume = zero_point;
    pattern_novelty = zero_point;
    composite = zero_point;
  }

  unfoldable pub score_warm :
      Library → UebaConfig → SeerflowEvent → EntityBaseline F → Option ScoreBreakdown
  score_warm lib config event b = elim (score_time_of_day event.timestamp_ns b.hours) [
    | none ↦ none
    | some time_of_day ↦
        let source = score_source_novelty event.related_ips (map (λ e. e.0) b.source_ips) in
        let volume = score_volume lib b.volume_ema_min in
        let pattern = score_pattern_novelty lib event.template_id b.templates in
        some (record {
          time_of_day = time_of_day;
          source_novelty = source;
          volume = volume;
          pattern_novelty = pattern;
          composite =
              plus
                (plus
                  (plus (times config.weight_time_of_day time_of_day)
                    (times config.weight_source_novelty source))
                  (times config.weight_volume volume))
                (times config.weight_pattern_novelty pattern);
        })
  ]

  unfoldable pub score :
      Library → UebaConfig → SeerflowEvent → Option (EntityBaseline F) → Option ScoreBreakdown
  score lib config event none = some zero_breakdown
  score lib config event (some b) =
      if not b.warmup_complete then some zero_breakdown else score_warm lib config event b

  -- Without the description. `none` is the error of `int` on a score that is not finite.
  unfoldable pub build_alert :
      Library → SeerflowEvent → String → EntityType → ScoreBreakdown → Option Alert
  build_alert lib event entity_uuid entity_type breakdown =
      elim (lib.truncate (times breakdown.composite lib.six)) [
        | none ↦ none
        | some level ↦ some (record {
          alert_id = lib.alert_uuid entity_uuid event.timestamp_ns;
          alert_type = ueba;
          timestamp_ns = event.timestamp_ns;
          severity_id = severity_of (min 6 (max 1 (1 + level)));
          rule_name = "ueba.deviation";
          entity_uuid = entity_uuid;
          entity_value = "";
          entity_type = entity_type;
          contributing_events = event.event_id ∷ [];
          mitre_tactics = [];
          mitre_techniques = [];
          risk_score = lib.risk_score breakdown.composite;
          dedup_key = concat "ueba:" entity_uuid;
        })
      ]

  pub record UebaEngine : Type 0 where
    pub config : UebaConfig
    pub last_score : List (String × ScoreBreakdown)
    pub thresholds : List (EntityType × DSpotThreshold Float)

  module _ (T : Tails Float) where
    -- The threshold of the entity type, made at its first use.
    unfoldable pub threshold_for : Library → UebaEngine → EntityType → Option (DSpotThreshold Float)
    threshold_for lib e entity_type = elim (lookup EntityType-discrete entity_type e.thresholds) [
      | some t ↦ some t
      | none ↦ Threshold.init F T 1000 lib.dspot_risk_level 98 lib.default_cap_multiplier
    ]

    unfoldable pub current_threshold : UebaConfig → DSpotThreshold Float → Float
    current_threshold config t =
        if not t.calibrated
        then config.score_threshold
        else max_float F config.score_threshold t.upper_tail.z_q

    -- `score_and_maybe_alert` of an event with an entity and a score above zero.
    unfoldable pub judge :
        Library
        → UebaEngine
        → SeerflowEvent
        → String
        → EntityType
        → ScoreBreakdown
        → Option (UebaEngine × Option Alert)
    judge lib e event entity_uuid entity_type breakdown = elim (threshold_for lib e entity_type) [
      | none ↦ none
      | some t ↦ elim (update F T t breakdown.composite) [
        | none ↦ none
        | some (t', result) ↦
            let e' = record e {
              thresholds = insert EntityType-discrete entity_type t' e.thresholds;
            } in
            if lt_float breakdown.composite (current_threshold e.config t')
            then some (e', none)
            else elim (build_alert lib event entity_uuid entity_type breakdown) [
              | none ↦ none
              | some alert ↦ some (e', some alert)
            ]
      ]
    ]

    unfoldable pub score_and_maybe_alert :
        Library
        → UebaEngine
        → SeerflowEvent
        → Option (EntityBaseline F)
        → EntityType
        → Option (UebaEngine × (ScoreBreakdown × Option Alert))
    score_and_maybe_alert lib e event baseline entity_type =
        elim (score lib e.config event baseline) [
          | none ↦ none
          | some breakdown ↦ elim event.entity_refs [
            | [] ↦ some (e, (breakdown, none))
            | entity_uuid ∷ refs ↦
                let e' = record e {
                  last_score = insert string_discrete entity_uuid breakdown e.last_score;
                } in
                if le_float breakdown.composite zero_point
                then some (e', (breakdown, none))
                else elim (judge lib e' event entity_uuid entity_type breakdown) [
                  | none ↦ none
                  | some (e'', alert) ↦ some (e'', (breakdown, alert))
                ]
          ]
        ]
