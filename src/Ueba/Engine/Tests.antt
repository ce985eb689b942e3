-- ===== src/Ueba/Engine/Tests.antt =====
-- An engine whose scores weigh the source only; "eve" is known from "a" and comes from "z".
use seerflow.Base.{
  [], arith, contains, false, insert, lookup, ltb, negsuc, none, refl, some, string_discrete, true,
  ℕ, ℕ_discrete, ℤ_discrete, ◌/◌, ◌∷◌, ◌≡◌,
}
use seerflow.Models.Event.{SeerflowEvent, fatal}
use seerflow.Models.Alert.{Alert, EntityType-discrete, user, ueba}
use seerflow.Detection.Floats.{max_float, min_float}
use seerflow.Detection.Samples.{thousandths, event_at}
use seerflow.Detection.Threshold
use seerflow.Detection.Threshold.{Tails, DSpotThreshold, value_error, init, update, collect}
use seerflow.Ueba.Baseline.{EntityBaseline, UebaParams, zeros, bucket_hour_utc}
use seerflow.Ueba.Engine.{
  Library, ScoreBreakdown, UebaEngine, max_of, get_elem?, count_known, severity_of, score,
  score_warm, score_time_of_day, score_source_novelty, score_volume, scan_templates,
  score_pattern_novelty, threshold_for, current_threshold, judge, score_and_maybe_alert,
  build_alert, zero_breakdown,
}
use seerflow.Ueba.Engine.Alerts.{IsJustified, is_warm, score_and_maybe_alert-IsJustified}
use seerflow.Ueba.Engine.Total.{Explained, score_and_maybe_alert-total}

program : Unit {0}
unfolding max_of get_elem? count_known severity_of score score_warm score_time_of_day
    score_source_novelty score_volume scan_templates score_pattern_novelty threshold_for
    current_threshold judge score_and_maybe_alert build_alert zeros bucket_hour_utc max_float
    min_float init update collect lookup insert contains string_discrete EntityType-discrete
    ℤ_discrete ℕ_discrete
program = tt

abbrev tails : Tails ℕ
tails = record {
  infinity = 1000000000;
  neg_infinity = 0;
  percentile = λ xs p. p;
  gpd_fit = λ xs. value_error;
  is_negligible = λ x. false;
  logarithm = λ x. x;
  power = λ x y. x;
}

abbrev lib : Library thousandths
lib = record {
  truncate = λ x. some (x / 1000);
  alert_uuid = λ s t. s;
  text_of = λ t. "t";
  risk_score = λ x. x;
  micro = 1;
  three = 3000;
  six = 6000;
  dspot_risk_level = 1;
  default_cap_multiplier = 5000;
}

abbrev engine : UebaEngine thousandths
engine = record {
  config = record {
    score_threshold = 750;
    weight_time_of_day = 0;
    weight_source_novelty = 1000;
    weight_volume = 0;
    weight_pattern_novelty = 0;
  };
  last_score = [];
  thresholds = [];
}

abbrev event : SeerflowEvent
event = record (event_at 0 (negsuc 0) ("eve" ∷ [])) { related_ips = "z" ∷ [] }

abbrev baseline : EntityBaseline thousandths
baseline = record {
  entity_uuid = "eve";
  entity_type = user;
  first_seen_ns = 0;
  last_seen_ns = 0;
  event_count = 5;
  warmup_complete = true;
  hours = 5 ∷ 0 ∷ [];
  source_ips = ("a", 0) ∷ [];
  volume_ema_min = 1000;
  volume_ema_hour = 1000;
  volume_last_ns = 0;
  templates = [];
}

abbrev breakdown : ScoreBreakdown thousandths
breakdown = record {
  time_of_day = 0;
  source_novelty = 1000;
  volume = 0;
  pattern_novelty = 0;
  composite = 1000;
}

abbrev after : UebaEngine thousandths
after = record engine {
  last_score = ("eve", breakdown) ∷ [];
  thresholds =
      (
        user,
        record {
          calibration_window = 1000;
          risk_level = 1;
          initial_percentile = 98;
          cap_multiplier = 5000;
          calibrated_upper_z_q = 0;
          scores = 1000 ∷ [];
          upper_tail = record { threshold = 0; z_q = 1000000000; excesses = []; n_exceed = 0 };
          lower_tail = record { threshold = 0; z_q = 0; excesses = []; n_exceed = 0 };
          n_total = 0;
          calibrated = false;
        },
      )
      ∷ [];
}

abbrev alert : Alert
alert = record {
  alert_id = "eve";
  alert_type = ueba;
  timestamp_ns = 0;
  severity_id = fatal;
  rule_name = "ueba.deviation";
  entity_uuid = "eve";
  entity_value = "";
  entity_type = user;
  contributing_events = "e" ∷ [];
  mitre_tactics = [];
  mitre_techniques = [];
  risk_score = 1000;
  dedup_key = "ueba:eve";
}

raises :
    score_and_maybe_alert thousandths tails lib engine event (some baseline) user
    ≡ some (after, (breakdown, some alert))
unfolding program
raises = refl

below_transitive : (a b c : ℕ) → ltb a b ≡ true → ltb b c ≡ true → ltb a c ≡ true
below_transitive a b c p q = ground arith

score_and_maybe_alert-IsJustified_example :
    IsJustified thousandths tails lib engine event (some baseline) user breakdown alert
score_and_maybe_alert-IsJustified_example =
    score_and_maybe_alert-IsJustified thousandths tails lib below_transitive refl engine after event
      (some baseline) user breakdown alert raises

abbrev params : UebaParams thousandths
params = record {
  alpha = 500;
  source_ip_cap = 2;
  template_top_k = 1;
  warmup_days = 1;
  warmup_min_events = 2;
}

makes_threshold :
    Threshold.init thousandths tails 1000 1 98 5000
    ≡ some (record {
      calibration_window = 1000;
      risk_level = 1;
      initial_percentile = 98;
      cap_multiplier = 5000;
      calibrated_upper_z_q = 0;
      scores = [];
      upper_tail = record { threshold = 0; z_q = 1000000000; excesses = []; n_exceed = 0 };
      lower_tail = record { threshold = 0; z_q = 0; excesses = []; n_exceed = 0 };
      n_total = 0;
      calibrated = false;
    })
unfolding program
makes_threshold = refl

score_and_maybe_alert-total_example :
    (score_and_maybe_alert thousandths tails lib engine event none user ≡ none
      → Explained thousandths tails lib params below_transitive refl engine event none user)
    × (is_warm thousandths tails lib none ≡ false
        → (e' : UebaEngine thousandths) × (score_and_maybe_alert thousandths tails lib engine event
              none user
            ≡ some (e', (zero_breakdown thousandths, none)))
          × (e'.thresholds ≡ []))
score_and_maybe_alert-total_example =
    score_and_maybe_alert-total thousandths tails lib params below_transitive refl (λ t. "t") engine
      event none user tt makes_threshold
