-- ===== src/Config/Detection/Tests.antt =====
-- Settings over whole numbers.
use seerflow.Base.{leb, ltb, none, refl, some, true, ℕ, ◌↔◌, ◌≡◌}
use seerflow.Correlation.KillChain.{UuidLib}
use seerflow.Config.Detection.{Floats, DetectionConfig, validate_detection_config}
use seerflow.Config.Detection.Accepts.{
  validate_detection_config_lem, HasScoring, HasWeights, HasModels, HasCorrelation,
}

-- Numbers of hundredths.
abbrev hundredths : Floats
hundredths = record {
  Float = ℕ;
  zero_point = 0;
  one_point = 100;
  is_finite = λ a. true;
  lt_float = ltb;
  le_float = leb;
}

abbrev defaults : DetectionConfig hundredths
defaults = record {
  hst_window_size = 1000;
  hst_n_trees = 25;
  dspot_calibration_window = 1000;
  dspot_risk_level = 1;
  dspot_initial_percentile = 98;
  dspot_threshold_cap_multiplier = 500;
  hw_seasonal_period = 1440;
  hw_alpha = 30;
  hw_beta = 10;
  hw_gamma = 10;
  hw_n_std = 300;
  cusum_drift = 50;
  cusum_threshold = 500;
  cusum_ema_alpha = 10;
  cusum_warmup_buckets = 30;
  markov_smoothing = 1;
  markov_min_events = 100;
  markov_max_entities = 1000;
  max_sources = 256;
  model_save_interval_seconds = 300;
  weights_content = 30;
  weights_volume = 25;
  weights_sequence = 25;
  weights_pattern = 20;
  graph_algo_interval = 500;
  risk_half_life_hours = 4;
  risk_threshold = 5000;
  risk_max_entities = 10000;
  score_interval = 1;
  max_template_hw = 500;
  max_entity_hw = 500;
  min_events_for_scoring = 50;
  weights_template_volume = 15;
  weights_entity_volume = 15;
  graph_structural = record {
    community_crossing_enabled = true;
    betweenness_threshold = 30;
    fan_out_sigma = 300;
    fan_out_min_floor = 5;
    fan_out_history_size = 20;
  };
  kill_chain = record {
    enabled = true;
    tactic_threshold = 3;
    window_seconds = 86400;
    max_entities = 10000;
  };
}

accepts : validate_detection_config hundredths defaults ≡ none
unfolding validate_detection_config
accepts = refl

abbrev narrow : DetectionConfig hundredths
narrow = record defaults { hw_seasonal_period = 1; max_sources = 0 }

-- The code tests the sources first.
refuses : validate_detection_config hundredths narrow ≡ some "max_sources"
unfolding validate_detection_config
refuses = refl

abbrev lib : UuidLib
lib = record { parse = λ text. some text; kill_chain_id = λ entity t. entity }

validate_detection_config_lem_example : (validate_detection_config hundredths defaults ≡ none) ↔ (
    HasScoring hundredths defaults
    × HasWeights hundredths defaults
    × HasModels hundredths defaults
    × HasCorrelation hundredths defaults)
validate_detection_config_lem_example = validate_detection_config_lem hundredths defaults
