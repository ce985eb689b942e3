-- ===== src/Config/Detection.antt =====
-- src/seerflow/config.py `DetectionConfig`, `GraphStructuralConfig`, and _config_validation.py
-- `_validate_detection_config`. Floating-point numbers and their comparisons are a parameter. An int
-- is a natural number: every test rejects 0, and rejects a negative number as it does 0. The lists of
-- Sigma directories and of ATT&CK mappings, which the validation does not read, are left out.
pub mod Accepts
mod Tests
use seerflow.Base.{Bool, Option, String, false, ltb, none, not, some, true, ℕ, ◌&&◌, ◌||◌}
use seerflow.Correlation.KillChain.{KillChainConfig}

pub record Floats : Type 1 where
  pub Float : Type 0
  pub zero_point : Float
  pub one_point : Float
  pub is_finite : Float → Bool
  pub lt_float : Float → Float → Bool
  pub le_float : Float → Float → Bool

-- What a part of the validation comes to: the field that the ConfigError names, or `none` when nothing
-- is raised.
abbrev pub Outcome : Type 0
Outcome = Option String

infixl 5 ◌>>◌
abbrev pub ◌>>◌ : Outcome → Outcome → Outcome
none >> rest = rest
some field >> rest = some field

-- `if not ok: raise ConfigError(...)`
abbrev pub require : Bool → String → Outcome
require true field = none
require false field = some field

module _ (F : Floats) where
  open F use {Float, zero_point, one_point, is_finite, lt_float, le_float}

  pub record GraphStructuralConfig : Type 0 where
    pub community_crossing_enabled : Bool
    pub betweenness_threshold : Float
    pub fan_out_sigma : Float
    pub fan_out_min_floor : ℕ
    pub fan_out_history_size : ℕ

  pub record DetectionConfig : Type 0 where
    pub hst_window_size : ℕ
    pub hst_n_trees : ℕ
    pub dspot_calibration_window : ℕ
    pub dspot_risk_level : Float
    pub dspot_initial_percentile : ℕ
    pub dspot_threshold_cap_multiplier : Float
    pub hw_seasonal_period : ℕ
    pub hw_alpha : Float
    pub hw_beta : Float
    pub hw_gamma : Float
    pub hw_n_std : Float
    pub cusum_drift : Float
    pub cusum_threshold : Float
    pub cusum_ema_alpha : Float
    pub cusum_warmup_buckets : ℕ
    pub markov_smoothing : Float
    pub markov_min_events : ℕ
    pub markov_max_entities : ℕ
    pub max_sources : ℕ
    pub model_save_interval_seconds : ℕ
    pub weights_content : Float
    pub weights_volume : Float
    pub weights_sequence : Float
    pub weights_pattern : Float
    pub graph_algo_interval : ℕ
    pub risk_half_life_hours : ℕ
    pub risk_threshold : Float
    pub risk_max_entities : ℕ
    pub score_interval : ℕ
    pub max_template_hw : ℕ
    pub max_entity_hw : ℕ
    pub min_events_for_scoring : ℕ
    pub weights_template_volume : Float
    pub weights_entity_volume : Float
    pub graph_structural : GraphStructuralConfig
    pub kill_chain : KillChainConfig

  -- `_require_finite_positive` and `_require_open_unit`: whether they raise nothing.
  unfoldable pub finite_positive : Float → Bool
  finite_positive v = is_finite v && not (le_float v zero_point)

  unfoldable pub open_unit : Float → Bool
  open_unit v = lt_float zero_point v && lt_float v one_point

  -- A weight is finite, then not negative.
  unfoldable pub weight_ok : Float → Bool
  weight_ok v = is_finite v && not (lt_float v zero_point)

  abbrev pub at_least : ℕ → ℕ → Bool
  at_least low v = not (ltb v low)

  abbrev pub between : ℕ → ℕ → ℕ → Bool
  between low high v = not (ltb v low || ltb high v)

  unfoldable pub validate_scoring : DetectionConfig → Outcome
  unfolding open_unit
  validate_scoring c = do
    require (at_least 1 c.hst_window_size) "hst_window_size"
    require (at_least 1 c.hst_n_trees) "hst_n_trees"
    require (at_least 1 c.dspot_calibration_window) "dspot_calibration_window"
    require (open_unit c.dspot_risk_level) "dspot_risk_level"
    require (between 1 100 c.dspot_initial_percentile) "dspot_initial_percentile"
    require
        (is_finite c.dspot_threshold_cap_multiplier
          && not (le_float c.dspot_threshold_cap_multiplier one_point))
        "dspot_threshold_cap_multiplier"
    require (at_least 1 c.markov_min_events) "markov_min_events"

  unfoldable pub validate_weights : DetectionConfig → Outcome
  unfolding weight_ok
  validate_weights c = do
    require (weight_ok c.weights_content) "weights_content"
    require (weight_ok c.weights_volume) "weights_volume"
    require (weight_ok c.weights_sequence) "weights_sequence"
    require (weight_ok c.weights_pattern) "weights_pattern"
    require (weight_ok c.weights_template_volume) "weights_template_volume"
    require (weight_ok c.weights_entity_volume) "weights_entity_volume"
    require (at_least 1 c.model_save_interval_seconds) "model_save_interval_seconds"
    require (between 1 100000 c.markov_max_entities) "markov_max_entities"
    require (between 1 10000 c.max_sources) "max_sources"

  unfoldable pub validate_models : DetectionConfig → Outcome
  unfolding finite_positive open_unit
  validate_models c = do
    require (open_unit c.cusum_ema_alpha) "cusum_ema_alpha"
    require (at_least 1 c.cusum_warmup_buckets) "cusum_warmup_buckets"
    require (finite_positive c.cusum_drift) "cusum_drift"
    require (finite_positive c.cusum_threshold) "cusum_threshold"
    require (open_unit c.hw_alpha) "hw_alpha"
    require (open_unit c.hw_beta) "hw_beta"
    require (open_unit c.hw_gamma) "hw_gamma"
    require (finite_positive c.hw_n_std) "hw_n_std"
    require (at_least 2 c.hw_seasonal_period) "hw_seasonal_period"
    require (finite_positive c.markov_smoothing) "markov_smoothing"

  unfoldable pub validate_correlation : DetectionConfig → Outcome
  validate_correlation c = do
    require (between 10 100000 c.graph_algo_interval) "graph_algo_interval"
    require (at_least 1 c.risk_half_life_hours) "risk_half_life_hours"
    require (not (le_float c.risk_threshold zero_point)) "risk_threshold"
    require (at_least 1 c.risk_max_entities) "risk_max_entities"
    require (at_least 1 c.score_interval) "score_interval"
    require (between 1 100000 c.max_template_hw) "max_template_hw"
    require (between 1 100000 c.max_entity_hw) "max_entity_hw"
    require (between 1 100000 c.min_events_for_scoring) "min_events_for_scoring"
    require
        (lt_float zero_point c.graph_structural.betweenness_threshold
          && le_float c.graph_structural.betweenness_threshold one_point)
        "graph_structural.betweenness_threshold"
    require (not (le_float c.graph_structural.fan_out_sigma zero_point))
        "graph_structural.fan_out_sigma"
    require (at_least 1 c.graph_structural.fan_out_min_floor) "graph_structural.fan_out_min_floor"
    require (at_least 3 c.graph_structural.fan_out_history_size)
        "graph_structural.fan_out_history_size"
    require (at_least 2 c.kill_chain.tactic_threshold) "kill_chain.tactic_threshold"
    require (at_least 60 c.kill_chain.window_seconds) "kill_chain.window_seconds"
    require (at_least 1 c.kill_chain.max_entities) "kill_chain.max_entities"

  unfoldable pub validate_detection_config : DetectionConfig → Outcome
  unfolding validate_scoring validate_weights validate_models validate_correlation
  validate_detection_config c = do
    validate_scoring c
    validate_weights c
    validate_models c
    validate_correlation c
