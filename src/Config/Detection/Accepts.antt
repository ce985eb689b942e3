-- ===== src/Config/Detection/Accepts.antt =====
-- Which settings the validation accepts, and what the components get from it.
use seerflow.Base.{List, arith, false, none, refl, some, true, ◌↔◌, ◌≡◌, ◌≤◌}
use seerflow.Models.Alert.{Alert}
use seerflow.Correlation.KillChain.{UuidLib, init}
use seerflow.Correlation.KillChain.Invariant.{IsValid}
use seerflow.Correlation.KillChain.Threshold.{record_alerts, record_alerts-IsValid}
use seerflow.Config.Detection.{
  Floats, DetectionConfig, Outcome, ◌>>◌, open_unit, finite_positive, weight_ok, validate_scoring,
  validate_weights, validate_models, validate_correlation, validate_detection_config,
}

module _ (F : Floats) where
  -- Between zero and one, both excluded.
  abbrev pub IsOpenUnit : F.Float → Type 0
  IsOpenUnit v = (F.lt_float F.zero_point v ≡ true) × (F.lt_float v F.one_point ≡ true)

  abbrev pub IsFinitePositive : F.Float → Type 0
  IsFinitePositive v = (F.is_finite v ≡ true) × (F.le_float v F.zero_point ≡ false)

  -- Finite and not negative.
  abbrev pub IsWeight : F.Float → Type 0
  IsWeight v = (F.is_finite v ≡ true) × (F.lt_float v F.zero_point ≡ false)

  -- The ranges of the settings of the half-space trees and the thresholds.
  pub record HasScoring (c : DetectionConfig F) : Type 0 where
    pub hst_window : 1 ≤ c.hst_window_size
    pub hst_trees : 1 ≤ c.hst_n_trees
    pub calibration : 1 ≤ c.dspot_calibration_window
    pub risk_level : IsOpenUnit c.dspot_risk_level
    pub percentile : (1 ≤ c.dspot_initial_percentile) × (c.dspot_initial_percentile ≤ 100)
    pub cap_multiplier :
        (F.is_finite c.dspot_threshold_cap_multiplier ≡ true)
        × (F.le_float c.dspot_threshold_cap_multiplier F.one_point ≡ false)
    pub markov_events : 1 ≤ c.markov_min_events

  -- The ranges of the weights, and of the sizes and the interval of the ensemble.
  pub record HasWeights (c : DetectionConfig F) : Type 0 where
    pub content : IsWeight c.weights_content
    pub volume : IsWeight c.weights_volume
    pub sequence : IsWeight c.weights_sequence
    pub pattern : IsWeight c.weights_pattern
    pub template_volume : IsWeight c.weights_template_volume
    pub entity_volume : IsWeight c.weights_entity_volume
    pub save_interval : 1 ≤ c.model_save_interval_seconds
    pub markov_entities : (1 ≤ c.markov_max_entities) × (c.markov_max_entities ≤ 100000)
    pub sources : (1 ≤ c.max_sources) × (c.max_sources ≤ 10000)

  -- The ranges of the settings of the detectors' models.
  pub record HasModels (c : DetectionConfig F) : Type 0 where
    pub ema_alpha : IsOpenUnit c.cusum_ema_alpha
    pub warmup : 1 ≤ c.cusum_warmup_buckets
    pub drift : IsFinitePositive c.cusum_drift
    pub change_threshold : IsFinitePositive c.cusum_threshold
    pub alpha : IsOpenUnit c.hw_alpha
    pub beta : IsOpenUnit c.hw_beta
    pub gamma : IsOpenUnit c.hw_gamma
    pub deviations : IsFinitePositive c.hw_n_std
    pub season : 2 ≤ c.hw_seasonal_period
    pub smoothing : IsFinitePositive c.markov_smoothing

  -- The ranges of the settings of the correlation, the graph and the kill chain.
  pub record HasCorrelation (c : DetectionConfig F) : Type 0 where
    pub algo_interval : (10 ≤ c.graph_algo_interval) × (c.graph_algo_interval ≤ 100000)
    pub half_life : 1 ≤ c.risk_half_life_hours
    pub risk_threshold : F.le_float c.risk_threshold F.zero_point ≡ false
    pub risk_entities : 1 ≤ c.risk_max_entities
    pub interval : 1 ≤ c.score_interval
    pub template_hw : (1 ≤ c.max_template_hw) × (c.max_template_hw ≤ 100000)
    pub entity_hw : (1 ≤ c.max_entity_hw) × (c.max_entity_hw ≤ 100000)
    pub min_events : (1 ≤ c.min_events_for_scoring) × (c.min_events_for_scoring ≤ 100000)
    pub betweenness :
        (F.lt_float F.zero_point c.graph_structural.betweenness_threshold ≡ true)
        × (F.le_float c.graph_structural.betweenness_threshold F.one_point ≡ true)
    pub fan_out_sigma : F.le_float c.graph_structural.fan_out_sigma F.zero_point ≡ false
    pub fan_out_floor : 1 ≤ c.graph_structural.fan_out_min_floor
    pub fan_out_history : 3 ≤ c.graph_structural.fan_out_history_size
    pub tactic_threshold : 2 ≤ c.kill_chain.tactic_threshold
    pub kill_chain_window : 60 ≤ c.kill_chain.window_seconds
    pub kill_chain_entities : 1 ≤ c.kill_chain.max_entities

  >>-none : (m rest : Outcome) → (m >> rest) ≡ none → (m ≡ none) × (rest ≡ none)
  >>-none none rest h = (refl, h)
  >>-none (some field) rest h = absurd (ground arith)

  scoring-none : (c : DetectionConfig F) → validate_scoring F c ≡ none → HasScoring c
  unfolding validate_scoring open_unit
  scoring-none c h = ground arith

  none-scoring : (c : DetectionConfig F) → HasScoring c → validate_scoring F c ≡ none
  unfolding validate_scoring open_unit
  none-scoring c h = ground arith

  weights-none : (c : DetectionConfig F) → validate_weights F c ≡ none → HasWeights c
  unfolding validate_weights weight_ok
  weights-none c h = ground arith

  none-weights : (c : DetectionConfig F) → HasWeights c → validate_weights F c ≡ none
  unfolding validate_weights weight_ok
  none-weights c h = ground arith

  models-none : (c : DetectionConfig F) → validate_models F c ≡ none → HasModels c
  unfolding validate_models open_unit finite_positive
  models-none c h = ground arith

  none-models : (c : DetectionConfig F) → HasModels c → validate_models F c ≡ none
  unfolding validate_models open_unit finite_positive
  none-models c h = ground arith

  correlation-none : (c : DetectionConfig F) → validate_correlation F c ≡ none → HasCorrelation c
  unfolding validate_correlation
  correlation-none c h = ground arith

  none-correlation : (c : DetectionConfig F) → HasCorrelation c → validate_correlation F c ≡ none
  unfolding validate_correlation
  none-correlation c h = ground arith

  -- The validation raises nothing exactly when each setting is in its range: those of the half-space
  -- trees and the thresholds, of the weights and the ensemble, of the detectors' models, and of the
  -- correlation, the graph and the kill chain.
  pub validate_detection_config_lem :
      (c : DetectionConfig F)
      → (validate_detection_config F c ≡ none)
        ↔ (HasScoring c × HasWeights c × HasModels c × HasCorrelation c)
  unfolding validate_detection_config
  validate_detection_config_lem c =
      let models = validate_models F c in
      let correlation = validate_correlation F c in
      (
        λ h.
            let a =
              >>-none (validate_scoring F c) (validate_weights F c >> (models >> correlation)) h in
            let b = >>-none (validate_weights F c) (models >> correlation) a.1 in
            let d = >>-none models correlation b.1 in
            (scoring-none c a.0, weights-none c b.0, models-none c d.0, correlation-none c d.1),
        λ h. ground (
          arith,
          none-scoring c h.0,
          none-weights c h.1,
          none-models c h.2,
          none-correlation c h.3,
        ),
      )

  -- A kill-chain tracker made from settings that the validation accepts keeps its invariant over every
  -- sequence of alerts.
  pub validate_detection_config-IsValid :
      (lib : UuidLib) (c : DetectionConfig F) (alerts : List Alert)
      → validate_detection_config F c ≡ none
      → IsValid (record_alerts lib (init c.kill_chain) alerts)
  validate_detection_config-IsValid lib c alerts accepted =
      let ranges = ((validate_detection_config_lem c).0 accepted).3 in
      (record_alerts-IsValid lib c.kill_chain alerts (omega (arith, ranges.tactic_threshold))
        ranges.kill_chain_entities).0
