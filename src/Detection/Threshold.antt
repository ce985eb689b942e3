-- ===== src/Detection/Threshold.antt =====
-- src/seerflow/detection/threshold.py, `DSpotThreshold`. The percentiles of numpy and the fit of scipy
-- are parameters, and so are the bytes of the saved state. `none` is an error that the source raises.
pub mod Flags
pub mod Capped
mod Tests
use seerflow.Base.{
  Bool, List, Option, [], append_bounded, false, if◌then◌else◌, keep, leb, length, ltb, map, max,
  none, not, some, true, ℕ, ◌%◌, ◌&&◌, ◌++◌, ◌+◌, ◌-◌, ◌==◌, ◌||◌, ◌∷◌,
}
use seerflow.Detection.Floats.{Floats, max_float, min_float}

abbrev pub max_excesses : ℕ
max_excesses = 10000

-- What `genpareto.fit` comes to: the shape and the scale, or one of the two errors that it documents.
pub data Fit (Float : Type 0) : Type 0 where
  fitted : Float → Float → Fit Float
  value_error : Fit Float
  fit_error : Fit Float

-- `is_negligible x` is `abs(x) < 1e-10`.
pub record Tails (Float : Type 0) : Type 0 where
  pub infinity : Float
  pub neg_infinity : Float
  pub percentile : List Float → ℕ → Float
  pub gpd_fit : List Float → Fit Float
  pub is_negligible : Float → Bool
  pub logarithm : Float → Float
  pub power : Float → Float → Float

pub data Direction : Type 0 where
  upper lower : Direction

pub record TailState (Float : Type 0) : Type 0 where
  pub threshold : Float
  pub z_q : Float
  pub excesses : List Float
  pub n_exceed : ℕ

pub record ThresholdResult (Float : Type 0) : Type 0 where
  pub is_anomaly : Bool
  pub upper_threshold : Float
  pub lower_threshold : Float
  pub score : Float
  pub anomaly_direction : Option Direction

pub record DSpotThreshold (Float : Type 0) : Type 0 where
  pub calibration_window : ℕ
  pub risk_level : Float
  pub initial_percentile : ℕ
  pub cap_multiplier : Float
  pub calibrated_upper_z_q : Float
  pub scores : List Float
  pub upper_tail : TailState Float
  pub lower_tail : TailState Float
  pub n_total : ℕ
  pub calibrated : Bool

module _ (F : Floats) (T : Tails F.Float) where
  open F use {
    Float, zero_point, one_point, of_count, plus, minus, times, divided_by, is_finite, lt_float,
    le_float,
  }

  unfoldable pub init : ℕ → Float → ℕ → Float → Option (DSpotThreshold Float)
  init calibration_window risk_level initial_percentile cap_multiplier =
      if ltb calibration_window 200
      then none
      else if not (lt_float zero_point risk_level && lt_float risk_level one_point)
      then none
      else if not (leb 50 initial_percentile && leb initial_percentile 99)
      then none
      else if not (is_finite cap_multiplier) || le_float cap_multiplier one_point
      then none
      else some (record {
        calibration_window = calibration_window;
        risk_level = risk_level;
        initial_percentile = initial_percentile;
        cap_multiplier = cap_multiplier;
        calibrated_upper_z_q = zero_point;
        scores = [];
        upper_tail = record {
          threshold = zero_point;
          z_q = T.infinity;
          excesses = [];
          n_exceed = 0;
        };
        lower_tail = record {
          threshold = zero_point;
          z_q = T.neg_infinity;
          excesses = [];
          n_exceed = 0;
        };
        n_total = 0;
        calibrated = false;
      })

  -- `none` is a FitError, which is a RuntimeError that the source does not catch, and `some none` is
  -- Python's None.
  unfoldable pub fit_gpd_tail : DSpotThreshold Float → List Float → Float → Option (Option Float)
  fit_gpd_tail d excesses base =
      if ltb (length excesses) 10 then some none else elim (T.gpd_fit excesses) [
        | fit_error ↦ none
        | value_error ↦ some none
        | fitted shape scale ↦
            let ratio : Float =
              divided_by (of_count (length excesses))
                (times (of_count (max d.n_total 1)) d.risk_level) in
            some (
              some (
                if T.is_negligible shape
                then plus base (times scale (T.logarithm ratio))
                else plus base
                    (times (divided_by scale shape) (minus (T.power ratio shape) one_point))))
      ]

  abbrev pub set_upper : DSpotThreshold Float → Option Float → DSpotThreshold Float
  set_upper d none = d
  set_upper d (some z) = record d {
    upper_tail = record d.upper_tail { z_q = max_float F z d.upper_tail.threshold };
  }

  abbrev pub set_lower : DSpotThreshold Float → Option Float → DSpotThreshold Float
  set_lower d none = d
  set_lower d (some z) =
      let base = d.lower_tail.threshold in
      record d {
        lower_tail = record d.lower_tail { z_q = min_float F (minus base (minus z base)) base };
      }

  unfoldable pub refit_upper : DSpotThreshold Float → Option (DSpotThreshold Float)
  refit_upper d = elim (fit_gpd_tail d d.upper_tail.excesses d.upper_tail.threshold) [
    | none ↦ none
    | some z ↦ some (set_upper d z)
  ]

  unfoldable pub refit_lower : DSpotThreshold Float → Option (DSpotThreshold Float)
  refit_lower d = elim (fit_gpd_tail d d.lower_tail.excesses d.lower_tail.threshold) [
    | none ↦ none
    | some z ↦ some (set_lower d z)
  ]

  -- `z_q`, or the percentile where the fit gave no finite one.
  abbrev finite_z_q : TailState Float → TailState Float
  finite_z_q tail = record tail { z_q = if is_finite tail.z_q then tail.z_q else tail.threshold }

  -- `_calibrate` up to the fits.
  unfoldable pub prepare : DSpotThreshold Float → DSpotThreshold Float
  prepare d =
      let up = T.percentile d.scores d.initial_percentile in
      let down = T.percentile d.scores (100 - d.initial_percentile) in
      let above = map (λ s. minus s up) (keep (λ s. lt_float up s) d.scores) in
      let under = map (λ s. minus down s) (keep (λ s. lt_float s down) d.scores) in
      record d {
        scores = [];
        upper_tail = record d.upper_tail {
          threshold = up;
          excesses = above;
          n_exceed = length above;
        };
        lower_tail = record d.lower_tail {
          threshold = down;
          excesses = under;
          n_exceed = length under;
        };
        n_total = length d.scores;
      }

  -- The end of `_calibrate`, past the fits.
  unfoldable pub settle : DSpotThreshold Float → DSpotThreshold Float
  settle fitted_both =
      let upper_tail = finite_z_q fitted_both.upper_tail in
      record fitted_both {
        upper_tail = upper_tail;
        lower_tail = finite_z_q fitted_both.lower_tail;
        calibrated_upper_z_q = upper_tail.z_q;
        calibrated = true;
      }

  unfoldable pub calibrate : DSpotThreshold Float → Option (DSpotThreshold Float)
  calibrate d = elim (refit_upper (prepare d)) [
    | none ↦ none
    | some d' ↦ elim (refit_lower d') [ none ↦ none | some d'' ↦ some (settle d'') ]
  ]

  -- `excesses.append(x)`, with the last `max_excesses` kept.
  unfoldable pub add_excess : TailState Float → Float → TailState Float
  add_excess tail x = record tail {
    excesses = append_bounded max_excesses tail.excesses x;
    n_exceed = tail.n_exceed + 1;
  }

  unfoldable pub note_upper : DSpotThreshold Float → Float → Option (DSpotThreshold Float)
  note_upper d score =
      if not (lt_float d.upper_tail.threshold score)
      then some d
      else let tail = add_excess d.upper_tail (minus score d.upper_tail.threshold) in
        let d' = record d { upper_tail = tail } in
        if tail.n_exceed % 50 == 0 then refit_upper d' else some d'

  unfoldable pub note_lower : DSpotThreshold Float → Float → Option (DSpotThreshold Float)
  note_lower d score =
      if not (lt_float score d.lower_tail.threshold)
      then some d
      else let tail = add_excess d.lower_tail (minus d.lower_tail.threshold score) in
        let d' = record d { lower_tail = tail } in
        if tail.n_exceed % 50 == 0 then refit_lower d' else some d'

  abbrev pub result : DSpotThreshold Float → Float → Option Direction → ThresholdResult Float
  result d score direction =
      let is_anomaly : Option Direction → Bool = λ o. elim o [ none ↦ false | some x ↦ true ] in
      record {
        is_anomaly = is_anomaly direction;
        upper_threshold = d.upper_tail.z_q;
        lower_threshold = d.lower_tail.z_q;
        score = score;
        anomaly_direction = direction;
      }

  -- `update` before the calibration.
  unfoldable pub collect : DSpotThreshold Float → Float → Option (DSpotThreshold Float)
  collect d score =
      let d' = record d { scores = d.scores ++ score ∷ [] } in
      if leb d.calibration_window (length d'.scores) then calibrate d' else some d'

  -- A score that is no anomaly.
  unfoldable pub note : DSpotThreshold Float → Float → Option (DSpotThreshold Float)
  note d score = elim (note_upper d score) [ none ↦ none | some d' ↦ note_lower d' score ]

  abbrev pub answer_normal :
      Option (DSpotThreshold Float) → Float → Option (DSpotThreshold Float × ThresholdResult Float)
  answer_normal none score = none
  answer_normal (some d) score = some (d, result d score none)

  -- `none` is a FitError; what it leaves of the state is not modelled.
  unfoldable pub update :
      DSpotThreshold Float → Float → Option (DSpotThreshold Float × ThresholdResult Float)
  update d score =
      if not d.calibrated
      then answer_normal (collect d score) score
      else let d' = record d { n_total = d.n_total + 1 } in
        if lt_float d.upper_tail.z_q score
        then some (d', result d' score (some upper))
        else if lt_float score d.lower_tail.z_q
        then some (d', result d' score (some lower))
        else answer_normal (note d' score) score

  -- The pair that Python returns, whether it was clamped and the ratio, with the new state.
  unfoldable pub adjust_upper_threshold :
      DSpotThreshold Float → Float → Option (DSpotThreshold Float × (Bool × Float))
  adjust_upper_threshold d factor =
      if le_float factor zero_point || not (is_finite factor)
      then none
      else if not d.calibrated || le_float d.calibrated_upper_z_q zero_point
      then some (d, (false, zero_point))
      else let proposed : Float = times d.upper_tail.z_q factor in
        let cap : Float = times d.calibrated_upper_z_q d.cap_multiplier in
        if lt_float cap proposed
        then some
            (record d { upper_tail = record d.upper_tail { z_q = cap } }, (true, d.cap_multiplier))
        else some (
          record d { upper_tail = record d.upper_tail { z_q = proposed } },
          (false, divided_by proposed d.calibrated_upper_z_q),
        )

  -- The JSON of `_TailState` and `_BiDSpotState`: a number that is not finite is written as null,
  -- which is `none`.
  pub record StoredTail : Type 0 where
    pub threshold : Option Float
    pub z_q : Option Float
    pub excesses : List (Option Float)
    pub n_exceed : ℕ

  pub record StoredState : Type 0 where
    pub calibration_window : ℕ
    pub risk_level : Option Float
    pub initial_percentile : ℕ
    pub upper : StoredTail
    pub lower : StoredTail
    pub n_total : ℕ
    pub calibrated : Bool
    pub calibrated_upper_z_q : Option Float

  unfoldable pub json_float : Float → Option Float
  json_float x = if is_finite x then some x else none

  unfoldable pub store_tail : TailState Float → StoredTail
  store_tail tail = record {
    threshold = json_float tail.threshold;
    z_q = json_float tail.z_q;
    excesses = map json_float tail.excesses;
    n_exceed = tail.n_exceed;
  }

  unfoldable pub serialize : DSpotThreshold Float → StoredState
  serialize d = record {
    calibration_window = d.calibration_window;
    risk_level = json_float d.risk_level;
    initial_percentile = d.initial_percentile;
    upper = store_tail d.upper_tail;
    lower = store_tail d.lower_tail;
    n_total = d.n_total;
    calibrated = d.calibrated;
    calibrated_upper_z_q = json_float d.calibrated_upper_z_q;
  }

  -- `list[float]`: a null in it is refused.
  unfoldable pub decode_floats : List (Option Float) → Option (List Float)
  decode_floats [] = some []
  decode_floats (none ∷ xs) = none
  decode_floats (some x ∷ xs) = elim (decode_floats xs) [ none ↦ none | some ys ↦ some (x ∷ ys) ]

  -- A null is refused for the threshold and in the excesses, and is the infinity `otherwise` for `z_q`.
  unfoldable pub restore_tail : StoredTail → Float → Option (TailState Float)
  restore_tail tail otherwise = elim tail.threshold [
    | none ↦ none
    | some threshold ↦ elim (decode_floats tail.excesses) [
      | none ↦ none
      | some excesses ↦ some (record {
        threshold = threshold;
        z_q = elim tail.z_q [ none ↦ otherwise | some z ↦ z ];
        excesses = excesses;
        n_exceed = tail.n_exceed;
      })
    ]
  ]

  abbrev restored :
      Float → StoredState → Float → TailState Float → TailState Float → DSpotThreshold Float
  restored cap_multiplier state risk_level upper_tail lower_tail = record {
    calibration_window = state.calibration_window;
    risk_level = risk_level;
    initial_percentile = state.initial_percentile;
    cap_multiplier = cap_multiplier;
    calibrated_upper_z_q = elim state.calibrated_upper_z_q [ none ↦ upper_tail.z_q | some z ↦ z ];
    scores = [];
    upper_tail = upper_tail;
    lower_tail = lower_tail;
    n_total = state.n_total;
    calibrated = state.calibrated;
  }

  unfoldable pub deserialize : Float → StoredState → Option (DSpotThreshold Float)
  deserialize cap_multiplier state =
      if not (is_finite cap_multiplier) || le_float cap_multiplier one_point
      then none
      else elim state.risk_level [
        | none ↦ none
        | some risk_level ↦ elim (restore_tail state.upper T.infinity) [
          | none ↦ none
          | some upper_tail ↦ elim (restore_tail state.lower T.neg_infinity) [
            | none ↦ none
            | some lower_tail ↦
                some (restored cap_multiplier state risk_level upper_tail lower_tail)
          ]
        ]
      ]
