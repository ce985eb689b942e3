-- ===== src/Detection/Threshold/Flags.antt =====
-- When a score is flagged, and what the calibration waits for.
use seerflow.Base.{
  Bool, List, Option, [], false, leb, length, ltb, max, none, some, true, ℕ, ◌+◌, ◌∷◌, ◌≡◌, ◌≢◌,
  ◌≤◌,
}
use seerflow.Detection.Floats.{Floats}
use seerflow.Detection.Threshold.{
  Tails, DSpotThreshold, update, max_excesses, fit_error, ThresholdResult, result,
}

module _ (F : Floats) (T : Tails F.Float) where
  -- What the refits and the notes leave alone.
  record Keeps (d d' : DSpotThreshold F.Float) : Type 0 where
    pub window : d'.calibration_window ≡ d.calibration_window
    pub flag : d'.calibrated ≡ d.calibrated
    pub uppers : length d'.upper_tail.excesses ≡ length d.upper_tail.excesses
    pub lowers : length d'.lower_tail.excesses ≡ length d.lower_tail.excesses

  -- What `genpareto.fit` comes to is not a FitError, whatever the excesses.
  abbrev pub NeverFails : Type 0
  NeverFails = (xs : List F.Float) → T.gpd_fit xs ≢ fit_error

  -- A step that raises nothing and leaves those alone.
  abbrev Refits : DSpotThreshold F.Float → Option (DSpotThreshold F.Float) → Type 0
  Refits d o = (d' : DSpotThreshold F.Float) × (o ≡ some d') × Keeps d d'

  -- No more excesses are kept than `max_excesses`, or than the calibration had scores.
  pub record IsBounded (d : DSpotThreshold F.Float) : Type 0 where
    pub uppers : length d.upper_tail.excesses ≤ max max_excesses d.calibration_window
    pub lowers : length d.lower_tail.excesses ≤ max max_excesses d.calibration_window

  -- A step that raises nothing, keeps the excesses bounded and leaves the window and the flag alone.
  abbrev Stays : DSpotThreshold F.Float → Option (DSpotThreshold F.Float) → Type 0
  Stays d o =
      (d' : DSpotThreshold F.Float) × (o ≡ some d')
      × IsBounded d'
      × (d'.calibrated ≡ d.calibrated)
      × (d'.calibration_window ≡ d.calibration_window)

  -- The scores, with the flags that they got; `none` is a FitError.
  unfoldable pub run :
      DSpotThreshold F.Float → List F.Float → Option (DSpotThreshold F.Float × List Bool)
  run d [] = some (d, [])
  run d (x ∷ xs) = elim (update F T d x) [
    | none ↦ none
    | some (d', result) ↦ elim (run d' xs) [
      | none ↦ none
      | some (end, flags) ↦ some (end, result.is_anomaly ∷ flags)
    ]
  ]

  -- A threshold that has had `n` scores.
  pub record IsStage (window : ℕ) (d : DSpotThreshold F.Float) (n : ℕ) : Type 0 where
    pub same_window : d.calibration_window ≡ window
    pub bounded : IsBounded d
    pub ready : d.calibrated ≡ leb window n
    pub waiting : d.calibrated ≡ false → length d.scores ≡ n

  -- The flag that an update gives within the window.
  abbrev Answers : ℕ → DSpotThreshold F.Float → ℕ → F.Float → Type 0
  Answers window d n x =
      (d' : DSpotThreshold F.Float) × (r : ThresholdResult F.Float) × (update F T d x
        ≡ some (d', r))
      × IsStage window d' (n + 1)
      × (ltb n window ≡ true → r.is_anomaly ≡ false)
