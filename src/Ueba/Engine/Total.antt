-- ===== src/Ueba/Engine/Total.antt =====
-- When the engine raises an error, and how it answers before the warm-up.
use seerflow.Base.{
  Bool-cases, List, Option, Option-cases, String, [], arith, false, inl, inr, insert, length, max,
  none, refl, some, string_discrete, suc, true, zero, ℕ, ℤ, ◌<◌, ◌∷◌, ◌≡◌, ◌≢◌, ◌⊎◌,
}
use seerflow.Models.Event.{SeerflowEvent}
use seerflow.Models.Alert.{EntityType}
use seerflow.Detection.Floats.{Floats}
use seerflow.Detection.Threshold
use seerflow.Detection.Threshold.{Tails, DSpotThreshold, update}
use seerflow.Ueba.Baseline.{EntityBaseline, UebaParams, bucket_hour_utc}
use seerflow.Ueba.Baseline.Hours.{bucket_hour_utc_lt}
use seerflow.Ueba.Baseline.Valid.{IsPrior}
use seerflow.Ueba.Engine.{
  Library, ScoreBreakdown, UebaEngine, UebaConfig, max_of, get_elem?, score, score_warm,
  score_time_of_day, threshold_for, build_alert, zero_breakdown, judge, score_and_maybe_alert,
}
use seerflow.Ueba.Engine.Alerts.{is_warm, cold-score, lt-current_threshold}

get_elem?-some : (xs : List ℕ) (i : ℕ) → i < length xs → (n : ℕ) × (get_elem? xs i ≡ some n)
unfolding get_elem?
get_elem?-some [] i lt = absurd (omega arith)
get_elem?-some (x ∷ xs) zero lt = (x, refl)
get_elem?-some (x ∷ xs) (suc i) lt = get_elem?-some xs i (omega arith)

max_of-some : (x : ℕ) (xs : List ℕ) → (m : ℕ) × (max_of (x ∷ xs) ≡ some m)
unfolding max_of
max_of-some x [] = (x, refl)
max_of-some x (y ∷ xs) = let rest = max_of-some y xs in (max x rest.0, ground (arith, rest.1))

module _ (F : Floats) (T : Tails F.Float) (lib : Library F) (params : UebaParams F) where
  threshold_for-ne-none :
      (e : UebaEngine F) (entity_type : EntityType) {t : DSpotThreshold F.Float}
      → Threshold.init F T 1000 lib.dspot_risk_level 98 lib.default_cap_multiplier ≡ some t
      → threshold_for F T lib e entity_type ≢ none
  unfolding threshold_for
  threshold_for-ne-none e entity_type made = ground arith

  score_time_of_day-ne-none :
      (ts : ℕ) (hours : List ℕ) → length hours ≡ 24 → score_time_of_day F ts hours ≢ none
  unfolding score_time_of_day
  score_time_of_day-ne-none ts [] h = absurd (omega arith)
  score_time_of_day-ne-none ts (n ∷ ns) h =
      let hour = bucket_hour_utc ts in
      let below : hour < length (n ∷ ns) = omega (arith, h, bucket_hour_utc_lt ts) in
      ground (arith, (max_of-some n ns).1, (get_elem?-some (n ∷ ns) hour below).1)

  score-ne-none :
      (text_of : ℤ → String) (config : UebaConfig F) (event : SeerflowEvent)
      → (baseline : Option (EntityBaseline F)) → IsPrior F text_of params baseline
      → score F lib config event baseline ≢ none
  unfolding score score_warm
  score-ne-none text_of config event none v = cc
  score-ne-none text_of config event (some b) v =
      ground (arith, score_time_of_day-ne-none event.timestamp_ns b.hours v.all_hours)

  -- A threshold was at hand, and either `genpareto.fit` raised a FitError when the score was fed to it,
  -- or the score passed both thresholds and `int` of six times it raised an error.
  pub record IsRaised (e : UebaEngine F) (entity_type : EntityType) (b : ScoreBreakdown F)
      : Type 0 where
    pub threshold : DSpotThreshold F.Float
    pub found : threshold_for F T lib e entity_type ≡ some threshold
    pub cause :
        (update F T threshold b.composite ≡ none)
        ⊎ (F.lt_float b.composite e.config.score_threshold ≡ false)
          × (lib.truncate (F.times b.composite lib.six) ≡ none)

  module _
      (transitive : (a b c : F.Float)
        → F.lt_float a b ≡ true
        → F.lt_float b c ≡ true
        → F.lt_float a c ≡ true)
      (zero_is_low : F.le_float F.zero_point F.zero_point ≡ true) where
    judge_raises :
        (e : UebaEngine F) (event : SeerflowEvent) (entity : String) (entity_type : EntityType)
        → (b : ScoreBreakdown F) {t : DSpotThreshold F.Float}
        → Threshold.init F T 1000 lib.dspot_risk_level 98 lib.default_cap_multiplier ≡ some t
        → judge F T lib e event entity entity_type b ≡ none
        → IsRaised e entity_type b
    unfolding judge build_alert
    judge_raises e event entity entity_type b made h =
        elim (Option-cases (threshold_for F T lib e entity_type)) [
          | inl bad ↦ absurd (threshold_for-ne-none e entity_type made bad)
          | inr (t', found) ↦ elim (Option-cases (update F T t' b.composite)) [
            | inl failed ↦ record { threshold = t'; found = found; cause = inl failed }
            | inr ((t'', result), fed) ↦ record {
              threshold = t';
              found = found;
              cause = inr (
                ground (
                  arith,
                  lt-current_threshold F T lib transitive zero_is_low e.config t'' b.composite,
                ),
                ground arith,
              );
            }
          ]
        ]

    -- An answer that is an error, of an event with these references.
    abbrev pub Explained :
        UebaEngine F → SeerflowEvent → Option (EntityBaseline F) → EntityType → Type 0
    Explained e event baseline entity_type =
        (b : ScoreBreakdown F) × (score F lib e.config event baseline ≡ some b)
        × (is_warm F T lib baseline ≡ true)
        × (F.le_float b.composite F.zero_point ≡ false)
        × IsRaised e entity_type b

    explain :
        (text_of : ℤ → String) (e : UebaEngine F) (event : SeerflowEvent)
        → (baseline : Option (EntityBaseline F)) (entity_type : EntityType) (refs : List String)
        → {t : DSpotThreshold F.Float} → event.entity_refs ≡ refs
        → IsPrior F text_of params baseline
        → Threshold.init F T 1000 lib.dspot_risk_level 98 lib.default_cap_multiplier ≡ some t
        → score_and_maybe_alert F T lib e event baseline entity_type ≡ none
        → Explained e event baseline entity_type
    unfolding score_and_maybe_alert threshold_for
    explain text_of e event baseline entity_type refs r v made h =
        elim (Option-cases (score F lib e.config event baseline)) [
          | inl bad ↦ absurd (score-ne-none text_of e.config event baseline v bad)
          | inr (b, s) ↦ by_refs refs b r s
        ]
      where
        by_refs :
            (refs : List String) (b : ScoreBreakdown F)
            → event.entity_refs ≡ refs
            → score F lib e.config event baseline ≡ some b
            → Explained e event baseline entity_type
        by_refs [] b r s = absurd (ground arith)
        by_refs (entity ∷ rest) b r s =
            let e' = record e { last_score = insert string_discrete entity b e.last_score } in
            elim (Bool-cases (F.le_float b.composite F.zero_point)) [
              | inl low ↦ absurd (ground arith)
              | inr high ↦
                  let raised = judge_raises e' event entity entity_type b made (ground arith) in
                  (
                    b,
                    s,
                    elim (Bool-cases (is_warm F T lib baseline)) [
                      | inl warm ↦ warm
                      | inr cold ↦
                          absurd (ground (arith, cold-score F T lib e.config event baseline cold))
                    ],
                    high,
                    record {
                      threshold = raised.threshold;
                      found = raised.found;
                      cause = raised.cause;
                    },
                  )
            ]

    cold_answer :
        (e : UebaEngine F) (event : SeerflowEvent) (baseline : Option (EntityBaseline F))
        → (entity_type : EntityType) (refs : List String) → event.entity_refs ≡ refs
        → is_warm F T lib baseline ≡ false
        → (e' : UebaEngine F) × (score_and_maybe_alert F T lib e event baseline entity_type
            ≡ some (e', (zero_breakdown F, none)))
          × (e'.thresholds ≡ e.thresholds)
    unfolding score_and_maybe_alert
    cold_answer e event baseline entity_type [] r cold =
        (e, ground (arith, cold-score F T lib e.config event baseline cold), refl)
    cold_answer e event baseline entity_type (entity ∷ rest) r cold = (
      record e { last_score = insert string_discrete entity (zero_breakdown F) e.last_score },
      ground (arith, cold-score F T lib e.config event baseline cold),
      refl,
    )

    -- With an order of numbers that is transitive and zero at most itself, where the engine's constants
    -- make a threshold: a call for an event and no baseline or a valid one raises an error only past the
    -- warm-up, for a score above zero, because the fit of the threshold raised a FitError, or because
    -- `int` of six times a score not below the configured threshold raised one. Before the warm-up is
    -- over the call always answers, with the zero breakdown and no alert, and feeds no threshold.
    pub score_and_maybe_alert-total :
        (text_of : ℤ → String) (e : UebaEngine F) (event : SeerflowEvent)
        → (baseline : Option (EntityBaseline F)) (entity_type : EntityType)
        → {t : DSpotThreshold F.Float} → IsPrior F text_of params baseline
        → Threshold.init F T 1000 lib.dspot_risk_level 98 lib.default_cap_multiplier ≡ some t
        → (score_and_maybe_alert F T lib e event baseline entity_type ≡ none
            → Explained e event baseline entity_type)
          × (is_warm F T lib baseline ≡ false
              → (e' : UebaEngine F) × (score_and_maybe_alert F T lib e event baseline entity_type
                  ≡ some (e', (zero_breakdown F, none)))
                × (e'.thresholds ≡ e.thresholds))
    score_and_maybe_alert-total text_of e event baseline entity_type v made = (
      λ h. explain text_of e event baseline entity_type event.entity_refs refl v made h,
      λ cold. cold_answer e event baseline entity_type event.entity_refs refl cold,
    )
