-- ===== src/Ueba/Engine/Alerts.antt =====
-- When the engine raises an alert, and that it answers.
use seerflow.Base.{
  Bool, Bool-cases, List, Option, Option-cases, String, [], ap, arith, false, inl, inr, insert,
  none, refl, some, string_discrete, true, ◌∙◌, ◌∷◌, ◌≡◌,
}
use seerflow.Models.Event.{SeerflowEvent}
use seerflow.Models.Alert.{Alert, EntityType}
use seerflow.Detection.Floats.{Floats, max_float}
use seerflow.Detection.Threshold.{Tails, DSpotThreshold, update}
use seerflow.Ueba.Baseline.{EntityBaseline}
use seerflow.Ueba.Engine.{
  Library, ScoreBreakdown, UebaConfig, UebaEngine, score, zero_breakdown, current_threshold,
  build_alert, judge, score_and_maybe_alert, threshold_for,
}

module _ (F : Floats) (T : Tails F.Float) (lib : Library F) where
  abbrev pub is_warm : Option (EntityBaseline F) → Bool
  is_warm none = false
  is_warm (some b) = b.warmup_complete

  pub cold-score :
      (config : UebaConfig F) (event : SeerflowEvent) (baseline : Option (EntityBaseline F))
      → is_warm baseline ≡ false
      → score F lib config event baseline ≡ some (zero_breakdown F)
  unfolding score
  cold-score config event none h = refl
  cold-score config event (some b) h = ground arith

  -- An alert of a breakdown.
  pub record IsJustified (e : UebaEngine F) (event : SeerflowEvent)
      (baseline : Option (EntityBaseline F)) (entity_type : EntityType)
      (breakdown : ScoreBreakdown F) (alert : Alert) : Type 0 where
    pub warm : is_warm baseline ≡ true
    pub positive : F.le_float breakdown.composite F.zero_point ≡ false
    pub reached : F.lt_float breakdown.composite e.config.score_threshold ≡ false
    pub built :
        (entity : String) × (rest : List String) × (event.entity_refs ≡ entity ∷ rest)
        × (build_alert F lib event entity entity_type breakdown ≡ some alert)

  module _
      (transitive : (a b c : F.Float)
        → F.lt_float a b ≡ true
        → F.lt_float b c ≡ true
        → F.lt_float a c ≡ true)
      (zero_is_low : F.le_float F.zero_point F.zero_point ≡ true) where
    lt-max_float :
        (a b c : F.Float) → F.lt_float c (max_float F a b) ≡ false → F.lt_float c a ≡ false
    unfolding max_float
    lt-max_float a b c h = ground (arith, transitive c a b)

    pub lt-current_threshold :
        (config : UebaConfig F) (t : DSpotThreshold F.Float) (x : F.Float)
        → F.lt_float x (current_threshold F T config t) ≡ false
        → F.lt_float x config.score_threshold ≡ false
    unfolding current_threshold
    lt-current_threshold config t x h =
        ground (arith, lt-max_float config.score_threshold t.upper_tail.z_q x)

    judge_alert :
        (e : UebaEngine F) (event : SeerflowEvent) (entity : String) (entity_type : EntityType)
        → (b : ScoreBreakdown F) {e' : UebaEngine F} {alert : Alert}
        → judge F T lib e event entity entity_type b ≡ some (e', some alert)
        → (F.lt_float b.composite e.config.score_threshold ≡ false)
          × (build_alert F lib event entity entity_type b ≡ some alert)
    unfolding judge
    judge_alert e event entity entity_type b {e'} {alert} h =
        elim (Option-cases (threshold_for F T lib e entity_type)) [
          | inl bad ↦ absurd (ground arith)
          | inr (t, found) ↦ elim (Option-cases (update F T t b.composite)) [
            | inl bad ↦ absurd (ground arith)
            | inr ((t', result), fed) ↦
                elim (Option-cases (build_alert F lib event entity entity_type b)) [
                  | inl bad ↦ absurd (ground arith)
                  | inr (a, built) ↦ ground (arith, lt-current_threshold e.config t' b.composite)
                ]
          ]
        ]

    -- With the score computed and the references of the event listed.
    justify :
        (e e' : UebaEngine F) (event : SeerflowEvent) (baseline : Option (EntityBaseline F))
        → (entity_type : EntityType) (b b' : ScoreBreakdown F) (alert : Alert) (refs : List String)
        → event.entity_refs ≡ refs
        → score F lib e.config event baseline ≡ some b'
        → score_and_maybe_alert F T lib e event baseline entity_type ≡ some (e', (b, some alert))
        → IsJustified e event baseline entity_type b alert
    unfolding score_and_maybe_alert
    justify e e' event baseline entity_type b b' alert [] r s h = absurd (ground arith)
    justify e e' event baseline entity_type b b' alert (entity ∷ rest) r s h =
        let seen = record e { last_score = insert string_discrete entity b' e.last_score } in
        elim (Bool-cases (F.le_float b'.composite F.zero_point)) [
          | inl low ↦ absurd (ground arith)
          | inr high ↦ elim (Option-cases (judge F T lib seen event entity entity_type b')) [
            | inl bad ↦ absurd (ground arith)
            | inr ((e'', found), judged) ↦
                let same : b' ≡ b = ground arith in
                let raised : found ≡ some alert = ground arith in
                let shown =
                  judge_alert seen event entity entity_type b' {e' = e''} {alert = alert}
                    (judged ∙ ap (λ (o : Option Alert). some (e'', o)) raised) in
                record {
                  warm = elim (Bool-cases (is_warm baseline)) [
                    | inl warm ↦ warm
                    | inr cold ↦ absurd (ground (arith, cold-score e.config event baseline cold))
                  ];
                  positive = ground arith;
                  reached = ground (arith, shown.0);
                  built = (entity, rest, r, ground (arith, shown.1));
                }
          ]
        ]

    -- With an order of numbers that is transitive and zero at most itself: an alert is raised only for
    -- an entity whose baseline is past its warm-up, for the first entity of the event, with a composite
    -- score above zero and not below the configured threshold, whatever the adaptive one says; and it
    -- is the alert of this event, entity and score.
    pub score_and_maybe_alert-IsJustified :
        (e e' : UebaEngine F) (event : SeerflowEvent) (baseline : Option (EntityBaseline F))
        → (entity_type : EntityType) (b : ScoreBreakdown F) (alert : Alert)
        → score_and_maybe_alert F T lib e event baseline entity_type ≡ some (e', (b, some alert))
        → IsJustified e event baseline entity_type b alert
    unfolding score_and_maybe_alert
    score_and_maybe_alert-IsJustified e e' event baseline entity_type b alert h =
        elim (Option-cases (score F lib e.config event baseline)) [
          | inl bad ↦ absurd (ground arith)
          | inr (b', s) ↦
              justify e e' event baseline entity_type b b' alert event.entity_refs refl s h
        ]
