-- ===== src/Detection/Threshold/Capped.antt =====
-- The adjustment of the upper bound by operators, and the saved state.
use seerflow.Base.{
  All, Bool, Bool-cases, List, [], arith, false, if◌then◌else◌, inl, inr, map, none, not, refl,
  some, true, ◌||◌, ◌∷◌, ◌≡◌, ◌⊎◌,
}
use seerflow.Detection.Floats.{Floats}
use seerflow.Detection.Threshold.{
  Tails, DSpotThreshold, adjust_upper_threshold, serialize, deserialize, store_tail, restore_tail,
  TailState, json_float, decode_floats,
}

module _ (F : Floats) (T : Tails F.Float) where
  abbrev pub cap_of : DSpotThreshold F.Float → F.Float
  cap_of d = F.times d.calibrated_upper_z_q d.cap_multiplier

  -- `adjust_upper_threshold` for each of the factors, those refused with a ValueError skipped.
  unfoldable pub adjust_all : DSpotThreshold F.Float → List F.Float → DSpotThreshold F.Float
  adjust_all d [] = d
  adjust_all d (x ∷ xs) = elim (adjust_upper_threshold F T d x) [
    | none ↦ adjust_all d xs
    | some (d', r) ↦ adjust_all d' xs
  ]

  abbrev with_z_q : DSpotThreshold F.Float → F.Float → DSpotThreshold F.Float
  with_z_q d z = record d { upper_tail = record d.upper_tail { z_q = z } }

  abbrev IsCapped : DSpotThreshold F.Float → F.Float → Type 0
  IsCapped d z = F.lt_float (cap_of d) z ≡ false

  module _ (irreflexive : (x : F.Float) → F.lt_float x x ≡ false) where
    adjust-IsCapped :
        (d : DSpotThreshold F.Float) (x : F.Float)
        → IsCapped d d.upper_tail.z_q
        → (adjust_upper_threshold F T d x ≡ none)
          ⊎ ((z : F.Float) × (r : Bool × F.Float) × (adjust_upper_threshold F T d x
                ≡ some (with_z_q d z, r))
              × IsCapped d z)
    unfolding adjust_upper_threshold
    adjust-IsCapped d x h =
        let proposed = F.times d.upper_tail.z_q x in
        elim (Bool-cases (F.le_float x F.zero_point || not (F.is_finite x))) [
          | inl bad ↦ inl (rw bad)
          | inr good ↦
              elim (Bool-cases
                (not d.calibrated || F.le_float d.calibrated_upper_z_q F.zero_point)) [
                  | inl off ↦ inr (d.upper_tail.z_q, (false, F.zero_point), rw (good, off), h)
                  | inr on ↦ elim (Bool-cases (F.lt_float (cap_of d) proposed)) [
                    | inl over ↦ inr (
                      cap_of d,
                      (true, d.cap_multiplier),
                      rw (good, on, over),
                      irreflexive (cap_of d),
                    )
                    | inr under ↦ inr (
                      proposed,
                      (false, F.divided_by proposed d.calibrated_upper_z_q),
                      rw (good, on, under),
                      under,
                    )
                  ]
                ]
        ]

    -- However operators adjust it, an upper bound that was not above the calibrated one times the cap
    -- multiplier never gets above it, and nothing else of the threshold changes. What is used of the
    -- numbers is that none is below itself.
    pub adjust_all-IsCapped :
        (d : DSpotThreshold F.Float) (xs : List F.Float)
        → IsCapped d d.upper_tail.z_q
        → (z : F.Float) × (adjust_all d xs ≡ with_z_q d z) × IsCapped d z
    unfolding adjust_all
    adjust_all-IsCapped d [] h = (d.upper_tail.z_q, refl, h)
    adjust_all-IsCapped d (x ∷ xs) h = elim (adjust-IsCapped d x h) [
      | inl bad ↦
          let rest = adjust_all-IsCapped d xs h in (rest.0, ground (arith, bad, rest.1), rest.2)
      | inr (z, r, made, low) ↦
          let rest = adjust_all-IsCapped (with_z_q d z) xs low in
          (rest.0, ground (arith, made, rest.1), rest.2)
    ]

  abbrev pub IsFinite : F.Float → Type 0
  IsFinite x = F.is_finite x ≡ true

  pub record IsFiniteTail (tail : TailState F.Float) : Type 0 where
    pub threshold : IsFinite tail.threshold
    pub excesses : All IsFinite tail.excesses

  decode_floats-map :
      (xs : List F.Float) → All IsFinite xs → decode_floats F T (map (json_float F T) xs) ≡ some xs
  unfolding decode_floats json_float
  decode_floats-map [] h = refl
  decode_floats-map (x ∷ xs) h = ground (arith, decode_floats-map xs h.1)

  restore_tail-store_tail :
      (tail : TailState F.Float) (otherwise : F.Float)
      → IsFiniteTail tail
      → restore_tail F T (store_tail F T tail) otherwise
        ≡ some (record tail { z_q = if F.is_finite tail.z_q then tail.z_q else otherwise })
  unfolding restore_tail store_tail json_float
  restore_tail-store_tail tail otherwise h =
      ground (arith, h.threshold, decode_floats-map tail.excesses h.excesses)

  -- A threshold whose risk level, percentiles and excesses are finite, saved and loaded with its cap
  -- multiplier, is as it was, but for the scores collected before the calibration, which are lost, and
  -- for bounds that are not finite, which become the infinities (the calibrated bound the upper bound);
  -- a cap multiplier that is not finite or not above one is refused.
  pub deserialize-state :
      (d : DSpotThreshold F.Float)
      → IsFinite d.risk_level
      → IsFiniteTail d.upper_tail
      → IsFiniteTail d.lower_tail
      → let finite_or : F.Float → F.Float → F.Float = λ x y. if F.is_finite x then x else y in
        let high = finite_or d.upper_tail.z_q T.infinity in
        deserialize F T d.cap_multiplier (serialize F T d) ≡ (
          if not (F.is_finite d.cap_multiplier) || F.le_float d.cap_multiplier F.one_point
          then none
          else some (record d {
            scores = [];
            upper_tail = record d.upper_tail { z_q = high };
            lower_tail = record d.lower_tail { z_q = finite_or d.lower_tail.z_q T.neg_infinity };
            calibrated_upper_z_q = finite_or d.calibrated_upper_z_q high;
          }))
  unfolding deserialize serialize json_float
  deserialize-state d risk up down = ground (
    arith,
    restore_tail-store_tail d.upper_tail T.infinity up,
    restore_tail-store_tail d.lower_tail T.neg_infinity down,
  )
