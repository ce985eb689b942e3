-- ===== src/Correlation/Risk/Decay.antt =====
-- How a score changes while no entry is added.
use seerflow.Base.{
  Bool-cases, List, Option-cases, String, [], arith, false, inl, inr, lookup, string_discrete, ℕ,
  ◌-◌, ◌∷◌, ◌≡◌, ◌≤◌,
}
use seerflow.Correlation.Risk.{
  Scores, IsDecaying, RiskEntry, RiskRegister, total, get_risk, check_threshold,
}

module _ (F : Scores) (laws : IsDecaying F) where
  open laws use {below_refl, decay_mono, plus_mono, at_least_mono}

  total_mono :
      (now later : ℕ) (a b : F.Score) (es : List (RiskEntry F))
      → now ≤ later
      → F.Below b a
      → F.Below (total F later b es) (total F now a es)
  unfolding total
  total_mono now later a b [] le h = h
  total_mono now later a b (e ∷ es) le h =
      total_mono now later (F.plus a (F.decay e.risk_points (now - e.timestamp_ns)))
        (F.plus b (F.decay e.risk_points (later - e.timestamp_ns))) es le
        (plus_mono _ _ _ _ h
          (decay_mono e.risk_points (now - e.timestamp_ns) (later - e.timestamp_ns) (omega arith)))

  get_risk_falls :
      (r : RiskRegister F) (now later : ℕ) (k : String)
      → now ≤ later
      → F.Below (get_risk F r later k) (get_risk F r now k)
  unfolding get_risk
  get_risk_falls r now later k le = elim (Option-cases (lookup string_discrete k r.entries)) [
    | inl e ↦ rw (e, get_risk) (below_refl F.zero_score)
    | inr (es, e) ↦
        rw (e, get_risk) (total_mono now later F.zero_score F.zero_score es le (below_refl _))
  ]

  -- With scores that decay with age, while no entry is added the score of an entity never grows,
  -- and an entity that is below the threshold stays below it.
  pub get_risk_decays :
      (r : RiskRegister F) (now later : ℕ) (k : String)
      → now ≤ later
      → F.Below (get_risk F r later k) (get_risk F r now k)
        × (check_threshold F r now k ≡ false → check_threshold F r later k ≡ false)
  unfolding check_threshold
  get_risk_decays r now later k le =
      let falls = get_risk_falls r now later k le in
      (
        falls,
        λ below. elim (Bool-cases (F.at_least (get_risk F r later k) r.threshold)) [
          | inl above ↦ cc (at_least_mono _ _ r.threshold falls above)
          | inr stays ↦ stays
        ],
      )
