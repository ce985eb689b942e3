-- ===== src/Api/Latency/Envelope.antt =====
-- The tracker stays within the bound that it reports, and summarises every stage.
use native.Mathlib.Nat.{mul-le-mul_left, mul-suc}
use seerflow.Base.{
  AllValues, AllValues-insert, Bool-cases, IsDict, List, Option-cases, String, [], append_bounded,
  arith, inl, inr, insert-IsDict, leb, length, length-append_bounded, length-insert_new,
  length-insert_old, lookup, some, string_discrete, ℕ, ◌*◌, ◌<◌, ◌∷◌, ◌≡◌, ◌≤◌,
}
use seerflow.Api.Latency.{StageLatencyTracker, init, record_sample, total_samples, bounds}

module _ {Sample : Type 0} where
  -- A deque is never empty, and never longer than its cap.
  abbrev pub Fits : ℕ → List Sample → Type 0
  Fits cap buf = (0 < length buf) × (length buf ≤ cap)

  pub record IsValid (t : StageLatencyTracker Sample) : Type 0 where
    pub unique : IsDict string_discrete t.buffers
    pub stages : length t.buffers ≤ t.max_stages
    pub samples : AllValues string_discrete (Fits t.maxlen) t.buffers
    pub some_sample : 0 < t.maxlen

  init-IsValid : (n k : ℕ) (t : StageLatencyTracker Sample) → init n k ≡ some t → IsValid t
  unfolding init
  init-IsValid n k t h = ground arith

  record_sample-IsValid :
      (t : StageLatencyTracker Sample) (stage : String) (x : Sample)
      → IsValid t
      → IsValid (record_sample t stage x)
  unfolding record_sample
  record_sample-IsValid t stage x v = elim (Option-cases (lookup string_discrete stage t.buffers)) [
    | inr (buf, found) ↦
        let buf' = append_bounded t.maxlen buf x in
        rw (found, record_sample)
          (record {
            unique = insert-IsDict string_discrete stage buf' t.buffers v.unique;
            stages = omega (
              arith,
              v.stages,
              length-insert_old string_discrete stage buf' t.buffers {w = buf} found,
            );
            samples =
                AllValues-insert string_discrete (Fits t.maxlen) stage buf' t.buffers
                  (omega (arith, v.some_sample, length-append_bounded t.maxlen buf x)) v.samples;
            some_sample = v.some_sample;
          })
    | inl new ↦ elim (Bool-cases (leb t.max_stages (length t.buffers))) [
      | inl full ↦
          rw (new, full, record_sample)
            (record {
              unique = v.unique;
              stages = v.stages;
              samples = v.samples;
              some_sample = v.some_sample;
            })
      | inr room ↦
          let buf' = append_bounded t.maxlen [] x in
          rw (new, room, record_sample)
            (record {
              unique = insert-IsDict string_discrete stage buf' t.buffers v.unique;
              stages = ground (arith, length-insert_new string_discrete stage buf' t.buffers new);
              samples =
                  AllValues-insert string_discrete (Fits t.maxlen) stage buf' t.buffers
                    (omega (arith, v.some_sample, length-append_bounded t.maxlen [] x)) v.samples;
              some_sample = v.some_sample;
            })
    ]
  ]

  unfoldable pub record_all :
      StageLatencyTracker Sample → List (String × Sample) → StageLatencyTracker Sample
  record_all t [] = t
  record_all t ((stage, x) ∷ rest) = record_all (record_sample t stage x) rest

  record_all-IsValid :
      (t : StageLatencyTracker Sample) (xs : List (String × Sample))
      → IsValid t
      → IsValid (record_all t xs)
  unfolding record_all
  record_all-IsValid t [] v = v
  record_all-IsValid t ((stage, x) ∷ rest) v =
      record_all-IsValid (record_sample t stage x) rest (record_sample-IsValid t stage x v)

  total-le :
      (cap : ℕ) (d : List (String × List Sample))
      → AllValues string_discrete (Fits cap) d
      → total_samples d ≤ cap * length d
  unfolding total_samples
  total-le cap [] h = omega arith
  total-le cap ((stage, buf) ∷ d) h =
      omega (arith, h.0.1, total-le cap d h.1, mul-suc cap (length d))

  -- However many samples of however many stages are recorded, the tracker never holds more of them than
  -- the `max` that `bounds` reports.
  pub record_all-bounds :
      (n k : ℕ) (t : StageLatencyTracker Sample) (xs : List (String × Sample))
      → init n k ≡ some t
      → (bounds (record_all t xs)).current ≤ (bounds (record_all t xs)).cap
  unfolding bounds
  record_all-bounds n k t xs started =
      let v = record_all-IsValid t xs (init-IsValid n k t started) in
      omega (
        arith,
        total-le (record_all t xs).maxlen (record_all t xs).buffers v.samples,
        mul-le-mul_left (record_all t xs).maxlen v.stages,
      )
