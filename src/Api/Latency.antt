-- ===== src/Api/Latency.antt =====
-- src/seerflow/api/latency.py, `StageLatencyTracker`. A sample is of any type; the percentiles are what
-- `statistics.quantiles` computes, a parameter. Calls are serialised by the source's lock.
pub mod Envelope
mod Tests
use seerflow.Base.{
  Bool, Bounds, List, Option, String, [], append_bounded, false, if◌then◌else◌, insert, leb, length,
  lookup, ltb, none, some, string_discrete, true, ℕ, ◌*◌, ◌+◌, ◌∷◌,
}

pub record StageLatencyTracker (Sample : Type 0) : Type 0 where
  pub maxlen : ℕ
  pub max_stages : ℕ
  pub buffers : List (String × List Sample)
  pub overflow_warned : Bool

pub record Summary (Sample : Type 0) : Type 0 where
  pub p50 : Sample
  pub p95 : Sample
  pub p99 : Sample
  pub count : ℕ

module _ {Sample : Type 0} where
  -- `none` is a ValueError; the arguments are not negative.
  unfoldable pub init : ℕ → ℕ → Option (StageLatencyTracker Sample)
  init maxlen max_stages =
      if ltb maxlen 1
      then none
      else if ltb max_stages 1
      then none
      else some (record {
        maxlen = maxlen;
        max_stages = max_stages;
        buffers = [];
        overflow_warned = false;
      })

  unfoldable pub record_sample :
      StageLatencyTracker Sample → String → Sample → StageLatencyTracker Sample
  unfolding append_bounded
  record_sample t stage elapsed_ms = elim (lookup string_discrete stage t.buffers) [
    | some buf ↦ record t {
      buffers = insert string_discrete stage (append_bounded t.maxlen buf elapsed_ms) t.buffers;
    }
    | none ↦
        if leb t.max_stages (length t.buffers)
        then record t { overflow_warned = true }
        else record t {
          buffers = insert string_discrete stage (append_bounded t.maxlen [] elapsed_ms) t.buffers;
        }
  ]

  -- `quantiles` gives the cuts 49, 94 and 98 of two samples or more.
  abbrev pub summary :
      (List Sample → Sample × Sample × Sample) → List Sample → Option (Summary Sample)
  summary quantiles [] = none
  summary quantiles (only ∷ []) = some (record { p50 = only; p95 = only; p99 = only; count = 1 })
  summary quantiles (x ∷ y ∷ samples) =
      let (p50, p95, p99) = quantiles (x ∷ y ∷ samples) in
      some (record { p50 = p50; p95 = p95; p99 = p99; count = length (x ∷ y ∷ samples) })

  -- The stages without samples are left out.
  unfoldable pub snapshot_of :
      (List Sample → Sample × Sample × Sample)
      → List (String × List Sample)
      → List (String × Summary Sample)
  snapshot_of quantiles [] = []
  snapshot_of quantiles ((stage, buf) ∷ rest) = elim (summary quantiles buf) [
    | none ↦ snapshot_of quantiles rest
    | some s ↦ (stage, s) ∷ snapshot_of quantiles rest
  ]

  unfoldable pub snapshot :
      (List Sample → Sample × Sample × Sample)
      → StageLatencyTracker Sample
      → List (String × Summary Sample)
  unfolding snapshot_of
  snapshot quantiles t = snapshot_of quantiles t.buffers

  unfoldable pub total_samples : List (String × List Sample) → ℕ
  total_samples [] = 0
  total_samples ((stage, buf) ∷ rest) = length buf + total_samples rest

  unfoldable pub bounds : StageLatencyTracker Sample → Bounds
  unfolding total_samples
  bounds t = record {
    current = total_samples t.buffers;
    cap = t.maxlen * t.max_stages;
    evictions = 0;
  }
