-- ===== src/Api/Latency/Tests.antt =====
-- Two samples of one stage at most.
use seerflow.Base.{
  List, String, [], append_bounded, false, insert, lookup, refl, some, string_discrete, true, ℕ,
  ◌∷◌, ◌≡◌,
}
use seerflow.Api.Latency.{StageLatencyTracker, init, snapshot, bounds}
use seerflow.Api.Latency.Envelope.{record_all}

program : Unit {0}
unfolding record_all seerflow.Api.Latency.record_sample snapshot bounds init lookup insert
    append_bounded string_discrete
program = tt

abbrev empty : StageLatencyTracker ℕ
empty = record { maxlen = 2; max_stages = 1; buffers = []; overflow_warned = false }

abbrev samples : List (String × ℕ)
samples = ("parse", 5) ∷ ("parse", 6) ∷ ("store", 9) ∷ ("parse", 7) ∷ []

-- The oldest sample of the stage, and the second stage, are dropped.
rolls :
    record_all empty samples
    ≡ record empty { buffers = ("parse", 6 ∷ 7 ∷ []) ∷ []; overflow_warned = true }
unfolding program
rolls = refl

starts : init {Sample = ℕ} 2 1 ≡ some empty
unfolding program
starts = refl
