-- ===== src/ThreatIntel/Circuit.antt =====
-- src/seerflow/threat_intel/circuit.py, `AuthCircuitBreaker`. `now` is what a call of `now_fn`
-- returns, in the unit of `open_seconds`; the clock is monotonic, so it is not before `opened_at`.
pub mod States
mod Tests
use seerflow.Base.{
  Bool, List, Option, [], false, if◌then◌else◌, leb, none, not, some, true, ℕ, ◌&&◌, ◌+◌, ◌-◌, ◌∷◌,
}

pub record AuthCircuitBreaker : Type 0 where
  pub threshold : ℕ
  pub open_seconds : ℕ
  pub failures : ℕ
  pub opened_at : Option ℕ
  pub half_open : Bool

unfoldable pub init : ℕ → ℕ → AuthCircuitBreaker
init threshold open_seconds = record {
  threshold = threshold;
  open_seconds = open_seconds;
  failures = 0;
  opened_at = none;
  half_open = false;
}

unfoldable pub allow : AuthCircuitBreaker → ℕ → AuthCircuitBreaker × Bool
allow b now = elim b.opened_at [
  | none ↦ (b, true)
  | some t ↦
      if leb b.open_seconds (now - t) then (record b { half_open = true }, true) else (b, false)
]

abbrev is_some {ℓ} : {A : Type ℓ} → Option A → Bool
is_some none = false
is_some (some a) = true

unfoldable pub is_open : AuthCircuitBreaker → Bool
is_open b = is_some b.opened_at && not b.half_open

unfoldable pub record_success : AuthCircuitBreaker → AuthCircuitBreaker
record_success b = record b { failures = 0; opened_at = none; half_open = false }

unfoldable pub record_failure : AuthCircuitBreaker → ℕ → AuthCircuitBreaker
record_failure b now =
    if b.half_open
    then record b { opened_at = some now; half_open = false }
    else if leb b.threshold (b.failures + 1)
    then record b { failures = b.failures + 1; opened_at = some now }
    else record b { failures = b.failures + 1 }

-- A call of the breaker at a time.
pub data Call : Type 0 where
  allows succeeds fails : Call

unfoldable pub step : AuthCircuitBreaker → ℕ × Call → AuthCircuitBreaker
unfolding allow record_success record_failure
step b (now, allows) = (allow b now).0
step b (now, succeeds) = record_success b
step b (now, fails) = record_failure b now

unfoldable pub run : AuthCircuitBreaker → List (ℕ × Call) → AuthCircuitBreaker
unfolding step
run b [] = b
run b (c ∷ cs) = run (step b c) cs
