-- ===== src/ThreatIntel/Circuit/Tests.antt =====
-- The circuit breaker on small inputs.
use seerflow.Base.{[], false, refl, some, true, ◌∷◌, ◌≡◌}
use seerflow.ThreatIntel.Circuit.{
  AuthCircuitBreaker, allows, fails, init, allow, is_open, record_success, record_failure, run,
}
use seerflow.ThreatIntel.Circuit.States.{failures_at, record_failure_trips}

abbrev opened : AuthCircuitBreaker
opened = record {
  threshold = 2;
  open_seconds = 100;
  failures = 2;
  opened_at = some 10;
  half_open = false;
}

abbrev probing : AuthCircuitBreaker
probing = record opened { half_open = true }

trips : run (init 2 100) ((5, fails) ∷ (10, fails) ∷ []) ≡ opened
unfolding run init
trips = refl

probes : run opened ((50, allows) ∷ (110, allows) ∷ []) ≡ probing
unfolding run
probes = refl

record_failure_trips_example :
    let before = run (record_success opened) (failures_at (20 ∷ [])) in
    (is_open before ≡ false)
    × ((allow before 30).1 ≡ true)
    × ((record_failure before 30).opened_at ≡ some 30)
    × (is_open (record_failure before 30) ≡ true)
record_failure_trips_example = record_failure_trips opened (20 ∷ []) 30 refl
