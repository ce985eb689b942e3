-- ===== src/ThreatIntel/Circuit/States.antt =====
-- The states closed, open and half-open, and the moves between them. (`is_open` is false of a
-- half-open breaker.)
use seerflow.Base.{
  List, [], arith, false, length, map, none, refl, some, true, ℕ, ◌++◌, ◌+◌, ◌<◌, ◌∷◌, ◌≡◌, ◌≢◌,
  ◌≤◌,
}
use seerflow.ThreatIntel.Circuit.{
  AuthCircuitBreaker, Call, allows, succeeds, fails, init, allow, is_open, record_success,
  record_failure, step, run,
}

-- Half-open only when opened, and closed only below the threshold.
pub record IsValid (b : AuthCircuitBreaker) : Type 0 where
  pub half_open_opened : b.half_open ≡ true → b.opened_at ≢ none
  pub closed_below : b.opened_at ≡ none → b.failures < b.threshold
  pub opened_at_threshold : b.opened_at ≢ none → b.threshold ≤ b.failures

step-threshold : (b : AuthCircuitBreaker) (c : ℕ × Call) → (step b c).threshold ≡ b.threshold
unfolding step
step-threshold b (now, allows) = ground arith
step-threshold b (now, succeeds) = ground arith
step-threshold b (now, fails) = ground arith

pub init-IsValid : (n w : ℕ) → 0 < n → IsValid (init n w)
unfolding init
init-IsValid n w h = ground arith

step-IsValid :
    (b : AuthCircuitBreaker) (c : ℕ × Call) → 0 < b.threshold → IsValid b → IsValid (step b c)
unfolding step
step-IsValid b (now, allows) h v = ground arith
step-IsValid b (now, succeeds) h v = ground arith
step-IsValid b (now, fails) h v = ground arith

-- After any calls on a valid breaker with a threshold of at least one it is valid: half-open only
-- once opened, and closed exactly while the failures counted are below the threshold.
pub run_calls-IsValid :
    (b : AuthCircuitBreaker) (cs : List (ℕ × Call))
    → 0 < b.threshold
    → IsValid b
    → IsValid (run b cs)
unfolding run
run_calls-IsValid b [] h v = v
run_calls-IsValid b (c ∷ cs) h v =
    run_calls-IsValid (step b c) cs (rw (step-threshold b c) h) (step-IsValid b c h v)

-- Failures at the given times, with nothing between them.
abbrev pub failures_at : List ℕ → List (ℕ × Call)
failures_at = map (λ t. (t, fails))

count_up :
    (b : AuthCircuitBreaker) (times : List ℕ)
    → b.half_open ≡ false
    → b.opened_at ≡ none
    → length times + b.failures < b.threshold
    → ((run b (failures_at times)).opened_at ≡ none)
      × ((run b (failures_at times)).half_open ≡ false)
      × ((run b (failures_at times)).failures ≡ length times + b.failures)
      × ((run b (failures_at times)).threshold ≡ b.threshold)
unfolding run step record_failure
count_up b [] half closed_now few = (closed_now, half, omega arith, refl)
count_up b (t ∷ ts) half closed_now few =
    ground (arith, count_up (record b { failures = b.failures + 1 }) ts)

run-append :
    (b : AuthCircuitBreaker) (xs ys : List (ℕ × Call)) → run b (xs ++ ys) ≡ run (run b xs) ys
unfolding run
run-append b [] ys = refl
run-append b (x ∷ xs) ys = run-append (step b x) xs ys

-- After a success the breaker stays closed for fewer consecutive failures than the threshold, and
-- the failure that makes them as many opens it at its time.
pub record_failure_trips :
    (b : AuthCircuitBreaker) (times : List ℕ) (last : ℕ)
    → length times + 1 ≡ b.threshold
    → let before = run (record_success b) (failures_at times) in
      (is_open before ≡ false)
      × ((allow before last).1 ≡ true)
      × ((record_failure before last).opened_at ≡ some last)
      × (is_open (record_failure before last) ≡ true)
unfolding record_success record_failure is_open allow
record_failure_trips b times last enough =
    let reset : AuthCircuitBreaker = record b {
      failures = 0;
      opened_at = none;
      half_open = false;
    } in
    ground (arith, count_up reset times)

-- With a clock that does not go back, an open breaker refuses, and stays as it is, until the open
-- window has passed; then it grants the call and is half-open.
pub allow_window :
    (b : AuthCircuitBreaker) (opened now : ℕ)
    → b.opened_at ≡ some opened
    → (now < opened + b.open_seconds → opened ≤ now → allow b now ≡ (b, false))
      × (opened + b.open_seconds ≤ now → allow b now ≡ (record b { half_open = true }, true))
unfolding allow
allow_window b opened now h = (λ early mono. ground arith, λ late. ground arith)

-- A failed probe opens the breaker for a whole window again, whatever the count of failures, and a
-- successful one closes it and sets the count to zero.
pub probe_result :
    (b : AuthCircuitBreaker) (at now : ℕ)
    → b.half_open ≡ true
    → at ≤ now
    → now < at + b.open_seconds
    → ((allow (record_failure b at) now).1 ≡ false)
      × ((allow (record_success b) now).1 ≡ true)
      × ((record_success b).failures ≡ 0)
unfolding allow record_failure record_success
probe_result b at now half mono early = ground arith

-- An open breaker whose window has passed grants the next call and, with no result recorded, the
-- one after it too, not one probe alone.
pub allow_again :
    (b : AuthCircuitBreaker) (opened now later : ℕ)
    → b.opened_at ≡ some opened
    → opened + b.open_seconds ≤ now
    → now ≤ later
    → ((allow b now).1 ≡ true) × ((allow (allow b now).0 later).1 ≡ true)
unfolding allow
allow_again b opened now later h late mono = ground arith
