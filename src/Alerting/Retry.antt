-- ===== src/Alerting/Retry.antt =====
-- src/seerflow/alerting/_http.py, `post_with_retry`. What a POST comes to is the argument `post`, a
-- function of the number of the attempt; the inspector is a function of status and body, and one that
-- raises is an attempt that raised.
pub mod Attempts
mod Tests
use seerflow.Base.{
  Bool, List, Option, String, [], if◌then◌else◌, ltb, none, some, suc, zero, ℕ, ◌+◌, ◌==◌, ◌∷◌,
}

pub data RetryDecision : Type 0 where
  stop_now retry_now default_path : RetryDecision

-- What an attempt gets: a response with its status and body, or an exception.
pub data Response : Type 0 where
  answered : ℕ → String → Response
  raised : Response

pub data Result : Type 0 where
  delivered stopped exhausted : Result

-- `_handle_response`: whether a status of 400 or more ends the loop.
unfoldable pub handle_response : ℕ → Bool
handle_response status = ltb status 500

abbrev inspect : Option (ℕ → String → RetryDecision) → ℕ → String → RetryDecision
inspect none status body = default_path
inspect (some inspector) status body = inspector status body

-- `none` is an attempt that is to be made again.
unfoldable pub attempt_result : Option (ℕ → String → RetryDecision) → Response → Option Result
unfolding handle_response
attempt_result inspector raised = none
attempt_result inspector (answered status body) =
    if ltb status 400 then some delivered else elim (inspect inspector status body) [
      | stop_now ↦ some stopped
      | retry_now ↦ none
      | default_path ↦ if handle_response status then some stopped else none
    ]

-- `delays[attempt] if attempt < len(delays) else delays[-1]`, with `last` the element before; `none`
-- is the IndexError of an empty sequence.
unfoldable pub delay_at : List ℕ → ℕ → Option ℕ
delay_at [] n = none
delay_at (d ∷ []) n = some d
delay_at (d ∷ e ∷ ds) zero = some d
delay_at (d ∷ e ∷ ds) (suc n) = delay_at (e ∷ ds) n

pub record Trace : Type 0 where
  pub result : Result
  pub posts : ℕ
  pub sleeps : List ℕ

abbrev slept : Option ℕ → Option Trace → Option Trace
slept none t = none
slept (some d) none = none
slept (some d) (some t) = some (record t { posts = t.posts + 1; sleeps = d ∷ t.sleeps })

-- The loop from the attempt `attempt` on, with `left` attempts left. `none` is the IndexError.
unfoldable pub retry_loop :
    Option (ℕ → String → RetryDecision) → (ℕ → Response) → List ℕ → ℕ → ℕ → Option Trace
unfolding attempt_result delay_at
retry_loop inspector post delays attempt zero =
    some (record { result = exhausted; posts = 0; sleeps = [] })
retry_loop inspector post delays attempt (suc left) =
    let rest = retry_loop inspector post delays (attempt + 1) left in
    elim (attempt_result inspector (post attempt)) [
      | some result ↦ some (record { result = result; posts = 1; sleeps = [] })
      | none ↦
          if left == 0
          then some (record { result = exhausted; posts = 1; sleeps = [] })
          else slept (delay_at delays attempt) rest
    ]

unfoldable pub post_with_retry :
    Option (ℕ → String → RetryDecision) → (ℕ → Response) → List ℕ → ℕ → Option Trace
unfolding retry_loop
post_with_retry inspector post delays attempts = retry_loop inspector post delays 0 attempts
