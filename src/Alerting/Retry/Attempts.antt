-- ===== src/Alerting/Retry/Attempts.antt =====
-- How often a POST is tried.
use seerflow.Base.{
  List, Option, Option-cases, String, [], arith, inl, inr, length, none, refl, some, subst, suc,
  zero, ℕ, ℕ_discrete, ◌+◌, ◌<◌, ◌∷◌, ◌≡◌, ◌≤◌, ◌⊎◌,
}
use seerflow.Alerting.Retry.{
  RetryDecision, stop_now, retry_now, default_path, answered, raised, delivered, stopped,
  handle_response, Response, Result, Trace, exhausted, attempt_result, delay_at, retry_loop,
  post_with_retry,
}

-- The inspector's decision, if it makes one.
abbrev pub Decides : Option (ℕ → String → RetryDecision) → ℕ → String → RetryDecision → Type 0
Decides none status body decision = decision ≡ default_path
Decides (some inspector) status body decision = inspector status body ≡ decision

-- An attempt to be made again: an exception, or an error that the inspector says to retry, or an error
-- of the server of which it says nothing.
abbrev pub IsInconclusive : Option (ℕ → String → RetryDecision) → Response → Type 0
IsInconclusive inspector raised = Unit
IsInconclusive inspector (answered status body) =
    (400 ≤ status)
    × (Decides inspector status body retry_now
        ⊎ (Decides inspector status body default_path × (500 ≤ status)))

-- An attempt that settles it: a success delivers, and it stops at an error at which the inspector says
-- to stop, or at an error of the client of which it says nothing.
abbrev pub Settles : Option (ℕ → String → RetryDecision) → Response → Result → Type 0
Settles inspector raised result = ⊥
Settles inspector (answered status body) result =
    ((status < 400) × (result ≡ delivered))
    ⊎ ((400 ≤ status)
        × (result ≡ stopped)
        × (Decides inspector status body stop_now
            ⊎ (Decides inspector status body default_path × (status < 500))))

inconclusive :
    (inspector : Option (ℕ → String → RetryDecision)) (response : Response)
    → attempt_result inspector response ≡ none
    → IsInconclusive inspector response
unfolding attempt_result handle_response
inconclusive inspector raised h = tt
inconclusive none (answered status body) h = ground arith
inconclusive (some inspector) (answered status body) h = by_decision (inspector status body) refl
  where
    by_decision :
        (d : RetryDecision)
        → inspector status body ≡ d
        → IsInconclusive (some inspector) (answered status body)
    by_decision stop_now e = absurd (ground arith)
    by_decision retry_now e = (ground arith, inl e)
    by_decision default_path e = (ground arith, inr (e, ground arith))

settles :
    (inspector : Option (ℕ → String → RetryDecision)) (response : Response) (result : Result)
    → attempt_result inspector response ≡ some result
    → Settles inspector response result
unfolding attempt_result handle_response
settles inspector raised result h = absurd (ground arith)
settles none (answered status body) result h = ground arith
settles (some inspector) (answered status body) result h = by_decision (inspector status body) refl
  where
    by_decision :
        (d : RetryDecision)
        → inspector status body ≡ d
        → Settles (some inspector) (answered status body) result
    by_decision stop_now e = ground arith
    by_decision retry_now e = ground arith
    by_decision default_path e = ground arith

-- No attempt of the first `n` from `from` settles it.
abbrev pub Unsettled : Option (ℕ → String → RetryDecision) → (ℕ → Response) → ℕ → ℕ → Type 0
Unsettled inspector post from n =
    (i : ℕ) → from ≤ i → i < from + n → IsInconclusive inspector (post i)

-- The attempts that were made were all but the last inconclusive, and the last one settled the result;
-- or all were inconclusive, and the result is that they are exhausted.
abbrev pub Explains : Option (ℕ → String → RetryDecision) → (ℕ → Response) → ℕ → ℕ → Trace → Type 0
Explains inspector post from attempts t =
    ((n : ℕ) × (t.posts ≡ n + 1)
      × (n < attempts)
      × (length t.sleeps ≡ n)
      × Unsettled inspector post from n
      × Settles inspector (post (from + n)) t.result)
    ⊎ ((t.result ≡ exhausted)
        × (t.posts ≡ attempts)
        × (length t.sleeps + 1 ≡ attempts)
        × Unsettled inspector post from attempts)

delay_at-some :
    (delays : List ℕ) (n : ℕ) → 0 < length delays → (d : ℕ) × (delay_at delays n ≡ some d)
unfolding delay_at
delay_at-some [] n h = absurd (omega arith)
delay_at-some (d ∷ []) n h = (d, refl)
delay_at-some (d ∷ e ∷ ds) zero h = (d, refl)
delay_at-some (d ∷ e ∷ ds) (suc n) h = delay_at-some (e ∷ ds) n (omega arith)

Unsettled-later :
    (inspector : Option (ℕ → String → RetryDecision)) (post : ℕ → Response) (from n : ℕ)
    → IsInconclusive inspector (post from)
    → Unsettled inspector post (from + 1) n
    → Unsettled inspector post from (n + 1)
Unsettled-later inspector post from n first later i lo hi = elim (ℕ_discrete from i) [
  | yes same ↦ rw (← same) first
  | no differ ↦ later i (ground arith) (omega arith)
]

Explains-later :
    (inspector : Option (ℕ → String → RetryDecision)) (post : ℕ → Response) (from left d : ℕ)
    (t : Trace)
    → IsInconclusive inspector (post from)
    → Explains inspector post (from + 1) left t
    → Explains inspector post from
        (left + 1)
        (record t { posts = t.posts + 1; sleeps = d ∷ t.sleeps })
Explains-later inspector post from left d t first (inl (n, posts, few, sleeps, before, settled)) =
    let place : from + 1 + n ≡ from + (n + 1) = omega arith in
    inl (
      n + 1,
      omega (arith, posts),
      omega arith,
      omega (arith, sleeps),
      Unsettled-later inspector post from n first before,
      subst (λ i. Settles inspector (post i) t.result) place settled,
    )
Explains-later inspector post from left d t first (inr (out, posts, sleeps, before)) = inr (
  out,
  omega (arith, posts),
  omega (arith, sleeps),
  Unsettled-later inspector post from left first before,
)

Traced : Option (ℕ → String → RetryDecision) → (ℕ → Response) → List ℕ → ℕ → ℕ → Type 0
Traced inspector post delays from attempts =
    (t : Trace) × (retry_loop inspector post delays from attempts ≡ some t)
    × Explains inspector post from attempts t

settled_now :
    (inspector : Option (ℕ → String → RetryDecision)) (post : ℕ → Response) (delays : List ℕ)
    (from left : ℕ)
    → (result : Result) → attempt_result inspector (post from) ≡ some result
    → Traced inspector post delays from (suc left)
unfolding Traced retry_loop
settled_now inspector post delays from left result settled = (
  record { result = result; posts = 1; sleeps = [] },
  ground arith,
  inl (
    0,
    refl,
    omega arith,
    refl,
    λ i lo hi. absurd (omega arith),
    subst (λ i. Settles inspector (post i) result) (omega arith)
        (settles inspector (post from) result settled),
  ),
)

retry_loop_lem :
    (inspector : Option (ℕ → String → RetryDecision)) (post : ℕ → Response) (delays : List ℕ)
    (from left : ℕ)
    → 0 < length delays
    → Traced inspector post delays from (suc left)
unfolding Traced retry_loop
retry_loop_lem inspector post delays from zero some_delay =
    elim (Option-cases (attempt_result inspector (post from))) [
      | inr (result, settled) ↦ settled_now inspector post delays from zero result settled
      | inl again ↦ (
        record { result = exhausted; posts = 1; sleeps = [] },
        ground arith,
        inr (
          refl,
          refl,
          omega arith,
          Unsettled-later inspector post from 0 (inconclusive inspector (post from) again)
              (λ i lo hi. absurd (omega arith)),
        ),
      )
    ]
retry_loop_lem inspector post delays from (suc k) some_delay =
    let (d, delayed) = delay_at-some delays from some_delay in
    let (t, ran, explained) = retry_loop_lem inspector post delays (from + 1) k some_delay in
    elim (Option-cases (attempt_result inspector (post from))) [
      | inr (result, settled) ↦ settled_now inspector post delays from (suc k) result settled
      | inl again ↦ (
        record t { posts = t.posts + 1; sleeps = d ∷ t.sleeps },
        ground arith,
        subst
            (λ n.
              Explains inspector post from n
                (record t { posts = t.posts + 1; sleeps = d ∷ t.sleeps }))
            (omega arith)
            (Explains-later inspector post from (suc k) d t
              (inconclusive inspector (post from) again) explained),
      )
    ]

-- With at least one attempt and one delay the loop raises nothing. Either it posts until the first
-- attempt that settles the matter, sleeping once between two attempts, and its result is that
-- attempt's; or no attempt does, and it has posted exactly as often as it may. A status below 400
-- delivers. An exception is tried again. Of the other statuses the inspector decides; where it does not,
-- one below 500 stops the loop and one of 500 or more is tried again.
pub post_with_retry_lem :
    (inspector : Option (ℕ → String → RetryDecision)) (post : ℕ → Response) (delays : List ℕ)
    (attempts : ℕ)
    → 0 < attempts
    → 0 < length delays
    → (t : Trace) × (post_with_retry inspector post delays attempts ≡ some t)
      × Explains inspector post 0 attempts t
unfolding post_with_retry Traced
post_with_retry_lem inspector post delays zero some_attempt some_delay = absurd (omega arith)
post_with_retry_lem inspector post delays (suc n) some_attempt some_delay =
    retry_loop_lem inspector post delays 0 n some_delay
