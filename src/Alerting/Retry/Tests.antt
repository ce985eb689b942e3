-- ===== src/Alerting/Retry/Tests.antt =====
-- Retries with the delays of the dispatcher.
use seerflow.Base.{List, [], arith, none, refl, some, suc, zero, ℕ, ◌∷◌, ◌≡◌}
use seerflow.Alerting.Retry.{
  Response, Trace, answered, raised, delivered, stopped, exhausted, post_with_retry,
}
use seerflow.Alerting.Retry.Attempts.{Explains, post_with_retry_lem}

program : Unit {0}
unfolding post_with_retry
program = tt

abbrev delays : List ℕ
delays = 1 ∷ 2 ∷ 4 ∷ []

-- An exception, an error of the server, then a success.
abbrev flaky : ℕ → Response
flaky zero = raised
flaky (suc zero) = answered 503 ""
flaky (suc (suc n)) = answered 200 ""

third_time :
    post_with_retry none flaky delays 3
    ≡ some (record { result = delivered; posts = 3; sleeps = 1 ∷ 2 ∷ [] })
unfolding program
third_time = refl

gives_up :
    post_with_retry none flaky delays 2
    ≡ some (record { result = exhausted; posts = 2; sleeps = 1 ∷ [] })
unfolding program
gives_up = refl

not_found :
    post_with_retry none (λ n. answered 404 "") delays 3
    ≡ some (record { result = stopped; posts = 1; sleeps = [] })
unfolding program
not_found = refl

post_with_retry_lem_example :
    (t : Trace) × (post_with_retry none flaky delays 3 ≡ some t) × Explains none flaky 0 3 t
post_with_retry_lem_example = post_with_retry_lem none flaky delays 3 (omega arith) (omega arith)
