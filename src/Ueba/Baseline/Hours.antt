-- ===== src/Ueba/Baseline/Hours.antt =====
-- The histogram of hours.
use seerflow.Base.{List, [], arith, length, refl, some, suc, zero, ℕ, ◌+◌, ◌<◌, ◌∷◌, ◌≡◌}
use seerflow.Ueba.Baseline.{bucket_hour_utc, update_hours}

abbrev pub sum : List ℕ → ℕ
sum [] = 0
sum (n ∷ ns) = n + sum ns

pub bucket_hour_utc_lt : (ts : ℕ) → bucket_hour_utc ts < 24
unfolding bucket_hour_utc
bucket_hour_utc_lt ts = omega arith

-- A count in range is made, and the sum and the length say so.
pub update_hours_lem :
    (hours : List ℕ) (hour : ℕ)
    → hour < length hours
    → (hours' : List ℕ) × (update_hours hours hour ≡ some hours')
      × (length hours' ≡ length hours)
      × (sum hours' ≡ sum hours + 1)
unfolding update_hours
update_hours_lem [] hour lt = absurd (omega arith)
update_hours_lem (n ∷ hours) zero lt = ((n + 1) ∷ hours, refl, refl, omega arith)
update_hours_lem (n ∷ hours) (suc hour) lt =
    let rest = update_hours_lem hours hour (omega arith) in
    (n ∷ rest.0, rw (rest.1), omega (arith, rest.2), omega (arith, rest.3))
