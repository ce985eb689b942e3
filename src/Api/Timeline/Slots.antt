-- ===== src/Api/Timeline/Slots.antt =====
-- Numbers less than a ring's length apart have slots of their own.
use seerflow.Base.{arith, ℕ, ◌%◌, ◌*◌, ◌+◌, ◌-◌, ◌/◌, ◌<◌, ◌≡◌, ◌≤◌}

mul_gap : (c q q' : ℕ) → q < q' → c * q + c ≤ c * q'
mul_gap c q q' h =
    let gap : q' ≡ q + 1 + (q' - q - 1) = omega arith in
    let k = q' - q - 1 in
    let split : c * (q + 1 + k) ≡ c * q + c + c * k = ground arith in ground (arith, split, gap)

pub same_slot : (c a b : ℕ) → a % c ≡ b % c → a < b + c → b < a + c → a ≡ b
same_slot c a b h p q = ground (arith, mul_gap c (a / c) (b / c), mul_gap c (b / c) (a / c))
