-- ===== src/Base/Int.antt =====
-- Signed integers, for the fields that the source gives a negative sentinel.
use Prim.Native.Nat.{ℕ}
use native.Mathlib.Decide.{ℕ_discrete}
use mathlib.Core.Bool.{Bool, true, false}

-- `negsuc n` is -(n + 1).
pub data ℤ : Type 0 where
  pos : ℕ → ℤ
  negsuc : ℕ → ℤ

unfoldable pub ℤ_discrete : Discrete ℤ
ℤ_discrete = hlevel ℕ_discrete

abbrev pub is_negative : ℤ → Bool
is_negative (pos n) = false
is_negative (negsuc n) = true
