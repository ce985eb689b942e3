-- ===== src/Base/Texts.antt =====
-- Texts compared, and membership among them.
use Prim.Native.String.{String}
use Prim.Native.Nat.{ℕ, zero, suc}
use text.Mathlib.Text.{◌==◌}
use mathlib.Core.Bool.{Bool, true, false}
use mathlib.Core.Logic.{ite}
use mathlib.Core.List.{List, [], ◌∷◌}
use seerflow.Base.Tests.{string_discrete}

-- `value in values`
unfoldable pub contains : String → List String → Bool
contains a [] = false
contains a (x ∷ xs) = ite (string_discrete a x) true (contains a xs)

-- The `bounds()` snapshot that each bounded component reports.
pub record Bounds : Type 0 where
  pub current : ℕ
  pub cap : ℕ
  pub evictions : ℕ

-- `text[:n]`, by characters.
unfoldable pub prefix : ℕ → String → String
prefix zero s = String.[]
prefix (suc n) String.[] = String.[]
prefix (suc n) (String.◌∷◌ c s) = String.◌∷◌ c (prefix n s)

-- `a == b` of texts.
abbrev pub text_eq : String → String → Bool
text_eq = ◌==◌
