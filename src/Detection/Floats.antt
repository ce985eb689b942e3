-- ===== src/Detection/Floats.antt =====
-- Floating-point numbers, as the detectors of src/seerflow/detection use them: a parameter. `le_float`
-- and `lt_float` are Python's comparisons, false at a nan.
use seerflow.Base.{Bool, if◌then◌else◌, ℕ}

pub record Floats : Type 1 where
  pub Float : Type 0
  pub zero_point : Float
  pub one_point : Float
  pub of_count : ℕ → Float
  pub plus : Float → Float → Float
  pub minus : Float → Float → Float
  pub times : Float → Float → Float
  pub divided_by : Float → Float → Float
  pub square : Float → Float
  pub square_root : Float → Float
  pub is_finite : Float → Bool
  pub lt_float : Float → Float → Bool
  pub le_float : Float → Float → Bool

module _ (F : Floats) where
  open F use {Float, lt_float}

  -- Python's `max(a, b)` and `min(a, b)`: the first unless the second is beyond it.
  unfoldable pub max_float : Float → Float → Float
  max_float a b = if lt_float a b then b else a

  unfoldable pub min_float : Float → Float → Float
  min_float a b = if lt_float b a then b else a
