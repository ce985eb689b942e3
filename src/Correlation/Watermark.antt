-- ===== src/Correlation/Watermark.antt =====
-- src/seerflow/correlation/watermark.py, `Watermark`. `current_ns - tolerance_ns` may be negative in
-- the source, so the tolerance stands on the other side of the comparison.
pub mod Late
mod Tests
use seerflow.Base.{
  Bool, List, Option, [], false, if◌then◌else◌, ltb, negsuc, none, pos, some, ℕ, ℤ, ◌+◌, ◌==◌, ◌∷◌,
}

pub record Watermark : Type 0 where
  pub tolerance_ns : ℕ
  pub current_ns : ℕ

-- `none` is the ValueError of a negative tolerance.
unfoldable pub init : ℤ → Option Watermark
init (pos n) = some (record { tolerance_ns = n; current_ns = 0 })
init (negsuc n) = none

unfoldable pub advance : Watermark → ℕ → Watermark
advance w t = if ltb w.current_ns t then record w { current_ns = t } else w

unfoldable pub is_late : Watermark → ℕ → Bool
is_late w t = if w.current_ns == 0 then false else ltb (t + w.tolerance_ns) w.current_ns

-- A stream of events, advanced one by one.
unfoldable pub advance_all : Watermark → List ℕ → Watermark
unfolding advance
advance_all w [] = w
advance_all w (t ∷ ts) = advance_all (advance w t) ts
