-- ===== src/Correlation/Watermark/Late.antt =====
-- When an event counts as late.
use seerflow.Base.{
  Bool, List, [], arith, false, ltb, pos, some, some-injective, sym, ℕ, ◌+◌, ◌||◌, ◌∷◌, ◌≡◌,
}
use seerflow.Correlation.Watermark.{Watermark, init, advance, is_late, advance_all}

-- Some time seen lies more than the tolerance after `t`.
unfoldable pub overtaken : ℕ → ℕ → List ℕ → Bool
overtaken tolerance t [] = false
overtaken tolerance t (s ∷ ts) = ltb (t + tolerance) s || overtaken tolerance t ts

advance-tolerance : (w : Watermark) (s : ℕ) → (advance w s).tolerance_ns ≡ w.tolerance_ns
unfolding advance
advance-tolerance w s = ground arith

is_late-advance :
    (w : Watermark) (s t : ℕ) → is_late (advance w s) t ≡ is_late w t || ltb (t + w.tolerance_ns) s
unfolding advance is_late
is_late-advance w s t = ground arith

is_late-advance_all :
    (w : Watermark) (ts : List ℕ) (t : ℕ)
    → is_late (advance_all w ts) t ≡ is_late w t || overtaken w.tolerance_ns t ts
unfolding advance_all overtaken
is_late-advance_all w [] t = ground arith
is_late-advance_all w (s ∷ ts) t =
    ground
      (arith, is_late-advance_all (advance w s) ts t, is_late-advance w s t, advance-tolerance w s)

-- After any stream of events an event is late exactly if some event seen lies more than the
-- tolerance after it, in whatever order they came; with no event seen, none is late.
pub is_late-overtaken :
    (tolerance : ℕ) (w : Watermark) (ts : List ℕ) (t : ℕ)
    → init (pos tolerance) ≡ some w
    → is_late (advance_all w ts) t ≡ overtaken tolerance t ts
unfolding init is_late
is_late-overtaken tolerance w ts t started =
    let fresh : w ≡ record { tolerance_ns = tolerance; current_ns = 0 } =
      sym (some-injective _ _ started) in
    rw fresh (is_late-advance_all (record { tolerance_ns = tolerance; current_ns = 0 }) ts t)
