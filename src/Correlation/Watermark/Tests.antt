-- ===== src/Correlation/Watermark/Tests.antt =====
-- The watermark on a small stream.
use seerflow.Base.{List, [], false, negsuc, none, pos, refl, some, true, ℕ, ◌∷◌, ◌≡◌}
use seerflow.Correlation.Watermark.{Watermark, init, is_late, advance_all}

abbrev start : Watermark
start = record { tolerance_ns = 5; current_ns = 0 }

abbrev seen : List ℕ
seen = 10 ∷ 20 ∷ 12 ∷ []

late_and_not :
    (is_late (advance_all start seen) 14 ≡ true) × (is_late (advance_all start seen) 15 ≡ false)
unfolding is_late advance_all
late_and_not = (refl, refl)

no_negative : init (negsuc 0) ≡ none
unfolding init
no_negative = refl

starts : init (pos 5) ≡ some start
unfolding init
starts = refl
