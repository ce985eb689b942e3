-- ===== src/Detection/Threshold/Tests.antt =====
-- A calibrated threshold between 10 and 50, whose cap multiplier is 2.
use seerflow.Base.{
  Bool, List, Option, [], append_bounded, arith, false, keep, ltb, none, refl, some, true, ℕ, ◌∷◌,
  ◌≡◌,
}
use seerflow.Detection.Floats.{max_float, min_float}
use seerflow.Detection.Samples.{thousandths}
use seerflow.Detection.Threshold.{
  Tails, DSpotThreshold, value_error, note, settle, init, update, collect, note_upper, note_lower,
  add_excess, refit_upper, refit_lower, fit_gpd_tail, calibrate, prepare, adjust_upper_threshold,
  serialize, deserialize,
}
use seerflow.Detection.Threshold.Flags.{run}
use seerflow.Detection.Threshold.Capped.{adjust_all, adjust_all-IsCapped, deserialize-state}

program : Unit {0}
unfolding init update collect note settle note_upper note_lower add_excess refit_upper refit_lower
    fit_gpd_tail calibrate prepare adjust_upper_threshold run adjust_all max_float min_float keep
    append_bounded
program = tt

-- No fit succeeds, so that a bound stays at its percentile.
abbrev tails : Tails ℕ
tails = record {
  infinity = 1000000000;
  neg_infinity = 0;
  percentile = λ xs p. p;
  gpd_fit = λ xs. value_error;
  is_negligible = λ x. false;
  logarithm = λ x. x;
  power = λ x y. x;
}

abbrev fresh : DSpotThreshold ℕ
fresh = record {
  calibration_window = 200;
  risk_level = 1;
  initial_percentile = 98;
  cap_multiplier = 2000;
  calibrated_upper_z_q = 0;
  scores = [];
  upper_tail = record { threshold = 0; z_q = 1000000000; excesses = []; n_exceed = 0 };
  lower_tail = record { threshold = 0; z_q = 0; excesses = []; n_exceed = 0 };
  n_total = 0;
  calibrated = false;
}

abbrev ready : DSpotThreshold ℕ
ready = record fresh {
  calibrated_upper_z_q = 50;
  upper_tail = record { threshold = 40; z_q = 50; excesses = []; n_exceed = 0 };
  lower_tail = record { threshold = 20; z_q = 10; excesses = []; n_exceed = 0 };
  n_total = 200;
  calibrated = true;
}

abbrev end_of : Option (DSpotThreshold ℕ × List Bool) → List Bool × List ℕ
end_of none = ([], [])
end_of (some (d, flags)) = (flags, d.upper_tail.excesses)

-- Only 50 is an excess.
flags :
    end_of (run thousandths tails ready (30 ∷ 51 ∷ 50 ∷ 9 ∷ []))
    ≡ (false ∷ true ∷ false ∷ true ∷ [], 10 ∷ [])
unfolding program
flags = refl

clamps : (adjust_all thousandths tails ready (1500 ∷ 1500 ∷ [])).upper_tail.z_q ≡ 100
unfolding program
clamps = refl

not_below_itself : (x : ℕ) → ltb x x ≡ false
not_below_itself x = ground arith

adjust_all-IsCapped_example :
    (z : ℕ) × (adjust_all thousandths tails ready (1500 ∷ 1500 ∷ []) ≡ record ready {
      upper_tail = record { threshold = 40; z_q = z; excesses = []; n_exceed = 0 };
    })
    × (ltb 100 z ≡ false)
adjust_all-IsCapped_example =
    adjust_all-IsCapped thousandths tails not_below_itself ready (1500 ∷ 1500 ∷ []) refl

abbrev full : DSpotThreshold ℕ
full = record ready {
  upper_tail = record { threshold = 40; z_q = 50; excesses = 3 ∷ 7 ∷ []; n_exceed = 2 };
}

deserialize-state_example :
    deserialize thousandths tails 2000 (serialize thousandths tails full) ≡ some full
deserialize-state_example =
    deserialize-state thousandths tails full refl
      (record { threshold = refl; excesses = (refl, (refl, tt)) })
      (record { threshold = refl; excesses = tt })
