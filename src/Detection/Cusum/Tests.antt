-- ===== src/Detection/Cusum/Tests.antt =====
-- A detector with a warm-up of two minutes, and events in the minutes 0, 0, 1 and 3.
use seerflow.Base.{List, [], arith, negsuc, none, pos, refl, some, ◌∷◌, ◌≡◌}
use seerflow.Models.Event.{SeerflowEvent}
use seerflow.Detection.Floats.{max_float, min_float}
use seerflow.Detection.Samples.{thousandths, event_at}
use seerflow.Detection.Cusum.{
  CusumDetector, init, update, filtered, deviation, accumulate, fill_gap, open_bucket, learn_bucket,
  learn, is_accepted,
}
use seerflow.Detection.Cusum.Buckets.{
  learn_events, feed, mark, count_in, last_minute, learn_events-feed,
}
use seerflow.Detection.Cusum.Saving.{IsQuiet, learn_events-IsQuiet}

program : Unit {0}
unfolding init update filtered deviation accumulate fill_gap open_bucket learn_bucket learn
    learn_events max_float min_float feed count_in last_minute is_accepted
program = tt

abbrev fresh : CusumDetector thousandths
fresh = record {
  drift = 500;
  threshold = 5000;
  ema_alpha = 100;
  warmup_buckets = 2;
  g_upper = 0;
  g_lower = 0;
  running_mean = 0;
  running_var = 1000;
  last_score = 0;
  current_bucket = negsuc 0;
  current_count = 0;
  t = 0;
}

abbrev first : SeerflowEvent
first = event_at 5 (pos 1) []

abbrev later : List SeerflowEvent
later =
    event_at 7 (pos 1) [] ∷ event_at 60000000000 (pos 1) [] ∷ event_at 180000000001 (pos 1) [] ∷ []

starts : init thousandths 500 5000 100 2 ≡ some fresh
unfolding program
starts = refl

refuses : init thousandths 500 5000 1000 2 ≡ none
unfolding program
refuses = refl

-- The minutes 0, 1 and the empty 2 are closed.
counts : (learn_events thousandths 1 fresh (first ∷ later)).t ≡ 3
unfolding program
counts = refl

-- An event of a minute gone changes nothing.
drops_late : learn thousandths 1 (mark thousandths 1 fresh 4 2) first ≡ mark thousandths 1 fresh 4 2
unfolding program
drops_late = refl

learn_events-feed_example :
    learn_events thousandths 1 fresh (first ∷ later)
    ≡ mark thousandths 1 (feed thousandths 1 fresh 0 3 (λ m. count_in m (0 ∷ 0 ∷ 1 ∷ 3 ∷ []))) 3 1
unfolding program
learn_events-feed_example =
    learn_events-feed thousandths 1 refl fresh first later refl (omega arith)

learn_events-IsQuiet_example :
    IsQuiet thousandths (learn_events thousandths 1 fresh (first ∷ later))
learn_events-IsQuiet_example =
    learn_events-IsQuiet thousandths 1 refl 500 5000 100 2 (first ∷ later) starts
