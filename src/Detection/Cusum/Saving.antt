-- ===== src/Detection/Cusum/Saving.antt =====
-- The score that the detector reports, and its state saved and loaded.
use seerflow.Base.{
  List, Option, [], arith, false, if◌then◌else◌, min, negsuc, none, pos, refl, some, suc, zero, ℕ,
  ℤ, ◌+◌, ◌-◌, ◌∷◌, ◌≡◌, ◌≤◌,
}
use seerflow.Models.Event.{SeerflowEvent}
use seerflow.Detection.Floats.{Floats}
use seerflow.Detection.Cusum.{
  CusumDetector, init, update, filtered, deviation, accumulate, fill_gap, open_bucket, learn_bucket,
  learn, serialize, deserialize, is_accepted,
}
use seerflow.Detection.Cusum.Buckets.{learn_events, minute}

module _ (F : Floats) where
  open F use {zero_point, one_point, le_float}

  -- The score stays below one, and is zero until the warm-up is over.
  pub record IsQuiet (c : CusumDetector F) : Type 0 where
    pub below : le_float one_point c.last_score ≡ false
    pub warming : c.t ≤ c.warmup_buckets → c.last_score ≡ zero_point

  module _ (tiny : F.Float) (apart : le_float one_point zero_point ≡ false) where
    accumulate_below :
        (c : CusumDetector F) (z : F.Float)
        → le_float one_point (accumulate F tiny c z).last_score ≡ false
    unfolding accumulate
    accumulate_below c z = ground arith

    accumulate_counts :
        (c : CusumDetector F) (z : F.Float)
        → ((accumulate F tiny c z).t ≡ c.t)
          × ((accumulate F tiny c z).warmup_buckets ≡ c.warmup_buckets)
    unfolding accumulate
    accumulate_counts c z = ground arith

    update-IsQuiet : (c : CusumDetector F) (x : F.Float) → IsQuiet c → IsQuiet (update F tiny c x)
    unfolding update filtered
    update-IsQuiet c x q = ground (
      arith,
      accumulate_below (filtered F tiny c x) (deviation F tiny c x),
      accumulate_counts (filtered F tiny c x) (deviation F tiny c x),
    )

    fill_gap-IsQuiet : (n : ℕ) (c : CusumDetector F) → IsQuiet c → IsQuiet (fill_gap F tiny n c)
    unfolding fill_gap
    fill_gap-IsQuiet zero c q = q
    fill_gap-IsQuiet (suc n) c q =
        fill_gap-IsQuiet n (update F tiny c zero_point) (update-IsQuiet c zero_point q)

    open_bucket-IsQuiet :
        (c : CusumDetector F) (gap bucket : ℕ)
        → IsQuiet c
        → IsQuiet (open_bucket F tiny c gap bucket)
    unfolding open_bucket
    open_bucket-IsQuiet c gap bucket q =
        let q' =
          fill_gap-IsQuiet (min gap 100) _ (update-IsQuiet c (F.of_count c.current_count) q) in
        record { below = q'.below; warming = q'.warming }

    learn-IsQuiet :
        (c : CusumDetector F) (b : ℕ) (z : ℤ)
        → c.current_bucket ≡ z
        → IsQuiet c
        → IsQuiet (learn_bucket F tiny c b)
    unfolding learn_bucket
    learn-IsQuiet c b (pos current) e q =
        ground (arith, open_bucket-IsQuiet c (b - current - 1) b q)
    learn-IsQuiet c b (negsuc n) e q = ground (arith, open_bucket-IsQuiet c (b + n) b q)

    events-IsQuiet :
        (c : CusumDetector F) (es : List SeerflowEvent)
        → IsQuiet c
        → IsQuiet (learn_events F tiny c es)
    unfolding learn_events learn
    events-IsQuiet c [] q = q
    events-IsQuiet c (e ∷ es) q =
        events-IsQuiet (learn_bucket F tiny c (minute e)) es
          (learn-IsQuiet c (minute e) c.current_bucket refl q)

    -- With zero below one: after any events on a new detector, the score reported is below one, so a
    -- change point confirmed is never reported as one; and it is zero until the warm-up is over.
    pub learn_events-IsQuiet :
        (drift threshold ema_alpha : F.Float) (warmup_buckets : ℕ) {c : CusumDetector F}
        (es : List SeerflowEvent)
        → init F drift threshold ema_alpha warmup_buckets ≡ some c
        → IsQuiet (learn_events F tiny c es)
    unfolding init
    learn_events-IsQuiet drift threshold ema_alpha warmup_buckets {c} es made =
        events-IsQuiet c es (record { below = ground arith; warming = λ le. ground arith })

  -- With bytes that decode to what was encoded: a state that passes the checks is loaded as it was saved,
  -- into any detector; any other is refused.
  pub deserialize-serialize :
      {Bytes : Type 0} (encode : CusumDetector F → Bytes)
      (decode : Bytes → Option (CusumDetector F)) (c other : CusumDetector F)
      → ((s : CusumDetector F) → decode (encode s) ≡ some s)
      → deserialize F decode other (serialize F encode c)
        ≡ (if is_accepted F c then some c else none)
  unfolding deserialize serialize
  deserialize-serialize encode decode c other back = rw (deserialize, back c)
