-- ===== src/Detection/Cusum.antt =====
-- src/seerflow/detection/cusum.py, `CUSUMDetector`. The bytes of `serialize` are a parameter; a number
-- of the state that is no integer is a float. `tiny` is the literal 1e-10. `none` is a ValueError.
pub mod Buckets
pub mod Saving
mod Tests
use seerflow.Base.{
  Bool, Option, if◌then◌else◌, leb, ltb, min, negsuc, none, not, pos, some, suc, zero, ℕ, ℤ, ◌&&◌,
  ◌+◌, ◌-◌, ◌/◌, ◌==◌,
}
use seerflow.Models.Event.{SeerflowEvent}
use seerflow.Detection.Floats.{Floats, max_float, min_float}

-- One minute in nanoseconds.
abbrev pub bucket_ns : ℕ
bucket_ns = 60000000000

abbrev pub max_gap_fill : ℕ
max_gap_fill = 100

module _ (F : Floats) where
  open F use {Float, zero_point, one_point, is_finite, lt_float, le_float}

  -- The detector's slots, which are the fields of `_CUSUMState` too.
  pub record CusumDetector : Type 0 where
    pub drift : Float
    pub threshold : Float
    pub ema_alpha : Float
    pub warmup_buckets : ℕ
    pub g_upper : Float
    pub g_lower : Float
    pub running_mean : Float
    pub running_var : Float
    pub last_score : Float
    pub current_bucket : ℤ
    pub current_count : ℕ
    pub t : ℕ

  unfoldable pub init : Float → Float → Float → ℕ → Option CusumDetector
  init drift threshold ema_alpha warmup_buckets =
      if le_float drift zero_point
      then none
      else if le_float threshold zero_point
      then none
      else if not (lt_float zero_point ema_alpha && lt_float ema_alpha one_point)
      then none
      else if ltb warmup_buckets 1
      then none
      else some (record {
        drift = drift;
        threshold = threshold;
        ema_alpha = ema_alpha;
        warmup_buckets = warmup_buckets;
        g_upper = zero_point;
        g_lower = zero_point;
        running_mean = zero_point;
        running_var = one_point;
        last_score = zero_point;
        current_bucket = negsuc 0;
        current_count = 0;
        t = 0;
      })

  unfoldable pub score : CusumDetector → SeerflowEvent → Float
  score c event = c.last_score

  unfoldable pub serialize : {Bytes : Type 0} → (CusumDetector → Bytes) → CusumDetector → Bytes
  serialize encode c = encode c

  -- The checks of `deserialize`, on the state decoded.
  unfoldable pub is_accepted : CusumDetector → Bool
  is_accepted c =
      not (le_float c.drift zero_point)
      && not (le_float c.threshold zero_point)
      && (lt_float zero_point c.ema_alpha && lt_float c.ema_alpha one_point)
      && not (lt_float c.running_var zero_point)
      && is_finite c.g_upper
      && is_finite c.g_lower
      && is_finite c.running_mean
      && is_finite c.last_score

  -- Where the state is refused, or the bytes are no state, the detector stays as it was.
  unfoldable pub deserialize :
      {Bytes : Type 0}
      → (Bytes → Option CusumDetector)
      → CusumDetector
      → Bytes
      → Option CusumDetector
  unfolding is_accepted
  deserialize decode c blob = elim (decode blob) [
    | none ↦ none
    | some state ↦
        if is_accepted state
        then some (record c {
          drift = state.drift;
          threshold = state.threshold;
          ema_alpha = state.ema_alpha;
          warmup_buckets = state.warmup_buckets;
          g_upper = state.g_upper;
          g_lower = state.g_lower;
          running_mean = state.running_mean;
          running_var = state.running_var;
          last_score = state.last_score;
          current_bucket = state.current_bucket;
          current_count = state.current_count;
          t = state.t;
        })
        else none
  ]

  module _ (tiny : Float) where
    open F use {plus, minus, times, divided_by, square, square_root}

    -- The lines of `_update` after the warm-up.
    unfoldable pub accumulate : CusumDetector → Float → CusumDetector
    accumulate c z =
        let up : Float = max_float F zero_point (minus (plus c.g_upper z) c.drift) in
        let down : Float = max_float F zero_point (minus (minus c.g_lower z) c.drift) in
        let reached : Float =
          min_float F (divided_by (max_float F up down) c.threshold) one_point in
        if le_float one_point reached
        then record c { g_upper = zero_point; g_lower = zero_point; last_score = zero_point }
        else record c { g_upper = up; g_lower = down; last_score = reached }

    -- `(count - prev_mean) / running_std`, with the variance that `_update` has just stored.
    unfoldable pub deviation : CusumDetector → Float → Float
    deviation c count =
        let away : Float = minus count c.running_mean in
        let kept : Float = times (minus one_point c.ema_alpha) c.running_var in
        let var : Float = plus (times c.ema_alpha (square away)) kept in
        divided_by away (max_float F (square_root var) tiny)

    -- The running mean and variance, of `_update` after the first bucket.
    unfoldable pub filtered : CusumDetector → Float → CusumDetector
    filtered c count =
        let rest : Float = minus one_point c.ema_alpha in
        record c {
          t = c.t + 1;
          running_mean = plus (times c.ema_alpha count) (times rest c.running_mean);
          running_var =
              plus (times c.ema_alpha (square (minus count c.running_mean)))
                (times rest c.running_var);
        }

    unfoldable pub update : CusumDetector → Float → CusumDetector
    update c count =
        if c.t == 0
        then record c { t = 1; running_mean = count; running_var = one_point }
        else let c' = filtered c count in
          if leb (c.t + 1) c.warmup_buckets
          then record c' { last_score = zero_point }
          else accumulate c' (deviation c count)

    -- `for _ in range(n): self._update(0.0)`
    unfoldable pub fill_gap : ℕ → CusumDetector → CusumDetector
    fill_gap zero c = c
    fill_gap (suc n) c = fill_gap n (update c zero_point)

    -- The end of `learn`, where a later bucket begins.
    unfoldable pub open_bucket : CusumDetector → ℕ → ℕ → CusumDetector
    open_bucket c gap bucket =
        record (fill_gap (min gap max_gap_fill) (update c (F.of_count c.current_count))) {
          current_bucket = pos bucket;
          current_count = 1;
        }

    -- `-1` stands for no bucket; a negative one below it comes from a stored state only.
    unfoldable pub learn_bucket : CusumDetector → ℕ → CusumDetector
    learn_bucket c bucket = elim c.current_bucket [
      | negsuc n ↦
          if n == 0
          then record c { current_bucket = pos bucket; current_count = 1 }
          else open_bucket c (bucket + n) bucket
      | pos current ↦
          if bucket == current
          then record c { current_count = c.current_count + 1 }
          else if ltb bucket current
          then c
          else open_bucket c (bucket - current - 1) bucket
    ]

    unfoldable pub learn : CusumDetector → SeerflowEvent → CusumDetector
    learn c event = learn_bucket c (event.timestamp_ns / bucket_ns)
