-- ===== src/Api/Timeline.antt =====
-- src/seerflow/api/anomaly_timeline.py, `AnomalyTimelineRing`: the ring of minutes and its query.
-- Timestamps are not negative; the ring's list is a function of the slot, which is below the capacity.
pub mod Slots
pub mod Minutes
pub mod Series
mod Tests
use seerflow.Base.{
  Bool, List, Option, String, [], if◌then◌else◌, insert, leb, length, lookup, ltb, move_to_end,
  negsuc, none, not, pos, some, string_discrete, suc, values, zero, ℕ, ℤ, ◌%◌, ◌&&◌, ◌*◌, ◌++◌, ◌+◌,
  ◌-◌, ◌/◌, ◌==◌, ◌||◌, ◌∷◌,
}
use seerflow.Detection.Floats.{Floats, max_float}

abbrev pub bucket_ns : ℕ
bucket_ns = 60 * 1000000000

-- The base bucket of a time.
unfoldable pub bucket_index : ℕ → ℕ
bucket_index timestamp_ns = timestamp_ns / bucket_ns

-- `a - b`.
unfoldable pub difference : ℕ → ℕ → ℤ
difference a b = if leb b a then pos (a - b) else negsuc (b - a - 1)

module _ (F : Floats) where
  open F use {Float, zero_point, of_count, plus, divided_by, lt_float}

  pub record SourceBucket : Type 0 where
    pub max_score : Float
    pub sum_score : Float
    pub event_count : ℕ
    pub upper_threshold : Option Float

  pub record BaseBucket : Type 0 where
    pub bucket_start_ns : ℕ
    pub sources : List (String × SourceBucket)

  pub record TimelineBucket : Type 0 where
    pub bucket_start_ns : ℤ
    pub max_score : Option Float
    pub avg_score : Option Float
    pub event_count : ℕ
    pub upper_threshold : Option Float
    pub alert_count : ℕ

  pub record AnomalyTimelineRing : Type 0 where
    pub capacity : ℕ
    pub max_sources : ℕ
    pub buckets : ℕ → Option BaseBucket

  unfoldable pub init : ℕ → ℕ → AnomalyTimelineRing
  init capacity_buckets max_sources = record {
    capacity = capacity_buckets;
    max_sources = max_sources;
    buckets = λ slot. none;
  }

  abbrev pub new_source : SourceBucket
  new_source = record {
    max_score = zero_point;
    sum_score = zero_point;
    event_count = 0;
    upper_threshold = none;
  }

  unfoldable pub merge_score : SourceBucket → Float → Option Float → SourceBucket
  merge_score sb score upper_threshold = record {
    max_score = if lt_float sb.max_score score then score else sb.max_score;
    sum_score = plus sb.sum_score score;
    event_count = sb.event_count + 1;
    upper_threshold = elim upper_threshold [ none ↦ sb.upper_threshold | some t ↦ some t ];
  }

  -- The bucket of the slot, or a new one in place of none and of another minute's.
  unfoldable pub existing_bucket : Option BaseBucket → ℕ → BaseBucket
  existing_bucket none start = record { bucket_start_ns = start; sources = [] }
  existing_bucket (some b) start =
      if b.bucket_start_ns == start then b else record { bucket_start_ns = start; sources = [] }

  -- `popitem(last=False)`; `none` is its KeyError.
  abbrev pub popitem : List (String × SourceBucket) → Option (List (String × SourceBucket))
  popitem [] = none
  popitem (oldest ∷ rest) = some rest

  -- The source's aggregate, at the end, with the score merged.
  unfoldable pub merge_source :
      ℕ
      → List (String × SourceBucket)
      → String
      → Float
      → Option Float
      → Option (List (String × SourceBucket))
  unfolding merge_score
  merge_source max_sources sources source score threshold =
      elim (lookup string_discrete source sources) [
        | some sb ↦
            some (move_to_end string_discrete source (merge_score sb score threshold) sources)
        | none ↦ elim (if leb max_sources (length sources) then popitem sources else some sources) [
          | none ↦ none
          | some rest ↦
              some (insert string_discrete source (merge_score new_source score threshold) rest)
        ]
      ]

  unfoldable pub set_slot : ℕ → BaseBucket → (ℕ → Option BaseBucket) → ℕ → Option BaseBucket
  set_slot slot b buckets other = if slot == other then some b else buckets other

  -- `none` is a ZeroDivisionError, of a ring without slots, or the KeyError of `popitem`. `is_source`
  -- is the match with `_SOURCE_RE`.
  unfoldable pub record_score :
      (String → Bool)
      → AnomalyTimelineRing
      → ℕ
      → Float
      → Option Float
      → String
      → Option AnomalyTimelineRing
  unfolding bucket_index existing_bucket merge_source set_slot
  record_score is_source r timestamp_ns score upper_threshold source =
      if not (is_source source)
      then some r
      else if r.capacity == 0
      then none
      else (let idx = bucket_index timestamp_ns in
          let b = existing_bucket (r.buckets (idx % r.capacity)) (idx * bucket_ns) in
          elim (merge_source r.max_sources b.sources source score upper_threshold) [
            | none ↦ none
            | some sources ↦ some (record r {
              buckets = set_slot (idx % r.capacity) (record b { sources = sources }) r.buckets;
            })
          ])

  -- What `query` gathers for one output bucket.
  pub record Gathered : Type 0 where
    pub max_score : Option Float
    pub sum_score : Float
    pub count : ℕ
    pub threshold_candidates : List Float

  unfoldable pub gather_entry : Gathered → SourceBucket → Gathered
  gather_entry g entry = record {
    max_score = elim g.max_score [
      | none ↦ some entry.max_score
      | some m ↦ if lt_float m entry.max_score then some entry.max_score else some m
    ];
    sum_score = plus g.sum_score entry.sum_score;
    count = g.count + entry.event_count;
    threshold_candidates = elim entry.upper_threshold [
      | none ↦ g.threshold_candidates
      | some t ↦ g.threshold_candidates ++ t ∷ []
    ];
  }

  unfoldable pub gather_entries : Gathered → List SourceBucket → Gathered
  gather_entries g [] = g
  gather_entries g (entry ∷ entries) = gather_entries (gather_entry g entry) entries

  -- The aggregates of the chosen source, or of all.
  unfoldable pub chosen : Option String → List (String × SourceBucket) → List SourceBucket
  chosen none sources = values sources
  chosen (some source) sources = elim (lookup string_discrete source sources) [
    | none ↦ []
    | some sb ↦ sb ∷ []
  ]

  unfoldable pub gather_slot : AnomalyTimelineRing → Option String → ℕ → Gathered → Gathered
  unfolding gather_entries chosen
  gather_slot r source base_idx g = elim (r.buckets (base_idx % r.capacity)) [
    | none ↦ g
    | some b ↦
        if b.bucket_start_ns == base_idx * bucket_ns
        then gather_entries g (chosen source b.sources)
        else g
  ]

  -- The base buckets from `at - span` on; the negative ones are left out.
  unfoldable pub gather : AnomalyTimelineRing → Option String → ℕ → ℕ → ℕ → Gathered → Gathered
  unfolding gather_slot
  gather r source span at zero g = g
  gather r source span at (suc left) g =
      gather r source span (at + 1) left
        (if ltb at span then g else gather_slot r source (at - span) g)

  unfoldable pub largest : Float → List Float → Float
  largest m [] = m
  largest m (t ∷ ts) = largest (max_float F m t) ts

  abbrev pub threshold_of : Option Float → List Float → Option Float
  threshold_of carried [] = carried
  threshold_of carried (t ∷ ts) = some (largest t ts)

  abbrev pub nothing_gathered : Gathered
  nothing_gathered = record {
    max_score = none;
    sum_score = zero_point;
    count = 0;
    threshold_candidates = [];
  }

  -- The output buckets from `at - span` on, `left` of `step` base buckets each.
  unfoldable pub series :
      AnomalyTimelineRing → Option String → ℕ → ℕ → ℕ → ℕ → Option Float → List TimelineBucket
  unfolding gather largest difference
  series r source span step at zero carried = []
  series r source span step at (suc left) carried =
      let g = gather r source span at step nothing_gathered in
      let threshold = threshold_of carried g.threshold_candidates in
      record {
        bucket_start_ns = difference (at * bucket_ns) (span * bucket_ns);
        max_score = g.max_score;
        avg_score = if g.count == 0 then none else some (divided_by g.sum_score (of_count g.count));
        event_count = g.count;
        upper_threshold = threshold;
        alert_count = 0;
      }
      ∷ series r source span step (at + step) left threshold

  -- `none` is a ValueError, or the ZeroDivisionError of a ring without slots. Positions are `num_out * step` above the source's base buckets, which may
  -- be negative.
  unfoldable pub query :
      AnomalyTimelineRing → ℕ → ℕ → Option String → ℕ → Option (List TimelineBucket)
  unfolding series bucket_index
  query r range_ns resolution_ns source now_ns =
      if ltb resolution_ns bucket_ns || not (resolution_ns % bucket_ns == 0)
      then none
      else if ltb range_ns resolution_ns || not (range_ns % resolution_ns == 0)
      then none
      else (let num_out = range_ns / resolution_ns in
          let step = resolution_ns / bucket_ns in
          let end_aligned = (bucket_index now_ns + 1) / step * step in
          if r.capacity == 0 && not (end_aligned == 0)
          then none
          else some (series r source (num_out * step) step end_aligned num_out none))
