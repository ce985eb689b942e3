-- ===== src/Ueba/Baseline.antt =====
-- src/seerflow/ueba/baseline.py: what an event makes of an entity's baseline. Times are nanoseconds; an
-- IndexError of `hours` is `none`. `text_of` is `str` of a template's number.
pub mod Hours
pub mod Sources
pub mod Valid
mod Tests
use seerflow.Base.{
  Bool, List, Option, String, [], drop, false, if◌then◌else◌, insert, ite, leb, length, lookup, ltb,
  map, max, negsuc, none, some, sorted, string_discrete, suc, take, true, zero, ℕ, ℤ, ℤ_discrete,
  ◌%◌, ◌&&◌, ◌*◌, ◌+◌, ◌-◌, ◌/◌, ◌∷◌,
}
use seerflow.Models.Event.{SeerflowEvent}
use seerflow.Models.Alert.{EntityType}
use seerflow.Detection.Floats.{Floats}

unfoldable pub bucket_hour_utc : ℕ → ℕ
bucket_hour_utc timestamp_ns = (timestamp_ns / 1000000000 / 3600) % 24

unfoldable pub update_hours : List ℕ → ℕ → Option (List ℕ)
update_hours [] hour = none
update_hours (n ∷ hours) zero = some ((n + 1) ∷ hours)
update_hours (n ∷ hours) (suc hour) = elim (update_hours hours hour) [
  | none ↦ none
  | some rest ↦ some (n ∷ rest)
]

-- `dict(pairs)`, with the entries of `d` before.
unfoldable pub add_pairs : {V : Type 0} → List (String × V) → List (String × V) → List (String × V)
add_pairs d [] = d
add_pairs d ((k, v) ∷ rest) = add_pairs (insert string_discrete k v d) rest

abbrev pub seen_at : String × ℕ → ℕ
seen_at e = e.1

-- The most recent `bound` of them, if there are more.
unfoldable pub cap_sources : ℕ → List (String × ℕ) → List (String × ℕ)
cap_sources bound d =
    if ltb bound (length d) then add_pairs [] (drop (length d - bound) (sorted seen_at d)) else d

unfoldable pub update_source_ips : List (String × ℕ) → String → ℕ → ℕ → List (String × ℕ)
update_source_ips ips new_ip now_ns bound =
    cap_sources bound (insert string_discrete new_ip now_ns (add_pairs [] ips))

-- `tuple([0] * n)`
unfoldable pub zeros : ℕ → List ℕ
zeros zero = []
zeros (suc n) = 0 ∷ zeros n

abbrev pub ns_per_day : ℕ
ns_per_day = 86400000000000

-- The loop over `event.related_ips`.
unfoldable pub update_all_ips : List (String × ℕ) → List String → ℕ → ℕ → List (String × ℕ)
update_all_ips ips [] now_ns bound = ips
update_all_ips ips (ip ∷ rest) now_ns bound =
    update_all_ips (update_source_ips ips ip now_ns bound) rest now_ns bound

module _ (F : Floats) where
  open F use {Float, zero_point, one_point, plus, minus, times, lt_float}

  unfoldable pub update_ema : Float → Float → Float → Bool → Float
  update_ema prev observed alpha is_first =
      if is_first
      then observed
      else plus (times alpha observed) (times (minus one_point alpha) prev)

  -- `sorted(items, key=lambda kv: kv[1], reverse=True)`, which keeps the order of equal ones.
  unfoldable pub insert_down : String × Float → List (String × Float) → List (String × Float)
  insert_down a [] = a ∷ []
  insert_down a (x ∷ xs) =
      let rest = insert_down a xs in if lt_float a.1 x.1 then x ∷ rest else a ∷ x ∷ xs

  unfoldable pub sorted_down : List (String × Float) → List (String × Float)
  sorted_down [] = []
  sorted_down (x ∷ xs) = insert_down x (sorted_down xs)

  -- The heaviest `top_k` of them, if there are more.
  unfoldable pub cap_templates : ℕ → List (String × Float) → List (String × Float)
  cap_templates top_k all =
      if ltb top_k (length all) then add_pairs [] (take top_k (sorted_down all)) else all

  unfoldable pub weight_of : Option Float → Float
  weight_of none = zero_point
  weight_of (some w) = w

  unfoldable pub update_templates :
      List (String × Float) → String → Float → ℕ → List (String × Float)
  update_templates templates template_id alpha top_k =
      let decayed = add_pairs [] (map (λ e. (e.0, times (minus one_point alpha) e.1)) templates) in
      let weight =
        plus (weight_of (lookup string_discrete template_id decayed)) (times alpha one_point) in
      cap_templates top_k (insert string_discrete template_id weight decayed)

  pub record UebaParams : Type 0 where
    pub alpha : Float
    pub source_ip_cap : ℕ
    pub template_top_k : ℕ
    pub warmup_days : ℕ
    pub warmup_min_events : ℕ

  pub record EntityBaseline : Type 0 where
    pub entity_uuid : String
    pub entity_type : EntityType
    pub first_seen_ns : ℕ
    pub last_seen_ns : ℕ
    pub event_count : ℕ
    pub warmup_complete : Bool
    pub hours : List ℕ
    pub source_ips : List (String × ℕ)
    pub volume_ema_min : Float
    pub volume_ema_hour : Float
    pub volume_last_ns : ℕ
    pub templates : List (String × Float)

  pub record PriorState : Type 0 where
    pub is_first : Bool
    pub hours : List ℕ
    pub ips : List (String × ℕ)
    pub templates : List (String × Float)
    pub ema_min : Float
    pub ema_hour : Float
    pub first_seen_ns : ℕ
    pub last_seen_ns : ℕ
    pub event_count : ℕ
    pub warmup_latched : Bool

  unfoldable pub prior_state : Option EntityBaseline → ℕ → PriorState
  prior_state none ts_ns = record {
    is_first = true;
    hours = zeros 24;
    ips = [];
    templates = [];
    ema_min = zero_point;
    ema_hour = zero_point;
    first_seen_ns = ts_ns;
    last_seen_ns = ts_ns;
    event_count = 0;
    warmup_latched = false;
  }
  prior_state (some b) ts_ns = record {
    is_first = false;
    hours = b.hours;
    ips = b.source_ips;
    templates = b.templates;
    ema_min = b.volume_ema_min;
    ema_hour = b.volume_ema_hour;
    first_seen_ns = b.first_seen_ns;
    last_seen_ns = b.last_seen_ns;
    event_count = b.event_count;
    warmup_latched = b.warmup_complete;
  }

  unfoldable pub compute_warmup : Bool → ℕ → ℕ → UebaParams → Bool
  compute_warmup prev_latched span_ns event_count params =
      if prev_latched
      then true
      else leb (params.warmup_days * ns_per_day) span_ns && leb params.warmup_min_events event_count

  module _ (text_of : ℤ → String) where
    unfoldable pub event_templates : PriorState → SeerflowEvent → UebaParams → List (String × Float)
    event_templates prev event params =
        ite (ℤ_discrete event.template_id (negsuc 0)) prev.templates (
          update_templates prev.templates (text_of event.template_id) params.alpha
            params.template_top_k)

    -- The baseline that `apply_event` returns, with the hours counted.
    unfoldable pub next_baseline :
        PriorState → String → EntityType → SeerflowEvent → UebaParams → List ℕ → EntityBaseline
    next_baseline prev entity_uuid entity_type event params hours =
        let ts_ns = event.timestamp_ns in
        let last_seen_ns = max prev.last_seen_ns ts_ns in
        record {
          entity_uuid = entity_uuid;
          entity_type = entity_type;
          first_seen_ns = prev.first_seen_ns;
          last_seen_ns = last_seen_ns;
          event_count = prev.event_count + 1;
          warmup_complete =
              compute_warmup prev.warmup_latched (last_seen_ns - prev.first_seen_ns)
                (prev.event_count + 1) params;
          hours = hours;
          source_ips = update_all_ips prev.ips event.related_ips ts_ns params.source_ip_cap;
          volume_ema_min = update_ema prev.ema_min one_point params.alpha prev.is_first;
          volume_ema_hour = update_ema prev.ema_hour one_point params.alpha prev.is_first;
          volume_last_ns = ts_ns;
          templates = event_templates prev event params;
        }

    unfoldable pub apply_event :
        Option EntityBaseline
        → String
        → EntityType
        → SeerflowEvent
        → UebaParams
        → Option EntityBaseline
    apply_event baseline entity_uuid entity_type event params =
        let ts_ns = event.timestamp_ns in
        let prev = prior_state baseline ts_ns in
        elim (update_hours prev.hours (bucket_hour_utc ts_ns)) [
          | none ↦ none
          | some hours ↦ some (next_baseline prev entity_uuid entity_type event params hours)
        ]
