-- ===== src/Api/Timeline/Minutes.antt =====
-- What the ring holds of a source's minute, against the events recorded.
use seerflow.Base.{
  Bool, Bool-cases, IsDict, List, Option, String, Within, arith, contains, erase_absent, excess_old,
  false, if◌then◌else◌, inl, inr, ite, leb, length, length-Within, lookup, lookup-lru_put_known,
  lru_put, lru_put-IsDict, lru_put-Within, lru_put_new, none, refl, room_for, some, string_discrete,
  subst, true, ℕ, ◌%◌, ◌*◌, ◌+◌, ◌-◌, ◌<◌, ◌==◌, ◌≡◌, ◌≢◌, ◌≤◌,
}
use seerflow.Detection.Floats.{Floats}
use seerflow.Api.Timeline.Slots.{same_slot}
use seerflow.Api.Timeline.{
  bucket_ns, SourceBucket, AnomalyTimelineRing, new_source, merge_score, merge_source, BaseBucket,
  existing_bucket, set_slot, record_score, bucket_index,
}

module _ (F : Floats) where
  open F use {Float}

  pub record Scored : Type 0 where
    pub timestamp_ns : ℕ
    pub score : Float
    pub upper_threshold : Option Float
    pub source : String

  unfoldable pub events_of : String → List (String × SourceBucket F) → ℕ
  events_of source sources = elim (lookup string_discrete source sources) [
    | none ↦ 0
    | some sb ↦ sb.event_count
  ]

  unfoldable pub held_in : Option (BaseBucket F) → String → ℕ → ℕ
  unfolding events_of
  held_in none source start = 0
  held_in (some b) source start =
      if b.bucket_start_ns == start then events_of source b.sources else 0

  -- The number of events that the ring holds of the source in the base bucket.
  unfoldable pub held : AnomalyTimelineRing F → String → ℕ → ℕ
  unfolding held_in
  held r source idx = held_in (r.buckets (idx % r.capacity)) source (idx * bucket_ns)

  module _ (known : List String) (max_sources : ℕ) (fits : length known ≤ max_sources) where
    abbrev IsTidy : List (String × SourceBucket F) → Type 0
    IsTidy sources = IsDict string_discrete sources × Within known sources

    merge_cases :
        (sources : List (String × SourceBucket F)) (source : String) (score : Float)
        (t : Option Float) (found : Option (SourceBucket F))
        → IsTidy sources
        → contains source known ≡ true
        → lookup string_discrete source sources ≡ found
        → (sb : SourceBucket F) × (sb.event_count ≡ events_of source sources + 1)
          × (merge_source F max_sources sources source score t
              ≡ some (lru_put string_discrete max_sources source sb sources))
    unfolding events_of merge_source merge_score lru_put
    merge_cases sources source score t (some sb) h is_known e =
        let new = merge_score F sb score t in
        let few : length sources ≤ max_sources =
          omega (arith, length-Within known sources h.0 h.1) in
        let none_over = excess_old string_discrete max_sources source sources {v = sb} h.0 e few in
        (new, ground arith, ground (arith, e, none_over))
    merge_cases sources source score t none h is_known e =
        let new = merge_score F (new_source F) score t in
        let zero_there : events_of source sources ≡ 0 = ground arith in
        let spare : length sources < max_sources =
          subst (λ (d : List (String × SourceBucket F)). length d < max_sources)
            (erase_absent string_discrete source sources e)
            (room_for known max_sources source new sources h.0 h.1 is_known fits) in
        let test : leb max_sources (length sources) ≡ false = ground arith in
        let none_over : length sources + 1 - max_sources ≡ 0 = omega arith in
        let put = lru_put_new string_discrete max_sources source new sources e in
        (new, ground arith, ground (arith, e, test, none_over, put))

    pub record_merged :
        (sources : List (String × SourceBucket F)) (source : String) (score : Float)
        (t : Option Float)
        → IsTidy sources
        → contains source known ≡ true
        → (sources' : List (String × SourceBucket F)) × (merge_source F max_sources sources source
              score t
            ≡ some sources')
          × IsTidy sources'
          × ((s : String)
              → events_of s sources' ≡ events_of s sources + ite (string_discrete source s) 1 0)
    unfolding events_of
    record_merged sources source score t h is_known =
        let (sb, count, made) =
          merge_cases sources source score t (lookup string_discrete source sources) h is_known
            refl in
        (
          lru_put string_discrete max_sources source sb sources,
          made,
          (
            lru_put-IsDict string_discrete max_sources source sb sources h.0,
            lru_put-Within known max_sources source sb sources h.0 h.1 is_known fits,
          ),
          λ s. ground (
            arith,
            count,
            lookup-lru_put_known known max_sources source sb sources h.0 h.1 is_known fits s,
          ),
        )

    abbrev IsSlot : ℕ → ℕ → ℕ → Option (BaseBucket F) → Type 0
    IsSlot lo capacity k none = Unit
    IsSlot lo capacity k (some b) =
        IsTidy b.sources
        × ((i : ℕ) × (b.bucket_start_ns ≡ i * bucket_ns)
            × (i % capacity ≡ k)
            × (lo ≤ i)
            × (i < lo + capacity))

    existing-IsTidy :
        (o : Option (BaseBucket F)) (lo capacity k start : ℕ)
        → IsSlot lo capacity k o
        → IsTidy (existing_bucket F o start).sources
          × ((existing_bucket F o start).bucket_start_ns ≡ start)
          × ((s : String) → events_of s (existing_bucket F o start).sources ≡ held_in o s start)
    unfolding existing_bucket events_of lookup held_in
    existing-IsTidy none lo capacity k start h = ((tt, λ j out. refl), refl, λ s. refl)
    existing-IsTidy (some b) lo capacity k start h =
        elim (Bool-cases (b.bucket_start_ns == start)) [
          | inl same ↦ rw same (h.0, ground arith, λ s. refl)
          | inr other ↦ rw other ((tt, λ j out. refl), refl, λ s. refl)
        ]

    pub record IsPlaced (lo : ℕ) (r : AnomalyTimelineRing F) : Type 0 where
      pub some_slot : 0 < r.capacity
      pub room : r.max_sources ≡ max_sources
      pub slots : (k : ℕ) → IsSlot lo r.capacity k (r.buckets k)

    module _ (lo : ℕ) (r : AnomalyTimelineRing F) (v : IsPlaced lo r) (idx : ℕ) (first : lo ≤ idx)
        (last : idx < lo + r.capacity) where
      abbrev written : List (String × SourceBucket F) → AnomalyTimelineRing F
      written sources = record r {
        buckets =
            set_slot F (idx % r.capacity)
              (record { bucket_start_ns = idx * bucket_ns; sources = sources }) r.buckets;
      }

      written-IsPlaced :
          (sources : List (String × SourceBucket F))
          → IsTidy sources
          → IsPlaced lo (written sources)
      unfolding set_slot
      written-IsPlaced sources h = record {
        some_slot = v.some_slot;
        room = v.room;
        slots = λ k. elim (Bool-cases (idx % r.capacity == k)) [
          | inl same ↦ rw same (h, (idx, refl, ground arith, first, last))
          | inr other ↦ rw other (v.slots k)
        ];
      }

      held_elsewhere :
          (s : String) (i : ℕ) (o : Option (BaseBucket F))
          → IsSlot lo r.capacity (i % r.capacity) o
          → idx % r.capacity ≡ i % r.capacity
          → idx ≢ i
          → held_in o s (i * bucket_ns) ≡ 0
      unfolding held_in
      held_elsewhere s i none p same other = refl
      held_elsewhere s i (some b) (tidy, (j, start, slot, low, high)) same other =
          let here : j ≡ idx =
            same_slot r.capacity j idx (ground arith) (omega arith) (omega arith) in
          ground arith

      held-written :
          (sources : List (String × SourceBucket F)) (s : String) (i : ℕ)
          → held (written sources) s i ≡ (if idx == i then events_of s sources else held r s i)
      unfolding held held_in set_slot
      held-written sources s i = elim (Bool-cases (idx % r.capacity == i % r.capacity)) [
        | inl same ↦ elim (Bool-cases (idx == i)) [
          | inl here ↦ ground arith
          | inr other ↦ ground (
            arith,
            held_elsewhere s i (r.buckets (i % r.capacity)) (v.slots (i % r.capacity))
                (ground arith) (ground arith),
          )
        ]
        | inr other ↦ ground arith
      ]

    -- Recording a known source's event of a minute that the ring has room for adds it to what the ring
    -- holds of the source's minute, and to nothing else.
    pub record_score-held :
        (is_source : String → Bool) (lo : ℕ) (r : AnomalyTimelineRing F) (e : Scored)
        → IsPlaced lo r
        → is_source e.source ≡ true
        → contains e.source known ≡ true
        → lo ≤ bucket_index e.timestamp_ns
        → bucket_index e.timestamp_ns < lo + r.capacity
        → (r' : AnomalyTimelineRing F) × (record_score F is_source r e.timestamp_ns e.score
              e.upper_threshold e.source
            ≡ some r')
          × IsPlaced lo r'
          × (r'.capacity ≡ r.capacity)
          × ((s : String) (i : ℕ)
              → held r' s i
                ≡ held r s i
                  + (if bucket_index e.timestamp_ns == i
                      then ite (string_discrete e.source s) 1 0
                      else 0))
    unfolding record_score held
    record_score-held is_source lo r e v valid is_known first last =
        let idx = bucket_index e.timestamp_ns in
        let o = r.buckets (idx % r.capacity) in
        let old =
          existing-IsTidy o lo r.capacity (idx % r.capacity) (idx * bucket_ns)
            (v.slots (idx % r.capacity)) in
        let b = existing_bucket F o (idx * bucket_ns) in
        let new = record_merged b.sources e.source e.score e.upper_threshold old.0 is_known in
        let some_slot = v.some_slot in
        let room = v.room in
        (
          written lo r v idx first last new.0,
          ground (arith, valid, new.1, old.1),
          written-IsPlaced lo r v idx first last new.0 new.2,
          refl,
          λ s i. ground (arith, held-written lo r v idx first last new.0 s i, new.3 s, old.2 s),
        )
