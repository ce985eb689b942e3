-- ===== src/Api/Timeline/Series.antt =====
-- The counts of a query against the events recorded.
use seerflow.Base.{
  All, Bool, Bool-cases, List, Option, String, [], ap, arith, contains, if◌then◌else◌, inl, inr,
  ite, leb, length, ltb, map, none, not, refl, some, string_discrete, subst, suc, sym, true, zero,
  ℕ, ◌%◌, ◌&&◌, ◌*◌, ◌+◌, ◌-◌, ◌/◌, ◌<◌, ◌||◌, ◌∙◌, ◌∷◌, ◌≡◌, ◌≤◌,
}
use seerflow.Detection.Floats.{Floats}
use seerflow.Api.Timeline.{
  bucket_ns, bucket_index, AnomalyTimelineRing, record_score, init, query, series, gather,
  gather_slot, gather_entries, gather_entry, chosen, nothing_gathered, threshold_of, Gathered,
  TimelineBucket,
}
use seerflow.Api.Timeline.Minutes.{Scored, held, held_in, events_of, IsPlaced, record_score-held}

module _ (F : Floats) where
  open F use {Float}

  unfoldable pub record_all :
      (String → Bool) → AnomalyTimelineRing F → List (Scored F) → Option (AnomalyTimelineRing F)
  record_all is_source r [] = some r
  record_all is_source r (e ∷ es) =
      elim (record_score F is_source r e.timestamp_ns e.score e.upper_threshold e.source) [
        | none ↦ none
        | some r' ↦ record_all is_source r' es
      ]

  -- The number of the source's events whose minute, moved by the span, is from `low` on and below
  -- `high`.
  unfoldable pub recorded : String → ℕ → ℕ → ℕ → List (Scored F) → ℕ
  recorded s span low high [] = 0
  recorded s span low high (e ∷ es) =
      let rest = recorded s span low high es in
      let at = bucket_index e.timestamp_ns + span in
      if leb low at && ltb at high then ite (string_discrete e.source s) 1 0 + rest else rest

  unfoldable pub windows : String → ℕ → ℕ → ℕ → ℕ → List (Scored F) → List ℕ
  windows s span step at zero es = []
  windows s span step at (suc left) es =
      recorded s span at (at + step) es ∷ windows s span step (at + step) left es

  recorded_split :
      (s : String) (span low mid high : ℕ) (es : List (Scored F))
      → low ≤ mid
      → mid ≤ high
      → recorded s span low high es ≡ recorded s span low mid es + recorded s span mid high es
  unfolding recorded
  recorded_split s span low mid high [] h k = refl
  recorded_split s span low mid high (e ∷ es) h k =
      ground (arith, recorded_split s span low mid high es h k)

  recorded_minute :
      (s : String) (span i : ℕ) (es : List (Scored F))
      → recorded s span (i + span) (i + span + 1) es ≡ recorded s 0 i (i + 1) es
  unfolding recorded
  recorded_minute s span i [] = refl
  recorded_minute s span i (e ∷ es) = ground (arith, recorded_minute s span i es)

  recorded_before :
      (s : String) (span at : ℕ) (es : List (Scored F))
      → at < span
      → recorded s span at (at + 1) es ≡ 0
  unfolding recorded
  recorded_before s span at [] h = refl
  recorded_before s span at (e ∷ es) h = ground (arith, recorded_before s span at es h)

  recorded_none : (s : String) (span at : ℕ) (es : List (Scored F)) → recorded s span at at es ≡ 0
  unfolding recorded
  recorded_none s span at [] = refl
  recorded_none s span at (e ∷ es) = ground (arith, recorded_none s span at es)

  gather_slot-count :
      (r : AnomalyTimelineRing F) (s : String) (i : ℕ) (g : Gathered F)
      → (gather_slot F r (some s) i g).count ≡ g.count + held F r s i
  unfolding gather_slot gather_entries gather_entry chosen held held_in events_of
  gather_slot-count r s i g = ground arith

  -- A ring that holds what was recorded, of a source.
  abbrev IsHeld : AnomalyTimelineRing F → String → List (Scored F) → Type 0
  IsHeld r s es = (i : ℕ) → held F r s i ≡ recorded s 0 i (i + 1) es

  gather-count :
      (r : AnomalyTimelineRing F) (s : String) (es : List (Scored F)) (span at left : ℕ)
      (g : Gathered F)
      → IsHeld r s es
      → (gather F r (some s) span at left g).count ≡ g.count + recorded s span at (at + left) es
  unfolding gather
  gather-count r s es span at zero g h = ground (arith, recorded_none s span at es)
  gather-count r s es span at (suc left) g h =
      let halves =
        recorded_split s span at (at + 1) (at + 1 + left) es (omega arith) (omega arith) in
      elim (Bool-cases (ltb at span)) [
        | inl early ↦
            let before = recorded_before s span at es (ground arith) in
            let more = gather-count r s es span (at + 1) left g h in
            ground (arith, before, halves, more)
        | inr there ↦
            let i = at - span in
            let same : i + span ≡ at = ground arith in
            let minute : recorded s 0 i (i + 1) es ≡ recorded s span at (at + 1) es =
              subst (λ (n : ℕ). recorded s 0 i (i + 1) es ≡ recorded s span n (n + 1) es) same
                (sym (recorded_minute s span i es)) in
            let g' = gather_slot F r (some s) i g in
            let more = gather-count r s es span (at + 1) left g' h in
            ground (arith, minute, halves, more, h i, gather_slot-count r s i g)
      ]

  series-counts :
      (r : AnomalyTimelineRing F) (s : String) (es : List (Scored F)) (span step at left : ℕ)
      (carried : Option Float)
      → IsHeld r s es
      → map
          (λ (b : TimelineBucket F). b.event_count)
          (series F r (some s) span step at left carried)
        ≡ windows s span step at left es
  unfolding series windows
  series-counts r s es span step at zero carried h = refl
  series-counts r s es span step at (suc left) carried h =
      let g = gather F r (some s) span at step (nothing_gathered F) in
      let carried' = threshold_of F carried g.threshold_candidates in
      let gathered = gather-count r s es span at step (nothing_gathered F) h in
      let count : g.count ≡ recorded s span at (at + step) es = ground (arith, gathered) in
      rw count (
        ap (λ (ns : List ℕ). recorded s span at (at + step) es ∷ ns)
          (series-counts r s es span step (at + step) left carried' h))

  module _ (is_source : String → Bool) (known : List String) (max_sources : ℕ)
      (fits : length known ≤ max_sources) (lo capacity : ℕ) where
    -- An event that the ring takes is of a known source, and its minute is one of the `capacity` from
    -- `lo` on.
    unfoldable pub is_fit : Scored F → Bool
    is_fit e =
        let idx = bucket_index e.timestamp_ns in
        not (is_source e.source) || contains e.source known && leb lo idx && ltb idx (lo + capacity)

    abbrev pub AreFit : List (Scored F) → Type 0
    AreFit = All (λ e. is_fit e ≡ true)

    record_all-held :
        (r : AnomalyTimelineRing F) (es : List (Scored F))
        → IsPlaced F known max_sources fits lo r
        → r.capacity ≡ capacity
        → AreFit es
        → (r' : AnomalyTimelineRing F) × (record_all is_source r es ≡ some r')
          × (r'.capacity ≡ capacity)
          × ((s : String) (i : ℕ)
              → is_source s ≡ true
              → held F r' s i ≡ held F r s i + recorded s 0 i (i + 1) es)
    unfolding record_all recorded is_fit record_score
    record_all-held r [] v c all = (r, refl, c, λ s i h. omega arith)
    record_all-held r (e ∷ es) v c all = elim (Bool-cases (is_source e.source)) [
      | inl valid ↦
          let (r', made, v', c', adds) =
            record_score-held F known max_sources fits is_source lo r e v valid (ground arith)
              (ground arith) (ground arith) in
          let (r'', rest, c'', held'') = record_all-held r' es v' (c' ∙ c) all.1 in
          (r'', ground (arith, made, rest), c'', λ s i h. ground (arith, held'' s i h, adds s i))
      | inr dropped ↦
          let (r'', rest, c'', held'') = record_all-held r es v c all.1 in
          (r'', ground (arith, rest), c'', λ s i h. ground (arith, held'' s i h))
    ]

    -- A new ring with room for the known sources takes any list of events that each have a refused
    -- source name, or a known source and a minute among `capacity` in a row. A query for an accepted
    -- source name, of a resolution in whole minutes and a range in whole steps of it, then answers, in
    -- order, with one count for each step of the range: the number of the source's events in the
    -- minutes of that step.
    pub query-counts :
        (es : List (Scored F)) (s : String) (range_ns resolution_ns now_ns : ℕ)
        → 0 < capacity
        → AreFit es
        → is_source s ≡ true
        → bucket_ns ≤ resolution_ns
        → resolution_ns % bucket_ns ≡ 0
        → resolution_ns ≤ range_ns
        → range_ns % resolution_ns ≡ 0
        → let step = resolution_ns / bucket_ns in
          let steps = range_ns / resolution_ns in
          (r : AnomalyTimelineRing F) × (out : List (TimelineBucket F)) × (record_all is_source
              (init F capacity max_sources)
              es
            ≡ some r)
          × (query F r range_ns resolution_ns (some s) now_ns ≡ some out)
          × (map (λ (b : TimelineBucket F). b.event_count) out
              ≡ windows s (steps * step) step ((bucket_index now_ns + 1) / step * step) steps es)
    unfolding query init held held_in
    query-counts es s range_ns resolution_ns now_ns some_slot all valid minutes whole spans steps =
        let (r, made, cap, counts) =
          record_all-held (init F capacity max_sources) es
            (record { some_slot = some_slot; room = refl; slots = λ k. tt }) refl all in
        let step = resolution_ns / bucket_ns in
        let n = range_ns / resolution_ns in
        let at = (bucket_index now_ns + 1) / step * step in
        (
          r,
          series F r (some s) (n * step) step at n none,
          made,
          ground arith,
          series-counts r s es (n * step) step at n none (λ i. omega (arith, counts s i valid)),
        )
