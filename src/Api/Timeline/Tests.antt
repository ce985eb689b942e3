-- ===== src/Api/Timeline/Tests.antt =====
-- Runs of the timeline on concrete scores, and the witness of its property.
use seerflow.Base.{
  Bool, List, Option, String, [], arith, contains, erase, insert, lookup, map, none, not, pos, refl,
  some, string_discrete, ℕ, ℤ, ◌*◌, ◌+◌, ◌∷◌, ◌≡◌,
}
use seerflow.Detection.Samples.{thousandths}
use seerflow.Api.Timeline.{
  record_score, gather_entry, bucket_ns, bucket_index, init, query, AnomalyTimelineRing,
  TimelineBucket,
}
use seerflow.Api.Timeline.Minutes.{Scored}
use seerflow.Api.Timeline.Series.{record_all, recorded, windows, query-counts, is_fit}

abbrev is_name : String → Bool
is_name source = not (contains source ("bad name" ∷ []))

abbrev scored : ℕ → ℕ → String → Scored thousandths
scored minute score source = record {
  timestamp_ns = minute * bucket_ns + 5;
  score = score;
  upper_threshold = some (score + 100);
  source = source;
}

abbrev some_events : List (Scored thousandths)
some_events =
    scored 10 300 "syslog"
    ∷ scored 11 500 "otlp"
    ∷ scored 10 700 "syslog"
    ∷ scored 12 100 "bad name"
    ∷ scored 13 400 "syslog"
    ∷ []

abbrev summary_of :
    Option (List (TimelineBucket thousandths)) → List (ℤ × Option ℕ × Option ℕ × ℕ × Option ℕ)
summary_of none = []
summary_of (some out) =
    map
      (λ (b : TimelineBucket thousandths).
        (b.bucket_start_ns, b.max_score, b.avg_score, b.event_count, b.upper_threshold))
      out

-- Four minutes up to the one of the query, the threshold carried over the minutes without events.
fills_gaps :
    elim (record_all thousandths is_name (init thousandths 60 5) some_events) [
      | none ↦ []
      | some r ↦
          summary_of
            (query thousandths r (4 * bucket_ns) bucket_ns (some "syslog") (13 * bucket_ns + 7))
    ]
    ≡ (pos (10 * bucket_ns), some 700, some 500, 2, some 800)
      ∷ (pos (11 * bucket_ns), none, none, 0, some 800)
      ∷ (pos (12 * bucket_ns), none, none, 0, some 800)
      ∷ (pos (13 * bucket_ns), some 400, some 400, 1, some 500)
      ∷ []
unfolding record_all query record_score contains string_discrete init lookup insert erase
    gather_entry
fills_gaps = refl

query-counts_example :
    (r : AnomalyTimelineRing thousandths) × (out : List (TimelineBucket thousandths)) × (record_all
        thousandths is_name
        (init thousandths 60 5)
        some_events
      ≡ some r)
    × (query thousandths r (4 * bucket_ns) (2 * bucket_ns) (some "syslog") (13 * bucket_ns + 7)
        ≡ some out)
    × (map (λ (b : TimelineBucket thousandths). b.event_count) out ≡ 2 ∷ 1 ∷ [])
unfolding windows recorded is_fit bucket_index contains string_discrete
query-counts_example =
    query-counts thousandths is_name ("syslog" ∷ "otlp" ∷ []) 5 (omega arith) 10 60 some_events
      "syslog" (4 * bucket_ns) (2 * bucket_ns) (13 * bucket_ns + 7) (omega arith)
      (refl, (refl, (refl, (refl, (refl, tt))))) refl (omega arith) refl (omega arith) refl
