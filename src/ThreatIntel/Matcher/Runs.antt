-- ===== src/ThreatIntel/Matcher/Runs.antt =====
-- Rebuilds and checks in any order, against the tables that the rebuilds make.
use seerflow.Base.{
  List, Option, Option-cases, String, [], arith, inl, inr, length, none, refl, some, subst, sym, ℕ,
  ◌+◌, ◌<◌, ◌∷◌, ◌≡◌,
}
use seerflow.ThreatIntel.Bloom.{byte_size}
use seerflow.ThreatIntel.Bloom.Answers.{from_values-answers}
use seerflow.ThreatIntel.Matcher.{
  IndicatorType, Indicator, Table, Feed, Library, MatcherState, IocMatcher, all_keys, build_bloom,
  build_state, add_feeds, refresh, check, init,
}
use seerflow.ThreatIntel.Matcher.Exact.{
  IsExact, table_answer, found_in_table, IsExactState, IsCounted, table_of, check-answer,
}

pub data Call : Type 0 where
  refreshes : List Feed → ℕ → Call
  checks : String → IndicatorType → Call

module _ (lib : Library) where
  unfoldable pub run : IocMatcher → List Call → Option (IocMatcher × List (Option Indicator))
  run m [] = some (m, [])
  run m (refreshes feeds now ∷ calls) = run (refresh lib m feeds now) calls
  run m (checks v t ∷ calls) = elim (check lib m v t) [
    | none ↦ none
    | some (m', answer) ↦ elim (run m' calls) [
      | none ↦ none
      | some (m'', answers) ↦ some (m'', answer ∷ answers)
    ]
  ]

  -- The same with a table in the place of the matcher: a rebuild that fails leaves it as it was.
  unfoldable pub table_after : List IndicatorType → ℕ → Option Table → List Feed → Option Table
  table_after enabled floor table feeds = elim (build_state lib enabled floor feeds) [
    | none ↦ table
    | some s ↦ add_feeds lib enabled floor [] feeds
  ]

  unfoldable pub table_answers :
      List IndicatorType → ℕ → Option Table → List Call → List (Option Indicator)
  table_answers enabled floor table [] = []
  table_answers enabled floor table (refreshes feeds now ∷ calls) =
      table_answers enabled floor (table_after enabled floor table feeds) calls
  table_answers enabled floor table (checks v t ∷ calls) =
      table_answer lib enabled table v t ∷ table_answers enabled floor table calls

  module _ (some_bit : (n : ℕ) → 0 < (lib.sizing n).bit_count) where
    build_bloom-IsExact :
        (by_type : Table) (s : MatcherState)
        → build_bloom lib by_type ≡ some s
        → IsExact lib s × (s.by_type ≡ by_type)
    unfolding build_bloom
    build_bloom-IsExact by_type s built =
        let params = lib.sizing (length (all_keys by_type)) in
        let (f, made, all, answers) =
          from_values-answers lib.hash_pair (all_keys by_type) params
            (some_bit (length (all_keys by_type))) in
        let s' : MatcherState = record {
          bloom = f;
          by_type = by_type;
          bit_array_bytes = byte_size params;
        } in
        let same : s' ≡ s = ground arith in
        subst (λ (x : MatcherState). IsExact lib x × (x.by_type ≡ by_type)) same
          (record { found = found_in_table lib s' all; answers = answers }, refl)

    build_state-IsExact :
        (enabled : List IndicatorType) (floor : ℕ) (feeds : List Feed) (s : MatcherState)
        → build_state lib enabled floor feeds ≡ some s
        → IsExact lib s × (add_feeds lib enabled floor [] feeds ≡ some s.by_type)
    unfolding build_state
    build_state-IsExact enabled floor feeds s built =
        elim (Option-cases (add_feeds lib enabled floor [] feeds)) [
          | inl bad ↦ absurd (ground arith)
          | inr (by_type, read) ↦
              let exact = build_bloom-IsExact by_type s (ground arith) in
              (exact.0, ground (arith, exact.1))
        ]

    record IsRefreshed (m : IocMatcher) (feeds : List Feed) (m' : IocMatcher) : Type 0 where
      pub exact : IsExactState lib m'.state
      pub counted : IsCounted lib m'
      pub table :
          table_of lib m'.state
          ≡ table_after m.enabled_types m.confidence_floor (table_of lib m.state) feeds
      pub same_types : m'.enabled_types ≡ m.enabled_types
      pub same_floor : m'.confidence_floor ≡ m.confidence_floor

    refresh-IsRefreshed :
        (m : IocMatcher) (feeds : List Feed) (now : ℕ)
        → IsExactState lib m.state
        → IsCounted lib m
        → IsRefreshed m feeds (refresh lib m feeds now)
    unfolding refresh table_after
    refresh-IsRefreshed m feeds now exact counted =
        elim (Option-cases (build_state lib m.enabled_types m.confidence_floor feeds)) [
          | inl failed ↦ subst (IsRefreshed m feeds) {x = failed_refresh} (ground arith) (record {
            exact = exact;
            counted = record { hits = counted.hits; checks = counted.checks };
            table = ground arith;
            same_types = refl;
            same_floor = refl;
          })
          | inr (s, built) ↦
              let made = build_state-IsExact m.enabled_types m.confidence_floor feeds s built in
              subst (IsRefreshed m feeds) {x = new_refresh s} (ground arith) (record {
                exact = made.0;
                counted = record { hits = counted.hits; checks = counted.checks };
                table = ground (arith, made.1);
                same_types = refl;
                same_floor = refl;
              })
        ]
      where
        failed_refresh : IocMatcher
        failed_refresh = record m { rebuild_failures_total = m.rebuild_failures_total + 1 }

        new_refresh : MatcherState → IocMatcher
        new_refresh s = record m {
          state = some s;
          rebuild_count = m.rebuild_count + 1;
          last_rebuild_at_ns = some now;
        }

    run_answers :
        (m : IocMatcher) (calls : List Call)
        → IsExactState lib m.state
        → IsCounted lib m
        → (m' : IocMatcher) × (run m calls
            ≡ some
                (m', table_answers m.enabled_types m.confidence_floor (table_of lib m.state) calls))
          × IsCounted lib m'
    unfolding run table_answers
    run_answers m [] exact counted = (m, refl, counted)
    run_answers m (refreshes feeds now ∷ calls) exact counted =
        let done = refresh-IsRefreshed m feeds now exact counted in
        let rest = run_answers (refresh lib m feeds now) calls done.exact done.counted in
        (rest.0, ground (arith, rest.1, done.table, done.same_types, done.same_floor), rest.2)
    run_answers m (checks v t ∷ calls) exact counted =
        let (m1, c) = check-answer lib m m.state v t refl exact in
        let exact' : IsExactState lib m1.state =
          subst (IsExactState lib) (sym c.same_state) exact in
        let rest = run_answers m1 calls exact' (c.counted counted) in
        (rest.0, ground (arith, rest.1, c.answer, c.same_state, c.same_types, c.same_floor), rest.2)

    -- With filters of at least one bit: on a new matcher, however rebuilds and checks alternate, no
    -- exception is raised, every check of an enabled type answers what the table of the last rebuild
    -- that succeeded holds for the type and the value (so the filter hides no indicator and invents
    -- none), a check of another type answers nothing, and the filter's hits are those confirmed and the
    -- false positives, and no more than the checks.
    pub run-table_answers :
        (enabled : List IndicatorType) (floor : ℕ) (calls : List Call)
        → (m : IocMatcher) × (run (init enabled floor) calls
            ≡ some (m, table_answers enabled floor none calls))
          × IsCounted lib m
    unfolding init
    run-table_answers enabled floor calls =
        run_answers (init enabled floor) calls tt (record { hits = refl; checks = omega arith })
