-- ===== src/ThreatIntel/Matcher/Exact.antt =====
-- The matcher, which asks its Bloom filter first, against lookups in the table alone.
use seerflow.Base.{
  All, Bool-cases, List, Option, Option-cases, String, [], arith, false, if◌then◌else◌, inl, inr,
  keys, lookup, none, not, refl, some, string_discrete, subst, sym, true, ◌++◌, ◌+◌, ◌∷◌, ◌≡◌, ◌≢◌,
  ◌≤◌,
}
use seerflow.ThreatIntel.Bloom.{has_value}
use seerflow.ThreatIntel.Matcher.{
  IndicatorType, IndicatorType-discrete, Indicator, Table, Library, MatcherState, find, all_keys,
  is_enabled, IocMatcher, check, check_state,
}

All-append_left {κ} :
    {A : Type 0} (P : A → Type κ) (xs ys : List A) → All P (xs ++ ys) → All P xs × All P ys
All-append_left P [] ys h = (tt, h)
All-append_left P (x ∷ xs) ys h = let rest = All-append_left P xs ys h.1 in ((h.0, rest.0), rest.1)

All-keys :
    {V : Type 0} (P : String → Type 0) (v : String) (d : List (String × V)) {x : V}
    → All P (keys d)
    → lookup string_discrete v d ≡ some x
    → P v
unfolding lookup
All-keys P v [] h e = absurd (cc)
All-keys P v ((k, w) ∷ d) {x} h e = elim (string_discrete v k) [
  | yes p ↦ subst P (sym p) h.0
  | no p ↦ All-keys P v d {x = x} h.1 (ground arith)
]

All-all_keys :
    (P : String → Type 0) (t : IndicatorType) (v : String) (by_type : Table)
    → {d : List (String × Indicator)} {ind : Indicator} → All P (all_keys by_type)
    → lookup IndicatorType-discrete t by_type ≡ some d
    → lookup string_discrete v d ≡ some ind
    → P v
unfolding lookup all_keys
All-all_keys P t v [] h found e = absurd (cc)
All-all_keys P t v ((u, d') ∷ rest) {d} {ind} h found e =
    let parts = All-append_left P (keys d') (all_keys rest) h in
    elim (IndicatorType-discrete t u) [
      | yes p ↦ All-keys P v d' {x = ind} parts.0 (ground arith)
      | no p ↦ All-all_keys P t v rest {d = d} {ind = ind} parts.1 (ground arith) e
    ]

module _ (lib : Library) where
  -- The filter answers for every value, and says yes to those of the table.
  pub record IsExact (s : MatcherState) : Type 0 where
    pub found :
        (t : IndicatorType) (v : String) (ind : Indicator)
        → find s.by_type t v ≡ some ind
        → has_value lib.hash_pair s.bloom v ≡ some true
    pub answers : (v : String) → has_value lib.hash_pair s.bloom v ≢ none

  pub found_in_table :
      (s : MatcherState)
      → All (λ v. has_value lib.hash_pair s.bloom v ≡ some true) (all_keys s.by_type)
      → (t : IndicatorType) (v : String) (ind : Indicator) → find s.by_type t v ≡ some ind
      → has_value lib.hash_pair s.bloom v ≡ some true
  unfolding lookup
  found_in_table s all t v ind e = elim (Option-cases (lookup IndicatorType-discrete t s.by_type)) [
    | inl bad ↦ absurd (ground arith)
    | inr (d, there) ↦
        All-all_keys (λ v. has_value lib.hash_pair s.bloom v ≡ some true) t v s.by_type {d = d}
          {ind = ind} all there (ground arith)
  ]

  abbrev pub IsExactState : Option MatcherState → Type 0
  IsExactState none = Unit
  IsExactState (some s) = IsExact s

  -- What a table alone answers; `none` is before the first build.
  unfoldable pub table_answer :
      List IndicatorType → Option Table → String → IndicatorType → Option Indicator
  table_answer enabled table v t =
      if not (is_enabled t enabled)
      then none
      else elim table [ none ↦ none | some by_type ↦ find by_type t v ]

  abbrev pub table_of : Option MatcherState → Option Table
  table_of none = none
  table_of (some s) = some s.by_type

  -- The counters add up.
  pub record IsCounted (m : IocMatcher) : Type 0 where
    pub hits : m.bloom_hits_total ≡ m.confirmed_matches_total + m.false_positives_total
    pub checks : m.bloom_hits_total ≤ m.checks_total

  -- A check: the answer is the table's, and nothing but counters changes.
  pub record IsChecked (m : IocMatcher) (v : String) (t : IndicatorType) (m' : IocMatcher)
      : Type 0 where
    pub answer : check lib m v t ≡ some (m', table_answer m.enabled_types (table_of m.state) v t)
    pub same_state : m'.state ≡ m.state
    pub same_types : m'.enabled_types ≡ m.enabled_types
    pub same_floor : m'.confidence_floor ≡ m.confidence_floor
    pub counted : IsCounted m → IsCounted m'

  abbrev missed : IocMatcher → IocMatcher
  missed m = record m { checks_total = m.checks_total + 1 }

  abbrev falsely_hit : IocMatcher → IocMatcher
  falsely_hit m = record m {
    checks_total = m.checks_total + 1;
    bloom_hits_total = m.bloom_hits_total + 1;
    false_positives_total = m.false_positives_total + 1;
  }

  abbrev confirmed : IocMatcher → IocMatcher
  confirmed m = record m {
    checks_total = m.checks_total + 1;
    bloom_hits_total = m.bloom_hits_total + 1;
    confirmed_matches_total = m.confirmed_matches_total + 1;
  }

  counted_missed : (m : IocMatcher) → IsCounted m → IsCounted (missed m)
  counted_missed m c = record { hits = c.hits; checks = omega (arith, c.checks) }

  counted_falsely_hit : (m : IocMatcher) → IsCounted m → IsCounted (falsely_hit m)
  counted_falsely_hit m c = record {
    hits = omega (arith, c.hits);
    checks = omega (arith, c.checks);
  }

  counted_confirmed : (m : IocMatcher) → IsCounted m → IsCounted (confirmed m)
  counted_confirmed m c = record { hits = omega (arith, c.hits); checks = omega (arith, c.checks) }

  check_state-answer :
      (m : IocMatcher) (s : MatcherState) (v : String) (t : IndicatorType)
      → m.state ≡ some s
      → IsExact s
      → is_enabled t m.enabled_types ≡ true
      → (m' : IocMatcher) × IsChecked m v t m'
  unfolding check check_state table_answer
  check_state-answer m s v t has exact on =
      elim (Option-cases (has_value lib.hash_pair s.bloom v)) [
        | inl bad ↦ absurd (exact.answers v bad)
        | inr (false, asked) ↦ elim (Option-cases (find s.by_type t v)) [
          | inl missing ↦ (
            missed m,
            record {
              answer = ground arith;
              same_state = refl;
              same_types = refl;
              same_floor = refl;
              counted = counted_missed m;
            },
          )
          | inr (ind, there) ↦ absurd (ground (arith, exact.found t v ind there))
        ]
        | inr (true, asked) ↦ elim (Option-cases (find s.by_type t v)) [
          | inl missing ↦ (
            falsely_hit m,
            record {
              answer = ground arith;
              same_state = refl;
              same_types = refl;
              same_floor = refl;
              counted = counted_falsely_hit m;
            },
          )
          | inr (ind, there) ↦ (
            confirmed m,
            record {
              answer = ground arith;
              same_state = refl;
              same_types = refl;
              same_floor = refl;
              counted = counted_confirmed m;
            },
          )
        ]
      ]

  pub check-answer :
      (m : IocMatcher) (state : Option MatcherState) (v : String) (t : IndicatorType)
      → m.state ≡ state
      → IsExactState state
      → (m' : IocMatcher) × IsChecked m v t m'
  unfolding check table_answer
  check-answer m state v t has exact = elim (Bool-cases (is_enabled t m.enabled_types)) [
    | inr off ↦ (
      m,
      record {
        answer = ground arith;
        same_state = refl;
        same_types = refl;
        same_floor = refl;
        counted = λ c. c;
      },
    )
    | inl on ↦ with_state state has exact on
  ]
    where
      with_state :
          (state : Option MatcherState)
          → m.state ≡ state
          → IsExactState state
          → is_enabled t m.enabled_types ≡ true
          → (m' : IocMatcher) × IsChecked m v t m'
      with_state none has exact on = (
        missed m,
        record {
          answer = ground arith;
          same_state = refl;
          same_types = refl;
          same_floor = refl;
          counted = counted_missed m;
        },
      )
      with_state (some s) has exact on = check_state-answer m s v t has exact on
