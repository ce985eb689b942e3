-- ===== src/ThreatIntel/Matcher.antt =====
-- src/seerflow/threat_intel/matcher.py, `IoCMatcher`, without its background task. Parameters
-- (`Library`): the canonical form of an IP address and its version, lower case, the text before and
-- after a colon, the pair of hashes, and the size of the filter for a number of indicators. A feed comes
-- with what the model store holds for it. `none` is an exception.
pub mod Runs
pub mod Exact
pub mod Events
mod Tests
use seerflow.Base.{
  Bool, List, Option, String, [], false, if◌then◌else◌, insert, ite, keys, length, lookup, ltb,
  none, not, some, string_discrete, true, ℕ, ◌++◌, ◌+◌, ◌∷◌,
}
use seerflow.Models.Event.{SeerflowEvent}
use seerflow.ThreatIntel.Bloom.{BloomParams, BloomFilter, from_values, has_value, byte_size}

pub data IndicatorType : Type 0 where
  ipv4 ipv6 domain url md5 sha1 sha256 : IndicatorType

unfoldable pub IndicatorType-discrete : Discrete IndicatorType
IndicatorType-discrete = hlevel

pub record Indicator : Type 0 where
  pub value : String
  pub type : IndicatorType
  pub source_feed : String
  pub confidence : ℕ

abbrev pub Table : Type 0
Table = List (IndicatorType × List (String × Indicator))

-- What the store holds for a feed: nothing, bytes that are no snapshot, or the indicators of one.
pub data Snapshot : Type 0 where
  absent : Snapshot
  corrupt : Snapshot
  indicators : List Indicator → Snapshot

pub record Feed : Type 0 where
  pub enabled : Bool
  pub snapshot : Snapshot

pub data IpVersion : Type 0 where
  version4 version6 : IpVersion

pub record Library : Type 0 where
  pub ip_address : String → Option (IpVersion × String)
  pub lower : String → String
  pub partition : String → String × String
  pub hash_pair : String → ℕ × ℕ
  pub sizing : ℕ → BloomParams

pub record MatcherState : Type 0 where
  pub bloom : BloomFilter
  pub by_type : Table
  pub bit_array_bytes : ℕ

pub record IocMatcher : Type 0 where
  pub enabled_types : List IndicatorType
  pub confidence_floor : ℕ
  pub state : Option MatcherState
  pub rebuild_count : ℕ
  pub rebuild_failures_total : ℕ
  pub last_rebuild_at_ns : Option ℕ
  pub checks_total : ℕ
  pub bloom_hits_total : ℕ
  pub confirmed_matches_total : ℕ
  pub false_positives_total : ℕ

unfoldable pub init : List IndicatorType → ℕ → IocMatcher
init enabled_types confidence_floor = record {
  enabled_types = enabled_types;
  confidence_floor = confidence_floor;
  state = none;
  rebuild_count = 0;
  rebuild_failures_total = 0;
  last_rebuild_at_ns = none;
  checks_total = 0;
  bloom_hits_total = 0;
  confirmed_matches_total = 0;
  false_positives_total = 0;
}

-- `type_ in enabled_types`
unfoldable pub is_enabled : IndicatorType → List IndicatorType → Bool
is_enabled t [] = false
is_enabled t (x ∷ xs) = ite (IndicatorType-discrete t x) true (is_enabled t xs)

abbrev pub bucket : IndicatorType → Table → List (String × Indicator)
bucket t by_type = elim (lookup IndicatorType-discrete t by_type) [ none ↦ [] | some d ↦ d ]

-- `state.by_type.get(type_, {}).get(value)`
abbrev pub find : Table → IndicatorType → String → Option Indicator
find by_type t value = lookup string_discrete value (bucket t by_type)

-- 100 MB.
abbrev pub max_bloom_bytes : ℕ
max_bloom_bytes = 104857600

-- The keys of all buckets, `chain.from_iterable(by_type.values())`.
unfoldable pub all_keys : Table → List String
all_keys [] = []
all_keys ((t, d) ∷ rest) = keys d ++ all_keys rest

module _ (lib : Library) where
  -- The key that an indicator is filed under; `none` is an address that is none.
  unfoldable pub key_of : Indicator → Option String
  key_of ind = elim ind.type [
    | ipv4 ↦ elim (lib.ip_address ind.value) [ none ↦ none | some (v, text) ↦ some text ]
    | ipv6 ↦ elim (lib.ip_address ind.value) [ none ↦ none | some (v, text) ↦ some text ]
    | url ↦ some ind.value
    | domain ↦ some (lib.lower ind.value)
    | md5 ↦ some (lib.lower ind.value)
    | sha1 ↦ some (lib.lower ind.value)
    | sha256 ↦ some (lib.lower ind.value)
  ]

  unfoldable pub add_indicator : List IndicatorType → ℕ → Table → Indicator → Table
  add_indicator enabled floor by_type ind =
      if not (is_enabled ind.type enabled)
      then by_type
      else if ltb ind.confidence floor
      then by_type
      else elim (key_of ind) [
        | none ↦ by_type
        | some key ↦
            insert IndicatorType-discrete ind.type
              (insert string_discrete key ind (bucket ind.type by_type)) by_type
      ]

  unfoldable pub add_indicators : List IndicatorType → ℕ → Table → List Indicator → Table
  add_indicators enabled floor by_type [] = by_type
  add_indicators enabled floor by_type (ind ∷ rest) =
      add_indicators enabled floor (add_indicator enabled floor by_type ind) rest

  -- The loop over the feeds.
  unfoldable pub add_feeds : List IndicatorType → ℕ → Table → List Feed → Option Table
  add_feeds enabled floor by_type [] = some by_type
  add_feeds enabled floor by_type (feed ∷ rest) =
      let skip = add_feeds enabled floor by_type rest in
      if not feed.enabled then skip else elim feed.snapshot [
        | absent ↦ skip
        | corrupt ↦ none
        | indicators inds ↦ add_feeds enabled floor (add_indicators enabled floor by_type inds) rest
      ]

  unfoldable pub build_bloom : Table → Option MatcherState
  build_bloom by_type =
      let params = lib.sizing (length (all_keys by_type)) in
      if ltb max_bloom_bytes (byte_size params)
      then none
      else elim (from_values lib.hash_pair (all_keys by_type) params) [
        | none ↦ none
        | some bloom ↦
            some (record { bloom = bloom; by_type = by_type; bit_array_bytes = byte_size params })
      ]

  unfoldable pub build_state : List IndicatorType → ℕ → List Feed → Option MatcherState
  build_state enabled floor feeds = elim (add_feeds enabled floor [] feeds) [
    | none ↦ none
    | some by_type ↦ build_bloom by_type
  ]

  -- `now_ns` is what the clock says at the end. A failure keeps the state as it was.
  unfoldable pub refresh : IocMatcher → List Feed → ℕ → IocMatcher
  refresh m feeds now_ns = elim (build_state m.enabled_types m.confidence_floor feeds) [
    | none ↦ record m { rebuild_failures_total = m.rebuild_failures_total + 1 }
    | some state ↦ record m {
      state = some state;
      rebuild_count = m.rebuild_count + 1;
      last_rebuild_at_ns = some now_ns;
    }
  ]

  -- `check` of an enabled type with a state.
  unfoldable pub check_state :
      IocMatcher → MatcherState → String → IndicatorType → Option (IocMatcher × Option Indicator)
  check_state m state value t =
      let checked = record m { checks_total = m.checks_total + 1 } in
      elim (has_value lib.hash_pair state.bloom value) [
        | none ↦ none
        | some hit ↦
            if not hit
            then some (checked, none)
            else let seen = record checked { bloom_hits_total = m.bloom_hits_total + 1 } in
              elim (find state.by_type t value) [
                | none ↦
                    some (record seen { false_positives_total = m.false_positives_total + 1 }, none)
                | some ind ↦ some (
                  record seen { confirmed_matches_total = m.confirmed_matches_total + 1 },
                  some ind,
                )
              ]
      ]

  unfoldable pub check :
      IocMatcher → String → IndicatorType → Option (IocMatcher × Option Indicator)
  check m value t = if not (is_enabled t m.enabled_types) then some (m, none) else elim m.state [
    | none ↦ some (record m { checks_total = m.checks_total + 1 }, none)
    | some state ↦ check_state m state value t
  ]
