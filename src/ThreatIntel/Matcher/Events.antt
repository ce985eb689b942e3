-- ===== src/ThreatIntel/Matcher/Events.antt =====
-- `check_event` of src/seerflow/threat_intel/matcher.py: the values of an event that are checked, by
-- type, and the matches. The fields of an event that the matcher alone reads stand beside it: `url` is
-- attributes["url"], if that is a text. The clock stands still during one event. The callback on a match
-- is left out: what it raises is caught.
use seerflow.Base.{
  Bool, List, Option, String, [], arith, false, if◌then◌else◌, map, none, refl, some, subst, sym,
  text_eq, true, ℕ, ◌++◌, ◌∙◌, ◌∷◌, ◌≡◌,
}
use seerflow.Models.Event.{SeerflowEvent}
use seerflow.ThreatIntel.Matcher.{
  IndicatorType, Indicator, Table, Library, IocMatcher, IpVersion, version4, version6, check,
}
use seerflow.ThreatIntel.Matcher.Exact.{
  IsExactState, IsCounted, table_answer, table_of, check-answer,
}

pub record ObservedEvent : Type 0 where
  pub event : SeerflowEvent
  pub related_hashes : List String
  pub url : Option String

pub data EntityKind : Type 0 where
  ip domain url hash : EntityKind

pub record IocMatch : Type 0 where
  pub value : String
  pub type : IndicatorType
  pub indicator : Indicator
  pub event_id : String
  pub entity_kind : EntityKind
  pub matched_at_ns : ℕ

abbrev pub Candidates : Type 0
Candidates = List (IndicatorType × List String)

unfoldable pub kind_of : IndicatorType → EntityKind
kind_of IndicatorType.ipv4 = ip
kind_of IndicatorType.ipv6 = ip
kind_of IndicatorType.domain = domain
kind_of IndicatorType.url = url
kind_of IndicatorType.md5 = hash
kind_of IndicatorType.sha1 = hash
kind_of IndicatorType.sha256 = hash

abbrev is_version : IpVersion → IpVersion → Bool
is_version version4 version4 = true
is_version version6 version6 = true
is_version version4 version6 = false
is_version version6 version4 = false

unfoldable pub build_match : String → IndicatorType → Indicator → String → ℕ → IocMatch
build_match value t ind event_id now_ns = record {
  value = value;
  type = t;
  indicator = ind;
  event_id = event_id;
  entity_kind = kind_of t;
  matched_at_ns = now_ns;
}

module _ (lib : Library) where
  -- The canonical addresses of one version; what is no address is left out.
  unfoldable pub addresses : IpVersion → List String → List String
  addresses version [] = []
  addresses version (raw ∷ rest) =
      let others = addresses version rest in
      elim (lib.ip_address raw) [
        | none ↦ others
        | some (v, canonical) ↦ if is_version version v then canonical ∷ others else others
      ]

  -- The digests of one algorithm, of texts "<algorithm>:<digest>".
  unfoldable pub digests : String → List String → List String
  digests algo [] = []
  digests algo (raw ∷ rest) =
      let others = digests algo rest in
      let (name, hex_digest) = lib.partition (lib.lower raw) in
      if text_eq hex_digest ""
      then others
      else if text_eq name algo
      then hex_digest ∷ others
      else others

  abbrev urls : Option String → List String
  urls none = []
  urls (some u) = if text_eq u "" then [] else u ∷ []

  unfoldable pub candidates : ObservedEvent → Candidates
  candidates o =
      (IndicatorType.ipv4, addresses version4 o.event.related_ips)
      ∷ (IndicatorType.ipv6, addresses version6 o.event.related_ips)
      ∷ (IndicatorType.domain, map lib.lower o.event.related_domains)
      ∷ (IndicatorType.url, urls o.url)
      ∷ (IndicatorType.md5, digests "md5" o.related_hashes)
      ∷ (IndicatorType.sha1, digests "sha1" o.related_hashes)
      ∷ (IndicatorType.sha256, digests "sha256" o.related_hashes)
      ∷ []

  -- The loop over the values of one type.
  unfoldable pub check_values :
      IocMatcher → IndicatorType → List String → String → ℕ → Option (IocMatcher × List IocMatch)
  check_values m t [] event_id now_ns = some (m, [])
  check_values m t (v ∷ vs) event_id now_ns = elim (check lib m v t) [
    | none ↦ none
    | some (m', found) ↦ elim (check_values m' t vs event_id now_ns) [
      | none ↦ none
      | some (m'', matches) ↦ some (
        m'',
        elim found [ none ↦ matches | some ind ↦ build_match v t ind event_id now_ns ∷ matches ],
      )
    ]
  ]

  unfoldable pub check_candidates :
      IocMatcher → Candidates → String → ℕ → Option (IocMatcher × List IocMatch)
  check_candidates m [] event_id now_ns = some (m, [])
  check_candidates m ((t, vs) ∷ rest) event_id now_ns = elim (check_values m t vs event_id now_ns) [
    | none ↦ none
    | some (m', matches) ↦ elim (check_candidates m' rest event_id now_ns) [
      | none ↦ none
      | some (m'', others) ↦ some (m'', matches ++ others)
    ]
  ]

  unfoldable pub check_event : IocMatcher → ObservedEvent → ℕ → Option (IocMatcher × List IocMatch)
  check_event m o now_ns = check_candidates m (candidates o) o.event.event_id now_ns

  -- The matches of a table.
  unfoldable pub table_matches :
      List IndicatorType → Option Table → IndicatorType → List String → String → ℕ → List IocMatch
  table_matches enabled table t [] event_id now_ns = []
  table_matches enabled table t (v ∷ vs) event_id now_ns =
      let rest = table_matches enabled table t vs event_id now_ns in
      elim (table_answer lib enabled table v t) [
        | none ↦ rest
        | some ind ↦ build_match v t ind event_id now_ns ∷ rest
      ]

  unfoldable pub all_matches :
      List IndicatorType → Option Table → Candidates → String → ℕ → List IocMatch
  all_matches enabled table [] event_id now_ns = []
  all_matches enabled table ((t, vs) ∷ rest) event_id now_ns =
      table_matches enabled table t vs event_id now_ns
      ++ all_matches enabled table rest event_id now_ns

  -- What a loop over checks leaves as it was.
  record Keeps (m m' : IocMatcher) : Type 0 where
    pub same_state : m'.state ≡ m.state
    pub same_types : m'.enabled_types ≡ m.enabled_types
    pub counted : IsCounted lib m → IsCounted lib m'

  check_values-matches :
      (m : IocMatcher) (t : IndicatorType) (vs : List String) (event_id : String) (now_ns : ℕ)
      → IsExactState lib m.state
      → (m' : IocMatcher) × (check_values m t vs event_id now_ns
          ≡ some (m', table_matches m.enabled_types (table_of lib m.state) t vs event_id now_ns))
        × Keeps m m'
  unfolding check_values table_matches
  check_values-matches m t [] event_id now_ns exact =
      (m, refl, record { same_state = refl; same_types = refl; counted = λ c. c })
  check_values-matches m t (v ∷ vs) event_id now_ns exact =
      let (m1, c) = check-answer lib m m.state v t refl exact in
      let exact' = subst (IsExactState lib) (sym c.same_state) exact in
      let (m2, rest, keeps) = check_values-matches m1 t vs event_id now_ns exact' in
      (
        m2,
        ground (arith, rest, c.answer, c.same_state, c.same_types),
        record {
          same_state = keeps.same_state ∙ c.same_state;
          same_types = keeps.same_types ∙ c.same_types;
          counted = λ k. keeps.counted (c.counted k);
        },
      )

  check_candidates-matches :
      (m : IocMatcher) (cs : Candidates) (event_id : String) (now_ns : ℕ)
      → IsExactState lib m.state
      → (m' : IocMatcher) × (check_candidates m cs event_id now_ns
          ≡ some (m', all_matches m.enabled_types (table_of lib m.state) cs event_id now_ns))
        × Keeps m m'
  unfolding check_candidates all_matches
  check_candidates-matches m [] event_id now_ns exact =
      (m, refl, record { same_state = refl; same_types = refl; counted = λ c. c })
  check_candidates-matches m ((t, vs) ∷ cs) event_id now_ns exact =
      let (m1, here, k) = check_values-matches m t vs event_id now_ns exact in
      let exact' = subst (IsExactState lib) (sym k.same_state) exact in
      let (m2, rest, keeps) = check_candidates-matches m1 cs event_id now_ns exact' in
      (
        m2,
        ground (arith, here, rest, k.same_state, k.same_types),
        record {
          same_state = keeps.same_state ∙ k.same_state;
          same_types = keeps.same_types ∙ k.same_types;
          counted = λ c. keeps.counted (k.counted c);
        },
      )

  -- With a filter that is exact for its table, or none yet: an event is checked without an exception,
  -- its matches are, by type and in order, those of its candidate values that the table holds, and the
  -- table stays.
  check_event-all_matches :
      (m : IocMatcher) (o : ObservedEvent) (now_ns : ℕ)
      → IsExactState lib m.state
      → (m' : IocMatcher) × (check_event m o now_ns
          ≡ some (
            m',
            all_matches m.enabled_types
                (table_of lib m.state)
                (candidates o)
                o.event.event_id
                now_ns,
          ))
        × (m'.state ≡ m.state)
  unfolding check_event
  check_event-all_matches m o now_ns exact =
      let (m', found, k) =
        check_candidates-matches m (candidates o) o.event.event_id now_ns exact in
      (m', found, k.same_state)
