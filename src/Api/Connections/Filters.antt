-- ===== src/Api/Connections/Filters.antt =====
-- Filters that clients send.
use seerflow.Base.{
  All, Bool, Bool-cases, List, Option-cases, String, [], ap, arith, contains, false, inl, inr,
  length, length-take, lookup, ltb, negsuc, none, pos, refl, some, string_discrete, subst, suc,
  take, true, ℕ, ℤ, ◌&&◌, ◌-◌, ◌∷◌, ◌≡◌, ◌≤◌,
}
use seerflow.Api.Connections.{
  Item, text, number, boolean, null, nested, Field, missing, items, scalar, FilterError,
  ClientFilter, all_texts, all_numbers, parse_texts, parse_numbers, split_types, max_sources,
  max_template_ids, max_alert_types, valid_alert_types, parse_alert_types, parse_min_severity,
  parse_filter, clamp_severity, FilterMessage,
}
use seerflow.Api.Connections.Manager.{ClientState, ConnectionManager, set_filter}

-- A list or an object stands among the items.
unfoldable pub has_nested : List Item → Bool
has_nested [] = false
has_nested (nested ∷ rest) = true
has_nested (text s ∷ rest) = has_nested rest
has_nested (number n ∷ rest) = has_nested rest
has_nested (boolean b ∷ rest) = has_nested rest
has_nested (null ∷ rest) = has_nested rest

split_types-has_nested : (xs : List Item) → has_nested xs ≡ true → split_types xs ≡ none
unfolding has_nested split_types
split_types-has_nested [] h = absurd (cc)
split_types-has_nested (nested ∷ rest) h = refl
split_types-has_nested (text s ∷ rest) h = rw (split_types-has_nested rest h)
split_types-has_nested (number n ∷ rest) h = rw (split_types-has_nested rest h)
split_types-has_nested (boolean b ∷ rest) h = rw (split_types-has_nested rest h)
split_types-has_nested (null ∷ rest) h = rw (split_types-has_nested rest h)

-- What a list of types is split into.
record IsSplit (xs : List Item) (found : List String × List Item) : Type 0 where
  pub flat : has_nested xs ≡ false
  pub known : All (λ s. contains s valid_alert_types ≡ true) found.0
  pub fewer : length found.0 ≤ length xs

split_types-IsSplit :
    (xs : List Item) {found : List String × List Item}
    → split_types xs ≡ some found
    → IsSplit xs found
unfolding has_nested split_types
split_types-IsSplit [] {found} h =
    let same : ([], []) ≡ found = ground arith in
    subst (IsSplit []) same (record { flat = refl; known = tt; fewer = omega arith })
split_types-IsSplit (nested ∷ rest) h = absurd (cc)
split_types-IsSplit (text s ∷ rest) {found} h = elim (Option-cases (split_types rest)) [
  | inl bad ↦ absurd (ground arith)
  | inr ((k, u), e) ↦
      let rest' = split_types-IsSplit rest {found = (k, u)} e in
      elim (Bool-cases (contains s valid_alert_types)) [
        | inl on ↦
            let same : (s ∷ k, u) ≡ found = ground arith in
            subst (IsSplit (text s ∷ rest)) same (record {
              flat = rest'.flat;
              known = (on, rest'.known);
              fewer = omega (arith, rest'.fewer);
            })
        | inr off ↦
            let same : (k, text s ∷ u) ≡ found = ground arith in
            subst (IsSplit (text s ∷ rest)) same (record {
              flat = rest'.flat;
              known = rest'.known;
              fewer = omega (arith, rest'.fewer);
            })
      ]
]
split_types-IsSplit (number n ∷ rest) {found} h = elim (Option-cases (split_types rest)) [
  | inl bad ↦ absurd (ground arith)
  | inr ((k, u), e) ↦
      let rest' = split_types-IsSplit rest {found = (k, u)} e in
      let same : (k, number n ∷ u) ≡ found = ground arith in
      subst (IsSplit (number n ∷ rest)) same
        (record { flat = rest'.flat; known = rest'.known; fewer = omega (arith, rest'.fewer) })
]
split_types-IsSplit (boolean b ∷ rest) {found} h = elim (Option-cases (split_types rest)) [
  | inl bad ↦ absurd (ground arith)
  | inr ((k, u), e) ↦
      let rest' = split_types-IsSplit rest {found = (k, u)} e in
      let same : (k, boolean b ∷ u) ≡ found = ground arith in
      subst (IsSplit (boolean b ∷ rest)) same
        (record { flat = rest'.flat; known = rest'.known; fewer = omega (arith, rest'.fewer) })
]
split_types-IsSplit (null ∷ rest) {found} h = elim (Option-cases (split_types rest)) [
  | inl bad ↦ absurd (ground arith)
  | inr ((k, u), e) ↦
      let rest' = split_types-IsSplit rest {found = (k, u)} e in
      let same : (k, null ∷ u) ≡ found = ground arith in
      subst (IsSplit (null ∷ rest)) same
        (record { flat = rest'.flat; known = rest'.known; fewer = omega (arith, rest'.fewer) })
]

length-all_texts :
    (xs : List Item) {ss : List String} → all_texts xs ≡ some ss → length ss ≡ length xs
unfolding all_texts
length-all_texts [] {ss} h = let empty : ss ≡ [] = ground arith in rw empty
length-all_texts (text s ∷ rest) {ss} h = elim (Option-cases (all_texts rest)) [
  | inl bad ↦ absurd (ground arith)
  | inr (more, e) ↦
      let same : ss ≡ s ∷ more = ground arith in
      rw same (ap suc (length-all_texts rest {ss = more} e))
]
length-all_texts (number n ∷ rest) h = absurd (cc)
length-all_texts (boolean b ∷ rest) h = absurd (cc)
length-all_texts (null ∷ rest) h = absurd (cc)
length-all_texts (nested ∷ rest) h = absurd (cc)

length-all_numbers :
    (xs : List Item) {ns : List ℤ} → all_numbers xs ≡ some ns → length ns ≡ length xs
unfolding all_numbers
length-all_numbers [] {ns} h = let empty : ns ≡ [] = ground arith in rw empty
length-all_numbers (text s ∷ rest) h = absurd (cc)
length-all_numbers (number n ∷ rest) {ns} h = elim (Option-cases (all_numbers rest)) [
  | inl bad ↦ absurd (ground arith)
  | inr (more, e) ↦
      let same : ns ≡ n ∷ more = ground arith in
      rw same (ap suc (length-all_numbers rest {ns = more} e))
]
length-all_numbers (boolean b ∷ rest) h = absurd (cc)
length-all_numbers (null ∷ rest) h = absurd (cc)
length-all_numbers (nested ∷ rest) h = absurd (cc)

-- The bounds of a filter that is accepted.
pub record IsBounded (f : ClientFilter) : Type 0 where
  pub sources : length f.sources ≤ max_sources
  pub templates : length f.template_ids ≤ max_template_ids
  pub types : length f.alert_types ≤ max_alert_types
  pub known : All (λ s. contains s valid_alert_types ≡ true) f.alert_types
  pub severity : f.min_severity ≤ 6

parse_texts-le :
    (field : Field) (key : String) (bound : ℕ) (errors : List FilterError)
    → length (parse_texts field key bound errors).0 ≤ bound
unfolding parse_texts
parse_texts-le missing key bound errors = omega arith
parse_texts-le (scalar x) key bound errors = omega arith
parse_texts-le (items raw) key bound errors = elim (Option-cases (all_texts (take bound raw))) [
  | inl bad ↦ ground arith
  | inr (ss, e) ↦ ground (arith, length-all_texts (take bound raw) e, length-take bound raw)
]

parse_numbers-le :
    (field : Field) (key : String) (bound : ℕ) (errors : List FilterError)
    → length (parse_numbers field key bound errors).0 ≤ bound
unfolding parse_numbers
parse_numbers-le missing key bound errors = omega arith
parse_numbers-le (scalar x) key bound errors = omega arith
parse_numbers-le (items raw) key bound errors = elim (Option-cases (all_numbers (take bound raw))) [
  | inl bad ↦ ground arith
  | inr (ns, e) ↦ ground (arith, length-all_numbers (take bound raw) e, length-take bound raw)
]

record AreTypes (found : List String) : Type 0 where
  pub few : length found ≤ max_alert_types
  pub valid : All (λ s. contains s valid_alert_types ≡ true) found

parse_alert_types-AreTypes :
    (field : Field) (errors errors' : List FilterError) (found : List String)
    → parse_alert_types field errors ≡ some (found, errors')
    → AreTypes found
unfolding parse_alert_types
parse_alert_types-AreTypes missing errors errors' found h =
    let same : [] ≡ found = ground arith in
    subst AreTypes same (record { few = omega arith; valid = tt })
parse_alert_types-AreTypes (scalar x) errors errors' found h =
    let same : [] ≡ found = ground arith in
    subst AreTypes same (record { few = omega arith; valid = tt })
parse_alert_types-AreTypes (items raw) errors errors' found h =
    let first = take max_alert_types raw in
    elim (Option-cases (split_types first)) [
      | inl bad ↦ absurd (ground arith)
      | inr ((k, u), e) ↦
          let parts = split_types-IsSplit first {found = (k, u)} e in
          let same : k ≡ found = ground arith in
          subst AreTypes same (record {
            few = omega (arith, parts.fewer, length-take max_alert_types raw);
            valid = parts.known;
          })
    ]

parse_min_severity-le :
    (field : Field) (errors : List FilterError) → (parse_min_severity field errors).0 ≤ 6
unfolding parse_min_severity clamp_severity
parse_min_severity-le missing errors = omega arith
parse_min_severity-le (items raw) errors = omega arith
parse_min_severity-le (scalar (number (pos n))) errors = omega arith
parse_min_severity-le (scalar (number (negsuc n))) errors = omega arith
parse_min_severity-le (scalar (text s)) errors = omega arith
parse_min_severity-le (scalar (boolean b)) errors = omega arith
parse_min_severity-le (scalar null) errors = omega arith
parse_min_severity-le (scalar nested) errors = omega arith

-- A filter that a message is parsed to, with errors or none, is within the bounds: 50 sources, 100
-- templates, 10 alert types, each of them one of the program's, and a severity of 6 at most.
pub parse_filter-IsBounded :
    (msg : FilterMessage) (f : ClientFilter) (errors : List FilterError)
    → parse_filter msg ≡ some (f, errors)
    → IsBounded f
unfolding parse_filter
parse_filter-IsBounded msg f errors h =
    let sources = parse_texts msg.sources "sources" max_sources [] in
    let ids = parse_numbers msg.template_ids "template_ids" max_template_ids sources.1 in
    elim (Option-cases (parse_alert_types msg.alert_types ids.1)) [
      | inl bad ↦ absurd (ground arith)
      | inr ((types, errors'), e) ↦
          let severity = parse_min_severity msg.min_severity errors' in
          let made : ClientFilter = record {
            sources = sources.0;
            min_severity = severity.0;
            alert_types = types;
            template_ids = ids.0;
          } in
          let same : made ≡ f = ground arith in
          let are = parse_alert_types-AreTypes msg.alert_types ids.1 errors' types e in
          subst IsBounded same (record {
            sources = parse_texts-le msg.sources "sources" max_sources [];
            templates = parse_numbers-le msg.template_ids "template_ids" max_template_ids sources.1;
            types = are.few;
            known = are.valid;
            severity = parse_min_severity-le msg.min_severity errors';
          })
    ]

module _ {Extra Ring : Type 0} where
  -- For a client that is there and not throttled, a message raises a TypeError if a list or an object
  -- stands among the first ten of its alert types.
  pub set_filter-nested :
      (m : ConnectionManager Extra Ring) (id : String) (msg : FilterMessage) (now : ℕ)
      → (raw : List Item) {c : ClientState Extra} → lookup string_discrete id m.clients ≡ some c
      → (ltb 0 c.last_filter_ns && ltb (now - c.last_filter_ns) m.filter_min_interval_ns) ≡ false
      → msg.alert_types ≡ items raw
      → has_nested (take max_alert_types raw) ≡ true
      → set_filter m id msg now ≡ none
  unfolding set_filter parse_filter parse_alert_types
  set_filter-nested m id msg now raw there due listed bad =
      ground (arith, split_types-has_nested (take max_alert_types raw) bad)
