-- ===== src/Api/Connections.antt =====
-- src/seerflow/api/ws.py, `ClientFilter`, `ClientState` and `ConnectionManager`, without the sockets and
-- the tasks that send. What a detection adds to an event is a parameter, and so is the ring of scores
-- that `broadcast_event` feeds. A frozenset is the list of its members. A call is one step, but for
-- `connect`, which awaits the handshake between its test and its write: `admit` and `register`.
pub mod Manager
pub mod Queued
pub mod Filters
pub mod Small
pub mod Bounded
pub mod Handshakes
mod Tests
use seerflow.Base.{
  Bool, List, Option, String, [], contains, false, if◌then◌else◌, is_empty, ite, leb, ltb, min,
  negsuc, none, not, pos, some, take, true, values, ℕ, ℤ, ℤ_discrete, ◌&&◌, ◌++◌, ◌∷◌,
}
use seerflow.Models.Event.{SeerflowEvent, severity_value}
use seerflow.Models.Alert.{Alert, AlertType}
use seerflow.Alerting.Router.{alert_type_name}

-- A value of a client's message; `nested` is a list or an object within a list,
-- and `null` also stands for a number that is no integer.
pub data Item : Type 0 where
  text : String → Item
  number : ℤ → Item
  boolean : Bool → Item
  null : Item
  nested : Item

pub data Field : Type 0 where
  missing : Field
  items : List Item → Field
  scalar : Item → Field

pub record FilterMessage : Type 0 where
  pub sources : Field
  pub template_ids : Field
  pub alert_types : Field
  pub min_severity : Field

pub data FilterError : Type 0 where
  throttled : FilterError
  not_a_list : String → FilterError
  items_not_strings : String → FilterError
  items_not_integers : String → FilterError
  unknown_alert_types : List Item → FilterError
  severity_not_integer : FilterError

pub record ClientFilter : Type 0 where
  pub sources : List String
  pub min_severity : ℕ
  pub alert_types : List String
  pub template_ids : List ℤ

abbrev pub empty_filter : ClientFilter
empty_filter = record { sources = []; min_severity = 0; alert_types = []; template_ids = [] }

unfoldable pub has_template : ℤ → List ℤ → Bool
has_template t [] = false
has_template t (x ∷ xs) = ite (ℤ_discrete t x) true (has_template t xs)

unfoldable pub matches_event : ClientFilter → SeerflowEvent → Bool
matches_event f event =
    if not (is_empty f.sources) && not (contains event.source_type f.sources)
    then false
    else if ltb (severity_value event.severity_id) f.min_severity
    then false
    else not (not (is_empty f.template_ids) && not (has_template event.template_id f.template_ids))

unfoldable pub matches_alert : ClientFilter → Alert → Bool
matches_alert f alert =
    if not (is_empty f.alert_types)
      && not (contains (alert_type_name alert.alert_type) f.alert_types)
    then false
    else leb f.min_severity (severity_value alert.severity_id)

abbrev pub max_sources : ℕ
max_sources = 50

abbrev pub max_template_ids : ℕ
max_template_ids = 100

abbrev pub max_alert_types : ℕ
max_alert_types = 10

abbrev pub valid_alert_types : List String
valid_alert_types = "ml" ∷ "sigma" ∷ "correlation" ∷ "ueba" ∷ "ioc" ∷ []

-- The texts of the items, or `none` if one is no text.
unfoldable pub all_texts : List Item → Option (List String)
all_texts [] = some []
all_texts (text s ∷ rest) = elim (all_texts rest) [ none ↦ none | some ss ↦ some (s ∷ ss) ]
all_texts (number n ∷ rest) = none
all_texts (boolean b ∷ rest) = none
all_texts (null ∷ rest) = none
all_texts (nested ∷ rest) = none

unfoldable pub all_numbers : List Item → Option (List ℤ)
all_numbers [] = some []
all_numbers (number n ∷ rest) = elim (all_numbers rest) [ none ↦ none | some ns ↦ some (n ∷ ns) ]
all_numbers (text s ∷ rest) = none
all_numbers (boolean b ∷ rest) = none
all_numbers (null ∷ rest) = none
all_numbers (nested ∷ rest) = none

-- `_parse_list_field` of texts: the values, and the errors appended to `errors`.
unfoldable pub parse_texts : Field → String → ℕ → List FilterError → List String × List FilterError
parse_texts missing key bound errors = ([], errors)
parse_texts (scalar x) key bound errors = ([], errors ++ not_a_list key ∷ [])
parse_texts (items raw) key bound errors = elim (all_texts (take bound raw)) [
  | none ↦ ([], errors ++ items_not_strings key ∷ [])
  | some values ↦ (values, errors)
]

unfoldable pub parse_numbers : Field → String → ℕ → List FilterError → List ℤ × List FilterError
parse_numbers missing key bound errors = ([], errors)
parse_numbers (scalar x) key bound errors = ([], errors ++ not_a_list key ∷ [])
parse_numbers (items raw) key bound errors = elim (all_numbers (take bound raw)) [
  | none ↦ ([], errors ++ items_not_integers key ∷ [])
  | some values ↦ (values, errors)
]

-- `[at for at in trimmed if at in valid]` and those not in it; `none` is the TypeError of a value that
-- cannot be hashed.
unfoldable pub split_types : List Item → Option (List String × List Item)
split_types [] = some ([], [])
split_types (nested ∷ rest) = none
split_types (text s ∷ rest) = elim (split_types rest) [
  | none ↦ none
  | some (known, unknown) ↦
      if contains s valid_alert_types
      then some (s ∷ known, unknown)
      else some (known, text s ∷ unknown)
]
split_types (number n ∷ rest) = elim (split_types rest) [
  | none ↦ none
  | some (known, unknown) ↦ some (known, number n ∷ unknown)
]
split_types (boolean b ∷ rest) = elim (split_types rest) [
  | none ↦ none
  | some (known, unknown) ↦ some (known, boolean b ∷ unknown)
]
split_types (null ∷ rest) = elim (split_types rest) [
  | none ↦ none
  | some (known, unknown) ↦ some (known, null ∷ unknown)
]

unfoldable pub parse_alert_types :
    Field → List FilterError → Option (List String × List FilterError)
parse_alert_types missing errors = some ([], errors)
parse_alert_types (scalar x) errors = some ([], errors ++ not_a_list "alert_types" ∷ [])
parse_alert_types (items raw) errors = elim (split_types (take max_alert_types raw)) [
  | none ↦ none
  | some (known, unknown) ↦
      if is_empty unknown
      then some (known, errors)
      else some (known, errors ++ unknown_alert_types unknown ∷ [])
]

-- `max(0, min(6, raw))`
unfoldable pub clamp_severity : ℤ → ℕ
clamp_severity (pos n) = min 6 n
clamp_severity (negsuc n) = 0

unfoldable pub parse_min_severity : Field → List FilterError → ℕ × List FilterError
parse_min_severity missing errors = (1, errors)
parse_min_severity (items raw) errors = (1, errors ++ severity_not_integer ∷ [])
parse_min_severity (scalar x) errors = elim x [
  | number n ↦ (clamp_severity n, errors)
  | text s ↦ (1, errors ++ severity_not_integer ∷ [])
  | boolean b ↦ (1, errors ++ severity_not_integer ∷ [])
  | null ↦ (1, errors ++ severity_not_integer ∷ [])
  | nested ↦ (1, errors ++ severity_not_integer ∷ [])
]

-- The filter of a message, or its errors, in the order of the code; `none` is a TypeError.
unfoldable pub parse_filter : FilterMessage → Option (ClientFilter × List FilterError)
parse_filter msg =
    let sources = parse_texts msg.sources "sources" max_sources [] in
    let ids = parse_numbers msg.template_ids "template_ids" max_template_ids sources.1 in
    elim (parse_alert_types msg.alert_types ids.1) [
      | none ↦ none
      | some (types, errors) ↦
          let severity = parse_min_severity msg.min_severity errors in
          some (
            record {
              sources = sources.0;
              min_severity = severity.0;
              alert_types = types;
              template_ids = ids.0;
            },
            severity.1,
          )
    ]
