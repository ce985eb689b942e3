-- ===== src/Detection/Markov.antt =====
-- src/seerflow/detection/markov.py: `_EntityModel` and `MarkovDetector`. An int of a template is a ℤ,
-- with -1 for none; the `OrderedDict` of models is an association list, least recently learned first.
-- `neg_log x` is `-math.log(x)`. `none` is a ValueError.
pub mod Chain
pub mod Learning
mod Tests
use seerflow.Base.{
  List, Option, String, [], drop, if◌then◌else◌, insert, ite, leb, length, lookup, ltb, max,
  move_to_end, negsuc, none, some, string_discrete, ℕ, ℤ, ℤ_discrete, ◌+◌, ◌∷◌,
}
use seerflow.Models.Event.{SeerflowEvent}
use seerflow.Detection.Floats.{Floats, min_float}

pub record EntityModel : Type 0 where
  pub prev_template : ℤ
  pub transitions : List (ℤ × List (ℤ × ℕ))
  pub total_from : List (ℤ × ℕ)
  pub event_count : ℕ

abbrev pub no_template : ℤ
no_template = negsuc 0

abbrev pub new_model : EntityModel
new_model = record {
  prev_template = no_template;
  transitions = [];
  total_from = [];
  event_count = 0;
}

abbrev pub or_zero : Option ℕ → ℕ
or_zero none = 0
or_zero (some n) = n

abbrev pub or_empty : Option (List (ℤ × ℕ)) → List (ℤ × ℕ)
or_empty none = []
or_empty (some d) = d

-- `model.transitions.get(prev, {}).get(curr, 0)`
unfoldable pub transition_count : EntityModel → ℤ → ℤ → ℕ
transition_count m prev curr =
    or_zero (lookup ℤ_discrete curr (or_empty (lookup ℤ_discrete prev m.transitions)))

-- `model.total_from.get(prev, 0)`
unfoldable pub total_count : EntityModel → ℤ → ℕ
total_count m prev = or_zero (lookup ℤ_discrete prev m.total_from)

-- The last lines of `learn`, on the entity's model.
unfoldable pub observe : EntityModel → ℤ → EntityModel
observe m curr =
    let prev = m.prev_template in
    let row = or_empty (lookup ℤ_discrete prev m.transitions) in
    let seen = or_zero (lookup ℤ_discrete curr row) in
    let m' = ite (ℤ_discrete prev no_template) m (record m {
      transitions = insert ℤ_discrete prev (insert ℤ_discrete curr (seen + 1) row) m.transitions;
      total_from =
          insert ℤ_discrete prev (or_zero (lookup ℤ_discrete prev m.total_from) + 1) m.total_from;
    }) in
    record m' { prev_template = curr; event_count = m.event_count + 1 }

module _ (F : Floats) where
  open F use {Float, zero_point, of_count, plus, times, divided_by, le_float}

  pub record MarkovDetector : Type 0 where
    pub smoothing : Float
    pub min_events : ℕ
    pub max_entities : ℕ
    pub models : List (String × EntityModel)

  unfoldable pub init : Float → ℕ → ℕ → Option MarkovDetector
  init smoothing min_events max_entities =
      if le_float smoothing zero_point
      then none
      else if ltb min_events 1
      then none
      else if ltb max_entities 1
      then none
      else some (record {
        smoothing = smoothing;
        min_events = min_events;
        max_entities = max_entities;
        models = [];
      })

  -- Room for the entity's model, at the end: the oldest one goes if there is none.
  unfoldable pub get_model : MarkovDetector → String → List (String × EntityModel) × EntityModel
  get_model d entity_id = elim (lookup string_discrete entity_id d.models) [
    | some m ↦ (move_to_end string_discrete entity_id m d.models, m)
    | none ↦
        let rest = if leb d.max_entities (length d.models) then drop 1 d.models else d.models in
        (insert string_discrete entity_id new_model rest, new_model)
  ]

  -- `event.entity_refs[0]` and the template, if there are both.
  unfoldable pub subject : SeerflowEvent → Option (String × ℤ)
  subject event = elim event.entity_refs [
    | [] ↦ none
    | entity ∷ refs ↦
        ite (ℤ_discrete event.template_id no_template) none (some (entity, event.template_id))
  ]

  unfoldable pub learn_at : MarkovDetector → String → ℤ → MarkovDetector
  learn_at d entity curr =
      let found = get_model d entity in
      record d { models = insert string_discrete entity (observe found.1 curr) found.0 }

  unfoldable pub learn : MarkovDetector → SeerflowEvent → MarkovDetector
  learn d event = elim (subject event) [ none ↦ d | some (entity, curr) ↦ learn_at d entity curr ]

  module _ (neg_log : Float → Float) where
    -- `score` of a transition seen `count` times of `total`, with `vocab` templates.
    unfoldable pub surprise : MarkovDetector → ℕ → ℕ → ℕ → Float
    surprise d count total vocab =
        let denom = plus (of_count total) (times d.smoothing (of_count vocab)) in
        let prob = divided_by (plus (of_count count) d.smoothing) denom in
        let max_log = neg_log (divided_by d.smoothing denom) in
        if le_float max_log zero_point
        then zero_point
        else min_float F (divided_by (neg_log prob) max_log) F.one_point

    unfoldable pub score_model : MarkovDetector → EntityModel → ℤ → Float
    score_model d m curr =
        if ltb m.event_count d.min_events
        then zero_point
        else ite (ℤ_discrete m.prev_template no_template) zero_point (
            surprise d (transition_count m m.prev_template curr) (total_count m m.prev_template)
              (max (length m.total_from) 1))

    unfoldable pub score : MarkovDetector → SeerflowEvent → Float
    score d event = elim (subject event) [
      | none ↦ zero_point
      | some (entity, curr) ↦ elim (lookup string_discrete entity d.models) [
        | none ↦ zero_point
        | some m ↦ score_model d m curr
      ]
    ]
