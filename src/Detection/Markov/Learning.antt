-- ===== src/Detection/Markov/Learning.antt =====
-- The detector's map of models against a bounded least-recently-used map.
use seerflow.Base.{
  All, Bool, IsDict, List, Option, Option-cases, String, Within, [], ap, arith, contains, drop_full,
  inl, inr, ite, length, length-lru_put-le, lookup, lookup-lru_put_known, lru_put, lru_put-IsDict,
  lru_put-Within, lru_put_fresh, lru_put_old, none, refl, some, string_discrete, subst, sym, true,
  ℕ, ℤ, ◌<◌, ◌∙◌, ◌∷◌, ◌≡◌, ◌≤◌,
}
use seerflow.Models.Event.{SeerflowEvent}
use seerflow.Detection.Floats.{Floats}
use seerflow.Detection.Markov.{
  EntityModel, new_model, observe, transition_count, total_count, MarkovDetector, get_model,
  subject, learn_at, learn, init,
}
use seerflow.Detection.Markov.Chain.{
  observe_all, observe_all-counts, followed, followed_by, IsKnown,
}

module _ (F : Floats) where
  pub record IsValid (d : MarkovDetector F) : Type 0 where
    pub unique : IsDict string_discrete d.models
    pub entities : length d.models ≤ d.max_entities
    pub room : 0 < d.max_entities

  -- The model that an event of the entity finds.
  unfoldable pub model_of : MarkovDetector F → String → EntityModel
  model_of d entity = elim (lookup string_discrete entity d.models) [
    | none ↦ new_model
    | some m ↦ m
  ]

  learn_at_cases :
      (d : MarkovDetector F) (entity : String) (curr : ℤ) (found : Option EntityModel)
      → IsValid d
      → lookup string_discrete entity d.models ≡ found
      → (learn_at F d entity curr).models
        ≡ lru_put string_discrete d.max_entities entity (observe (model_of d entity) curr) d.models
  unfolding learn_at get_model model_of
  learn_at_cases d entity curr (some m) v e = ground (
    arith,
    lru_put_old string_discrete d.max_entities entity (observe m curr) m d.models v.unique e
        v.entities,
  )
  learn_at_cases d entity curr none v e = ground (
    arith,
    drop_full d.max_entities d.models v.entities,
    lru_put_fresh string_discrete d.max_entities entity (observe new_model curr) new_model d.models
        e,
  )

  -- On a valid detector, learning from a template of an entity is the write of a bounded
  -- least-recently-used map: the entity's model, or a new one, with the template observed.
  pub learn_at-lru_put :
      (d : MarkovDetector F) (entity : String) (curr : ℤ)
      → IsValid d
      → learn_at F d entity curr ≡ record d {
        models =
            lru_put string_discrete d.max_entities entity
              (observe (model_of d entity) curr)
              d.models;
      }
  unfolding learn_at
  learn_at-lru_put d entity curr v =
      ap (λ (ms : List (String × EntityModel)). record d { models = ms })
        (learn_at_cases d entity curr (lookup string_discrete entity d.models) v refl)

  learn_at-IsValid :
      (d : MarkovDetector F) (entity : String) (curr : ℤ)
      → IsValid d
      → IsValid (learn_at F d entity curr)
  learn_at-IsValid d entity curr v =
      let m = observe (model_of d entity) curr in
      subst IsValid (sym (learn_at-lru_put d entity curr v)) (record {
        unique = lru_put-IsDict string_discrete d.max_entities entity m d.models v.unique;
        entities = length-lru_put-le string_discrete d.max_entities entity m d.models v.room;
        room = v.room;
      })

  unfoldable pub learn_all : MarkovDetector F → List SeerflowEvent → MarkovDetector F
  learn_all d [] = d
  learn_all d (e ∷ es) = learn_all (learn F d e) es

  -- The templates of the entity's events, in order.
  unfoldable pub templates_of : String → List SeerflowEvent → List ℤ
  templates_of entity [] = []
  templates_of entity (e ∷ es) = elim (subject F e) [
    | none ↦ templates_of entity es
    | some (other, t) ↦
        ite (string_discrete other entity) (t ∷ templates_of entity es) (templates_of entity es)
  ]

  -- The entities of the events are among the known ones.
  unfoldable pub is_known_event : List String → SeerflowEvent → Bool
  is_known_event known e = elim (subject F e) [
    | none ↦ true
    | some (entity, t) ↦ contains entity known
  ]

  abbrev pub AreKnown : List String → List SeerflowEvent → Type 0
  AreKnown known = All (λ e. is_known_event known e ≡ true)

  known_entity :
      (known : List String) (e : SeerflowEvent) {entity : String} {t : ℤ}
      → is_known_event known e ≡ true
      → subject F e ≡ some (entity, t)
      → contains entity known ≡ true
  unfolding is_known_event
  known_entity known e h s = ground arith

  abbrev IsHome : List String → MarkovDetector F → Type 0
  IsHome known d = IsValid d × Within known d.models × (length known ≤ d.max_entities)

  abbrev IsLearned :
      List String → MarkovDetector F → String → ℤ → String → MarkovDetector F → Type 0
  IsLearned known d entity curr x d' =
      (model_of d' x ≡ ite (string_discrete entity x) (observe (model_of d x) curr) (model_of d x))
      × IsHome known d'

  learn_at-model_of :
      (known : List String) (d : MarkovDetector F) (entity : String) (curr : ℤ) (x : String)
      → IsHome known d
      → contains entity known ≡ true
      → IsLearned known d entity curr x (learn_at F d entity curr)
  unfolding model_of
  learn_at-model_of known d entity curr x h is_known =
      let m = observe (model_of d entity) curr in
      let found =
        lookup-lru_put_known known d.max_entities entity m d.models h.0.unique h.1 is_known h.2 x in
      subst (IsLearned known d entity curr x) (sym (learn_at-lru_put d entity curr h.0)) (
        ground (arith, found),
        (
          subst IsValid (learn_at-lru_put d entity curr h.0) (learn_at-IsValid d entity curr h.0),
          lru_put-Within known d.max_entities entity m d.models h.0.unique h.1 is_known h.2,
          h.2,
        ),
      )

  learn_all-model_of :
      (known : List String) (d : MarkovDetector F) (es : List SeerflowEvent) (x : String)
      → IsHome known d
      → AreKnown known es
      → model_of (learn_all d es) x ≡ observe_all (model_of d x) (templates_of x es)
  unfolding learn_all templates_of observe_all learn
  learn_all-model_of known d [] x h all = refl
  learn_all-model_of known d (e ∷ es) x h all = elim (Option-cases (subject F e)) [
    | inl skip ↦ ground (arith, learn_all-model_of known d es x h all.1)
    | inr ((entity, t), s) ↦
        let step = learn_at-model_of known d entity t x h (known_entity known e all.0 s) in
        ground (arith, step.0, learn_all-model_of known (learn_at F d entity t) es x step.1 all.1)
  ]

  subject-IsKnown :
      (e : SeerflowEvent) (entity : String) (t : ℤ) → subject F e ≡ some (entity, t) → IsKnown t
  unfolding subject
  subject-IsKnown e entity t h = ground arith

  templates_of-IsKnown : (x : String) (es : List SeerflowEvent) → All IsKnown (templates_of x es)
  unfolding templates_of
  templates_of-IsKnown x [] = tt
  templates_of-IsKnown x (e ∷ es) =
      let rest = templates_of-IsKnown x es in
      let ts = templates_of x es in
      elim (Option-cases (subject F e)) [
        | inl skip ↦
            let same : ts ≡ templates_of x (e ∷ es) = ground arith in subst (All IsKnown) same rest
        | inr ((other, t), s) ↦ elim (string_discrete other x) [
          | yes p ↦
              let more : t ∷ ts ≡ templates_of x (e ∷ es) = ground arith in
              subst (All IsKnown) more (subject-IsKnown e other t s, rest)
          | no p ↦
              let same : ts ≡ templates_of x (e ∷ es) = ground arith in
              subst (All IsKnown) same rest
        ]
      ]

  fresh-IsHome :
      (smoothing : F.Float) (min_events max_entities : ℕ) (known : List String)
      {d : MarkovDetector F}
      → init F smoothing min_events max_entities ≡ some d
      → length known ≤ max_entities
      → IsHome known d × (d.models ≡ [])
  unfolding init lookup
  fresh-IsHome smoothing min_events max_entities known {d} made fits =
      let empty : d.models ≡ [] = ground arith in
      (
        (
          record {
            unique = subst (IsDict string_discrete) (sym empty) tt;
            entities = rw empty (omega arith);
            room = ground arith;
          },
          (λ k out. rw empty),
          ground arith,
        ),
        empty,
      )

  -- A new detector with room for all entities of the events: after them, in the model of each entity,
  -- the count of a transition is how often the one template follows the other at once among the
  -- entity's own templates in order, the total how often anything follows the template, and the number
  -- of events is theirs.
  pub learn_all-counts :
      (smoothing : F.Float) (min_events max_entities : ℕ) (known : List String)
      {d : MarkovDetector F} (es : List SeerflowEvent) (x : String) (prev curr : ℤ)
      → init F smoothing min_events max_entities ≡ some d
      → length known ≤ max_entities
      → AreKnown known es
      → let m = model_of (learn_all d es) x in
        let ts = templates_of x es in
        (transition_count m prev curr ≡ followed_by prev curr ts)
        × (total_count m prev ≡ followed prev ts)
        × (m.event_count ≡ length ts)
  unfolding model_of lookup
  learn_all-counts smoothing min_events max_entities known {d} es x prev curr made fits all =
      let home = fresh-IsHome smoothing min_events max_entities known made fits in
      let ts = templates_of x es in
      let fresh : model_of d x ≡ new_model = ground (arith, home.1) in
      let same = learn_all-model_of known d es x home.0 all in
      let counted = observe_all-counts ts prev curr (templates_of-IsKnown x es) in
      let learned : model_of (learn_all d es) x ≡ observe_all new_model ts =
        same ∙ ap (λ (m : EntityModel). observe_all m ts) fresh in
      rw learned (counted.0, counted.1, counted.2)
