-- ===== src/Detection/Markov/Tests.antt =====
-- A detector for two entities, and events of "a" and "b" between each other.
use seerflow.Base.{
  List, String, [], arith, contains, erase, insert, length, lookup, lru_put, map, negsuc, pos, refl,
  some, string_discrete, ℕ, ℕ_discrete, ℤ, ℤ_discrete, ◌∷◌, ◌≡◌,
}
use seerflow.Models.Event.{SeerflowEvent}
use seerflow.Detection.Floats.{min_float}
use seerflow.Detection.Samples.{thousandths, event_at}
use seerflow.Detection.Markov.{
  MarkovDetector, init, get_model, subject, learn_at, learn, observe, score, score_model, surprise,
  new_model, transition_count, total_count,
}
use seerflow.Detection.Markov.Chain.{observe_all, followed, followed_by}
use seerflow.Detection.Markov.Learning.{
  model_of, learn_all, templates_of, AreKnown, is_known_event, learn_all-counts, learn_at-lru_put,
}

program : Unit {0}
unfolding init get_model subject learn_at learn observe score score_model surprise transition_count
    total_count observe_all followed followed_by model_of learn_all templates_of min_float lookup
    insert erase string_discrete ℤ_discrete ℕ_discrete contains is_known_event
program = tt

abbrev empty : MarkovDetector thousandths
empty = record { smoothing = 1; min_events = 1; max_entities = 2; models = [] }

abbrev at : ℕ → String → SeerflowEvent
at template entity = event_at 0 (pos template) (entity ∷ [])

abbrev events : List SeerflowEvent
events =
    at 1 "a" ∷ at 7 "b" ∷ at 2 "a" ∷ at 1 "a" ∷ at 2 "a" ∷ event_at 0 (negsuc 0) ("a" ∷ []) ∷ []

starts : init thousandths 1 1 2 ≡ some empty
unfolding program
starts = refl

-- "b" is dropped for "c", and "a" is the older of the two then.
evicts :
    map (λ e. e.0) (learn_all thousandths empty (at 7 "b" ∷ at 1 "a" ∷ at 3 "c" ∷ [])).models
    ≡ "a" ∷ "c" ∷ []
unfolding program
evicts = refl

counts_seen :
    transition_count (model_of thousandths (learn_all thousandths empty events) "a") (pos 1) (pos 2)
    ≡ 2
unfolding program
counts_seen = refl

unknown_entity : score thousandths (λ x. x) empty (at 1 "a") ≡ 0
unfolding program
unknown_entity = refl

abbrev templates : List ℤ
templates = pos 1 ∷ pos 2 ∷ pos 1 ∷ pos 2 ∷ []

events_AreKnown : AreKnown thousandths ("a" ∷ "b" ∷ []) events
unfolding program
events_AreKnown = (refl, (refl, (refl, (refl, (refl, (refl, tt))))))

learn_all-counts_example :
    let m = model_of thousandths (learn_all thousandths empty events) "a" in
    let ts = templates_of thousandths "a" events in
    (transition_count m (pos 1) (pos 2) ≡ followed_by (pos 1) (pos 2) ts)
    × (total_count m (pos 1) ≡ followed (pos 1) ts)
    × (m.event_count ≡ length ts)
learn_all-counts_example =
    learn_all-counts thousandths 1 1 2 ("a" ∷ "b" ∷ []) events "a" (pos 1) (pos 2) starts
      (omega arith) events_AreKnown

learn_at-lru_put_example :
    learn_at thousandths empty "a" (pos 1)
    ≡ record empty { models = lru_put string_discrete 2 "a" (observe new_model (pos 1)) [] }
unfolding program
learn_at-lru_put_example =
    learn_at-lru_put thousandths empty "a" (pos 1)
      (record { unique = tt; entities = omega arith; room = omega arith })
