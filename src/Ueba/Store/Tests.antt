-- ===== src/Ueba/Store/Tests.antt =====
-- Baselines that count events, in a store of one entity.
use seerflow.Base.{
  List, Option, String, [], arith, erase, length, lookup, negsuc, none, refl, some, string_discrete,
  ℕ, ◌+◌, ◌∷◌, ◌≡◌,
}
use seerflow.Models.Event.{SeerflowEvent, notice}
use seerflow.Models.Alert.{EntityType, user, host}
use seerflow.Ueba.Store.{BaselineStore, init, get, restore, learn_one, snapshot_and_learn}
use seerflow.Ueba.Store.Capped.{IsValid, after_store, learn_one-after_store, restore-learn_one}

program : Unit {0}
unfolding init get restore learn_one snapshot_and_learn lookup erase string_discrete
program = tt

abbrev counted : Option ℕ → String → EntityType → SeerflowEvent → ℕ
counted none k type e = 1
counted (some n) k type e = n + 1

abbrev event : SeerflowEvent
event = record {
  event_id = "e";
  timestamp_ns = 0;
  severity_id = notice;
  source_type = "syslog";
  template_id = negsuc 0;
  entity_refs = "eve" ∷ "web" ∷ [];
  related_ips = [];
  related_users = [];
  related_hosts = [];
  related_files = [];
  related_domains = [];
  related_processes = [];
}

abbrev store : BaselineStore ℕ
store = record { max_entities = 1; baselines = ("eve", 4) ∷ []; eviction_count = 0 }

-- "eve" is learned, then dropped for "web"; the snapshot is from before.
learns :
    snapshot_and_learn counted store event (user ∷ host ∷ [])
    ≡ (record { max_entities = 1; baselines = ("web", 1) ∷ []; eviction_count = 1 }, some 4)
unfolding program
learns = refl

store-IsValid : IsValid store
unfolding lookup
store-IsValid = record { unique = (refl, tt); entities = omega arith; room = omega arith }

learn_one-after_store_example :
    (learn_one counted store "web" host event
      ≡ after_store store "web" (counted (get store "web") "web" host event))
    × IsValid (snapshot_and_learn counted store event (user ∷ host ∷ [])).0
learn_one-after_store_example =
    learn_one-after_store counted store "web" host event (user ∷ host ∷ []) store-IsValid

abbrev saved : List (String × ℕ)
saved = ("eve", 4) ∷ ("adam", 2) ∷ []

absent : lookup string_discrete "web" saved ≡ none
unfolding program
absent = refl

restore-learn_one_example :
    let restored = (restore (some saved) store).0 in
    (length restored.baselines ≡ 2)
    × (length (learn_one counted restored "web" host event).baselines ≡ 2)
restore-learn_one_example =
    restore-learn_one counted store saved "web" host event (omega arith) absent
