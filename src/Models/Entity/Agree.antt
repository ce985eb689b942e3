-- ===== src/Models/Entity/Agree.antt =====
-- The type and the value of an event's entity.
use seerflow.Base.{Bool, List, String, [], arith, ◌∷◌, ◌≡◌, ◌⊎◌}
use seerflow.Models.Event.{SeerflowEvent}
use seerflow.Models.Alert.{EntityType, ip, user, host, process, file, domain}
use seerflow.Models.Entity.{infer_entity_type, primary_entity_value}

-- The entities of a type that an event is related to.
unfoldable pub related : SeerflowEvent → EntityType → List String
related e ip = e.related_ips
related e user = e.related_users
related e host = e.related_hosts
related e domain = e.related_domains
related e file = e.related_files
related e process = e.related_processes

abbrev pub head : List String → String
head [] = ""
head (x ∷ xs) = x

-- The value shown for an event is the first of its entities of the type inferred for it, or the
-- type is the address that stands for none and the value is empty.
pub primary_entity_value-infer_entity_type :
    (is_ip : String → Bool) (e : SeerflowEvent)
    → (primary_entity_value is_ip e ≡ head (related e (infer_entity_type is_ip e)))
      ⊎ ((infer_entity_type is_ip e ≡ ip) × (primary_entity_value is_ip e ≡ ""))
unfolding primary_entity_value infer_entity_type related
primary_entity_value-infer_entity_type is_ip e = ground arith
