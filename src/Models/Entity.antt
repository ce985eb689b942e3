-- ===== src/Models/Entity.antt =====
-- src/seerflow/models/entity.py, `infer_entity_type` and `primary_entity_value`. Whether a text, with
-- spaces at its ends left out, is an address is what the `ipaddress` library says, a parameter.
pub mod Agree
mod Tests
use seerflow.Base.{Bool, List, String, [], if◌then◌else◌, ◌∷◌}
use seerflow.Models.Event.{SeerflowEvent}
use seerflow.Models.Alert.{EntityType, ip, user, host, process, file, domain}

abbrev or_else {ℓ} : {A : Type ℓ} → List String → (String → A) → A → A
or_else [] f a = a
or_else (x ∷ xs) f a = f x

module _ {ℓ} {A : Type ℓ} (is_ip : String → Bool) where
  -- The branches that both functions share; `found` is what one makes of an entity.
  unfoldable pub by_priority : (EntityType → String → A) → A → SeerflowEvent → A
  by_priority found nothing e =
      let others = or_else e.related_users (found user) (
        or_else e.related_hosts (found host) (
          or_else e.related_domains (found domain) (
            or_else e.related_files (found file)
              (or_else e.related_processes (found process) nothing)))) in
      or_else e.related_ips (λ a. if is_ip a then found ip a else others) others

unfoldable pub infer_entity_type : (String → Bool) → SeerflowEvent → EntityType
unfolding by_priority
infer_entity_type is_ip e = by_priority is_ip (λ type value. type) ip e

unfoldable pub primary_entity_value : (String → Bool) → SeerflowEvent → String
unfolding by_priority
primary_entity_value is_ip e = by_priority is_ip (λ type value. value) "" e
