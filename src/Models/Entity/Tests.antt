-- ===== src/Models/Entity/Tests.antt =====
-- An event with a bad address and a user.
use seerflow.Base.{Bool, String, [], negsuc, refl, text_eq, ◌∷◌, ◌≡◌}
use seerflow.Models.Event.{SeerflowEvent, notice}
use seerflow.Models.Alert.{user}
use seerflow.Models.Entity.{infer_entity_type, primary_entity_value}

abbrev is_ip : String → Bool
is_ip s = text_eq s "10.0.0.1"

abbrev event : SeerflowEvent
event = record {
  event_id = "e";
  timestamp_ns = 0;
  severity_id = notice;
  source_type = "syslog";
  template_id = negsuc 0;
  entity_refs = [];
  related_ips = "bad" ∷ [];
  related_users = "eve" ∷ [];
  related_hosts = [];
  related_files = [];
  related_domains = [];
  related_processes = [];
}

falls_through : (infer_entity_type is_ip event ≡ user) × (primary_entity_value is_ip event ≡ "eve")
unfolding infer_entity_type primary_entity_value
falls_through = (refl, refl)
