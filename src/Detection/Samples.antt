-- ===== src/Detection/Samples.antt =====
-- Numbers to calculate examples with: thousandths, with subtraction that stops at 0.
use seerflow.Base.{List, String, [], leb, ltb, true, ℕ, ℤ, ◌*◌, ◌+◌, ◌-◌, ◌/◌}
use seerflow.Models.Event.{SeerflowEvent, informational}
use seerflow.Detection.Floats.{Floats}

abbrev pub thousandths : Floats
thousandths = record {
  Float = ℕ;
  zero_point = 0;
  one_point = 1000;
  of_count = λ n. n * 1000;
  plus = λ a b. a + b;
  minus = λ a b. a - b;
  times = λ a b. a * b / 1000;
  divided_by = λ a b. a * 1000 / b;
  square = λ a. a * a / 1000;
  square_root = λ a. a;
  is_finite = λ a. true;
  lt_float = ltb;
  le_float = leb;
}

abbrev pub event_at : ℕ → ℤ → List String → SeerflowEvent
event_at t template refs = record {
  event_id = "e";
  timestamp_ns = t;
  severity_id = informational;
  source_type = "syslog";
  template_id = template;
  entity_refs = refs;
  related_ips = [];
  related_users = [];
  related_hosts = [];
  related_files = [];
  related_domains = [];
  related_processes = [];
}
