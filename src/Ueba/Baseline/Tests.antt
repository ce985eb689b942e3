-- ===== src/Ueba/Baseline/Tests.antt =====
-- A baseline of one day and two events, with room for two addresses and one template.
use seerflow.Base.{
  IsDict, List, Option, String, [], arith, insert, insert_sorted, length, lookup, none, pos, refl,
  some, sorted, string_discrete, true, ℕ, ℕ_discrete, ℤ, ℤ_discrete, ◌∷◌, ◌≡◌, ◌≤◌,
}
use mathlib.Core.Option.{map as option_map}
use seerflow.Models.Event.{SeerflowEvent}
use seerflow.Models.Alert.{user}
use seerflow.Detection.Samples.{thousandths, event_at}
use seerflow.Ueba.Baseline.{
  EntityBaseline, UebaParams, apply_event, next_baseline, prior_state, compute_warmup, zeros,
  update_all_ips, update_source_ips, cap_sources, add_pairs, event_templates, update_templates,
  cap_templates, sorted_down, insert_down, weight_of, update_hours, bucket_hour_utc, update_ema,
}
use seerflow.Ueba.Baseline.Sources.{update_source_ips_lem}
use seerflow.Ueba.Baseline.Valid.{IsValid, apply_event-IsValid}

program : Unit {0}
unfolding apply_event next_baseline prior_state compute_warmup zeros update_all_ips
    update_source_ips cap_sources add_pairs event_templates update_templates cap_templates
    sorted_down insert_down weight_of update_hours bucket_hour_utc update_ema lookup insert sorted
    insert_sorted string_discrete ℤ_discrete ℕ_discrete
program = tt

abbrev params : UebaParams thousandths
params = record {
  alpha = 500;
  source_ip_cap = 2;
  template_top_k = 1;
  warmup_days = 1;
  warmup_min_events = 2;
}

-- Every template is "t".
abbrev text_of : ℤ → String
text_of t = "t"

abbrev event : ℕ → List String → SeerflowEvent
event t ips = record (event_at t (pos 1) ("eve" ∷ [])) { related_ips = ips }

abbrev first : Option (EntityBaseline thousandths)
first = apply_event thousandths text_of none "eve" user (event 0 ("a" ∷ "b" ∷ [])) params

-- A day later the warm-up is over, and the older address "a" is gone.
abbrev second : Option (EntityBaseline thousandths)
second = elim first [
  | none ↦ none
  | some b ↦
      apply_event thousandths text_of (some b) "eve" user (event 86400000000000 ("c" ∷ [])) params
]

warms_up : option_map {A = EntityBaseline thousandths} (λ b. b.warmup_complete) second ≡ some true
unfolding program
warms_up = refl

keeps_recent :
    option_map {A = EntityBaseline thousandths} (λ b. b.source_ips) second
    ≡ some (("b", 0) ∷ ("c", 86400000000000) ∷ [])
unfolding program
keeps_recent = refl

counts_hours : option_map {A = EntityBaseline thousandths} (λ b. b.event_count) second ≡ some 2
unfolding program
counts_hours = refl

apply_event-IsValid_example :
    (b : EntityBaseline thousandths) × (apply_event thousandths text_of none "eve" user
        (event 0 ("a" ∷ "b" ∷ []))
        params
      ≡ some b)
    × IsValid thousandths text_of params b
apply_event-IsValid_example =
    apply_event-IsValid thousandths text_of params none "eve" user (event 0 ("a" ∷ "b" ∷ [])) tt

update_source_ips_lem_example :
    IsDict string_discrete (update_source_ips (("a", 3) ∷ ("b", 1) ∷ []) "c" 4 2)
    × (length (update_source_ips (("a", 3) ∷ ("b", 1) ∷ []) "c" 4 2) ≤ 2)
    × (lookup string_discrete "c" (update_source_ips (("a", 3) ∷ ("b", 1) ∷ []) "c" 4 2) ≡ some 4)
unfolding program
update_source_ips_lem_example =
    update_source_ips_lem (("a", 3) ∷ ("b", 1) ∷ []) "c" 4 2 (refl, (refl, tt)) (omega arith)
      (omega arith) (omega arith)
