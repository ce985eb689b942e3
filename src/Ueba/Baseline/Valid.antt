-- ===== src/Ueba/Baseline/Valid.antt =====
-- Baselines that events have made.
use seerflow.Base.{
  Bool, IsDict, List, Option, String, [], arith, false, insert, leb, length, length-insert-le,
  length-take, max, none, refl, some, string_discrete, sym, take, true, ℕ, ℤ, ◌&&◌, ◌*◌, ◌+◌, ◌-◌,
  ◌<◌, ◌∙◌, ◌∷◌, ◌≡◌, ◌≤◌,
}
use seerflow.Models.Event.{SeerflowEvent}
use seerflow.Models.Alert.{EntityType}
use seerflow.Detection.Floats.{Floats}
use seerflow.Ueba.Baseline.{
  EntityBaseline, PriorState, UebaParams, apply_event, next_baseline, prior_state, compute_warmup,
  zeros, update_all_ips, update_source_ips, event_templates, update_templates, cap_templates,
  sorted_down, add_pairs, bucket_hour_utc, ns_per_day,
}
use seerflow.Ueba.Baseline.Hours.{sum, update_hours_lem, bucket_hour_utc_lt}
use seerflow.Ueba.Baseline.Sources.{update_source_ips-IsDict}

update_all_ips-IsDict :
    (ips : List (String × ℕ)) (new : List String) (now_ns bound : ℕ)
    → IsDict string_discrete ips
    → length ips ≤ bound
    → IsDict string_discrete (update_all_ips ips new now_ns bound)
      × (length (update_all_ips ips new now_ns bound) ≤ bound)
unfolding update_all_ips
update_all_ips-IsDict ips [] now_ns bound u le = (u, le)
update_all_ips-IsDict ips (ip ∷ new) now_ns bound u le =
    let one = update_source_ips-IsDict ips ip now_ns bound u in
    update_all_ips-IsDict (update_source_ips ips ip now_ns bound) new now_ns bound one.0 one.1

length-add_pairs-le :
    {V : Type 0} (d rest : List (String × V)) → length (add_pairs d rest) ≤ length d + length rest
unfolding add_pairs
length-add_pairs-le d [] = omega arith
length-add_pairs-le d ((k, v) ∷ rest) =
    omega (arith, length-insert-le k v d, length-add_pairs-le (insert string_discrete k v d) rest)

module _ (F : Floats) (text_of : ℤ → String) (params : UebaParams F) where
  length-cap_templates :
      (top_k : ℕ) (all : List (String × F.Float)) → length (cap_templates F top_k all) ≤ top_k
  unfolding cap_templates
  length-cap_templates top_k all =
      let heavy = take top_k (sorted_down F all) in
      ground (arith, length-add_pairs-le [] heavy, length-take top_k (sorted_down F all))

  length-update_templates :
      (templates : List (String × F.Float)) (id : String)
      → length (update_templates F templates id params.alpha params.template_top_k)
        ≤ params.template_top_k
  unfolding update_templates
  length-update_templates templates id = length-cap_templates params.template_top_k _

  -- `hours` has its 24 counts, which add up to the events; the addresses are a dictionary within its cap,
  -- the templates are within theirs; and the warm-up is over exactly when both its conditions hold now.
  pub record IsValid (b : EntityBaseline F) : Type 0 where
    pub all_hours : length b.hours ≡ 24
    pub counted : sum b.hours ≡ b.event_count
    pub unique_ips : IsDict string_discrete b.source_ips
    pub ips : length b.source_ips ≤ params.source_ip_cap
    pub templates : length b.templates ≤ params.template_top_k
    pub ordered : b.first_seen_ns ≤ b.last_seen_ns
    pub warm : b.warmup_complete ≡ (
        leb (params.warmup_days * ns_per_day) (b.last_seen_ns - b.first_seen_ns)
        && leb params.warmup_min_events b.event_count)

  -- An entity's baseline, if it has one, is valid.
  abbrev pub IsPrior : Option (EntityBaseline F) → Type 0
  IsPrior none = Unit
  IsPrior (some b) = IsValid b

  record IsStart (prev : PriorState F) : Type 0 where
    all_hours : length prev.hours ≡ 24
    counted : sum prev.hours ≡ prev.event_count
    unique_ips : IsDict string_discrete prev.ips
    ips : length prev.ips ≤ params.source_ip_cap
    templates : length prev.templates ≤ params.template_top_k
    ordered : prev.first_seen_ns ≤ prev.last_seen_ns
    warm :
        prev.warmup_latched ≡ true
        → (leb (params.warmup_days * ns_per_day) (prev.last_seen_ns - prev.first_seen_ns)
            && leb params.warmup_min_events prev.event_count)
          ≡ true

  prior_state-IsStart :
      (baseline : Option (EntityBaseline F)) (ts : ℕ)
      → IsPrior baseline
      → IsStart (prior_state F baseline ts)
  unfolding prior_state zeros
  prior_state-IsStart none ts v = record {
    all_hours = refl;
    counted = refl;
    unique_ips = tt;
    ips = omega arith;
    templates = omega arith;
    ordered = omega arith;
    warm = λ h. absurd (cc);
  }
  prior_state-IsStart (some b) ts v = record {
    all_hours = v.all_hours;
    counted = v.counted;
    unique_ips = v.unique_ips;
    ips = v.ips;
    templates = v.templates;
    ordered = v.ordered;
    warm = λ h. sym v.warm ∙ h;
  }

  warmup_latches :
      (latched : Bool) (span span' count : ℕ)
      → (latched ≡ true
          → (leb (params.warmup_days * ns_per_day) span && leb params.warmup_min_events count)
            ≡ true)
      → span ≤ span'
      → compute_warmup F latched span' (count + 1) params
        ≡ (leb (params.warmup_days * ns_per_day) span' && leb params.warmup_min_events (count + 1))
  unfolding compute_warmup
  warmup_latches false span span' count h le = refl
  warmup_latches true span span' count h le = ground (arith, h refl)

  event_templates-le :
      (prev : PriorState F) (event : SeerflowEvent)
      → length prev.templates ≤ params.template_top_k
      → length (event_templates F text_of prev event params) ≤ params.template_top_k
  unfolding event_templates
  event_templates-le prev event le =
      ground (arith, length-update_templates prev.templates (text_of event.template_id))

  -- From no baseline or a valid one, an event makes a baseline, with no IndexError, and it is valid.
  pub apply_event-IsValid :
      (baseline : Option (EntityBaseline F)) (entity_uuid : String) (entity_type : EntityType)
      → (event : SeerflowEvent) → IsPrior baseline
      → (b : EntityBaseline F) × (apply_event F text_of baseline entity_uuid entity_type event
            params
          ≡ some b)
        × IsValid b
  unfolding apply_event next_baseline
  apply_event-IsValid baseline entity_uuid entity_type event v =
      let ts = event.timestamp_ns in
      let prev = prior_state F baseline ts in
      let start = prior_state-IsStart baseline ts v in
      let hour = bucket_hour_utc ts in
      let below : hour < length prev.hours = rw (start.all_hours) (bucket_hour_utc_lt ts) in
      let hours = update_hours_lem prev.hours hour below in
      let last = max prev.last_seen_ns ts in
      let ips =
        update_all_ips-IsDict prev.ips event.related_ips ts params.source_ip_cap start.unique_ips
          start.ips in
      let b = next_baseline F text_of prev entity_uuid entity_type event params hours.0 in
      (
        b,
        ground (arith, hours.1),
        record {
          all_hours = hours.2 ∙ start.all_hours;
          counted = omega (arith, hours.3, start.counted);
          unique_ips = ips.0;
          ips = ips.1;
          templates = event_templates-le prev event start.templates;
          ordered = omega (arith, start.ordered);
          warm =
              warmup_latches prev.warmup_latched (prev.last_seen_ns - prev.first_seen_ns)
                (last - prev.first_seen_ns) prev.event_count start.warm (omega arith);
        },
      )
