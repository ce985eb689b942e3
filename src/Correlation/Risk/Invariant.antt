-- ===== src/Correlation/Risk/Invariant.antt =====
-- The invariant of the risk register, and `add_risk` against a bounded least-recently-used map.
use seerflow.Base.{
  AllValues, IsDict, List, Option-cases, String, [], arith, evict_oldest-drop, excess, excess_new,
  excess_old, inl, inr, length, length-append, length-drop, length-lru_put-le, lookup, lru_put,
  lru_put-AllValues, lru_put-IsDict, lru_put_fresh, lru_put_old, refl, some, string_discrete, ℕ,
  ◌++◌, ◌+◌, ◌-◌, ◌<◌, ◌∷◌, ◌≡◌, ◌≤◌,
}
use seerflow.Correlation.Risk.{
  Scores, RiskEntry, RiskRegister, init, append_entry, store_risk, add_risk, get_risk, get_entries,
}

module _ {F : Scores} where
  abbrev pub Fits : ℕ → List (RiskEntry F) → Type 0
  Fits cap es = (0 < length es) × (length es ≤ cap)

  pub record IsValid (r : RiskRegister F) : Type 0 where
    pub unique : IsDict string_discrete r.entries
    pub entities : length r.entries ≤ r.max_entities
    pub entries_fit : AllValues string_discrete (Fits r.max_entries_per_entity) r.entries

  pub init-IsValid : (t : F.Score) (n m : ℕ) → IsValid (init F t n m)
  unfolding init
  init-IsValid t n m = omega arith

  unfoldable pub after_risk : RiskRegister F → String → RiskEntry F → RiskRegister F
  after_risk r k entry = record r {
    entries =
        lru_put string_discrete r.max_entities k
          (append_entry F r.max_entries_per_entity (get_entries F r k) entry) r.entries;
    eviction_count = r.eviction_count + excess string_discrete r.max_entities k r.entries;
  }

  store_risk-after_risk :
      (r : RiskRegister F) (k : String) (entry : RiskEntry F)
      → IsValid r
      → 0 < r.max_entities
      → store_risk F r k entry ≡ some (after_risk r k entry)
  unfolding store_risk after_risk get_entries
  store_risk-after_risk r k entry v room =
      elim (Option-cases (lookup string_discrete k r.entries)) [
        | inl new ↦ ground (
          arith,
          evict_oldest-drop r.max_entities r.entries r.eviction_count room,
          excess_new string_discrete r.max_entities k r.entries new,
          lru_put_fresh string_discrete r.max_entities k
              (append_entry F r.max_entries_per_entity [] entry) [] r.entries new,
        )
        | inr (es, old) ↦ ground (
          arith,
          excess_old string_discrete r.max_entities k r.entries {v = es} v.unique old v.entities,
          lru_put_old string_discrete r.max_entities k
              (append_entry F r.max_entries_per_entity es entry) es r.entries v.unique old
              v.entities,
        )
      ]

  append_entry-Fits :
      (cap : ℕ) (es : List (RiskEntry F)) (entry : RiskEntry F)
      → 0 < cap
      → Fits cap (append_entry F cap es entry)
  unfolding append_entry
  append_entry-Fits cap es entry h =
      let all = es ++ entry ∷ [] in
      ground (arith, length-append es (entry ∷ []), length-drop (length all - cap) all)

  -- On a valid register with caps of at least one `add_risk` raises nothing, is the write of a bounded
  -- least-recently-used map with the entry appended to the entity's, returns the score of the new
  -- register, and keeps the invariant.
  pub add_risk-after_risk :
      (r : RiskRegister F) (now : ℕ) (k : String) (entry : RiskEntry F)
      → IsValid r
      → 0 < r.max_entities
      → 0 < r.max_entries_per_entity
      → let r' = after_risk r k entry in
        (add_risk F r now k entry ≡ some (r', get_risk F r' now k)) × IsValid r'
  unfolding add_risk after_risk
  add_risk-after_risk r now k entry v room some_entry = (
    rw (store_risk-after_risk r k entry v room, add_risk) refl,
    record {
      unique = lru_put-IsDict string_discrete r.max_entities k _ r.entries v.unique;
      entities = length-lru_put-le string_discrete r.max_entities k _ r.entries room;
      entries_fit =
          lru_put-AllValues string_discrete (Fits r.max_entries_per_entity) r.max_entities k
            (append_entry F r.max_entries_per_entity (get_entries F r k) entry) r.entries
            (append_entry-Fits r.max_entries_per_entity (get_entries F r k) entry some_entry)
            v.entries_fit;
    },
  )

  -- With a cap of 0 entries per entity nothing is trimmed: each entry lengthens the entity's list.
  pub append_entry_uncapped :
      (es : List (RiskEntry F)) (entry : RiskEntry F)
      → length (append_entry F 0 es entry) ≡ length es + 1
  unfolding append_entry
  append_entry_uncapped es entry = ground (arith, length-append es (entry ∷ []))
