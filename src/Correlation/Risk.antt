-- ===== src/Correlation/Risk.antt =====
-- src/seerflow/correlation/risk.py, `RiskRegister`. Floating-point numbers are the parameter
-- `Scores`: zero, addition, the comparison with a threshold, and an entry's points decayed by its age.
pub mod Invariant
pub mod Decay
mod Tests
use seerflow.Base.{
  Bool, Bounds, List, Option, String, [], drop, evict_oldest, if◌then◌else◌, insert, length, lookup,
  ltb, move_to_end, none, some, string_discrete, true, ℕ, ◌++◌, ◌-◌, ◌==◌, ◌∷◌, ◌≡◌, ◌≤◌,
}

-- `decay p a` is `p * exp(-lambda * a)`. The order is that of the numbers.
pub record Scores : Type 1 where
  pub Score : Type 0
  pub zero_score : Score
  pub plus : Score → Score → Score
  pub decay : Score → ℕ → Score
  pub at_least : Score → Score → Bool
  pub Below : Score → Score → Type 0

-- What the program relies on: an older contribution weighs no more, and sums and comparisons respect
-- the order.
pub record IsDecaying (F : Scores) : Type 0 where
  pub below_refl : (a : F.Score) → F.Below a a
  pub decay_mono : (p : F.Score) (a b : ℕ) → a ≤ b → F.Below (F.decay p b) (F.decay p a)
  pub plus_mono :
      (a b c d : F.Score) → F.Below a b → F.Below c d → F.Below (F.plus a c) (F.plus b d)
  pub at_least_mono :
      (a b t : F.Score) → F.Below a b → F.at_least a t ≡ true → F.at_least b t ≡ true

module _ (F : Scores) where
  open F use {Score, zero_score, plus, decay, at_least}

  pub record RiskEntry : Type 0 where
    pub timestamp_ns : ℕ
    pub risk_points : Score
    pub source : String
    pub rule_name : String
    pub mitre_tactics : List String
    pub mitre_techniques : List String

  pub record RiskRegister : Type 0 where
    pub threshold : Score
    pub max_entities : ℕ
    pub max_entries_per_entity : ℕ
    pub entries : List (String × List RiskEntry)
    pub eviction_count : ℕ

  unfoldable pub init : Score → ℕ → ℕ → RiskRegister
  init threshold max_entities max_entries = record {
    threshold = threshold;
    max_entities = max_entities;
    max_entries_per_entity = max_entries;
    entries = [];
    eviction_count = 0;
  }

  -- The sum over the entries; an entry from the future has age 0, as `now - t` stops at 0.
  unfoldable pub total : ℕ → Score → List RiskEntry → Score
  total now acc [] = acc
  total now acc (e ∷ es) = total now (plus acc (decay e.risk_points (now - e.timestamp_ns))) es

  unfoldable pub get_risk : RiskRegister → ℕ → String → Score
  unfolding total
  get_risk r now entity_id = elim (lookup string_discrete entity_id r.entries) [
    | none ↦ zero_score
    | some es ↦ total now zero_score es
  ]

  -- `entries[-n:]`, the last n; `entries[-0:]` is the whole list.
  unfoldable pub last_entries : ℕ → List RiskEntry → List RiskEntry
  last_entries n es = if n == 0 then es else drop (length es - n) es

  unfoldable pub append_entry : ℕ → List RiskEntry → RiskEntry → List RiskEntry
  unfolding last_entries
  append_entry n es entry =
      let all = es ++ entry ∷ [] in if ltb n (length all) then last_entries n all else all

  -- `add_risk` without the score that it returns, which is `get_risk` of the new register. `none` is a
  -- StopIteration, which a cap of 0 entities raises.
  unfoldable pub store_risk : RiskRegister → String → RiskEntry → Option RiskRegister
  unfolding append_entry
  store_risk r entity_id entry = elim (lookup string_discrete entity_id r.entries) [
    | some es ↦ some (record r {
      entries =
          insert string_discrete entity_id (append_entry r.max_entries_per_entity es entry)
            (move_to_end string_discrete entity_id es r.entries);
    })
    | none ↦ elim (evict_oldest r.max_entities r.entries r.eviction_count) [
      | none ↦ none
      | some (rest, evictions) ↦ some (record r {
        entries =
            insert string_discrete entity_id (append_entry r.max_entries_per_entity [] entry)
              (insert string_discrete entity_id [] rest);
        eviction_count = evictions;
      })
    ]
  ]

  unfoldable pub add_risk : RiskRegister → ℕ → String → RiskEntry → Option (RiskRegister × Score)
  unfolding store_risk get_risk
  add_risk r now entity_id entry = elim (store_risk r entity_id entry) [
    | none ↦ none
    | some r' ↦ some (r', get_risk r' now entity_id)
  ]

  unfoldable pub check_threshold : RiskRegister → ℕ → String → Bool
  unfolding get_risk
  check_threshold r now entity_id = at_least (get_risk r now entity_id) r.threshold

  unfoldable pub get_entries : RiskRegister → String → List RiskEntry
  get_entries r entity_id = elim (lookup string_discrete entity_id r.entries) [
    | none ↦ []
    | some es ↦ es
  ]

  unfoldable pub bounds : RiskRegister → Bounds
  bounds r = record {
    current = length r.entries;
    cap = r.max_entities;
    evictions = r.eviction_count;
  }
