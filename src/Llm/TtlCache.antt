-- ===== src/Llm/TtlCache.antt =====
-- src/seerflow/llm/explanation/cache.py, rule_suggestion/cache.py and hunt/cache.py: three classes with
-- the same store, an `OrderedDict` from key to value and time of insertion. `now` is what a call of
-- `time.monotonic` returns, in the unit of `ttl_seconds`. Calls are serialised by the source's lock, so
-- each is one step. `on_hit` is what a hit makes of the stored value.
pub mod Store
mod Tests
use seerflow.Base.{
  Bounds, List, Option, String, [], erase, if◌then◌else◌, insert, length, lookup, ltb, move_to_end,
  negsuc, none, pos, some, string_discrete, trim_oldest, ℕ, ℤ, ◌+◌, ◌-◌, ◌==◌,
}

pub record TtlCache (V : Type 0) : Type 0 where
  pub max_entries : ℕ
  pub ttl_seconds : ℕ
  pub store : List (String × (V × ℕ))
  pub eviction_count : ℕ

module _ {V : Type 0} where
  -- `none` is a ValueError.
  unfoldable pub init : ℤ → ℤ → Option (TtlCache V)
  init (negsuc n) ttl = none
  init (pos n) (negsuc m) = none
  init (pos n) (pos m) =
      if ltb m 1
      then none
      else some (record { max_entries = n; ttl_seconds = m; store = []; eviction_count = 0 })

  unfoldable pub get : (V → V) → TtlCache V → ℕ → String → TtlCache V × Option V
  get on_hit c now key = elim (lookup string_discrete key c.store) [
    | none ↦ (c, none)
    | some (v, inserted_at) ↦
        if ltb c.ttl_seconds (now - inserted_at)
        then (
          record c {
            store = erase string_discrete key c.store;
            eviction_count = c.eviction_count + 1;
          },
          none,
        )
        else (
          record c { store = move_to_end string_discrete key (v, inserted_at) c.store },
          some (on_hit v),
        )
  ]

  -- The `move_to_end` of a key that is there, and nothing for one that is not.
  unfoldable pub bump : String → List (String × (V × ℕ)) → List (String × (V × ℕ))
  bump key d = elim (lookup string_discrete key d) [
    | none ↦ d
    | some entry ↦ move_to_end string_discrete key entry d
  ]

  unfoldable pub put : TtlCache V → ℕ → String → V → TtlCache V
  unfolding bump
  put c now key v =
      if c.max_entries == 0
      then c
      else let trimmed =
          trim_oldest c.max_entries (insert string_discrete key (v, now) (bump key c.store))
            c.eviction_count in
        record c { store = trimmed.0; eviction_count = trimmed.1 }

  unfoldable pub delete : TtlCache V → String → TtlCache V
  delete c key = record c { store = erase string_discrete key c.store }

  unfoldable pub clear : TtlCache V → TtlCache V
  clear c = record c { store = [] }

  unfoldable pub bounds : TtlCache V → Bounds
  bounds c = record { current = length c.store; cap = c.max_entries; evictions = c.eviction_count }
