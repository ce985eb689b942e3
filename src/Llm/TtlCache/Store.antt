-- ===== src/Llm/TtlCache/Store.antt =====
-- The cache against a bounded least-recently-used map.
use seerflow.Base.{
  Bool-cases, IsDict, List, Option-cases, String, [], arith, erase, erase-IsDict, erase_absent,
  excess, inl, inr, insert, insert_absent, insert_last, length, length-erase-le, length-lru_put-le,
  length-move_to_end, lookup, lookup-erase_self, lookup-lru_put, lookup-lru_put_self, lru_put,
  lru_put-IsDict, ltb, move_to_end, move_to_end-IsDict, negsuc, none, pos, refl, some,
  string_discrete, subst, sym, trim_oldest, trim_oldest-lru_put, true, ℕ, ℤ, ◌+◌, ◌-◌, ◌<◌, ◌==◌,
  ◌∙◌, ◌∷◌, ◌≡◌, ◌≢◌, ◌≤◌,
}
use seerflow.Llm.TtlCache.{TtlCache, bump, put, init, get, delete, clear}

module _ {V : Type 0} where
  pub record IsValid (c : TtlCache V) : Type 0 where
    pub unique : IsDict string_discrete c.store
    pub entries : length c.store ≤ c.max_entries

  -- An enabled cache after a write.
  unfoldable pub after_put : TtlCache V → ℕ → String → V → TtlCache V
  after_put c now key v = record c {
    store = lru_put string_discrete c.max_entries key (v, now) c.store;
    eviction_count = c.eviction_count + excess string_discrete c.max_entries key c.store;
  }

  bump-insert :
      (key : String) (e : V × ℕ) (d : List (String × (V × ℕ)))
      → insert string_discrete key e (bump key d) ≡ move_to_end string_discrete key e d
  unfolding bump
  bump-insert key e d = elim (Option-cases (lookup string_discrete key d)) [
    | inl new ↦
        ground
          (arith, insert_absent string_discrete key e d new, erase_absent string_discrete key d new)
    | inr (old, found) ↦ ground (
      arith,
      insert_last string_discrete key e old (erase string_discrete key d)
          (lookup-erase_self string_discrete key d),
    )
  ]

  -- On a cache that is not disabled `put` is the write of a bounded least-recently-used map, with the
  -- entries dropped counted.
  pub put-after_put :
      (c : TtlCache V) (now : ℕ) (key : String) (v : V)
      → 0 < c.max_entries
      → put c now key v ≡ after_put c now key v
  unfolding put after_put
  put-after_put c now key v room =
      let trimmed : put c now key v ≡ record c {
        store =
            (trim_oldest c.max_entries (move_to_end string_discrete key (v, now) c.store)
              c.eviction_count).0;
        eviction_count =
            (trim_oldest c.max_entries (move_to_end string_discrete key (v, now) c.store)
              c.eviction_count).1;
      } =
        ground (arith, bump-insert key (v, now) c.store) in
      trimmed
      ∙ rw
          (trim_oldest-lru_put string_discrete c.max_entries key (v, now) c.store c.eviction_count
            room)
          refl

module _ {V : Type 0} where
  -- A disabled cache ignores writes.
  pub put_disabled :
      (c : TtlCache V) (now : ℕ) (key : String) (v : V)
      → (c.max_entries == 0) ≡ true
      → put c now key v ≡ c
  unfolding put
  put_disabled c now key v off = rw off refl

-- A call of the cache, at a time.
pub data Call (V : Type 0) : Type 0 where
  gets : String → Call V
  puts : String → V → Call V
  deletes : String → Call V
  clears : Call V

module _ {V : Type 0} where
  init-IsValid : (n m : ℤ) (c : TtlCache V) → init n m ≡ some c → IsValid c
  unfolding init
  init-IsValid (negsuc n) m c h = cc
  init-IsValid (pos n) (negsuc m) c h = cc
  init-IsValid (pos n) (pos m) c h = ground arith

  no_entry :
      (d : List (String × (V × ℕ))) (key : String)
      → length d ≤ 0
      → lookup string_discrete key d ≡ none
  unfolding lookup
  no_entry [] key h = refl
  no_entry (e ∷ d) key h = absurd (omega arith)

module _ {V : Type 0} (on_hit : V → V) where
  unfoldable pub step : TtlCache V → ℕ × Call V → TtlCache V
  step c (now, gets key) = (get on_hit c now key).0
  step c (now, puts key v) = put c now key v
  step c (now, deletes key) = delete c key
  step c (now, clears) = clear c

  unfoldable pub run : TtlCache V → List (ℕ × Call V) → TtlCache V
  unfolding step
  run c [] = c
  run c (call ∷ calls) = run (step c call) calls

  get-IsValid :
      (c : TtlCache V) (now : ℕ) (key : String) → IsValid c → IsValid (get on_hit c now key).0
  unfolding get
  get-IsValid c now key v = elim (Option-cases (lookup string_discrete key c.store)) [
    | inl e ↦ rw (e, get) v
    | inr ((x, t), e) ↦ elim (Bool-cases (ltb c.ttl_seconds (now - t))) [
      | inl old ↦
          rw (e, old, get)
            (record {
              unique = erase-IsDict string_discrete key c.store v.unique;
              entries = omega (arith, v.entries, length-erase-le string_discrete key c.store);
            })
      | inr fresh ↦
          rw (e, fresh, get)
            (record {
              unique = move_to_end-IsDict string_discrete key (x, t) c.store v.unique;
              entries = omega (
                arith,
                v.entries,
                length-move_to_end string_discrete key (x, t) c.store {v = (x, t)} v.unique e,
              );
            })
    ]
  ]

  put-IsValid :
      (c : TtlCache V) (now : ℕ) (key : String) (x : V) → IsValid c → IsValid (put c now key x)
  put-IsValid c now key x v = elim (Bool-cases (c.max_entries == 0)) [
    | inl off ↦ subst IsValid (sym (put_disabled c now key x off)) v
    | inr on ↦
        let room : 0 < c.max_entries = ground arith in
        subst IsValid (sym (put-after_put c now key x room)) (
          unfold after_put in
          record {
            unique = lru_put-IsDict string_discrete c.max_entries key (x, now) c.store v.unique;
            entries = length-lru_put-le string_discrete c.max_entries key (x, now) c.store room;
          })
  ]

  step-IsValid : (c : TtlCache V) (call : ℕ × Call V) → IsValid c → IsValid (step c call)
  unfolding step delete clear
  step-IsValid c (now, gets key) v = get-IsValid c now key v
  step-IsValid c (now, puts key x) v = put-IsValid c now key x v
  step-IsValid c (now, deletes key) v = record {
    unique = erase-IsDict string_discrete key c.store v.unique;
    entries = omega (arith, v.entries, length-erase-le string_discrete key c.store);
  }
  step-IsValid c (now, clears) v = record { unique = tt; entries = omega arith }

  run_keeps : (c : TtlCache V) (calls : List (ℕ × Call V)) → IsValid c → IsValid (run c calls)
  unfolding run
  run_keeps c [] v = v
  run_keeps c (call ∷ calls) v = run_keeps (step c call) calls (step-IsValid c call v)

  -- After any calls on a new cache no key stands twice, and there are no more entries than the cap.
  pub run-IsValid :
      (n m : ℤ) (c : TtlCache V) (calls : List (ℕ × Call V))
      → init n m ≡ some c
      → IsValid (run c calls)
  run-IsValid n m c calls started = run_keeps c calls (init-IsValid n m c started)

  -- A hit within the time to live returns the value last written, marked, on a cache not disabled.
  pub get-put :
      (c : TtlCache V) (now later : ℕ) (key : String) (v : V)
      → 0 < c.max_entries
      → later ≤ now + c.ttl_seconds
      → (get on_hit (put c now key v) later key).1 ≡ some (on_hit v)
  unfolding get after_put
  get-put c now later key v room fresh =
      rw (put-after_put c now key v room)
        (ground (arith, lookup-lru_put_self string_discrete c.max_entries key (v, now) c.store))

  -- A write with room for one entry more changes no answer for another key.
  pub get-put_ne :
      (c : TtlCache V) (now later : ℕ) (key other : String) (v : V)
      → length c.store < c.max_entries
      → key ≢ other
      → (get on_hit (put c now key v) later other).1 ≡ (get on_hit c later other).1
  unfolding get after_put
  get-put_ne c now later key other v room ne = rw (put-after_put c now key v (omega arith)) (
      ground (
        arith,
        lookup-lru_put string_discrete c.max_entries key other (v, now) c.store
            (omega (arith, length-erase-le string_discrete key c.store)),
      ))

  -- An entry older than the time to live is a miss: it is deleted and counted.
  pub get_expired :
      (c : TtlCache V) (now at : ℕ) (key : String) (v : V)
      → lookup string_discrete key c.store ≡ some (v, at)
      → at + c.ttl_seconds < now
      → ((get on_hit c now key).1 ≡ none)
        × (lookup string_discrete key (get on_hit c now key).0.store ≡ none)
        × ((get on_hit c now key).0.eviction_count ≡ c.eviction_count + 1)
  unfolding get
  get_expired c now at key v found old =
      ground (arith, lookup-erase_self string_discrete key c.store)

  -- A disabled cache answers nothing.
  pub get_disabled :
      (c : TtlCache V) (now : ℕ) (key : String)
      → IsValid c
      → c.max_entries ≡ 0
      → get on_hit c now key ≡ (c, none)
  unfolding get
  get_disabled c now key v off = ground (arith, no_entry c.store key)
