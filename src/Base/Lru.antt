-- ===== src/Base/Lru.antt =====
-- Eviction of the oldest entries of a dictionary in insertion order.
use Prim.Native.Nat.{ℕ, suc, ◌+◌, ◌-◌, ◌≤◌, ◌<◌}
use mathlib.Core.Path.{◌≡◌}
use mathlib.Core.Logic.{ite, inl, inr}
use mathlib.Core.Option.{Option, none, some}
use mathlib.Core.List.{List, [], ◌∷◌, ◌++◌}
use native.Mathlib.Omega.{arith}
use seerflow.Base.Tests.{leb, if◌then◌else◌, Bool-cases}
use seerflow.Base.Lists.{
  length, drop, length-append, length-drop, All-append, All-drop, drop-append,
}
use seerflow.Base.Dict.{
  lookup, insert, erase, move_to_end, IsDict, AllValues, lookup-erase, lookup-append, length-erase,
  erase_absent, erase-IsDict, append-IsDict, insert_absent, insert_last, lookup-erase_self,
  lookup-drop-none, drop-IsDict, AllValues-erase,
}

module _ {ℓ} {A : Type ℓ} where
  -- `while len(d) >= cap: del d[next(iter(d))]; evictions += 1`, with the evictions counted from `n`.
  -- `none` is the StopIteration that `next(iter({}))` raises.
  unfoldable pub evict_oldest : ℕ → List A → ℕ → Option (List A × ℕ)
  evict_oldest cap [] n = if leb cap 0 then none else some ([], n)
  evict_oldest cap (e ∷ d) n =
      let rest = evict_oldest cap d (n + 1) in
      if leb cap (length (e ∷ d)) then rest else some (e ∷ d, n)

  -- `while len(d) > cap: d.popitem(last=False); evictions += 1`
  unfoldable pub trim_oldest : ℕ → List A → ℕ → List A × ℕ
  trim_oldest cap [] n = ([], n)
  trim_oldest cap (e ∷ d) n =
      let rest = trim_oldest cap d (n + 1) in if leb (length (e ∷ d)) cap then (e ∷ d, n) else rest

  drop-zero : {k : ℕ} (d : List A) → k ≡ 0 → drop k d ≡ d
  drop-zero d h = rw h

  drop-suc : {k j : ℕ} (e : A) (d : List A) → k ≡ suc j → drop k (e ∷ d) ≡ drop j d
  drop-suc e d h = rw h

  -- With room for an entry the loop ends, and has dropped just what is too much.
  pub evict_oldest-drop :
      (cap : ℕ) (d : List A) (n : ℕ)
      → 0 < cap
      → evict_oldest cap d n ≡ some (drop (length d + 1 - cap) d, n + (length d + 1 - cap))
  unfolding evict_oldest
  evict_oldest-drop cap [] n h = ground (arith, drop-zero {k = 0 + 1 - cap} [] (omega arith))
  evict_oldest-drop cap (e ∷ d) n h = elim (Bool-cases (leb cap (suc (length d)))) [
    | inl more ↦
        let le : cap ≤ suc (length d) = ground arith in
        rw more (
          ground (
            arith,
            evict_oldest-drop cap d (n + 1) h,
            drop-suc {k = suc (length d) + 1 - cap} {j = length d + 1 - cap} e d (omega arith),
          ))
    | inr done ↦
        let lt : suc (length d) < cap = ground arith in
        rw done (ground (arith, drop-zero {k = suc (length d) + 1 - cap} (e ∷ d) (omega arith)))
  ]

  pub trim_oldest-drop :
      (cap : ℕ) (d : List A) (n : ℕ)
      → trim_oldest cap d n ≡ (drop (length d - cap) d, n + (length d - cap))
  unfolding trim_oldest
  trim_oldest-drop cap [] n = ground (arith, drop-zero {k = 0 - cap} [] (omega arith))
  trim_oldest-drop cap (e ∷ d) n = elim (Bool-cases (leb (suc (length d)) cap)) [
    | inl done ↦
        let le : suc (length d) ≤ cap = ground arith in
        rw done (ground (arith, drop-zero {k = suc (length d) - cap} (e ∷ d) (omega arith)))
    | inr more ↦
        let lt : cap < suc (length d) = ground arith in
        rw more (
          ground (
            arith,
            trim_oldest-drop cap d (n + 1),
            drop-suc {k = suc (length d) - cap} {j = length d - cap} e d (omega arith),
          ))
  ]

-- What a bounded least-recently-used map promises: a write moves the key to the end, and the oldest
-- of the other entries go until there is room.
module _ {ℓ} {K V : Type ℓ} (dec : Discrete K) where
  unfoldable pub excess : ℕ → K → List (K × V) → ℕ
  excess cap k d = length (erase dec k d) + 1 - cap

  unfoldable pub lru_put : ℕ → K → V → List (K × V) → List (K × V)
  unfolding excess
  lru_put cap k v d = drop (excess cap k d) (erase dec k d) ++ (k, v) ∷ []

  pub lru_put-IsDict :
      (cap : ℕ) (k : K) (v : V) (d : List (K × V)) → IsDict dec d → IsDict dec (lru_put cap k v d)
  unfolding lru_put
  lru_put-IsDict cap k v d u =
      let n = excess cap k d in
      append-IsDict dec k v (drop n (erase dec k d))
        (drop-IsDict dec n (erase dec k d) (erase-IsDict dec k d u))
        (lookup-drop-none dec k n (erase dec k d) (lookup-erase_self dec k d))

  pub length-lru_put-le :
      (cap : ℕ) (k : K) (v : V) (d : List (K × V)) → 0 < cap → length (lru_put cap k v d) ≤ cap
  unfolding lru_put excess
  length-lru_put-le cap k v d h = omega (
    arith,
    length-append (drop (excess cap k d) (erase dec k d)) ((k, v) ∷ []),
    length-drop (excess cap k d) (erase dec k d),
  )

  -- The entry just written is the newest, and is there.
  pub lookup-lru_put_self :
      (cap : ℕ) (k : K) (v : V) (d : List (K × V)) → lookup dec k (lru_put cap k v d) ≡ some v
  unfolding lru_put lookup
  lookup-lru_put_self cap k v d =
      let n = excess cap k d in
      ground (
        arith,
        lookup-append dec k (drop n (erase dec k d)) ((k, v) ∷ []),
        lookup-drop-none dec k n (erase dec k d) (lookup-erase_self dec k d),
      )

  -- With room every other entry stays as it was.
  pub lookup-lru_put :
      (cap : ℕ) (k j : K) (v : V) (d : List (K × V))
      → length (erase dec k d) < cap
      → lookup dec j (lru_put cap k v d) ≡ ite (dec k j) (some v) (lookup dec j d)
  unfolding lru_put lookup excess
  lookup-lru_put cap k j v d room = ground (
    arith,
    drop-zero {k = length (erase dec k d) + 1 - cap} (erase dec k d) (omega arith),
    lookup-append dec j (erase dec k d) ((k, v) ∷ []),
    lookup-erase dec k j d,
  )

  -- Writing a key again drops nothing.
  pub excess_old :
      (cap : ℕ) (k : K) (d : List (K × V)) {v : V}
      → IsDict dec d
      → lookup dec k d ≡ some v
      → length d ≤ cap
      → excess cap k d ≡ 0
  unfolding excess
  excess_old cap k d {v} u h le = omega (arith, length-erase dec k d {v = v} u h)

  -- A move to the end, then a write in place.
  pub lru_put_old :
      (cap : ℕ) (k : K) (v w : V) (d : List (K × V))
      → IsDict dec d
      → lookup dec k d ≡ some w
      → length d ≤ cap
      → insert dec k v (move_to_end dec k w d) ≡ lru_put cap k v d
  unfolding lru_put
  lru_put_old cap k v w d u h le = ground (
    arith,
    insert_last dec k v w (erase dec k d) (lookup-erase_self dec k d),
    drop-zero {k = excess cap k d} (erase dec k d) (excess_old cap k d {v = w} u h le),
  )

  -- Room made by dropping the oldest, then a write.
  pub lru_put_new :
      (cap : ℕ) (k : K) (v : V) (d : List (K × V))
      → lookup dec k d ≡ none
      → insert dec k v (drop (length d + 1 - cap) d) ≡ lru_put cap k v d
  unfolding lru_put excess
  lru_put_new cap k v d h =
      rw (erase_absent dec k d h) (insert_absent dec k v _ (lookup-drop-none dec k _ d h))

  pub excess_new :
      (cap : ℕ) (k : K) (d : List (K × V))
      → lookup dec k d ≡ none
      → excess cap k d ≡ length d + 1 - cap
  unfolding excess
  excess_new cap k d h = rw (erase_absent dec k d h)

  -- The same with an entry made first, and written then.
  pub lru_put_fresh :
      (cap : ℕ) (k : K) (v w : V) (d : List (K × V))
      → lookup dec k d ≡ none
      → insert dec k v (insert dec k w (drop (length d + 1 - cap) d)) ≡ lru_put cap k v d
  unfolding lru_put excess
  lru_put_fresh cap k v w d h =
      let rest = drop (length d + 1 - cap) d in
      let absent = lookup-drop-none dec k (length d + 1 - cap) d h in
      rw (erase_absent dec k d h, insert_absent dec k w rest absent)
        (insert_last dec k v w rest absent)

  -- A write at the end, then a trim.
  pub trim_oldest-lru_put :
      (cap : ℕ) (k : K) (v : V) (d : List (K × V)) (n : ℕ)
      → 0 < cap
      → trim_oldest cap (move_to_end dec k v d) n ≡ (lru_put cap k v d, n + excess cap k d)
  unfolding lru_put excess
  trim_oldest-lru_put cap k v d n h =
      let rest = erase dec k d in
      let len = length-append rest ((k, v) ∷ []) in
      let same : length (rest ++ (k, v) ∷ []) - cap ≡ length rest + 1 - cap = omega (arith, len) in
      ground (
        arith,
        same,
        trim_oldest-drop cap (rest ++ (k, v) ∷ []) n,
        drop-append (length rest + 1 - cap) rest ((k, v) ∷ []) (omega arith),
      )

  module _ (P : V → Type ℓ) where
    pub lru_put-AllValues :
        (cap : ℕ) (k : K) (v : V) (d : List (K × V))
        → P v
        → AllValues dec P d
        → AllValues dec P (lru_put cap k v d)
    unfolding lru_put
    lru_put-AllValues cap k v d p h =
        All-append (λ e. P e.1) (drop (excess cap k d) (erase dec k d)) ((k, v) ∷ [])
          (All-drop (λ e. P e.1) (excess cap k d) (erase dec k d) (AllValues-erase dec P k d h))
          (p, tt)
