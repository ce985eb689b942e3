-- ===== src/Base/Dict.antt =====
-- A Python dictionary (or OrderedDict) as an association list in insertion order, oldest first.
-- Equal keys are found by a decision; `IsDict` says that no key stands twice.
use Prim.Native.Nat.{ℕ, zero, suc, ◌+◌, ◌≤◌}
use mathlib.Core.Path.{◌≡◌, refl, ◌∙◌, subst}
use mathlib.Core.Logic.{ite, if_pos, if_neg}
use mathlib.Core.Option.{Option, none, some, some-injective}
use mathlib.Core.List.{List, [], ◌∷◌, ◌++◌, map}
use native.Mathlib.Omega.{arith}
use seerflow.Base.Lists.{length, length-append, drop, All}

module _ {ℓ} {K V : Type ℓ} where
  abbrev pub keys : List (K × V) → List K
  keys = map (λ e. e.0)

  abbrev pub values : List (K × V) → List V
  values = map (λ e. e.1)

module _ {ℓ} {K V : Type ℓ} (dec : Discrete K) where
  -- `d.get(k)`
  unfoldable pub lookup : K → List (K × V) → Option V
  lookup k [] = none
  lookup k ((j, v) ∷ d) = ite (dec k j) (some v) (lookup k d)

  -- `d[k] = v`: in place if the key is there, else at the end.
  unfoldable pub insert : K → V → List (K × V) → List (K × V)
  insert k v [] = (k, v) ∷ []
  insert k v ((j, w) ∷ d) = ite (dec k j) ((j, v) ∷ d) ((j, w) ∷ insert k v d)

  -- `d.pop(k, None)`, and `del d[k]` of a key that is there.
  unfoldable pub erase : K → List (K × V) → List (K × V)
  erase k [] = []
  erase k ((j, w) ∷ d) = ite (dec k j) (erase k d) ((j, w) ∷ erase k d)

  -- The same with the key moved to the end: `d[k] = d.pop(k)` and `d.move_to_end(k)`, with `v` its value.
  abbrev pub move_to_end : K → V → List (K × V) → List (K × V)
  move_to_end k v d = erase k d ++ (k, v) ∷ []

  abbrev pub IsDict : List (K × V) → Type ℓ
  IsDict [] = Unit
  IsDict ((k, v) ∷ d) = (lookup k d ≡ none) × IsDict d

  pub lookup-erase :
      (k j : K) (d : List (K × V)) → lookup j (erase k d) ≡ ite (dec k j) none (lookup j d)
  unfolding lookup erase
  lookup-erase k j [] = ground arith
  lookup-erase k j ((i, w) ∷ d) = ground (arith, lookup-erase k j d)

  pub lookup-insert :
      (k j : K) (v : V) (d : List (K × V))
      → lookup j (insert k v d) ≡ ite (dec k j) (some v) (lookup j d)
  unfolding lookup insert
  lookup-insert k j v [] = ground arith
  lookup-insert k j v ((i, w) ∷ d) = ground (arith, lookup-insert k j v d)

  pub lookup-append :
      (j : K) (d e : List (K × V))
      → lookup j (d ++ e) ≡ (elim (lookup j d) [ none ↦ lookup j e | some v ↦ some v ])
  unfolding lookup
  lookup-append j [] e = refl
  lookup-append j ((i, w) ∷ d) e = ground (arith, lookup-append j d e)

  pub lookup-move_to_end :
      (k j : K) (v : V) (d : List (K × V))
      → lookup j (move_to_end k v d) ≡ ite (dec k j) (some v) (lookup j d)
  unfolding lookup
  lookup-move_to_end k j v d =
      ground (arith, lookup-append j (erase k d) ((k, v) ∷ []), lookup-erase k j d)

  pub erase_absent : (k : K) (d : List (K × V)) → lookup k d ≡ none → erase k d ≡ d
  unfolding lookup erase
  erase_absent k [] h = refl
  erase_absent k ((i, w) ∷ d) h = ground (arith, erase_absent k d)

  pub length-erase-le : (k : K) (d : List (K × V)) → length (erase k d) ≤ length d
  unfolding erase
  length-erase-le k [] = omega arith
  length-erase-le k ((i, w) ∷ d) = ground (arith, length-erase-le k d)

  pub length-erase :
      (k : K) (d : List (K × V)) {v : V}
      → IsDict d
      → lookup k d ≡ some v
      → length (erase k d) + 1 ≡ length d
  unfolding lookup erase
  length-erase k [] u h = cc
  length-erase k ((i, w) ∷ d) {v} u h =
      ground (arith, length-erase k d {v = v} u.1, erase_absent k d)

  pub length-move_to_end :
      (k : K) (w : V) (d : List (K × V)) {v : V}
      → IsDict d
      → lookup k d ≡ some v
      → length (move_to_end k w d) ≡ length d
  length-move_to_end k w d u h =
      omega (arith, length-erase k d u h, length-append (erase k d) ((k, w) ∷ []))

  pub length-insert_new :
      (k : K) (v : V) (d : List (K × V)) → lookup k d ≡ none → length (insert k v d) ≡ length d + 1
  unfolding lookup insert
  length-insert_new k v [] h = omega arith
  length-insert_new k v ((i, w) ∷ d) h = ground (arith, length-insert_new k v d)

  pub length-insert_old :
      (k : K) (v : V) (d : List (K × V)) {w : V}
      → lookup k d ≡ some w
      → length (insert k v d) ≡ length d
  unfolding lookup insert
  length-insert_old k v [] h = cc
  length-insert_old k v ((i, u) ∷ d) {w} h = ground (arith, length-insert_old k v d {w = w})

  pub erase-IsDict : (k : K) (d : List (K × V)) → IsDict d → IsDict (erase k d)
  unfolding erase
  erase-IsDict k [] u = tt
  erase-IsDict k ((i, w) ∷ d) u = ground (arith, erase-IsDict k d u.1, lookup-erase k i d)

  pub insert-IsDict : (k : K) (v : V) (d : List (K × V)) → IsDict d → IsDict (insert k v d)
  unfolding insert lookup
  insert-IsDict k v [] u = (refl, tt)
  insert-IsDict k v ((i, w) ∷ d) u = ground (arith, insert-IsDict k v d u.1, lookup-insert k i v d)

  pub append-IsDict :
      (k : K) (v : V) (d : List (K × V)) → IsDict d → lookup k d ≡ none → IsDict (d ++ (k, v) ∷ [])
  unfolding lookup
  append-IsDict k v [] u h = (refl, tt)
  append-IsDict k v ((i, w) ∷ d) u h =
      ground (arith, append-IsDict k v d u.1, lookup-append i d ((k, v) ∷ []))

  pub move_to_end-IsDict :
      (k : K) (v : V) (d : List (K × V)) → IsDict d → IsDict (move_to_end k v d)
  move_to_end-IsDict k v d u =
      append-IsDict k v (erase k d) (erase-IsDict k d u)
        (lookup-erase k k d ∙ if_pos (dec k k) refl none (lookup k d))

  pub insert_absent :
      (k : K) (v : V) (d : List (K × V)) → lookup k d ≡ none → insert k v d ≡ d ++ (k, v) ∷ []
  unfolding lookup insert
  insert_absent k v [] h = refl
  insert_absent k v ((i, w) ∷ d) h = ground (arith, insert_absent k v d)

  -- A key that stands last is written in its place.
  pub insert_last :
      (k : K) (v w : V) (d : List (K × V))
      → lookup k d ≡ none
      → insert k v (d ++ (k, w) ∷ []) ≡ d ++ (k, v) ∷ []
  unfolding lookup insert
  insert_last k v w [] h = if_pos (dec k k) refl _ _
  insert_last k v w ((i, u) ∷ d) h = ground (arith, insert_last k v w d)

  pub lookup-erase_self : (k : K) (d : List (K × V)) → lookup k (erase k d) ≡ none
  lookup-erase_self k d = lookup-erase k k d ∙ if_pos (dec k k) refl none (lookup k d)

  pub lookup-drop-none :
      (k : K) (n : ℕ) (d : List (K × V)) → lookup k d ≡ none → lookup k (drop n d) ≡ none
  unfolding lookup
  lookup-drop-none k zero d h = h
  lookup-drop-none k (suc n) [] h = h
  lookup-drop-none k (suc n) ((i, w) ∷ d) h = lookup-drop-none k n d (ground arith)

  pub drop-IsDict : (n : ℕ) (d : List (K × V)) → IsDict d → IsDict (drop n d)
  drop-IsDict zero d u = u
  drop-IsDict (suc n) [] u = u
  drop-IsDict (suc n) ((i, w) ∷ d) u = drop-IsDict n d u.1

  -- What a dictionary keeps of its values.
  module _ (P : V → Type ℓ) where
    abbrev pub AllValues : List (K × V) → Type ℓ
    AllValues = All (λ e. P e.1)

    pub AllValues-erase : (k : K) (d : List (K × V)) → AllValues d → AllValues (erase k d)
    unfolding erase
    AllValues-erase k [] h = tt
    AllValues-erase k ((i, w) ∷ d) h = elim (dec k i) [
      | yes p ↦ rw (if_pos _ p) (AllValues-erase k d h.1)
      | no p ↦ rw (if_neg _ p) (h.0, AllValues-erase k d h.1)
    ]

    pub AllValues-insert :
        (k : K) (v : V) (d : List (K × V)) → P v → AllValues d → AllValues (insert k v d)
    unfolding insert
    AllValues-insert k v [] p h = (p, tt)
    AllValues-insert k v ((i, w) ∷ d) p h = elim (dec k i) [
      | yes e ↦ rw (if_pos _ e) (p, h.1)
      | no e ↦ rw (if_neg _ e) (h.0, AllValues-insert k v d p h.1)
    ]

    pub AllValues-lookup :
        (k : K) (d : List (K × V)) {v : V} → AllValues d → lookup k d ≡ some v → P v
    unfolding lookup
    AllValues-lookup k [] h e = absurd (cc)
    AllValues-lookup k ((i, w) ∷ d) {v} h e = elim (dec k i) [
      | yes p ↦ subst P (some-injective w v (ground arith)) h.0
      | no p ↦ AllValues-lookup k d h.1 (ground arith)
    ]
