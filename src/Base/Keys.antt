-- ===== src/Base/Keys.antt =====
-- Dictionaries whose keys come from a known list.
use Prim.Native.Nat.{ℕ, ◌+◌, ◌-◌, ◌≤◌, ◌<◌}
use Prim.Native.String.{String}
use mathlib.Core.Path.{◌≡◌, refl}
use mathlib.Core.Logic.{ite, inl, inr}
use mathlib.Core.Bool.{true, false}
use mathlib.Core.Option.{none, some}
use mathlib.Core.List.{List, [], ◌∷◌}
use native.Mathlib.Omega.{arith}
use seerflow.Base.Tests.{string_discrete, if◌then◌else◌, leb, Option-cases, Bool-cases}
use seerflow.Base.Lists.{length, length-append, drop}
use seerflow.Base.Texts.{contains}
use seerflow.Base.Dict.{
  lookup, insert, erase, move_to_end, length-insert_new, length-insert_old, IsDict, lookup-erase,
  lookup-move_to_end, erase-IsDict, length-erase, erase_absent, move_to_end-IsDict,
}
use seerflow.Base.Lru.{lru_put, lookup-lru_put}

-- What a map with room for one entry more drops: the oldest entry, if it is full.
pub drop_full {ℓ} :
    {A : Type ℓ} (cap : ℕ) (d : List A)
    → length d ≤ cap
    → (if leb cap (length d) then drop 1 d else d) ≡ drop (length d + 1 - cap) d
drop_full cap d h = elim (Bool-cases (leb cap (length d))) [
  | inl full ↦ let one_over : length d + 1 - cap ≡ 1 = ground arith in rw (full, one_over) (refl)
  | inr spare ↦
      let none_over : length d + 1 - cap ≡ 0 = ground arith in rw (spare, none_over) (refl)
]

pub length-insert-le :
    {V : Type 0} (k : String) (v : V) (d : List (String × V))
    → length (insert string_discrete k v d) ≤ length d + 1
length-insert-le k v d = elim (Option-cases (lookup string_discrete k d)) [
  | inl e ↦ omega (arith, length-insert_new string_discrete k v d e)
  | inr (w, e) ↦ omega (arith, length-insert_old string_discrete k v d e)
]

module _ {V : Type 0} where
  abbrev pub Within : List String → List (String × V) → Type 0
  Within known d = (k : String) → contains k known ≡ false → lookup string_discrete k d ≡ none

  length-erase-ge :
      (k : String) (d : List (String × V))
      → IsDict string_discrete d
      → length d ≤ length (erase string_discrete k d) + 1
  length-erase-ge k d u = elim (Option-cases (lookup string_discrete k d)) [
    | inl e ↦ rw (erase_absent string_discrete k d e) (omega arith)
    | inr (v, e) ↦ omega (arith, length-erase string_discrete k d u e)
  ]

  erase-Within :
      (x : String) (known : List String) (d : List (String × V))
      → Within (x ∷ known) d
      → Within known (erase string_discrete x d)
  unfolding contains
  erase-Within x known d h k out = ground (arith, h k, lookup-erase string_discrete x k d)

  -- Distinct keys are no more than the known ones.
  pub length-Within :
      (known : List String) (d : List (String × V))
      → IsDict string_discrete d
      → Within known d
      → length d ≤ length known
  unfolding lookup contains
  length-Within [] [] u h = omega arith
  length-Within [] ((k, v) ∷ d) u h = absurd (ground (arith, h k refl))
  length-Within (x ∷ known) d u h = omega (
    arith,
    length-erase-ge x d u,
    length-Within known (erase string_discrete x d) (erase-IsDict string_discrete x d u)
        (erase-Within x known d h),
  )

  -- With as much room as there are known keys, a write drops nothing.
  module _ (known : List String) (cap : ℕ) (k : String) (v : V) (d : List (String × V))
      (u : IsDict string_discrete d) (h : Within known d) (is_known : contains k known ≡ true)
      (fits : length known ≤ cap) where
    move_to_end-Within : Within known (move_to_end string_discrete k v d)
    move_to_end-Within j out = ground (arith, h j out, lookup-move_to_end string_discrete k j v d)

    pub room_for : length (erase string_discrete k d) < cap
    room_for = omega (
      arith,
      length-Within known (move_to_end string_discrete k v d)
          (move_to_end-IsDict string_discrete k v d u) move_to_end-Within,
      length-append (erase string_discrete k d) ((k, v) ∷ []),
    )

    pub lookup-lru_put_known :
        (j : String)
        → lookup string_discrete j (lru_put string_discrete cap k v d)
          ≡ ite (string_discrete k j) (some v) (lookup string_discrete j d)
    lookup-lru_put_known j = lookup-lru_put string_discrete cap k j v d room_for

    pub lru_put-Within : Within known (lru_put string_discrete cap k v d)
    lru_put-Within j out = ground (arith, h j out, lookup-lru_put_known j)
