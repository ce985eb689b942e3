-- ===== src/ThreatIntel/Bloom.antt =====
-- src/seerflow/threat_intel/_bloom.py, `BloomParams` and `_BloomFilter`. A byte is the list of its
-- eight bits, the least first. The pair of hashes, blake2b of the value, is a parameter, and so are
-- the counts of bits and of hashes, at least 1, which `BloomParams` computes by logarithms.
pub mod Members
pub mod Answers
mod Tests
use seerflow.Base.{
  Bool, List, Option, String, [], false, if◌then◌else◌, none, some, suc, true, values, zero, ℕ, ◌%◌,
  ◌*◌, ◌+◌, ◌/◌, ◌∷◌,
}

abbrev pub Byte : Type 0
Byte = List Bool

pub record BloomParams : Type 0 where
  pub bit_count : ℕ
  pub hash_count : ℕ

-- `math.ceil(bit_count / 8)`
unfoldable pub byte_size : BloomParams → ℕ
byte_size p = (p.bit_count + 7) / 8

pub record BloomFilter : Type 0 where
  pub bits : List Byte
  pub m : ℕ
  pub k : ℕ

abbrev pub nth {ℓ} : {A : Type ℓ} → ℕ → List A → Option A
nth n [] = none
nth zero (x ∷ xs) = some x
nth (suc n) (x ∷ xs) = nth n xs

abbrev pub set_at {ℓ} : {A : Type ℓ} → ℕ → A → List A → List A
set_at n y [] = []
set_at zero y (x ∷ xs) = y ∷ xs
set_at (suc n) y (x ∷ xs) = x ∷ set_at n y xs

abbrev pub zeros {ℓ} : {A : Type ℓ} → ℕ → A → List A
zeros zero a = []
zeros (suc n) a = a ∷ zeros n a

abbrev pub zero_byte : Byte
zero_byte = zeros 8 false

-- `(bits[idx >> 3] >> (idx & 7)) & 1`; `none` is an IndexError.
unfoldable pub bit_at : ℕ → List Byte → Option Bool
bit_at idx bits = elim (nth (idx / 8) bits) [ none ↦ none | some byte ↦ nth (idx % 8) byte ]

-- `bits[idx >> 3] |= 1 << (idx & 7)`
unfoldable pub set_bit : ℕ → List Byte → Option (List Byte)
set_bit idx bits = elim (nth (idx / 8) bits) [
  | none ↦ none
  | some byte ↦ some (set_at (idx / 8) (set_at (idx % 8) true byte) bits)
]

unfoldable pub index_of : ℕ → ℕ × ℕ → ℕ → ℕ
index_of m (h1, h2) i = (h1 + i * h2) % m

-- The loop of `_set` from the hash `i` on, with `left` hashes left.
unfoldable pub set_value : ℕ → ℕ × ℕ → ℕ → ℕ → List Byte → Option (List Byte)
unfolding index_of set_bit
set_value m h i zero bits = some bits
set_value m h i (suc left) bits = elim (set_bit (index_of m h i) bits) [
  | none ↦ none
  | some bits' ↦ set_value m h (i + 1) left bits'
]

-- The loop of `__contains__`.
unfoldable pub has_bits : ℕ → ℕ × ℕ → ℕ → ℕ → List Byte → Option Bool
unfolding bit_at index_of
has_bits m h i zero bits = some true
has_bits m h i (suc left) bits =
    let rest = has_bits m h (i + 1) left bits in
    elim (bit_at (index_of m h i) bits) [
      | none ↦ none
      | some bit ↦ if bit then rest else some false
    ]

module _ (hash_pair : String → ℕ × ℕ) where
  unfoldable pub set_values : ℕ → ℕ → List String → List Byte → Option (List Byte)
  unfolding set_value
  set_values m k [] bits = some bits
  set_values m k (v ∷ vs) bits = elim (set_value m (hash_pair v) 0 k bits) [
    | none ↦ none
    | some bits' ↦ set_values m k vs bits'
  ]

  unfoldable pub from_values : List String → BloomParams → Option BloomFilter
  unfolding set_values byte_size
  from_values values params =
      elim (set_values params.bit_count params.hash_count values
        (zeros (byte_size params) zero_byte)) [
          | none ↦ none
          | some bits ↦ some (record { bits = bits; m = params.bit_count; k = params.hash_count })
        ]

  unfoldable pub has_value : BloomFilter → String → Option Bool
  unfolding has_bits
  has_value f value = has_bits f.m (hash_pair value) 0 f.k f.bits
