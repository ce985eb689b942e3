-- ===== src/ThreatIntel/Bloom/Members.antt =====
-- A value that was put in is found.
use seerflow.Base.{
  All, List, String, [], ap, arith, if◌then◌else◌, length, refl, some, some-injective, subst, suc,
  true, values, zero, ℕ, ℕ_discrete, ◌%◌, ◌*◌, ◌+◌, ◌/◌, ◌<◌, ◌==◌, ◌∙◌, ◌∷◌, ◌≡◌, ◌≤◌,
}
use seerflow.ThreatIntel.Bloom.{
  Byte, nth, set_at, zeros, bit_at, set_bit, index_of, set_value, has_bits, set_values, has_value,
  from_values, BloomFilter, byte_size, BloomParams, zero_byte,
}

module _ {ℓ} {A : Type ℓ} where
  length-set_at : (n : ℕ) (y : A) (xs : List A) → length (set_at n y xs) ≡ length xs
  length-set_at n y [] = refl
  length-set_at zero y (x ∷ xs) = refl
  length-set_at (suc n) y (x ∷ xs) = ap suc (length-set_at n y xs)

  nth-set_at :
      (n j : ℕ) (y : A) (xs : List A)
      → n < length xs
      → nth j (set_at n y xs) ≡ (if n == j then some y else nth j xs)
  nth-set_at n j y [] h = absurd (omega arith)
  nth-set_at zero zero y (x ∷ xs) h = refl
  nth-set_at zero (suc j) y (x ∷ xs) h = ground arith
  nth-set_at (suc n) zero y (x ∷ xs) h = ground arith
  nth-set_at (suc n) (suc j) y (x ∷ xs) h = ground (arith, nth-set_at n j y xs (omega arith))

  pub nth-some : (n : ℕ) (xs : List A) → n < length xs → (x : A) × (nth n xs ≡ some x)
  nth-some n [] h = absurd (omega arith)
  nth-some zero (x ∷ xs) h = (x, refl)
  nth-some (suc n) (x ∷ xs) h = nth-some n xs (omega arith)

  pub nth-All {κ} :
      (P : A → Type κ) (n : ℕ) (xs : List A) {x : A} → All P xs → nth n xs ≡ some x → P x
  nth-All P n [] h e = absurd (cc)
  nth-All P zero (y ∷ xs) h e = subst P (some-injective _ _ e) h.0
  nth-All P (suc n) (y ∷ xs) h e = nth-All P n xs h.1 e

  set_at-All {κ} :
      (P : A → Type κ) (n : ℕ) (y : A) (xs : List A) → P y → All P xs → All P (set_at n y xs)
  set_at-All P n y [] p h = tt
  set_at-All P zero y (x ∷ xs) p h = (p, h.1)
  set_at-All P (suc n) y (x ∷ xs) p h = (h.0, set_at-All P n y xs p h.1)

  pub length-zeros : (n : ℕ) (a : A) → length (zeros n a) ≡ n
  length-zeros zero a = refl
  length-zeros (suc n) a = ap suc (length-zeros n a)

  pub zeros-All {κ} : (P : A → Type κ) (n : ℕ) (a : A) → P a → All P (zeros n a)
  zeros-All P zero a p = tt
  zeros-All P (suc n) a p = (p, zeros-All P n a p)

abbrev pub IsBytes : List Byte → Type 0
IsBytes = All (λ b. length b ≡ 8)

-- No bit that was set is lost.
pub record IsGrown (old new : List Byte) : Type 0 where
  pub bytes : IsBytes new
  pub same_length : length new ≡ length old
  pub kept : (j : ℕ) → bit_at j old ≡ some true → bit_at j new ≡ some true

set_bit-IsGrown :
    (idx : ℕ) (bits : List Byte)
    → IsBytes bits
    → idx < 8 * length bits
    → (bits' : List Byte) × (set_bit idx bits ≡ some bits')
      × IsGrown bits bits'
      × (bit_at idx bits' ≡ some true)
unfolding set_bit bit_at
set_bit-IsGrown idx bits v small =
    let (byte, found) = nth-some (idx / 8) bits (omega arith) in
    let eight : length byte ≡ 8 = nth-All (λ b. length b ≡ 8) (idx / 8) bits v found in
    let byte' = set_at (idx % 8) true byte in
    let in_byte : idx % 8 < length byte = omega arith in
    (
      set_at (idx / 8) byte' bits,
      ground arith,
      record {
        bytes =
            set_at-All (λ b. length b ≡ 8) (idx / 8) byte' bits
              (length-set_at (idx % 8) true byte ∙ eight) v;
        same_length = length-set_at (idx / 8) byte' bits;
        kept = λ j was. ground (
          arith,
          nth-set_at (idx / 8) (j / 8) byte' bits (omega arith),
          nth-set_at (idx % 8) (j % 8) true byte in_byte,
        );
      },
      ground (
        arith,
        nth-set_at (idx / 8) (idx / 8) byte' bits (omega arith),
        nth-set_at (idx % 8) (idx % 8) true byte in_byte,
      ),
    )

IsGrown-trans : (a b c : List Byte) → IsGrown a b → IsGrown b c → IsGrown a c
IsGrown-trans a b c g h = record {
  bytes = h.bytes;
  same_length = h.same_length ∙ g.same_length;
  kept = λ j was. h.kept j (g.kept j was);
}

-- The bits of the hashes from `i` on, `left` of them, are set.
abbrev pub HasAll : ℕ → ℕ × ℕ → ℕ → ℕ → List Byte → Type 0
HasAll m h i left bits = (j : ℕ) → i ≤ j → j < i + left → bit_at (index_of m h j) bits ≡ some true

HasAll-grown :
    (m : ℕ) (h : ℕ × ℕ) (i left : ℕ) (a b : List Byte)
    → IsGrown a b
    → HasAll m h i left a
    → HasAll m h i left b
HasAll-grown m h i left a b g all j lo hi = g.kept (index_of m h j) (all j lo hi)

HasAll-more :
    (m : ℕ) (h : ℕ × ℕ) (i left : ℕ) (bits : List Byte)
    → bit_at (index_of m h i) bits ≡ some true
    → HasAll m h (i + 1) left bits
    → HasAll m h i (suc left) bits
HasAll-more m h i left bits first later j lo hi = elim (ℕ_discrete i j) [
  | yes same ↦ rw (← same) first
  | no differ ↦ later j (ground arith) (omega arith)
]

-- The bit array is large enough for indices below `m`.
abbrev pub Fits : ℕ → List Byte → Type 0
Fits m bits = IsBytes bits × (0 < m) × (m ≤ 8 * length bits)

pub Fits-grown : (m : ℕ) (a b : List Byte) → IsGrown a b → Fits m a → Fits m b
Fits-grown m a b g (bytes, some_bit, size) = (g.bytes, some_bit, omega (arith, g.same_length))

pub index_of-lt : (m : ℕ) (h : ℕ × ℕ) (i : ℕ) → 0 < m → index_of m h i < m
unfolding index_of
index_of-lt m (h1, h2) i some_bit = omega arith

set_value-HasAll :
    (m : ℕ) (h : ℕ × ℕ) (i left : ℕ) (bits : List Byte)
    → Fits m bits
    → (bits' : List Byte) × (set_value m h i left bits ≡ some bits')
      × IsGrown bits bits'
      × HasAll m h i left bits'
unfolding set_value
set_value-HasAll m h i zero bits v = (
  bits,
  refl,
  record { bytes = v.0; same_length = refl; kept = λ j was. was },
  λ j lo hi. absurd (omega arith),
)
set_value-HasAll m h i (suc left) bits v =
    let (mid, set, grown, here) =
      set_bit-IsGrown (index_of m h i) bits v.0 (omega (arith, index_of-lt m h i v.1, v.2)) in
    let (end, rest, grown', all) =
      set_value-HasAll m h (i + 1) left mid (Fits-grown m bits mid grown v) in
    (
      end,
      ground arith,
      IsGrown-trans bits mid end grown grown',
      HasAll-more m h i left end (grown'.kept (index_of m h i) here) all,
    )

has_bits-HasAll :
    (m : ℕ) (h : ℕ × ℕ) (i left : ℕ) (bits : List Byte)
    → HasAll m h i left bits
    → has_bits m h i left bits ≡ some true
unfolding has_bits
has_bits-HasAll m h i zero bits all = refl
has_bits-HasAll m h i (suc left) bits all = ground (
  arith,
  all i (omega arith) (omega arith),
  has_bits-HasAll m h (i + 1) left bits (λ j lo hi. all j (omega arith) (omega arith)),
)

module _ (hash_pair : String → ℕ × ℕ) where
  pub set_values-HasAll :
      (m k : ℕ) (values : List String) (bits : List Byte)
      → Fits m bits
      → (bits' : List Byte) × (set_values hash_pair m k values bits ≡ some bits')
        × IsGrown bits bits'
        × All (λ v. HasAll m (hash_pair v) 0 k bits') values
  unfolding set_values
  set_values-HasAll m k [] bits v =
      (bits, refl, record { bytes = v.0; same_length = refl; kept = λ j was. was }, tt)
  set_values-HasAll m k (x ∷ xs) bits v =
      let (mid, set, grown, here) = set_value-HasAll m (hash_pair x) 0 k bits v in
      let (end, rest, grown', all) = set_values-HasAll m k xs mid (Fits-grown m bits mid grown v) in
      (
        end,
        ground arith,
        IsGrown-trans bits mid end grown grown',
        (HasAll-grown m (hash_pair x) 0 k mid end grown' here, all),
      )

  pub All-found :
      (f : BloomFilter) (values : List String)
      → All (λ v. HasAll f.m (hash_pair v) 0 f.k f.bits) values
      → All (λ v. has_value hash_pair f v ≡ some true) values
  unfolding has_value
  All-found f [] h = tt
  All-found f (v ∷ vs) h = (has_bits-HasAll f.m (hash_pair v) 0 f.k f.bits h.0, All-found f vs h.1)

  -- A filter of at least one bit is built without an IndexError, and finds every value that it was
  -- built from: it has no false negatives.
  pub from_values-has_value :
      (values : List String) (params : BloomParams)
      → 0 < params.bit_count
      → (f : BloomFilter) × (from_values hash_pair values params ≡ some f)
        × All (λ v. has_value hash_pair f v ≡ some true) values
  unfolding from_values byte_size
  from_values-has_value values params some_bit =
      let size = byte_size params in
      let empty = zeros size zero_byte in
      let fits : Fits params.bit_count empty = (
        zeros-All (λ b. length b ≡ 8) size zero_byte refl,
        some_bit,
        omega (arith, length-zeros size zero_byte),
      ) in
      let (bits, built, grown, all) =
        set_values-HasAll params.bit_count params.hash_count values empty fits in
      let f : BloomFilter = record { bits = bits; m = params.bit_count; k = params.hash_count } in
      (f, ground arith, All-found f values all)
