-- ===== src/ThreatIntel/Bloom/Answers.antt =====
-- A filter that was built answers every question.
use seerflow.Base.{
  All, List, String, arith, length, none, refl, some, suc, true, values, zero, ℕ, ◌%◌, ◌*◌, ◌+◌,
  ◌/◌, ◌<◌, ◌≡◌, ◌≢◌,
}
use seerflow.ThreatIntel.Bloom.{
  Byte, BloomFilter, BloomParams, bit_at, index_of, has_bits, has_value, from_values, byte_size,
  zeros, zero_byte,
}
use seerflow.ThreatIntel.Bloom.Members.{
  Fits, IsBytes, nth-some, nth-All, length-zeros, zeros-All, Fits-grown, index_of-lt,
  set_values-HasAll, All-found,
}

bit_at-ne-none :
    (idx : ℕ) (bits : List Byte) → IsBytes bits → idx < 8 * length bits → bit_at idx bits ≢ none
unfolding bit_at
bit_at-ne-none idx bits v small =
    let (byte, found) = nth-some (idx / 8) bits (omega arith) in
    let eight : length byte ≡ 8 = nth-All (λ b. length b ≡ 8) (idx / 8) bits v found in
    let (bit, there) = nth-some (idx % 8) byte (omega arith) in ground arith

has_bits-ne-none :
    (m : ℕ) (h : ℕ × ℕ) (i left : ℕ) (bits : List Byte)
    → Fits m bits
    → has_bits m h i left bits ≢ none
unfolding has_bits
has_bits-ne-none m h i zero bits v = cc
has_bits-ne-none m h i (suc left) bits v =
    let small : index_of m h i < 8 * length bits = omega (arith, index_of-lt m h i v.1) in
    ground (
      arith,
      bit_at-ne-none (index_of m h i) bits v.0 small,
      has_bits-ne-none m h (i + 1) left bits v,
    )

module _ (hash_pair : String → ℕ × ℕ) where
  -- A filter of at least one bit is built, finds every value that it was built from, and answers for
  -- every other value too.
  pub from_values-answers :
      (values : List String) (params : BloomParams)
      → 0 < params.bit_count
      → (f : BloomFilter) × (from_values hash_pair values params ≡ some f)
        × All (λ v. has_value hash_pair f v ≡ some true) values
        × ((v : String) → has_value hash_pair f v ≢ none)
  unfolding from_values byte_size has_value
  from_values-answers values params some_bit =
      let size = byte_size params in
      let empty = zeros size zero_byte in
      let fits : Fits params.bit_count empty = (
        zeros-All (λ b. length b ≡ 8) size zero_byte refl,
        some_bit,
        omega (arith, length-zeros size zero_byte),
      ) in
      let (bits, built, grown, all) =
        set_values-HasAll hash_pair params.bit_count params.hash_count values empty fits in
      let f : BloomFilter = record { bits = bits; m = params.bit_count; k = params.hash_count } in
      (
        f,
        ground arith,
        All-found hash_pair f values all,
        λ v.
            has_bits-ne-none params.bit_count (hash_pair v) 0 params.hash_count bits
              (Fits-grown params.bit_count empty bits grown fits),
      )
