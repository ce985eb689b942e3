-- ===== src/ThreatIntel/Bloom/Tests.antt =====
-- A filter of ten bits with two hashes.
use seerflow.Base.{String, [], false, if◌then◌else◌, refl, some, text_eq, true, ℕ, ◌∷◌, ◌≡◌}
use seerflow.ThreatIntel.Bloom.{BloomParams, BloomFilter, from_values, has_value}

abbrev hash_pair : String → ℕ × ℕ
hash_pair v = if text_eq v "a" then (3, 5) else (11, 6)

abbrev params : BloomParams
params = record { bit_count = 10; hash_count = 2 }

abbrev filter : BloomFilter
filter = record {
  bits =
      (false ∷ false ∷ false ∷ true ∷ false ∷ false ∷ false ∷ false ∷ [])
      ∷ (true ∷ false ∷ false ∷ false ∷ false ∷ false ∷ false ∷ false ∷ [])
      ∷ [];
  m = 10;
  k = 2;
}

builds : from_values hash_pair ("a" ∷ []) params ≡ some filter
unfolding from_values
builds = refl

misses : has_value hash_pair filter "b" ≡ some false
unfolding has_value
misses = refl
