-- ===== src/Correlation/Risk/Tests.antt =====
-- The risk register over whole numbers, with points divided by one more than the age.
use native.Mathlib.Nat.{le_refl}
use seerflow.Base.{
  [], arith, evict_oldest, insert, leb, lookup, refl, some, string_discrete, true, ℕ, ◌+◌, ◌-◌, ◌∷◌,
  ◌≡◌, ◌≤◌,
}
use seerflow.Correlation.Risk.{
  Scores, IsDecaying, RiskEntry, RiskRegister, append_entry, add_risk, get_risk,
}
use seerflow.Correlation.Risk.Invariant.{IsValid, after_risk, add_risk-after_risk}

abbrev whole : Scores
whole = record {
  Score = ℕ;
  zero_score = 0;
  plus = λ a b. a + b;
  decay = λ p age. p - age;
  at_least = λ a t. leb t a;
  Below = λ a b. a ≤ b;
}

sub_mono : (p a b : ℕ) → a ≤ b → p - b ≤ p - a
sub_mono p a b h = omega arith

add_mono : (a b c d : ℕ) → a ≤ b → c ≤ d → a + c ≤ b + d
add_mono a b c d h k = omega arith

leb_mono : (a b t : ℕ) → a ≤ b → leb t a ≡ true → leb t b ≡ true
leb_mono a b t h k = ground arith

abbrev whole_laws : IsDecaying whole
whole_laws = record {
  below_refl = le_refl;
  decay_mono = sub_mono;
  plus_mono = add_mono;
  at_least_mono = leb_mono;
}

abbrev entry : ℕ → ℕ → RiskEntry whole
entry t points = record {
  timestamp_ns = t;
  risk_points = points;
  source = "sigma";
  rule_name = "r";
  mitre_tactics = [];
  mitre_techniques = [];
}

abbrev empty : RiskRegister whole
empty = record {
  threshold = 40;
  max_entities = 2;
  max_entries_per_entity = 2;
  entries = [];
  eviction_count = 0;
}

abbrev one : RiskRegister whole
one = record empty { entries = ("a", entry 5 30 ∷ []) ∷ [] }

adds : add_risk whole empty 10 "a" (entry 5 30) ≡ some (one, 25)
unfolding add_risk append_entry lookup insert evict_oldest string_discrete
adds = refl

empty-IsValid : IsValid empty
empty-IsValid = record { unique = tt; entities = omega arith; entries_fit = tt }

add_risk-after_risk_example :
    let r = after_risk empty "a" (entry 5 30) in
    (add_risk whole empty 10 "a" (entry 5 30) ≡ some (r, get_risk whole r 10 "a")) × IsValid r
add_risk-after_risk_example =
    add_risk-after_risk empty 10 "a" (entry 5 30) empty-IsValid (omega arith) (omega arith)
