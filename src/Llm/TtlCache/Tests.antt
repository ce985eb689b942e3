-- ===== src/Llm/TtlCache/Tests.antt =====
-- A cache of two entries that live for 10.
use text.Mathlib.TextEquality.{eq_iff}
use seerflow.Base.{
  List, String, [], arith, erase, insert, lookup, pos, refl, some, string_discrete, trim_oldest, ℕ,
  ◌+◌, ◌∷◌, ◌≡◌, ◌≢◌,
}
use seerflow.Llm.TtlCache.{TtlCache, init, get, put, delete}
use seerflow.Llm.TtlCache.Store.{Call, gets, puts, run, put-after_put, after_put}

program : Unit {0}
unfolding init get put delete run lookup insert erase trim_oldest string_discrete
program = tt

abbrev empty : TtlCache ℕ
empty = record { max_entries = 2; ttl_seconds = 10; store = []; eviction_count = 0 }

abbrev one : TtlCache ℕ
one = record empty { store = ("a", (7, 0)) ∷ [] }

abbrev hit : ℕ → ℕ
hit v = v + 100

abbrev calls : List (ℕ × Call ℕ)
calls = (0, puts "a" 7) ∷ (1, puts "b" 8) ∷ (2, gets "a") ∷ (3, puts "c" 9) ∷ []

-- "b" is the least recently used when "c" comes.
evicts : (run hit empty calls).store ≡ ("a", (7, 0)) ∷ ("c", (9, 3)) ∷ []
unfolding program
evicts = refl

starts : init (pos 2) (pos 10) ≡ some empty
unfolding program
starts = refl

put-after_put_example : put empty 0 "a" 7 ≡ after_put empty 0 "a" 7
put-after_put_example = put-after_put empty 0 "a" 7 (omega arith)

other_key : ◌≢◌ {A = String} "b" "a"
other_key = ground (arith, eq_iff "b" "a")

found : lookup string_discrete "a" one.store ≡ some (7, 0)
unfolding program
found = refl

abbrev off : TtlCache ℕ
off = record empty { max_entries = 0 }
