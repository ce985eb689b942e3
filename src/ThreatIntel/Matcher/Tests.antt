-- ===== src/ThreatIntel/Matcher/Tests.antt =====
-- Filters of ten bits; "10.0.0.1" is the only address, and its own canonical form.
use seerflow.Base.{
  List, [], arith, false, if◌then◌else◌, insert, lookup, none, refl, some, string_discrete, text_eq,
  true, ◌∷◌, ◌≡◌,
}
use seerflow.ThreatIntel.Bloom.{has_value, from_values, byte_size}
use seerflow.ThreatIntel.Matcher.{
  IndicatorType-discrete, ipv4, domain, url, Indicator, Feed, absent, corrupt, indicators, Library,
  IocMatcher, init, is_enabled, all_keys, key_of, add_indicator, add_indicators, add_feeds,
  build_bloom, build_state, refresh, check, check_state, version4,
}
use seerflow.ThreatIntel.Matcher.Exact.{IsCounted, table_answer}
use seerflow.ThreatIntel.Matcher.Runs.{
  Call, refreshes, checks, run, table_answers, table_after, run-table_answers,
}

program : Unit {0}
unfolding init is_enabled all_keys key_of add_indicator add_indicators add_feeds build_bloom
    build_state refresh check check_state has_value from_values byte_size table_answer table_answers
    table_after run lookup insert string_discrete IndicatorType-discrete
program = tt

abbrev lib : Library
lib = record {
  ip_address = λ s. if text_eq s "10.0.0.1" then some (version4, s) else none;
  lower = λ s. s;
  partition = λ s. (s, "");
  hash_pair = λ s. if text_eq s "bad.example" then (3, 5) else (11, 6);
  sizing = λ n. record { bit_count = 10; hash_count = 2 };
}

abbrev bad : Indicator
bad = record { value = "bad.example"; type = domain; source_feed = "f"; confidence = 80 }

abbrev doubtful : Indicator
doubtful = record bad { value = "maybe.example"; confidence = 10 }

abbrev feeds : List Feed
feeds =
    record { enabled = false; snapshot = corrupt }
    ∷ record { enabled = true; snapshot = absent }
    ∷ record { enabled = true; snapshot = indicators (bad ∷ doubtful ∷ []) }
    ∷ []

abbrev broken : List Feed
broken = record { enabled = true; snapshot = corrupt } ∷ []

abbrev calls : List Call
calls =
    checks "bad.example" domain
    ∷ refreshes feeds 5
    ∷ checks "bad.example" domain
    ∷ refreshes broken 6
    ∷ checks "maybe.example" domain
    ∷ checks "bad.example" url
    ∷ []

-- The indicator is found after the build, one below the floor is not, and a failed build changes nothing;
-- the type `url` is not enabled.
answers : table_answers lib (domain ∷ ipv4 ∷ []) 50 none calls ≡ none ∷ some bad ∷ none ∷ none ∷ []
unfolding program
answers = refl

run-table_answers_example :
    (m : IocMatcher) × (run lib (init (domain ∷ ipv4 ∷ []) 50) calls
      ≡ some (m, table_answers lib (domain ∷ ipv4 ∷ []) 50 none calls))
    × IsCounted lib m
run-table_answers_example = run-table_answers lib (λ n. omega arith) (domain ∷ ipv4 ∷ []) 50 calls
