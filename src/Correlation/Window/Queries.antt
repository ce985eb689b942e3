-- ===== src/Correlation/Window/Queries.antt =====
-- What `query` returns, and what `query` and `prune` leave in the buffer.
use seerflow.Base.{
  All, Bool, Bool-cases, IsSorted, List, Option, Option-cases, String, [], ap, arith, contains,
  false, inl, inr, ite, keep, leb, lookup, lookup-erase, lookup-insert, ltb, none, not, refl, some,
  sorted, sorted-IsSorted, sorted-perm, string_discrete, subst, true, ℕ, ◌&&◌, ◌++◌, ◌+◌, ◌<◌, ◌∙◌,
  ◌∷◌, ◌≡◌, ◌≤◌, ◌⊎◌,
}
use mathlib.Core.List.{Perm, perm_middle}
use mathlib.Core.List.Perm
use seerflow.Models.Event.{SeerflowEvent}
use seerflow.Models.Query.{TimeRange}
use seerflow.Correlation.Window.{EntityWindowBuffer, expire, in_range, of_source, answer, query}
use seerflow.Correlation.Window.Invariant.{events_of}

abbrev pub at_time : SeerflowEvent → ℕ
at_time e = e.timestamp_ns

-- The events that pass both filters, in the order given.
unfoldable pub matching :
    Option TimeRange → Option (List String) → List SeerflowEvent → List SeerflowEvent
matching range types es = keep (of_source types) (keep (in_range range) es)

answer-sorted :
    (b : EntityWindowBuffer) (k : String) (range : Option TimeRange) (types : Option (List String))
    (es : List SeerflowEvent)
    → (answer b k range types es).1 ≡ sorted at_time (matching range types es)
unfolding answer matching sorted keep
answer-sorted b k range types [] = refl
answer-sorted b k range types (e ∷ es) = refl

events_of-answer :
    (b : EntityWindowBuffer) (k j : String) (range : Option TimeRange)
    (types : Option (List String)) (es : List SeerflowEvent)
    → events_of (answer b k range types es).0 j ≡ ite (string_discrete k j) es (events_of b j)
unfolding answer events_of
events_of-answer b k j range types [] = ground (arith, lookup-erase string_discrete k j b.buffers)
events_of-answer b k j range types (e ∷ es) =
    ground (arith, lookup-insert string_discrete k j (e ∷ es) b.buffers)

query-sorted :
    (b : EntityWindowBuffer) (now : ℕ) (k : String) (range : Option TimeRange)
    (types : Option (List String))
    → (query b now k range types).1
      ≡ sorted at_time (matching range types (expire b.window_ns now (events_of b k)))
unfolding query matching events_of sorted keep expire
query-sorted b now k range types = elim (Option-cases (lookup string_discrete k b.buffers)) [
  | inl e ↦ rw (e, query, events_of) refl
  | inr (buf, e) ↦
      rw (e, query, events_of) (answer-sorted b k range types (expire b.window_ns now buf))
]

-- What `query` is asked for: a time from the start to the end of the range, both included, and a source
-- among those given.
abbrev pub InRange : Option TimeRange → SeerflowEvent → Type 0
InRange none e = Unit
InRange (some r) e = (r.start_ns ≤ e.timestamp_ns) × (e.timestamp_ns ≤ r.end_ns)

abbrev pub IsIn : String → List String → Type 0
IsIn x [] = ⊥
IsIn x (y ∷ ys) = (x ≡ y) ⊎ IsIn x ys

abbrev pub OfSource : Option (List String) → SeerflowEvent → Type 0
OfSource none e = Unit
OfSource (some types) e = IsIn e.source_type types

abbrev pub IsWanted : Option TimeRange → Option (List String) → SeerflowEvent → Type 0
IsWanted range types e = InRange range e × OfSource types e

-- The first event, if there is one, is not older than the window.
abbrev pub IsFreshFirst : ℕ → ℕ → List SeerflowEvent → Type 0
IsFreshFirst window now [] = Unit
IsFreshFirst window now (e ∷ es) = now ≤ e.timestamp_ns + window

in_range-InRange :
    (range : Option TimeRange) (e : SeerflowEvent)
    → (in_range range e ≡ true → InRange range e) × (in_range range e ≡ false → ¬ InRange range e)
unfolding in_range
in_range-InRange none e = (λ h. tt, λ h. absurd (ground arith))
in_range-InRange (some r) e = (λ h. ground arith, λ h p. ground arith)

contains-IsIn :
    (x : String) (xs : List String)
    → (contains x xs ≡ true → IsIn x xs) × (contains x xs ≡ false → ¬ IsIn x xs)
unfolding contains
contains-IsIn x [] = (λ h. absurd (ground arith), λ h m. m)
contains-IsIn x (y ∷ ys) = elim (string_discrete x y) [
  | yes same ↦ (λ h. inl same, λ h. absurd (ground arith))
  | no other ↦
      let rest = contains-IsIn x ys in
      (
        λ h. inr (rest.0 (ground arith)),
        λ h m. elim m [ inl same ↦ other same | inr later ↦ rest.1 (ground arith) later ],
      )
]

of_source-OfSource :
    (types : Option (List String)) (e : SeerflowEvent)
    → (of_source types e ≡ true → OfSource types e)
      × (of_source types e ≡ false → ¬ OfSource types e)
unfolding of_source
of_source-OfSource none e = (λ h. tt, λ h. absurd (ground arith))
of_source-OfSource (some types) e = contains-IsIn e.source_type types

is_wanted : Option TimeRange → Option (List String) → SeerflowEvent → Bool
is_wanted range types e = in_range range e && of_source types e

matching-keep :
    (range : Option TimeRange) (types : Option (List String)) (es : List SeerflowEvent)
    → matching range types es ≡ keep (is_wanted range types) es
unfolding matching keep is_wanted
matching-keep range types [] = refl
matching-keep range types (e ∷ es) = ground (arith, matching-keep range types es)

is_wanted-IsWanted :
    (range : Option TimeRange) (types : Option (List String)) (e : SeerflowEvent)
    → (is_wanted range types e ≡ true → IsWanted range types e)
      × (is_wanted range types e ≡ false → ¬ IsWanted range types e)
unfolding is_wanted
is_wanted-IsWanted range types e =
    let r = in_range-InRange range e in
    let t = of_source-OfSource types e in
    (
      λ h. (r.0 (ground arith), t.0 (ground arith)),
      λ h w. elim (Bool-cases (in_range range e)) [
        | inl inside ↦ t.1 (ground arith) w.1
        | inr outside ↦ r.1 outside w.0
      ],
    )

keep-perm :
    (p : SeerflowEvent → Bool) (es : List SeerflowEvent)
    → Perm es (keep p es ++ keep (λ e. not (p e)) es)
unfolding keep
keep-perm p [] = Perm.refl []
keep-perm p (e ∷ es) = elim (Bool-cases (p e)) [
  | inl good ↦ rw good (Perm.cons e (keep-perm p es))
  | inr bad ↦ rw bad (
      Perm.trans (Perm.cons e (keep-perm p es))
        (Perm.symm (perm_middle {a = e} (keep p es) (keep (λ x. not (p x)) es))))
]

expire-split :
    (window now : ℕ) (es : List SeerflowEvent)
    → (dropped : List SeerflowEvent) × (es ≡ dropped ++ expire window now es)
      × All (λ e. e.timestamp_ns + window < now) dropped
      × IsFreshFirst window now (expire window now es)
unfolding expire
expire-split window now [] = ([], refl, tt, tt)
expire-split window now (e ∷ es) = elim (Bool-cases (ltb (e.timestamp_ns + window) now)) [
  | inl old ↦
      let (dropped, splits, all, fresh) = expire-split window now es in
      (e ∷ dropped, rw old (ap (λ xs. e ∷ xs) splits), (ground arith, all), rw old fresh)
  | inr young ↦ ([], rw young refl, tt, rw young (ground arith))
]

keep_test :
    (P Q : SeerflowEvent → Type 0) (p : SeerflowEvent → Bool)
    → ((e : SeerflowEvent) → (p e ≡ true → P e) × (p e ≡ false → Q e))
    → (es : List SeerflowEvent) → All P (keep p es) × All Q (keep (λ e. not (p e)) es)
unfolding keep
keep_test P Q p h [] = (tt, tt)
keep_test P Q p h (e ∷ es) = elim (Bool-cases (p e)) [
  | inl good ↦ let rest = keep_test P Q p h es in rw good (((h e).0 good, rest.0), rest.1)
  | inr bad ↦ let rest = keep_test P Q p h es in rw bad (rest.0, ((h e).1 bad, rest.1))
]

-- The answer of `query` holds the events of the entity's deque, from the first one that is not
-- expired on, that pass the range and source filters, each as often as it stands there, in
-- ascending order of time.
query-matching :
    (b : EntityWindowBuffer) (now : ℕ) (k : String) (range : Option TimeRange)
    (types : Option (List String))
    → Perm
        (query b now k range types).1
        (matching range types (expire b.window_ns now (events_of b k)))
      × IsSorted at_time (query b now k range types).1
query-matching b now k range types =
    let found = matching range types (expire b.window_ns now (events_of b k)) in
    rw (query-sorted b now k range types) (sorted-perm at_time found, sorted-IsSorted at_time found)

-- The entity's deque splits into events older than the window and a rest that is empty or begins with
-- one that is not. That rest is made up of the events wanted, which are those in the time range, both
-- ends included, and of one of the sources, where these are given, and of others that are not; and the
-- answer of `query` is the wanted ones, each as often as it stands there, in ascending order of time.
pub query-perm :
    (b : EntityWindowBuffer) (now : ℕ) (k : String) (range : Option TimeRange)
    (types : Option (List String))
    → let answered = (query b now k range types).1 in
      (dropped rest found others : List SeerflowEvent) × (events_of b k ≡ dropped ++ rest)
      × All (λ e. e.timestamp_ns + b.window_ns < now) dropped
      × IsFreshFirst b.window_ns now rest
      × Perm rest (found ++ others)
      × All (IsWanted range types) found
      × All (λ e. ¬ IsWanted range types e) others
      × Perm answered found
      × IsSorted at_time answered
query-perm b now k range types =
    let (dropped, splits, old, fresh) = expire-split b.window_ns now (events_of b k) in
    let rest = expire b.window_ns now (events_of b k) in
    let wants = is_wanted range types in
    let tests =
      keep_test (IsWanted range types) (λ e. ¬ IsWanted range types e) wants
        (is_wanted-IsWanted range types) rest in
    let answer_is = query-matching b now k range types in
    (
      dropped,
      rest,
      keep wants rest,
      keep (λ e. not (wants e)) rest,
      splits,
      old,
      fresh,
      keep-perm wants rest,
      tests.0,
      tests.1,
      rw (← matching-keep range types rest) answer_is.0,
      answer_is.1,
    )

-- The events that are not yet older than the window.
abbrev pub is_fresh : ℕ → ℕ → SeerflowEvent → Bool
is_fresh window now e = leb now (e.timestamp_ns + window)

keep-All : {A : Type 0} (p : A → Bool) (xs : List A) → All (λ x. p x ≡ true) xs → keep p xs ≡ xs
unfolding keep
keep-All p [] h = refl
keep-All p (x ∷ xs) h = ground (arith, keep-All p xs h.1)

All-fresh :
    (window now t : ℕ) (es : List SeerflowEvent)
    → now ≤ t + window
    → All (λ e. t ≤ e.timestamp_ns) es
    → All (λ e. is_fresh window now e ≡ true) es
All-fresh window now t [] h s = tt
All-fresh window now t (e ∷ es) h s = (ground (arith, s.0), All-fresh window now t es h s.1)

expire_fresh :
    (window now : ℕ) (e : SeerflowEvent) (es : List SeerflowEvent)
    → now ≤ e.timestamp_ns + window
    → expire window now (e ∷ es) ≡ e ∷ es
unfolding expire
expire_fresh window now e es h = ground arith

-- On a deque in ascending order of time, `expire` drops exactly the events older than the window.
expire-keep :
    (window now : ℕ) (es : List SeerflowEvent)
    → IsSorted at_time es
    → expire window now es ≡ keep (is_fresh window now) es
unfolding expire keep
expire-keep window now [] s = refl
expire-keep window now (e ∷ es) s = elim (Bool-cases (ltb (e.timestamp_ns + window) now)) [
  | inl old ↦ ground (arith, expire-keep window now es s.1)
  | inr fresh ↦ ground (
    arith,
    keep-All (is_fresh window now) es (All-fresh window now e.timestamp_ns es (ground arith) s.0),
  )
]

-- If the events of an entity arrived in order of time, the answer of `query` holds exactly its events
-- that are not older than the window and pass the filters.
pub query-matching_fresh :
    (b : EntityWindowBuffer) (now : ℕ) (k : String) (range : Option TimeRange)
    (types : Option (List String))
    → IsSorted at_time (events_of b k)
    → Perm
        (query b now k range types).1
        (matching range types (keep (is_fresh b.window_ns now) (events_of b k)))
query-matching_fresh b now k range types s =
    rw (← expire-keep b.window_ns now (events_of b k) s) (query-matching b now k range types).0

no_filter : (es : List SeerflowEvent) → matching none none es ≡ es
unfolding matching in_range of_source keep
no_filter [] = refl
no_filter (e ∷ es) = ap (◌∷◌ e) (no_filter es)

-- If the first arrival in the deque is not older than the window, `query` with no filter returns the
-- whole deque: an event behind it stays in the answer however old it is.
pub query-matching_stale :
    (b : EntityWindowBuffer) (now : ℕ) (k : String) (e : SeerflowEvent) (es : List SeerflowEvent)
    → events_of b k ≡ e ∷ es
    → now ≤ e.timestamp_ns + b.window_ns
    → Perm (query b now k none none).1 (e ∷ es)
query-matching_stale b now k e es h fresh =
    let kept : expire b.window_ns now (e ∷ es) ≡ e ∷ es = expire_fresh b.window_ns now e es fresh in
    subst (Perm (query b now k none none).1)
      (ap (λ xs. matching none none (expire b.window_ns now xs)) h ∙ no_filter _ ∙ kept)
      (query-matching b now k none none).0

-- `query` prunes the deque of the entity that it reads, and no other.
pub events_of-query :
    (b : EntityWindowBuffer) (now : ℕ) (k j : String) (range : Option TimeRange)
    (types : Option (List String))
    → events_of (query b now k range types).0 j
      ≡ ite (string_discrete k j) (expire b.window_ns now (events_of b j)) (events_of b j)
unfolding query events_of expire
events_of-query b now k j range types = elim (Option-cases (lookup string_discrete k b.buffers)) [
  | inl e ↦ ground arith
  | inr (buf, e) ↦ ground (arith, events_of-answer b k j range types (expire b.window_ns now buf))
]
