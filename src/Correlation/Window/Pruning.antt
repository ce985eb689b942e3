-- ===== src/Correlation/Window/Pruning.antt =====
-- What `query` and `prune` keep of the invariant, and what `prune` leaves.
use seerflow.Base.{
  AllValues, AllValues-erase, AllValues-insert, AllValues-lookup, Bool-cases, IsDict, List, Option,
  Option-cases, String, [], ap, arith, erase-IsDict, false, if◌then◌else◌, inl, inr, insert-IsDict,
  is_empty, length, length-erase-le, length-insert_old, lookup, none, refl, some, string_discrete,
  subst, sym, true, ℕ, ◌<◌, ◌∷◌, ◌≡◌, ◌≤◌,
}
use seerflow.Models.Event.{SeerflowEvent}
use seerflow.Models.Query.{TimeRange}
use seerflow.Correlation.Window.{
  EntityWindowBuffer, Buffers, expire, answer, query, prune_buffers, prune,
}
use seerflow.Correlation.Window.Invariant.{Fits, IsValid, events_of}

lookup-prune_buffers :
    (window now : ℕ) (k : String) (d : Buffers)
    → IsDict string_discrete d
    → lookup string_discrete k (prune_buffers window now d) ≡ elim (lookup string_discrete k d) [
      | none ↦ none
      | some buf ↦ if is_empty (expire window now buf) then none else some (expire window now buf)
    ]
unfolding prune_buffers lookup
lookup-prune_buffers window now k [] u = refl
lookup-prune_buffers window now k ((j, buf) ∷ d) u =
    ground (arith, lookup-prune_buffers window now k d u.1)

is_empty-eq {ℓ} : {A : Type ℓ} (xs : List A) → is_empty xs ≡ true → xs ≡ []
is_empty-eq [] h = refl
is_empty-eq (x ∷ xs) h = cc

-- With no entity twice in the buffer, `prune` prunes the deque of every entity, and drops the
-- entities that have no event left.
pub events_of-prune :
    (b : EntityWindowBuffer) (now : ℕ) (k : String)
    → IsDict string_discrete b.buffers
    → events_of (prune b now) k ≡ expire b.window_ns now (events_of b k)
unfolding prune events_of expire
events_of-prune b now k u = elim (Option-cases (lookup string_discrete k b.buffers)) [
  | inl e ↦ ground (arith, lookup-prune_buffers b.window_ns now k b.buffers u)
  | inr (buf, e) ↦ ground (
    arith,
    lookup-prune_buffers b.window_ns now k b.buffers u,
    is_empty-eq (expire b.window_ns now buf),
  )
]

length-expire-le :
    (window now : ℕ) (es : List SeerflowEvent) → length (expire window now es) ≤ length es
unfolding expire
length-expire-le window now [] = omega arith
length-expire-le window now (e ∷ es) = ground (arith, length-expire-le window now es)

prune_buffers-IsDict :
    (window now : ℕ) (d : Buffers)
    → IsDict string_discrete d
    → IsDict string_discrete (prune_buffers window now d)
unfolding prune_buffers
prune_buffers-IsDict window now [] u = tt
prune_buffers-IsDict window now ((j, buf) ∷ d) u =
    ground (arith, prune_buffers-IsDict window now d u.1, lookup-prune_buffers window now j d u.1)

length-prune_buffers-le :
    (window now : ℕ) (d : Buffers) → length (prune_buffers window now d) ≤ length d
unfolding prune_buffers
length-prune_buffers-le window now [] = omega arith
length-prune_buffers-le window now ((j, buf) ∷ d) =
    ground (arith, length-prune_buffers-le window now d)

Fits-expire :
    (window now cap : ℕ) (buf : List SeerflowEvent)
    → is_empty (expire window now buf) ≡ false
    → Fits cap buf
    → Fits cap (expire window now buf)
Fits-expire window now cap buf some_left h =
    (not_empty (expire window now buf) some_left, omega (arith, length-expire-le window now buf))
  where
    not_empty : (es : List SeerflowEvent) → is_empty es ≡ false → 0 < length es
    not_empty [] e = cc
    not_empty (x ∷ es) e = omega arith

prune_buffers-Fits :
    (window now cap : ℕ) (d : Buffers)
    → AllValues string_discrete (Fits cap) d
    → AllValues string_discrete (Fits cap) (prune_buffers window now d)
unfolding prune_buffers
prune_buffers-Fits window now cap [] h = tt
prune_buffers-Fits window now cap ((j, buf) ∷ d) h =
    elim (Bool-cases (is_empty (expire window now buf))) [
      | inl e ↦ rw e (prune_buffers-Fits window now cap d h.1)
      | inr e ↦ rw e (Fits-expire window now cap buf e h.0, prune_buffers-Fits window now cap d h.1)
    ]

-- `prune` keeps the invariant, and tracks no entity that it did not track before.
pub prune-IsValid :
    (b : EntityWindowBuffer) (now : ℕ)
    → IsValid b
    → IsValid (prune b now) × (length (prune b now).buffers ≤ length b.buffers)
unfolding prune
prune-IsValid b now v = (
  record {
    unique = prune_buffers-IsDict b.window_ns now b.buffers v.unique;
    entities = omega (arith, v.entities, length-prune_buffers-le b.window_ns now b.buffers);
    events = prune_buffers-Fits b.window_ns now b.max_events b.buffers v.events;
  },
  length-prune_buffers-le b.window_ns now b.buffers,
)

answer-IsValid :
    (b : EntityWindowBuffer) (k : String) (range : Option TimeRange) (types : Option (List String))
    (now : ℕ) (buf : List SeerflowEvent)
    → lookup string_discrete k b.buffers ≡ some buf
    → IsValid b
    → (es : List SeerflowEvent) → es ≡ expire b.window_ns now buf
    → IsValid (answer b k range types es).0
unfolding answer
answer-IsValid b k range types now buf found v [] left = record {
  unique = erase-IsDict string_discrete k b.buffers v.unique;
  entities = omega (arith, v.entities, length-erase-le string_discrete k b.buffers);
  events = AllValues-erase string_discrete (Fits b.max_events) k b.buffers v.events;
}
answer-IsValid b k range types now buf found v (e ∷ es) left =
    let old : Fits b.max_events buf =
      AllValues-lookup string_discrete (Fits b.max_events) k b.buffers v.events found in
    let cut : Fits b.max_events (e ∷ es) =
      subst (Fits b.max_events) (sym left)
        (Fits-expire b.window_ns now b.max_events buf (ap is_empty (sym left)) old) in
    record {
      unique = insert-IsDict string_discrete k (e ∷ es) b.buffers v.unique;
      entities = omega (
        arith,
        v.entities,
        length-insert_old string_discrete k (e ∷ es) b.buffers {w = buf} found,
      );
      events =
          AllValues-insert string_discrete (Fits b.max_events) k (e ∷ es) b.buffers cut v.events;
    }

-- `query` keeps the invariant of the buffer.
pub query-IsValid :
    (b : EntityWindowBuffer) (now : ℕ) (k : String) (range : Option TimeRange)
    (types : Option (List String))
    → IsValid b
    → IsValid (query b now k range types).0
unfolding query
query-IsValid b now k range types v = elim (Option-cases (lookup string_discrete k b.buffers)) [
  | inl e ↦ rw (e, query) v
  | inr (buf, e) ↦ rw (e, query) (answer-IsValid b k range types now buf e v _ refl)
]
