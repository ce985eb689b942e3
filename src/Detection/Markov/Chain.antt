-- ===== src/Detection/Markov/Chain.antt =====
-- The counts of an entity's model against the sequence of templates that it has seen.
use seerflow.Base.{
  All, List, [], arith, insert, ite, length, lookup, lookup-insert, refl, subst, sym, ℕ, ℤ,
  ℤ_discrete, ◌+◌, ◌∷◌, ◌≡◌, ◌≢◌, ◌≤◌,
}
use seerflow.Detection.Markov.{
  EntityModel, no_template, or_zero, or_empty, transition_count, total_count, observe, new_model,
}

unfoldable pub observe_all : EntityModel → List ℤ → EntityModel
observe_all m [] = m
observe_all m (t ∷ ts) = observe_all (observe m t) ts

-- How often `curr` follows `prev` at once.
unfoldable pub followed_by : ℤ → ℤ → List ℤ → ℕ
followed_by prev curr [] = 0
followed_by prev curr (t ∷ []) = 0
followed_by prev curr (t ∷ u ∷ ts) =
    ite (ℤ_discrete prev t) (ite (ℤ_discrete curr u) 1 0) 0 + followed_by prev curr (u ∷ ts)

-- How often anything follows `prev`.
unfoldable pub followed : ℤ → List ℤ → ℕ
followed prev [] = 0
followed prev (t ∷ []) = 0
followed prev (t ∷ u ∷ ts) = ite (ℤ_discrete prev t) 1 0 + followed prev (u ∷ ts)

followed_by-le-followed :
    (prev curr : ℤ) (ts : List ℤ) → followed_by prev curr ts ≤ followed prev ts
unfolding followed_by followed
followed_by-le-followed prev curr [] = omega arith
followed_by-le-followed prev curr (t ∷ []) = omega arith
followed_by-le-followed prev curr (t ∷ u ∷ ts) =
    ground (arith, followed_by-le-followed prev curr (u ∷ ts))

observe-transition_count :
    (m : EntityModel) (t prev curr : ℤ)
    → m.prev_template ≢ no_template
    → transition_count (observe m t) prev curr
      ≡ transition_count m prev curr
        + ite (ℤ_discrete prev m.prev_template) (ite (ℤ_discrete curr t) 1 0) 0
unfolding observe transition_count
observe-transition_count m t prev curr known =
    let p = m.prev_template in
    let row = or_empty (lookup ℤ_discrete p m.transitions) in
    let n = or_zero (lookup ℤ_discrete t row) + 1 in
    ground (
      arith,
      lookup-insert ℤ_discrete p prev (insert ℤ_discrete t n row) m.transitions,
      lookup-insert ℤ_discrete t curr n row,
    )

observe-total_count :
    (m : EntityModel) (t prev : ℤ)
    → m.prev_template ≢ no_template
    → total_count (observe m t) prev
      ≡ total_count m prev + ite (ℤ_discrete prev m.prev_template) 1 0
unfolding observe total_count
observe-total_count m t prev known =
    let p = m.prev_template in
    let n = or_zero (lookup ℤ_discrete p m.total_from) + 1 in
    ground (arith, lookup-insert ℤ_discrete p prev n m.total_from)

abbrev pub IsKnown : ℤ → Type 0
IsKnown t = t ≢ no_template

-- The model of a sequence, where `m` has last seen `q`.
record Counts (m : EntityModel) (m' : EntityModel) (q : ℤ) (ts : List ℤ) : Type 0 where
  transition :
      (prev curr : ℤ)
      → transition_count m' prev curr
        ≡ transition_count m prev curr + followed_by prev curr (q ∷ ts)
  total : (prev : ℤ) → total_count m' prev ≡ total_count m prev + followed prev (q ∷ ts)
  size : m'.event_count ≡ m.event_count + length ts

observe-prev : (m : EntityModel) (t : ℤ) → (observe m t).prev_template ≡ t
unfolding observe
observe-prev m t = refl

observe-size : (m : EntityModel) (t : ℤ) → (observe m t).event_count ≡ m.event_count + 1
unfolding observe
observe-size m t = refl

observe_all-Counts :
    (m : EntityModel) (q : ℤ) (ts : List ℤ)
    → m.prev_template ≡ q
    → IsKnown q
    → All IsKnown ts
    → Counts m (observe_all m ts) q ts
unfolding observe_all followed_by followed
observe_all-Counts m q [] e known all = record {
  transition = λ prev curr. omega arith;
  total = λ prev. omega arith;
  size = omega arith;
}
observe_all-Counts m q (t ∷ ts) e known all =
    let seen : IsKnown m.prev_template = subst IsKnown (sym e) known in
    let rest = observe_all-Counts (observe m t) t ts (observe-prev m t) all.0 all.1 in
    record {
      transition = λ prev curr.
          ground (arith, rest.transition prev curr, observe-transition_count m t prev curr seen);
      total = λ prev. ground (arith, rest.total prev, observe-total_count m t prev seen);
      size = omega (arith, rest.size, observe-size m t);
    }

observe_first :
    (t prev curr : ℤ)
    → (transition_count (observe new_model t) prev curr ≡ 0)
      × (total_count (observe new_model t) prev ≡ 0)
      × ((observe new_model t).event_count ≡ 1)
unfolding observe transition_count total_count lookup
observe_first t prev curr = ground arith

-- A model that has seen the templates `ts`, none of them -1: its count of a transition is how often the
-- one template follows the other at once in `ts`, its total how often anything follows the template,
-- its number of events their number; and no transition is counted more often than its total.
pub observe_all-counts :
    (ts : List ℤ) (prev curr : ℤ)
    → All IsKnown ts
    → let m = observe_all new_model ts in
      (transition_count m prev curr ≡ followed_by prev curr ts)
      × (total_count m prev ≡ followed prev ts)
      × (m.event_count ≡ length ts)
      × (transition_count m prev curr ≤ total_count m prev)
unfolding observe_all followed_by followed transition_count total_count lookup
observe_all-counts [] prev curr all = (refl, refl, refl, omega arith)
observe_all-counts (t ∷ ts) prev curr all =
    let first = observe_first t prev curr in
    let rest =
      observe_all-Counts (observe new_model t) t ts (observe-prev new_model t) all.0 all.1 in
    let count = rest.transition prev curr in
    let total = rest.total prev in
    (
      omega (arith, count, first.0),
      omega (arith, total, first.1),
      omega (arith, rest.size, first.2),
      omega (arith, count, total, first, followed_by-le-followed prev curr (t ∷ ts)),
    )
