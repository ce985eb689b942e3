-- ===== src/Queues.antt =====
-- `asyncio.Queue`, as the dispatcher (src/seerflow/alerting/dispatcher.py) and the receiver manager
-- (src/seerflow/receivers/manager.py) call it: neither waits to put, and both count what a full queue
-- refuses.
use seerflow.Base.{
  Bool, List, Option, [], ap, append-nil, append_assoc, arith, false, if◌then◌else◌, leb, length,
  length-append, none, not, refl, some, suc, sym, true, ℕ, ◌&&◌, ◌++◌, ◌+◌, ◌<◌, ◌==◌, ◌∙◌, ◌∷◌,
  ◌≡◌, ◌≤◌,
}

-- A `maxsize` of 0 is no bound.
pub record Queue {ℓ} (A : Type ℓ) : Type ℓ where
  pub maxsize : ℕ
  pub items : List A
  pub dropped : ℕ

pub data Act {ℓ} (A : Type ℓ) : Type ℓ where
  puts : A → Act A
  gets : Act A

module _ {ℓ} {A : Type ℓ} where
  abbrev pub full : Queue A → Bool
  full q = not (q.maxsize == 0) && leb q.maxsize (length q.items)

  -- `put_nowait`, with a QueueFull counted; whether the item was taken.
  unfoldable pub put_nowait : Queue A → A → Queue A × Bool
  put_nowait q a =
      if full q
      then (record q { dropped = q.dropped + 1 }, false)
      else (record q { items = q.items ++ a ∷ [] }, true)

  abbrev first_item : Queue A → List A → Queue A × Option A
  first_item q [] = (q, none)
  first_item q (a ∷ items) = (record q { items = items }, some a)

  -- `get_nowait`; `none` is a QueueEmpty.
  unfoldable pub get_nowait : Queue A → Queue A × Option A
  get_nowait q = first_item q q.items

  unfoldable pub act : Queue A → Act A → Queue A
  unfolding put_nowait get_nowait
  act q (puts a) = (put_nowait q a).0
  act q gets = (get_nowait q).0

  unfoldable pub accepted : Queue A → Act A → List A
  unfolding put_nowait
  accepted q (puts a) = if (put_nowait q a).1 then a ∷ [] else []
  accepted q gets = []

  unfoldable pub taken : Queue A → Act A → List A
  unfolding get_nowait
  taken q (puts a) = []
  taken q gets = elim (get_nowait q).1 [ none ↦ [] | some a ↦ a ∷ [] ]

  unfoldable pub run : Queue A → List (Act A) → Queue A
  unfolding act
  run q [] = q
  run q (x ∷ xs) = run (act q x) xs

  unfoldable pub all_accepted : Queue A → List (Act A) → List A
  unfolding accepted act
  all_accepted q [] = []
  all_accepted q (x ∷ xs) = accepted q x ++ all_accepted (act q x) xs

  unfoldable pub all_taken : Queue A → List (Act A) → List A
  unfolding taken act
  all_taken q [] = []
  all_taken q (x ∷ xs) = taken q x ++ all_taken (act q x) xs

  -- How many items the acts try to put.
  abbrev pub count_puts : List (Act A) → ℕ
  count_puts [] = 0
  count_puts (puts a ∷ xs) = suc (count_puts xs)
  count_puts (gets ∷ xs) = count_puts xs

  -- A queue with a bound keeps within it.
  abbrev pub IsBounded : Queue A → Type 0
  IsBounded q = 0 < q.maxsize → length q.items ≤ q.maxsize

  act-conserves : (q : Queue A) (x : Act A) → taken q x ++ (act q x).items ≡ q.items ++ accepted q x
  unfolding taken act accepted put_nowait get_nowait
  act-conserves q (puts a) = ground (arith, append-nil q.items)
  act-conserves q gets = by_items q.items refl
    where
      by_items : (xs : List A) → q.items ≡ xs → taken q gets ++ (act q gets).items ≡ q.items ++ []
      by_items [] e = ground (arith, append-nil q.items)
      by_items (a ∷ xs) e = ground (arith, append-nil q.items)

  pub run-conserves :
      (q : Queue A) (xs : List (Act A))
      → all_taken q xs ++ (run q xs).items ≡ q.items ++ all_accepted q xs
  unfolding run all_taken all_accepted
  run-conserves q [] = sym (append-nil q.items)
  run-conserves q (x ∷ xs) =
      let next = act q x in
      append_assoc (taken q x) (all_taken next xs) (run next xs).items
      ∙ ap (λ ys. taken q x ++ ys) (run-conserves next xs)
      ∙ sym (append_assoc (taken q x) next.items (all_accepted next xs))
      ∙ ap (λ ys. ys ++ all_accepted next xs) (act-conserves q x)
      ∙ append_assoc q.items (accepted q x) (all_accepted next xs)

  count_put : Act A → ℕ
  count_put (puts a) = 1
  count_put gets = 0

  act-counts :
      (q : Queue A) (x : Act A)
      → length (accepted q x) + (act q x).dropped ≡ q.dropped + count_put x
  unfolding act accepted put_nowait get_nowait count_put
  act-counts q (puts a) = ground arith
  act-counts q gets = by_items q.items refl
    where
      by_items : (ys : List A) → q.items ≡ ys → 0 + (act q gets).dropped ≡ q.dropped + 0
      by_items [] e = ground arith
      by_items (a ∷ ys) e = ground arith

  count_puts-cons :
      (x : Act A) (xs : List (Act A)) → count_puts (x ∷ xs) ≡ count_put x + count_puts xs
  unfolding count_put
  count_puts-cons (puts a) xs = omega arith
  count_puts-cons gets xs = omega arith

  pub run-counts :
      (q : Queue A) (xs : List (Act A))
      → length (all_accepted q xs) + (run q xs).dropped ≡ q.dropped + count_puts xs
  unfolding run all_accepted
  run-counts q [] = omega arith
  run-counts q (x ∷ xs) = omega (
    arith,
    act-counts q x,
    run-counts (act q x) xs,
    count_puts-cons x xs,
    length-append (accepted q x) (all_accepted (act q x) xs),
  )

  pub act-IsBounded : (q : Queue A) (x : Act A) → IsBounded q → IsBounded (act q x)
  unfolding act put_nowait get_nowait
  act-IsBounded q (puts a) v = ground (arith, length-append q.items (a ∷ []))
  act-IsBounded q gets v = by_items q.items refl
    where
      by_items : (ys : List A) → q.items ≡ ys → IsBounded (act q gets)
      by_items [] e = ground arith
      by_items (a ∷ ys) e = ground arith

  pub run-IsBounded : (q : Queue A) (xs : List (Act A)) → IsBounded q → IsBounded (run q xs)
  unfolding run
  run-IsBounded q [] v = v
  run-IsBounded q (x ∷ xs) v = run-IsBounded (act q x) xs (act-IsBounded q x v)
