-- ===== src/Ueba/Baseline/Sources.antt =====
-- The source addresses of a baseline: a dictionary of the most recent ones.
use seerflow.Base.{
  All, Bool-cases, IsDict, List, Option-cases, String, [], ap, append-IsDict, append-nil,
  append_assoc, arith, drop, drop-IsDict, drop-append, inl, inr, insert, insert-IsDict,
  insert_absent, insert_sorted, leb, length, length-append, length-drop, length-insert_old,
  length-sorted, lookup, lookup-append, lookup-drop-none, lookup-insert, ltb, none, refl, some,
  sorted, string_discrete, subst, sym, ℕ, ◌++◌, ◌-◌, ◌<◌, ◌∙◌, ◌∷◌, ◌≡◌, ◌≢◌, ◌≤◌,
}
use seerflow.Ueba.Baseline.{add_pairs, seen_at, cap_sources, update_source_ips}

module _ {V : Type 0} where
  -- The entries of a dictionary stand in it.
  absent_before :
      (d : List (String × V)) (k : String) (v : V) (rest : List (String × V))
      → IsDict string_discrete (d ++ (k, v) ∷ rest)
      → lookup string_discrete k d ≡ none
  unfolding lookup
  absent_before [] k v rest u = refl
  absent_before ((j, w) ∷ d) k v rest u =
      ground
        (arith, absent_before d k v rest u.1, lookup-append string_discrete j d ((k, v) ∷ rest))

  add_pairs-append :
      (d rest : List (String × V))
      → IsDict string_discrete (d ++ rest)
      → add_pairs d rest ≡ d ++ rest
  unfolding add_pairs
  add_pairs-append d [] u = rw append-nil
  add_pairs-append d ((k, v) ∷ rest) u =
      let same : (d ++ (k, v) ∷ []) ++ rest ≡ d ++ (k, v) ∷ rest = rw append_assoc in
      rw (insert_absent string_discrete k v d (absent_before d k v rest u)) (
        add_pairs-append (d ++ (k, v) ∷ []) rest (subst (IsDict string_discrete) (sym same) u)
        ∙ same)

  pub add_pairs_same : (d : List (String × V)) → IsDict string_discrete d → add_pairs [] d ≡ d
  add_pairs_same d u = add_pairs-append [] d u

  pub add_pairs-IsDict :
      (d rest : List (String × V))
      → IsDict string_discrete d
      → IsDict string_discrete (add_pairs d rest)
  unfolding add_pairs
  add_pairs-IsDict d [] u = u
  add_pairs-IsDict d ((k, v) ∷ rest) u =
      add_pairs-IsDict (insert string_discrete k v d) rest (insert-IsDict string_discrete k v d u)

lookup-insert_sorted :
    (j k : String) (v : ℕ) (d : List (String × ℕ))
    → k ≢ j
    → lookup string_discrete j d ≡ none
    → lookup string_discrete j (insert_sorted seen_at (k, v) d) ≡ none
unfolding lookup insert_sorted
lookup-insert_sorted j k v [] ne h = ground arith
lookup-insert_sorted j k v ((i, w) ∷ d) ne h = ground (arith, lookup-insert_sorted j k v d)

insert_sorted-IsDict :
    (k : String) (v : ℕ) (d : List (String × ℕ))
    → lookup string_discrete k d ≡ none
    → IsDict string_discrete d
    → IsDict string_discrete (insert_sorted seen_at (k, v) d)
unfolding lookup insert_sorted
insert_sorted-IsDict k v [] h u = (refl, tt)
insert_sorted-IsDict k v ((i, w) ∷ d) h u = elim (Bool-cases (leb v w)) [
  | inl before ↦ rw before (h, u)
  | inr after ↦
      let apart : k ≢ i = ground arith in
      rw after
        (lookup-insert_sorted i k v d apart u.0, insert_sorted-IsDict k v d (ground arith) u.1)
]

lookup-sorted :
    (j : String) (d : List (String × ℕ))
    → lookup string_discrete j d ≡ none
    → lookup string_discrete j (sorted seen_at d) ≡ none
unfolding lookup sorted
lookup-sorted j [] h = refl
lookup-sorted j ((i, w) ∷ d) h =
    lookup-insert_sorted j i w (sorted seen_at d) (ground arith) (lookup-sorted j d (ground arith))

sorted-IsDict :
    (d : List (String × ℕ)) → IsDict string_discrete d → IsDict string_discrete (sorted seen_at d)
unfolding sorted
sorted-IsDict [] u = tt
sorted-IsDict ((i, w) ∷ d) u =
    insert_sorted-IsDict i w (sorted seen_at d) (lookup-sorted i d u.0) (sorted-IsDict d u.1)

-- The last of a list that is nowhere later is the last of the sorted list.
insert_sorted_last :
    (a x : String × ℕ) (xs : List (String × ℕ))
    → seen_at a ≤ seen_at x
    → insert_sorted seen_at a (xs ++ x ∷ []) ≡ insert_sorted seen_at a xs ++ x ∷ []
unfolding insert_sorted
insert_sorted_last a x [] le = ground arith
insert_sorted_last a x (y ∷ xs) le = ground (arith, insert_sorted_last a x xs le)

sorted_last :
    (x : String × ℕ) (xs : List (String × ℕ))
    → All (λ e. seen_at e ≤ seen_at x) xs
    → sorted seen_at (xs ++ x ∷ []) ≡ sorted seen_at xs ++ x ∷ []
unfolding sorted insert_sorted
sorted_last x [] all = refl
sorted_last x (y ∷ xs) all =
    rw (sorted_last x xs all.1) (insert_sorted_last y x (sorted seen_at xs) all.0)

pub cap_sources_lem :
    (bound : ℕ) (d : List (String × ℕ))
    → IsDict string_discrete d
    → IsDict string_discrete (cap_sources bound d) × (length (cap_sources bound d) ≤ bound)
unfolding cap_sources
cap_sources_lem bound d u =
    let kept = drop (length d - bound) (sorted seen_at d) in
    let unique =
      drop-IsDict string_discrete (length d - bound) (sorted seen_at d) (sorted-IsDict d u) in
    elim (Bool-cases (ltb bound (length d))) [
      | inl over ↦
          rw (over, add_pairs_same kept unique)
            (
              unique,
              ground (
                arith,
                length-drop (length d - bound) (sorted seen_at d),
                length-sorted seen_at d,
              ),
            )
      | inr fits ↦ rw fits (u, ground arith)
    ]

module _ (ips : List (String × ℕ)) (new_ip : String) (now_ns bound : ℕ)
    (u : IsDict string_discrete ips) where
  pub update_source_ips-IsDict :
      IsDict string_discrete (update_source_ips ips new_ip now_ns bound)
      × (length (update_source_ips ips new_ip now_ns bound) ≤ bound)
  unfolding update_source_ips
  update_source_ips-IsDict = rw (add_pairs_same ips u) (
      cap_sources_lem bound (insert string_discrete new_ip now_ns ips)
        (insert-IsDict string_discrete new_ip now_ns ips u))

  module _ (small : length ips ≤ bound) (room : 0 < bound)
      (latest : All (λ e. seen_at e ≤ now_ns) ips) where
    kept_old :
        {t : ℕ}
        → lookup string_discrete new_ip ips ≡ some t
        → lookup string_discrete new_ip
            (cap_sources bound (insert string_discrete new_ip now_ns ips))
          ≡ some now_ns
    unfolding cap_sources
    kept_old {t} e = ground (
      arith,
      length-insert_old string_discrete new_ip now_ns ips {w = t} e,
      lookup-insert string_discrete new_ip new_ip now_ns ips,
    )

    kept_new :
        lookup string_discrete new_ip ips ≡ none
        → lookup string_discrete new_ip (cap_sources bound (ips ++ (new_ip, now_ns) ∷ []))
          ≡ some now_ns
    unfolding cap_sources lookup
    kept_new e =
        let x : String × ℕ = (new_ip, now_ns) in
        let all = ips ++ x ∷ [] in
        let n = length all - bound in
        let size = length-append ips (x ∷ []) in
        let unique = append-IsDict string_discrete new_ip now_ns ips u e in
        let rest = drop n (sorted seen_at ips) in
        let sorted_all : drop n (sorted seen_at all) ≡ rest ++ x ∷ [] =
          ap (drop n) (sorted_last x ips latest)
          ∙ drop-append n (sorted seen_at ips) (x ∷ [])
              (omega (arith, size, length-sorted seen_at ips)) in
        let unique_rest =
          drop-IsDict string_discrete n (sorted seen_at all) (sorted-IsDict all unique) in
        let absent =
          lookup-drop-none string_discrete new_ip n (sorted seen_at ips)
            (lookup-sorted new_ip ips e) in
        elim (Bool-cases (ltb bound (length all))) [
          | inl over ↦
              rw (over, add_pairs_same (drop n (sorted seen_at all)) unique_rest, sorted_all)
                (ground (arith, absent, lookup-append string_discrete new_ip rest (x ∷ [])))
          | inr fits ↦
              rw fits (ground (arith, e, lookup-append string_discrete new_ip ips (x ∷ [])))
        ]

    -- With room for one address and no time later than the event's, an update keeps a dictionary within
    -- its bound and has the event's address in it at the event's time, whatever else is dropped.
    pub update_source_ips_lem :
        IsDict string_discrete (update_source_ips ips new_ip now_ns bound)
        × (length (update_source_ips ips new_ip now_ns bound) ≤ bound)
        × (lookup string_discrete new_ip (update_source_ips ips new_ip now_ns bound) ≡ some now_ns)
    unfolding update_source_ips
    update_source_ips_lem =
        let shape = update_source_ips-IsDict in
        (
          shape.0,
          shape.1,
          rw (add_pairs_same ips u) (elim (Option-cases (lookup string_discrete new_ip ips)) [
            | inl e ↦ rw (insert_absent string_discrete new_ip now_ns ips e) (kept_new e)
            | inr (t, e) ↦ kept_old e
          ]),
        )
