-- ===== src/Detection/Cusum/Buckets.antt =====
-- The detector, which counts while events come, against the number of events in each minute.
use seerflow.Base.{
  List, [], ap, arith, dec_lt, if◌then◌else◌, map, min, negsuc, pos, refl, subst, suc, sym, zero, ℕ,
  ◌+◌, ◌-◌, ◌/◌, ◌<◌, ◌==◌, ◌∙◌, ◌∷◌, ◌≡◌, ◌≤◌,
}
use native.Mathlib.Nat.{zero-add, add-zero, suc-add}
use seerflow.Models.Event.{SeerflowEvent}
use seerflow.Detection.Floats.{Floats}
use seerflow.Detection.Cusum.{
  CusumDetector, update, filtered, deviation, accumulate, fill_gap, open_bucket, learn_bucket,
  learn, bucket_ns, max_gap_fill,
}

-- The events in minute `m`.
unfoldable pub count_in : ℕ → List ℕ → ℕ
count_in m [] = 0
count_in m (b ∷ bs) = (if b == m then 1 else 0) + count_in m bs

-- The last of the minutes, or `b`.
unfoldable pub last_minute : ℕ → List ℕ → ℕ
last_minute b [] = b
last_minute b (b' ∷ bs) = last_minute b' bs

-- The minutes come in order from `b` on, with at most `max_gap_fill` empty ones in between.
abbrev pub IsSteady : ℕ → List ℕ → Type 0
IsSteady b [] = Unit
IsSteady b (b' ∷ bs) = (b ≤ b') × (b' ≤ b + max_gap_fill + 1) × IsSteady b' bs

abbrev pub minute : SeerflowEvent → ℕ
minute e = e.timestamp_ns / bucket_ns

-- `n` in the minute `b`, and the events of the list.
abbrev counts : ℕ → ℕ → List ℕ → ℕ → ℕ
counts b n bs m = (if m == b then n else 0) + count_in m bs

last_minute-ge : (b : ℕ) (bs : List ℕ) → IsSteady b bs → b ≤ last_minute b bs
unfolding last_minute
last_minute-ge b [] h = omega arith
last_minute-ge b (b' ∷ bs) h = omega (arith, last_minute-ge b' bs h.2)

count_in_before : (m b : ℕ) (bs : List ℕ) → IsSteady b bs → m < b → count_in m bs ≡ 0
unfolding count_in
count_in_before m b [] h lt = refl
count_in_before m b (b' ∷ bs) h lt = ground (arith, count_in_before m b' bs h.2)

gap_empty :
    (b n b' : ℕ) (bs : List ℕ)
    → IsSteady b' bs
    → (m : ℕ) → b < m
    → m < b'
    → counts b n (b' ∷ bs) m ≡ 0
unfolding count_in
gap_empty b n b' bs h m low high = ground (arith, count_in_before m b' bs h high)

counts_later :
    (b n b' : ℕ) (bs : List ℕ) (m : ℕ) → b < b' → b' ≤ m → counts b' 1 bs m ≡ counts b n (b' ∷ bs) m
unfolding count_in
counts_later b n b' bs m lt low = ground arith

counts_first : (b : ℕ) (bs : List ℕ) (m : ℕ) → counts b 1 bs m ≡ count_in m (b ∷ bs)
unfolding count_in
counts_first b bs m = ground arith

counts_same :
    (b n b' : ℕ) (bs : List ℕ) (m : ℕ) → b' ≡ b → counts b (n + 1) bs m ≡ counts b n (b' ∷ bs) m
unfolding count_in
counts_same b n b' bs m e = ground arith

module _ (F : Floats) (tiny : F.Float) where
  -- `update` with the counts `f` of `k` minutes from `s` on.
  unfoldable pub feed : CusumDetector F → ℕ → ℕ → (ℕ → ℕ) → CusumDetector F
  feed c s zero f = c
  feed c s (suc k) f = feed (update F tiny c (F.of_count (f s))) (s + 1) k f

  unfoldable pub learn_events : CusumDetector F → List SeerflowEvent → CusumDetector F
  learn_events c [] = c
  learn_events c (e ∷ es) = learn_events (learn F tiny c e) es

  unfoldable pub learn_all : CusumDetector F → List ℕ → CusumDetector F
  learn_all c [] = c
  learn_all c (b ∷ bs) = learn_all (learn_bucket F tiny c b) bs

  abbrev pub mark : CusumDetector F → ℕ → ℕ → CusumDetector F
  mark c b n = record c { current_bucket = pos b; current_count = n }

  feed-congr :
      (c : CusumDetector F) (s k : ℕ) (f g : ℕ → ℕ)
      → ((i : ℕ) → s ≤ i → i < s + k → f i ≡ g i)
      → feed c s k f ≡ feed c s k g
  unfolding feed
  feed-congr c s zero f g h = refl
  feed-congr c s (suc k) f g h = rw (h s (omega arith) (omega arith)) (
      feed-congr (update F tiny c (F.of_count (g s))) (s + 1) k f g
        (λ i a b. h i (omega arith) (omega arith)))

  feed-add :
      (c : CusumDetector F) (s j k : ℕ) (f : ℕ → ℕ)
      → feed c s (j + k) f ≡ feed (feed c s j f) (s + j) k f
  unfolding feed
  feed-add c s zero k f = rw (zero-add k, add-zero s)
  feed-add c s (suc j) k f =
      let c' = update F tiny c (F.of_count (f s)) in
      rw (suc-add j k)
        (feed-add c' (s + 1) j k f ∙ ap (λ (i : ℕ). feed (feed c' (s + 1) j f) i k f) (omega arith))

  feed-split :
      (c : CusumDetector F) (s m e : ℕ) (f : ℕ → ℕ)
      → s ≤ m
      → m ≤ e
      → feed c s (e - s) f ≡ feed (feed c s (m - s) f) m (e - m) f
  feed-split c s m e f low high =
      ap (λ (k : ℕ). feed c s k f) (omega arith)
      ∙ feed-add c s (m - s) (e - m) f
      ∙ ap (λ (k : ℕ). feed (feed c s (m - s) f) k (e - m) f) (omega arith)

  update-mark :
      (c : CusumDetector F) (b n : ℕ) (x : F.Float)
      → update F tiny (mark c b n) x ≡ mark (update F tiny c x) b n
  unfolding update filtered deviation accumulate
  update-mark c b n x = ground arith

  feed-mark :
      (c : CusumDetector F) (b n s k : ℕ) (f : ℕ → ℕ)
      → feed (mark c b n) s k f ≡ mark (feed c s k f) b n
  unfolding feed
  feed-mark c b n s zero f = refl
  feed-mark c b n s (suc k) f =
      rw (update-mark c b n (F.of_count (f s)))
        (feed-mark (update F tiny c (F.of_count (f s))) b n (s + 1) k f)

  module _ (none_is_zero : F.of_count 0 ≡ F.zero_point) where
    fill_gap-feed :
        (c : CusumDetector F) (s k : ℕ) (f : ℕ → ℕ)
        → ((i : ℕ) → s ≤ i → i < s + k → f i ≡ 0)
        → fill_gap F tiny k c ≡ feed c s k f
    unfolding fill_gap feed
    fill_gap-feed c s zero f h = refl
    fill_gap-feed c s (suc k) f h =
        rw (h s (omega arith) (omega arith), none_is_zero)
          (fill_gap-feed (update F tiny c F.zero_point) (s + 1) k f
            (λ i a b. h i (omega arith) (omega arith)))

    -- A later minute, with the empty ones before it.
    opening :
        (c : CusumDetector F) (b n b' : ℕ) (f : ℕ → ℕ)
        → b < b'
        → b' ≤ b + max_gap_fill + 1
        → f b ≡ n
        → ((i : ℕ) → b < i → i < b' → f i ≡ 0)
        → open_bucket F tiny (mark c b n) (b' - b - 1) b' ≡ mark (feed c b (b' - b) f) b' 1
    unfolding open_bucket feed
    opening c b n b' f lt near fb empty =
        let x = F.of_count n in
        let gap = b' - b - 1 in
        let c' = update F tiny c x in
        let room : min gap max_gap_fill ≡ gap = omega arith in
        let steps : b' - b ≡ suc gap = omega arith in
        let filled : fill_gap F tiny gap c' ≡ feed c' (b + 1) gap f =
          fill_gap-feed c' (b + 1) gap f (λ i low high. empty i (omega arith) (omega arith)) in
        let marked : fill_gap F tiny gap (mark c' b n) ≡ mark (feed c' (b + 1) gap f) b n =
          fill_gap-feed (mark c' b n) (b + 1) gap f
            (λ i low high. empty i (omega arith) (omega arith))
          ∙ feed-mark c' b n (b + 1) gap f in
        let fed : feed c b (b' - b) f ≡ feed c' (b + 1) gap f =
          ap (λ (k : ℕ). feed c b k f) steps
          ∙ ap (λ (m : ℕ). feed (update F tiny c (F.of_count m)) (b + 1) gap f) fb in
        rw (room, update-mark c b n x, marked) (ap (λ (d : CusumDetector F). mark d b' 1) (sym fed))

  learn_same :
      (c : CusumDetector F) (b n b' : ℕ)
      → b' ≡ b
      → learn_bucket F tiny (mark c b n) b' ≡ mark c b (n + 1)
  unfolding learn_bucket
  learn_same c b n b' e = ground arith

  learn_later :
      (c : CusumDetector F) (b n b' : ℕ)
      → b < b'
      → learn_bucket F tiny (mark c b n) b' ≡ open_bucket F tiny (mark c b n) (b' - b - 1) b'
  unfolding learn_bucket
  learn_later c b n b' lt = ground arith

  mark-congr :
      (c : CusumDetector F) (b e k k' n n' : ℕ) (f g : ℕ → ℕ)
      → k ≡ k'
      → n ≡ n'
      → ((i : ℕ) → b ≤ i → i < b + k → f i ≡ g i)
      → mark (feed c b k f) e n ≡ mark (feed c b k' g) e n'
  mark-congr c b e k k' n n' f g p q h =
      ap (λ (d : CusumDetector F). mark d e n)
        (feed-congr c b k f g h ∙ ap (λ (j : ℕ). feed c b j g) p)
      ∙ ap (λ (m : ℕ). mark (feed c b k' g) e m) q

  module _ (none_is_zero : F.of_count 0 ≡ F.zero_point) where
    learn_all-feed :
        (c : CusumDetector F) (b n : ℕ) (bs : List ℕ)
        → IsSteady b bs
        → learn_all (mark c b n) bs
          ≡ mark
              (feed c b (last_minute b bs - b) (counts b n bs))
              (last_minute b bs)
              (counts b n bs (last_minute b bs))
    unfolding learn_all last_minute count_in feed
    learn_all-feed c b n [] h =
        mark-congr c b b 0 (b - b) n (counts b n [] b) (counts b n []) (counts b n []) (omega arith)
          (ground arith) (λ i low high. refl)
    learn_all-feed c b n (b' ∷ bs) h = elim (dec_lt b b') [
      | yes lt ↦
          let f = counts b n (b' ∷ bs) in
          let e = last_minute b' bs in
          let x = feed c b (b' - b) f in
          let after : b' ≤ e = last_minute-ge b' bs h.2 in
          let first : f b ≡ n = ground (arith, count_in_before b b' bs h.2 lt) in
          let whole : feed c b (e - b) f ≡ feed x b' (e - b') f =
            feed-split c b b' e f (omega arith) after in
          rw
            (
              learn_later c b n b' lt,
              opening none_is_zero c b n b' f lt h.1 first (gap_empty b n b' bs h.2),
              whole,
            )
            (learn_all-feed x b' 1 bs h.2
              ∙ mark-congr x b' e (e - b') (e - b') (counts b' 1 bs e) (f e) (counts b' 1 bs) f refl
                  (counts_later b n b' bs e lt after)
                  (λ i low high. counts_later b n b' bs i lt low))
      | no ge ↦
          let e : b' ≡ b = omega arith in
          let s = last_minute b' bs in
          rw (learn_same c b n b' e) (
            learn_all-feed c b (n + 1) bs (subst (λ (k : ℕ). IsSteady k bs) e h.2)
            ∙ ap
                (λ (k : ℕ).
                  mark (feed c b (last_minute k bs - b) (counts b (n + 1) bs)) (last_minute k bs)
                    (counts b (n + 1) bs (last_minute k bs)))
                (sym e)
            ∙ mark-congr c b s (s - b) (s - b) (counts b (n + 1) bs s) (counts b n (b' ∷ bs) s)
                (counts b (n + 1) bs) (counts b n (b' ∷ bs)) refl (counts_same b n b' bs s e)
                (λ i low high. counts_same b n b' bs i e))
    ]

    learn_events-all :
        (c : CusumDetector F) (es : List SeerflowEvent)
        → learn_events c es ≡ learn_all c (map minute es)
    unfolding learn_events learn_all learn
    learn_events-all c [] = refl
    learn_events-all c (e ∷ es) = learn_events-all (learn_bucket F tiny c (minute e)) es

    learn_first :
        (c : CusumDetector F) (b : ℕ)
        → c.current_bucket ≡ negsuc 0
        → learn_bucket F tiny c b ≡ mark c b 1
    unfolding learn_bucket
    learn_first c b fresh = ground arith

    -- On a detector with no bucket open, from events in the order of their minutes with at most
    -- `max_gap_fill` empty ones in a row: the detector is what `_update` makes of the number of events
    -- in each minute from the first to the one before the last, empty ones included, and its count is
    -- that of the last minute. What is used of the numbers is that float(0) is 0.0.
    pub learn_events-feed :
        (c : CusumDetector F) (e : SeerflowEvent) (es : List SeerflowEvent)
        → c.current_bucket ≡ negsuc 0
        → IsSteady (minute e) (map minute es)
        → let bs = map minute (e ∷ es) in
          let start = minute e in
          let last = last_minute start bs in
          learn_events c (e ∷ es)
          ≡ mark (feed c start (last - start) (λ m. count_in m bs)) last (count_in last bs)
    unfolding learn_events learn last_minute count_in
    learn_events-feed c e es fresh steady =
        let b = minute e in
        let bs = map minute es in
        let last = last_minute b bs in
        let step = counts_first b bs in
        rw (learn_first c b fresh, learn_events-all (mark c b 1) es)
          (learn_all-feed c b 1 bs steady
            ∙ mark-congr c b last (last - b) (last - b) (counts b 1 bs last)
                (count_in last (b ∷ bs)) (counts b 1 bs) (λ m. count_in m (b ∷ bs)) refl (step last)
                (λ i low high. step i))
