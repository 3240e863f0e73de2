-- ===== src/Tracker/Counts.antt =====
-- The counters that the instructions of src/logic/Tracker.ts carry.
use network_old.Base.{
  ℕ, suc, ◌+◌, ◌<◌, ◌≤◌, ◌≡◌, Bool, true, ◌&&◌, List, [], ◌∷◌, ◌++◌, arith, Eq, ◌==◌, if◌then◌else◌,
  All, All-append, All-imp,
}
use network_old.Counters.{Counters, set_or_increment}
use network_old.Counters.Laws.{counter_of, set_or_increment_lem}
use network_old.Tracker.{Instruction}

module _ {N K : Type 0} ⦃en : Eq N⦄ ⦃ek : Eq K⦄ where
  -- The instruction is for this node and stream.
  abbrev is_for : N → K → Instruction N K → Bool
  is_for n k i = (i.node_id == n) && (i.stream_key == k)

  -- How many of the instructions are for this node and stream.
  unfoldable pub sent_to : N → K → List (Instruction N K) → ℕ
  sent_to n k [] = 0
  sent_to n k (i ∷ is) = if is_for n k i then suc (sent_to n k is) else sent_to n k is

  sent_to-append :
      (n : N) (k : K) (is js : List (Instruction N K))
      → sent_to n k (is ++ js) ≡ sent_to n k is + sent_to n k js
  unfolding sent_to
  sent_to-append n k [] js = omega arith
  sent_to-append n k (i ∷ is) js = ground (arith, sent_to-append n k is js)

  -- Later instructions for the same node and stream have higher counters.
  abbrev pub AreAscending : List (Instruction N K) → Type 0
  AreAscending [] = Unit
  AreAscending (i ∷ is) =
      All (λ j. is_for i.node_id i.stream_key j ≡ true → i.counter < j.counter) is × AreAscending is

  -- The instructions carry the counters between those before them and those after them.
  pub record AreCounted (c : Counters N K) (is : List (Instruction N K)) (c' : Counters N K)
      : Type 0 where
    pub counted : (n : N) (k : K) → counter_of c' n k ≡ counter_of c n k + sent_to n k is
    pub within :
        All
          (λ i.
            (counter_of c i.node_id i.stream_key < i.counter)
            × (i.counter ≤ counter_of c' i.node_id i.stream_key))
          is
    pub ascending : AreAscending is

  append-AreAscending :
      (c : Counters N K) (is js : List (Instruction N K))
      → AreAscending is
      → AreAscending js
      → All (λ i. i.counter ≤ counter_of c i.node_id i.stream_key) is
      → All (λ j. counter_of c j.node_id j.stream_key < j.counter) js
      → AreAscending (is ++ js)
  append-AreAscending c [] js h k below above = k
  append-AreAscending c (i ∷ is) js h k below above = (
    All-append (λ j. is_for i.node_id i.stream_key j ≡ true → i.counter < j.counter) is js h.0
        (All-imp (λ j. counter_of c j.node_id j.stream_key < j.counter) _ js
          (λ j later same. ground (
            arith,
            later,
            same,
            below.0,
            en.equals_iff j.node_id i.node_id,
            ek.equals_iff j.stream_key i.stream_key,
          ))
          above),
    append-AreAscending c is js h.1 k below.1 above,
  )

  pub AreCounted-append :
      (c c' c'' : Counters N K) (is js : List (Instruction N K))
      → AreCounted c is c'
      → AreCounted c' js c''
      → AreCounted c (is ++ js) c''
  AreCounted-append c c' c'' is js h k = record {
    counted = λ n l. ground (arith, h.counted n l, k.counted n l, sent_to-append n l is js);
    within =
        All-append _ is js
          (All-imp _ _ is (λ i w. (w.0, omega (arith, w.1, k.counted i.node_id i.stream_key)))
            h.within)
          (All-imp _ _ js (λ j w. (omega (arith, w.0, h.counted j.node_id j.stream_key), w.1))
            k.within);
    ascending =
        append-AreAscending c' is js h.ascending k.ascending (All-imp _ _ is (λ i w. w.1) h.within)
          (All-imp _ _ js (λ j w. w.0) k.within);
  }

  pub AreCounted-nil : (c : Counters N K) → AreCounted c [] c
  unfolding sent_to
  AreCounted-nil c = record { counted = λ n k. omega arith; within = tt; ascending = tt }

  pub AreCounted-one :
      (c : Counters N K) (n : N) (k : K) (ns : List N)
      → let (c', value) = set_or_increment c n k in
        AreCounted c
          (record { node_id = n; stream_key = k; new_neighbors = ns; counter = value } ∷ [])
          c'
  unfolding sent_to
  AreCounted-one c n k ns =
      let raised = set_or_increment_lem c n k in
      record {
        counted = λ m j. ground (arith, (raised m j).0, en.equals_iff n m, ek.equals_iff k j);
        within = (
          (
            omega (arith, (raised n k).1),
            ground (arith, (raised n k).0, (raised n k).1, en.equals_iff n n, ek.equals_iff k k),
          ),
          tt,
        );
        ascending = (tt, tt);
      }
