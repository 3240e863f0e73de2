-- ===== src/Counters/Laws.antt =====
-- The counters of src/logic/InstructionCounter.ts, read as a function of the node and the stream.
use network_old.Base.{
  ◌⊎◌, inl, inr, Bool-cases, leb, zero, ◌≤◌, ℤ, pos, negsuc, All, if_elim, ℕ, ◌+◌, suc, ◌≡◌, refl,
  ◌∙◌, false, ◌&&◌, [], ◌∷◌, Option, none, some, arith, Eq, ◌==◌, lookup, insert, remove, update,
  lookup-insert, lookup-remove, lookup-update, lookup-map_values, lookup-nil, lookup_of_absent_key,
  IsKeyed, contains, keys, if◌then◌else◌,
}
use network_old.Identifiers.{StreamStatus, StatusStreams}
use network_old.Counters.{
  Counters, or_zero, or_no_counters, is_current, get_and_set_if_necessary, set_or_increment,
  filter_status, remove_node, remove_stream,
}

abbrev pub if_current : {N : Type 0} → Option (StreamStatus N) → ℕ → Option (StreamStatus N)
if_current none counter = none
if_current (some entry) counter = if is_current entry counter then some entry else none

-- A report's counter is that of an instruction or a higher one, or it is -1.
abbrev pub IsInTime : ℤ → ℕ → Type 0
IsInTime (pos reported) counter = counter ≤ reported
IsInTime (negsuc n) counter = n ≡ 0

-- What a filter has left of the entry for a stream.
abbrev pub IsSifted : {N : Type 0} → StreamStatus N → ℕ → Option (StreamStatus N) → Type 0
IsSifted entry counter left =
    (IsInTime entry.counter counter × (left ≡ some entry))
    ⊎ (¬ IsInTime entry.counter counter × (left ≡ none))

if_current-IsSifted :
    {N : Type 0} (entry : StreamStatus N) (counter : ℕ)
    → IsSifted entry counter (if_current (some entry) counter)
if_current-IsSifted entry counter = by_counter entry.counter refl
  where
    by_counter :
        (z : ℤ)
        → entry.counter ≡ z
        → (IsInTime z counter × (if_current (some entry) counter ≡ some entry))
          ⊎ (¬ IsInTime z counter × (if_current (some entry) counter ≡ none))
    by_counter (pos reported) h = elim (Bool-cases (leb counter reported)) [
      | inl high ↦ inl (ground (arith, high), ground (arith, h, high))
      | inr low ↦ inr (λ high. absurd (ground (arith, low, high)), ground (arith, h, low))
    ]
    by_counter (negsuc zero) h = inl (refl, ground (arith, h))
    by_counter (negsuc (suc n)) h = inr (λ minus_one. absurd (omega arith), ground (arith, h))

module _ {N K : Type 0} ⦃en : Eq N⦄ ⦃ek : Eq K⦄ where
  -- The counter of a node for a stream, 0 if there is none.
  unfoldable pub counter_of : Counters N K → N → K → ℕ
  counter_of c n k = or_zero (lookup k (or_no_counters (lookup n c)))

  pub get_and_set_if_necessary_lem :
      (c : Counters N K) (n : N) (k : K) (m : N) (j : K)
      → (counter_of (get_and_set_if_necessary c n k).0 m j ≡ counter_of c m j)
        × ((get_and_set_if_necessary c n k).1 ≡ counter_of c n k)
  unfolding get_and_set_if_necessary counter_of
  get_and_set_if_necessary_lem c n k m j =
      let row = or_no_counters (lookup n c) in
      (
        ground (
          arith,
          lookup-insert n m (insert k (or_zero (lookup k row)) row) c,
          lookup-insert k j (or_zero (lookup k row)) row,
          en.equals_iff n m,
          ek.equals_iff k j,
        ),
        refl,
      )

  -- `setOrIncrement` raises the counter of the node for the stream by one, returns it, and leaves
  -- all other counters.
  pub set_or_increment_lem :
      (c : Counters N K) (n : N) (k : K) (m : N) (j : K)
      → (counter_of (set_or_increment c n k).0 m j
          ≡ (if (n == m) && (k == j) then counter_of c n k + 1 else counter_of c m j))
        × ((set_or_increment c n k).1 ≡ counter_of c n k + 1)
  unfolding set_or_increment counter_of
  set_or_increment_lem c n k m j =
      let row = or_no_counters (lookup n c) in
      let value = or_zero (lookup k row) in
      let c' = insert n (insert k value row) c in
      (
        ground (
          arith,
          lookup-update n m (update k suc) c',
          lookup-insert n m (insert k value row) c,
          lookup-update k j suc (insert k value row),
          lookup-insert k j value row,
          en.equals_iff n m,
          ek.equals_iff k j,
          lookup-update k j suc (or_no_counters (lookup m c')),
        ),
        refl,
      )

  -- Filtering sets counters up, and changes none.
  pub counter_of-filter_status :
      (c : Counters N K) (streams : StatusStreams N K) (source : N) (m : N) (j : K)
      → counter_of (filter_status c streams source).0 m j ≡ counter_of c m j
  unfolding filter_status
  counter_of-filter_status c [] source m j = refl
  counter_of-filter_status c ((k, entry) ∷ streams) source m j =
      counter_of-filter_status (get_and_set_if_necessary c source k).0 streams source m j
      ∙ (get_and_set_if_necessary_lem c source k m j).0

  contains-keys-filter_status :
      (c : Counters N K) (streams : StatusStreams N K) (source : N) (k : K)
      → contains (keys streams) k ≡ false
      → contains (keys (filter_status c streams source).1) k ≡ false
  unfolding filter_status
  contains-keys-filter_status c [] source k h = refl
  contains-keys-filter_status c ((j, entry) ∷ streams) source k h =
      ground (
        arith,
        contains-keys-filter_status (get_and_set_if_necessary c source j).0 streams source k,
      )

  -- `filterStatus` keeps exactly the entries of a status that are not below the node's counter for
  -- their stream or are -1, as they are, and changes no counter.
  lookup-filter_status :
      (c : Counters N K) (streams : StatusStreams N K) (source : N) (k : K)
      → IsKeyed streams
      → (lookup k (filter_status c streams source).1
          ≡ if_current (lookup k streams) (counter_of c source k))
        × ((m : N) (j : K) → counter_of (filter_status c streams source).0 m j ≡ counter_of c m j)
  unfolding filter_status lookup
  lookup-filter_status c [] source k d = (refl, λ m j. refl)
  lookup-filter_status c ((j, entry) ∷ streams) source k d =
      let c' = (get_and_set_if_necessary c source j).0 in
      (
        ground (
          arith,
          (lookup-filter_status c' streams source k d.1).0,
          (get_and_set_if_necessary_lem c source j source k).0,
          (get_and_set_if_necessary_lem c source j source k).1,
          ek.equals_iff j k,
          lookup_of_absent_key k streams,
          lookup_of_absent_key k (filter_status c' streams source).1,
          contains-keys-filter_status c' streams source k,
          d.0,
        ),
        counter_of-filter_status c ((j, entry) ∷ streams) source,
      )

  -- Once a node has been sent an instruction, its report on the stream passes the filter exactly
  -- if it carries that instruction's counter or a higher one, or -1.
  pub filter_status-set_or_increment :
      (c : Counters N K) (n : N) (k : K) (streams : StatusStreams N K) (entry : StreamStatus N)
      → IsKeyed streams
      → lookup k streams ≡ some entry
      → let (c', sent) = set_or_increment c n k in
        (sent ≡ counter_of c n k + 1)
        × IsSifted entry sent (lookup k (filter_status c' streams n).1)
  filter_status-set_or_increment c n k streams entry d h =
      let (c', sent) = set_or_increment c n k in
      let sifted : lookup k (filter_status c' streams n).1 ≡ if_current (some entry) sent = ground (
        arith,
        (lookup-filter_status c' streams n k d).0,
        (set_or_increment_lem c n k n k).0,
        (set_or_increment_lem c n k n k).1,
        en.equals_iff n n,
        ek.equals_iff k k,
        h,
      ) in
      ((set_or_increment_lem c n k n k).1, rw sifted (if_current-IsSifted entry sent))

  -- `removeNode` forgets all counters of the node, and `removeStream` those of the stream at every
  -- node; neither touches another counter.
  pub counter_of-remove :
      (c : Counters N K) (n : N) (k : K) (m : N) (j : K)
      → (counter_of (remove_node c n) m j ≡ (if n == m then 0 else counter_of c m j))
        × (counter_of (remove_stream c k) m j ≡ (if k == j then 0 else counter_of c m j))
  unfolding remove_node remove_stream counter_of
  counter_of-remove c n k m j = (
    ground (arith, lookup-remove n m c, lookup-nil {V = ℕ} j),
    ground (
      arith,
      lookup-map_values m (λ _ row. remove k row) c,
      lookup-remove k j (or_no_counters (lookup m c)),
      lookup-nil {V = ℕ} j,
    ),
  )

  -- What all entries have, those that pass the filter have.
  pub filter_status-All :
      (P : K × StreamStatus N → Type 0) (c : Counters N K) (streams : StatusStreams N K) (n : N)
      → All P streams
      → All P (filter_status c streams n).1
  unfolding filter_status
  filter_status-All P c [] n h = tt
  filter_status-All P c ((k, entry) ∷ streams) n h =
      let (c', current) = get_and_set_if_necessary c n k in
      let rest = filter_status-All P c' streams n h.1 in
      let kept : All P ((k, entry) ∷ (filter_status c' streams n).1) = (h.0, rest) in
      if_elim (λ (xs : StatusStreams N K). All P xs) (is_current entry current) kept rest
