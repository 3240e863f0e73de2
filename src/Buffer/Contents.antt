-- ===== src/Buffer/Contents.antt =====
-- The messages of src/helpers/MessageBuffer.ts that wait under each id.
use network_old.Base.{
  ℕ, ◌≤◌, leb, ◌≡◌, ◌∙◌, ap, if◌then◌else◌, true, false, List, [], ◌∷◌, ◌++◌, ok, err, length,
  is_empty, Eq, ◌==◌, number_eq, has_key, not, lookup, lookup-insert, lookup-remove, arith,
  Option-cases, inl, inr,
}
use network_old.Buffer.{
  MessageBuffer, missing, or_none, shift, pop_from, pop, push, with_array, with_room, put,
}

-- A full array without its oldest message.
abbrev pub make_room : {M : Type 0} → ℕ → List M → List M
make_room max messages = if leb max (length messages) then (shift messages).1 else messages

module _ {K M : Type 0} ⦃e : Eq K⦄ where
  -- The messages under an id, the oldest first.
  unfoldable pub contents : MessageBuffer K M → K → List M
  contents b k = or_none (lookup k b.buffer)

  -- `pop` takes the oldest message of the id and leaves those of the other ids.
  pub pop_lem :
      (b : MessageBuffer K M) (k j : K)
      → ((pop b k).1 ≡ (shift (contents b k)).0)
        × (contents (pop b k).0 j ≡ (if k == j then (shift (contents b k)).1 else contents b j))
  unfolding contents pop pop_from
  pop_lem b k j = elim (Option-cases (lookup k b.buffer)) [
    | inl h ↦ (ground (arith, h), ground (arith, h, e.equals_iff k j))
    | inr (messages, h) ↦ (
      ground (arith, h),
      ground (
        arith,
        h,
        e.equals_iff k j,
        lookup-remove k j b.buffer,
        lookup-insert k j (shift messages).1 b.buffer,
      ),
    )
  ]

  max_size-pop : (b : MessageBuffer K M) (k : K) → (pop b k).0.max_size ≡ b.max_size
  unfolding pop pop_from
  max_size-pop b k = elim (Option-cases (lookup k b.buffer)) [
    | inl h ↦ ground (arith, h)
    | inr (messages, h) ↦ ground (arith, h)
  ]

  push_lem :
      (b : MessageBuffer K M) (k : K) (m : M) (j : K)
      → has_key k b.buffer ≡ true
      → ((push b k m).1 ≡ ok tt)
        × (contents (push b k m).0 j ≡ (if k == j then contents b k ++ m ∷ [] else contents b j))
        × ((push b k m).0.max_size ≡ b.max_size)
  unfolding contents push has_key
  push_lem b k m j there = elim (Option-cases (lookup k b.buffer)) [
    | inl h ↦ absurd (cc (there, h))
    | inr (messages, h) ↦ (
      ground (arith, h),
      ground (arith, h, e.equals_iff k j, lookup-insert k j (messages ++ m ∷ []) b.buffer),
      ground (arith, h),
    )
  ]

  with_array_lem :
      (b : MessageBuffer K M) (k j : K)
      → (contents (with_array b k) j ≡ contents b j)
        × (has_key k (with_array b k).buffer ≡ true)
        × ((with_array b k).max_size ≡ b.max_size)
  unfolding contents with_array has_key
  with_array_lem b k j = elim (Option-cases (lookup k b.buffer)) [
    | inl h ↦ (
      ground (arith, h, e.equals_iff k j, lookup-insert k j [] b.buffer),
      ground (arith, h, e.equals_iff k k, lookup-insert k k [] b.buffer),
      ground (arith, h),
    )
    | inr (messages, h) ↦ (ground (arith, h), ground (arith, h), ground (arith, h))
  ]

  has_key-pop :
      (b : MessageBuffer K M) (k : K)
      → has_key k (pop b k).0.buffer ≡ not (is_empty (shift (contents b k)).1)
  unfolding contents pop pop_from has_key
  has_key-pop b k = elim (Option-cases (lookup k b.buffer)) [
    | inl h ↦ ground (arith, h)
    | inr (messages, h) ↦ ground (
      arith,
      h,
      e.equals_iff k k,
      lookup-remove k k b.buffer,
      lookup-insert k k (shift messages).1 b.buffer,
    )
  ]

  with_room_lem :
      (b : MessageBuffer K M) (k j : K)
      → has_key k b.buffer ≡ true
      → (contents (with_room b k) j
          ≡ (if k == j then make_room b.max_size (contents b k) else contents b j))
        × (2 ≤ b.max_size → has_key k (with_room b k).buffer ≡ true)
        × ((with_room b k).max_size ≡ b.max_size)
  unfolding with_room contents
  with_room_lem b k j there = (
    ground (arith, (pop_lem b k j).1, e.equals_iff k j),
    λ room. ground (arith, has_key-pop b k, there),
    ground (arith, max_size-pop b k),
  )

  -- With room for two messages or more, `put` adds the message as the newest, in place of the oldest
  -- one if the id has as many as may be, and leaves those of the other ids.
  pub put_lem :
      (b : MessageBuffer K M) (k : K) (m : M) (j : K)
      → 2 ≤ b.max_size
      → ((put b k m).1 ≡ ok tt)
        × (contents (put b k m).0 j
            ≡ (if k == j then make_room b.max_size (contents b k) ++ m ∷ [] else contents b j))
        × ((put b k m).0.max_size ≡ b.max_size)
  unfolding put
  put_lem b k m j room =
      let b' = with_array b k in
      let (_, there, max) = with_array_lem b k j in
      let (_, kept, max') = with_room_lem b' k j there in
      let pushed = push_lem (with_room b' k) k m j (kept (omega (arith, max))) in
      (
        pushed.0,
        ground (
          arith,
          pushed.1,
          (with_room_lem b' k j there).0,
          (with_room_lem b' k k there).0,
          max,
          (with_array_lem b k j).0,
          (with_array_lem b k k).0,
          e.equals_iff k j,
          e.equals_iff k k,
        ),
        pushed.2 ∙ max' ∙ max,
      )

  push-absent :
      (b : MessageBuffer K M) (k : K) (m : M)
      → has_key k b.buffer ≡ false
      → (push b k m ≡ (b, err missing)) × (contents b k ≡ [])
  unfolding push has_key contents
  push-absent b k m absent = elim (Option-cases (lookup k b.buffer)) [
    | inl h ↦ (ground (arith, h), ground (arith, h))
    | inr (messages, h) ↦ absurd (cc (absent, h))
  ]

  has_key-with_room :
      (b : MessageBuffer K M) (k : K) (x : M)
      → b.max_size ≡ 1
      → contents b k ≡ x ∷ []
      → has_key k (with_room b k).buffer ≡ false
  unfolding with_room contents
  has_key-with_room b k x one full = ground (arith, has_key-pop b k, one, full)

  -- With room for one message, `put` throws where the id has a message, and that one is lost.
  pub put_into_one :
      (b : MessageBuffer K M) (k : K) (x m : M)
      → b.max_size ≡ 1
      → contents b k ≡ x ∷ []
      → ((put b k m).1 ≡ err missing) × (contents (put b k m).0 k ≡ [])
  unfolding put
  put_into_one b k x m one full =
      let (same, _, max) = with_array_lem b k k in
      let (failed, lost) =
        push-absent (with_room (with_array b k) k) k m
          (has_key-with_room (with_array b k) k x (max ∙ one) (same ∙ full)) in
      (ap (λ r. r.1) failed, ap (λ r. contents r.0 k) failed ∙ lost)
