-- ===== src/Buffer/Histories.antt =====
-- The calls that change the state of src/helpers/MessageBuffer.ts, and the timers that run.
use network_old.Base.{
  ℕ, leb, ◌≡◌, ap, if◌then◌else◌, true, List, [], ◌∷◌, Option, none, some, length, Eq, ◌==◌,
  number_eq, keys, lookup, remove, lookup-remove, arith, Option-cases, inl, inr, if_elim,
}
use network_old.Buffer.{
  MessageBuffer, or_none, shift, put, pop, pop_from, pop_all, with_array, with_room, run_timer,
  clear, clear_ids,
}
use network_old.Buffer.Contents.{contents, pop_lem}
use network_old.Buffer.Timers.{
  IsTimed, refs, is_just, pop-IsTimed, with_array-IsTimed, push-IsTimed, pop_all-IsTimed,
}

pub data Operation (K M : Type 0) : Type 0 where
  put_one : K → M → Operation K M
  pop_one pop_each : K → Operation K M
  clear_each : Operation K M

is_just-eq : {K : Type 0} ⦃e : Eq K⦄ (o : Option K) (k : K) → is_just o k ≡ true → o ≡ some k
is_just-eq none k h = cc
is_just-eq ⦃e⦄ (some i) k h = ap some ((e.equals_iff i k).0 h)

module _ {K M : Type 0} ⦃e : Eq K⦄ where
  unfoldable pub perform : MessageBuffer K M → Operation K M → MessageBuffer K M
  perform b (put_one k m) = (put b k m).0
  perform b (pop_one k) = (pop b k).0
  perform b (pop_each k) = (pop_all b k).0
  perform b clear_each = clear b

  clear_ids-IsTimed : (ks : List K) (b : MessageBuffer K M) → IsTimed b → IsTimed (clear_ids ks b)
  clear_ids-IsTimed [] b v = v
  clear_ids-IsTimed (k ∷ ks) b v = clear_ids-IsTimed ks (pop_all b k).0 (pop_all-IsTimed b k v)

  -- Every call, also a `put` that throws, keeps a timer for each message: an id has as many timers
  -- as messages, they are all different, and they are the timers that are armed for it.
  pub perform-IsTimed :
      (b : MessageBuffer K M) (o : Operation K M) → IsTimed b → IsTimed (perform b o)
  unfolding perform put with_room clear
  perform-IsTimed b (put_one k m) v =
      let b' = with_array b k in
      let v' = with_array-IsTimed b k v in
      push-IsTimed (with_room b' k) k m (
        if_elim (λ (c : MessageBuffer K M). IsTimed c)
          (leb b'.max_size (length (or_none (lookup k b'.buffer)))) (pop-IsTimed b' k v') v')
  perform-IsTimed b (pop_one k) v = pop-IsTimed b k v
  perform-IsTimed b (pop_each k) v = pop_all-IsTimed b k v
  perform-IsTimed b clear_each v = clear_ids-IsTimed (keys b.buffer) b v

  same-IsTimed :
      (b b' : MessageBuffer K M)
      → b'.buffer ≡ b.buffer
      → b'.timeout_refs ≡ b.timeout_refs
      → b'.next_ref ≡ b.next_ref
      → ((r : ℕ) → lookup r b'.armed ≡ lookup r b.armed)
      → IsTimed b
      → IsTimed b'
  unfolding contents
  same-IsTimed b b' p q n a v = record {
    aligned = λ k. ground (arith, v.aligned k, p, q);
    distinct = λ k. ground (arith, v.distinct k, q);
    armed = λ k r. ground (arith, v.armed k r, q, a r);
    fresh = λ r late. ground (arith, v.fresh r, late, n, a r);
  }

  -- `pop` clears the oldest timer, whether it is still armed or not.
  pop-disarmed :
      (b : MessageBuffer K M) (k : K) (ref : ℕ)
      → IsTimed b
      → (shift (refs b k)).0 ≡ some ref
      → let popped = (pop (record b { armed = remove ref b.armed }) k).0 in
        (popped.buffer ≡ (pop b k).0.buffer)
        × (popped.timeout_refs ≡ (pop b k).0.timeout_refs)
        × (popped.next_ref ≡ (pop b k).0.next_ref)
        × ((r : ℕ) → lookup r popped.armed ≡ lookup r (pop b k).0.armed)
  unfolding pop pop_from contents
  pop-disarmed b k ref v oldest = elim (Option-cases (lookup k b.buffer)) [
    | inl h ↦ absurd (ground (arith, h, v.aligned k, oldest))
    | inr (messages, h) ↦ (
      ground (arith, h),
      ground (arith, h),
      ground (arith, h),
      λ r.
          ground (
            arith,
            h,
            oldest,
            lookup-remove ref r b.armed,
            lookup-remove ref r (remove ref b.armed),
          ),
    )
  ]

  armed_for :
      (b : MessageBuffer K M) (k : K) (ref : ℕ)
      → IsTimed b
      → (shift (refs b k)).0 ≡ some ref
      → lookup ref b.armed ≡ some k
  armed_for b k ref v oldest = ground (
    arith,
    oldest,
    v.armed k ref,
    number_eq.equals_iff ref ref,
    is_just-eq (lookup ref b.armed) k,
  )

  -- When the oldest timer of an id runs, the oldest message of the id goes and no other, and every
  -- message that is left has its timer.
  run_timer_lem :
      (b : MessageBuffer K M) (k : K) (ref : ℕ) (j : K)
      → IsTimed b
      → (shift (refs b k)).0 ≡ some ref
      → IsTimed (run_timer b ref)
        × (contents (run_timer b ref) j
            ≡ (if k == j then (shift (contents b k)).1 else contents b j))
  unfolding run_timer contents
  run_timer_lem b k ref j v oldest =
      let b' : MessageBuffer K M = record b { armed = remove ref b.armed } in
      let (p, q, n, a) = pop-disarmed b k ref v oldest in
      rw (run_timer, armed_for b k ref v oldest)
        (same-IsTimed (pop b k).0 (pop b' k).0 p q n a (pop-IsTimed b k v), (pop_lem b' k j).1)
