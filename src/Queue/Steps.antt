-- ===== src/Queue/Steps.antt =====
-- What a history of calls of src/connection/MessageQueue.ts does.
use mathlib.Core.Path.{subst}
use network_old.Base.{
  length-map, ℕ, suc, ◌<◌, eqb, Bool-cases, inl, inr, ◌+◌, ◌≡◌, refl, ◌∙◌, sym, ap, true, false,
  List, [], ◌∷◌, none, some, Result, ok, err, ◌>>=◌, length, map, arith,
}
use network_old.Queue.{
  QueueItem, QueueError, queue_full, immediate_fail, HeapOperations, MessageQueue, queue_size,
  pop_message, clear_queue, push_new, make_room, add_message,
}
use network_old.Queue.Order.{
  first_of, rest_of, IsHeap, QueueOperation, added, popped, cleared, Run, fifo_step, fifo_steps,
  message_of, rest-All, map-rest, queue_step, queue_steps, Holds, map-first, length-rest, raise,
  push_new-Holds,
}

module _ {H M : Type 0} {ops : HeapOperations H (QueueItem M)} (is : IsHeap ops) where
  add_with_room :
      (next : ℕ) (m : M) (q : MessageQueue H)
      → eqb (ops.item_count q.heap) q.max_size ≡ false
      → add_message ops next m q ≡ push_new ops next m (ok (q, none))
  unfolding add_message make_room queue_size
  add_with_room next m q h = rw (add_message, make_room, queue_size, h) refl

  add_when_full :
      (next : ℕ) (m : M) (q : MessageQueue H) (item : QueueItem M)
      → eqb (ops.item_count q.heap) q.max_size ≡ true
      → (ops.pop_item q.heap).0 ≡ some item
      → add_message ops next m q
        ≡ push_new ops next m (
            ok (record q { heap = (ops.pop_item q.heap).1 }, some (immediate_fail queue_full item)))
  unfolding add_message make_room queue_size pop_message
  add_when_full next m q item h k =
      rw (add_message, make_room, queue_size, h) (rw (pop_message, k) refl)

  some-first :
      {A : Type 0} (xs : List A) (n : ℕ) → length xs ≡ suc n → (x : A) × (first_of xs ≡ some x)
  some-first [] n h = absurd (omega (arith, h))
  some-first (x ∷ xs) n h = (x, refl)

  length-Holds :
      (f : List M) (q : MessageQueue H)
      → map message_of (is.contents q.heap) ≡ f
      → ops.item_count q.heap ≡ length f
  length-Holds f q same =
      is.item_count_lem q.heap ∙ sym (length-map message_of (is.contents q.heap)) ∙ ap length same

  added-Holds :
      (next n : ℕ) (m : M) (r : Run (MessageQueue H) M) (f : Run (List M) M)
      → Holds is next (suc n) f (ok r)
      → Holds is
          (suc next)
          (suc n)
          (fifo_step (suc n) f (added m))
          (queue_step ops next r (added m))
  unfolding queue_step
  added-Holds next n m r f (same, given, small, limit, below) =
      elim (Bool-cases (eqb (length f.queue) (suc n))) [
        | inr h ↦
            rw
              (
                queue_step,
                h,
                add_with_room next m r.queue (rw (length-Holds f.queue r.queue same, limit) h),
              )
              (push_new-Holds is next (suc n) m r f r.queue none same given
                (ground (arith, h, small)) limit below)
        | inl h ↦
            let (item, first) = some-first (is.contents r.queue.heap) n (
              ground
                (arith, h, is.item_count_lem r.queue.heap, length-Holds f.queue r.queue same)) in
            rw
              (
                queue_step,
                h,
                add_when_full next m r.queue item (rw (length-Holds f.queue r.queue same, limit) h)
                    (is.pop_first r.queue.heap ∙ first),
              )
              (push_new-Holds is next (suc n) m r (record f { queue = rest_of f.queue })
                (record r.queue { heap = (ops.pop_item r.queue.heap).1 })
                (some (immediate_fail queue_full item))
                (ap (map message_of) (is.contents-pop r.queue.heap)
                  ∙ map-rest message_of (is.contents r.queue.heap)
                  ∙ ap rest_of same)
                given (ground (arith, h, length-rest f.queue)) limit
                (rw (is.contents-pop r.queue.heap)
                  (rest-All (λ y. y.no < next) (is.contents r.queue.heap) below)))
      ]

  popped-Holds :
      (next max : ℕ) (r : Run (MessageQueue H) M) (f : Run (List M) M)
      → Holds is next max f (ok r)
      → Holds is (suc next) max (fifo_step max f popped) (queue_step ops next r popped)
  unfolding queue_step pop_message
  popped-Holds next max r f (same, given, small, limit, below) =
      let xs = is.contents r.queue.heap in
      (
        ap (map message_of) (is.contents-pop r.queue.heap)
            ∙ map-rest message_of xs
            ∙ ap rest_of same,
        rw (given, is.pop_first r.queue.heap, map-first xs, same) refl,
        omega (arith, small, length-rest f.queue),
        limit,
        rw (is.contents-pop r.queue.heap)
            (raise next (rest_of xs) (rest-All (λ y. y.no < next) xs below)),
      )

  cleared-Holds :
      (next max : ℕ) (r : Run (MessageQueue H) M) (f : Run (List M) M)
      → Holds is next max f (ok r)
      → Holds is (suc next) max (fifo_step max f cleared) (queue_step ops next r cleared)
  unfolding queue_step clear_queue
  cleared-Holds next max r f (same, given, small, limit, below) = (
    ap (map message_of) (is.contents-clear r.queue.heap),
    given,
    omega arith,
    limit,
    rw (is.contents-clear r.queue.heap) tt,
  )

  step-Holds :
      (next n : ℕ) (r : Run (MessageQueue H) M) (f : Run (List M) M) (o : QueueOperation M)
      → Holds is next (suc n) f (ok r)
      → Holds is (suc next) (suc n) (fifo_step (suc n) f o) (queue_step ops next r o)
  step-Holds next n r f (added m) h = added-Holds next n m r f h
  step-Holds next n r f popped h = popped-Holds next (suc n) r f h
  step-Holds next n r f cleared h = cleared-Holds next (suc n) r f h

  bind-Holds :
      (before after n : ℕ) (f g : Run (List M) M) (r : Result QueueError (Run (MessageQueue H) M))
      (k : Run (MessageQueue H) M → Result QueueError (Run (MessageQueue H) M))
      → Holds is before (suc n) f r
      → ((r' : Run (MessageQueue H) M)
          → Holds is before (suc n) f (ok r')
          → Holds is after (suc n) g (k r'))
      → Holds is after (suc n) g (r >>= k)
  bind-Holds before after n f g (ok r) k h go = go r h
  bind-Holds before after n f g (err x) k h go = absurd h

  -- Whatever is done with a queue whose limit is not 0, no call throws, and the queue does what a
  -- list of messages does to which the new ones are added at the end and from which `pop` takes the
  -- first: it gives the messages back in the order in which they came, when it is full it drops the
  -- oldest, and it never holds more than its limit.
  pub queue_steps-Holds :
      (next n : ℕ) (r : Run (MessageQueue H) M) (f : Run (List M) M) (os : List (QueueOperation M))
      → Holds is next (suc n) f (ok r)
      → Holds is (next + length os) (suc n) (fifo_steps (suc n) f os) (queue_steps ops next r os)
  unfolding queue_steps
  queue_steps-Holds next n r f [] h = subst (λ k. Holds is k (suc n) f (ok r)) (omega arith) h
  queue_steps-Holds next n r f (o ∷ os) h =
      bind-Holds (suc next) (next + suc (length os)) n (fifo_step (suc n) f o)
        (fifo_steps (suc n) (fifo_step (suc n) f o) os) (queue_step ops next r o)
        (λ r'. queue_steps ops (suc next) r' os) (step-Holds next n r f o h)
        (λ r' h'.
          subst
            (λ k.
              Holds is k (suc n) (fifo_steps (suc n) (fifo_step (suc n) f o) os)
                (queue_steps ops (suc next) r' os))
            (omega arith) (queue_steps-Holds (suc next) n r' (fifo_step (suc n) f o) os h'))
