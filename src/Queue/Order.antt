-- ===== src/Queue/Order.antt =====
-- The order in which the queue of src/connection/MessageQueue.ts gives back the messages.
use Prim.Native.Nat.{◌≤◌}
use network_old.Base.{
  map-append, ℕ, suc, ◌<◌, ◌-◌, eqb, ◌≡◌, refl, ◌∙◌, ap, List, [], ◌∷◌, ◌++◌, Option, none, some,
  Result, ok, err, ◌>>=◌, if◌then◌else◌, length, map, All, All-append, All-imp, arith,
  length-append,
}
use mathlib.Core.Option
use network_old.Queue.{
  QueueItem, QueueError, new_item, is_before, HeapOperations, MessageQueue, pop_message,
  clear_queue, push_new, add_message,
}

abbrev pub insert_in_order : {M : Type 0} → QueueItem M → List (QueueItem M) → List (QueueItem M)
insert_in_order x [] = x ∷ []
insert_in_order x (y ∷ ys) = if is_before x y then x ∷ y ∷ ys else y ∷ insert_in_order x ys

abbrev pub first_of : {A : Type 0} → List A → Option A
first_of [] = none
first_of (x ∷ xs) = some x

abbrev pub rest_of : {A : Type 0} → List A → List A
rest_of [] = []
rest_of (x ∷ xs) = xs

-- What the package heap documents, for heaps that give back the smallest item: `contents` lists the
-- items in the order in which they would be popped.
pub record IsHeap {H M : Type 0} (ops : HeapOperations H (QueueItem M)) : Type 0 where
  pub contents : H → List (QueueItem M)
  pub contents-push :
      (x : QueueItem M) (h : H) → contents (ops.push_item x h) ≡ insert_in_order x (contents h)
  pub pop_first : (h : H) → (ops.pop_item h).0 ≡ first_of (contents h)
  pub contents-pop : (h : H) → contents (ops.pop_item h).1 ≡ rest_of (contents h)
  pub contents-clear : (h : H) → contents (ops.clear_items h) ≡ []
  pub item_count_lem : (h : H) → ops.item_count h ≡ length (contents h)

pub data QueueOperation (M : Type 0) : Type 0 where
  added : M → QueueOperation M
  popped : QueueOperation M
  cleared : QueueOperation M

-- What `pop` has given back so far, with what the queue is.
pub record Run (Q A : Type 0) : Type 0 where
  pub queue : Q
  pub given : List (Option A)

-- The queue as a list of messages, the oldest first, with at most `max` of them.
abbrev pub fifo_step : {M : Type 0} → ℕ → Run (List M) M → QueueOperation M → Run (List M) M
fifo_step max r (added m) = record r {
  queue = (if eqb (length r.queue) max then rest_of r.queue else r.queue) ++ m ∷ [];
}
fifo_step max r popped = record {
  queue = rest_of r.queue;
  given = r.given ++ first_of r.queue ∷ [];
}
fifo_step max r cleared = record r { queue = [] }

abbrev pub fifo_steps : {M : Type 0} → ℕ → Run (List M) M → List (QueueOperation M) → Run (List M) M
fifo_steps max r [] = r
fifo_steps max r (o ∷ os) = fifo_steps max (fifo_step max r o) os

abbrev pub message_of : {M : Type 0} → QueueItem M → M
message_of item = item.message

insert_last :
    {M : Type 0} (x : QueueItem M) (ys : List (QueueItem M))
    → All (λ y. y.no < x.no) ys
    → insert_in_order x ys ≡ ys ++ x ∷ []
insert_last x [] h = refl
insert_last x (y ∷ ys) h = ground (arith, h.0, insert_last x ys h.1)

pub rest-All : {A : Type 0} (P : A → Type 0) (xs : List A) → All P xs → All P (rest_of xs)
rest-All P [] h = tt
rest-All P (x ∷ xs) h = h.1

pub map-rest : {A B : Type 0} (f : A → B) (xs : List A) → map f (rest_of xs) ≡ rest_of (map f xs)
map-rest f [] = refl
map-rest f (x ∷ xs) = refl

abbrev pub with_given : {Q M : Type 0} → List (Option M) → Option (QueueItem M) × Q → Run Q M
with_given given (item, q) = record { queue = q; given = given ++ Option.map message_of item ∷ [] }

pub map-first :
    {M : Type 0} (xs : List (QueueItem M))
    → Option.map message_of (first_of xs) ≡ first_of (map message_of xs)
map-first [] = refl
map-first (x ∷ xs) = refl

pub length-rest : {A : Type 0} (xs : List A) → length (rest_of xs) ≡ length xs - 1
length-rest [] = refl
length-rest (x ∷ xs) = omega arith

pub raise :
    {M : Type 0} (next : ℕ) (ys : List (QueueItem M))
    → All (λ y. y.no < next) ys
    → All (λ y. y.no < suc next) ys
raise next ys = All-imp (λ y. y.no < next) (λ y. y.no < suc next) ys (λ y h. omega (arith, h))

module _ {H M : Type 0} (ops : HeapOperations H (QueueItem M)) where
  -- The number that the next item gets is counted by all queues together.
  unfoldable pub queue_step :
      ℕ → Run (MessageQueue H) M → QueueOperation M → Result QueueError (Run (MessageQueue H) M)
  queue_step next r (added m) =
      add_message ops next m r.queue >>= λ q. ok (record r { queue = q.0 })
  queue_step next r popped = ok (with_given r.given (pop_message ops r.queue))
  queue_step next r cleared = ok (record r { queue = clear_queue ops r.queue })

  unfoldable pub queue_steps :
      ℕ
      → Run (MessageQueue H) M
      → List (QueueOperation M)
      → Result QueueError (Run (MessageQueue H) M)
  unfolding queue_step
  queue_steps next r [] = ok r
  queue_steps next r (o ∷ os) = queue_step next r o >>= λ r'. queue_steps (suc next) r' os

module _ {H M : Type 0} {ops : HeapOperations H (QueueItem M)} (is : IsHeap ops) where
  -- The queue holds the messages of the list, no more than its limit, `pop` has given the same, and
  -- the number is above those of the items.
  abbrev pub Holds : ℕ → ℕ → Run (List M) M → Result QueueError (Run (MessageQueue H) M) → Type 0
  Holds next max f (ok r) =
      (map message_of (is.contents r.queue.heap) ≡ f.queue)
      × (r.given ≡ f.given)
      × (length f.queue ≤ max)
      × (r.queue.max_size ≡ max)
      × All (λ y. y.no < next) (is.contents r.queue.heap)
  Holds next max f (err e) = ⊥

  -- The heap after a push.
  push_last :
      (next : ℕ) (m : M) (h : H)
      → All (λ y. y.no < next) (is.contents h)
      → is.contents (ops.push_item (new_item next m) h) ≡ is.contents h ++ new_item next m ∷ []
  push_last next m h below =
      is.contents-push (new_item next m) h ∙ insert_last (new_item next m) (is.contents h) below

  pub push_new-Holds :
      (next max : ℕ) (m : M) (r : Run (MessageQueue H) M) (f : Run (List M) M) (q : MessageQueue H)
      (dropped : Option (QueueItem M))
      → map message_of (is.contents q.heap) ≡ f.queue
      → r.given ≡ f.given
      → length f.queue < max
      → q.max_size ≡ max
      → All (λ y. y.no < next) (is.contents q.heap)
      → Holds
          (suc next)
          max
          (record f { queue = f.queue ++ m ∷ [] })
          (push_new ops next m (ok (q, dropped)) >>= λ q'. ok (record r { queue = q'.0 }))
  push_new-Holds next max m r f q dropped same given room limit below = (
    ap (map message_of) (push_last next m q.heap below)
        ∙ map-append message_of (is.contents q.heap) (new_item next m ∷ [])
        ∙ ap (λ xs. xs ++ m ∷ []) same,
    given,
    omega (arith, room, length-append f.queue (m ∷ [])),
    limit,
    rw (push_last next m q.heap below) (
        All-append (λ y. y.no < suc next) (is.contents q.heap) (new_item next m ∷ [])
          (raise next (is.contents q.heap) below) (omega arith, tt)),
  )
