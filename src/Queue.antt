-- ===== src/Queue.antt =====
-- src/connection/MessageQueue.ts: the messages that wait on a connection, with a limit.
pub mod Order
pub mod Steps
mod Tests
use network_old.Base.{
  ℕ, suc, ltb, leb, eqb, Bool, true, false, ◌||◌, ◌≡◌, List, [], ◌∷◌, ◌++◌, Option, none, some,
  Result, ok, err, if◌then◌else◌, length, is_empty,
}

-- `missing` is the error of a call on `undefined`.
pub data QueueError : Type 0 where
  undeliverable queue_full missing : QueueError

-- `no` numbers the items of all queues in the order in which they are made. `errors` are the calls of
-- `onError`, and `succeeded` is whether `onSuccess` has been called.
pub record QueueItem (M : Type 0) : Type 0 where
  pub message : M
  pub error_infos : List ℕ
  pub no : ℕ
  pub tries : ℕ
  pub failed : Bool
  pub errors : List QueueError
  pub succeeded : Bool

abbrev pub max_tries : ℕ
max_tries = 10

-- The constructor, with the value of `nextNumber`.
abbrev pub new_item : {M : Type 0} → ℕ → M → QueueItem M
new_item next_number message = record {
  message = message;
  error_infos = [];
  no = next_number;
  tries = 0;
  failed = false;
  errors = [];
  succeeded = false;
}

abbrev pub delivered_item : {M : Type 0} → QueueItem M → QueueItem M
delivered_item item = record item { succeeded = true }

-- An info of an error is named by a number.
unfoldable pub increment_tries : {M : Type 0} → ℕ → QueueItem M → QueueItem M
increment_tries info item =
    let failed = leb max_tries (suc item.tries) || item.failed in
    record item {
      tries = suc item.tries;
      error_infos = item.error_infos ++ info ∷ [];
      failed = failed;
      errors = if failed then item.errors ++ undeliverable ∷ [] else item.errors;
    }

abbrev pub immediate_fail : {M : Type 0} → QueueError → QueueItem M → QueueItem M
immediate_fail e item = record item { failed = true; errors = item.errors ++ e ∷ [] }

-- The order of the heap.
abbrev pub is_before : {M : Type 0} → QueueItem M → QueueItem M → Bool
is_before a b = ltb a.no b.no

-- The operations of the package heap that the queue uses, on heaps `H` of items `A`.
pub record HeapOperations (H A : Type 0) : Type 0 where
  pub push_item : A → H → H
  pub peek_item : H → Option A
  pub pop_item : H → Option A × H
  pub item_count : H → ℕ
  pub has_no_item : H → Bool
  pub clear_items : H → H

pub record MessageQueue (H : Type 0) : Type 0 where
  pub heap : H
  pub max_size : ℕ

module _ {H M : Type 0} (ops : HeapOperations H (QueueItem M)) where
  unfoldable pub queue_size : MessageQueue H → ℕ
  queue_size q = ops.item_count q.heap

  unfoldable pub peek : MessageQueue H → Option (QueueItem M)
  peek q = ops.peek_item q.heap

  unfoldable pub pop_message : MessageQueue H → Option (QueueItem M) × MessageQueue H
  pop_message q = let (item, heap) = ops.pop_item q.heap in (item, record q { heap = heap })

  unfoldable pub empty : MessageQueue H → Bool
  empty q = ops.has_no_item q.heap

  unfoldable pub clear_queue : MessageQueue H → MessageQueue H
  clear_queue q = record q { heap = ops.clear_items q.heap }

  -- `pop().immediateFail`, which throws if there is no item.
  abbrev pub drop_popped :
      Option (QueueItem M) × MessageQueue H
      → Result QueueError (MessageQueue H × Option (QueueItem M))
  drop_popped (none, q) = err missing
  drop_popped (some item, q) = ok (q, some (immediate_fail queue_full item))

  abbrev pub push_new :
      ℕ
      → M
      → Result QueueError (MessageQueue H × Option (QueueItem M))
      → Result QueueError (MessageQueue H × Option (QueueItem M))
  push_new next_number message (err e) = err e
  push_new next_number message (ok (q, dropped)) =
      ok (record q { heap = ops.push_item (new_item next_number message) q.heap }, dropped)

  -- The part of `add` that makes room. It gives back the item that is dropped, with its error.
  unfoldable pub make_room :
      MessageQueue H → Result QueueError (MessageQueue H × Option (QueueItem M))
  unfolding queue_size pop_message
  make_room q = if eqb (queue_size q) q.max_size then drop_popped (pop_message q) else ok (q, none)

  unfoldable pub add_message :
      ℕ → M → MessageQueue H → Result QueueError (MessageQueue H × Option (QueueItem M))
  unfolding make_room
  add_message next_number message q = push_new next_number message (make_room q)
