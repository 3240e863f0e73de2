-- ===== src/Buffer.antt =====
-- src/helpers/MessageBuffer.ts: messages that wait under an id, each with a timer.
pub mod Contents
pub mod Queues
pub mod Timers
pub mod Histories
mod Tests
use network_old.Base.{
  ℕ, suc, ◌+◌, leb, if◌then◌else◌, Bool, List, [], ◌∷◌, ◌++◌, Option, none, some, Result, ok, err,
  length, is_empty, Eq, number_eq, Dict, keys, lookup, insert, remove, update,
}

-- `K` is the type of ids. A timer is a number, and `armed` are those that are set and neither
-- cleared nor run, with the id that their callback is for.
pub record MessageBuffer (K M : Type 0) : Type 0 where
  pub max_size : ℕ
  pub buffer : Dict K (List M)
  pub timeout_refs : Dict K (List ℕ)
  pub armed : Dict ℕ K
  pub next_ref : ℕ

-- The error of `push` on `undefined`.
pub data BufferError : Type 0 where
  missing : BufferError

abbrev pub or_none : {A : Type 0} → Option (List A) → List A
or_none none = []
or_none (some xs) = xs

-- What `shift` returns and leaves.
abbrev pub shift : {A : Type 0} → List A → Option A × List A
shift [] = (none, [])
shift (x ∷ xs) = (some x, xs)

-- `clearTimeout`
abbrev pub clear_timeout : {K : Type 0} → Option ℕ → Dict ℕ K → Dict ℕ K
clear_timeout none armed = armed
clear_timeout (some ref) armed = remove ref armed

abbrev pub clear_all : {K : Type 0} → List ℕ → Dict ℕ K → Dict ℕ K
clear_all [] armed = armed
clear_all (ref ∷ refs) armed = clear_all refs (remove ref armed)

abbrev pub total : {K M : Type 0} → Dict K (List M) → ℕ
total [] = 0
total ((id, messages) ∷ m) = length messages + total m

module _ {K M : Type 0} ⦃e : Eq K⦄ where
  abbrev pub new_buffer : ℕ → MessageBuffer K M
  new_buffer max = record {
    max_size = max;
    buffer = [];
    timeout_refs = [];
    armed = [];
    next_ref = 0;
  }

  -- The part of `pop` for an id that has messages.
  unfoldable pub pop_from : MessageBuffer K M → K → List M → MessageBuffer K M × Option M
  pop_from b id messages =
      let (message, rest) = shift messages in
      let (ref, refs) = shift (or_none (lookup id b.timeout_refs)) in
      (
        record b {
          buffer = if is_empty rest then remove id b.buffer else insert id rest b.buffer;
          timeout_refs = insert id refs b.timeout_refs;
          armed = clear_timeout ref b.armed;
        },
        message,
      )

  unfoldable pub pop : MessageBuffer K M → K → MessageBuffer K M × Option M
  unfolding pop_from
  pop b id = elim (lookup id b.buffer) [ none ↦ (b, none) | some messages ↦ pop_from b id messages ]

  -- The last part of `put`, which needs the id's array.
  unfoldable pub push :
      MessageBuffer K M → K → M → MessageBuffer K M × Result BufferError (Unit {0})
  push b id message = elim (lookup id b.buffer) [
    | none ↦ (b, err missing)
    | some messages ↦ (
      record b {
        buffer = insert id (messages ++ message ∷ []) b.buffer;
        timeout_refs =
            insert id (or_none (lookup id b.timeout_refs) ++ b.next_ref ∷ []) b.timeout_refs;
        armed = insert b.next_ref id b.armed;
        next_ref = suc b.next_ref;
      },
      ok tt,
    )
  ]

  -- The first part of `put`.
  unfoldable pub with_array : MessageBuffer K M → K → MessageBuffer K M
  with_array b id = elim (lookup id b.buffer) [
    | none ↦ record b { buffer = insert id [] b.buffer; timeout_refs = insert id [] b.timeout_refs }
    | some messages ↦ b
  ]

  -- The middle part of `put`.
  unfoldable pub with_room : MessageBuffer K M → K → MessageBuffer K M
  unfolding pop
  with_room b id =
      if leb b.max_size (length (or_none (lookup id b.buffer))) then (pop b id).0 else b

  unfoldable pub put : MessageBuffer K M → K → M → MessageBuffer K M × Result BufferError (Unit {0})
  unfolding with_array with_room push
  put b id message = push (with_room (with_array b id) id) id message

  -- The callback of a timer, which runs if the timer is still armed. The caller's own callback
  -- after it is not modelled.
  unfoldable pub run_timer : MessageBuffer K M → ℕ → MessageBuffer K M
  unfolding pop
  run_timer b ref = elim (lookup ref b.armed) [
    | none ↦ b
    | some id ↦ (pop (record b { armed = remove ref b.armed }) id).0
  ]

  unfoldable pub pop_all : MessageBuffer K M → K → MessageBuffer K M × List M
  pop_all b id = elim (lookup id b.buffer) [
    | none ↦ (b, [])
    | some messages ↦ (
      record b {
        buffer = remove id b.buffer;
        timeout_refs = remove id b.timeout_refs;
        armed = clear_all (or_none (lookup id b.timeout_refs)) b.armed;
      },
      messages,
    )
  ]

  abbrev pub clear_ids : List K → MessageBuffer K M → MessageBuffer K M
  clear_ids [] b = b
  clear_ids (id ∷ ids) b = clear_ids ids (pop_all b id).0

  unfoldable pub clear : MessageBuffer K M → MessageBuffer K M
  unfolding pop_all
  clear b = clear_ids (keys b.buffer) b

  unfoldable pub size : MessageBuffer K M → ℕ
  size b = total b.buffer
