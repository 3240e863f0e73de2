-- ===== src/Throttler.antt =====
-- src/logic/InstructionThrottler.ts: a node handles the instructions for a stream one after another,
-- and skips those that a later one has replaced.
pub mod Calls
pub mod Notes
pub mod Validity
pub mod Cases
pub mod Events
mod Tests
use network_old.Base.{
  ℕ, suc, leb, eqb, Bool, true, false, not, ◌||◌, List, [], ◌∷◌, ◌++◌, Option, none, some, Result,
  ok, err, ◌>>=◌, if◌then◌else◌, Eq, number_eq, Dict, keys, lookup, insert, remove, update, has_key,
}

-- An instruction with what the handler needs of it, the tracker's id included.
pub record Instruction (K B : Type 0) : Type 0 where
  pub stream_key : K
  pub counter : ℕ
  pub body : B

-- An entry of `ongoingPromises`, where the promise is named by a number.
pub record Ongoing : Type 0 where
  pub promise : Option ℕ
  pub handling : Bool

-- `awaited` are the promises of calls of `handleFn` that are neither settled nor cancelled, with the
-- stream that awaits each. `handled` are the calls of `handleFn`, in order.
pub record InstructionThrottler (K B : Type 0) : Type 0 where
  pub queue : Dict K (Instruction K B)
  pub instruction_counter : Dict K ℕ
  pub ongoing_promises : Dict K Ongoing
  pub awaited : Dict ℕ K
  pub handled : List (Instruction K B)
  pub next_promise : ℕ

-- The error of `cancel` on `null`.
pub data ThrottlerError : Type 0 where
  no_promise : ThrottlerError

abbrev pub is_handling : Option Ongoing → Bool
is_handling none = false
is_handling (some o) = o.handling

-- A counter of 0 is as none.
abbrev pub is_not_above : Option ℕ → ℕ → Bool
is_not_above none n = true
is_not_above (some c) n = eqb c 0 || leb c n

unfoldable pub is_any_handling : {K : Type 0} → Dict K Ongoing → Bool
is_any_handling [] = false
is_any_handling ((k, o) ∷ m) = if o.handling then true else is_any_handling m

module _ {K B : Type 0} ⦃e : Eq K⦄ where
  abbrev pub new_throttler : InstructionThrottler K B
  new_throttler = record {
    queue = [];
    instruction_counter = [];
    ongoing_promises = [];
    awaited = [];
    handled = [];
    next_promise = 0;
  }

  -- The call up to its `await`. What it does after it is `settle`.
  unfoldable pub invoke_handle_fn_with_lock :
      K → InstructionThrottler K B → InstructionThrottler K B
  invoke_handle_fn_with_lock stream t = elim (lookup stream t.queue) [
    | none ↦ record t {
      ongoing_promises = update stream (λ o. record o { handling = false }) t.ongoing_promises;
    }
    | some instruction ↦
        if has_key stream t.ongoing_promises
        then record t {
          queue = remove stream t.queue;
          ongoing_promises =
              update stream (λ o. record { promise = some t.next_promise; handling = true })
                t.ongoing_promises;
          awaited = insert t.next_promise stream t.awaited;
          handled = t.handled ++ instruction ∷ [];
          next_promise = suc t.next_promise;
        }
        else t
  ]

  -- What `add` notes before it may call the handler.
  unfoldable pub noted : Instruction K B → InstructionThrottler K B → InstructionThrottler K B
  noted i t = record t {
    queue = insert i.stream_key i t.queue;
    instruction_counter = insert i.stream_key i.counter t.instruction_counter;
    ongoing_promises =
        if has_key i.stream_key t.ongoing_promises
        then t.ongoing_promises
        else insert i.stream_key (record { promise = none; handling = false }) t.ongoing_promises;
  }

  unfoldable pub add_instruction :
      Instruction K B → InstructionThrottler K B → InstructionThrottler K B
  unfolding noted invoke_handle_fn_with_lock
  add_instruction i t =
      if is_not_above (lookup i.stream_key t.instruction_counter) i.counter
      then (if is_handling (lookup i.stream_key (noted i t).ongoing_promises)
          then noted i t
          else invoke_handle_fn_with_lock i.stream_key (noted i t))
      else t

  -- A promise is resolved or rejected: in either case the call that awaits it goes on. A promise
  -- that has been cancelled calls nothing back.
  unfoldable pub settle : ℕ → InstructionThrottler K B → InstructionThrottler K B
  unfolding invoke_handle_fn_with_lock
  settle promise t = elim (lookup promise t.awaited) [
    | none ↦ t
    | some stream ↦
        invoke_handle_fn_with_lock stream (record t { awaited = remove promise t.awaited })
  ]

  -- The promise of a stream is cancelled, and its entry deleted. `cancel` is the library's function:
  -- what it does to the promises that are awaited.
  unfoldable pub cancel_ongoing :
      (ℕ → Dict ℕ K → Dict ℕ K)
      → K
      → InstructionThrottler K B
      → Result ThrottlerError (InstructionThrottler K B)
  cancel_ongoing cancel stream t = elim (lookup stream t.ongoing_promises) [
    | none ↦ ok t
    | some o ↦ elim o.promise [
      | none ↦ err no_promise
      | some promise ↦ ok (record t {
        ongoing_promises = remove stream t.ongoing_promises;
        awaited = cancel promise t.awaited;
      })
    ]
  ]

  unfoldable pub remove_stream_id :
      (ℕ → Dict ℕ K → Dict ℕ K)
      → K
      → InstructionThrottler K B
      → Result ThrottlerError (InstructionThrottler K B)
  unfolding cancel_ongoing
  remove_stream_id cancel stream t = cancel_ongoing cancel stream (record t {
    queue = remove stream t.queue;
    instruction_counter = remove stream t.instruction_counter;
  })

  unfoldable pub cancel_each :
      (ℕ → Dict ℕ K → Dict ℕ K)
      → List K
      → InstructionThrottler K B
      → Result ThrottlerError (InstructionThrottler K B)
  unfolding cancel_ongoing
  cancel_each cancel [] t = ok t
  cancel_each cancel (stream ∷ streams) t =
      cancel_ongoing cancel stream t >>= cancel_each cancel streams

  unfoldable pub reset :
      (ℕ → Dict ℕ K → Dict ℕ K)
      → InstructionThrottler K B
      → Result ThrottlerError (InstructionThrottler K B)
  unfolding cancel_each
  reset cancel t =
      cancel_each cancel (keys t.ongoing_promises)
        (record t { queue = []; instruction_counter = [] })
      >>= λ t'. ok (record t' { ongoing_promises = [] })

  unfoldable pub is_idle : InstructionThrottler K B → Bool
  unfolding is_any_handling
  is_idle t = not (is_any_handling t.ongoing_promises)
