-- ===== src/Retries.antt =====
-- src/logic/InstructionRetryManager.ts: a node handles the last instruction for each of its streams
-- again and again, in case a connection has failed.
pub mod Validity
pub mod Rounds
mod Tests
use network_old.Base.{
  ℕ, suc, leb, eqb, Bool, not, List, [], ◌∷◌, Option, none, some, if◌then◌else◌, Eq, number_eq,
  Dict, values, lookup, insert, remove,
}
use network_old.Throttler.{Instruction}

-- An entry of `instructionRetryIntervals`. A timer is named by a number.
pub record Retry : Type 0 where
  pub interval : ℕ
  pub counter : ℕ

-- `armed` are the timers that are set and neither cleared nor run, each with the instruction (and the
-- tracker's id in its body) that its callback is for.
pub record InstructionRetryManager (K B : Type 0) : Type 0 where
  pub instruction_retry_intervals : Dict K Retry
  pub armed : Dict ℕ (Instruction K B)
  pub next_interval : ℕ

abbrev pub status_send_counter_limit : ℕ
status_send_counter_limit = 9

abbrev pub is_not_first : Option Retry → Option Bool
is_not_first none = none
is_not_first (some r) = some (not (eqb r.counter 0))

abbrev pub next_counter : ℕ → ℕ
next_counter n = if leb status_send_counter_limit n then 0 else suc n

module _ {K B : Type 0} ⦃e : Eq K⦄ where
  abbrev pub new_retry_manager : InstructionRetryManager K B
  new_retry_manager = record { instruction_retry_intervals = []; armed = []; next_interval = 0 }

  -- `clearTimeout` of an entry's timer.
  unfoldable pub clear_interval : Option Retry → Dict ℕ (Instruction K B) → Dict ℕ (Instruction K B)
  clear_interval none armed = armed
  clear_interval (some r) armed = remove r.interval armed

  -- The entry gets a new timer in place of the one that it has, and the counter that is given.
  unfoldable pub rearm :
      Instruction K B → ℕ → InstructionRetryManager K B → InstructionRetryManager K B
  unfolding clear_interval
  rearm i n m = record {
    instruction_retry_intervals =
        insert i.stream_key (record { interval = m.next_interval; counter = n })
          m.instruction_retry_intervals;
    armed =
        insert m.next_interval i
          (clear_interval (lookup i.stream_key m.instruction_retry_intervals) m.armed);
    next_interval = suc m.next_interval;
  }

  unfoldable pub add_retry :
      Instruction K B → InstructionRetryManager K B → InstructionRetryManager K B
  unfolding rearm
  add_retry i m = rearm i 0 m

  -- The argument `reattempt` of the call of the handler. Without an entry the handler is not called,
  -- since the read of the counter throws, which is caught.
  unfoldable pub reattempt : Instruction K B → InstructionRetryManager K B → Option Bool
  reattempt i m = is_not_first (lookup i.stream_key m.instruction_retry_intervals)

  -- What `retryFunction` does after its `await`.
  unfoldable pub after_retry :
      Instruction K B → InstructionRetryManager K B → InstructionRetryManager K B
  unfolding rearm
  after_retry i m = elim (lookup i.stream_key m.instruction_retry_intervals) [
    | none ↦ m
    | some r ↦ rearm i (next_counter r.counter) m
  ]

  -- A timer runs: it is no longer armed, and `retryFunction` calls the handler if there is an entry.
  unfoldable pub run_interval :
      ℕ
      → InstructionRetryManager K B
      → InstructionRetryManager K B × Option (Instruction K B × Bool)
  unfolding reattempt
  run_interval timer m = elim (lookup timer m.armed) [
    | none ↦ (m, none)
    | some i ↦ (
      record m { armed = remove timer m.armed },
      elim (reattempt i m) [ none ↦ none | some again ↦ some (i, again) ],
    )
  ]

  unfoldable pub remove_retries : K → InstructionRetryManager K B → InstructionRetryManager K B
  unfolding clear_interval
  remove_retries stream m = record m {
    instruction_retry_intervals = remove stream m.instruction_retry_intervals;
    armed = clear_interval (lookup stream m.instruction_retry_intervals) m.armed;
  }

  unfoldable pub clear_intervals : List Retry → Dict ℕ (Instruction K B) → Dict ℕ (Instruction K B)
  clear_intervals [] armed = armed
  clear_intervals (r ∷ rs) armed = clear_intervals rs (remove r.interval armed)

  unfoldable pub reset_retries : InstructionRetryManager K B → InstructionRetryManager K B
  unfolding clear_intervals
  reset_retries m = record m {
    instruction_retry_intervals = [];
    armed = clear_intervals (values m.instruction_retry_intervals) m.armed;
  }
