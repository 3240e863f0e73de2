-- ===== src/Retries/Rounds.antt =====
-- Retries of src/logic/InstructionRetryManager.ts whose handler is the one of src/logic/Node.ts, which
-- first calls `add`.
use network_old.Base.{
  ◌<◌, ℕ, zero, suc, ltb, ◌≡◌, refl, true, none, some, Eq, number_eq, lookup, arith, lookup-insert,
  lookup-remove,
}
use network_old.Throttler.{Instruction}
use network_old.Retries.{
  Retry, InstructionRetryManager, status_send_counter_limit, next_counter, clear_interval, rearm,
  add_retry, reattempt, after_retry,
}

module _ {K B : Type 0} ⦃e : Eq K⦄ where
  -- A call of the handler in full: it calls `add`, and the manager goes on when it has ended.
  unfoldable pub round : Instruction K B → InstructionRetryManager K B → InstructionRetryManager K B
  unfolding add_retry after_retry
  round i m = after_retry i (add_retry i m)

  unfoldable pub rounds :
      ℕ → Instruction K B → InstructionRetryManager K B → InstructionRetryManager K B
  unfolding round
  rounds zero i m = m
  rounds (suc n) i m = rounds n i (round i m)

  lookup-rearm :
      (i : Instruction K B) (n : ℕ) (m : InstructionRetryManager K B)
      → lookup i.stream_key (rearm i n m).instruction_retry_intervals
        ≡ some (record { interval = m.next_interval; counter = n })
  unfolding rearm
  lookup-rearm i n m = ground (
    arith,
    e.equals_iff i.stream_key i.stream_key,
    lookup-insert i.stream_key i.stream_key (record { interval = m.next_interval; counter = n })
        m.instruction_retry_intervals,
  )

  -- The counter of the stream is 1, below the limit, and the next retry is a reattempt.
  abbrev pub IsAtOne : Instruction K B → InstructionRetryManager K B → Type 0
  IsAtOne i m =
      (r : Retry) × (lookup i.stream_key m.instruction_retry_intervals ≡ some r)
      × (r.counter ≡ 1)
      × (r.counter < status_send_counter_limit)
      × (reattempt i m ≡ some true)

  rearm-IsAtOne : (i : Instruction K B) (m : InstructionRetryManager K B) → IsAtOne i (rearm i 1 m)
  unfolding reattempt
  rearm-IsAtOne i m = (
    record { interval = m.next_interval; counter = 1 },
    lookup-rearm i 1 m,
    refl,
    omega arith,
    rw (reattempt, lookup-rearm i 1 m) refl,
  )

  round_again : (i : Instruction K B) (m : InstructionRetryManager K B) → IsAtOne i (round i m)
  unfolding round add_retry after_retry
  round_again i m =
      rw (round, after_retry, add_retry, lookup-rearm i 0 m) (rearm-IsAtOne i (rearm i 0 m))

  -- As the handler calls `add`, which sets the counter to 0, the counter is 1 after every retry: the
  -- limit is not reached, and each retry after the first is a reattempt.
  pub rounds_again :
      (n : ℕ) (i : Instruction K B) (m : InstructionRetryManager K B)
      → IsAtOne i (rounds (suc n) i m)
  unfolding rounds
  rounds_again zero i m = round_again i m
  rounds_again (suc n) i m = rounds_again n i (round i m)

  -- When the handler of a retry ends while its stream has an entry, the timer of the stream is for
  -- the instruction that was retried, and the timer that the entry has had is no longer armed, even
  -- if it was for a later instruction that was added in the meantime.
  pub after_retry_replaces :
      (i : Instruction K B) (m : InstructionRetryManager K B) (r : Retry)
      → lookup i.stream_key m.instruction_retry_intervals ≡ some r
      → ltb r.interval m.next_interval ≡ true
      → (lookup m.next_interval (after_retry i m).armed ≡ some i)
        × (lookup r.interval (after_retry i m).armed ≡ none)
        × (lookup i.stream_key (after_retry i m).instruction_retry_intervals
            ≡ some (record { interval = m.next_interval; counter = next_counter r.counter }))
  unfolding after_retry rearm clear_interval
  after_retry_replaces i m r h below =
      rw (after_retry, rearm, clear_interval, h)
        (
          ground (
            arith,
            lookup-insert m.next_interval m.next_interval i (clear_interval (some r) m.armed),
            number_eq.equals_iff m.next_interval m.next_interval,
          ),
          ground (
            arith,
            below,
            lookup-insert m.next_interval r.interval i (clear_interval (some r) m.armed),
            lookup-remove r.interval r.interval m.armed,
            number_eq.equals_iff r.interval r.interval,
          ),
          lookup-rearm i (next_counter r.counter) m,
        )
