-- ===== src/Retries/Tests.antt =====
-- Runs of the retries (src/logic/InstructionRetryManager.ts), and the theorems at concrete inputs.
use network_old.Base.{
  ℕ, ◌≡◌, refl, String, string_eq, number_eq, List, [], ◌∷◌, none, some, lookup, insert, remove,
  arith,
}
use network_old.Throttler.{Instruction}
use network_old.Retries.{
  InstructionRetryManager, new_retry_manager, clear_interval, rearm, add_retry, reattempt,
  after_retry, run_interval, remove_retries, clear_intervals, reset_retries,
}
use network_old.Retries.Validity.{
  Event, added, interval_ran, handler_ended, removed, step, steps, IsValid, steps-AreValid,
}
use network_old.Retries.Rounds.{IsAtOne, round, rounds, rounds_again, after_retry_replaces}

program : Unit {0}
unfolding clear_interval rearm add_retry reattempt after_retry run_interval remove_retries
    clear_intervals reset_retries step steps round rounds lookup insert remove
program = tt

abbrev first_instruction : Instruction String ℕ
first_instruction = record { stream_key = "s::0"; counter = 3; body = 1 }

abbrev second_instruction : Instruction String ℕ
second_instruction = record { stream_key = "s::0"; counter = 4; body = 2 }

abbrev events : List (Event String ℕ)
events =
    added first_instruction
    ∷ interval_ran 0
    ∷ added second_instruction
    ∷ handler_ended first_instruction
    ∷ []

-- The older instruction has the timer in the end.
armed_after : (steps new_retry_manager events).armed ≡ (2, first_instruction) ∷ []
unfolding program
armed_after = refl

removed_after : (steps new_retry_manager (added first_instruction ∷ removed "s::0" ∷ [])).armed ≡ []
unfolding program
removed_after = refl

new-IsValid : IsValid (new_retry_manager {K = String} {B = ℕ})
unfolding IsValid lookup
new-IsValid = (λ timer i there. ground (arith, there), λ k r there. ground (arith, there))

steps-AreValid_example : IsValid (steps new_retry_manager events)
steps-AreValid_example = steps-AreValid new_retry_manager events new-IsValid

rounds_again_example : IsAtOne first_instruction (rounds 12 first_instruction new_retry_manager)
rounds_again_example = rounds_again 11 first_instruction new_retry_manager

abbrev replaced : InstructionRetryManager String ℕ
unfolding add_retry rearm clear_interval lookup insert remove
replaced = add_retry second_instruction new_retry_manager

after_retry_replaces_example :
    (lookup 1 (after_retry first_instruction replaced).armed ≡ some first_instruction)
    × (lookup 0 (after_retry first_instruction replaced).armed ≡ none)
    × (lookup "s::0" (after_retry first_instruction replaced).instruction_retry_intervals
        ≡ some (record { interval = 1; counter = 1 }))
unfolding program
after_retry_replaces_example =
    after_retry_replaces first_instruction replaced (record { interval = 0; counter = 0 }) refl refl
