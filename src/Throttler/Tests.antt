-- ===== src/Throttler/Tests.antt =====
-- Runs of the instruction throttler (src/logic/InstructionThrottler.ts), and the theorems at concrete
-- inputs.
use network_old.Base.{
  ℕ, ◌≡◌, refl, true, false, String, string_eq, number_eq, [], ◌∷◌, none, some, Dict, lookup,
  insert, remove, update, has_key, lookup-remove, ◌⊎◌,
}
use network_old.Throttler.{
  Instruction, InstructionThrottler, new_throttler, is_handling, invoke_handle_fn_with_lock, noted,
  add_instruction, settle, cancel_ongoing, remove_stream_id, cancel_each, reset, is_idle,
  is_any_handling,
}
use network_old.Throttler.Calls.{IsValid}
use network_old.Throttler.Validity.{Succeeds}
use network_old.Throttler.Cases.{IsBelowLast, Handles}
use network_old.Throttler.Events.{
  added, settled, removed, forgotten, step, steps, steps-Succeeds, Starts, add_instruction_lem,
  settle_lem,
}

program : Unit {0}
unfolding invoke_handle_fn_with_lock noted add_instruction settle cancel_ongoing remove_stream_id
    cancel_each reset is_idle is_any_handling lookup insert remove update has_key step steps
program = tt

-- A promise that is cancelled is no longer awaited.
abbrev cancel : ℕ → Dict ℕ String → Dict ℕ String
cancel p m = remove p m

abbrev empty : InstructionThrottler String ℕ
empty = new_throttler

abbrev instruction : ℕ → Instruction String ℕ
instruction n = record { stream_key = "s::0"; counter = n; body = n }

-- The first instruction is handled, and of the next two the last one waits.
abbrev three : InstructionThrottler String ℕ
three =
    add_instruction (instruction 3)
      (add_instruction (instruction 2) (add_instruction (instruction 1) empty))

three_comes : three ≡ record {
  queue = ("s::0", instruction 3) ∷ [];
  instruction_counter = ("s::0", 3) ∷ [];
  ongoing_promises = ("s::0", record { promise = some 0; handling = true }) ∷ [];
  awaited = (0, "s::0") ∷ [];
  handled = instruction 1 ∷ [];
  next_promise = 1;
}
unfolding program
three_comes = refl

-- An instruction with a lower counter is dropped.
dropped : add_instruction (instruction 2) three ≡ three
unfolding program
dropped = refl

idle_after : is_idle (settle 1 (settle 0 three)) ≡ true
unfolding program
idle_after = refl

awaited_first : lookup 0 three.awaited ≡ some "s::0"
unfolding program
awaited_first = refl

empty-IsValid : IsValid empty
unfolding program
empty-IsValid = record {
  single = λ p k. refl;
  promised = λ k. refl;
  busy = λ k queued. queued;
  apart = λ p a b f g. cc;
  used = λ p a f. cc;
  fresh = λ p late. refl;
}

three-IsValid : IsValid three
unfolding step steps
three-IsValid =
    steps-Succeeds cancel empty
      (added (instruction 1) ∷ added (instruction 2) ∷ added (instruction 3) ∷ [])
      (λ p q m. lookup-remove p q m) empty-IsValid

steps-Succeeds_example :
    Succeeds
      (steps cancel three (settled 0 ∷ removed "s::0" ∷ added (instruction 1) ∷ forgotten ∷ []))
steps-Succeeds_example =
    steps-Succeeds cancel three
      (settled 0 ∷ removed "s::0" ∷ added (instruction 1) ∷ forgotten ∷ [])
      (λ p q m. lookup-remove p q m) three-IsValid

add_instruction_lem_example :
    (IsBelowLast three "s::0" 4 × (add_instruction (instruction 4) three ≡ three))
    ⊎ (¬ IsBelowLast three "s::0" 4
        × (lookup "s::0" (add_instruction (instruction 4) three).instruction_counter ≡ some 4)
        × ((¬ Handles three "s::0"
              × Starts three (add_instruction (instruction 4) three) "s::0" (instruction 4))
            ⊎ (Handles three "s::0"
                × ((add_instruction (instruction 4) three).handled ≡ three.handled)
                × (lookup "s::0" (add_instruction (instruction 4) three).queue
                    ≡ some (instruction 4)))))
add_instruction_lem_example = add_instruction_lem (instruction 4) three

settle_lem_example :
    ((i : Instruction String ℕ) × (lookup "s::0" three.queue ≡ some i)
      × Starts three (settle 0 three) "s::0" i)
    ⊎ ((lookup "s::0" three.queue ≡ none)
        × (is_handling (lookup "s::0" (settle 0 three).ongoing_promises) ≡ false)
        × ((settle 0 three).handled ≡ three.handled))
settle_lem_example = settle_lem 0 "s::0" three three-IsValid awaited_first
