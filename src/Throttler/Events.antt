-- ===== src/Throttler/Events.antt =====
-- What happens to src/logic/InstructionThrottler.ts: its methods are called, and the calls of its
-- handler end, in any order.
use network_old.Base.{
  ℕ, ◌≡◌, refl, ◌∙◌, ap, true, false, List, [], ◌∷◌, ◌++◌, none, some, Result, ok, err, ◌>>=◌, Eq,
  number_eq, Dict, lookup, remove, has_key, arith, lookup-insert, lookup-remove, lookup-update,
  Option-cases, inl, inr, ◌⊎◌,
}
use network_old.Throttler.{
  Instruction, Ongoing, InstructionThrottler, ThrottlerError, is_handling, add_instruction, settle,
  remove_stream_id, reset, noted, invoke_handle_fn_with_lock,
}
use network_old.Throttler.Cases.{IsBelowLast, Handles, by_last, by_handling}
use network_old.Throttler.Calls.{IsValid, settle-IsValid}
use network_old.Throttler.Validity.{
  IsCancel, Succeeds, add_instruction-IsValid, remove_stream_id-Succeeds, reset-Succeeds,
}

pub data Event (K B : Type 0) : Type 0 where
  added : Instruction K B → Event K B
  settled : ℕ → Event K B
  removed : K → Event K B
  forgotten : Event K B

module _ {K B : Type 0} ⦃e : Eq K⦄ (cancel : ℕ → Dict ℕ K → Dict ℕ K) where
  unfoldable pub step :
      InstructionThrottler K B → Event K B → Result ThrottlerError (InstructionThrottler K B)
  step t (added i) = ok (add_instruction i t)
  step t (settled p) = ok (settle p t)
  step t (removed k) = remove_stream_id cancel k t
  step t forgotten = reset cancel t

  unfoldable pub steps :
      InstructionThrottler K B → List (Event K B) → Result ThrottlerError (InstructionThrottler K B)
  unfolding step
  steps t [] = ok t
  steps t (x ∷ xs) = step t x >>= λ t'. steps t' xs

module _ {K B : Type 0} ⦃e : Eq K⦄ where
  step-Succeeds :
      (cancel : ℕ → Dict ℕ K → Dict ℕ K) (t : InstructionThrottler K B) (x : Event K B)
      → IsCancel cancel
      → IsValid t
      → Succeeds (step cancel t x)
  unfolding step
  step-Succeeds cancel t (added i) c v = add_instruction-IsValid i t v
  step-Succeeds cancel t (settled p) c v = settle-IsValid p t v
  step-Succeeds cancel t (removed k) c v = remove_stream_id-Succeeds cancel k t c v
  step-Succeeds cancel t forgotten c v = reset-Succeeds cancel t c v

  bind-Succeeds :
      (r : Result ThrottlerError (InstructionThrottler K B))
      (f : InstructionThrottler K B → Result ThrottlerError (InstructionThrottler K B))
      → Succeeds r
      → ((t : InstructionThrottler K B) → IsValid t → Succeeds (f t))
      → Succeeds (r >>= f)
  bind-Succeeds (ok t) f h k = k t h
  bind-Succeeds (err x) f h k = absurd h

  -- Whatever happens to a valid throttler, in whatever order, no method throws, and it stays valid:
  -- a stream awaits at most one call of the handler, its entry says so and names the promise that is
  -- cancelled, and an instruction waits in the queue only while another for its stream is handled.
  pub steps-Succeeds :
      (cancel : ℕ → Dict ℕ K → Dict ℕ K) (t : InstructionThrottler K B) (xs : List (Event K B))
      → IsCancel cancel
      → IsValid t
      → Succeeds (steps cancel t xs)
  unfolding steps
  steps-Succeeds cancel t [] c v = v
  steps-Succeeds cancel t (x ∷ xs) c v =
      bind-Succeeds (step cancel t x) (λ t'. steps cancel t' xs) (step-Succeeds cancel t x c v)
        (λ t' v'. steps-Succeeds cancel t' xs c v')

  -- The handler of a stream is called.
  abbrev pub Starts :
      InstructionThrottler K B → InstructionThrottler K B → K → Instruction K B → Type 0
  Starts t t' k i =
      (t'.handled ≡ t.handled ++ i ∷ [])
      × (lookup k t'.queue ≡ none)
      × (lookup t.next_promise t'.awaited ≡ some k)

  invoke-Starts :
      (k : K) (t : InstructionThrottler K B) (i : Instruction K B)
      → lookup k t.queue ≡ some i
      → has_key k t.ongoing_promises ≡ true
      → Starts t (invoke_handle_fn_with_lock k t) k i
        × ((invoke_handle_fn_with_lock k t).instruction_counter ≡ t.instruction_counter)
  unfolding invoke_handle_fn_with_lock
  invoke-Starts k t i h there = (
    (
      ground (arith, h, there),
      ground (arith, h, there, lookup-remove k k t.queue, e.equals_iff k k),
      ground (
        arith,
        h,
        there,
        lookup-insert t.next_promise t.next_promise k t.awaited,
        number_eq.equals_iff t.next_promise t.next_promise,
      ),
    ),
    ground (arith, h, there),
  )

  invoke-stops :
      (k : K) (t : InstructionThrottler K B)
      → lookup k t.queue ≡ none
      → (is_handling (lookup k (invoke_handle_fn_with_lock k t).ongoing_promises) ≡ false)
        × ((invoke_handle_fn_with_lock k t).handled ≡ t.handled)
  unfolding invoke_handle_fn_with_lock
  invoke-stops k t h = (
    ground (
      arith,
      h,
      e.equals_iff k k,
      lookup-update k k (λ o. record o { handling = false }) t.ongoing_promises,
    ),
    ground (arith, h),
  )

  handling-noted :
      (i : Instruction K B) (t : InstructionThrottler K B)
      → (is_handling (lookup i.stream_key (noted i t).ongoing_promises)
          ≡ is_handling (lookup i.stream_key t.ongoing_promises))
        × (has_key i.stream_key (noted i t).ongoing_promises ≡ true)
        × (lookup i.stream_key (noted i t).queue ≡ some i)
        × (lookup i.stream_key (noted i t).instruction_counter ≡ some i.counter)
  unfolding noted has_key
  handling-noted i t =
      let k = i.stream_key in
      let none_yet : Ongoing = record { promise = none; handling = false } in
      (
        ground (arith, e.equals_iff k k, lookup-insert k k none_yet t.ongoing_promises),
        ground (arith, e.equals_iff k k, lookup-insert k k none_yet t.ongoing_promises),
        ground (arith, e.equals_iff k k, lookup-insert k k i t.queue),
        ground (arith, e.equals_iff k k, lookup-insert k k i.counter t.instruction_counter),
      )

  noted-handled :
      (i : Instruction K B) (t : InstructionThrottler K B) → (noted i t).handled ≡ t.handled
  unfolding noted
  noted-handled i t = refl

  noted-Starts :
      (i : Instruction K B) (t t' : InstructionThrottler K B)
      → Starts (noted i t) t' i.stream_key i
      → Starts t t' i.stream_key i
  unfolding noted
  noted-Starts i t t' h = h

  -- A new instruction is dropped exactly if its counter is below that of the last one for its stream.
  -- Otherwise its counter is noted, and the handler is called with it at once, or, if an instruction
  -- for its stream is being handled, it is the one that waits.
  pub add_instruction_lem :
      (i : Instruction K B) (t : InstructionThrottler K B)
      → let k = i.stream_key in
        let t' = add_instruction i t in
        (IsBelowLast t k i.counter × (t' ≡ t))
        ⊎ (¬ IsBelowLast t k i.counter
            × (lookup k t'.instruction_counter ≡ some i.counter)
            × ((¬ Handles t k × Starts t t' k i)
                ⊎ (Handles t k × (t'.handled ≡ t.handled) × (lookup k t'.queue ≡ some i))))
  unfolding add_instruction
  add_instruction_lem i t =
      let k = i.stream_key in
      let (same, there, queued, counted) = handling-noted i t in
      elim (by_last t k i.counter) [
        | inl (below, low) ↦ inl (below, rw (add_instruction, low) refl)
        | inr (not_below, high) ↦ elim (by_handling t k) [
          | inl (handles, was_busy) ↦
              let busy = same ∙ was_busy in
              inr (
                not_below,
                rw (add_instruction, high, busy) counted,
                inr (
                  handles,
                  rw (add_instruction, high, busy) (noted-handled i t),
                  rw (add_instruction, high, busy) queued,
                ),
              )
          | inr (not_handling, was_idle) ↦
              let idle = same ∙ was_idle in
              let (starts, kept) = invoke-Starts k (noted i t) i queued there in
              inr (
                not_below,
                rw (add_instruction, high, idle) (ap (λ m. lookup k m) kept ∙ counted),
                inl (
                  not_handling,
                  rw (Starts, add_instruction, high, idle)
                      (noted-Starts i t (invoke_handle_fn_with_lock k (noted i t)) starts),
                ),
              )
        ]
      ]

  -- When the call of a stream ends, the handler is called with the instruction that waits, if one
  -- does; otherwise the stream is no longer handling any.
  pub settle_lem :
      (p : ℕ) (k : K) (t : InstructionThrottler K B)
      → IsValid t
      → lookup p t.awaited ≡ some k
      → ((i : Instruction K B) × (lookup k t.queue ≡ some i) × Starts t (settle p t) k i)
        ⊎ ((lookup k t.queue ≡ none)
            × (is_handling (lookup k (settle p t).ongoing_promises) ≡ false)
            × ((settle p t).handled ≡ t.handled))
  unfolding settle
  settle_lem p k t v h =
      let t' : InstructionThrottler K B = record t { awaited = remove p t.awaited } in
      elim (Option-cases (lookup k t.queue)) [
        | inl empty ↦
            let (stopped, same) = invoke-stops k t' empty in
            inr (empty, rw (settle, h) stopped, rw (settle, h) same)
        | inr (i, queued) ↦
            let there : has_key k t.ongoing_promises ≡ true =
              unfold has_key in ground (arith, h, v.single p k, e.equals_iff k k) in
            inl (i, queued, rw (Starts, settle, h) (invoke-Starts k t' i queued there).0)
      ]
