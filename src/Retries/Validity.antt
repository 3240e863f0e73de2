-- ===== src/Retries/Validity.antt =====
-- The timers of src/logic/InstructionRetryManager.ts.
use network_old.Base.{
  ℕ, ◌<◌, leb, eqb, ◌≡◌, refl, Bool, true, false, List, [], ◌∷◌, Option, none, some, Eq, number_eq,
  Dict, values, lookup, remove, arith, lookup-insert, lookup-remove, lookup-nil, Option-cases, inl,
  inr, if◌then◌else◌,
}
use network_old.Throttler.{Instruction}
use network_old.Retries.{
  Retry, InstructionRetryManager, status_send_counter_limit, next_counter, clear_interval, rearm,
  add_retry, after_retry, run_interval, remove_retries, clear_intervals, reset_retries,
}

-- What happens to the manager: its methods are called, a timer runs, and a call of the handler ends.
pub data Event (K B : Type 0) : Type 0 where
  added : Instruction K B → Event K B
  interval_ran : ℕ → Event K B
  handler_ended : Instruction K B → Event K B
  removed : K → Event K B
  forgotten : Event K B

abbrev pub is_interval : Option Retry → ℕ → Bool
is_interval none timer = false
is_interval (some r) timer = eqb r.interval timer

next_counter_le : (n : ℕ) → leb (next_counter n) status_send_counter_limit ≡ true
next_counter_le n = ground arith

names : List Retry → ℕ → Bool
names [] timer = false
names (r ∷ rs) timer = if eqb r.interval timer then true else names rs timer

names-values :
    {K : Type 0} ⦃e : Eq K⦄ (k : K) (m : Dict K Retry) (timer : ℕ)
    → is_interval (lookup k m) timer ≡ true
    → names (values m) timer ≡ true
unfolding names lookup
names-values k [] timer h = h
names-values k ((j, r) ∷ m) timer h = ground (arith, names-values k m timer, h)

module _ {K B : Type 0} ⦃e : Eq K⦄ where
  unfoldable pub step : InstructionRetryManager K B → Event K B → InstructionRetryManager K B
  step m (added i) = add_retry i m
  step m (interval_ran timer) = (run_interval timer m).0
  step m (handler_ended i) = after_retry i m
  step m (removed stream) = remove_retries stream m
  step m forgotten = reset_retries m

  unfoldable pub steps :
      InstructionRetryManager K B → List (Event K B) → InstructionRetryManager K B
  unfolding step
  steps m [] = m
  steps m (x ∷ xs) = steps (step m x) xs

  -- Each armed timer is the one that the entry of its stream names, and numbers are not used twice.
  unfoldable pub IsValid : InstructionRetryManager K B → Type 0
  IsValid m =
      ((timer : ℕ) (i : Instruction K B)
        → lookup timer m.armed ≡ some i
        → (is_interval (lookup i.stream_key m.instruction_retry_intervals) timer ≡ true)
          × (timer < m.next_interval))
      × ((k : K) (r : Retry)
          → lookup k m.instruction_retry_intervals ≡ some r
          → (r.interval < m.next_interval) × (leb r.counter status_send_counter_limit ≡ true))

  lookup-clear_interval :
      (o : Option Retry) (armed : Dict ℕ (Instruction K B)) (timer : ℕ)
      → lookup timer (clear_interval o armed)
        ≡ (if is_interval o timer then none else lookup timer armed)
  unfolding clear_interval
  lookup-clear_interval none armed timer = refl
  lookup-clear_interval (some r) armed timer = ground (arith, lookup-remove r.interval timer armed)

  rearm-IsValid :
      (i : Instruction K B) (n : ℕ) (m : InstructionRetryManager K B)
      → leb n status_send_counter_limit ≡ true
      → IsValid m
      → IsValid (rearm i n m)
  unfolding rearm IsValid
  rearm-IsValid i n m h v =
      let intervals : Dict K Retry = m.instruction_retry_intervals in
      let new : Retry = record { interval = m.next_interval; counter = n } in
      let cleared = clear_interval (lookup i.stream_key intervals) m.armed in
      (
        λ timer j there. ground (
          arith,
          v.0 timer j,
          e.equals_iff i.stream_key j.stream_key,
          number_eq.equals_iff m.next_interval timer,
          lookup-insert m.next_interval timer i cleared,
          lookup-clear_interval (lookup i.stream_key intervals) m.armed timer,
          lookup-insert i.stream_key j.stream_key new intervals,
        ),
        λ k r there. ground (arith, v.1 k r, lookup-insert i.stream_key k new intervals),
      )

  after_retry-IsValid :
      (i : Instruction K B) (m : InstructionRetryManager K B)
      → IsValid m
      → IsValid (after_retry i m)
  unfolding after_retry
  after_retry-IsValid i m v =
      elim (Option-cases (lookup i.stream_key m.instruction_retry_intervals)) [
        | inl h ↦ rw (after_retry, h) v
        | inr (r, h) ↦
            rw (after_retry, h)
              (rearm-IsValid i (next_counter r.counter) m (next_counter_le r.counter) v)
      ]

  run_interval-IsValid :
      (timer : ℕ) (m : InstructionRetryManager K B) → IsValid m → IsValid (run_interval timer m).0
  unfolding run_interval IsValid
  run_interval-IsValid timer m v = elim (Option-cases (lookup timer m.armed)) [
    | inl h ↦ rw (run_interval, h) v
    | inr (i, h) ↦
        rw (run_interval, h)
          (λ t j there. ground (arith, lookup-remove timer t m.armed, v.0 t j), v.1)
  ]

  remove_retries-IsValid :
      (k : K) (m : InstructionRetryManager K B) → IsValid m → IsValid (remove_retries k m)
  unfolding remove_retries IsValid
  remove_retries-IsValid k m v =
      let intervals : Dict K Retry = m.instruction_retry_intervals in
      (
        λ timer j there. ground (
          arith,
          v.0 timer j,
          e.equals_iff k j.stream_key,
          lookup-clear_interval (lookup k intervals) m.armed timer,
          lookup-remove k j.stream_key intervals,
        ),
        λ j r there. ground (arith, v.1 j r, lookup-remove k j intervals),
      )

  -- The timers that are cleared are those of the entries.
  lookup-clear_intervals :
      (rs : List Retry) (armed : Dict ℕ (Instruction K B)) (timer : ℕ)
      → lookup timer (clear_intervals rs armed)
        ≡ (if names rs timer then none else lookup timer armed)
  unfolding clear_intervals names
  lookup-clear_intervals [] armed timer = refl
  lookup-clear_intervals (r ∷ rs) armed timer = ground (
    arith,
    lookup-clear_intervals rs (remove r.interval armed) timer,
    lookup-remove r.interval timer armed,
  )

  reset_retries-IsValid : (m : InstructionRetryManager K B) → IsValid m → IsValid (reset_retries m)
  unfolding reset_retries IsValid
  reset_retries-IsValid m v =
      let intervals : Dict K Retry = m.instruction_retry_intervals in
      (
        λ timer i there. ground (
          arith,
          v.0 timer i,
          names-values i.stream_key intervals timer,
          lookup-clear_intervals (values intervals) m.armed timer,
        ),
        λ k r there. ground (arith, there, lookup-nil {V = Retry} k),
      )

  step-IsValid : (m : InstructionRetryManager K B) (x : Event K B) → IsValid m → IsValid (step m x)
  unfolding step add_retry
  step-IsValid m (added i) v = rearm-IsValid i 0 m refl v
  step-IsValid m (interval_ran timer) v = run_interval-IsValid timer m v
  step-IsValid m (handler_ended i) v = after_retry-IsValid i m v
  step-IsValid m (removed k) v = remove_retries-IsValid k m v
  step-IsValid m forgotten v = reset_retries-IsValid m v

  -- Whatever happens to a valid manager, in whatever order, it stays valid: each timer that is armed
  -- is the one that the entry of its instruction's stream names, so that a stream has at most one,
  -- and none once it is removed, and the counter of an entry is at most the limit.
  pub steps-AreValid :
      (m : InstructionRetryManager K B) (xs : List (Event K B)) → IsValid m → IsValid (steps m xs)
  unfolding steps
  steps-AreValid m [] v = v
  steps-AreValid m (x ∷ xs) v = steps-AreValid (step m x) xs (step-IsValid m x v)
