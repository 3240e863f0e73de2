-- ===== src/Throttler/Cases.antt =====
-- What `add` of src/logic/InstructionThrottler.ts finds when an instruction comes.
use network_old.Base.{
  ◌<◌, leb, ℕ, ◌≡◌, true, false, some, Eq, number_eq, lookup, arith, Option-cases, Bool-cases, inl,
  inr, ◌⊎◌,
}
use network_old.Throttler.{Ongoing, InstructionThrottler, is_handling, is_not_above}

module _ {K B : Type 0} ⦃e : Eq K⦄ where
  -- The last instruction of the stream has a counter that is above the one given.
  abbrev pub IsBelowLast : InstructionThrottler K B → K → ℕ → Type 0
  IsBelowLast t k counter =
      (last : ℕ) × (lookup k t.instruction_counter ≡ some last) × (counter < last)

  -- An instruction for the stream is being handled.
  abbrev pub Handles : InstructionThrottler K B → K → Type 0
  Handles t k = (o : Ongoing) × (lookup k t.ongoing_promises ≡ some o) × (o.handling ≡ true)

  pub by_last :
      (t : InstructionThrottler K B) (k : K) (counter : ℕ)
      → (IsBelowLast t k counter × (is_not_above (lookup k t.instruction_counter) counter ≡ false))
        ⊎ (¬ IsBelowLast t k counter
            × (is_not_above (lookup k t.instruction_counter) counter ≡ true))
  by_last t k counter = elim (Option-cases (lookup k t.instruction_counter)) [
    | inl h ↦ inr (λ (last, there, below). cc, ground (arith, h))
    | inr (c, h) ↦ elim (Bool-cases (leb c counter)) [
      | inl high ↦ inr (
        λ (last, there, below). absurd (ground (arith, h, high, there, below)),
        ground (arith, h, high),
      )
      | inr low ↦ inl ((c, h, ground (arith, low)), ground (arith, h, low))
    ]
  ]

  pub by_handling :
      (t : InstructionThrottler K B) (k : K)
      → (Handles t k × (is_handling (lookup k t.ongoing_promises) ≡ true))
        ⊎ (¬ Handles t k × (is_handling (lookup k t.ongoing_promises) ≡ false))
  by_handling t k = elim (Option-cases (lookup k t.ongoing_promises)) [
    | inl h ↦ inr (λ (o, there, busy). cc, ground (arith, h))
    | inr (o, h) ↦ elim (Bool-cases o.handling) [
      | inl busy ↦ inl ((o, h, busy), ground (arith, h, busy))
      | inr idle ↦ inr (
        λ (o', there, busy). absurd (ground (arith, h, idle, there, busy)),
        ground (arith, h, idle),
      )
    ]
  ]
