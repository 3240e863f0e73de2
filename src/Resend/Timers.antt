-- ===== src/Resend/Timers.antt =====
-- The timers of the requests that wait in src/resend/resendStrategies.ts.
use network_old.Base.{
  ℕ, ◌<◌, ◌≡◌, refl, Eq, number_eq, true, false, List, [], ◌∷◌, none, some, Result, ok, err, ◌>>=◌,
  if◌then◌else◌, is_empty, contains, add, delete, Dict, values, lookup, remove, has_key, arith,
  lookup-insert, lookup-remove, Option-cases, contains-add, contains-delete, contains-append, inl,
  inr,
}
use network_old.Resend.Pending.{
  PendingResponses, PendingError, entries_or_none, clear_timers, all_entries, has_entries,
  add_entry, expire_from, run_entry_timer, pop_entries, clear_all_entries,
}

pub data PendingEvent (K : Type 0) : Type 0 where
  requested responded : K → PendingEvent K
  timer_ran : ℕ → PendingEvent K
  stopped : PendingEvent K

lookup-clear_timers :
    {K : Type 0} (entries : List ℕ) (armed : Dict ℕ K) (entry : ℕ)
    → lookup entry (clear_timers entries armed)
      ≡ (if contains entries entry then none else lookup entry armed)
unfolding clear_timers
lookup-clear_timers [] armed entry = refl
lookup-clear_timers (x ∷ xs) armed entry =
    ground (arith, lookup-clear_timers xs (remove x armed) entry, lookup-remove x entry armed)

contains-all_entries :
    {K : Type 0} ⦃e : Eq K⦄ (k : K) (m : Dict K (List ℕ)) (entry : ℕ)
    → contains (entries_or_none (lookup k m)) entry ≡ true
    → contains (all_entries (values m)) entry ≡ true
unfolding lookup
contains-all_entries k [] entry h = h
contains-all_entries k ((j, xs) ∷ m) entry h =
    ground
      (arith, h, contains-all_entries k m entry, contains-append xs (all_entries (values m)) entry)

contains-empty : (xs : List ℕ) (entry : ℕ) → is_empty xs ≡ true → contains xs entry ≡ false
contains-empty [] entry h = refl
contains-empty (x ∷ xs) entry h = ground (arith, h)

module _ {K : Type 0} ⦃e : Eq K⦄ where
  unfoldable pub pending_step :
      PendingResponses K → PendingEvent K → Result PendingError (PendingResponses K)
  pending_step p (requested stream) = ok (add_entry stream p)
  pending_step p (responded stream) = ok (pop_entries stream p).0
  pending_step p (timer_ran entry) = run_entry_timer entry p
  pending_step p stopped = ok (clear_all_entries p)

  unfoldable pub pending_steps :
      PendingResponses K → List (PendingEvent K) → Result PendingError (PendingResponses K)
  unfolding pending_step
  pending_steps p [] = ok p
  pending_steps p (x ∷ xs) = pending_step p x >>= λ p'. pending_steps p' xs

  -- The entry of a timer that is armed waits under the key of its stream.
  unfoldable pub Waits : PendingResponses K → Type 0
  Waits p =
      (entry : ℕ) (stream : K)
      → lookup entry p.armed ≡ some stream
      → (contains (entries_or_none (lookup stream p.pending)) entry ≡ true) × (entry < p.next_entry)

  abbrev pub Keeps : Result PendingError (PendingResponses K) → Type 0
  Keeps (ok p) = Waits p
  Keeps (err x) = ⊥

  add_entry-Waits : (k : K) (p : PendingResponses K) → Waits p → Waits (add_entry k p)
  unfolding add_entry Waits
  add_entry-Waits k p w entry stream there =
      let entries = add (entries_or_none (lookup k p.pending)) p.next_entry in
      ground (
        arith,
        w entry stream,
        lookup-insert p.next_entry entry k p.armed,
        lookup-insert k stream entries p.pending,
        contains-add (entries_or_none (lookup k p.pending)) p.next_entry entry,
        e.equals_iff k stream,
        number_eq.equals_iff p.next_entry entry,
      )

  pop_entries-Waits : (k : K) (p : PendingResponses K) → Waits p → Waits (pop_entries k p).0
  unfolding pop_entries has_entries has_key Waits
  pop_entries-Waits k p w = elim (Option-cases (lookup k p.pending)) [
    | inl h ↦ rw (pop_entries, has_entries, has_key, h) w
    | inr (entries, h) ↦
        rw (pop_entries, has_entries, has_key, h)
          (λ entry stream there. ground (
            arith,
            h,
            w entry stream,
            lookup-clear_timers entries p.armed entry,
            lookup-remove k stream p.pending,
            e.equals_iff k stream,
          ))
  ]

  run_entry_timer-Waits :
      (entry : ℕ) (p : PendingResponses K) → Waits p → Keeps (run_entry_timer entry p)
  unfolding run_entry_timer expire_from Waits
  run_entry_timer-Waits entry p w = elim (Option-cases (lookup entry p.armed)) [
    | inl h ↦ rw (run_entry_timer, h) w
    | inr (k, h) ↦ elim (Option-cases (lookup k p.pending)) [
      | inl absent ↦ absurd (ground (arith, absent, h, w entry k h))
      | inr (entries, there) ↦
          rw (run_entry_timer, h, expire_from, there)
            (λ x stream armed. ground (
              arith,
              there,
              w x stream,
              lookup-remove entry x p.armed,
              lookup-remove k stream p.pending,
              lookup-insert k stream (delete entries entry) p.pending,
              contains-delete entries entry x,
              contains-empty (delete entries entry) x,
              e.equals_iff k stream,
              number_eq.equals_iff x entry,
              number_eq.equals_iff entry x,
            ))
    ]
  ]

  clear_all_entries-Waits : (p : PendingResponses K) → Waits p → Waits (clear_all_entries p)
  unfolding clear_all_entries Waits
  clear_all_entries-Waits p w entry stream there =
      let entries = all_entries (values p.pending) in
      ground (
        arith,
        w entry stream,
        lookup-clear_timers entries p.armed entry,
        contains-all_entries stream p.pending entry,
      )

  pending_step-Keeps :
      (p : PendingResponses K) (x : PendingEvent K) → Waits p → Keeps (pending_step p x)
  unfolding pending_step
  pending_step-Keeps p (requested k) w = add_entry-Waits k p w
  pending_step-Keeps p (responded k) w = pop_entries-Waits k p w
  pending_step-Keeps p (timer_ran entry) w = run_entry_timer-Waits entry p w
  pending_step-Keeps p stopped w = clear_all_entries-Waits p w

  bind-Keeps :
      (r : Result PendingError (PendingResponses K))
      (f : PendingResponses K → Result PendingError (PendingResponses K))
      → Keeps r
      → ((p : PendingResponses K) → Waits p → Keeps (f p))
      → Keeps (r >>= f)
  bind-Keeps (ok p) f h k = k p h
  bind-Keeps (err x) f h k = absurd h

  -- Whatever happens while requests wait for the tracker, no timer runs into a missing entry, and
  -- the entry of each timer that is still armed still waits under its stream.
  pub pending_steps-Keeps :
      (p : PendingResponses K) (xs : List (PendingEvent K)) → Waits p → Keeps (pending_steps p xs)
  unfolding pending_steps
  pending_steps-Keeps p [] w = w
  pending_steps-Keeps p (x ∷ xs) w =
      bind-Keeps (pending_step p x) (λ p'. pending_steps p' xs) (pending_step-Keeps p x w)
        (λ p' w'. pending_steps-Keeps p' xs w')
