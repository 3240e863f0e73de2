-- ===== src/Throttler/Calls.antt =====
-- Which calls of src/logic/InstructionThrottler.ts are running.
use network_old.Base.{
  ℕ, ◌≤◌, ◌<◌, ◌≡◌, ap, Bool, true, false, not, ◌&&◌, Option, none, some, if◌then◌else◌, Eq, ◌==◌,
  number_eq, lookup, remove, has_key, is_some, arith, lookup-insert, lookup-remove, lookup-update,
  Option-cases, inl, inr,
}
use network_old.Throttler.{
  Ongoing, InstructionThrottler, is_handling, invoke_handle_fn_with_lock, settle,
}

abbrev pub is_just {ℓ} : {A : Type ℓ} ⦃e : Eq A⦄ → Option A → A → Bool
is_just none a = false
is_just (some b) a = b == a

is_just-eq {ℓ} : {A : Type ℓ} ⦃e : Eq A⦄ (o : Option A) (a : A) → is_just o a ≡ true → o ≡ some a
is_just-eq none a h = cc
is_just-eq ⦃e⦄ (some b) a h = ap some ((e.equals_iff b a).0 h)

-- The promise of the call that handles an instruction.
abbrev pub running : Option Ongoing → Option ℕ
running none = none
running (some o) = if o.handling then o.promise else none

abbrev pub promise_of : Option Ongoing → Option ℕ
promise_of none = none
promise_of (some o) = o.promise

abbrev pub has_promise : Option Ongoing → Bool
has_promise none = true
has_promise (some o) = is_some o.promise

module _ {K B : Type 0} ⦃e : Eq K⦄ where
  -- A stream awaits exactly the promise of its entry, while that is handling an instruction, so at
  -- most one. Every entry has a promise. A stream with an instruction in the queue is handling
  -- another. A new promise has not been used.
  pub record IsValid (t : InstructionThrottler K B) : Type 0 where
    pub single :
        (p : ℕ) (k : K)
        → is_just (lookup p t.awaited) k ≡ is_just (running (lookup k t.ongoing_promises)) p
    pub promised : (k : K) → has_promise (lookup k t.ongoing_promises) ≡ true
    pub busy : (k : K) → has_key k t.queue ≡ true → is_handling (lookup k t.ongoing_promises) ≡ true
    pub apart :
        (p : ℕ) (a b : K)
        → is_just (promise_of (lookup a t.ongoing_promises)) p ≡ true
        → is_just (promise_of (lookup b t.ongoing_promises)) p ≡ true
        → (a == b) ≡ true
    pub used :
        (p : ℕ) (a : K)
        → is_just (promise_of (lookup a t.ongoing_promises)) p ≡ true
        → p < t.next_promise
    pub fresh : (p : ℕ) → t.next_promise ≤ p → lookup p t.awaited ≡ none

  -- The state between the note of a new instruction, or the end of a call, and the next call.
  pub record IsOpen (k : K) (t : InstructionThrottler K B) : Type 0 where
    pub single :
        (p : ℕ) (j : K)
        → is_just (lookup p t.awaited) j
          ≡ (not (k == j) && is_just (running (lookup j t.ongoing_promises)) p)
    pub promised :
        (j : K)
        → ((k == j) && has_key k t.queue) ≡ false
        → has_promise (lookup j t.ongoing_promises) ≡ true
    pub busy :
        (j : K)
        → (k == j) ≡ false
        → has_key j t.queue ≡ true
        → is_handling (lookup j t.ongoing_promises) ≡ true
    pub apart :
        (p : ℕ) (a b : K)
        → is_just (promise_of (lookup a t.ongoing_promises)) p ≡ true
        → is_just (promise_of (lookup b t.ongoing_promises)) p ≡ true
        → (a == b) ≡ true
    pub used :
        (p : ℕ) (a : K)
        → is_just (promise_of (lookup a t.ongoing_promises)) p ≡ true
        → p < t.next_promise
    pub fresh : (p : ℕ) → t.next_promise ≤ p → lookup p t.awaited ≡ none
    pub here : has_key k t.ongoing_promises ≡ true

  pub invoke-IsValid :
      (k : K) (t : InstructionThrottler K B) → IsOpen k t → IsValid (invoke_handle_fn_with_lock k t)
  unfolding invoke_handle_fn_with_lock has_key
  invoke-IsValid k t v = elim (Option-cases (lookup k t.queue)) [
    | inl h ↦
        let stopped : Ongoing → Ongoing = λ o. record o { handling = false } in
        rw (invoke_handle_fn_with_lock, h)
          (record {
            single = λ p j. ground (
              arith,
              v.single p j,
              lookup-update k j stopped t.ongoing_promises,
              e.equals_iff k j,
            );
            promised = λ j. ground (
              arith,
              v.promised j,
              h,
              lookup-update k j stopped t.ongoing_promises,
              e.equals_iff k j,
            );
            busy = λ j q. ground (
              arith,
              v.busy j,
              q,
              h,
              lookup-update k j stopped t.ongoing_promises,
              e.equals_iff k j,
            );
            apart = λ p a b f g. ground (
              arith,
              v.apart p a b,
              f,
              g,
              lookup-update k a stopped t.ongoing_promises,
              lookup-update k b stopped t.ongoing_promises,
              e.equals_iff k a,
              e.equals_iff k b,
            );
            used = λ p a f. ground (
              arith,
              v.used p a,
              f,
              lookup-update k a stopped t.ongoing_promises,
              e.equals_iff k a,
            );
            fresh = v.fresh;
          })
    | inr (i, h) ↦
        let r = t.next_promise in
        let started : Ongoing → Ongoing = λ o. record { promise = some r; handling = true } in
        let unused : lookup r t.awaited ≡ none = v.fresh r (omega arith) in
        rw (invoke_handle_fn_with_lock, h, v.here)
          (record {
            single = λ p j. ground (
              arith,
              v.single p j,
              lookup-update k j started t.ongoing_promises,
              e.equals_iff k j,
              lookup-insert r p k t.awaited,
              number_eq.equals_iff r p,
              unused,
              v.here,
            );
            promised = λ j. ground (
              arith,
              v.promised j,
              h,
              lookup-update k j started t.ongoing_promises,
              e.equals_iff k j,
            );
            busy = λ j q. ground (
              arith,
              v.busy j,
              q,
              h,
              lookup-update k j started t.ongoing_promises,
              e.equals_iff k j,
              lookup-remove k j t.queue,
              v.here,
            );
            apart = λ p a b f g. ground (
              arith,
              v.apart p a b,
              v.used p a,
              v.used p b,
              f,
              g,
              lookup-update k a started t.ongoing_promises,
              lookup-update k b started t.ongoing_promises,
              e.equals_iff k a,
              e.equals_iff k b,
              e.equals_iff a b,
              number_eq.equals_iff r p,
            );
            used = λ p a f. ground (
              arith,
              v.used p a,
              f,
              lookup-update k a started t.ongoing_promises,
              e.equals_iff k a,
              number_eq.equals_iff r p,
            );
            fresh = λ p late.
                ground
                  (arith, v.fresh p, late, lookup-insert r p k t.awaited, number_eq.equals_iff r p);
          })
  ]

  end-IsOpen :
      (p : ℕ) (k : K) (t : InstructionThrottler K B)
      → lookup p t.awaited ≡ some k
      → IsValid t
      → IsOpen k (record t { awaited = remove p t.awaited })
  unfolding has_key
  end-IsOpen p k t h v = record {
    single = λ q j. ground (
      arith,
      h,
      v.single q j,
      v.single p j,
      v.single p k,
      v.single q k,
      lookup-remove p q t.awaited,
      number_eq.equals_iff p q,
      e.equals_iff k j,
      e.equals_iff k k,
      is_just-eq (running (lookup k t.ongoing_promises)) p,
      is_just-eq (running (lookup k t.ongoing_promises)) q,
      is_just-eq (lookup q t.awaited) k,
    );
    promised = λ j named. v.promised j;
    busy = λ j other queued. v.busy j queued;
    apart = v.apart;
    used = v.used;
    fresh = λ q late. ground (arith, v.fresh q late, lookup-remove p q t.awaited);
    here = ground (arith, h, v.single p k, e.equals_iff k k);
  }

  pub settle-IsValid : (p : ℕ) (t : InstructionThrottler K B) → IsValid t → IsValid (settle p t)
  unfolding settle
  settle-IsValid p t v = elim (Option-cases (lookup p t.awaited)) [
    | inl h ↦ rw (settle, h) v
    | inr (k, h) ↦
        rw (settle, h)
          (invoke-IsValid k (record t { awaited = remove p t.awaited }) (end-IsOpen p k t h v))
  ]
