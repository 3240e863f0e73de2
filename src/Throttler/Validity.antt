-- ===== src/Throttler/Validity.antt =====
-- The calls that change the state of src/logic/InstructionThrottler.ts.
use mathlib.Core.Path.{subst, sym}
use network_old.Base.{
  ℕ, ◌≡◌, refl, ◌∙◌, true, false, List, [], ◌∷◌, none, Result, ok, err, if◌then◌else◌, if_elim, Eq,
  ◌==◌, number_eq, Dict, keys, lookup, remove, has_key, arith, lookup-remove, Option-cases,
  contains, contains-keys, ◌>>=◌, ◌⊎◌, Bool-cases, inl, inr,
}
use network_old.Throttler.{
  Instruction, InstructionThrottler, ThrottlerError, is_handling, is_not_above,
  invoke_handle_fn_with_lock, noted, add_instruction, cancel_ongoing, remove_stream_id, cancel_each,
  reset,
}
use network_old.Throttler.Calls.{IsValid, invoke-IsValid}
use network_old.Throttler.Notes.{noted-busy-IsValid, noted-IsOpen}

-- What the library documents of `cancel`: the promise calls nothing back any more, and the others do.
abbrev pub IsCancel : {K : Type 0} → (ℕ → Dict ℕ K → Dict ℕ K) → Type 0
IsCancel {K} cancel =
    (p q : ℕ) (m : Dict ℕ K) → lookup q (cancel p m) ≡ (if p == q then none else lookup q m)

module _ {K B : Type 0} ⦃e : Eq K⦄ where
  pub add_instruction-IsValid :
      (i : Instruction K B) (t : InstructionThrottler K B)
      → IsValid t
      → IsValid (add_instruction i t)
  unfolding add_instruction
  add_instruction-IsValid i t v =
      if_elim (λ (t' : InstructionThrottler K B). IsValid t')
        (is_not_above (lookup i.stream_key t.instruction_counter) i.counter) (admitted i t v) v
    where
      admitted :
          (i : Instruction K B) (t : InstructionThrottler K B)
          → IsValid t
          → IsValid (
              if is_handling (lookup i.stream_key (noted i t).ongoing_promises)
              then noted i t
              else invoke_handle_fn_with_lock i.stream_key (noted i t))
      admitted i t v =
          elim (Bool-cases (is_handling (lookup i.stream_key (noted i t).ongoing_promises))) [
            | inl busy ↦ rw busy (noted-busy-IsValid i t busy v)
            | inr idle ↦ rw idle (invoke-IsValid i.stream_key (noted i t) (noted-IsOpen i t idle v))
          ]

  -- The method returns, and the state is valid after it.
  abbrev pub Succeeds : Result ThrottlerError (InstructionThrottler K B) → Type 0
  Succeeds (ok t) = IsValid t
  Succeeds (err e) = ⊥

  -- Removing a stream from the queue keeps the state valid.
  cancel_ongoing-Succeeds :
      (cancel : ℕ → Dict ℕ K → Dict ℕ K) (k : K) (t : InstructionThrottler K B)
      → IsCancel cancel
      → has_key k t.queue ≡ false
      → IsValid t
      → Succeeds (cancel_ongoing cancel k t)
  unfolding cancel_ongoing has_key
  cancel_ongoing-Succeeds cancel k t c empty v = elim (Option-cases (lookup k t.ongoing_promises)) [
    | inl h ↦ rw (Succeeds, h) v
    | inr (o, h) ↦ elim (Option-cases o.promise) [
      | inl lost ↦ absurd (ground (arith, h, lost, v.promised k))
      | inr (p, own) ↦
          rw (Succeeds, h, own)
            (record {
              single = λ q j. ground (
                arith,
                h,
                own,
                c p q t.awaited,
                v.single q j,
                v.single p j,
                v.apart p k j,
                v.single q k,
                lookup-remove k j t.ongoing_promises,
                e.equals_iff k j,
                number_eq.equals_iff p q,
                number_eq.equals_iff p p,
              );
              promised = λ j. ground (arith, v.promised j, lookup-remove k j t.ongoing_promises);
              busy = λ j queued. ground (
                arith,
                v.busy j,
                queued,
                empty,
                lookup-remove k j t.ongoing_promises,
                e.equals_iff k j,
              );
              apart = λ q a b f g. ground (
                arith,
                v.apart q a b,
                f,
                g,
                lookup-remove k a t.ongoing_promises,
                lookup-remove k b t.ongoing_promises,
              );
              used = λ q a f. ground (arith, v.used q a, f, lookup-remove k a t.ongoing_promises);
              fresh = λ q late. ground (arith, v.fresh q late, c p q t.awaited);
            })
    ]
  ]

  pub remove_stream_id-Succeeds :
      (cancel : ℕ → Dict ℕ K → Dict ℕ K) (k : K) (t : InstructionThrottler K B)
      → IsCancel cancel
      → IsValid t
      → Succeeds (remove_stream_id cancel k t)
  unfolding remove_stream_id has_key
  remove_stream_id-Succeeds cancel k t c v =
      cancel_ongoing-Succeeds cancel k _ c
        (ground (arith, lookup-remove k k t.queue, e.equals_iff k k))
        (record {
          single = v.single;
          promised = v.promised;
          busy = λ j queued. ground (arith, v.busy j, queued, lookup-remove k j t.queue);
          apart = v.apart;
          used = v.used;
          fresh = v.fresh;
        })

  -- The queue is empty, and the listed streams are all that have an entry.
  record IsEmptied (ks : List K) (t : InstructionThrottler K B) : Type 0 where
    valid : IsValid t
    queue : t.queue ≡ []
    listed : (j : K) → has_key j t.ongoing_promises ≡ true → contains ks j ≡ true

  AndEmptied : List K → Result ThrottlerError (InstructionThrottler K B) → Type 0
  AndEmptied ks (ok t) = IsEmptied ks t
  AndEmptied ks (err e) = ⊥

  -- What the method returns, by cases of the entry.
  cancel_ongoing-cases :
      (cancel : ℕ → Dict ℕ K → Dict ℕ K) (k : K) (t : InstructionThrottler K B)
      → IsValid t
      → ((lookup k t.ongoing_promises ≡ none) × (cancel_ongoing cancel k t ≡ ok t))
        ⊎ ((p : ℕ) × (cancel_ongoing cancel k t
              ≡ ok (record t {
                ongoing_promises = remove k t.ongoing_promises;
                awaited = cancel p t.awaited;
              })))
  unfolding cancel_ongoing
  cancel_ongoing-cases cancel k t v = elim (Option-cases (lookup k t.ongoing_promises)) [
    | inl h ↦ inl (h, rw (cancel_ongoing, h) refl)
    | inr (o, h) ↦ elim (Option-cases o.promise) [
      | inl lost ↦ absurd (ground (arith, h, lost, v.promised k))
      | inr (p, own) ↦ inr (p, rw (cancel_ongoing, h, own) refl)
    ]
  ]

  cancel_ongoing-Emptied :
      (cancel : ℕ → Dict ℕ K → Dict ℕ K) (k : K) (ks : List K) (t : InstructionThrottler K B)
      → IsCancel cancel
      → IsEmptied (k ∷ ks) t
      → AndEmptied ks (cancel_ongoing cancel k t)
  unfolding AndEmptied has_key lookup
  cancel_ongoing-Emptied cancel k ks t c v =
      let s : Succeeds (cancel_ongoing cancel k t) =
        cancel_ongoing-Succeeds cancel k t c (rw v.queue refl) v.valid in
      elim (cancel_ongoing-cases cancel k t v.valid) [
        | inl (h, q) ↦ subst (AndEmptied ks) (sym q) (record {
          valid = v.valid;
          queue = v.queue;
          listed = λ j there. ground (arith, v.listed j, there, h, e.equals_iff k j);
        })
        | inr (p, q) ↦ subst (AndEmptied ks) (sym q) (record {
          valid = subst Succeeds q s;
          queue = v.queue;
          listed = λ j there.
              ground
                (arith, v.listed j, there, lookup-remove k j t.ongoing_promises, e.equals_iff k j);
        })
      ]

  bind-Emptied :
      (ks js : List K) (r : Result ThrottlerError (InstructionThrottler K B))
      (f : InstructionThrottler K B → Result ThrottlerError (InstructionThrottler K B))
      → AndEmptied ks r
      → ((t : InstructionThrottler K B) → IsEmptied ks t → AndEmptied js (f t))
      → AndEmptied js (r >>= f)
  unfolding AndEmptied
  bind-Emptied ks js (ok t) f h k = k t h
  bind-Emptied ks js (err e) f h k = absurd h

  cancel_each-Emptied :
      (cancel : ℕ → Dict ℕ K → Dict ℕ K) (ks : List K) (t : InstructionThrottler K B)
      → IsCancel cancel
      → IsEmptied ks t
      → AndEmptied [] (cancel_each cancel ks t)
  unfolding cancel_each AndEmptied
  cancel_each-Emptied cancel [] t c v = v
  cancel_each-Emptied cancel (k ∷ ks) t c v =
      bind-Emptied ks [] (cancel_ongoing cancel k t) (cancel_each cancel ks)
        (cancel_ongoing-Emptied cancel k ks t c v) (λ t' v'. cancel_each-Emptied cancel ks t' c v')

  pub reset-Succeeds :
      (cancel : ℕ → Dict ℕ K → Dict ℕ K) (t : InstructionThrottler K B)
      → IsCancel cancel
      → IsValid t
      → Succeeds (reset cancel t)
  unfolding reset has_key lookup AndEmptied
  reset-Succeeds cancel t c v = go _ (
      cancel_each-Emptied cancel (keys t.ongoing_promises) _ c (record {
        valid = record {
          single = v.single;
          promised = v.promised;
          busy = λ k queued. cc;
          apart = v.apart;
          used = v.used;
          fresh = v.fresh;
        };
        queue = refl;
        listed = λ j there. contains-keys j t.ongoing_promises ∙ there;
      }))
    where
      go :
          (r : Result ThrottlerError (InstructionThrottler K B))
          → AndEmptied [] r
          → Succeeds (r >>= λ t'. ok (record t' { ongoing_promises = [] }))
      go (err e) h = h
      go (ok t') h = record {
        single = λ p k. ground (arith, h.valid.single p k, h.listed k);
        promised = λ k. refl;
        busy = λ k queued. ground (arith, queued, h.queue);
        apart = λ p a b f g. cc;
        used = λ p a f. cc;
        fresh = h.valid.fresh;
      }
