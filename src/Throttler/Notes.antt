-- ===== src/Throttler/Notes.antt =====
-- What `add` of src/logic/InstructionThrottler.ts notes before it may call the handler.
use network_old.Base.{◌≡◌, true, false, none, Eq, number_eq, lookup, has_key, arith, lookup-insert}
use network_old.Throttler.{Instruction, Ongoing, InstructionThrottler, is_handling, noted}
use network_old.Throttler.Calls.{IsValid, IsOpen}

module _ {K B : Type 0} ⦃e : Eq K⦄ where
  pub noted-busy-IsValid :
      (i : Instruction K B) (t : InstructionThrottler K B)
      → is_handling (lookup i.stream_key (noted i t).ongoing_promises) ≡ true
      → IsValid t
      → IsValid (noted i t)
  unfolding noted has_key
  noted-busy-IsValid i t busy v =
      let k = i.stream_key in
      let none_yet : Ongoing = record { promise = none; handling = false } in
      record {
        single = λ p j. ground (
          arith,
          busy,
          v.single p j,
          e.equals_iff k j,
          e.equals_iff k k,
          lookup-insert k j none_yet t.ongoing_promises,
          lookup-insert k k none_yet t.ongoing_promises,
        );
        promised = λ j. ground (
          arith,
          busy,
          v.promised j,
          e.equals_iff k k,
          lookup-insert k j none_yet t.ongoing_promises,
          lookup-insert k k none_yet t.ongoing_promises,
        );
        busy = λ j queued. ground (
          arith,
          busy,
          v.busy j,
          queued,
          e.equals_iff k j,
          e.equals_iff k k,
          lookup-insert k j none_yet t.ongoing_promises,
          lookup-insert k k none_yet t.ongoing_promises,
          lookup-insert k j i t.queue,
        );
        apart = λ p a b f g. ground (
          arith,
          v.apart p a b,
          f,
          g,
          e.equals_iff k a,
          e.equals_iff k b,
          lookup-insert k a none_yet t.ongoing_promises,
          lookup-insert k b none_yet t.ongoing_promises,
        );
        used = λ p a f.
            ground (
              arith,
              v.used p a,
              f,
              e.equals_iff k a,
              lookup-insert k a none_yet t.ongoing_promises,
            );
        fresh = v.fresh;
      }

  pub noted-IsOpen :
      (i : Instruction K B) (t : InstructionThrottler K B)
      → is_handling (lookup i.stream_key (noted i t).ongoing_promises) ≡ false
      → IsValid t
      → IsOpen i.stream_key (noted i t)
  unfolding noted has_key
  noted-IsOpen i t idle v =
      let k = i.stream_key in
      let none_yet : Ongoing = record { promise = none; handling = false } in
      record {
        single = λ p j. ground (
          arith,
          idle,
          v.single p j,
          e.equals_iff k j,
          e.equals_iff k k,
          lookup-insert k j none_yet t.ongoing_promises,
          lookup-insert k k none_yet t.ongoing_promises,
        );
        promised = λ j named. ground (
          arith,
          named,
          v.promised j,
          e.equals_iff k j,
          e.equals_iff k k,
          lookup-insert k j none_yet t.ongoing_promises,
          lookup-insert k k i t.queue,
        );
        busy = λ j other queued. ground (
          arith,
          v.busy j,
          other,
          queued,
          lookup-insert k j none_yet t.ongoing_promises,
          lookup-insert k j i t.queue,
        );
        apart = λ p a b f g. ground (
          arith,
          v.apart p a b,
          f,
          g,
          e.equals_iff k a,
          e.equals_iff k b,
          lookup-insert k a none_yet t.ongoing_promises,
          lookup-insert k b none_yet t.ongoing_promises,
        );
        used = λ p a f.
            ground (
              arith,
              v.used p a,
              f,
              e.equals_iff k a,
              lookup-insert k a none_yet t.ongoing_promises,
            );
        fresh = v.fresh;
        here = ground (arith, e.equals_iff k k, lookup-insert k k none_yet t.ongoing_promises);
      }
