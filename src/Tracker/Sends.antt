-- ===== src/Tracker/Sends.antt =====
-- Which counters the methods of src/logic/Tracker.ts send.
use mathlib.Core.Path.{subst}
use network_old.Base.{
  ℕ, ◌≡◌, Bool, true, List, [], ◌∷◌, Result, ok, err, arith, Eq, Dict, lookup, Option-cases, inl,
  inr, if_elim,
}
use network_old.Counters.{remove_node}
use network_old.Counters.Laws.{counter_of, counter_of-remove}
use network_old.Overlay.{
  OverlayTopology, Choices, TopologyError, leave, is_empty_topology, form_instructions,
}
use network_old.Tracker.{
  Tracker, Outcome, Instruction, and_then, after_sending, for_each, send, send_formed,
  form_and_send_on, form_and_send_instructions, left, leave_and_check_empty_overlay,
}
use network_old.Tracker.Counts.{
  AreCounted, AreCounted-append, AreCounted-nil, AreCounted-one, sent_to,
}

module _ {N K R : Type 0} ⦃en : Eq N⦄ ⦃ek : Eq K⦄ where
  -- If the method returns, its instructions carry the counters from one state to the other.
  abbrev Counts : Tracker N K R → Outcome N K R → Type 0
  Counts t (ok (t', sent)) = AreCounted t.instruction_counter sent t'.instruction_counter
  Counts t (err e) = Unit

  after_sending-Counts :
      (t t' : Tracker N K R) (sent : List (Instruction N K)) (o : Outcome N K R)
      → AreCounted t.instruction_counter sent t'.instruction_counter
      → Counts t' o
      → Counts t (after_sending sent o)
  after_sending-Counts t t' sent (ok (t'', more)) h k =
      AreCounted-append t.instruction_counter t'.instruction_counter t''.instruction_counter sent
        more h k
  after_sending-Counts t t' sent (err e) h k = tt

  and_then-Counts :
      (t : Tracker N K R) (o : Outcome N K R) (f : Tracker N K R → Outcome N K R)
      → Counts t o
      → ((t' : Tracker N K R) → Counts t' (f t'))
      → Counts t (and_then o f)
  and_then-Counts t (ok (t', sent)) f h k = after_sending-Counts t t' sent (f t') h (k t')
  and_then-Counts t (err e) f h k = tt

  for_each-Counts :
      {A : Type 0} (xs : List A) (f : A → Tracker N K R → Outcome N K R)
      → ((a : A) (t : Tracker N K R) → Counts t (f a t))
      → (t : Tracker N K R) → Counts t (for_each xs f t)
  unfolding for_each
  for_each-Counts [] f step t = AreCounted-nil t.instruction_counter
  for_each-Counts (x ∷ xs) f step t =
      and_then-Counts t (f x t) (for_each xs f) (step x t) (for_each-Counts xs f step)

  send_formed-Counts :
      (stream : K) (t : Tracker N K R)
      (r : Result TopologyError (OverlayTopology N × Dict N (List N)))
      → Counts t (send_formed stream t r)
  unfolding send_formed send
  send_formed-Counts stream t (err e) = tt
  send_formed-Counts stream t (ok (overlay, instructions)) =
      for_each-Counts instructions (send stream)
        (λ entry t'. AreCounted-one t'.instruction_counter entry.0 stream entry.1) _

  form_and_send_on-Counts :
      (choose : ℕ → Choices N) (n : N) (force : Bool) (stream : K) (t : Tracker N K R)
      → Counts t (form_and_send_on choose n force stream t)
  unfolding form_and_send_on
  form_and_send_on-Counts choose n force stream t =
      elim (Option-cases (lookup stream t.overlay_per_stream)) [
        | inl none_there ↦ rw (Counts, none_there) (AreCounted-nil t.instruction_counter)
        | inr (o, there) ↦
            rw (Counts, there)
              (send_formed-Counts stream t (form_instructions (choose t.calls) o n force))
      ]

  form_and_send_instructions-Counts :
      (choose : ℕ → Choices N) (n : N) (streams : List K) (force : Bool) (t : Tracker N K R)
      → Counts t (form_and_send_instructions choose n streams force t)
  unfolding form_and_send_instructions
  form_and_send_instructions-Counts choose n streams force =
      for_each-Counts streams (form_and_send_on choose n force)
        (form_and_send_on-Counts choose n force)

  -- The instructions that `formAndSendInstructions` sends carry, for each node and stream, the
  -- counters that follow the one before the call, in ascending order, up to the one after it.
  pub form_and_send_instructions-AreCounted :
      (choose : ℕ → Choices N) (n : N) (streams : List K) (force : Bool) (t t' : Tracker N K R)
      (sent : List (Instruction N K))
      → form_and_send_instructions choose n streams force t ≡ ok (t', sent)
      → AreCounted t.instruction_counter sent t'.instruction_counter
  form_and_send_instructions-AreCounted choose n streams force t t' sent e =
      subst (Counts t) e (form_and_send_instructions-Counts choose n streams force t)

  -- The counters once the node has left: those of the node for all streams are 0 but for what has
  -- been sent since.
  abbrev StartsAnew : N → Outcome N K R → Type 0
  StartsAnew node (ok (t', sent)) =
      (j : K) → counter_of t'.instruction_counter node j ≡ sent_to node j sent
  StartsAnew node (err e) = Unit

  Counts-StartsAnew :
      (node : N) (t : Tracker N K R) (o : Outcome N K R)
      → ((j : K) → counter_of t.instruction_counter node j ≡ 0)
      → Counts t o
      → StartsAnew node o
  Counts-StartsAnew node t (ok (t', sent)) zero h = λ j. omega (arith, h.counted node j, zero j)
  Counts-StartsAnew node t (err e) zero h = tt

  leave-StartsAnew :
      (choose : ℕ → Choices N) (node : N) (entry : K × OverlayTopology N) (t : Tracker N K R)
      → StartsAnew node (leave_and_check_empty_overlay choose node entry t)
  unfolding leave_and_check_empty_overlay left sent_to
  leave-StartsAnew choose node (stream, o) t =
      let c = t.instruction_counter in
      if_elim (λ (r : Outcome N K R). StartsAnew node r) (is_empty_topology (leave o node).0)
        (λ j. ground (
          arith,
          (counter_of-remove (remove_node c node) node stream node j).1,
          (counter_of-remove c node stream node j).0,
          en.equals_iff node node,
        ))
        (Counts-StartsAnew node (left stream o node t) _
          (λ j. ground (arith, (counter_of-remove c node stream node j).0, en.equals_iff node node))
          (for_each-Counts (leave o node).1 _
            (λ neighbor. form_and_send_instructions-Counts choose neighbor (stream ∷ []) true) _))

  -- When a node leaves one stream, its counters for all streams start again: after the call, the
  -- counter of the node for any stream is the number of the instructions for it that the call sends.
  pub leave_and_check_empty_overlay-resets :
      (choose : ℕ → Choices N) (node : N) (stream : K) (o : OverlayTopology N)
      (t t' : Tracker N K R) (sent : List (Instruction N K))
      → leave_and_check_empty_overlay choose node (stream, o) t ≡ ok (t', sent)
      → (j : K) → counter_of t'.instruction_counter node j ≡ sent_to node j sent
  leave_and_check_empty_overlay-resets choose node stream o t t' sent e =
      subst (StartsAnew node) e (leave-StartsAnew choose node (stream, o) t)
