-- ===== src/Tracker/Steps.antt =====
-- The steps of src/logic/Tracker.ts keep the links of every overlay valid, and do not throw.
use mathlib.Core.Path.{subst}
use network_old.Base.{
  All-trivial, ◌≡◌, Bool, true, List, [], ◌∷◌, ok, Eq, Dict, lookup, update, has_key, AllValues,
  IfSome, lookup-AllValues, insert-AllValues, update-AllValues, remove-AllValues, if_elim,
  Option-cases, Bool-cases, inl, inr, ℕ,
}
use network_old.Overlay.{OverlayTopology, Choices, leave, is_empty_topology, form_instructions}
use network_old.Overlay.Updates.{IsValid, leave-IsValid}
use network_old.Overlay.Instructions.{IsChoice, form_instructions_ok, form_instructions_absent}
use network_old.Tracker.{
  Tracker, Outcome, send, send_formed, form_and_send_on, form_and_send_instructions, left,
  leave_and_check_empty_overlay,
}
use network_old.Tracker.Outcomes.{Succeeds, for_each-Succeeds}

module _ {N : Type 0} ⦃en : Eq N⦄ where
  abbrev pub IsValidOverlay : OverlayTopology N → Type 0
  IsValidOverlay o = IsValid o.nodes

  form_instructions-IsValid :
      (c : Choices N) (o : OverlayTopology N) (n : N) (force : Bool)
      → IsChoice c
      → IsValid o.nodes
      → (o' : OverlayTopology N) × (instructions : Dict N (List N)) × (form_instructions c o n force
          ≡ ok (o', instructions))
        × IsValid o'.nodes
  form_instructions-IsValid c o n force ch v = elim (Bool-cases (has_key n o.nodes)) [
    | inl here ↦
        let (formed, valid, _) = form_instructions_ok c o n force ch v here in (_, _, formed, valid)
    | inr missing ↦ (o, [], form_instructions_absent c o n force missing, v)
  ]

module _ {N K R : Type 0} ⦃en : Eq N⦄ ⦃ek : Eq K⦄ where
  -- The links of every overlay are valid.
  abbrev pub AreValid : Tracker N K R → Type 0
  AreValid t = AllValues IsValidOverlay t.overlay_per_stream

  send_formed-AreValid :
      (stream : K) (t : Tracker N K R) (o : OverlayTopology N) (instructions : Dict N (List N))
      → IsValid o.nodes
      → AreValid t
      → Succeeds AreValid (send_formed stream t (ok (o, instructions)))
  unfolding send_formed send
  send_formed-AreValid stream t o instructions v h =
      for_each-Succeeds (λ _. Unit) AreValid instructions (send stream) (λ a t' _ valid. valid)
        (All-trivial instructions) _
        (insert-AllValues IsValidOverlay stream o t.overlay_per_stream v h)

  form_and_send_on-AreValid :
      (choose : ℕ → Choices N) (n : N) (force : Bool) (stream : K) (t : Tracker N K R)
      → ((i : ℕ) → IsChoice (choose i))
      → AreValid t
      → Succeeds AreValid (form_and_send_on choose n force stream t)
  unfolding form_and_send_on
  form_and_send_on-AreValid choose n force stream t ch h =
      elim (Option-cases (lookup stream t.overlay_per_stream)) [
        | inl none_there ↦ rw (Succeeds, none_there) h
        | inr (o, there) ↦
            let valid : IsValid o.nodes =
              subst (λ x. IfSome IsValidOverlay x) there
                (lookup-AllValues IsValidOverlay stream t.overlay_per_stream h) in
            let (o', instructions, formed, valid') =
              form_instructions-IsValid (choose t.calls) o n force (ch t.calls) valid in
            rw (Succeeds, there, formed) (send_formed-AreValid stream t o' instructions valid' h)
      ]

  pub form_and_send_instructions-AreValid :
      (choose : ℕ → Choices N) (n : N) (streams : List K) (force : Bool) (t : Tracker N K R)
      → ((i : ℕ) → IsChoice (choose i))
      → AreValid t
      → Succeeds AreValid (form_and_send_instructions choose n streams force t)
  unfolding form_and_send_instructions
  form_and_send_instructions-AreValid choose n streams force t ch h =
      for_each-Succeeds (λ _. Unit) AreValid streams (form_and_send_on choose n force)
        (λ stream t' _ v. form_and_send_on-AreValid choose n force stream t' ch v)
        (All-trivial streams) t h

  pub leave_and_check_empty_overlay-AreValid :
      (choose : ℕ → Choices N) (n : N) (entry : K × OverlayTopology N) (t : Tracker N K R)
      → ((i : ℕ) → IsChoice (choose i))
      → IsValidOverlay entry.1
      → AreValid t
      → Succeeds AreValid (leave_and_check_empty_overlay choose n entry t)
  unfolding leave_and_check_empty_overlay left
  leave_and_check_empty_overlay-AreValid choose n (stream, o) t ch v h =
      let o' = (leave o n).0 in
      let overlays = update stream (λ _. o') t.overlay_per_stream in
      let valid : AllValues IsValidOverlay overlays =
        update-AllValues IsValidOverlay stream (λ _. o') t.overlay_per_stream
          (λ _ _. leave-IsValid o n v) h in
      if_elim (λ (r : Outcome N K R). Succeeds AreValid r) (is_empty_topology o')
        (remove-AllValues IsValidOverlay stream overlays valid)
        (for_each-Succeeds (λ _. Unit) AreValid (leave o n).1 _
          (λ neighbor t' _ v'.
            form_and_send_instructions-AreValid choose neighbor (stream ∷ []) true t' ch v')
          (All-trivial (leave o n).1) _ valid)
