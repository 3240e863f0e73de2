-- ===== src/Tracker/Outcomes.antt =====
-- What holds after a sequence of the steps of src/logic/Tracker.ts, if it holds after each.
use network_old.Base.{ok, err, List, [], ◌∷◌, All}
use network_old.Tracker.{Tracker, Outcome, Instruction, and_then, after_sending, for_each}

module _ {N K R : Type 0} where
  -- The method returns, and the state is such after it.
  abbrev pub Succeeds : (Tracker N K R → Type 0) → Outcome N K R → Type 0
  Succeeds P (ok (t, sent)) = P t
  Succeeds P (err e) = ⊥

  after_sending-Succeeds :
      (P : Tracker N K R → Type 0) (sent : List (Instruction N K)) (o : Outcome N K R)
      → Succeeds P o
      → Succeeds P (after_sending sent o)
  after_sending-Succeeds P sent (ok r) h = h
  after_sending-Succeeds P sent (err e) h = h

  pub and_then-Succeeds :
      (P Q : Tracker N K R → Type 0) (o : Outcome N K R) (f : Tracker N K R → Outcome N K R)
      → Succeeds P o
      → ((t : Tracker N K R) → P t → Succeeds Q (f t))
      → Succeeds Q (and_then o f)
  and_then-Succeeds P Q (ok (t, sent)) f h k = after_sending-Succeeds Q sent (f t) (k t h)
  and_then-Succeeds P Q (err e) f h k = absurd h

  pub for_each-Succeeds :
      {A : Type 0} (Q : A → Type 0) (P : Tracker N K R → Type 0) (xs : List A)
      (f : A → Tracker N K R → Outcome N K R)
      → ((a : A) (t : Tracker N K R) → Q a → P t → Succeeds P (f a t))
      → All Q xs
      → (t : Tracker N K R) → P t
      → Succeeds P (for_each xs f t)
  unfolding for_each
  for_each-Succeeds Q P [] f step q t h = h
  for_each-Succeeds Q P (x ∷ xs) f step q t h =
      and_then-Succeeds P P (f x t) (for_each xs f) (step x t q.0 h)
        (for_each-Succeeds Q P xs f step q.1)
