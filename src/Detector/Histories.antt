-- ===== src/Detector/Histories.antt =====
-- Histories of calls of `markAndCheck` (src/logic/DuplicateMessageDetector.ts).
use network_old.Base.{
  ℕ, ap, ◌≡◌, ◌≢◌, refl, inl, inr, Bool, true, false, List, [], ◌∷◌, Option, none, some, Result, ok,
  err, arith, All, Bool-cases,
}
use mathlib.Core.Path.{subst}
use network_old.Detector.{
  NumberPair, Gap, DetectorError, DuplicateMessageDetector, top, greater_than, mark_latest,
  mark_gaps, is_invalid_numbering, mark_and_check,
}
use network_old.Detector.Order.{greater_than_asymm, greater_than_split}
use network_old.Detector.Gaps.{unseen, unseen_above}
use network_old.Detector.Validity.{IsValid, IsGaps, mark_and_check-IsValid}
use network_old.Detector.Answers.{
  Answers, mark_and_check-Answers, mark_and_check_twice, numbering_order, within_self,
}

-- What the answer to a call means for the unseen numbers, with and without a previous number.
abbrev Effect :
    DuplicateMessageDetector
    → NumberPair
    → Result DetectorError (Bool × DuplicateMessageDetector)
    → Type 0
Effect d n (ok (fresh, d')) =
    ((q : NumberPair) → unseen d'.gaps q ≡ true → unseen d.gaps q ≡ true)
    × (fresh ≡ true → (unseen d.gaps n ≡ true) × (unseen d'.gaps n ≡ false))
    × (fresh ≡ false → d'.gaps ≡ d.gaps)
Effect d n (err e) = Unit

latest-Effect :
    (n : NumberPair) (g : Gap) (gs : List Gap)
    → greater_than top n ≡ true
    → IsGaps (g ∷ gs)
    → let r = mark_latest n (g ∷ gs) in
      ((q : NumberPair) → unseen r.1 q ≡ true → unseen (g ∷ gs) q ≡ true)
      × (r.0 ≡ true → (unseen (g ∷ gs) n ≡ true) × (unseen r.1 n ≡ false))
      × (r.0 ≡ false → r.1 ≡ g ∷ gs)
unfolding mark_latest unseen
latest-Effect n g gs below c = (
  λ q h. ground (
    arith,
    greater_than_split q g.lower n,
    greater_than_asymm q n,
    greater_than_split n q g.lower,
    greater_than_split q n g.lower,
  ),
  λ h. ground (
    arith,
    greater_than_asymm n g.lower,
    greater_than_asymm n n,
    greater_than_asymm top n,
    unseen_above g.lower n gs c.1.1,
  ),
  λ h. ground arith,
)

Answers-Effect :
    (d : DuplicateMessageDetector) (p n : NumberPair)
    → greater_than n p ≡ true
    → (r : Result DetectorError (Bool × DuplicateMessageDetector)) → Answers d p n r
    → Effect d n r
Answers-Effect d p n order (ok (true, d')) a = (
  λ q h. (a.1 q h).0,
  λ h. (
    a.0 n (within_self p n order),
    elim (Bool-cases (unseen d'.gaps n)) [
      | inl new ↦ cc ((a.1 n new).1, within_self p n order)
      | inr old ↦ old
    ],
  ),
  λ h. cc,
)
Answers-Effect d p n order (ok (false, d')) a =
    (λ q h. ground (arith, a.0), λ h. cc, λ h. ap (λ x. x.gaps) a.0)
Answers-Effect d p n order (err e) a = tt

unknown-Effect :
    (limit : ℕ) (gs : List Gap) (n : NumberPair)
    → gs ≢ []
    → greater_than top n ≡ true
    → IsGaps gs
    → let d : DuplicateMessageDetector = record { max_number_of_gaps = limit; gaps = gs } in
      Effect d n (mark_and_check d none n)
unfolding mark_and_check mark_gaps is_invalid_numbering
unknown-Effect limit [] n started below c = absurd (started refl)
unknown-Effect limit (g ∷ gs) n started below c = latest-Effect n g gs below c

mark_and_check-Effect :
    (d : DuplicateMessageDetector) (previous : Option NumberPair) (n : NumberPair)
    → IsValid d
    → d.gaps ≢ []
    → greater_than top n ≡ true
    → Effect d n (mark_and_check d previous n)
unfolding mark_and_check
mark_and_check-Effect d none n v started below =
    unknown-Effect d.max_number_of_gaps d.gaps n started below v.ordered
mark_and_check-Effect d (some p) n v started below =
    elim (Bool-cases (is_invalid_numbering (some p) n)) [
      | inl bad ↦ rw bad tt
      | inr order ↦
          Answers-Effect d p n (numbering_order p n order) _
            (mark_and_check-Answers d p n v started (numbering_order p n order))
    ]

-- The gaps never run out: a detector without gaps would take the number for new once more.
new-gaps :
    (d d' : DuplicateMessageDetector) (previous : Option NumberPair) (n : NumberPair)
    → IsValid d
    → greater_than top n ≡ true
    → mark_and_check d previous n ≡ ok (true, d')
    → d'.gaps ≢ []
unfolding mark_and_check mark_gaps
new-gaps d d' previous n v below e =
    λ empty. ground (arith, mark_and_check_twice d d' previous n v below e)

gaps_stay :
    (d d' : DuplicateMessageDetector) (previous : Option NumberPair) (n : NumberPair) (fresh : Bool)
    → IsValid d
    → d.gaps ≢ []
    → greater_than top n ≡ true
    → mark_and_check d previous n ≡ ok (fresh, d')
    → d'.gaps ≢ []
gaps_stay d d' previous n true v started below e = new-gaps d d' previous n v below e
gaps_stay d d' previous n false v started below e =
    let same : d'.gaps ≡ d.gaps =
      (subst (Effect d n) e (mark_and_check-Effect d previous n v started below)).2 refl in
    rw same started

-- A call of the method: the previous number, if it is known, and the number.
abbrev pub Call : Type 0
Call = Option NumberPair × NumberPair

-- A call that throws leaves the detector as it was.
abbrev pub after :
    DuplicateMessageDetector
    → Result DetectorError (Bool × DuplicateMessageDetector)
    → DuplicateMessageDetector
after d (ok (fresh, d')) = d'
after d (err e) = d

unfoldable pub run : DuplicateMessageDetector → List Call → DuplicateMessageDetector
run d [] = d
run d ((previous, n) ∷ cs) = run (after d (mark_and_check d previous n)) cs

abbrev pub IsFinite : Call → Type 0
IsFinite (previous, n) = greater_than top n ≡ true

-- A detector that has seen a message, and one number among the seen ones.
record HasSeen (d : DuplicateMessageDetector) (n : NumberPair) : Type 0 where
  valid : IsValid d
  started : d.gaps ≢ []
  seen : unseen d.gaps n ≡ false

after-HasSeen :
    (d : DuplicateMessageDetector) (n : NumberPair) (previous : Option NumberPair) (m : NumberPair)
    → greater_than top m ≡ true
    → (r : Result DetectorError (Bool × DuplicateMessageDetector)) → mark_and_check d previous m ≡ r
    → HasSeen d n
    → HasSeen (after d r) n
after-HasSeen d n previous m below (err e) q h = h
after-HasSeen d n previous m below (ok (fresh, d')) q h = record {
  valid = mark_and_check-IsValid d previous m h.valid below q;
  started = gaps_stay d d' previous m fresh h.valid h.started below q;
  seen = ground (
    arith,
    (subst (Effect d m) q (mark_and_check-Effect d previous m h.valid h.started below)).0 n,
    h.seen,
  );
}

run-HasSeen :
    (d : DuplicateMessageDetector) (n : NumberPair) (cs : List Call)
    → All IsFinite cs
    → HasSeen d n
    → HasSeen (run d cs) n
unfolding run
run-HasSeen d n [] a h = h
run-HasSeen d n ((previous, m) ∷ cs) a h =
    run-HasSeen (after d (mark_and_check d previous m)) n cs a.1
      (after-HasSeen d n previous m a.0 (mark_and_check d previous m) refl h)

first-HasSeen :
    (d d' : DuplicateMessageDetector) (previous : Option NumberPair) (n : NumberPair)
    → IsValid d
    → greater_than top n ≡ true
    → mark_and_check d previous n ≡ ok (true, d')
    → HasSeen d' n
unfolding mark_and_check mark_gaps unseen
first-HasSeen d d' previous n v below e = record {
  valid = mark_and_check-IsValid d previous n v below e;
  started = new-gaps d d' previous n v below e;
  seen = from d.gaps refl;
}
  where
    from : (gs : List Gap) → d.gaps ≡ gs → unseen d'.gaps n ≡ false
    from [] q = ground (arith, greater_than_asymm n n)
    from (g ∷ gs) q =
        ((subst (Effect d n) e (mark_and_check-Effect d previous n v (λ h. cc) below)).1 refl).1

-- A message that a valid detector has called new is never called new again, whatever calls with
-- finite numbers come between, those that throw included, and whatever previous number it is given.
pub run_never_new_again :
    (d d' : DuplicateMessageDetector) (previous : Option NumberPair) (n : NumberPair)
    → IsValid d
    → greater_than top n ≡ true
    → mark_and_check d previous n ≡ ok (true, d')
    → (cs : List Call) → All IsFinite cs
    → (again : Option NumberPair) (d'' : DuplicateMessageDetector)
    → mark_and_check (run d' cs) again n ≢ ok (true, d'')
run_never_new_again d d' previous n v below e cs finite again d'' f =
    let h = run-HasSeen d' n cs finite (first-HasSeen d d' previous n v below e) in
    let new =
      (subst (Effect (run d' cs) n) f
          (mark_and_check-Effect (run d' cs) again n h.valid h.started below)).1
        refl in
    cc (new.0, h.seen)
