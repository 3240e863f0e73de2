-- ===== src/Streams/Histories.antt =====
-- Histories of the calls that change the state of src/logic/StreamManager.ts.
use mathlib.Core.Path.{subst}
use network_old.Base.{
  ◌≡◌, ◌≢◌, refl, sym, ap, ◌∙◌, Bool, true, false, List, [], ◌∷◌, ◌++◌, Option, Result, ok, err,
  arith, Eq, string_eq, String, lookup, if◌then◌else◌, All, Bool-cases, inl, inr, All-append,
}
use network_old.Detector.{
  NumberPair, DetectorError, DuplicateMessageDetector, mark_and_check, greater_than, top,
}
use network_old.Detector.Validity.{IsValid, new_detector-IsValid, mark_and_check-IsValid}
use network_old.Detector.Histories.{Call, run, after, IsFinite, run_never_new_again}
use network_old.Streams.{
  StreamManager, MessageId, key_for_detector, mark_numbers_and_check_that_is_not_duplicate,
  not_set_up,
}
use network_old.Streams.Operations.{
  Operation, IsFiniteCall, perform, perform_all, keeps, calls_of, detector_in-perform,
  detector_in-lost, calls_of-IsFinite,
}
use network_old.Streams.Marks.{detector_in, answer_of, mark_numbers_lem}

run-append :
    (cs ds : List Call) (d : DuplicateMessageDetector) → run d (cs ++ ds) ≡ run (run d cs) ds
unfolding run
run-append [] ds d = refl
run-append (c ∷ cs) ds d = run-append cs ds (after d (mark_and_check d c.0 c.1))

after-IsValid :
    (d : DuplicateMessageDetector) (previous : Option NumberPair) (n : NumberPair)
    → IsValid d
    → greater_than top n ≡ true
    → (r : Result DetectorError (Bool × DuplicateMessageDetector)) → mark_and_check d previous n ≡ r
    → IsValid (after d r)
after-IsValid d previous n v below (ok (fresh, d')) q =
    mark_and_check-IsValid d previous n v below q
after-IsValid d previous n v below (err e) q = v

run-IsValid :
    (cs : List Call) (d : DuplicateMessageDetector)
    → All IsFinite cs
    → IsValid d
    → IsValid (run d cs)
unfolding run
run-IsValid [] d finite v = v
run-IsValid ((previous, n) ∷ cs) d finite v =
    run-IsValid cs (after d (mark_and_check d previous n)) finite.1
      (after-IsValid d previous n v finite.0 (mark_and_check d previous n) refl)

-- An answer that a message is new comes from a detector's answer that it is.
answer_of-true :
    (r : Result DetectorError (Bool × DuplicateMessageDetector)) (set : Bool)
    → (if set then answer_of r else err not_set_up) ≡ ok true
    → (d' : DuplicateMessageDetector) × (r ≡ ok (true, d')) × (set ≡ true)
answer_of-true (ok (true, d')) true h = (d', refl, refl)
answer_of-true (ok (false, d')) true h = cc
answer_of-true (err e) true h = cc
answer_of-true r false h = cc

module _ {N K : Type 0} ⦃en : Eq N⦄ ⦃ek : Eq K⦄ where
  calls_all : StreamManager N K → K → String → List (Operation N K) → List Call
  calls_all m k key [] = []
  calls_all m k key (o ∷ os) = calls_of m k key o ++ calls_all (perform m o) k key os

  detector_in-perform_all :
      (os : List (Operation N K)) (m : StreamManager N K) (k : K) (key : String)
      → All (λ o. keeps k o ≡ true) os
      → detector_in (perform_all m os) k key ≡ run (detector_in m k key) (calls_all m k key os)
  unfolding perform_all calls_all run
  detector_in-perform_all [] m k key h = refl
  detector_in-perform_all (o ∷ os) m k key h =
      detector_in-perform_all os (perform m o) k key h.1
      ∙ ap (λ d. run d (calls_all (perform m o) k key os)) (detector_in-perform m k key o h.0)
      ∙ sym
          (run-append (calls_of m k key o) (calls_all (perform m o) k key os) (detector_in m k key))

  calls_all-IsFinite :
      (os : List (Operation N K)) (m : StreamManager N K) (k : K) (key : String)
      → All IsFiniteCall os
      → All IsFinite (calls_all m k key os)
  unfolding calls_all
  calls_all-IsFinite [] m k key h = tt
  calls_all-IsFinite (o ∷ os) m k key h =
      All-append IsFinite (calls_of m k key o) (calls_all (perform m o) k key os)
        (calls_of-IsFinite m k key o h.0) (calls_all-IsFinite os (perform m o) k key h.1)

  -- Every detector, also one that is not made yet, is valid.
  abbrev AreValid : StreamManager N K → Type 0
  AreValid m = (k : K) (key : String) → IsValid (detector_in m k key)

  perform-AreValid :
      (m : StreamManager N K) (o : Operation N K)
      → IsFiniteCall o
      → AreValid m
      → AreValid (perform m o)
  perform-AreValid m o finite v k key = elim (Bool-cases (keeps k o)) [
    | inl kept ↦ subst IsValid (sym (detector_in-perform m k key o kept)) (
        run-IsValid (calls_of m k key o) (detector_in m k key) (calls_of-IsFinite m k key o finite)
          (v k key))
    | inr lost ↦ elim (detector_in-lost m k key o lost) [
      | inl same ↦ subst IsValid (sym same) (v k key)
      | inr new ↦ subst IsValid (sym new) new_detector-IsValid
    ]
  ]

  perform_all-AreValid :
      (os : List (Operation N K)) (m : StreamManager N K)
      → All IsFiniteCall os
      → AreValid m
      → AreValid (perform_all m os)
  unfolding perform_all
  perform_all-AreValid [] m finite v = v
  perform_all-AreValid (o ∷ os) m finite v =
      perform_all-AreValid os (perform m o) finite.1 (perform-AreValid m o finite.0 v)

  empty-AreValid : (m : StreamManager N K) → m ≡ [] → AreValid m
  unfolding detector_in lookup
  empty-AreValid m h k key = rw h new_detector-IsValid

  -- In every history from the empty state, with finite numbers: once the call has said of a message
  -- that it is new, it never says so again, whatever calls come between, unless the stream is
  -- removed between.
  pub mark_never_new_again :
      (before : List (Operation N K))
      → All IsFiniteCall before
      → (id : MessageId K) (previous : Option NumberPair) → greater_than top id.number ≡ true
      → (m : StreamManager N K)
      → mark_numbers_and_check_that_is_not_duplicate (perform_all [] before) id previous
        ≡ (m, ok true)
      → (between : List (Operation N K)) → All IsFiniteCall between
      → All (λ o. keeps id.stream_key o ≡ true) between
      → (again : Option NumberPair)
      → (mark_numbers_and_check_that_is_not_duplicate (perform_all m between) id again).1 ≢ ok true
  mark_never_new_again before finite id previous below m new between finite' kept again new' =
      let m0 : StreamManager N K = perform_all [] before in
      let k = id.stream_key in
      let key = key_for_detector id in
      let d = detector_in m0 k key in
      let m' : StreamManager N K = perform_all m between in
      let calls = calls_all m k key between in
      let v : IsValid d = perform_all-AreValid before [] finite (empty-AreValid [] refl) k key in
      let (d', first, set) =
        answer_of-true (mark_and_check d previous id.number) _
          (sym (mark_numbers_lem m0 id previous k).0 ∙ ap (λ r. r.1) new) in
      let (d'', second, _) =
        answer_of-true (mark_and_check (detector_in m' k key) again id.number) _
          (sym (mark_numbers_lem m' id again k).0 ∙ new') in
      let start : detector_in m k key ≡ d' = ground (
        arith,
        (mark_numbers_lem m0 id previous k).1 key,
        new,
        first,
        set,
        ek.equals_iff k k,
        string_eq.equals_iff key key,
      ) in
      let there : detector_in m' k key ≡ run d' calls =
        detector_in-perform_all between m k key kept ∙ ap (λ x. run x calls) start in
      run_never_new_again d d' previous id.number v below first calls
        (calls_all-IsFinite between m k key finite') again d''
        (subst (λ x. mark_and_check x again id.number ≡ ok (true, d'')) there second)
