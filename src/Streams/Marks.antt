-- ===== src/Streams/Marks.antt =====
-- `markNumbersAndCheckThatIsNotDuplicate` of src/logic/StreamManager.ts, by what it does to each
-- detector of each stream.
use network_old.Base.{
  ◌≡◌, refl, Bool, ◌&&◌, [], Option, none, some, Result, ok, err, arith, Eq, ◌==◌, string_eq,
  String, Dict, lookup, has_key, lookup-insert, if◌then◌else◌, Option-cases, inl, inr,
}
use network_old.Detector.{NumberPair, DetectorError, DuplicateMessageDetector, mark_and_check}
use network_old.Detector.Histories.{after}
use network_old.Streams.{
  StreamManager, StreamState, MessageId, StreamError, not_set_up, detector, key_for_detector,
  or_new_detector, detector_of, marked, is_set_up, verify_that_is_set_up, state_of,
  mark_numbers_and_check_that_is_not_duplicate, get_stream_state, representation,
}

abbrev or_no_detectors :
    {N : Type 0} → Option (StreamState N) → Dict String DuplicateMessageDetector
or_no_detectors none = []
or_no_detectors (some s) = s.detectors

-- What a call of the detector answers to the caller.
abbrev pub answer_of :
    Result DetectorError (Bool × DuplicateMessageDetector) → Result StreamError Bool
answer_of (ok (fresh, d)) = ok fresh
answer_of (err e) = err (detector e)

marked-answer :
    {N : Type 0} (s : StreamState N) (key : String)
    (r : Result DetectorError (Bool × DuplicateMessageDetector))
    → (marked s key r).1 ≡ answer_of r
marked-answer s key (ok (fresh, d)) = refl
marked-answer s key (err e) = refl

marked-detectors :
    {N : Type 0} (s : StreamState N) (key : String)
    (r : Result DetectorError (Bool × DuplicateMessageDetector)) (j : String)
    → detector_of (marked s key r).0 j
      ≡ (if key == j then after (detector_of s key) r else detector_of s j)
unfolding detector_of
marked-detectors s key (ok (fresh, d)) j = ground (arith, lookup-insert key j d s.detectors)
marked-detectors s key (err e) j = ground (
  arith,
  lookup-insert key j (or_new_detector (lookup key s.detectors)) s.detectors,
  string_eq.equals_iff key j,
)

pub marked-representation :
    {N : Type 0} (s : StreamState N) (key : String)
    (r : Result DetectorError (Bool × DuplicateMessageDetector))
    → representation (marked s key r).0 ≡ representation s
marked-representation s key (ok (fresh, d)) = refl
marked-representation s key (err e) = refl

module _ {N K : Type 0} ⦃en : Eq N⦄ ⦃ek : Eq K⦄ where
  -- The detector of a publisher and chain on a stream, a new one if there is none.
  unfoldable pub detector_in : StreamManager N K → K → String → DuplicateMessageDetector
  detector_in m k key = or_new_detector (lookup key (or_no_detectors (lookup k m)))

  -- The call answers with what the detector of its stream, publisher and chain answers, or that
  -- the stream is not set up; it changes that detector as `markAndCheck` does, and no other
  -- detector, and not what the streams' states say of the nodes.
  pub mark_numbers_lem :
      (m : StreamManager N K) (id : MessageId K) (previous : Option NumberPair) (k : K)
      → let result = mark_numbers_and_check_that_is_not_duplicate m id previous in
        let stream = id.stream_key in
        let d = detector_in m stream (key_for_detector id) in
        let checked = mark_and_check d previous id.number in
        (result.1 ≡ (if is_set_up m stream then answer_of checked else err not_set_up))
        × ((key : String)
            → detector_in result.0 k key ≡ (
                if is_set_up m stream && (stream == k) && (key_for_detector id == key)
                then after d checked
                else detector_in m k key))
        × (get_stream_state result.0 k ≡ get_stream_state m k)
  unfolding mark_numbers_and_check_that_is_not_duplicate state_of verify_that_is_set_up is_set_up
      detector_of get_stream_state has_key detector_in
  mark_numbers_lem m id previous k =
      let key = key_for_detector id in
      elim (Option-cases (lookup id.stream_key m)) [
        | inl h ↦ (ground (arith, h), λ j. ground (arith, h), ground (arith, h))
        | inr (s, h) ↦
            let r = mark_and_check (detector_of s key) previous id.number in
            (
              ground (arith, h, marked-answer s key r),
              λ j. ground (
                arith,
                h,
                marked-detectors s key r j,
                lookup-insert id.stream_key k (marked s key r).0 m,
                ek.equals_iff id.stream_key k,
                string_eq.equals_iff key j,
              ),
              ground (
                arith,
                h,
                marked-representation s key r,
                ek.equals_iff id.stream_key k,
                lookup-insert id.stream_key k (marked s key r).0 m,
              ),
            )
      ]
