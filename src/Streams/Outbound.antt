-- ===== src/Streams/Outbound.antt =====
-- The outbound nodes of a stream in src/logic/StreamManager.ts.
use network_old.Base.{
  ◌≡◌, refl, sym, ap, ◌∙◌, Bool, true, false, List, Option, none, some, is_some, Result, ok, err,
  arith, Eq, string_eq, String, lookup, has_key, add, lookup-insert, Option-cases, inl, inr,
}
use network_old.Detector.{
  NumberPair, DetectorError, DuplicateMessageDetector, greater_than, top, mark_and_check,
}
use network_old.Detector.Validity.{IsValid}
use network_old.Detector.Answers.{mark_and_check_twice}
use network_old.Detector.Histories.{run}
use network_old.Streams.{
  StreamManager, StreamState, MessageId, StreamError, not_set_up, key_for_detector, detector_of,
  marked, is_set_up, verify_that_is_set_up, state_of, mark_numbers_and_check_that_is_not_duplicate,
  get_outbound_nodes_for_stream, add_inbound_node, add_outbound_node,
}
use network_old.Streams.Operations.{perform, add_inbound, add_outbound, detector_in-perform}
use network_old.Streams.Marks.{detector_in, answer_of, mark_numbers_lem}

abbrev pub outbound_in : {N : Type 0} → Option (StreamState N) → Option (List N)
outbound_in none = none
outbound_in (some s) = some s.outbound_nodes

abbrev pub or_not_set_up : {A : Type 0} → Option A → Result StreamError A
or_not_set_up none = err not_set_up
or_not_set_up (some a) = ok a

outbound-marked :
    {N : Type 0} (s : StreamState N) (key : String)
    (r : Result DetectorError (Bool × DuplicateMessageDetector))
    → (marked s key r).0.outbound_nodes ≡ s.outbound_nodes
outbound-marked s key (ok (fresh, d)) = refl
outbound-marked s key (err e) = refl

-- An answer that a message is new comes from a detector's answer that it is.
answer_of-new :
    (r : Result DetectorError (Bool × DuplicateMessageDetector))
    → answer_of r ≡ ok true
    → (d' : DuplicateMessageDetector) × (r ≡ ok (true, d'))
answer_of-new (ok (true, d')) h = (d', refl)
answer_of-new (ok (false, d')) h = cc
answer_of-new (err e) h = cc

module _ {N K : Type 0} ⦃en : Eq N⦄ ⦃ek : Eq K⦄ where
  unfoldable pub outbound_nodes_of : StreamManager N K → K → Option (List N)
  outbound_nodes_of m k = outbound_in (lookup k m)

  pub get_outbound_lem :
      (m : StreamManager N K) (k : K)
      → get_outbound_nodes_for_stream m k ≡ or_not_set_up (outbound_nodes_of m k)
  unfolding get_outbound_nodes_for_stream state_of verify_that_is_set_up is_set_up has_key
      outbound_nodes_of
  get_outbound_lem m k = elim (Option-cases (lookup k m)) [
    | inl h ↦ ground (arith, h)
    | inr (s, h) ↦ ground (arith, h)
  ]

  pub is_set_up-outbound :
      (m : StreamManager N K) (k : K) → is_set_up m k ≡ is_some (outbound_nodes_of m k)
  unfolding is_set_up has_key outbound_nodes_of
  is_set_up-outbound m k = elim (Option-cases (lookup k m)) [
    | inl h ↦ ground (arith, h)
    | inr (s, h) ↦ ground (arith, h)
  ]

  -- A message that is marked changes no outbound nodes.
  pub outbound-mark :
      (m : StreamManager N K) (id : MessageId K) (previous : Option NumberPair) (k : K)
      → outbound_nodes_of (mark_numbers_and_check_that_is_not_duplicate m id previous).0 k
        ≡ outbound_nodes_of m k
  unfolding mark_numbers_and_check_that_is_not_duplicate state_of verify_that_is_set_up is_set_up
      has_key outbound_nodes_of
  outbound-mark m id previous k = elim (Option-cases (lookup id.stream_key m)) [
    | inl h ↦ ground (arith, h)
    | inr (s, h) ↦
        let key = key_for_detector id in
        let r = mark_and_check (detector_of s key) previous id.number in
        ground (
          arith,
          h,
          outbound-marked s key r,
          lookup-insert id.stream_key k (marked s key r).0 m,
          ek.equals_iff id.stream_key k,
        )
  ]

  -- `add_inbound_node` on a stream that is set up.
  pub add_inbound_lem :
      (m : StreamManager N K) (k : K) (node : N) (nodes : List N)
      → outbound_nodes_of m k ≡ some nodes
      → (add_inbound_node m k node ≡ ok (perform m (add_inbound k node)))
        × (outbound_nodes_of (perform m (add_inbound k node)) k ≡ some nodes)
  unfolding add_inbound_node state_of verify_that_is_set_up is_set_up has_key outbound_nodes_of
      perform
  add_inbound_lem m k node nodes h = elim (Option-cases (lookup k m)) [
    | inl absent ↦ absurd (ground (arith, h, absent))
    | inr (s, there) ↦
        let s' : StreamState N = record s { inbound_nodes = add s.inbound_nodes node } in
        (ground (arith, there), ground (arith, there, h, lookup-insert k k s' m, ek.equals_iff k k))
  ]

  -- `add_outbound_node` on a stream that is set up.
  pub add_outbound_lem :
      (m : StreamManager N K) (k : K) (node : N) (nodes : List N)
      → outbound_nodes_of m k ≡ some nodes
      → (add_outbound_node m k node ≡ ok (perform m (add_outbound k node)))
        × (outbound_nodes_of (perform m (add_outbound k node)) k ≡ some (add nodes node))
  unfolding add_outbound_node state_of verify_that_is_set_up is_set_up has_key outbound_nodes_of
      perform
  add_outbound_lem m k node nodes h = elim (Option-cases (lookup k m)) [
    | inl absent ↦ absurd (ground (arith, h, absent))
    | inr (s, there) ↦
        let s' : StreamState N = record s { outbound_nodes = add s.outbound_nodes node } in
        (ground (arith, there), ground (arith, there, h, lookup-insert k k s' m, ek.equals_iff k k))
  ]

  -- The answer is that of the detector, if the stream is set up.
  pub mark-answer :
      (m : StreamManager N K) (id : MessageId K) (previous : Option NumberPair) (nodes : List N)
      → outbound_nodes_of m id.stream_key ≡ some nodes
      → (mark_numbers_and_check_that_is_not_duplicate m id previous).1
        ≡ answer_of
            (mark_and_check (detector_in m id.stream_key (key_for_detector id)) previous id.number)
  mark-answer m id previous nodes h = ground (
    arith,
    h,
    is_set_up-outbound m id.stream_key,
    (mark_numbers_lem m id previous id.stream_key).0,
  )

  -- A message that is new is a duplicate when it comes again, also when a node has been added in the
  -- meantime.
  pub mark_twice :
      (m : StreamManager N K) (id : MessageId K) (previous : Option NumberPair) (node : N)
      (nodes : List N)
      → IsValid (detector_in m id.stream_key (key_for_detector id))
      → greater_than top id.number ≡ true
      → outbound_nodes_of m id.stream_key ≡ some nodes
      → (mark_numbers_and_check_that_is_not_duplicate m id previous).1 ≡ ok true
      → let m1 : StreamManager N K =
          (mark_numbers_and_check_that_is_not_duplicate m id previous).0 in
        let m2 : StreamManager N K = perform m1 (add_inbound id.stream_key node) in
        let m3 : StreamManager N K = perform m2 (add_outbound id.stream_key node) in
        (mark_numbers_and_check_that_is_not_duplicate m3 id previous).1 ≡ ok false
  unfolding run
  mark_twice m id previous node nodes v below h new =
      let k = id.stream_key in
      let key = key_for_detector id in
      let d = detector_in m k key in
      let m1 : StreamManager N K = (mark_numbers_and_check_that_is_not_duplicate m id previous).0 in
      let m2 : StreamManager N K = perform m1 (add_inbound k node) in
      let m3 : StreamManager N K = perform m2 (add_outbound k node) in
      let h1 = outbound-mark m id previous k ∙ h in
      let h2 = (add_inbound_lem m1 k node nodes h1).1 in
      let h3 = (add_outbound_lem m2 k node nodes h2).1 in
      let (d', first) =
        answer_of-new (mark_and_check d previous id.number)
          (sym (mark-answer m id previous nodes h) ∙ new) in
      let marked_once : detector_in m1 k key ≡ d' = ground (
        arith,
        (mark_numbers_lem m id previous k).1 key,
        first,
        is_set_up-outbound m k,
        h,
        ek.equals_iff k k,
        string_eq.equals_iff key key,
      ) in
      let same : detector_in m3 k key ≡ d' =
        detector_in-perform m2 k key (add_outbound k node) refl
        ∙ detector_in-perform m1 k key (add_inbound k node) refl
        ∙ marked_once in
      mark-answer m3 id previous (add nodes node) h3
      ∙ ap (λ x. answer_of (mark_and_check x previous id.number)) same
      ∙ ap answer_of (mark_and_check_twice d d' previous id.number v below first)
