-- ===== src/Streams/Operations.antt =====
-- The calls that change the state of src/logic/StreamManager.ts.
use network_old.Base.{
  ◌≡◌, refl, Bool, true, false, not, ◌&&◌, List, [], ◌∷◌, Option, some, Result, ok, err, arith, Eq,
  ◌==◌, string_eq, String, lookup, insert, add, has_key, lookup-insert, lookup-remove,
  lookup-map_values, if◌then◌else◌, ℤ, All, Option-cases, if_elim, inl, inr, ◌⊎◌,
}
use network_old.Detector.{NumberPair, new_detector, greater_than, top}
use network_old.Detector.Histories.{Call, run, IsFinite}
use network_old.Streams.{
  StreamManager, StreamState, MessageId, StreamError, new_state, key_for_detector, is_set_up,
  verify_that_is_set_up, state_of, set_up_stream, mark_numbers_and_check_that_is_not_duplicate,
  update_counter, add_inbound_node, add_outbound_node, remove_node_from_stream, without_node,
  remove_node_from_all_streams, remove_stream,
}
use network_old.Streams.Marks.{detector_in, mark_numbers_lem}

-- A call that changes the state.
pub data Operation (N K : Type 0) : Type 0 where
  set_up : K → Operation N K
  mark : MessageId K → Option NumberPair → Operation N K
  count : K → ℤ → Operation N K
  add_inbound add_outbound take_off : K → N → Operation N K
  take_off_all : N → Operation N K
  tear_down : K → Operation N K

-- A call that throws leaves the state, but for a detector that `mark` may have made.
abbrev pub or_same :
    {N K : Type 0} → StreamManager N K → Result StreamError (StreamManager N K) → StreamManager N K
or_same m (ok m') = m'
or_same m (err e) = m

abbrev pub or_same_first :
    {N K : Type 0}
    → StreamManager N K
    → Result StreamError (StreamManager N K × List N)
    → StreamManager N K
or_same_first m (ok r) = r.0
or_same_first m (err e) = m

-- All numbers that a call brings are finite.
abbrev pub IsFiniteCall : {N K : Type 0} → Operation N K → Type 0
IsFiniteCall (mark id previous) = greater_than top id.number ≡ true
IsFiniteCall _ = Unit

module _ {N K : Type 0} ⦃en : Eq N⦄ ⦃ek : Eq K⦄ where
  unfoldable pub perform : StreamManager N K → Operation N K → StreamManager N K
  perform m (set_up k) = or_same m (set_up_stream m k)
  perform m (mark id previous) = (mark_numbers_and_check_that_is_not_duplicate m id previous).0
  perform m (count k n) = or_same m (update_counter m k n)
  perform m (add_inbound k node) = or_same m (add_inbound_node m k node)
  perform m (add_outbound k node) = or_same m (add_outbound_node m k node)
  perform m (take_off k node) = or_same m (remove_node_from_stream m k node)
  perform m (take_off_all node) = (remove_node_from_all_streams m node).0
  perform m (tear_down k) = or_same_first m (remove_stream m k)

  unfoldable pub perform_all : StreamManager N K → List (Operation N K) → StreamManager N K
  unfolding perform
  perform_all m [] = m
  perform_all m (o ∷ os) = perform_all (perform m o) os

  -- The call keeps the stream.
  abbrev pub keeps : K → Operation N K → Bool
  keeps k (tear_down j) = not (j == k)
  keeps k (set_up j) = true
  keeps k (mark id previous) = true
  keeps k (count j n) = true
  keeps k (add_inbound j node) = true
  keeps k (add_outbound j node) = true
  keeps k (take_off j node) = true
  keeps k (take_off_all node) = true

  -- The call's own calls of one detector.
  abbrev pub calls_of : StreamManager N K → K → String → Operation N K → List Call
  calls_of m k key (mark id previous) =
      if is_set_up m id.stream_key && (id.stream_key == k) && (key_for_detector id == key)
      then (previous, id.number) ∷ []
      else []
  calls_of m k key (set_up j) = []
  calls_of m k key (count j n) = []
  calls_of m k key (add_inbound j node) = []
  calls_of m k key (add_outbound j node) = []
  calls_of m k key (take_off j node) = []
  calls_of m k key (take_off_all node) = []
  calls_of m k key (tear_down j) = []

  detector_in-insert :
      (m : StreamManager N K) (j : K) (s s' : StreamState N)
      → lookup j m ≡ some s
      → s'.detectors ≡ s.detectors
      → (k : K) (key : String) → detector_in (insert j s' m) k key ≡ detector_in m k key
  unfolding detector_in
  detector_in-insert m j s s' h same k key =
      ground (arith, h, same, lookup-insert j k s' m, ek.equals_iff j k)

  pub detector_in-perform :
      (m : StreamManager N K) (k : K) (key : String) (o : Operation N K)
      → keeps k o ≡ true
      → detector_in (perform m o) k key ≡ run (detector_in m k key) (calls_of m k key o)
  unfolding perform run detector_in set_up_stream update_counter add_inbound_node add_outbound_node
      remove_node_from_stream remove_node_from_all_streams remove_stream without_node is_set_up
      has_key state_of verify_that_is_set_up
  detector_in-perform m k key (set_up j) h =
      ground (arith, lookup-insert j k new_state m, ek.equals_iff j k)
  detector_in-perform m k key (mark id previous) h = ground (
    arith,
    (mark_numbers_lem m id previous k).1 key,
    ek.equals_iff id.stream_key k,
    string_eq.equals_iff (key_for_detector id) key,
  )
  detector_in-perform m k key (count j n) h = elim (Option-cases (lookup j m)) [
    | inl none_there ↦ ground (arith, none_there)
    | inr (s, there) ↦
        ground (arith, there, detector_in-insert m j s (record s { counter = n }) there refl k key)
  ]
  detector_in-perform m k key (add_inbound j node) h = elim (Option-cases (lookup j m)) [
    | inl none_there ↦ ground (arith, none_there)
    | inr (s, there) ↦ ground (
      arith,
      there,
      detector_in-insert m j s (record s { inbound_nodes = add s.inbound_nodes node }) there refl k
          key,
    )
  ]
  detector_in-perform m k key (add_outbound j node) h = elim (Option-cases (lookup j m)) [
    | inl none_there ↦ ground (arith, none_there)
    | inr (s, there) ↦ ground (
      arith,
      there,
      detector_in-insert m j s (record s { outbound_nodes = add s.outbound_nodes node }) there refl
          k key,
    )
  ]
  detector_in-perform m k key (take_off j node) h = elim (Option-cases (lookup j m)) [
    | inl none_there ↦ ground (arith, none_there)
    | inr (s, there) ↦
        ground (arith, there, detector_in-insert m j s (without_node node s) there refl k key)
  ]
  detector_in-perform m k key (take_off_all node) h =
      ground (arith, lookup-map_values k (λ _ s. without_node node s) m)
  detector_in-perform m k key (tear_down j) h = ground (arith, lookup-remove j k m)

  pub detector_in-lost :
      (m : StreamManager N K) (k : K) (key : String) (o : Operation N K)
      → keeps k o ≡ false
      → (detector_in (perform m o) k key ≡ detector_in m k key)
        ⊎ (detector_in (perform m o) k key ≡ new_detector 10000)
  unfolding perform detector_in remove_stream has_key state_of verify_that_is_set_up is_set_up
  detector_in-lost m k key (tear_down j) h = elim (Option-cases (lookup j m)) [
    | inl none_there ↦ inl (ground (arith, none_there))
    | inr (s, there) ↦ inr (ground (arith, there, h, lookup-remove j k m))
  ]
  detector_in-lost m k key (set_up j) h = cc
  detector_in-lost m k key (mark id previous) h = cc
  detector_in-lost m k key (count j n) h = cc
  detector_in-lost m k key (add_inbound j node) h = cc
  detector_in-lost m k key (add_outbound j node) h = cc
  detector_in-lost m k key (take_off j node) h = cc
  detector_in-lost m k key (take_off_all node) h = cc

  pub calls_of-IsFinite :
      (m : StreamManager N K) (k : K) (key : String) (o : Operation N K)
      → IsFiniteCall o
      → All IsFinite (calls_of m k key o)
  calls_of-IsFinite m k key (mark id previous) h =
      let one : All IsFinite ((previous, id.number) ∷ []) = (h, tt) in
      if_elim (λ cs. All IsFinite cs)
        (is_set_up m id.stream_key && (id.stream_key == k) && (key_for_detector id == key)) one tt
  calls_of-IsFinite m k key (set_up j) h = tt
  calls_of-IsFinite m k key (count j n) h = tt
  calls_of-IsFinite m k key (add_inbound j node) h = tt
  calls_of-IsFinite m k key (add_outbound j node) h = tt
  calls_of-IsFinite m k key (take_off j node) h = tt
  calls_of-IsFinite m k key (take_off_all node) h = tt
  calls_of-IsFinite m k key (tear_down j) h = tt
