-- ===== src/Streams.antt =====
-- src/logic/StreamManager.ts: what a node keeps for each of its streams. A stream's key stands for
-- the stream.
pub mod Marks
pub mod Chains
pub mod Nodes
pub mod Operations
pub mod Relations
pub mod Histories
pub mod Outbound
mod Tests
use Prim.Native.String.{◌++◌ as ◌<>◌}
use network_old.Base.{
  String, Bool, ◌||◌, true, false, List, [], ◌∷◌, ◌++◌, Option, none, some, Result, ok, err, ◌>>=◌,
  ◌>>◌, ensure, Eq, string_eq, contains, add, delete, of_list, Dict, keys, values, map_values,
  lookup, insert, remove, update, has_key, sort, ℤ, pos, negsuc, if◌then◌else◌, map,
}
use network_old.Identifiers.{StreamStatus}
use network_old.Detector.{
  NumberPair, DetectorError, DuplicateMessageDetector, new_detector, mark_and_check,
}

-- `N` is the type of node ids.
pub record StreamState (N : Type 0) : Type 0 where
  pub detectors : Dict String DuplicateMessageDetector
  pub inbound_nodes : List N
  pub outbound_nodes : List N
  pub counter : ℤ

-- `K` is the type of stream keys.
abbrev pub StreamManager : Type 0 → Type 0 → Type 0
StreamManager N K = Dict K (StreamState N)

-- `missing` is the error of a property read on `undefined`.
pub data StreamError : Type 0 where
  already_set_up not_set_up missing : StreamError
  detector : DetectorError → StreamError

-- A message's id, its stream named by the key and its time and sequence number as a pair.
pub record MessageId (K : Type 0) : Type 0 where
  pub stream_key : K
  pub publisher_id : String
  pub msg_chain_id : String
  pub number : NumberPair

unfoldable pub key_for_detector : {K : Type 0} → MessageId K → String
key_for_detector id = id.publisher_id <> "-" <> id.msg_chain_id

abbrev pub new_state : {N : Type 0} → StreamState N
new_state = record { detectors = []; inbound_nodes = []; outbound_nodes = []; counter = pos 0 }

-- The detector of a stream's state, a new one if there is none.
abbrev pub or_new_detector : Option DuplicateMessageDetector → DuplicateMessageDetector
or_new_detector none = new_detector 10000
or_new_detector (some d) = d

unfoldable pub detector_of : {N : Type 0} → StreamState N → String → DuplicateMessageDetector
detector_of s key = or_new_detector (lookup key s.detectors)

-- The detector's answer, and what the stream's detectors are after it.
abbrev pub marked :
    {N : Type 0}
    → StreamState N
    → String
    → Result DetectorError (Bool × DuplicateMessageDetector)
    → StreamState N × Result StreamError Bool
marked s key (ok (fresh, d)) = (record s { detectors = insert key d s.detectors }, ok fresh)
marked s key (err e) =
    (record s { detectors = insert key (detector_of s key) s.detectors }, err (detector e))

abbrev pub representation : {N : Type 0} → StreamState N → StreamStatus N
representation s = record {
  inbound_nodes = s.inbound_nodes;
  outbound_nodes = s.outbound_nodes;
  counter = s.counter;
}

-- What stands for a stream that is not set up: a counter of -1 signals that it is not subscribed.
abbrev pub representation_of : {N : Type 0} → Option (StreamState N) → StreamStatus N
representation_of none = record { inbound_nodes = []; outbound_nodes = []; counter = negsuc 0 }
representation_of (some s) = representation s

module _ {N : Type 0} ⦃en : Eq N⦄ where
  pub without_node : N → StreamState N → StreamState N
  without_node node s = record s {
    inbound_nodes = delete s.inbound_nodes node;
    outbound_nodes = delete s.outbound_nodes node;
  }

  -- The node is among the stream's neighbours of one kind or the other.
  abbrev pub has_node : N → StreamState N → Bool
  has_node node s = contains s.inbound_nodes node || contains s.outbound_nodes node

  pub all_nodes : StreamState N → List N
  all_nodes s = of_list (s.inbound_nodes ++ s.outbound_nodes)

module _ {N K : Type 0} ⦃en : Eq N⦄ ⦃ek : Eq K⦄ where
  unfoldable pub is_set_up : StreamManager N K → K → Bool
  is_set_up m stream = has_key stream m

  unfoldable pub verify_that_is_set_up : StreamManager N K → K → Result StreamError (Unit {0})
  unfolding is_set_up
  verify_that_is_set_up m stream = ensure (is_set_up m stream) not_set_up

  -- `verifyThatIsSetUp`, and `streams.get(key)!` after it.
  unfoldable pub state_of : StreamManager N K → K → Result StreamError (StreamState N)
  unfolding verify_that_is_set_up
  state_of m stream =
      verify_that_is_set_up m stream
      >> elim (lookup stream m) [ none ↦ err missing | some s ↦ ok s ]

  pub set_up_stream : StreamManager N K → K → Result StreamError (StreamManager N K)
  set_up_stream m stream =
      if is_set_up m stream then err already_set_up else ok (insert stream new_state m)

  -- The state is given back with an error too, since a detector may be new.
  unfoldable pub mark_numbers_and_check_that_is_not_duplicate :
      StreamManager N K
      → MessageId K
      → Option NumberPair
      → StreamManager N K × Result StreamError Bool
  unfolding key_for_detector detector_of
  mark_numbers_and_check_that_is_not_duplicate m id previous = elim (state_of m id.stream_key) [
    | err e ↦ (m, err e)
    | ok s ↦
        let key = key_for_detector id in
        let (s', answer) = marked s key (mark_and_check (detector_of s key) previous id.number) in
        (insert id.stream_key s' m, answer)
  ]

  -- This method does not check that the stream is set up.
  pub update_counter : StreamManager N K → K → ℤ → Result StreamError (StreamManager N K)
  update_counter m stream n = elim (lookup stream m) [
    | none ↦ err missing
    | some s ↦ ok (insert stream (record s { counter = n }) m)
  ]

  pub add_inbound_node : StreamManager N K → K → N → Result StreamError (StreamManager N K)
  unfolding state_of
  add_inbound_node m stream node = state_of m stream >>= λ s.
      ok (insert stream (record s { inbound_nodes = add s.inbound_nodes node }) m)

  pub add_outbound_node : StreamManager N K → K → N → Result StreamError (StreamManager N K)
  unfolding state_of
  add_outbound_node m stream node = state_of m stream >>= λ s.
      ok (insert stream (record s { outbound_nodes = add s.outbound_nodes node }) m)

  pub remove_node_from_stream : StreamManager N K → K → N → Result StreamError (StreamManager N K)
  unfolding state_of without_node
  remove_node_from_stream m stream node =
      state_of m stream >>= λ s. ok (insert stream (without_node node s) m)

  pub get_stream_state : StreamManager N K → K → Dict K (StreamStatus N)
  get_stream_state m stream = (stream, representation_of (lookup stream m)) ∷ []

  -- The streams that a loop with a removal in its body has changed.
  pub streams_with_node : N → StreamManager N K → List K
  streams_with_node node [] = []
  streams_with_node node ((stream, s) ∷ m) =
      if has_node node s then stream ∷ streams_with_node node m else streams_with_node node m

  pub remove_node_from_all_streams : StreamManager N K → N → StreamManager N K × List K
  unfolding streams_with_node without_node
  remove_node_from_all_streams m node =
      (map_values (λ _ s. without_node node s) m, streams_with_node node m)

  pub remove_stream : StreamManager N K → K → Result StreamError (StreamManager N K × List N)
  unfolding state_of all_nodes
  remove_stream m stream = state_of m stream >>= λ s. ok (remove stream m, all_nodes s)

  pub is_node_present : StreamManager N K → N → Bool
  is_node_present [] node = false
  is_node_present ((stream, s) ∷ m) node = if has_node node s then true else is_node_present m node

  pub get_streams_with_connections : StreamManager N K → (K → Bool) → Dict K (StreamStatus N)
  get_streams_with_connections [] filter_fn = []
  get_streams_with_connections ((stream, s) ∷ m) filter_fn =
      let rest = get_streams_with_connections m filter_fn in
      if filter_fn stream then (stream, representation s) ∷ rest else rest

  -- `sort` compares keys as texts: `below` is that order.
  pub get_streams_as_keys : (K → K → Bool) → StreamManager N K → List K
  get_streams_as_keys below m = sort below (keys m)

  pub get_outbound_nodes_for_stream : StreamManager N K → K → Result StreamError (List N)
  unfolding state_of
  get_outbound_nodes_for_stream m stream = state_of m stream >>= λ s. ok s.outbound_nodes

  pub get_inbound_nodes_for_stream : StreamManager N K → K → Result StreamError (List N)
  unfolding state_of
  get_inbound_nodes_for_stream m stream = state_of m stream >>= λ s. ok s.inbound_nodes

  pub get_all_nodes_for_stream :
      (N → N → Bool) → StreamManager N K → K → Result StreamError (List N)
  unfolding get_inbound_nodes_for_stream get_outbound_nodes_for_stream
  get_all_nodes_for_stream below m stream = get_inbound_nodes_for_stream m stream >>= λ inbound.
      get_outbound_nodes_for_stream m stream >>= λ outbound.
      ok (sort below (of_list (inbound ++ outbound)))

  -- The loop that pushes all nodes, and the set of them.
  pub pushed_nodes : StreamManager N K → List N
  pushed_nodes [] = []
  pushed_nodes ((stream, s) ∷ m) = s.inbound_nodes ++ (s.outbound_nodes ++ pushed_nodes m)

  pub get_all_nodes : StreamManager N K → List N
  unfolding pushed_nodes
  get_all_nodes m = of_list (pushed_nodes m)

  pub has_outbound_node : StreamManager N K → K → N → Result StreamError Bool
  unfolding state_of
  has_outbound_node m stream node = state_of m stream >>= λ s. ok (contains s.outbound_nodes node)

  pub has_inbound_node : StreamManager N K → K → N → Result StreamError Bool
  unfolding state_of
  has_inbound_node m stream node = state_of m stream >>= λ s. ok (contains s.inbound_nodes node)
