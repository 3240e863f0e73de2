-- ===== src/Node/Messages.antt =====
-- What the node of src/logic/Node.ts does with messages.
use network_old.Base.{
  ℕ, suc, leb, Eq, Bool, true, not, ◌||◌, List, [], ◌∷◌, ◌++◌, Option, none, some, Result, ok, err,
  if◌then◌else◌, is_empty, keep_if, map, of_list, lookup, insert,
}
use network_old.Detector.{invalid_numbering, gap_mismatch}
use network_old.Streams.{
  StreamError, detector, mark_numbers_and_check_that_is_not_duplicate,
  get_outbound_nodes_for_stream, add_inbound_node, add_outbound_node, remove_node_from_all_streams,
}
use network_old.Buffer.{MessageBuffer, BufferError, put, pop_all}
use network_old.Seen.{add_seen, delete_seen, has_seen}
use network_old.Node.{
  StreamMessage, sent_data, cancels_resends_of, Node, Surroundings, in_streams, in_buffer,
  record_metric, Outcome, done, and_then, after_metric, emit, with_streams, is_same, get_tracker_id,
  prepare_and_send_stream_status, prepare_and_send_full_status, subscribe_to_stream_if_have_not_yet,
}

abbrev pub other_nodes : {N : Type 0} ⦃e : Eq N⦄ → Option N → List N → List N
other_nodes source nodes = keep_if (λ n. not (is_same source n)) nodes

abbrev pub failures_or_none : Option ℕ → ℕ
failures_or_none none = 0
failures_or_none (some failures) = failures

module _ {K N A C B : Type 0} ⦃ek : Eq K⦄ ⦃en : Eq N⦄ ⦃ea : Eq A⦄ where
  -- There is no one to pass the message on to. The outcome of the call of `put` is that of the buffer.
  abbrev pub with_buffer :
      Node K N A C B
      → MessageBuffer K (StreamMessage K B × Option N) × Result BufferError (Unit {0})
      → Outcome (Node K N A C B)
  with_buffer n (b, ok u) = done (record n { message_buffer = b })
  with_buffer n (b, err x) = (record n { message_buffer = b }, err (in_buffer x))

  -- `sendData` has sent the message.
  unfoldable pub on_delivered : N → Node K N A C B → Node K N A C B
  on_delivered subscriber n = record n {
    consecutive_delivery_failures = insert subscriber 0 n.consecutive_delivery_failures;
  }

module _ {K N A C B : Type 0} ⦃ek : Eq K⦄ ⦃en : Eq N⦄ ⦃ea : Eq A⦄ (s : Surroundings K N A C) where
  unfoldable pub put_back : StreamMessage K B → Option N → Node K N A C B → Outcome (Node K N A C B)
  put_back message source n =
      with_buffer
        (record n {
          seen_but_not_propagated =
              add_seen s.cache s.texts message.message_id n.seen_but_not_propagated;
        })
        (put n.message_buffer message.message_id.stream_key (message, source))

  -- The calls of `sendData`. How each ends is `on_delivered` or `on_not_delivered`.
  unfoldable pub send_to : StreamMessage K B → List N → Node K N A C B → Node K N A C B
  send_to message subscribers n = record n {
    effects = n.effects ++ map (λ subscriber. sent_data subscriber message) subscribers;
    seen_but_not_propagated =
        delete_seen s.cache s.texts message.message_id n.seen_but_not_propagated;
  }

  abbrev pub propagate_to :
      StreamMessage K B
      → Option N
      → Node K N A C B
      → Result StreamError (List N)
      → Outcome (Node K N A C B)
  propagate_to message source n (err x) = (n, err (in_streams x))
  propagate_to message source n (ok nodes) =
      if is_empty (other_nodes source nodes)
      then put_back message source n
      else done (send_to message (other_nodes source nodes) n)

  unfoldable pub propagate_message :
      StreamMessage K B → Option N → Node K N A C B → Outcome (Node K N A C B)
  unfolding put_back send_to
  propagate_message message source n = after_metric n (record_metric "propagateMessage") (λ n'.
      propagate_to message source n'
        (get_outbound_nodes_for_stream n'.streams message.message_id.stream_key))

  -- What follows the answer of the stream manager. For invalid numbering a metric is recorded that
  -- has not been added.
  unfoldable pub after_check :
      StreamMessage K B
      → Option N
      → Node K N A C B
      → Result StreamError Bool
      → Outcome (Node K N A C B)
  unfolding propagate_message
  after_check message source n (err (detector invalid_numbering)) =
      (n, record_metric "onDataReceived:invalidNumber")
  after_check message source n (err (detector gap_mismatch)) =
      (n, record_metric "onDataReceived:gapMismatch")
  after_check message source n (err x) = (n, err (in_streams x))
  after_check message source n (ok is_unseen) =
      if is_unseen || has_seen s.cache s.texts message.message_id n.seen_but_not_propagated
      then propagate_message message source n
      else (n, record_metric "onDataReceived:ignoredDuplicate")

  -- The check of the message's numbers.
  unfoldable pub check_and_propagate :
      StreamMessage K B → Option N → Node K N A C B → Outcome (Node K N A C B)
  unfolding after_check
  check_and_propagate message source n =
      let (streams, answer) =
        mark_numbers_and_check_that_is_not_duplicate n.streams message.message_id
          message.prev_msg_ref in
      after_check message source (record n { streams = streams }) answer

  unfoldable pub on_data_received :
      StreamMessage K B → Option N → Node K N A C B → Outcome (Node K N A C B)
  unfolding check_and_propagate
  on_data_received message source n = after_metric n (record_metric "onDataReceived") (λ n'.
      and_then (subscribe_to_stream_if_have_not_yet s true message.message_id.stream_key n')
        (check_and_propagate message source))

  unfoldable pub receive_all :
      List (StreamMessage K B × Option N) → Node K N A C B → Outcome (Node K N A C B)
  unfolding on_data_received
  receive_all [] n = done n
  receive_all ((message, source) ∷ rest) n =
      and_then (on_data_received message source n) (receive_all rest)

  unfoldable pub handle_buffered_messages : K → Node K N A C B → Outcome (Node K N A C B)
  unfolding receive_all
  handle_buffered_messages stream n =
      let (b, messages) = pop_all n.message_buffer stream in
      receive_all messages (record n { message_buffer = b })

  unfoldable pub subscribe_to_stream_on_node :
      Bool → N → K → Node K N A C B → Outcome (Node K N A C B)
  unfolding handle_buffered_messages
  subscribe_to_stream_on_node send_status node stream n =
      and_then (with_streams n (add_inbound_node n.streams stream node)) (λ n1.
        and_then (with_streams n1 (add_outbound_node n1.streams stream node)) (λ n2.
          and_then (handle_buffered_messages stream n2)
            (λ n3. done (if send_status then prepare_and_send_stream_status s stream n3 else n3))))

  -- The trackers that are known of the streams that a node has left, each once.
  abbrev pub known_trackers : Node K N A C B → List K → List N
  known_trackers n [] = []
  known_trackers n (stream ∷ streams) = elim (get_tracker_id s n stream) [
    | none ↦ known_trackers n streams
    | some tracker ↦ tracker ∷ known_trackers n streams
  ]

  abbrev pub send_full_statuses : List N → Node K N A C B → Node K N A C B
  send_full_statuses [] n = n
  send_full_statuses (tracker ∷ trackers) n =
      send_full_statuses trackers (prepare_and_send_full_status s tracker n)

  unfoldable pub on_node_disconnected : N → Node K N A C B → Outcome (Node K N A C B)
  on_node_disconnected node n = after_metric n (record_metric "onNodeDisconnect") (λ n1.
      let (streams, left) = remove_node_from_all_streams n1.streams node in
      let n2 = record (emit (cancels_resends_of node) n1) { streams = streams } in
      done (send_full_statuses (of_list (known_trackers n2 left)) n2))

  -- `sendData` has failed. At the hundredth time in a row the subscriber is taken to be disconnected.
  unfoldable pub on_not_delivered : N → Node K N A C B → Outcome (Node K N A C B)
  unfolding on_node_disconnected
  on_not_delivered subscriber n =
      let failures = suc (failures_or_none (lookup subscriber n.consecutive_delivery_failures)) in
      let n1 = record n {
        consecutive_delivery_failures = insert subscriber failures n.consecutive_delivery_failures;
      } in
      if leb 100 failures
      then and_then (on_node_disconnected subscriber n1) (λ n2. done (record n2 {
        consecutive_delivery_failures = insert subscriber 0 n2.consecutive_delivery_failures;
      }))
      else done n1
