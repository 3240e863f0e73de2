-- ===== src/Node/Delivery.antt =====
-- A message that waits in a node of src/logic/Node.ts until there is someone to pass it on to.
use Prim.Native.Nat.{◌≤◌}
use mathlib.Core.Path.{subst}
use network_old.Base.{
  map, is_empty, leb, contains-keep_if, keep_if-append, ◌≡◌, refl, ap, ◌∙◌, Eq, Bool, true, false,
  not, ◌||◌, List, [], ◌∷◌, ◌++◌, Option, some, ok, err, if◌then◌else◌, add, contains, append_nil,
  arith, inl, inr,
}
use network_old.Detector.{greater_than, top}
use network_old.Detector.Validity.{IsValid}
use network_old.Streams.{
  StreamManager, key_for_detector, mark_numbers_and_check_that_is_not_duplicate,
}
use network_old.Streams.Marks.{detector_in}
use network_old.Streams.Operations.{perform, add_inbound, add_outbound}
use network_old.Streams.Outbound.{
  outbound_nodes_of, outbound-mark, add_inbound_lem, add_outbound_lem, mark_twice,
}
use network_old.Buffer.{shift, pop_all}
use network_old.Buffer.Contents.{contents, make_room}
use network_old.Buffer.Queues.{pop_all_lem, max_size-pop_all}
use network_old.Seen.{add_seen, has_seen}
use network_old.Node.{
  StreamMessage, sent_data, Node, Surroundings, Outcome, done, and_then, is_same,
}
use network_old.Node.Messages.{
  other_nodes, on_data_received, receive_all, handle_buffered_messages, subscribe_to_stream_on_node,
}
use network_old.Node.Propagation.{IsPassedOn, IsReceived, on_data_received-IsReceived}

and_then-done : {S : Type 0} (r : Outcome S) → and_then r done ≡ r
and_then-done (n, ok u) = refl
and_then-done (n, err x) = refl

-- A node that is added is the only one to pass a message on to, if there was none.
other_nodes-add :
    {N : Type 0} ⦃e : Eq N⦄ (source : Option N) (nodes : List N) (node : N)
    → other_nodes source nodes ≡ []
    → is_same source node ≡ false
    → other_nodes source (add nodes node) ≡ node ∷ []
unfolding add
other_nodes-add source nodes node h other =
    let absent : contains nodes node ≡ false = ground (
      arith,
      other,
      contains-keep_if (λ n. not (is_same source n)) nodes node,
      ap (λ xs. contains xs node) h,
    ) in
    rw (absent, keep_if-append (λ n. not (is_same source n)) nodes (node ∷ []), h, other) refl

room_for_none : {M : Type 0} (b : Bool) → (if b then (shift {A = M} []).1 else []) ≡ []
room_for_none true = refl
room_for_none false = refl

module _ {K N A C B : Type 0} ⦃ek : Eq K⦄ ⦃en : Eq N⦄ ⦃ea : Eq A⦄ (s : Surroundings K N A C) where
  -- A node is added to a stream, and what waits for the stream is received.
  subscribe_lem :
      (node : N) (k : K) (n : Node K N A C B) (nodes : List N)
      → outbound_nodes_of n.streams k ≡ some nodes
      → let m : StreamManager N K = perform n.streams (add_inbound k node) in
        subscribe_to_stream_on_node s false node k n
        ≡ handle_buffered_messages s k (record n { streams = perform m (add_outbound k node) })
  unfolding subscribe_to_stream_on_node
  subscribe_lem node k n nodes h =
      let m : StreamManager N K = perform n.streams (add_inbound k node) in
      let (added, h1) = add_inbound_lem n.streams k node nodes h in
      rw (subscribe_to_stream_on_node, added, (add_outbound_lem m k node nodes h1).0)
        (and_then-done
          (handle_buffered_messages s k (record n { streams = perform m (add_outbound k node) })))

  handle_one :
      (k : K) (n : Node K N A C B) (message : StreamMessage K B) (source : Option N)
      → contents n.message_buffer k ≡ (message, source) ∷ []
      → handle_buffered_messages s k n
        ≡ on_data_received s message source
            (record n { message_buffer = (pop_all n.message_buffer k).0 })
  unfolding handle_buffered_messages receive_all
  handle_one k n message source h =
      rw (handle_buffered_messages, (pop_all_lem n.message_buffer k k).0, h)
        (and_then-done (
          on_data_received s message source
            (record n { message_buffer = (pop_all n.message_buffer k).0 })))

  -- The node after it has checked the message's numbers.
  abbrev after_mark : StreamMessage K B → Node K N A C B → Node K N A C B
  after_mark message n = record n {
    streams =
        (mark_numbers_and_check_that_is_not_duplicate n.streams message.message_id
          message.prev_msg_ref).0;
  }

  passed_on :
      (message : StreamMessage K B) (source : Option N) (nodes : List N) (is_unseen : Bool)
      (n : Node K N A C B) (r : Outcome (Node K N A C B))
      → (is_unseen || has_seen s.cache s.texts message.message_id n.seen_but_not_propagated) ≡ true
      → IsReceived s message source nodes is_unseen n r
      → IsPassedOn s message source (other_nodes source nodes) (after_mark message n) r
  passed_on message source nodes is_unseen n r passes (inl (p, passed)) = passed
  passed_on message source nodes is_unseen n r passes (inr (p, ignored)) =
      absurd (ground (arith, passes, p))

  -- A message that waits alone for a stream, and is marked as not passed on, is sent to the node that
  -- is added.
  receive_waiting :
      (message : StreamMessage K B) (source : Option N) (n : Node K N A C B) (nodes : List N)
      (node : N)
      → 2 ≤ n.message_buffer.max_size
      → contents n.message_buffer message.message_id.stream_key ≡ (message, source) ∷ []
      → outbound_nodes_of n.streams message.message_id.stream_key ≡ some nodes
      → other_nodes source nodes ≡ []
      → is_same source node ≡ false
      → has_seen s.cache s.texts message.message_id n.seen_but_not_propagated ≡ true
      → let k = message.message_id.stream_key in
        let m2 : StreamManager N K = perform n.streams (add_inbound k node) in
        let m3 : StreamManager N K = perform m2 (add_outbound k node) in
        (mark_numbers_and_check_that_is_not_duplicate m3 message.message_id message.prev_msg_ref).1
          ≡ ok false
        → let (n', r) = subscribe_to_stream_on_node s false node k n in
          (r ≡ ok tt)
          × (n'.effects ≡ n.effects ++ sent_data node message ∷ [])
          × (contents n'.message_buffer k ≡ [])
  receive_waiting message source n nodes node room waits h alone other seen again =
      let k = message.message_id.stream_key in
      let m2 : StreamManager N K = perform n.streams (add_inbound k node) in
      let m3 : StreamManager N K = perform m2 (add_outbound k node) in
      let h2 = (add_inbound_lem n.streams k node nodes h).1 in
      let h3 = (add_outbound_lem m2 k node nodes h2).1 in
      let n3 : Node K N A C B = record n {
        streams = m3;
        message_buffer = (pop_all n.message_buffer k).0;
      } in
      let received =
        on_data_received-IsReceived s message source n3 (add nodes node) false
          (rw (max_size-pop_all n.message_buffer k) room) h3 again in
      let (fine, _, _, effects, left, _) =
        passed_on message source (add nodes node) false n3 (on_data_received s message source n3)
          seen received in
      rw
        (
          subscribe_lem node k n nodes h,
          handle_one k (record n { streams = m3 }) message source waits,
        )
        (
          fine,
          effects
              ∙ ap (λ xs. n.effects ++ map (λ x. sent_data x message) xs)
                  (other_nodes-add source nodes node alone other),
          left
              ∙ ap
                  (λ xs.
                    if is_empty xs
                    then make_room n3.message_buffer.max_size (contents n3.message_buffer k)
                      ++ (message, source) ∷ []
                    else contents n3.message_buffer k)
                  (other_nodes-add source nodes node alone other)
              ∙ ground (arith, (pop_all_lem n.message_buffer k k).1, ek.equals_iff k k),
        )

  -- A message that is new to a node, and that it can pass on to no one, is sent to the first node with
  -- which it shares the stream after that, if this is not the node that the message comes from: it is
  -- what that subscription sends, and nothing waits for the stream any more. This holds for a buffer of
  -- at least two messages in which none waits for the stream, for finite numbers, and for a cache that
  -- has what has been put in it last.
  pub subscribe_delivers :
      (message : StreamMessage K B) (source : Option N) (n : Node K N A C B) (nodes : List N)
      (node : N)
      → 2 ≤ n.message_buffer.max_size
      → contents n.message_buffer message.message_id.stream_key ≡ []
      → outbound_nodes_of n.streams message.message_id.stream_key ≡ some nodes
      → other_nodes source nodes ≡ []
      → is_same source node ≡ false
      → IsValid (
          detector_in n.streams message.message_id.stream_key (key_for_detector message.message_id))
      → greater_than top message.message_id.number ≡ true
      → (mark_numbers_and_check_that_is_not_duplicate n.streams message.message_id
          message.prev_msg_ref).1
        ≡ ok true
      → has_seen s.cache s.texts message.message_id
          (add_seen s.cache s.texts message.message_id n.seen_but_not_propagated)
        ≡ true
      → let k = message.message_id.stream_key in
        let (n1, r1) = on_data_received s message source n in
        let (n2, r2) = subscribe_to_stream_on_node s false node k n1 in
        (r1 ≡ ok tt)
        × (n1.effects ≡ n.effects)
        × (r2 ≡ ok tt)
        × (n2.effects ≡ n.effects ++ sent_data node message ∷ [])
        × (contents n2.message_buffer k ≡ [])
  subscribe_delivers message source n nodes node room nothing h alone other v below new remembers =
      let k = message.message_id.stream_key in
      let id = message.message_id in
      let (n1, r1) = on_data_received s message source n in
      let kept : IsPassedOn s message source [] (after_mark message n) (n1, r1) =
        subst (λ xs. IsPassedOn s message source xs (after_mark message n) (n1, r1)) alone
          (passed_on message source nodes true n (n1, r1) refl
            (on_data_received-IsReceived s message source n nodes true room h new)) in
      let (fine, same, limit, quiet, waits, marked) = kept in
      let alone_waits : contents n1.message_buffer k ≡ (message, source) ∷ [] =
        waits
        ∙ ap (λ xs. make_room n.message_buffer.max_size xs ++ (message, source) ∷ []) nothing
        ∙ ap (λ xs. xs ++ (message, source) ∷ [])
            (room_for_none (leb n.message_buffer.max_size 0)) in
      let (delivered, effects, left) =
        receive_waiting message source n1 nodes node (rw limit room) alone_waits
          (rw same (outbound-mark n.streams id message.prev_msg_ref k ∙ h)) alone other
          (rw marked remembers)
          (rw same (mark_twice n.streams id message.prev_msg_ref node nodes v below h new)) in
      (
        fine,
        quiet ∙ append_nil n.effects,
        delivered,
        effects ∙ ap (λ xs. xs ++ sent_data node message ∷ []) (quiet ∙ append_nil n.effects),
        left,
      )
