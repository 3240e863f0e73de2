-- ===== src/Node/Propagation.antt =====
-- What becomes of a message that a node of src/logic/Node.ts receives.
use Prim.Native.Nat.{◌≤◌}
use network_old.Base.{
  ◌⊎◌, ◌≡◌, refl, sym, ◌∙◌, Eq, Bool, true, false, ◌||◌, List, [], ◌∷◌, ◌++◌, Option, some, Result,
  ok, err, if◌then◌else◌, is_empty, map, append_nil, arith, Bool-cases, inl, inr,
}
use network_old.Streams.{is_set_up, mark_numbers_and_check_that_is_not_duplicate}
use network_old.Streams.Outbound.{
  outbound_nodes_of, get_outbound_lem, is_set_up-outbound, outbound-mark,
}
use network_old.Buffer.{MessageBuffer, BufferError, put}
use network_old.Buffer.Contents.{contents, make_room, put_lem}
use network_old.Seen.{add_seen, delete_seen, has_seen}
use network_old.Node.{
  StreamMessage, sent_data, Node, Surroundings, Outcome, done, subscribe_to_stream_if_have_not_yet,
}
use network_old.Node.Messages.{
  other_nodes, with_buffer, put_back, send_to, propagate_to, propagate_message, after_check,
  check_and_propagate, on_data_received,
}

with_buffer_of_ok :
    {K N A C B : Type 0} ⦃ek : Eq K⦄ ⦃en : Eq N⦄ ⦃ea : Eq A⦄ (n : Node K N A C B)
    (r : MessageBuffer K (StreamMessage K B × Option N) × Result BufferError (Unit {0}))
    → r.1 ≡ ok tt
    → with_buffer n r ≡ done (record n { message_buffer = r.0 })
with_buffer_of_ok n (b, ok u) h = refl
with_buffer_of_ok n (b, err x) h = cc

module _ {K N A C B : Type 0} ⦃ek : Eq K⦄ ⦃en : Eq N⦄ ⦃ea : Eq A⦄ (s : Surroundings K N A C) where
  -- The message is passed on to the nodes, or is kept if there are none.
  abbrev pub IsPassedOn :
      StreamMessage K B → Option N → List N → Node K N A C B → Outcome (Node K N A C B) → Type 0
  IsPassedOn message source nodes n r =
      let k = message.message_id.stream_key in
      (r.1 ≡ ok tt)
      × (r.0.streams ≡ n.streams)
      × (r.0.message_buffer.max_size ≡ n.message_buffer.max_size)
      × (r.0.effects ≡ n.effects ++ map (λ node. sent_data node message) nodes)
      × (contents r.0.message_buffer k ≡ (
          if is_empty nodes
          then make_room n.message_buffer.max_size (contents n.message_buffer k)
            ++ (message, source) ∷ []
          else contents n.message_buffer k))
      × (r.0.seen_but_not_propagated ≡ (
          if is_empty nodes
          then add_seen s.cache s.texts message.message_id n.seen_but_not_propagated
          else delete_seen s.cache s.texts message.message_id n.seen_but_not_propagated))

  put_back-IsPassedOn :
      (message : StreamMessage K B) (source : Option N) (n : Node K N A C B)
      → 2 ≤ n.message_buffer.max_size
      → IsPassedOn message source [] n (put_back s message source n)
  unfolding put_back
  put_back-IsPassedOn message source n room =
      let k = message.message_id.stream_key in
      let (fine, kept, limit) = put_lem n.message_buffer k (message, source) k room in
      rw
        (
          put_back,
          with_buffer_of_ok
              (record n {
                seen_but_not_propagated =
                    add_seen s.cache s.texts message.message_id n.seen_but_not_propagated;
              })
              (put n.message_buffer k (message, source)) fine,
        )
        (
          refl,
          refl,
          limit,
          sym (append_nil n.effects),
          ground (arith, kept, ek.equals_iff k k),
          refl,
        )

  send_to-IsPassedOn :
      (message : StreamMessage K B) (source : Option N) (n : Node K N A C B) (x : N) (xs : List N)
      → IsPassedOn message source (x ∷ xs) n (done (send_to s message (x ∷ xs) n))
  unfolding send_to
  send_to-IsPassedOn message source n x xs = (refl, refl, refl, refl, refl, refl)

  propagate_to-IsPassedOn :
      (message : StreamMessage K B) (source : Option N) (n : Node K N A C B) (nodes : List N)
      → 2 ≤ n.message_buffer.max_size
      → IsPassedOn message source
          (other_nodes source nodes)
          n
          (propagate_to s message source n (ok nodes))
  propagate_to-IsPassedOn message source n nodes room =
      by_subscribers (other_nodes source nodes) refl
    where
      by_subscribers :
          (subscribers : List N)
          → other_nodes source nodes ≡ subscribers
          → IsPassedOn message source subscribers n (
              if is_empty subscribers
              then put_back s message source n
              else done (send_to s message subscribers n))
      by_subscribers [] h = put_back-IsPassedOn message source n room
      by_subscribers (x ∷ xs) h = send_to-IsPassedOn message source n x xs

  propagate_message-IsPassedOn :
      (message : StreamMessage K B) (source : Option N) (n : Node K N A C B) (nodes : List N)
      → 2 ≤ n.message_buffer.max_size
      → outbound_nodes_of n.streams message.message_id.stream_key ≡ some nodes
      → IsPassedOn message source
          (other_nodes source nodes)
          n
          (propagate_message s message source n)
  unfolding propagate_message
  propagate_message-IsPassedOn message source n nodes room h =
      rw (propagate_message, get_outbound_lem n.streams message.message_id.stream_key, h)
        (propagate_to-IsPassedOn message source n nodes room)

  -- What a node with the stream does with a message after it has checked its numbers.
  abbrev pub IsReceived :
      StreamMessage K B
      → Option N
      → List N
      → Bool
      → Node K N A C B
      → Outcome (Node K N A C B)
      → Type 0
  IsReceived message source nodes is_unseen n r =
      let streams =
        (mark_numbers_and_check_that_is_not_duplicate n.streams message.message_id
          message.prev_msg_ref).0 in
      let passes =
        is_unseen || has_seen s.cache s.texts message.message_id n.seen_but_not_propagated in
      ((passes ≡ true)
        × IsPassedOn message source (other_nodes source nodes) (record n { streams = streams }) r)
      ⊎ ((passes ≡ false) × (r ≡ done (record n { streams = streams })))

  pub on_data_received-IsReceived :
      (message : StreamMessage K B) (source : Option N) (n : Node K N A C B) (nodes : List N)
      (is_unseen : Bool)
      → 2 ≤ n.message_buffer.max_size
      → outbound_nodes_of n.streams message.message_id.stream_key ≡ some nodes
      → (mark_numbers_and_check_that_is_not_duplicate n.streams message.message_id
          message.prev_msg_ref).1
        ≡ ok is_unseen
      → IsReceived message source nodes is_unseen n (on_data_received s message source n)
  unfolding on_data_received subscribe_to_stream_if_have_not_yet check_and_propagate after_check
  on_data_received-IsReceived message source n nodes is_unseen room h answer =
      let k = message.message_id.stream_key in
      let n1 : Node K N A C B = record n {
        streams =
            (mark_numbers_and_check_that_is_not_duplicate n.streams message.message_id
              message.prev_msg_ref).0;
      } in
      let passes =
        is_unseen || has_seen s.cache s.texts message.message_id n.seen_but_not_propagated in
      let set_up : is_set_up n.streams k ≡ true =
        ground (arith, is_set_up-outbound n.streams k, h) in
      let still = outbound-mark n.streams message.message_id message.prev_msg_ref k ∙ h in
      elim (Bool-cases passes) [
        | inl p ↦ inl (
          p,
          rw (on_data_received, subscribe_to_stream_if_have_not_yet, set_up, answer, p)
              (propagate_message-IsPassedOn message source n1 nodes room still),
        )
        | inr p ↦
            inr (
              p,
              rw (on_data_received, subscribe_to_stream_if_have_not_yet, set_up, answer, p) refl,
            )
      ]
