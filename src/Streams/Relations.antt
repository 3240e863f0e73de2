-- ===== src/Streams/Relations.antt =====
-- src/logic/StreamManager.ts seen as a set of streams and a relation between streams and nodes.
use network_old.Base.{
  ◌≡◌, Bool, not, ◌&&◌, ◌||◌, Option, arith, Eq, ◌==◌, contains-delete, contains-add, add, lookup,
  has_key, lookup-insert, lookup-remove, lookup-map_values, Option-cases, inl, inr,
}
use network_old.Detector.{mark_and_check, NumberPair}
use network_old.Streams.{
  StreamManager, StreamState, without_node, is_set_up, state_of, verify_that_is_set_up,
  set_up_stream, new_state, mark_numbers_and_check_that_is_not_duplicate, marked, detector_of,
  update_counter, add_inbound_node, add_outbound_node, remove_node_from_stream,
  remove_node_from_all_streams, remove_stream, key_for_detector, MessageId,
}
use network_old.Streams.Marks.{marked-representation}
use network_old.Streams.Nodes.{is_neighbor, is_neighbor-without}
use network_old.Streams.Operations.{
  Operation, set_up, mark, count, add_inbound, add_outbound, take_off, take_off_all, tear_down,
  perform,
}

module _ {N K : Type 0} ⦃en : Eq N⦄ ⦃ek : Eq K⦄ where
  -- Whether a stream is set up after a call, by what was set up before it.
  abbrev pub set_up_after : Operation N K → (K → Bool) → K → Bool
  set_up_after (set_up j) before k = (j == k) || before k
  set_up_after (tear_down j) before k = not (j == k) && before k
  set_up_after (mark id previous) before k = before k
  set_up_after (count j n) before k = before k
  set_up_after (add_inbound j node) before k = before k
  set_up_after (add_outbound j node) before k = before k
  set_up_after (take_off j node) before k = before k
  set_up_after (take_off_all node) before k = before k

  -- Whether a node is a neighbour on a stream after a call, by what held before it.
  abbrev pub neighbor_after : Operation N K → (K → Bool) → (K → N → Bool) → K → N → Bool
  neighbor_after (add_inbound j node) up before k other =
      (up j && (j == k) && (node == other)) || before k other
  neighbor_after (add_outbound j node) up before k other =
      (up j && (j == k) && (node == other)) || before k other
  neighbor_after (take_off j node) up before k other =
      not ((j == k) && (node == other)) && before k other
  neighbor_after (take_off_all node) up before k other = not (node == other) && before k other
  neighbor_after (tear_down j) up before k other = not (j == k) && before k other
  neighbor_after (set_up j) up before k other = before k other
  neighbor_after (mark id previous) up before k other = before k other
  neighbor_after (count j n) up before k other = before k other

  marked-node :
      (m : StreamManager N K) (id : MessageId K) (previous : Option NumberPair) (k : K) (other : N)
      → let m' = (mark_numbers_and_check_that_is_not_duplicate m id previous).0 in
        (is_set_up m' k ≡ is_set_up m k) × (is_neighbor m' k other ≡ is_neighbor m k other)
  unfolding mark_numbers_and_check_that_is_not_duplicate state_of verify_that_is_set_up is_set_up
      has_key is_neighbor
  marked-node m id previous k other =
      let key = key_for_detector id in
      elim (Option-cases (lookup id.stream_key m)) [
        | inl h ↦ (ground (arith, h), ground (arith, h))
        | inr (s, h) ↦
            let r = mark_and_check (detector_of s key) previous id.number in
            (
              ground (
                arith,
                h,
                lookup-insert id.stream_key k (marked s key r).0 m,
                ek.equals_iff id.stream_key k,
              ),
              ground (
                arith,
                h,
                marked-representation s key r,
                lookup-insert id.stream_key k (marked s key r).0 m,
                ek.equals_iff id.stream_key k,
              ),
            )
      ]

  -- Each call acts on the set of streams and on the relation of streams and neighbours as these
  -- two functions say, where a call that throws changes nothing.
  pub perform-Refines :
      (m : StreamManager N K) (o : Operation N K) (k : K) (other : N)
      → (is_set_up (perform m o) k ≡ set_up_after o (is_set_up m) k)
        × (is_neighbor (perform m o) k other
            ≡ neighbor_after o (is_set_up m) (is_neighbor m) k other)
  unfolding perform set_up_stream update_counter add_inbound_node add_outbound_node
      remove_node_from_stream remove_node_from_all_streams remove_stream state_of
      verify_that_is_set_up is_set_up has_key without_node is_neighbor
  perform-Refines m (set_up j) k other = (
    ground (arith, lookup-insert j k new_state m, ek.equals_iff j k),
    ground (arith, lookup-insert j k new_state m, ek.equals_iff j k),
  )
  perform-Refines m (mark id previous) k other = marked-node m id previous k other
  perform-Refines m (count j n) k other = elim (Option-cases (lookup j m)) [
    | inl h ↦ (ground (arith, h, ek.equals_iff j k), ground (arith, h, ek.equals_iff j k))
    | inr (s, h) ↦
        let s' : StreamState N = record s { counter = n } in
        (
          ground (arith, h, lookup-insert j k s' m, ek.equals_iff j k),
          ground (arith, h, lookup-insert j k s' m, ek.equals_iff j k),
        )
  ]
  perform-Refines m (add_inbound j node) k other = elim (Option-cases (lookup j m)) [
    | inl h ↦ (ground (arith, h, ek.equals_iff j k), ground (arith, h, ek.equals_iff j k))
    | inr (s, h) ↦
        let s' : StreamState N = record s { inbound_nodes = add s.inbound_nodes node } in
        (
          ground (arith, h, lookup-insert j k s' m, ek.equals_iff j k),
          ground (
            arith,
            h,
            lookup-insert j k s' m,
            ek.equals_iff j k,
            contains-add s.inbound_nodes node other,
            en.equals_iff node other,
          ),
        )
  ]
  perform-Refines m (add_outbound j node) k other = elim (Option-cases (lookup j m)) [
    | inl h ↦ (ground (arith, h, ek.equals_iff j k), ground (arith, h, ek.equals_iff j k))
    | inr (s, h) ↦
        let s' : StreamState N = record s { outbound_nodes = add s.outbound_nodes node } in
        (
          ground (arith, h, lookup-insert j k s' m, ek.equals_iff j k),
          ground (
            arith,
            h,
            lookup-insert j k s' m,
            ek.equals_iff j k,
            contains-add s.outbound_nodes node other,
            en.equals_iff node other,
          ),
        )
  ]
  perform-Refines m (take_off j node) k other = elim (Option-cases (lookup j m)) [
    | inl h ↦ (ground (arith, h, ek.equals_iff j k), ground (arith, h, ek.equals_iff j k))
    | inr (s, h) ↦
        let s' : StreamState N = without_node node s in
        (
          ground (arith, h, lookup-insert j k s' m, ek.equals_iff j k),
          ground (
            arith,
            h,
            lookup-insert j k s' m,
            ek.equals_iff j k,
            contains-delete s.inbound_nodes node other,
            contains-delete s.outbound_nodes node other,
            en.equals_iff node other,
            en.equals_iff other node,
          ),
        )
  ]
  perform-Refines m (take_off_all node) k other = (
    ground (arith, lookup-map_values k (λ _ s. without_node node s) m),
    is_neighbor-without m node k other,
  )
  perform-Refines m (tear_down j) k other = (
    ground (arith, lookup-remove j k m, ek.equals_iff j k),
    ground (arith, lookup-remove j k m, ek.equals_iff j k),
  )
