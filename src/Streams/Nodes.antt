-- ===== src/Streams/Nodes.antt =====
-- The neighbours of the streams in src/logic/StreamManager.ts.
use network_old.Base.{
  ◌≡◌, refl, ◌∙◌, Bool, false, not, ◌&&◌, List, [], ◌∷◌, ◌++◌, Option, none, some, ok, err, arith,
  Eq, ◌==◌, contains, contains-delete, contains-of_list, contains-append, sort, of_list, ◌⊎◌,
  lookup, remove, has_key, IsKeyed, lookup_of_absent_key, lookup-remove, lookup-map_values,
  map_values, if◌then◌else◌, Option-cases, inl, inr, Distinct, of_list-Distinct,
}
use network_old.Streams.{
  StreamManager, StreamState, not_set_up, has_node, without_node, streams_with_node,
  remove_node_from_all_streams, is_node_present, get_all_nodes, pushed_nodes, all_nodes,
  remove_stream, is_set_up, state_of, verify_that_is_set_up, get_all_nodes_for_stream,
  get_inbound_nodes_for_stream, get_outbound_nodes_for_stream,
}

abbrev if_some : {N : Type 0} ⦃en : Eq N⦄ → N → Option (StreamState N) → Bool
if_some node none = false
if_some node (some s) = has_node node s

module _ {N K : Type 0} ⦃en : Eq N⦄ ⦃ek : Eq K⦄ where
  -- The node is a neighbour on the stream.
  unfoldable pub is_neighbor : StreamManager N K → K → N → Bool
  is_neighbor m k node = if_some node (lookup k m)

  contains-streams_with_node :
      (m : StreamManager N K) (node : N) (k : K)
      → IsKeyed m
      → contains (streams_with_node node m) k ≡ is_neighbor m k node
  unfolding streams_with_node is_neighbor lookup
  contains-streams_with_node [] node k d = refl
  contains-streams_with_node ((j, s) ∷ m) node k d = ground (
    arith,
    contains-streams_with_node m node k d.1,
    ek.equals_iff j k,
    lookup_of_absent_key k m,
    d.0,
  )

  is_node_present-without :
      (m : StreamManager N K) (node other : N)
      → is_node_present (map_values (λ _ s. without_node node s) m) other
        ≡ (not (node == other) && is_node_present m other)
  unfolding is_node_present without_node map_values
  is_node_present-without [] node other = ground arith
  is_node_present-without ((j, s) ∷ m) node other = ground (
    arith,
    is_node_present-without m node other,
    contains-delete s.inbound_nodes node other,
    contains-delete s.outbound_nodes node other,
    en.equals_iff node other,
    en.equals_iff other node,
  )

  pub is_neighbor-without :
      (m : StreamManager N K) (node : N) (k : K) (other : N)
      → is_neighbor (map_values (λ _ s. without_node node s) m) k other
        ≡ (not (node == other) && is_neighbor m k other)
  unfolding is_neighbor without_node
  is_neighbor-without m node k other = elim (Option-cases (lookup k m)) [
    | inl h ↦ ground (arith, h, lookup-map_values k (λ _ s. without_node node s) m)
    | inr (s, h) ↦ ground (
      arith,
      h,
      lookup-map_values k (λ _ s. without_node node s) m,
      contains-delete s.inbound_nodes node other,
      contains-delete s.outbound_nodes node other,
      en.equals_iff node other,
      en.equals_iff other node,
    )
  ]

  pub is_node_present-remove :
      (m : StreamManager N K) (node other : N)
      → is_node_present (remove_node_from_all_streams m node).0 other
        ≡ (not (node == other) && is_node_present m other)
  unfolding remove_node_from_all_streams
  is_node_present-remove m node other = is_node_present-without m node other

  -- `removeNodeFromAllStreams` takes the node, and no other, off every stream, and returns exactly
  -- the streams on which it was a neighbour.
  pub remove_node_from_all_streams_lem :
      (m : StreamManager N K) (node : N)
      → IsKeyed m
      → let (m', streams) = remove_node_from_all_streams m node in
        (k : K) (other : N)
        → (is_neighbor m' k other ≡ (not (node == other) && is_neighbor m k other))
          × (is_node_present m' other ≡ (not (node == other) && is_node_present m other))
          × (contains streams k ≡ is_neighbor m k node)
  unfolding remove_node_from_all_streams
  remove_node_from_all_streams_lem m node d k other = (
    is_neighbor-without m node k other,
    is_node_present-remove m node other,
    contains-streams_with_node m node k d,
  )

  contains-pushed_nodes :
      (m : StreamManager N K) (node : N) → contains (pushed_nodes m) node ≡ is_node_present m node
  unfolding pushed_nodes is_node_present
  contains-pushed_nodes [] node = refl
  contains-pushed_nodes ((j, s) ∷ m) node = ground (
    arith,
    contains-append s.inbound_nodes (s.outbound_nodes ++ pushed_nodes m) node,
    contains-append s.outbound_nodes (pushed_nodes m) node,
    contains-pushed_nodes m node,
  )

  -- `getAllNodes` lists exactly the nodes for which `isNodePresent` holds, each once.
  contains-get_all_nodes :
      (m : StreamManager N K) (node : N)
      → (contains (get_all_nodes m) node ≡ is_node_present m node) × Distinct (get_all_nodes m)
  unfolding get_all_nodes
  contains-get_all_nodes m node = (
    contains-of_list (pushed_nodes m) node ∙ contains-pushed_nodes m node,
    of_list-Distinct (pushed_nodes m),
  )

  get_all_nodes_for_stream-of :
      (below : N → N → Bool) (m : StreamManager N K) (k : K) (s : StreamState N)
      → lookup k m ≡ some s
      → get_all_nodes_for_stream below m k ≡ ok (sort below (all_nodes s))
  unfolding get_all_nodes_for_stream get_inbound_nodes_for_stream get_outbound_nodes_for_stream
      all_nodes state_of verify_that_is_set_up is_set_up has_key
  get_all_nodes_for_stream-of below m k s h = ground (arith, h)

  -- A stream is removed exactly if it is set up. The call then returns its neighbours of both
  -- kinds, each once, which are those that `getAllNodesForStream` sorts; after it the stream is gone,
  -- and the other streams are what they were.
  remove_stream_lem :
      (below : N → N → Bool) (m : StreamManager N K) (k : K)
      → ((is_set_up m k ≡ false) × (remove_stream m k ≡ err not_set_up))
        ⊎ ((nodes : List N) × (remove_stream m k ≡ ok (remove k m, nodes))
            × Distinct nodes
            × ((node : N) → contains nodes node ≡ is_neighbor m k node)
            × (get_all_nodes_for_stream below m k ≡ ok (sort below nodes))
            × ((j : K) → lookup j (remove k m) ≡ (if k == j then none else lookup j m)))
  unfolding remove_stream state_of verify_that_is_set_up is_set_up has_key is_neighbor all_nodes
  remove_stream_lem below m k = elim (Option-cases (lookup k m)) [
    | inl h ↦ inl (ground (arith, h), ground (arith, h))
    | inr (s, h) ↦
        let nodes = s.inbound_nodes ++ s.outbound_nodes in
        inr (
          of_list nodes,
          ground (arith, h),
          of_list-Distinct nodes,
          λ node. ground (
            arith,
            h,
            contains-of_list nodes node,
            contains-append s.inbound_nodes s.outbound_nodes node,
          ),
          get_all_nodes_for_stream-of below m k s h,
          λ j. lookup-remove k j m,
        )
  ]
