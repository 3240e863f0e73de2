-- ===== src/Node/Reception.antt =====
-- What a node of src/logic/Node.ts does with a message that it receives, by whom it goes to.
use Prim.Native.Nat.{◌≤◌}
use network_old.Base.{
  contains, not, ◌==◌, ap, none, Distinct, contains-keep_if, keep_if-Distinct, ◌≢◌, ◌↔◌, ◌⊎◌, ◌≡◌,
  refl, Eq, Bool, true, false, ◌||◌, List, [], ◌∷◌, ◌++◌, Option, some, ok, map, arith, Bool-cases,
  inl, inr,
}
use network_old.Streams.{mark_numbers_and_check_that_is_not_duplicate}
use network_old.Streams.Outbound.{outbound_nodes_of}
use network_old.Buffer.Contents.{contents, make_room}
use network_old.Seen.{message_id_to_str, add_seen, delete_seen, has_seen}
use network_old.Node.{is_same, StreamMessage, sent_data, Node, Surroundings, Outcome, done}
use network_old.Node.Messages.{other_nodes, on_data_received}
use network_old.Node.Propagation.{IsPassedOn, on_data_received-IsReceived}

-- The nodes that are left of some when the source of a message, if it has one, is taken away.
abbrev pub IsRest : {N : Type 0} ⦃e : Eq N⦄ → Option N → List N → List N → Type 0
IsRest {N} source nodes targets =
    ((node : N)
      → (contains targets node ≡ true) ↔ ((contains nodes node ≡ true) × (source ≢ some node)))
    × Distinct targets

or-cases : (a b : Bool) → (a || b) ≡ true → (a ≡ true) ⊎ (b ≡ true)
or-cases true b h = inl refl
or-cases false b h = inr h

by_source :
    {N : Type 0} ⦃e : Eq N⦄ (source : Option N) (node : N)
    → ((source ≡ some node) × (is_same source node ≡ true))
      ⊎ ((source ≢ some node) × (is_same source node ≡ false))
by_source none node = inr (λ there. cc, refl)
by_source ⦃e⦄ (some other) node = elim (Bool-cases (other == node)) [
  | inl h ↦ inl (ap some ((e.equals_iff other node).0 h), h)
  | inr h ↦ inr (λ there. absurd (ground (arith, h, there, e.equals_iff other node)), h)
]

other_nodes-IsRest :
    {N : Type 0} ⦃e : Eq N⦄ (source : Option N) (nodes : List N)
    → Distinct nodes
    → IsRest source nodes (other_nodes source nodes)
other_nodes-IsRest source nodes d = (
  λ node. elim (by_source source node) [
    | inl (same, h) ↦ (
      λ there.
          absurd
            (ground (arith, h, there, contains-keep_if (λ n. not (is_same source n)) nodes node)),
      λ (there, other). absurd (other same),
    )
    | inr (other, h) ↦ (
      λ there. (
        ground (arith, h, there, contains-keep_if (λ n. not (is_same source n)) nodes node),
        other,
      ),
      λ (there, also).
          ground (arith, h, there, contains-keep_if (λ n. not (is_same source n)) nodes node),
    )
  ],
  keep_if-Distinct _ nodes d,
)

module _ {K N A C B : Type 0} ⦃ek : Eq K⦄ ⦃en : Eq N⦄ ⦃ea : Eq A⦄ (s : Surroundings K N A C) where
  -- The message is sent to the targets, or is kept if there are none. `streams` are the streams'
  -- states that the check of its numbers leaves.
  abbrev pub IsSentOrKept :
      StreamMessage K B → Option N → List N → Node K N A C B → Outcome (Node K N A C B) → Type 0
  IsSentOrKept message source targets n r =
      let k = message.message_id.stream_key in
      let text = message_id_to_str s.texts message.message_id in
      let waiting = contents n.message_buffer k in
      (r.1 ≡ ok tt)
      × (r.0.effects ≡ n.effects ++ map (λ node. sent_data node message) targets)
      × (((targets ≢ [])
            × (contents r.0.message_buffer k ≡ waiting)
            × (r.0.seen_but_not_propagated ≡ s.cache.cache_del text n.seen_but_not_propagated))
          ⊎ ((targets ≡ [])
              × (contents r.0.message_buffer k
                  ≡ make_room n.message_buffer.max_size waiting ++ (message, source) ∷ [])
              × (r.0.seen_but_not_propagated ≡ s.cache.cache_set text n.seen_but_not_propagated)))

  passed_on-IsSentOrKept :
      (message : StreamMessage K B) (source : Option N) (targets : List N) (n : Node K N A C B)
      (r : Outcome (Node K N A C B))
      → IsPassedOn s message source targets n r
      → IsSentOrKept message source targets n r
  unfolding add_seen delete_seen
  passed_on-IsSentOrKept message source [] n r (fine, streams, limit, effects, kept, seen) =
      (fine, effects, inr (refl, kept, seen))
  passed_on-IsSentOrKept message source (x ∷ xs) n r (fine, streams, limit, effects, kept, seen) =
      (fine, effects, inl (λ none_left. cc, kept, seen))

  -- A node that has the stream of a message passes the message on if it is new, or if it is marked as
  -- passed on to no one so far, and else ignores it: only the marks of its numbers change. It passes
  -- it on to exactly the outbound nodes of the stream other than the one that it comes from, once to
  -- each. If there are none, the message is put in the buffer of the stream, and is marked as passed
  -- on to no one; with others the buffer of the stream stays, and the mark is taken away. This holds
  -- for a buffer of at least two messages, where no outbound node is listed twice, and where the
  -- stream manager does not throw.
  pub on_data_received_lem :
      (message : StreamMessage K B) (source : Option N) (n : Node K N A C B) (nodes : List N)
      (is_unseen : Bool)
      → 2 ≤ n.message_buffer.max_size
      → outbound_nodes_of n.streams message.message_id.stream_key ≡ some nodes
      → Distinct nodes
      → (mark_numbers_and_check_that_is_not_duplicate n.streams message.message_id
          message.prev_msg_ref).1
        ≡ ok is_unseen
      → let text = message_id_to_str s.texts message.message_id in
        let marked_seen = s.cache.cache_has text n.seen_but_not_propagated in
        let streams =
          (mark_numbers_and_check_that_is_not_duplicate n.streams message.message_id
            message.prev_msg_ref).0 in
        let r = on_data_received s message source n in
        (((is_unseen ≡ true) ⊎ (marked_seen ≡ true))
          × (r.0.streams ≡ streams)
          × ((targets : List N) × IsRest source nodes targets
              × IsSentOrKept message source targets n r))
        ⊎ ((is_unseen ≡ false)
            × (marked_seen ≡ false)
            × (r ≡ done (record n { streams = streams })))
  unfolding has_seen
  on_data_received_lem message source n nodes is_unseen room h once answer =
      let streams =
        (mark_numbers_and_check_that_is_not_duplicate n.streams message.message_id
          message.prev_msg_ref).0 in
      let text = message_id_to_str s.texts message.message_id in
      let marked_seen = s.cache.cache_has text n.seen_but_not_propagated in
      let r = on_data_received s message source n in
      elim (on_data_received-IsReceived s message source n nodes is_unseen room h answer) [
        | inl (passes, passed) ↦ inl (
          or-cases is_unseen marked_seen passes,
          passed.1,
          (
            other_nodes source nodes,
            other_nodes-IsRest source nodes once,
            passed_on-IsSentOrKept message source (other_nodes source nodes)
                (record n { streams = streams }) r passed,
          ),
        )
        | inr (ignored, same) ↦ inr (ground (arith, ignored), ground (arith, ignored), same)
      ]
