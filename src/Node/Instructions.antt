-- ===== src/Node/Instructions.antt =====
-- What the node of src/logic/Node.ts does with the instructions of trackers, and when it disconnects
-- from a node.
use network_old.Base.{
  ℕ, suc, Eq, number_eq, Bool, true, false, not, ◌||◌, List, [], ◌∷◌, Option, none, some, Result,
  ok, err, if◌then◌else◌, keep_if, contains, Dict, values, lookup, insert, remove, pos,
}
use network_old.Streams.{
  StreamManager, StreamError, is_set_up, is_node_present, remove_node_from_stream, remove_stream,
  update_counter, get_all_nodes_for_stream,
}
use network_old.Buffer.{clear}
use network_old.Throttler.{
  Instruction, InstructionThrottler, ThrottlerError, add_instruction, remove_stream_id, reset,
}
use network_old.Retries.{add_retry, remove_retries, reset_retries}
use network_old.Node.{
  InstructionBody, connects_to, disconnects_from, Node, Surroundings, in_streams, in_throttler,
  record_metric, Outcome, done, and_then, after_metric, emit, with_streams, is_same, get_tracker_id,
  prepare_and_send_stream_status, subscribe_to_stream_if_have_not_yet,
}
use network_old.Node.Messages.{subscribe_to_stream_on_node}

-- `clearTimeout` of a node's timer.
abbrev pub clear_timer : {N : Type 0} → Option ℕ → Dict ℕ N → Dict ℕ N
clear_timer none armed = armed
clear_timer (some timer) armed = remove timer armed

abbrev pub clear_timers : {N : Type 0} → List ℕ → Dict ℕ N → Dict ℕ N
clear_timers [] armed = armed
clear_timers (timer ∷ timers) armed = clear_timers timers (remove timer armed)

-- The nodes that an instruction does not name.
abbrev pub nodes_to_unsubscribe_from : {N : Type 0} ⦃e : Eq N⦄ → List N → List N → List N
nodes_to_unsubscribe_from node_ids current = keep_if (λ n. not (contains node_ids n)) current

module _ {K N A C B : Type 0} ⦃ek : Eq K⦄ ⦃en : Eq N⦄ ⦃ea : Eq A⦄ where
  unfoldable pub clear_disconnection_timer : N → Node K N A C B → Node K N A C B
  clear_disconnection_timer node n = record n {
    disconnection_timers = remove node n.disconnection_timers;
    armed = clear_timer (lookup node n.disconnection_timers) n.armed;
  }

  unfoldable pub set_disconnection_timer : N → Node K N A C B → Node K N A C B
  unfolding clear_disconnection_timer
  set_disconnection_timer node n =
      let n1 = clear_disconnection_timer node n in
      record n1 {
        disconnection_timers = insert node n1.next_timer n1.disconnection_timers;
        armed = insert n1.next_timer node n1.armed;
        next_timer = suc n1.next_timer;
      }

  -- The callback of a timer of a node, if the timer is still armed.
  unfoldable pub run_disconnection_timer : ℕ → Node K N A C B → Node K N A C B
  run_disconnection_timer timer n = elim (lookup timer n.armed) [
    | none ↦ n
    | some node ↦
        let n1 = record n {
          armed = remove timer n.armed;
          disconnection_timers = remove node n.disconnection_timers;
        } in
        if is_node_present n1.streams node then n1 else emit (disconnects_from node) n1
  ]

  -- A tracker's instruction waits for those before it.
  unfoldable pub on_tracker_instruction_received :
      Instruction K (InstructionBody N) → Node K N A C B → Node K N A C B
  on_tracker_instruction_received i n = record n {
    instruction_throttler = add_instruction i n.instruction_throttler;
  }

  abbrev pub with_throttler :
      Node K N A C B
      → Result ThrottlerError (InstructionThrottler K (InstructionBody N))
      → Outcome (Node K N A C B)
  with_throttler n (ok t) = done (record n { instruction_throttler = t })
  with_throttler n (err x) = (n, err (in_throttler x))

  abbrev pub connect_each : N → List N → Node K N A C B → Node K N A C B
  connect_each tracker [] n = n
  connect_each tracker (node ∷ nodes) n =
      connect_each tracker nodes (emit (connects_to node tracker) n)

  -- `stop`, less the resends, the interval that connects to trackers, and the protocols. `cancel` is what the package
  -- cancelable-promise does.
  unfoldable pub stop_node : (ℕ → Dict ℕ K → Dict ℕ K) → Node K N A C B → Outcome (Node K N A C B)
  stop_node cancel n = and_then (with_throttler n (reset cancel n.instruction_throttler)) (λ n1.
      done (record n1 {
        instruction_retry_manager = reset_retries n1.instruction_retry_manager;
        armed = clear_timers (values n1.disconnection_timers) n1.armed;
        message_buffer = clear n1.message_buffer;
      }))

module _ {K N A C B : Type 0} ⦃ek : Eq K⦄ ⦃en : Eq N⦄ ⦃ea : Eq A⦄ (s : Surroundings K N A C) where
  unfoldable pub unsubscribe_from_stream_on_node :
      Bool → N → K → Node K N A C B → Outcome (Node K N A C B)
  unfolding set_disconnection_timer
  unsubscribe_from_stream_on_node send_status node stream n =
      and_then (with_streams n (remove_node_from_stream n.streams stream node)) (λ n1.
        let n2 = if is_node_present n1.streams node then n1 else set_disconnection_timer node n1 in
        done (if send_status then prepare_and_send_stream_status s stream n2 else n2))

  abbrev pub unsubscribe_each : List N → K → Node K N A C B → Outcome (Node K N A C B)
  unsubscribe_each [] stream n = done n
  unsubscribe_each (node ∷ nodes) stream n =
      and_then (unsubscribe_from_stream_on_node false node stream n) (unsubscribe_each nodes stream)

  abbrev pub with_streams_removed :
      Node K N A C B → Result StreamError (StreamManager N K × List N) → Outcome (Node K N A C B)
  with_streams_removed n (ok (m, nodes)) = done (record n { streams = m })
  with_streams_removed n (err x) = (n, err (in_streams x))

  unfoldable pub unsubscribe_from_stream :
      (ℕ → Dict ℕ K → Dict ℕ K) → Bool → K → Node K N A C B → Outcome (Node K N A C B)
  unsubscribe_from_stream cancel send_status stream n =
      and_then (with_streams_removed n (remove_stream n.streams stream)) (λ n1.
        and_then (with_throttler n1 (remove_stream_id cancel stream n1.instruction_throttler))
          (λ n2.
            let n3 = record n2 {
              instruction_retry_manager = remove_retries stream n2.instruction_retry_manager;
            } in
            done (if send_status then prepare_and_send_stream_status s stream n3 else n3)))

  abbrev pub with_nodes :
      Node K N A C B
      → Result StreamError (List N)
      → (List N → Outcome (Node K N A C B))
      → Outcome (Node K N A C B)
  with_nodes n (ok nodes) f = f nodes
  with_nodes n (err x) f = (n, err (in_streams x))

  -- The part of `handleTrackerInstruction` for the expected tracker, up to its `await`.
  unfoldable pub follow_instruction :
      Instruction K (InstructionBody N) → Node K N A C B → Outcome (Node K N A C B)
  unfolding unsubscribe_from_stream_on_node
  follow_instruction i n = after_metric n (record_metric "trackerInstructions") (λ n'.
      and_then (subscribe_to_stream_if_have_not_yet s false i.stream_key n') (λ n1.
        with_nodes n1 (get_all_nodes_for_stream s.below n1.streams i.stream_key) (λ current.
          unsubscribe_each (nodes_to_unsubscribe_from i.body.node_ids current) i.stream_key
            (connect_each i.body.tracker_id i.body.node_ids n1))))

  -- `handleTrackerInstruction` up to its `await`, and whether it goes on after it.
  unfoldable pub begin_instruction :
      Instruction K (InstructionBody N) → Node K N A C B → Outcome (Node K N A C B) × Bool
  unfolding follow_instruction
  begin_instruction i n =
      let n1 = record n { instruction_retry_manager = add_retry i n.instruction_retry_manager } in
      if is_same (get_tracker_id s n1 i.stream_key) i.body.tracker_id
      then (follow_instruction i n1, true)
      else ((n1, record_metric "unexpectedTrackerInstructions"), false)

  -- The connection to a node of the instruction is there. If this throws, the node has failed.
  unfoldable pub on_instructed_node_connected :
      Instruction K (InstructionBody N) → N → Node K N A C B → Outcome (Node K N A C B)
  unfolding clear_disconnection_timer
  on_instructed_node_connected i node n =
      subscribe_to_stream_on_node s false node i.stream_key (clear_disconnection_timer node n)

  -- The rest of `handleTrackerInstruction`, when each node is connected or has failed.
  unfoldable pub end_instruction :
      Instruction K (InstructionBody N) → Bool → Bool → Node K N A C B → Outcome (Node K N A C B)
  end_instruction i reattempt failed n =
      and_then
        (if is_set_up n.streams i.stream_key
          then with_streams n (update_counter n.streams i.stream_key (pos i.counter))
          else done n)
        (λ n1. done (
          if not reattempt || failed then prepare_and_send_stream_status s i.stream_key n1 else n1))
