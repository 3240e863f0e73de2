-- ===== src/Node/Failures.antt =====
-- What a node of src/logic/Node.ts does when it cannot deliver messages to a neighbour.
use network_old.Base.{
  ℕ, zero, suc, ◌+◌, ◌<◌, leb, ◌≡◌, refl, ap, ◌∙◌, Eq, true, false, List, [], ◌∷◌, ok, lookup,
  insert, arith, lookup-insert, of_list,
}
use network_old.Streams.{is_node_present, remove_node_from_all_streams}
use network_old.Streams.Nodes.{is_node_present-remove}
use network_old.Node.{Node, Surroundings, prepare_and_send_full_status, emit, cancels_resends_of}
use network_old.Node.Messages.{
  failures_or_none, known_trackers, send_full_statuses, on_node_disconnected, on_not_delivered,
}

module _ {K N A C B : Type 0} ⦃ek : Eq K⦄ ⦃en : Eq N⦄ ⦃ea : Eq A⦄ where
  -- The consecutive failures of a neighbour.
  unfoldable pub failures : N → Node K N A C B → ℕ
  failures node n = failures_or_none (lookup node n.consecutive_delivery_failures)

module _ {K N A C B : Type 0} ⦃ek : Eq K⦄ ⦃en : Eq N⦄ ⦃ea : Eq A⦄ (s : Surroundings K N A C) where
  -- The node after so many failures in a row.
  unfoldable pub fail_times : ℕ → N → Node K N A C B → Node K N A C B
  fail_times zero node n = n
  fail_times (suc k) node n = fail_times k node (on_not_delivered s node n).0

  streams-send_full_statuses :
      (trackers : List N) (n : Node K N A C B)
      → (send_full_statuses s trackers n).streams ≡ n.streams
  unfolding prepare_and_send_full_status
  streams-send_full_statuses [] n = refl
  streams-send_full_statuses (tracker ∷ trackers) n =
      streams-send_full_statuses trackers (prepare_and_send_full_status s tracker n)

  one_failure :
      (node : N) (n : Node K N A C B)
      → leb 100 (suc (failures node n)) ≡ false
      → let n' = (on_not_delivered s node n).0 in
        (failures node n' ≡ suc (failures node n))
        × (n'.streams ≡ n.streams)
        × (n'.effects ≡ n.effects)
  unfolding failures on_not_delivered
  one_failure node n few =
      rw (on_not_delivered, few)
        (
          ground (
            arith,
            lookup-insert node node (suc (failures node n)) n.consecutive_delivery_failures,
            en.equals_iff node node,
          ),
          refl,
          refl,
        )

  fail_times_lem :
      (k : ℕ) (node : N) (n : Node K N A C B)
      → failures node n + k < 100
      → let n' = fail_times k node n in
        (failures node n' ≡ failures node n + k)
        × (n'.streams ≡ n.streams)
        × (n'.effects ≡ n.effects)
  unfolding fail_times
  fail_times_lem zero node n few = (omega arith, refl, refl)
  fail_times_lem (suc k) node n few =
      let (more, streams, effects) = one_failure node n (ground (arith, few)) in
      let (more', streams', effects') =
        fail_times_lem k node (on_not_delivered s node n).0 (omega (arith, more, few)) in
      (omega (arith, more, more'), streams' ∙ streams, effects' ∙ effects)

  last_failure :
      (node : N) (n : Node K N A C B)
      → leb 100 (suc (failures node n)) ≡ true
      → let (n', r) = on_not_delivered s node n in
        (r ≡ ok tt) × (is_node_present n'.streams node ≡ false) × (failures node n' ≡ 0)
  unfolding failures on_not_delivered on_node_disconnected
  last_failure node n many =
      let n1 : Node K N A C B = record n {
        consecutive_delivery_failures =
            insert node (suc (failures node n)) n.consecutive_delivery_failures;
      } in
      let (streams, left) = remove_node_from_all_streams n.streams node in
      let n2 : Node K N A C B = record (emit (cancels_resends_of node) n1) { streams = streams } in
      let trackers = of_list (known_trackers s n2 left) in
      let n3 : Node K N A C B = send_full_statuses s trackers n2 in
      rw (on_not_delivered, many)
        (
          refl,
          ap (λ m. is_node_present m node) (streams-send_full_statuses trackers n2)
              ∙ ground (arith, is_node_present-remove n.streams node node, en.equals_iff node node),
          ground (
            arith,
            lookup-insert node node 0 n3.consecutive_delivery_failures,
            en.equals_iff node node,
          ),
        )

  -- A neighbour whose failures are 0, and to which less than a hundred messages in a row cannot be
  -- delivered, stays a neighbour, and nothing is done to others. At the hundredth the node takes it
  -- off all its streams, and its failures are 0 again.
  pub hundredth_failure :
      (k : ℕ) (node : N) (n : Node K N A C B)
      → failures node n ≡ 0
      → k < 100
      → let few = fail_times k node n in
        let (n', r) = on_not_delivered s node (fail_times 99 node n) in
        (failures node few ≡ k)
        × (few.streams ≡ n.streams)
        × (few.effects ≡ n.effects)
        × (r ≡ ok tt)
        × (is_node_present n'.streams node ≡ false)
        × (failures node n' ≡ 0)
  hundredth_failure k node n none_yet below =
      let (count, streams, effects) = fail_times_lem k node n (omega (arith, none_yet, below)) in
      let (count99, _, _) = fail_times_lem 99 node n (omega (arith, none_yet)) in
      let (fine, absent, reset) =
        last_failure node (fail_times 99 node n) (ground (arith, count99, none_yet)) in
      (omega (arith, count, none_yet), streams, effects, fine, absent, reset)
