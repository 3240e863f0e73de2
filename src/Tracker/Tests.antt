-- ===== src/Tracker/Tests.antt =====
-- Runs of the tracker (src/logic/Tracker.ts), and the theorems at concrete inputs.
use network_old.Base.{
  ℕ, ◌≡◌, refl, false, String, string_eq, List, [], ◌∷◌, ok, err, lookup, insert, remove, update,
  has_key, add, add_all, delete, of_list, pos, keys,
}
use network_old.Counters.{
  set_or_increment, filter_status, remove_node, remove_stream, get_and_set_if_necessary,
}
use network_old.Counters.Laws.{counter_of}
use network_old.Overlay.{
  OverlayTopology, Choices, new_topology, neighbors_in, update_nodes, update_node, add_link,
  delete_link, add_links, delete_links, known_neighbors, leave, num_of_missing_neighbors,
  reduce_neighbors, candidates, add_neighbors, relink, exchange, reconnect_once, reconnect,
  disconnect_neighbors, has_self_neighbor, instructions_for, improve, form_instructions,
  is_empty_topology,
}
use network_old.Overlay.Updates.{IsValid, update_node-IsValid, new_topology-IsValid}
use network_old.Overlay.Instructions.{IsChoice}
use network_old.Overlay.Randomness.{default_choices, default_choices-IsChoice}
use network_old.Tracker.{
  Tracker, Instruction, Status, Outcome, new_tracker, on_node_connected, find_storage_nodes,
  create_new_overlay_topologies, for_each, send, send_formed, form_and_send_on,
  form_and_send_instructions, left, leave_and_check_empty_overlay, update_on, other_overlays,
  update_on_all, leave_stream, update_node_on_stream, received, process_node_status,
  on_node_disconnected,
}
use network_old.Tracker.Outcomes.{Succeeds}
use network_old.Tracker.Steps.{AreValid}
use network_old.Tracker.Counts.{AreCounted, sent_to}
use network_old.Tracker.Validity.{process_node_status-AreValid, on_node_disconnected-AreValid}
use network_old.Tracker.Sends.{
  form_and_send_instructions-AreCounted, leave_and_check_empty_overlay-resets,
}

program : Unit {0}
unfolding neighbors_in update_nodes update_node add_link delete_link add_links delete_links
    known_neighbors leave num_of_missing_neighbors reduce_neighbors candidates add_neighbors relink
    exchange reconnect_once reconnect disconnect_neighbors has_self_neighbor instructions_for
    improve form_instructions is_empty_topology add delete add_all of_list lookup insert remove
    update has_key default_choices set_or_increment filter_status remove_node remove_stream
    get_and_set_if_necessary new_tracker on_node_connected find_storage_nodes
    create_new_overlay_topologies for_each send send_formed form_and_send_on
    form_and_send_instructions left leave_and_check_empty_overlay update_on other_overlays
    update_on_all leave_stream update_node_on_stream received process_node_status
    on_node_disconnected counter_of sent_to
program = tt

-- Random numbers that leave each array in its order, and pick the first element.
abbrev choose : ℕ → Choices String
choose _ = default_choices (λ k i. i) (λ k. 0)

choose-IsChoice : (i : ℕ) → IsChoice (choose i)
choose-IsChoice i = default_choices-IsChoice (λ k i. i) (λ k. 0)

-- Two nodes that are no neighbours yet.
abbrev pair : OverlayTopology String
pair = update_node (update_node (new_topology 4) "a" []) "b" []

abbrev single : OverlayTopology String
single = update_node (new_topology 4) "a" []

-- One of them is on another stream too, and has had three instructions for that one.
abbrev tracker : Tracker String String ℕ
tracker = record {
  max_neighbors_per_node = 4;
  overlay_per_stream = ("s::0", pair) ∷ ("t::0", single) ∷ [];
  overlay_connection_rtts = [];
  instruction_counter = ("a", ("t::0", 3) ∷ []) ∷ [];
  storage_nodes = [];
  calls = 0;
}

abbrev connected : Tracker String String ℕ
connected = record tracker {
  overlay_per_stream =
      (
        "s::0",
        record { max_neighbors_per_node = 4; nodes = ("a", "b" ∷ []) ∷ ("b", "a" ∷ []) ∷ [] },
      )
      ∷ ("t::0", single)
      ∷ [];
  instruction_counter = ("a", ("t::0", 3) ∷ ("s::0", 1) ∷ []) ∷ ("b", ("s::0", 1) ∷ []) ∷ [];
  calls = 1;
}

abbrev sent : List (Instruction String String)
sent =
    record { node_id = "a"; stream_key = "s::0"; new_neighbors = "b" ∷ []; counter = 1 }
    ∷ record { node_id = "b"; stream_key = "s::0"; new_neighbors = "a" ∷ []; counter = 1 }
    ∷ []

connects : form_and_send_instructions choose "a" ("s::0" ∷ []) false tracker ≡ ok (connected, sent)
unfolding program
connects = refl

-- Leaving the first stream also forgets the three instructions for the second.
abbrev left_first : Tracker String String ℕ
left_first = record tracker {
  overlay_per_stream =
      ("s::0", record { max_neighbors_per_node = 4; nodes = ("b", []) ∷ [] })
      ∷ ("t::0", single)
      ∷ [];
  instruction_counter = [];
}

leaves : leave_and_check_empty_overlay choose "a" ("s::0", pair) tracker ≡ ok (left_first, [])
unfolding program
leaves = refl

single-IsValid : IsValid single.nodes
single-IsValid = update_node-IsValid (new_topology 4) "a" [] (new_topology-IsValid 4)

tracker-AreValid : AreValid tracker
tracker-AreValid = (update_node-IsValid single "b" [] single-IsValid, (single-IsValid, tt))

-- A status that takes the node off the second stream, which only it was on.
abbrev status : Status String String ℕ
status = record {
  streams =
      ("s::0", record { inbound_nodes = "b" ∷ []; outbound_nodes = []; counter = pos 0 }) ∷ [];
  rtts = 7;
  single_stream = false;
}

abbrev state_after : Outcome String String ℕ → List String
state_after (ok (t, _)) = keys t.overlay_per_stream
state_after (err e) = []

forgets_second : state_after (process_node_status choose status "a" tracker) ≡ "s::0" ∷ []
unfolding program
forgets_second = refl

process_node_status-AreValid_example :
    Succeeds AreValid (process_node_status choose status "a" tracker)
process_node_status-AreValid_example =
    process_node_status-AreValid choose status "a" tracker choose-IsChoice tracker-AreValid

on_node_disconnected-AreValid_example : Succeeds AreValid (on_node_disconnected choose "a" tracker)
on_node_disconnected-AreValid_example =
    on_node_disconnected-AreValid choose "a" tracker choose-IsChoice tracker-AreValid

form_and_send_instructions-AreCounted_example :
    AreCounted tracker.instruction_counter sent connected.instruction_counter
form_and_send_instructions-AreCounted_example =
    form_and_send_instructions-AreCounted choose "a" ("s::0" ∷ []) false tracker connected sent
      connects

leave_and_check_empty_overlay-resets_example :
    counter_of left_first.instruction_counter "a" "t::0" ≡ 0
unfolding program
leave_and_check_empty_overlay-resets_example =
    leave_and_check_empty_overlay-resets choose "a" "s::0" pair tracker left_first [] leaves "t::0"
