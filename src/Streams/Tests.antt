-- ===== src/Streams/Tests.antt =====
-- Runs of the stream manager (src/logic/StreamManager.ts), and the theorems at concrete inputs.
use network_old.Base.{
  arith, ◌≡◌, ◌≢◌, refl, Result, Bool, true, String, string_eq, List, [], ◌∷◌, none, ok, err,
  lookup, insert, remove, map_values, add, add_all, delete, of_list, has_key, sort, pos, contains,
}
use network_old.Detector.{
  finite, greater_than, mark_and_check, mark_gaps, is_invalid_numbering, mark_latest, new_detector,
}
use network_old.Streams.{
  StreamManager, MessageId, StreamError, is_set_up, state_of, verify_that_is_set_up, set_up_stream,
  mark_numbers_and_check_that_is_not_duplicate, key_for_detector, detector_of, without_node,
  streams_with_node, remove_node_from_all_streams, is_node_present, get_all_nodes, pushed_nodes,
  remove_stream, all_nodes, get_all_nodes_for_stream, get_inbound_nodes_for_stream,
  get_outbound_nodes_for_stream, get_stream_state, already_set_up, add_inbound_node,
  get_streams_as_keys, update_counter, missing,
}
use network_old.Streams.Marks.{detector_in}
use network_old.Streams.Chains.{IsSameChain, mark_apart}
use network_old.Streams.Nodes.{is_neighbor, remove_node_from_all_streams_lem}
use network_old.Streams.Operations.{
  Operation, set_up, add_inbound, take_off_all, tear_down, perform, perform_all,
}
use network_old.Streams.Relations.{perform-Refines}
use network_old.Streams.Histories.{mark_never_new_again}

abbrev id : MessageId String
id = record {
  stream_key = "s::0";
  publisher_id = "p";
  msg_chain_id = "c";
  number = record { a = finite 1; b = finite 0 };
}

abbrev streams : StreamManager String String
streams =
    (
      "s::0",
      record {
        detectors = [];
        inbound_nodes = "a" ∷ "b" ∷ [];
        outbound_nodes = "b" ∷ [];
        counter = pos 3;
      },
    )
    ∷ (
      "t::0",
      record { detectors = []; inbound_nodes = []; outbound_nodes = "c" ∷ []; counter = pos 0 },
    )
    ∷ []

program : Unit {0}
unfolding state_of verify_that_is_set_up is_set_up set_up_stream
    mark_numbers_and_check_that_is_not_duplicate key_for_detector detector_of without_node
    streams_with_node remove_node_from_all_streams is_node_present get_all_nodes pushed_nodes
    remove_stream all_nodes get_all_nodes_for_stream get_inbound_nodes_for_stream
    get_outbound_nodes_for_stream get_stream_state add_inbound_node get_streams_as_keys
    update_counter lookup insert remove map_values add add_all delete of_list has_key sort
    is_neighbor perform perform_all detector_in mark_and_check mark_gaps is_invalid_numbering
    mark_latest new_detector greater_than
program = tt

not_twice : set_up_stream streams "s::0" ≡ err already_set_up
unfolding program
not_twice = refl

unknown_counter : update_counter streams "u::0" (pos 1) ≡ err missing
unfolding program
unknown_counter = refl

marks_first : (mark_numbers_and_check_that_is_not_duplicate streams id none).1 ≡ ok true
unfolding program
marks_first = refl

b_leaves : (remove_node_from_all_streams streams "b").1 ≡ "s::0" ∷ []
unfolding program
b_leaves = refl

abbrev before : List (Operation String String)
before = set_up "s::0" ∷ set_up "t::0" ∷ []

abbrev between : List (Operation String String)
between = add_inbound "s::0" "a" ∷ tear_down "t::0" ∷ take_off_all "a" ∷ []

abbrev first : StreamManager String String × Result StreamError Bool
first = mark_numbers_and_check_that_is_not_duplicate (perform_all [] before) id none

first_new :
    mark_numbers_and_check_that_is_not_duplicate (perform_all [] before) id none
    ≡ (first.0, ok true)
unfolding program
first_new = refl

mark_never_new_again_example :
    (mark_numbers_and_check_that_is_not_duplicate (perform_all first.0 between) id none).1 ≢ ok true
unfolding program
mark_never_new_again_example =
    mark_never_new_again before (tt, (tt, tt)) id none refl first.0 first_new between
      (tt, (tt, (tt, tt))) (refl, (refl, (refl, tt))) none

-- A message of the same publisher with the same number, on another chain.
abbrev of_other_chain : MessageId String
of_other_chain = record id { msg_chain_id = "d" }

is_other_chain : ¬ IsSameChain id of_other_chain
is_other_chain (keys, publishers, chains) =
    absurd (ground (arith, (string_eq.equals_iff "c" "d").1 chains))

mark_apart_example :
    (mark_numbers_and_check_that_is_not_duplicate
      (mark_numbers_and_check_that_is_not_duplicate streams id none).0
      of_other_chain
      none).1
    ≡ (mark_numbers_and_check_that_is_not_duplicate streams of_other_chain none).1
mark_apart_example = mark_apart streams id of_other_chain none none refl is_other_chain

remove_node_from_all_streams_lem_example :
    (is_neighbor (remove_node_from_all_streams streams "b").0 "s::0" "a" ≡ true)
    × (is_node_present (remove_node_from_all_streams streams "b").0 "a" ≡ true)
    × (contains (remove_node_from_all_streams streams "b").1 "s::0" ≡ true)
unfolding program
remove_node_from_all_streams_lem_example =
    remove_node_from_all_streams_lem streams "b" (refl, (refl, tt)) "s::0" "a"

perform-Refines_example :
    (is_set_up (perform streams (add_inbound "t::0" "a")) "t::0" ≡ true)
    × (is_neighbor (perform streams (add_inbound "t::0" "a")) "t::0" "a" ≡ true)
unfolding program
perform-Refines_example = perform-Refines streams (add_inbound "t::0" "a") "t::0" "a"
