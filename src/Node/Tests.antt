-- ===== src/Node/Tests.antt =====
-- Runs of the node (src/logic/Node.ts), and the theorems at concrete inputs.
use network_old.Base.{
  Bool, Distinct, ◌⊎◌, ℕ, ◌≡◌, refl, String, string_eq, number_eq, true, false, List, [], ◌∷◌, none,
  some, ok, lookup, insert, has_key, delete, contains, length, arith,
}
use network_old.Detector.{
  finite, greater_than, top, new_detector, mark_and_check, mark_gaps, is_invalid_numbering,
  mark_latest,
}
use network_old.Detector.Validity.{IsValid, new_detector-IsValid}
use network_old.Streams.{
  is_node_present, StreamManager, new_state, key_for_detector, detector_of, is_set_up,
  verify_that_is_set_up, state_of, mark_numbers_and_check_that_is_not_duplicate,
}
use network_old.Streams.Marks.{detector_in}
use network_old.Streams.Outbound.{outbound_nodes_of}
use network_old.Buffer.Contents.{contents}
use network_old.Seen.{CacheOperations, IdTexts, add_seen, has_seen, message_id_to_str}
use network_old.Node.{done, new_node, StreamMessage, sent_data, Node, Surroundings}
use network_old.Node.Messages.{on_not_delivered, on_data_received, subscribe_to_stream_on_node}
use network_old.Node.Reception.{IsRest, IsSentOrKept, on_data_received_lem}
use network_old.Node.Delivery.{subscribe_delivers}
use network_old.Node.Failures.{failures, fail_times, hundredth_failure}

-- A cache without a limit.
abbrev list_cache : CacheOperations (List String)
list_cache = record {
  cache_set = λ key c. key ∷ c;
  cache_del = λ key c. delete c key;
  cache_has = λ key c. contains c key;
  cache_length = length;
}

abbrev id_texts : IdTexts String
id_texts = record { stream_text = λ k. k; number_text = λ n. "1-0" }

abbrev surroundings : Surroundings String String String (List String)
surroundings = record {
  cache = list_cache;
  texts = id_texts;
  get_tracker = λ k. "ws://tracker";
  below = λ a b. false;
  is_storage = false;
}

abbrev node_of : StreamManager String String → Node String String String (List String) ℕ
node_of streams = record (new_node (some 10) []) { streams = streams }

-- The node has the stream, and no neighbour on it.
abbrev alone : Node String String String (List String) ℕ
alone = node_of (("s::0", new_state) ∷ [])

abbrev in_company : Node String String String (List String) ℕ
in_company =
    node_of (("s::0", record (new_state {N = String}) { outbound_nodes = "a" ∷ "b" ∷ [] }) ∷ [])

abbrev message : StreamMessage String ℕ
message = record {
  message_id = record {
    stream_key = "s::0";
    publisher_id = "p";
    msg_chain_id = "c";
    number = record { a = finite 1; b = finite 0 };
  };
  prev_msg_ref = none;
  content = 7;
}

program : Unit {0}
unfolding outbound_nodes_of contents detector_in key_for_detector detector_of is_set_up
    verify_that_is_set_up state_of mark_numbers_and_check_that_is_not_duplicate mark_and_check
    mark_gaps is_invalid_numbering mark_latest new_detector greater_than has_seen add_seen
    message_id_to_str lookup insert has_key
program = tt

new_to_alone :
    (mark_numbers_and_check_that_is_not_duplicate alone.streams message.message_id none).1 ≡ ok true
unfolding program
new_to_alone = refl

new_to_company :
    (mark_numbers_and_check_that_is_not_duplicate in_company.streams message.message_id none).1
    ≡ ok true
unfolding program
new_to_company = refl

outbound_of_company : outbound_nodes_of in_company.streams "s::0" ≡ some ("a" ∷ "b" ∷ [])
unfolding program
outbound_of_company = refl

a_and_b-Distinct : Distinct {A = String} ("a" ∷ "b" ∷ [])
a_and_b-Distinct = (refl, (refl, tt))

on_data_received_lem_example :
    let r = on_data_received surroundings message (some "a") in_company in
    let text = message_id_to_str surroundings.texts message.message_id in
    let marked_seen = surroundings.cache.cache_has text in_company.seen_but_not_propagated in
    let streams =
      (mark_numbers_and_check_that_is_not_duplicate in_company.streams message.message_id none).0 in
    (((◌≡◌ {A = Bool} true true) ⊎ (marked_seen ≡ true))
      × (r.0.streams ≡ streams)
      × ((targets : List String) × IsRest (some "a") ("a" ∷ "b" ∷ []) targets
          × IsSentOrKept surroundings message (some "a") targets in_company r))
    ⊎ ((◌≡◌ {A = Bool} true false)
        × (marked_seen ≡ false)
        × (r ≡ done (record in_company { streams = streams })))
on_data_received_lem_example =
    on_data_received_lem surroundings message (some "a") in_company ("a" ∷ "b" ∷ []) true
      (omega arith) outbound_of_company a_and_b-Distinct new_to_company

nothing_waits : contents alone.message_buffer "s::0" ≡ []
unfolding program
nothing_waits = refl

outbound_of_alone : outbound_nodes_of alone.streams "s::0" ≡ some []
unfolding program
outbound_of_alone = refl

detector-IsValid : IsValid (detector_in alone.streams "s::0" (key_for_detector message.message_id))
unfolding program
detector-IsValid = new_detector-IsValid

is_finite : greater_than top message.message_id.number ≡ true
unfolding program
is_finite = refl

remembered :
    has_seen list_cache id_texts message.message_id
      (add_seen list_cache id_texts message.message_id [])
    ≡ true
unfolding program
remembered = refl

subscribe_delivers_example :
    let (n1, r1) = on_data_received surroundings message (some "a") alone in
    let (n2, r2) = subscribe_to_stream_on_node surroundings false "b" "s::0" n1 in
    (r1 ≡ ok tt)
    × (n1.effects ≡ [])
    × (r2 ≡ ok tt)
    × (n2.effects ≡ sent_data "b" message ∷ [])
    × (contents n2.message_buffer "s::0" ≡ [])
subscribe_delivers_example =
    subscribe_delivers surroundings message (some "a") alone [] "b" (omega arith) nothing_waits
      outbound_of_alone refl refl detector-IsValid is_finite new_to_alone remembered

no_failures : failures "a" in_company ≡ 0
unfolding failures lookup
no_failures = refl

hundredth_failure_example :
    let few = fail_times surroundings 3 "a" in_company in
    let (n, r) = on_not_delivered surroundings "a" (fail_times surroundings 99 "a" in_company) in
    (failures "a" few ≡ 3)
    × (few.streams ≡ in_company.streams)
    × (few.effects ≡ [])
    × (r ≡ ok tt)
    × (is_node_present n.streams "a" ≡ false)
    × (failures "a" n ≡ 0)
hundredth_failure_example =
    hundredth_failure surroundings 3 "a" in_company no_failures (omega arith)
