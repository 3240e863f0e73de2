-- ===== src/Tracker.antt =====
-- src/logic/Tracker.ts: the overlays of all streams, and the instructions that a tracker sends.
pub mod Outcomes
pub mod Steps
pub mod Validity
pub mod Counts
pub mod Sends
mod Tests
use network_old.Base.{
  ℕ, suc, Bool, true, false, not, List, [], ◌∷◌, ◌++◌, Option, none, some, Result, ok, err,
  if◌then◌else◌, Eq, ◌==◌, contains, add, delete, of_list, keep_if, Dict, keys, lookup, insert,
  remove, update, has_key, is_minus_one,
}
use network_old.Identifiers.{StreamStatus, StatusStreams}
use network_old.Counters.{Counters, set_or_increment, filter_status, remove_node, remove_stream}
use network_old.Overlay.{
  OverlayTopology, Choices, TopologyError, new_topology, update_node, leave, is_empty_topology,
  form_instructions,
}

-- `N` is the type of node ids, `K` that of stream keys, and `R` that of the round trip times that a
-- node reports. `calls` counts the calls of `formInstructions`, so that each may choose anew.
pub record Tracker (N K R : Type 0) : Type 0 where
  pub max_neighbors_per_node : ℕ
  pub overlay_per_stream : Dict K (OverlayTopology N)
  pub overlay_connection_rtts : Dict N R
  pub instruction_counter : Counters N K
  pub storage_nodes : List N
  pub calls : ℕ

-- A call of `sendInstruction`.
pub record Instruction (N K : Type 0) : Type 0 where
  pub node_id : N
  pub stream_key : K
  pub new_neighbors : List N
  pub counter : ℕ

-- `missing` is the error of a method called on `undefined`.
pub data TrackerError : Type 0 where
  topology : TopologyError → TrackerError
  missing : TrackerError

pub record Status (N K R : Type 0) : Type 0 where
  pub streams : StatusStreams N K
  pub rtts : R
  pub single_stream : Bool

-- The new state and the instructions sent. What a method that throws has done before is not kept.
abbrev pub Outcome : Type 0 → Type 0 → Type 0 → Type 0
Outcome N K R = Result TrackerError (Tracker N K R × List (Instruction N K))

abbrev pub after_sending : {N K R : Type 0} → List (Instruction N K) → Outcome N K R → Outcome N K R
after_sending sent (ok (t, more)) = ok (t, sent ++ more)
after_sending sent (err e) = err e

-- One statement after another.
abbrev pub and_then :
    {N K R : Type 0} → Outcome N K R → (Tracker N K R → Outcome N K R) → Outcome N K R
and_then (ok (t, sent)) f = after_sending sent (f t)
and_then (err e) f = err e

-- `forEach`
unfoldable pub for_each :
    {A N K R : Type 0}
    → List A
    → (A → Tracker N K R → Outcome N K R)
    → Tracker N K R
    → Outcome N K R
for_each [] f t = ok (t, [])
for_each (a ∷ rest) f t = and_then (f a t) (for_each rest f)

-- The overlays of the streams that a status does not name.
pub other_overlays :
    {N K : Type 0} ⦃ek : Eq K⦄ → List K → Dict K (OverlayTopology N) → Dict K (OverlayTopology N)
other_overlays streams = keep_if (λ entry. not (contains streams entry.0))

module _ {N K R : Type 0} ⦃en : Eq N⦄ ⦃ek : Eq K⦄ where
  pub new_tracker : ℕ → Tracker N K R
  new_tracker max = record {
    max_neighbors_per_node = max;
    overlay_per_stream = [];
    overlay_connection_rtts = [];
    instruction_counter = [];
    storage_nodes = [];
    calls = 0;
  }

  pub on_node_connected : N → Bool → Tracker N K R → Tracker N K R
  on_node_connected node is_storage t =
      if is_storage then record t { storage_nodes = add t.storage_nodes node } else t

  -- The ids that the response carries.
  pub find_storage_nodes : N → Tracker N K R → List N
  find_storage_nodes source t = keep_if (λ s. not (s == source)) t.storage_nodes

  pub create_new_overlay_topologies : List K → Tracker N K R → Tracker N K R
  create_new_overlay_topologies [] t = t
  create_new_overlay_topologies (stream ∷ streams) t = create_new_overlay_topologies streams (
      if has_key stream t.overlay_per_stream then t else record t {
        overlay_per_stream =
            insert stream (new_topology t.max_neighbors_per_node) t.overlay_per_stream;
      })

  -- The body of the loop over the instructions of one stream.
  pub send : K → N × List N → Tracker N K R → Outcome N K R
  send stream (node, new_neighbors) t =
      let (counter', value) = set_or_increment t.instruction_counter node stream in
      ok (
        record t { instruction_counter = counter' },
        record {
          node_id = node;
          stream_key = stream;
          new_neighbors = new_neighbors;
          counter = value;
        }
            ∷ [],
      )

  pub send_formed :
      K → Tracker N K R → Result TopologyError (OverlayTopology N × Dict N (List N)) → Outcome N K R
  unfolding send
  send_formed stream t (err e) = err (topology e)
  send_formed stream t (ok (overlay, instructions)) =
      for_each instructions (send stream) (record t {
        overlay_per_stream = insert stream overlay t.overlay_per_stream;
        calls = suc t.calls;
      })

  -- The body of the loop over the streams.
  pub form_and_send_on : (ℕ → Choices N) → N → Bool → K → Tracker N K R → Outcome N K R
  unfolding send_formed
  form_and_send_on choose node force_generate stream t = elim (lookup stream t.overlay_per_stream) [
    | none ↦ ok (t, [])
    | some overlay ↦
        send_formed stream t (form_instructions (choose t.calls) overlay node force_generate)
  ]

  pub form_and_send_instructions :
      (ℕ → Choices N) → N → List K → Bool → Tracker N K R → Outcome N K R
  unfolding form_and_send_on
  form_and_send_instructions choose node streams force_generate =
      for_each streams (form_and_send_on choose node force_generate)

  -- The state once the node has left the overlay, which the tracker's own entry is too.
  pub left : K → OverlayTopology N → N → Tracker N K R → Tracker N K R
  left stream overlay node t = record t {
    overlay_per_stream = update stream (λ _. (leave overlay node).0) t.overlay_per_stream;
    instruction_counter = remove_node t.instruction_counter node;
  }

  pub leave_and_check_empty_overlay :
      (ℕ → Choices N) → N → K × OverlayTopology N → Tracker N K R → Outcome N K R
  unfolding left form_and_send_instructions
  leave_and_check_empty_overlay choose node (stream, overlay) t =
      let t' = left stream overlay node t in
      if is_empty_topology (leave overlay node).0
      then ok (
        record t' {
          overlay_per_stream = remove stream t'.overlay_per_stream;
          instruction_counter = remove_stream t'.instruction_counter stream;
        },
        [],
      )
      else for_each (leave overlay node).1
          (λ neighbor. form_and_send_instructions choose neighbor (stream ∷ []) true) t'

  pub update_on : N → K × StreamStatus N → Tracker N K R → Outcome N K R
  update_on node (stream, entry) t = elim (lookup stream t.overlay_per_stream) [
    | none ↦ err missing
    | some overlay ↦ ok (
      record t {
        overlay_per_stream =
            insert stream
              (update_node overlay node (of_list (entry.inbound_nodes ++ entry.outbound_nodes)))
              t.overlay_per_stream;
      },
      [],
    )
  ]

  -- `updateNode`
  pub update_on_all :
      (ℕ → Choices N) → N → StatusStreams N K → StatusStreams N K → Tracker N K R → Outcome N K R
  unfolding update_on other_overlays leave_and_check_empty_overlay
  update_on_all choose node filtered_streams all_streams t =
      and_then (for_each filtered_streams (update_on node) t) (λ t'.
        for_each (other_overlays (keys all_streams) t'.overlay_per_stream)
          (leave_and_check_empty_overlay choose node) t')

  pub leave_stream : (ℕ → Choices N) → N → K → Tracker N K R → Outcome N K R
  unfolding leave_and_check_empty_overlay
  leave_stream choose node stream t = elim (lookup stream t.overlay_per_stream) [
    | none ↦ err missing
    | some overlay ↦ leave_and_check_empty_overlay choose node (stream, overlay) t
  ]

  pub update_node_on_stream :
      (ℕ → Choices N) → N → StatusStreams N K → Tracker N K R → Outcome N K R
  unfolding update_on leave_stream
  update_node_on_stream choose node [] t = ok (t, [])
  update_node_on_stream choose node ((stream, entry) ∷ []) t =
      if is_minus_one entry.counter
      then leave_stream choose node stream t
      else update_on node (stream, entry) t
  update_node_on_stream choose node (_ ∷ _ ∷ _) t = ok (t, [])

  -- The state before `updateNode`, with the entries that pass the filter. The update of the location
  -- is left out.
  pub received : N → Status N K R → Tracker N K R → Tracker N K R × StatusStreams N K
  unfolding create_new_overlay_topologies
  received source status t =
      let (counter', filtered) = filter_status t.instruction_counter status.streams source in
      (
        create_new_overlay_topologies (keys status.streams) (record t {
          instruction_counter = counter';
          overlay_connection_rtts = insert source status.rtts t.overlay_connection_rtts;
        }),
        filtered,
      )

  pub process_node_status : (ℕ → Choices N) → Status N K R → N → Tracker N K R → Outcome N K R
  unfolding received update_on_all update_node_on_stream form_and_send_instructions
  process_node_status choose status source t =
      let (t', filtered) = received source status t in
      and_then
        (if status.single_stream
          then update_node_on_stream choose source filtered t'
          else update_on_all choose source filtered status.streams t')
        (form_and_send_instructions choose source (keys status.streams) false)

  -- `onNodeDisconnected`, which is `removeNode` but for the metrics.
  pub on_node_disconnected : (ℕ → Choices N) → N → Tracker N K R → Outcome N K R
  unfolding leave_and_check_empty_overlay
  on_node_disconnected choose node t =
      for_each t.overlay_per_stream (leave_and_check_empty_overlay choose node) (record t {
        storage_nodes = delete t.storage_nodes node;
        overlay_connection_rtts = remove node t.overlay_connection_rtts;
      })
