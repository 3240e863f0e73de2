-- ===== src/Overlay.antt =====
-- src/logic/OverlayTopology.ts: the neighbours that a tracker gives to the nodes of a stream.
pub mod Links
pub mod Updates
pub mod Relinks
pub mod Instructions
pub mod Sizes
pub mod Degrees
pub mod Rounds
pub mod Announcements
pub mod Randomness
mod Tests
use network_old.Base.{
  ℕ, zero, suc, ◌+◌, ◌-◌, ltb, leb, if◌then◌else◌, Bool, true, false, not, ◌&&◌, List, [], ◌∷◌,
  ◌++◌, Option, none, some, Result, ok, err, length, take, keep_if, is_empty, Eq, ◌==◌, contains,
  add, add_all, delete, of_list, Dict, keys, lookup, insert, remove, update, has_key,
}

abbrev pub Nodes : Type 0 → Type 0
Nodes N = Dict N (List N)

-- `N` is the type of node ids, texts in the code. A set of neighbours is a list.
pub record OverlayTopology (N : Type 0) : Type 0 where
  pub max_neighbors_per_node : ℕ
  pub nodes : Nodes N

-- The functions for random choices, as the constructor takes them. The number tells the calls of
-- one run apart, so that each may choose anew.
pub record Choices (N : Type 0) : Type 0 where
  pub shuffle_array : ℕ → List N → List N
  pub pick_random_element : ℕ → N → List N → N

pub data TopologyError : Type 0 where
  invariant_violated : TopologyError

abbrev pub or_empty : {N : Type 0} → Option (List N) → List N
or_empty none = []
or_empty (some s) = s

abbrev pub new_topology : {N : Type 0} → ℕ → OverlayTopology N
new_topology n = record { max_neighbors_per_node = n; nodes = [] }

-- A topology, and the set of updated nodes.
abbrev pub Progress : Type 0 → Type 0
Progress N = OverlayTopology N × List N

module _ {N : Type 0} ⦃e : Eq N⦄ where
  unfoldable pub neighbors_in : Nodes N → N → List N
  neighbors_in m n = or_empty (lookup n m)

  pub get_neighbors : OverlayTopology N → N → List N
  unfolding neighbors_in
  get_neighbors t n = neighbors_in t.nodes n

  pub has_node : OverlayTopology N → N → Bool
  has_node t n = has_key n t.nodes

  pub get_number_of_nodes : OverlayTopology N → ℕ
  get_number_of_nodes t = length (keys t.nodes)

  unfoldable pub is_empty_topology : OverlayTopology N → Bool
  is_empty_topology t = is_empty t.nodes

  -- `nodes[n].add(m)` and `nodes[n].delete(m)`.
  unfoldable pub add_link : N → N → Nodes N → Nodes N
  add_link n m = update n (λ s. add s m)

  unfoldable pub delete_link : N → N → Nodes N → Nodes N
  delete_link n m = update n (λ s. delete s m)

  -- The same for each node of a list.
  unfoldable pub add_links : List N → N → Nodes N → Nodes N
  add_links [] m nodes = nodes
  add_links (n ∷ ns) m nodes = add_links ns m (add_link n m nodes)

  unfoldable pub delete_links : List N → N → Nodes N → Nodes N
  delete_links [] m nodes = nodes
  delete_links (n ∷ ns) m nodes = delete_links ns m (delete_link n m nodes)

  -- The reported neighbours that are known, without the node itself.
  unfoldable pub known_neighbors : Nodes N → N → List N → List N
  known_neighbors nodes node_id ns =
      keep_if (λ n. not (n == node_id)) (keep_if (λ n. has_key n nodes) ns)

  unfoldable pub update_nodes : N → List N → Nodes N → Nodes N
  update_nodes node_id ns nodes =
      let known = known_neighbors nodes node_id ns in
      let linked = add_links known node_id (insert node_id (of_list known) nodes) in
      delete_links (keep_if (λ n. not (contains (neighbors_in linked node_id) n)) (keys linked))
        node_id linked

  -- `update`
  unfoldable pub update_node : OverlayTopology N → N → List N → OverlayTopology N
  unfolding update_nodes
  update_node t node_id ns = record t { nodes = update_nodes node_id ns t.nodes }

  unfoldable pub leave : OverlayTopology N → N → OverlayTopology N × List N
  leave t node_id = elim (lookup node_id t.nodes) [
    | none ↦ (t, [])
    | some ns ↦ (record t { nodes = remove node_id (delete_links ns node_id t.nodes) }, ns)
  ]

  -- `numOfMissingNeighbors` where it is positive, and 0 elsewhere.
  unfoldable pub num_of_missing_neighbors : OverlayTopology N → N → ℕ
  num_of_missing_neighbors t node_id =
      t.max_neighbors_per_node - length (neighbors_in t.nodes node_id)

  -- The first part of `formInstructions`: excess neighbours are given up.
  unfoldable pub reduce_neighbors : Choices N → OverlayTopology N → N → Progress N
  reduce_neighbors c t node_id =
      let own = neighbors_in t.nodes node_id in
      if ltb t.max_neighbors_per_node (length own)
      then (
        update_node t node_id (take t.max_neighbors_per_node (c.shuffle_array 0 own)),
        add [] node_id,
      )
      else (t, [])

  -- The other nodes that are no neighbours yet, with an open slot or without.
  unfoldable pub candidates : (List N → Bool) → N → Nodes N → List N
  candidates open_slot node_id [] = []
  candidates open_slot node_id ((n, ns) ∷ m) =
      if open_slot ns && not (contains ns node_id) && not (n == node_id)
      then n ∷ candidates open_slot node_id m
      else candidates open_slot node_id m

  -- The second part: nodes with open slots become neighbours.
  unfoldable pub add_neighbors : Choices N → N → Progress N → Progress N
  add_neighbors c node_id (t, updated) =
      let open_slots =
        candidates (λ ns. ltb (length ns) t.max_neighbors_per_node) node_id t.nodes in
      let neighbors_to_add =
        take (num_of_missing_neighbors t node_id) (c.shuffle_array 1 open_slots) in
      if ltb 0 (num_of_missing_neighbors t node_id) && not (is_empty neighbors_to_add)
      then (
        update_node t node_id (neighbors_in t.nodes node_id ++ neighbors_to_add),
        add_all (add updated node_id) neighbors_to_add,
      )
      else (t, updated)

  -- The link from `n1` to `n2` gives way to links of both to the node.
  unfoldable pub relink : N → N → N → Nodes N → Nodes N
  relink node_id n1 n2 nodes = add_link node_id n2 (
      add_link node_id n1
        (add_link n2 node_id (add_link n1 node_id (delete_link n2 n1 (delete_link n1 n2 nodes)))))

  -- What a round does with its candidates for `n2`.
  unfoldable pub exchange : Choices N → N → N → List N → Progress N → List N → Progress N × List N
  exchange c node_id n1 targets (t, updated) [] = ((t, updated), targets)
  exchange c node_id n1 targets (t, updated) (x ∷ xs) =
      let n2 = c.pick_random_element (length targets) x xs in
      (
        (record t { nodes = relink node_id n1 n2 t.nodes }, add (add (add updated node_id) n1) n2),
        keep_if (λ n. not (n == n2)) targets,
      )

  -- One round for the target `n1`; the targets are those behind it.
  unfoldable pub reconnect_once : Choices N → N → N → List N → Progress N → Progress N × List N
  unfolding exchange
  reconnect_once c node_id n1 targets (t, updated) =
      exchange c node_id n1 targets (t, updated)
        (keep_if (λ n. not (contains (neighbors_in t.nodes n) node_id)) (neighbors_in t.nodes n1))

  -- The loop of the third part. The head of the list is the end of the array, so that the code's
  -- `reverse` is gone. It is given as many rounds as there are targets.
  unfoldable pub reconnect : ℕ → Choices N → N → List N → Progress N → Progress N
  reconnect zero c node_id targets p = p
  reconnect (suc fuel) c node_id [] p = p
  reconnect (suc fuel) c node_id (n1 ∷ targets) p =
      let r = reconnect_once c node_id n1 targets p in
      let rest = reconnect fuel c node_id r.1 r.0 in
      if ltb 1 (num_of_missing_neighbors p.0 node_id) then rest else p

  unfoldable pub disconnect_neighbors : Choices N → N → Progress N → Progress N
  disconnect_neighbors c node_id (t, updated) =
      let targets =
        c.shuffle_array 2
          (candidates (λ ns. leb t.max_neighbors_per_node (length ns)) node_id t.nodes) in
      if ltb 1 (num_of_missing_neighbors t node_id)
      then reconnect (length targets) c node_id targets (t, updated)
      else (t, updated)

  unfoldable pub has_self_neighbor : Nodes N → List N → Bool
  has_self_neighbor nodes [] = false
  has_self_neighbor nodes (n ∷ ns) =
      if contains (neighbors_in nodes n) n then true else has_self_neighbor nodes ns

  unfoldable pub instructions_for : Nodes N → List N → Dict N (List N)
  instructions_for nodes [] = []
  instructions_for nodes (n ∷ ns) = (n, neighbors_in nodes n) ∷ instructions_for nodes ns

  -- The topology and the updated nodes before the check at the end of `formInstructions`.
  unfoldable pub improve : Choices N → OverlayTopology N → N → Bool → Progress N
  improve c t node_id force_generate =
      let (t', updated) =
        disconnect_neighbors c node_id (add_neighbors c node_id (reduce_neighbors c t node_id)) in
      (t', if force_generate then add updated node_id else updated)

  unfoldable pub form_instructions :
      Choices N
      → OverlayTopology N
      → N
      → Bool
      → Result TopologyError (OverlayTopology N × Dict N (List N))
  form_instructions c t node_id force_generate =
      if has_key node_id t.nodes
      then (let (t', updated) = improve c t node_id force_generate in
          if has_self_neighbor t'.nodes updated
          then err invariant_violated
          else ok (t', instructions_for t'.nodes updated))
      else ok (t, [])
