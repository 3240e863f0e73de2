-- ===== src/Overlay/Announcements.antt =====
-- Which nodes `formInstructions` (src/logic/OverlayTopology.ts) instructs.
use network_old.Base.{
  ℕ, zero, suc, ltb, ◌≡◌, refl, Bool, true, false, not, ◌||◌, List, [], ◌∷◌, ◌++◌, none, some,
  arith, Eq, has_key, contains, contains-append, contains-take, contains-add, contains-add_all, add,
  add_all, take, length, lookup, if◌then◌else◌, if_elim, keep_if,
}
use network_old.Overlay.{
  Nodes, OverlayTopology, Choices, Progress, neighbors_in, num_of_missing_neighbors, update_node,
  reduce_neighbors, candidates, add_neighbors, exchange, reconnect_once, reconnect,
  disconnect_neighbors, improve, instructions_for,
}
use network_old.Overlay.Links.{linked}
use network_old.Overlay.Updates.{IsValid, linked-update_nodes}
use network_old.Overlay.Relinks.{linked-relink}
use network_old.Overlay.Instructions.{
  IsChoice, IsReady, IsTargets, exchange-IsReady, pick-Fits, add_neighbors-IsReady,
  reduce_neighbors-IsReady, found-IsTargets,
}

module _ {N : Type 0} ⦃e : Eq N⦄ where
  -- A node that has a neighbour which it did not have at first is among the updated ones.
  IsAnnounced : Nodes N → Progress N → Type 0
  IsAnnounced m p =
      (a b : N) → linked p.0.nodes a b ≡ true → (linked m a b || contains p.1 a) ≡ true

  contains-neighbors_in : (m : Nodes N) (a b : N) → contains (neighbors_in m a) b ≡ linked m a b
  unfolding linked
  contains-neighbors_in m a b = refl

  reduce_neighbors-IsAnnounced :
      (c : Choices N) (t : OverlayTopology N) (id : N)
      → IsChoice c
      → IsReady t.nodes id
      → IsAnnounced t.nodes (reduce_neighbors c t id)
  unfolding reduce_neighbors update_node IsAnnounced
  reduce_neighbors-IsAnnounced c t id ch r = if_elim (IsAnnounced t.nodes) _ reduced unchanged
    where
      own : List N
      own = neighbors_in t.nodes id

      kept : List N
      kept = take t.max_neighbors_per_node (c.shuffle_array 0 own)

      unchanged : IsAnnounced t.nodes (t, [])
      unchanged a b h = ground arith

      reduced : IsAnnounced t.nodes (update_node t id kept, add [] id)
      reduced a b h = ground (
        arith,
        linked-update_nodes id kept t.nodes a b,
        contains-take t.max_neighbors_per_node (c.shuffle_array 0 own) a,
        contains-take t.max_neighbors_per_node (c.shuffle_array 0 own) b,
        ch.shuffled 0 own a,
        ch.shuffled 0 own b,
        contains-neighbors_in t.nodes id a,
        contains-neighbors_in t.nodes id b,
        r.valid.symmetric a id,
        e.equals_iff id a,
        e.equals_iff id b,
        h,
      )

  add_neighbors-IsAnnounced :
      (m : Nodes N) (c : Choices N) (t : OverlayTopology N) (updated : List N) (id : N)
      → IsReady t.nodes id
      → IsAnnounced m (t, updated)
      → IsAnnounced m (add_neighbors c id (t, updated))
  unfolding add_neighbors update_node IsAnnounced
  add_neighbors-IsAnnounced m c t updated id r w = if_elim (IsAnnounced m) _ grown w
    where
      own : List N
      own = neighbors_in t.nodes id

      added : List N
      added = take (num_of_missing_neighbors t id) (
          c.shuffle_array 1
            (candidates (λ ns. ltb (length ns) t.max_neighbors_per_node) id t.nodes))

      grown : IsAnnounced m (update_node t id (own ++ added), add_all (add updated id) added)
      grown a b h = ground (
        arith,
        linked-update_nodes id (own ++ added) t.nodes a b,
        contains-append own added a,
        contains-add_all (add updated id) added a,
        contains-add updated id a,
        contains-neighbors_in t.nodes id a,
        r.valid.symmetric a id,
        e.equals_iff id a,
        e.equals_iff id b,
        w a b,
        h,
      )

  exchange-IsAnnounced :
      (m : Nodes N) (c : Choices N) (t : OverlayTopology N) (updated : List N) (id n1 : N)
      → (ts xs : List N) → IsChoice c
      → IsReady t.nodes id
      → IsTargets t.nodes id (n1 ∷ ts)
      → keep_if (λ n. not (contains (neighbors_in t.nodes n) id)) (neighbors_in t.nodes n1) ≡ xs
      → IsAnnounced m (t, updated)
      → IsAnnounced m (exchange c id n1 ts (t, updated) xs).0
  unfolding exchange IsAnnounced
  exchange-IsAnnounced m c t updated id n1 ts [] ch r targets q w a b h = w a b h
  exchange-IsAnnounced m c t updated id n1 ts (x ∷ xs) ch r targets q w a b h =
      let n2 = c.pick_random_element (length ts) x xs in
      let f = pick-Fits c t.nodes id n1 x xs ts (length ts) ch r targets q in
      ground (
        arith,
        linked-relink t.nodes id n1 n2 r.valid f a b,
        w a b,
        h,
        contains-add (add (add updated id) n1) n2 a,
        contains-add (add updated id) n1 a,
        contains-add updated id a,
      )

  reconnect-IsAnnounced :
      (fuel : ℕ) (m : Nodes N) (c : Choices N) (id : N) (ts : List N) (p : Progress N)
      → IsChoice c
      → IsReady p.0.nodes id
      → IsTargets p.0.nodes id ts
      → IsAnnounced m p
      → IsAnnounced m (reconnect fuel c id ts p)
  unfolding reconnect
  reconnect-IsAnnounced zero m c id ts p ch r targets w = w
  reconnect-IsAnnounced (suc fuel) m c id [] p ch r targets w = w
  reconnect-IsAnnounced (suc fuel) m c id (n1 ∷ ts) (t, updated) ch r targets w =
      let n2s =
        keep_if (λ n. not (contains (neighbors_in t.nodes n) id)) (neighbors_in t.nodes n1) in
      let (ready, left) = exchange-IsReady c id n1 ts (t, updated) n2s ch r targets refl in
      if_elim (IsAnnounced m) _
        (reconnect-IsAnnounced fuel m c id (reconnect_once c id n1 ts (t, updated)).1
          (reconnect_once c id n1 ts (t, updated)).0 ch (unfold reconnect_once in ready)
          (unfold reconnect_once in left)
          (unfold reconnect_once in
            exchange-IsAnnounced m c t updated id n1 ts n2s ch r targets refl w))
        w

  disconnect_neighbors-IsAnnounced :
      (m : Nodes N) (c : Choices N) (t : OverlayTopology N) (updated : List N) (id : N)
      → IsChoice c
      → IsReady t.nodes id
      → IsAnnounced m (t, updated)
      → IsAnnounced m (disconnect_neighbors c id (t, updated))
  unfolding disconnect_neighbors
  disconnect_neighbors-IsAnnounced m c t updated id ch r w =
      if_elim (IsAnnounced m) _
        (reconnect-IsAnnounced _ m c id _ (t, updated) ch r (found-IsTargets c id t ch r) w) w

  lookup-instructions_for :
      (m : Nodes N) (ns : List N) (a : N)
      → lookup a (instructions_for m ns) ≡ (if contains ns a then some (neighbors_in m a) else none)
  unfolding lookup instructions_for
  lookup-instructions_for m [] a = refl
  lookup-instructions_for m (n ∷ ns) a =
      ground (arith, lookup-instructions_for m ns a, e.equals_iff n a)

  -- A node that `formInstructions` gives a neighbour which it did not have is instructed, and so is
  -- the node itself if that is forced; the instruction to a node holds the neighbours that it has
  -- afterwards.
  pub improve_announced :
      (c : Choices N) (t : OverlayTopology N) (id : N) (force : Bool)
      → IsChoice c
      → IsValid t.nodes
      → has_key id t.nodes ≡ true
      → let (t', updated) = improve c t id force in
        ((a b : N)
          → linked t'.nodes a b ≡ true
          → linked t.nodes a b ≡ false
          → lookup a (instructions_for t'.nodes updated) ≡ some (neighbors_in t'.nodes a))
        × (force ≡ true
            → lookup id (instructions_for t'.nodes updated) ≡ some (neighbors_in t'.nodes id))
  unfolding improve IsAnnounced
  improve_announced c t id force ch v here =
      let p1 = reduce_neighbors c t id in
      let r1 = reduce_neighbors-IsReady c t id (record { valid = v; present = here }) in
      let w1 = reduce_neighbors-IsAnnounced c t id ch (record { valid = v; present = here }) in
      let p2 = add_neighbors c id p1 in
      let r2 = add_neighbors-IsReady c id p1 r1 in
      let w2 = add_neighbors-IsAnnounced t.nodes c p1.0 p1.1 id r1 w1 in
      let p3 = disconnect_neighbors c id p2 in
      let w3 = disconnect_neighbors-IsAnnounced t.nodes c p2.0 p2.1 id ch r2 w2 in
      let updated = if force then add p3.1 id else p3.1 in
      (
        λ a b new old. ground (
          arith,
          w3 a b new,
          old,
          contains-add p3.1 id a,
          lookup-instructions_for p3.0.nodes updated a,
        ),
        λ forced. ground (
          arith,
          forced,
          contains-add p3.1 id id,
          e.equals_iff id id,
          lookup-instructions_for p3.0.nodes updated id,
        ),
      )
