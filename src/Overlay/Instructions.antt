-- ===== src/Overlay/Instructions.antt =====
-- `formInstructions` of src/logic/OverlayTopology.ts keeps the links valid and never throws.
use network_old.Base.{
  ℕ, zero, suc, leb, ◌≡◌, refl, sym, ◌∙◌, Bool, true, false, not, List, [], ◌∷◌, arith, Eq, ◌==◌,
  has_key, contains, contains-keep_if, keep_if, keep_if-Distinct, Distinct, length, keys,
  if◌then◌else◌, ok, if_elim, lookup,
}
use network_old.Overlay.{
  Nodes, OverlayTopology, Choices, Progress, neighbors_in, update_node, reduce_neighbors,
  candidates, add_neighbors, relink, exchange, reconnect_once, reconnect, disconnect_neighbors,
  has_self_neighbor, instructions_for, improve, form_instructions,
}
use network_old.Overlay.Links.{linked}
use network_old.Overlay.Updates.{IsValid, has_key-update_nodes, update_nodes-IsValid}
use network_old.Overlay.Relinks.{Fits, has_key-relink, linked-relink, relink-IsValid}

-- What the code relies on: a shuffled array holds the same nodes, none of them twice, and the
-- element that is picked is one of the array.
pub record IsChoice {N : Type 0} ⦃e : Eq N⦄ (c : Choices N) : Type 0 where
  pub shuffled : (k : ℕ) (ns : List N) (a : N) → contains (c.shuffle_array k ns) a ≡ contains ns a
  pub shuffled_distinct : (k : ℕ) (ns : List N) → Distinct ns → Distinct (c.shuffle_array k ns)
  pub picked :
      (k : ℕ) (n : N) (ns : List N) → contains (n ∷ ns) (c.pick_random_element k n ns) ≡ true

module _ {N : Type 0} ⦃e : Eq N⦄ where
  -- The links are valid and the node is there.
  pub record IsReady (m : Nodes N) (id : N) : Type 0 where
    pub valid : IsValid m
    pub present : has_key id m ≡ true

  update_node-IsReady :
      (t : OverlayTopology N) (id : N) (ns : List N)
      → IsReady t.nodes id
      → IsReady (update_node t id ns).nodes id
  unfolding update_node
  update_node-IsReady t id ns r = record {
    valid = update_nodes-IsValid id ns t.nodes r.valid;
    present = ground (arith, has_key-update_nodes id ns t.nodes id, e.equals_iff id id);
  }

  pub reduce_neighbors-IsReady :
      (c : Choices N) (t : OverlayTopology N) (id : N)
      → IsReady t.nodes id
      → IsReady (reduce_neighbors c t id).0.nodes id
  unfolding reduce_neighbors
  reduce_neighbors-IsReady c t id r =
      if_elim (λ (q : Progress N). IsReady q.0.nodes id) _ (update_node-IsReady t id _ r) r

  pub add_neighbors-IsReady :
      (c : Choices N) (id : N) (p : Progress N)
      → IsReady p.0.nodes id
      → IsReady (add_neighbors c id p).0.nodes id
  unfolding add_neighbors
  add_neighbors-IsReady c id (t, updated) r =
      if_elim (λ (q : Progress N). IsReady q.0.nodes id) _ (update_node-IsReady t id _ r) r

  pub linked-cons :
      (n : N) (ns : List N) (m : Nodes N) (a b : N)
      → linked ((n, ns) ∷ m) a b ≡ (if n == a then contains ns b else linked m a b)
  unfolding linked neighbors_in lookup
  linked-cons n ns m a b = ground arith

  -- A candidate is another node, and no neighbour.
  pub candidates-linked :
      (p : List N → Bool) (id : N) (m : Nodes N)
      → Distinct (keys m)
      → (a : N) → contains (candidates p id m) a ≡ true
      → (contains (keys m) a ≡ true) × (linked m a id ≡ false) × ((a == id) ≡ false)
  unfolding candidates
  candidates-linked p id [] d a h = cc
  candidates-linked p id ((n, ns) ∷ m) d a h =
      ground (arith, candidates-linked p id m d.1 a, linked-cons n ns m a id, e.equals_iff n a)

  pub candidates-Distinct :
      (p : List N → Bool) (id : N) (m : Nodes N) → Distinct (keys m) → Distinct (candidates p id m)
  unfolding candidates
  candidates-Distinct p id [] d = tt
  candidates-Distinct p id ((n, ns) ∷ m) d =
      ground (arith, candidates-Distinct p id m d.1, candidates-linked p id m d.1 n)

  -- The targets of the loop: other nodes, none of them twice, that are not linked to the node.
  pub record IsTargets (m : Nodes N) (id : N) (ts : List N) : Type 0 where
    pub distinct : Distinct ts
    pub apart : (a : N) → contains ts a ≡ true → (linked m a id ≡ false) × ((a == id) ≡ false)

  pub pick-Fits :
      (c : Choices N) (m : Nodes N) (id n1 x : N) (xs ts : List N) (k : ℕ)
      → IsChoice c
      → IsReady m id
      → IsTargets m id (n1 ∷ ts)
      → keep_if (λ n. not (contains (neighbors_in m n) id)) (neighbors_in m n1) ≡ x ∷ xs
      → Fits m id n1 (c.pick_random_element k x xs)
  unfolding linked
  pick-Fits c m id n1 x xs ts k ch r t h =
      let n2 = c.pick_random_element k x xs in
      let among : contains (keep_if (λ n. not (contains (neighbors_in m n) id)) (neighbors_in m n1))
            n2
          ≡ true =
        rw h (ch.picked k x xs) in
      let kept =
        contains-keep_if (λ n. not (contains (neighbors_in m n) id)) (neighbors_in m n1) n2 in
      record {
        present = r.present;
        pair = ground (arith, among, kept);
        first = (t.apart n1 (ground (arith, e.equals_iff n1 n1))).0;
        second = ground (arith, among, kept);
        other = (t.apart n1 (ground (arith, e.equals_iff n1 n1))).1;
      }

  relinked-IsTargets :
      (m : Nodes N) (id n1 n2 : N) (ts : List N)
      → IsValid m
      → Fits m id n1 n2
      → IsTargets m id (n1 ∷ ts)
      → IsTargets (relink id n1 n2 m) id (keep_if (λ n. not (n == n2)) ts)
  relinked-IsTargets m id n1 n2 ts v f t = record {
    distinct = keep_if-Distinct (λ n. not (n == n2)) ts t.distinct.1;
    apart = λ a h. ground (
      arith,
      contains-keep_if (λ n. not (n == n2)) ts a,
      t.apart a,
      linked-relink m id n1 n2 v f a id,
      e.equals_iff n1 a,
      e.equals_iff n2 a,
      e.equals_iff a n2,
      e.equals_iff id a,
      e.equals_iff a id,
      t.distinct.0,
    );
  }

  pub exchange-IsReady :
      (c : Choices N) (id n1 : N) (ts : List N) (p : Progress N) (xs : List N)
      → IsChoice c
      → IsReady p.0.nodes id
      → IsTargets p.0.nodes id (n1 ∷ ts)
      → keep_if (λ n. not (contains (neighbors_in p.0.nodes n) id)) (neighbors_in p.0.nodes n1) ≡ xs
      → let r = exchange c id n1 ts p xs in IsReady r.0.0.nodes id × IsTargets r.0.0.nodes id r.1
  unfolding exchange
  exchange-IsReady c id n1 ts (t, updated) [] ch r targets q =
      (r, record { distinct = targets.distinct.1; apart = λ a h. targets.apart a (ground arith) })
  exchange-IsReady c id n1 ts (t, updated) (x ∷ xs) ch r targets q =
      let n2 = c.pick_random_element (length ts) x xs in
      let f = pick-Fits c t.nodes id n1 x xs ts (length ts) ch r targets q in
      (
        record {
          valid = relink-IsValid t.nodes id n1 n2 r.valid f;
          present = has_key-relink t.nodes id n1 n2 r.valid f id ∙ r.present;
        },
        relinked-IsTargets t.nodes id n1 n2 ts r.valid f targets,
      )

  -- Enough or not, the rounds keep the links valid.
  reconnect-IsReady :
      (fuel : ℕ) (c : Choices N) (id : N) (ts : List N) (p : Progress N)
      → IsChoice c
      → IsReady p.0.nodes id
      → IsTargets p.0.nodes id ts
      → IsReady (reconnect fuel c id ts p).0.nodes id
  unfolding reconnect
  reconnect-IsReady zero c id ts p ch r t = r
  reconnect-IsReady (suc fuel) c id [] p ch r t = r
  reconnect-IsReady (suc fuel) c id (n1 ∷ ts) (t, updated) ch r targets =
      let (ready, left) = exchange-IsReady c id n1 ts (t, updated) _ ch r targets refl in
      if_elim (λ (q : Progress N). IsReady q.0.nodes id) _
        (reconnect-IsReady fuel c id (reconnect_once c id n1 ts (t, updated)).1
          (reconnect_once c id n1 ts (t, updated)).0 ch (unfold reconnect_once in ready)
          (unfold reconnect_once in left))
        r

  -- The shuffled full nodes are targets.
  pub found-IsTargets :
      (c : Choices N) (id : N) (t : OverlayTopology N)
      → IsChoice c
      → IsReady t.nodes id
      → IsTargets t.nodes id (
          c.shuffle_array 2
            (candidates (λ ns. leb t.max_neighbors_per_node (length ns)) id t.nodes))
  found-IsTargets c id t ch r =
      let full : List N → Bool = λ ns. leb t.max_neighbors_per_node (length ns) in
      let others = candidates full id t.nodes in
      record {
        distinct =
            ch.shuffled_distinct 2 others (candidates-Distinct full id t.nodes r.valid.keyed);
        apart = λ a h.
            let (_, unlinked, other) =
              candidates-linked full id t.nodes r.valid.keyed a
                (sym (ch.shuffled 2 others a) ∙ h) in
            (unlinked, other);
      }

  disconnect_neighbors-IsReady :
      (c : Choices N) (id : N) (p : Progress N)
      → IsChoice c
      → IsReady p.0.nodes id
      → IsReady (disconnect_neighbors c id p).0.nodes id
  unfolding disconnect_neighbors
  disconnect_neighbors-IsReady c id (t, updated) ch r =
      if_elim (λ (q : Progress N). IsReady q.0.nodes id) _
        (reconnect-IsReady _ c id _ (t, updated) ch r (found-IsTargets c id t ch r)) r

  pub improve-IsReady :
      (c : Choices N) (t : OverlayTopology N) (id : N) (force : Bool)
      → IsChoice c
      → IsReady t.nodes id
      → IsReady (improve c t id force).0.nodes id
  unfolding improve
  improve-IsReady c t id force ch r =
      disconnect_neighbors-IsReady c id _ ch
        (add_neighbors-IsReady c id _ (reduce_neighbors-IsReady c t id r))

  no_self_neighbor : (m : Nodes N) (ns : List N) → IsValid m → has_self_neighbor m ns ≡ false
  unfolding has_self_neighbor linked
  no_self_neighbor m [] v = refl
  no_self_neighbor m (n ∷ ns) v = ground (arith, v.irreflexive n, no_self_neighbor m ns v)

  -- `formInstructions` does not throw on valid links: its check for a node that is its own
  -- neighbour never fails. It leaves the links valid and the node in its place, and its
  -- instructions give the neighbours that the updated nodes have now.
  pub form_instructions_ok :
      (c : Choices N) (t : OverlayTopology N) (id : N) (force : Bool)
      → IsChoice c
      → IsValid t.nodes
      → has_key id t.nodes ≡ true
      → let (t', updated) = improve c t id force in
        (form_instructions c t id force ≡ ok (t', instructions_for t'.nodes updated))
        × IsValid t'.nodes
        × (has_key id t'.nodes ≡ true)
  unfolding form_instructions
  form_instructions_ok c t id force ch v here =
      let r = improve-IsReady c t id force ch (record { valid = v; present = here }) in
      (
        rw (here, no_self_neighbor (improve c t id force).0.nodes (improve c t id force).1 r.valid),
        r.valid,
        r.present,
      )

  -- A node that is not in the overlay changes nothing.
  pub form_instructions_absent :
      (c : Choices N) (t : OverlayTopology N) (id : N) (force : Bool)
      → has_key id t.nodes ≡ false
      → form_instructions c t id force ≡ ok (t, [])
  unfolding form_instructions
  form_instructions_absent c t id force h = rw h refl
