-- ===== src/Overlay/Degrees.antt =====
-- How many neighbours `formInstructions` (src/logic/OverlayTopology.ts) leaves to each node.
use network_old.Base.{
  ℕ, zero, suc, ◌≤◌, ◌<◌, ltb, ◌≡◌, refl, sym, ◌∙◌, inl, inr, Bool, true, false, not, List, [], ◌∷◌,
  ◌++◌, arith, Eq, ◌==◌, has_key, contains, contains-append, contains-take, length-append,
  length-take, take, Distinct, length, keys, if_elim, Bool-cases, lookup, keep_if, ltb→lt,
}
use Prim.Native.Nat.{max}
use network_old.Overlay.{
  Nodes, OverlayTopology, Choices, Progress, neighbors_in, num_of_missing_neighbors, update_node,
  reduce_neighbors, candidates, add_neighbors, exchange, reconnect_once, reconnect,
  disconnect_neighbors, improve,
}
use network_old.Overlay.Updates.{IsValid}
use network_old.Overlay.Instructions.{
  IsChoice, IsReady, IsTargets, exchange-IsReady, pick-Fits, add_neighbors-IsReady,
  reduce_neighbors-IsReady, found-IsTargets,
}
use network_old.Overlay.Sizes.{
  degree, degree-relink_self, degree-relink_other, contains-neighbors_in, degree-update_nodes-le,
  degree-update_nodes_other, degree-update_nodes-suc,
}

module _ {N : Type 0} ⦃e : Eq N⦄ where
  -- The node has at most `limit` neighbours, and no other node has more than it had at first, or
  -- than `limit`.
  record IsWithin (limit : ℕ) (first : N → ℕ) (t : OverlayTopology N) (id : N) : Type 0 where
    same_limit : t.max_neighbors_per_node ≡ limit
    own : degree t.nodes id ≤ limit
    others : (a : N) → (id == a) ≡ false → degree t.nodes a ≤ max (first a) limit

  reduce_neighbors-IsWithin :
      (c : Choices N) (t : OverlayTopology N) (id : N)
      → IsChoice c
      → IsReady t.nodes id
      → IsWithin t.max_neighbors_per_node (degree t.nodes) (reduce_neighbors c t id).0 id
  unfolding reduce_neighbors update_node
  reduce_neighbors-IsWithin c t id ch r = elim (Bool-cases (ltb limit (length own))) [
    | inl excess ↦ rw excess (record {
      same_limit = refl;
      own = omega (
        arith,
        degree-update_nodes-le id kept t.nodes r.valid,
        length-take limit (c.shuffle_array 0 own),
      );
      others = λ a other. omega (
        arith,
        degree-update_nodes_other id kept t.nodes a r.valid other (λ h. ground (
          arith,
          contains-take limit (c.shuffle_array 0 own) a h,
          ch.shuffled 0 own a,
          contains-neighbors_in t.nodes id a,
          r.valid.symmetric a id,
        )),
      );
    })
    | inr enough ↦ rw enough (record {
      same_limit = refl;
      own = unfold degree in ground arith;
      others = λ a other. omega arith;
    })
  ]
    where
      limit : ℕ
      limit = t.max_neighbors_per_node

      own : List N
      own = neighbors_in t.nodes id

      kept : List N
      kept = take limit (c.shuffle_array 0 own)

  -- A candidate has the property that is asked of its neighbours.
  candidates-test :
      (p : List N → Bool) (id : N) (m : Nodes N)
      → Distinct (keys m)
      → (a : N) → contains (candidates p id m) a ≡ true
      → (p (neighbors_in m a) ≡ true) × (contains (keys m) a ≡ true)
  unfolding candidates neighbors_in lookup
  candidates-test p id [] d a h = cc
  candidates-test p id ((n, ns) ∷ m) d a h =
      ground (arith, candidates-test p id m d.1 a, e.equals_iff n a)

  -- A node that is added has an open slot.
  degree-added :
      (c : Choices N) (t : OverlayTopology N) (id : N) (n : ℕ) (a : N)
      → IsChoice c
      → IsReady t.nodes id
      → contains
          (take n (
            c.shuffle_array 1
              (candidates (λ ns. ltb (length ns) t.max_neighbors_per_node) id t.nodes)))
          a
        ≡ true
      → degree t.nodes a < t.max_neighbors_per_node
  degree-added c t id n a ch r h =
      let test : List N → Bool = λ ns. ltb (length ns) t.max_neighbors_per_node in
      let among = candidates test id t.nodes in
      let here : contains among a ≡ true =
        sym (ch.shuffled 1 among a) ∙ contains-take n (c.shuffle_array 1 among) a h in
      let open_slot = (candidates-test test id t.nodes r.valid.keyed a here).0 in
      unfold degree in ground (arith, open_slot)

  add_neighbors-IsWithin :
      (c : Choices N) (limit : ℕ) (first : N → ℕ) (t : OverlayTopology N) (updated : List N)
      (id : N)
      → IsChoice c
      → IsReady t.nodes id
      → IsWithin limit first t id
      → IsWithin limit first (add_neighbors c id (t, updated)).0 id
  unfolding add_neighbors update_node
  add_neighbors-IsWithin c limit first t updated id ch r w =
      if_elim (λ (q : Progress N). IsWithin limit first q.0 id) _ grown w
    where
      missing : ℕ
      missing = num_of_missing_neighbors t id

      shuffled : List N
      shuffled =
          c.shuffle_array 1 (candidates (λ ns. ltb (length ns) t.max_neighbors_per_node) id t.nodes)

      added : List N
      added = take missing shuffled

      grown : IsWithin limit first (update_node t id (neighbors_in t.nodes id ++ added)) id
      grown = record {
        same_limit = w.same_limit;
        own =
            unfold num_of_missing_neighbors degree in
            omega (
              arith,
              w.own,
              w.same_limit,
              degree-update_nodes-le id (neighbors_in t.nodes id ++ added) t.nodes r.valid,
              length-append (neighbors_in t.nodes id) added,
              length-take missing shuffled,
            );
        others = λ a other. elim (Bool-cases (contains added a)) [
          | inl new ↦ omega (
            arith,
            w.same_limit,
            degree-update_nodes-suc id (neighbors_in t.nodes id ++ added) t.nodes a r.valid other,
            degree-added c t id missing a ch r new,
          )
          | inr old ↦ omega (
            arith,
            w.others a other,
            degree-update_nodes_other id (neighbors_in t.nodes id ++ added) t.nodes a r.valid other
                (λ h. ground (
                  arith,
                  contains-append (neighbors_in t.nodes id) added a,
                  contains-neighbors_in t.nodes id a,
                  r.valid.symmetric a id,
                )),
          )
        ];
      }

  exchange-IsWithin :
      (c : Choices N) (limit : ℕ) (first : N → ℕ) (t : OverlayTopology N) (updated : List N)
      (id n1 : N)
      → (ts xs : List N) → IsChoice c
      → IsReady t.nodes id
      → IsTargets t.nodes id (n1 ∷ ts)
      → keep_if (λ n. not (contains (neighbors_in t.nodes n) id)) (neighbors_in t.nodes n1) ≡ xs
      → suc (degree t.nodes id) < limit
      → IsWithin limit first t id
      → IsWithin limit first (exchange c id n1 ts (t, updated) xs).0.0 id
  unfolding exchange
  exchange-IsWithin c limit first t updated id n1 ts [] ch r targets q room w = w
  exchange-IsWithin c limit first t updated id n1 ts (x ∷ xs) ch r targets q room w =
      let n2 = c.pick_random_element (length ts) x xs in
      let f = pick-Fits c t.nodes id n1 x xs ts (length ts) ch r targets q in
      record {
        same_limit = w.same_limit;
        own = omega (arith, degree-relink_self t.nodes id n1 n2 r.valid f);
        others = λ a other.
            omega (arith, w.others a other, degree-relink_other t.nodes id n1 n2 r.valid f a other);
      }

  reconnect-IsWithin :
      (fuel : ℕ) (c : Choices N) (limit : ℕ) (first : N → ℕ) (id : N) (ts : List N) (p : Progress N)
      → IsChoice c
      → IsReady p.0.nodes id
      → IsTargets p.0.nodes id ts
      → IsWithin limit first p.0 id
      → IsWithin limit first (reconnect fuel c id ts p).0 id
  unfolding reconnect
  reconnect-IsWithin zero c limit first id ts p ch r targets w = w
  reconnect-IsWithin (suc fuel) c limit first id [] p ch r targets w = w
  reconnect-IsWithin (suc fuel) c limit first id (n1 ∷ ts) (t, updated) ch r targets w =
      let n2s =
        keep_if (λ n. not (contains (neighbors_in t.nodes n) id)) (neighbors_in t.nodes n1) in
      let (ready, left) = exchange-IsReady c id n1 ts (t, updated) n2s ch r targets refl in
      elim (Bool-cases (ltb 1 (num_of_missing_neighbors t id))) [
        | inr done ↦ rw done w
        | inl more ↦
            let room : suc (degree t.nodes id) < limit =
              unfold num_of_missing_neighbors degree in
              omega (arith, ltb→lt 1 (num_of_missing_neighbors t id) more, w.same_limit) in
            rw more (
              reconnect-IsWithin fuel c limit first id (reconnect_once c id n1 ts (t, updated)).1
                (reconnect_once c id n1 ts (t, updated)).0 ch (unfold reconnect_once in ready)
                (unfold reconnect_once in left)
                (unfold reconnect_once in
                  exchange-IsWithin c limit first t updated id n1 ts n2s ch r targets refl room w))
      ]

  disconnect_neighbors-IsWithin :
      (c : Choices N) (limit : ℕ) (first : N → ℕ) (t : OverlayTopology N) (updated : List N)
      (id : N)
      → IsChoice c
      → IsReady t.nodes id
      → IsWithin limit first t id
      → IsWithin limit first (disconnect_neighbors c id (t, updated)).0 id
  unfolding disconnect_neighbors
  disconnect_neighbors-IsWithin c limit first t updated id ch r w =
      if_elim (λ (q : Progress N). IsWithin limit first q.0 id) _
        (reconnect-IsWithin _ c limit first id _ (t, updated) ch r (found-IsTargets c id t ch r) w)
        w

  -- `formInstructions` at a node that is there leaves it with at most as many neighbours as the
  -- limit allows, and no other node with more than the limit, unless it had as many before; with
  -- no condition on how many neighbours the nodes had.
  pub improve_bounded :
      (c : Choices N) (t : OverlayTopology N) (id : N) (force : Bool)
      → IsChoice c
      → IsValid t.nodes
      → has_key id t.nodes ≡ true
      → let t' = (improve c t id force).0 in
        (degree t'.nodes id ≤ t.max_neighbors_per_node)
        × ((a : N)
            → (id == a) ≡ false
            → degree t'.nodes a ≤ max (degree t.nodes a) t.max_neighbors_per_node)
  unfolding improve
  improve_bounded c t id force ch v here =
      let limit = t.max_neighbors_per_node in
      let first = degree t.nodes in
      let r : IsReady t.nodes id = record { valid = v; present = here } in
      let p1 = reduce_neighbors c t id in
      let r1 = reduce_neighbors-IsReady c t id r in
      let w1 = reduce_neighbors-IsWithin c t id ch r in
      let p2 = add_neighbors c id p1 in
      let r2 = add_neighbors-IsReady c id p1 r1 in
      let w2 = add_neighbors-IsWithin c limit first p1.0 p1.1 id ch r1 w1 in
      let w = disconnect_neighbors-IsWithin c limit first p2.0 p2.1 id ch r2 w2 in (w.own, w.others)
