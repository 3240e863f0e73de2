-- ===== src/Overlay/Sizes.antt =====
-- How many neighbours a node has after the elementary changes of src/logic/OverlayTopology.ts.
use network_old.Base.{
  ℕ, suc, ◌≤◌, ◌≡◌, refl, inl, inr, true, false, not, ◌&&◌, ◌||◌, List, ◌∷◌, arith, Eq, ◌==◌,
  contains, contains-delete, delete, length-delete, length-le_of_contains, length, Bool-cases,
  length_pos_of_contains,
}
use network_old.Overlay.{Nodes, neighbors_in, update_nodes, relink}
use network_old.Overlay.Links.{linked}
use network_old.Overlay.Updates.{IsValid, linked-update_nodes, update_nodes-IsValid}
use network_old.Overlay.Relinks.{Fits, linked-relink, relink-IsValid}

module _ {N : Type 0} ⦃e : Eq N⦄ where
  unfoldable pub degree : Nodes N → N → ℕ
  degree m a = length (neighbors_in m a)

  degree-le :
      (m : Nodes N) (a : N) (ns : List N)
      → IsValid m
      → ((b : N) → linked m a b ≡ true → contains ns b ≡ true)
      → degree m a ≤ length ns
  unfolding degree linked
  degree-le m a ns v h = length-le_of_contains (neighbors_in m a) ns (v.distinct a) h

  pub contains-neighbors_in : (m : Nodes N) (a b : N) → contains (neighbors_in m a) b ≡ linked m a b
  unfolding linked
  contains-neighbors_in m a b = refl

  -- `update` gives the node no more neighbours than it reports.
  pub degree-update_nodes-le :
      (id : N) (ns : List N) (m : Nodes N)
      → IsValid m
      → degree (update_nodes id ns m) id ≤ length ns
  degree-update_nodes-le id ns m v =
      degree-le (update_nodes id ns m) id ns (update_nodes-IsValid id ns m v)
        (λ b h. ground (arith, linked-update_nodes id ns m id b, e.equals_iff id id))

  -- Another node has at most the node as a new neighbour, and that only if it is reported.
  pub degree-update_nodes_other :
      (id : N) (ns : List N) (m : Nodes N) (a : N)
      → IsValid m
      → (id == a) ≡ false
      → (contains ns a ≡ true → linked m a id ≡ true)
      → degree (update_nodes id ns m) a ≤ degree m a
  degree-update_nodes_other id ns m a v other h =
      unfold degree in
      degree-le (update_nodes id ns m) a (neighbors_in m a) (update_nodes-IsValid id ns m v) (λ b k.
        ground (
          arith,
          linked-update_nodes id ns m a b,
          contains-neighbors_in m a b,
          e.equals_iff id b,
          h,
        ))

  pub degree-update_nodes-suc :
      (id : N) (ns : List N) (m : Nodes N) (a : N)
      → IsValid m
      → (id == a) ≡ false
      → degree (update_nodes id ns m) a ≤ suc (degree m a)
  degree-update_nodes-suc id ns m a v other =
      unfold degree in
      degree-le (update_nodes id ns m) a (id ∷ neighbors_in m a) (update_nodes-IsValid id ns m v)
        (λ b k.
          ground (
            arith,
            linked-update_nodes id ns m a b,
            contains-neighbors_in m a b,
            e.equals_iff id b,
          ))

  module _ (m : Nodes N) (id n1 n2 : N) (v : IsValid m) (f : Fits m id n1 n2) where
    degree-relink-le :
        (a : N) (ns : List N)
        → ((b : N) → linked (relink id n1 n2 m) a b ≡ true → contains ns b ≡ true)
        → degree (relink id n1 n2 m) a ≤ length ns
    degree-relink-le a ns h = degree-le (relink id n1 n2 m) a ns (relink-IsValid m id n1 n2 v f) h

    -- The node gets two neighbours.
    pub degree-relink_self : degree (relink id n1 n2 m) id ≤ suc (suc (degree m id))
    degree-relink_self =
        unfold degree in
        degree-relink-le id (n1 ∷ n2 ∷ neighbors_in m id) (λ b k. ground (
          arith,
          linked-relink m id n1 n2 v f id b,
          contains-neighbors_in m id b,
          e.equals_iff n2 id,
          f.pair,
          f.first,
          f.other,
        ))

    -- A node that changes one neighbour for the node has as many as before.
    degree_exchanged :
        (a c : N)
        → linked m a c ≡ true
        → ((b : N)
            → linked (relink id n1 n2 m) a b ≡ true
            → ((id == b) || (not (b == c) && linked m a b)) ≡ true)
        → degree (relink id n1 n2 m) a ≤ degree m a
    unfolding degree
    degree_exchanged a c there h = omega (
      arith,
      degree-relink-le a (id ∷ delete (neighbors_in m a) c) (λ b k.
          ground
            (arith, h b k, contains-delete (neighbors_in m a) c b, contains-neighbors_in m a b)),
      lengths,
    )
      where
        lengths : suc (length (delete (neighbors_in m a) c)) ≡ length (neighbors_in m a)
        lengths = ground (
          arith,
          length-delete (neighbors_in m a) c (v.distinct a),
          contains-neighbors_in m a c,
          there,
          length_pos_of_contains (neighbors_in m a) c,
        )

    -- No other node gets more neighbours than it has.
    pub degree-relink_other :
        (a : N) → (id == a) ≡ false → degree (relink id n1 n2 m) a ≤ degree m a
    degree-relink_other a other = elim (Bool-cases (n1 == a)) [
      | inl first ↦ degree_exchanged a n2 (ground (arith, f.pair, e.equals_iff n1 a)) (λ b k.
          ground (
            arith,
            linked-relink m id n1 n2 v f a b,
            e.equals_iff n1 a,
            e.equals_iff n2 b,
            e.equals_iff b n2,
            e.equals_iff n2 a,
            v.irreflexive n1,
            f.pair,
            e.equals_iff id b,
          ))
      | inr not_first ↦ elim (Bool-cases (n2 == a)) [
        | inl second ↦
            degree_exchanged a n1 (ground (arith, f.pair, v.symmetric n1 n2, e.equals_iff n2 a))
              (λ b k. ground (
                arith,
                linked-relink m id n1 n2 v f a b,
                e.equals_iff n1 a,
                e.equals_iff n1 b,
                e.equals_iff b n1,
                e.equals_iff n2 a,
                e.equals_iff id b,
              ))
        | inr neither ↦
            unfold degree in
            degree-relink-le a (neighbors_in m a)
              (λ b k. ground (arith, linked-relink m id n1 n2 v f a b, contains-neighbors_in m a b))
      ]
    ]
