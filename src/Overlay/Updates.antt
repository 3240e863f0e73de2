-- ===== src/Overlay/Updates.antt =====
-- `update` and `leave` of src/logic/OverlayTopology.ts, by what they do to the links.
use network_old.Base.{
  ℕ, ◌≡◌, refl, ◌∙◌, inl, inr, false, not, ◌&&◌, ◌||◌, if◌then◌else◌, List, [], none, some, IsKeyed,
  insert-IsKeyed, remove-IsKeyed, arith, Eq, ◌==◌, contains, contains-of_list, contains-keep_if,
  of_list, of_list-Distinct, lookup, insert, remove, keys, has_key, lookup-insert, lookup-remove,
  contains-keys, keep_if, Option-cases,
}
use network_old.Overlay.{
  OverlayTopology, Nodes, neighbors_in, add_links, delete_links, known_neighbors, update_nodes,
  leave, update_node, new_topology,
}
use network_old.Overlay.Links.{
  linked, HasDistinct, has_key-add_links, has_key-delete_links, linked-add_links,
  linked-delete_links, add_links-HasDistinct, delete_links-HasDistinct, has_key_of_linked,
  add_links-IsKeyed, delete_links-IsKeyed,
}

-- Links go both ways, no node is its own neighbour, and no neighbour and no node stands twice.
pub record IsValid {N : Type 0} ⦃e : Eq N⦄ (m : Nodes N) : Type 0 where
  pub symmetric : (a b : N) → linked m a b ≡ linked m b a
  pub irreflexive : (a : N) → linked m a a ≡ false
  pub distinct : HasDistinct m
  pub keyed : IsKeyed m

module _ {N : Type 0} ⦃e : Eq N⦄ where
  contains-neighbors_in : (m : Nodes N) (a b : N) → contains (neighbors_in m a) b ≡ linked m a b
  unfolding linked
  contains-neighbors_in m a b = refl

  linked-insert :
      (n : N) (s : List N) (m : Nodes N) (a b : N)
      → linked (insert n s m) a b ≡ (if n == a then contains s b else linked m a b)
  unfolding linked neighbors_in
  linked-insert n s m a b = ground (arith, lookup-insert n a s m)

  has_key-insert :
      (n : N) (s : List N) (m : Nodes N) (a : N)
      → has_key a (insert n s m) ≡ ((n == a) || has_key a m)
  unfolding has_key
  has_key-insert n s m a = ground (arith, lookup-insert n a s m)

  contains-known :
      (m : Nodes N) (n : N) (ns : List N) (a : N)
      → contains (known_neighbors m n ns) a ≡ (not (a == n) && has_key a m && contains ns a)
  unfolding known_neighbors
  contains-known m n ns a = ground (
    arith,
    contains-keep_if (λ k. not (k == n)) (keep_if (λ k. has_key k m) ns) a,
    contains-keep_if (λ k. has_key k m) ns a,
  )

  -- The nodes once the new neighbours have the node as theirs.
  abbrev joined : N → List N → Nodes N → Nodes N
  joined n ns m =
      let known = known_neighbors m n ns in add_links known n (insert n (of_list known) m)

  has_key-joined :
      (n : N) (ns : List N) (m : Nodes N) (a : N)
      → has_key a (joined n ns m) ≡ ((n == a) || has_key a m)
  has_key-joined n ns m a =
      has_key-add_links (known_neighbors m n ns) n (insert n (of_list (known_neighbors m n ns)) m) a
      ∙ has_key-insert n (of_list (known_neighbors m n ns)) m a

  linked-joined :
      (n : N) (ns : List N) (m : Nodes N) (a b : N)
      → linked (joined n ns m) a b ≡ (
          if n == a
          then not (b == n) && has_key b m && contains ns b
          else linked m a b || ((n == b) && not (a == n) && has_key a m && contains ns a))
  linked-joined n ns m a b = ground (
    arith,
    linked-add_links (known_neighbors m n ns) n (insert n (of_list (known_neighbors m n ns)) m) a b,
    linked-insert n (of_list (known_neighbors m n ns)) m a b,
    has_key-insert n (of_list (known_neighbors m n ns)) m a,
    contains-of_list (known_neighbors m n ns) b,
    contains-known m n ns a,
    contains-known m n ns b,
    e.equals_iff n a,
    e.equals_iff a n,
  )

  -- After `update` the node has the reported neighbours that are known, but not itself, each of
  -- them has the node, no other node has it, and all other links are as they were.
  pub linked-update_nodes :
      (n : N) (ns : List N) (m : Nodes N) (a b : N)
      → linked (update_nodes n ns m) a b ≡ (
          if n == a
          then not (b == n) && has_key b m && contains ns b
          else if n == b
          then not (a == n) && has_key a m && contains ns a
          else linked m a b)
  unfolding update_nodes
  linked-update_nodes n ns m a b =
      let j = joined n ns m in
      ground (
        arith,
        linked-delete_links (keep_if (λ k. not (contains (neighbors_in j n) k)) (keys j)) n j a b,
        contains-keep_if (λ k. not (contains (neighbors_in j n) k)) (keys j) a,
        contains-keys a j,
        has_key-joined n ns m a,
        contains-neighbors_in j n a,
        linked-joined n ns m a b,
        linked-joined n ns m n a,
        has_key_of_linked m a b,
        e.equals_iff n a,
        e.equals_iff a n,
        e.equals_iff n b,
        e.equals_iff b n,
        e.equals_iff n n,
      )

  pub has_key-update_nodes :
      (n : N) (ns : List N) (m : Nodes N) (a : N)
      → has_key a (update_nodes n ns m) ≡ ((n == a) || has_key a m)
  unfolding update_nodes
  has_key-update_nodes n ns m a =
      let j = joined n ns m in
      has_key-delete_links (keep_if (λ k. not (contains (neighbors_in j n) k)) (keys j)) n j a
      ∙ has_key-joined n ns m a

  insert-HasDistinct :
      (n : N) (ns : List N) (m : Nodes N) → HasDistinct m → HasDistinct (insert n (of_list ns) m)
  unfolding neighbors_in
  insert-HasDistinct n ns m d a =
      ground (arith, lookup-insert n a (of_list ns) m, of_list-Distinct ns, d a)

  -- `update` keeps the links valid, whatever neighbours are reported.
  pub update_nodes-IsValid :
      (n : N) (ns : List N) (m : Nodes N) → IsValid m → IsValid (update_nodes n ns m)
  unfolding update_nodes
  update_nodes-IsValid n ns m v = record {
    symmetric = λ a b. ground (
      arith,
      linked-update_nodes n ns m a b,
      linked-update_nodes n ns m b a,
      v.symmetric a b,
      e.equals_iff n a,
      e.equals_iff n b,
      e.equals_iff a n,
      e.equals_iff b n,
    );
    irreflexive = λ a. ground (
      arith,
      linked-update_nodes n ns m a a,
      v.irreflexive a,
      e.equals_iff n a,
      e.equals_iff a n,
    );
    distinct =
        delete_links-HasDistinct _ n _ (
          add_links-HasDistinct _ n _ (insert-HasDistinct n (known_neighbors m n ns) m v.distinct));
    keyed =
        delete_links-IsKeyed _ n _
          (add_links-IsKeyed _ n _ (insert-IsKeyed n (of_list (known_neighbors m n ns)) m v.keyed));
  }

  linked-remove :
      (n : N) (m : Nodes N) (a b : N)
      → linked (remove n m) a b ≡ (if n == a then false else linked m a b)
  unfolding linked neighbors_in
  linked-remove n m a b = ground (arith, lookup-remove n a m)

  has_key-remove :
      (n : N) (m : Nodes N) (a : N) → has_key a (remove n m) ≡ (not (n == a) && has_key a m)
  unfolding has_key
  has_key-remove n m a = ground (arith, lookup-remove n a m)

  remove-HasDistinct : (n : N) (m : Nodes N) → HasDistinct m → HasDistinct (remove n m)
  unfolding neighbors_in
  remove-HasDistinct n m d a = ground (arith, lookup-remove n a m, d a)

  -- `leave` at a node that is there, and at one that is not.
  leave_known :
      (t : OverlayTopology N) (n : N) (ns : List N)
      → lookup n t.nodes ≡ some ns
      → leave t n ≡ (record t { nodes = remove n (delete_links ns n t.nodes) }, ns)
  unfolding leave
  leave_known t n ns h = rw (h, leave)

  leave_unknown : (t : OverlayTopology N) (n : N) → lookup n t.nodes ≡ none → leave t n ≡ (t, [])
  unfolding leave
  leave_unknown t n h = rw (h, leave)

  -- After `leave` the node is gone, no node has it as a neighbour, all other links are as they
  -- were, and its neighbours are returned.
  pub leave-linked :
      (t : OverlayTopology N) (n : N)
      → IsValid t.nodes
      → (a b : N)
      → (linked (leave t n).0.nodes a b ≡ (linked t.nodes a b && not (n == a) && not (n == b)))
        × (has_key a (leave t n).0.nodes ≡ (has_key a t.nodes && not (n == a)))
        × ((leave t n).1 ≡ neighbors_in t.nodes n)
  unfolding linked neighbors_in
  leave-linked t n v a b = elim (Option-cases (lookup n t.nodes)) [
    | inl h ↦ rw (leave_unknown t n h) (
      ground (arith, h, v.symmetric a n, e.equals_iff n a, e.equals_iff n b),
      unfold has_key in ground (arith, h, e.equals_iff n a),
      rw h refl,
    )
    | inr (ns, h) ↦ rw (leave_known t n ns h) (
      ground (
        arith,
        h,
        v.symmetric a n,
        linked-remove n (delete_links ns n t.nodes) a b,
        linked-delete_links ns n t.nodes a b,
        e.equals_iff n a,
        e.equals_iff n b,
      ),
      ground (
        arith,
        has_key-remove n (delete_links ns n t.nodes) a,
        has_key-delete_links ns n t.nodes a,
      ),
      rw h refl,
    )
  ]

  -- `leave` keeps the links valid.
  pub leave-IsValid :
      (t : OverlayTopology N) (n : N) → IsValid t.nodes → IsValid (leave t n).0.nodes
  leave-IsValid t n v = record {
    symmetric = λ a b.
        ground (arith, (leave-linked t n v a b).0, (leave-linked t n v b a).0, v.symmetric a b);
    irreflexive = λ a. ground (arith, (leave-linked t n v a a).0, v.irreflexive a);
    distinct = elim (Option-cases (lookup n t.nodes)) [
      | inl h ↦ rw (leave_unknown t n h) v.distinct
      | inr (ns, h) ↦
          rw (leave_known t n ns h)
            (remove-HasDistinct n _ (delete_links-HasDistinct ns n t.nodes v.distinct))
    ];
    keyed = elim (Option-cases (lookup n t.nodes)) [
      | inl h ↦ rw (leave_unknown t n h) v.keyed
      | inr (ns, h) ↦
          rw (leave_known t n ns h) (remove-IsKeyed n _ (delete_links-IsKeyed ns n t.nodes v.keyed))
    ];
  }

  pub update_node-IsValid :
      (t : OverlayTopology N) (n : N) (ns : List N)
      → IsValid t.nodes
      → IsValid (update_node t n ns).nodes
  unfolding update_node
  update_node-IsValid t n ns v = update_nodes-IsValid n ns t.nodes v

  pub new_topology-IsValid : (max : ℕ) → IsValid (new_topology {N = N} max).nodes
  unfolding linked neighbors_in lookup
  new_topology-IsValid max = record {
    symmetric = λ a b. refl;
    irreflexive = λ a. refl;
    distinct = λ a. tt;
    keyed = tt;
  }
