-- ===== src/Overlay/Relinks.antt =====
-- The exchange of one link for two, in the third part of `formInstructions`
-- (src/logic/OverlayTopology.ts).
use network_old.Base.{◌≡◌, ◌∙◌, true, false, not, ◌&&◌, ◌||◌, arith, Eq, ◌==◌, has_key}
use network_old.Overlay.{Nodes, add_link, delete_link, relink}
use network_old.Overlay.Links.{
  linked, linked-add_link, linked-delete_link, has_key-add_link, has_key-delete_link,
  has_key_of_linked, add_link-HasDistinct, delete_link-HasDistinct, add_link-IsKeyed,
  delete_link-IsKeyed,
}
use network_old.Overlay.Updates.{IsValid}

module _ {N : Type 0} ⦃e : Eq N⦄ where
  -- What makes `n1` and `n2` fit for the node: they are linked, and neither is linked to it.
  pub record Fits (m : Nodes N) (id n1 n2 : N) : Type 0 where
    pub present : has_key id m ≡ true
    pub pair : linked m n1 n2 ≡ true
    pub first : linked m n1 id ≡ false
    pub second : linked m n2 id ≡ false
    pub other : (n1 == id) ≡ false

  module _ (m : Nodes N) (id n1 n2 : N) (v : IsValid m) (f : Fits m id n1 n2) where
    pub has_key-relink : (a : N) → has_key a (relink id n1 n2 m) ≡ has_key a m
    unfolding relink
    has_key-relink a =
        let m1 = delete_link n1 n2 m in
        let m2 = delete_link n2 n1 m1 in
        let m3 = add_link n1 id m2 in
        let m4 = add_link n2 id m3 in
        let m5 = add_link id n1 m4 in
        cc (
          has_key-delete_link n1 n2 m a,
          has_key-delete_link n2 n1 m1 a,
          has_key-add_link n1 id m2 a,
          has_key-add_link n2 id m3 a,
          has_key-add_link id n1 m4 a,
          has_key-add_link id n2 m5 a,
        )

    present_pair : (has_key n1 m ≡ true) × (has_key n2 m ≡ true)
    present_pair =
        (has_key_of_linked m n1 n2 f.pair, has_key_of_linked m n2 n1 (v.symmetric n2 n1 ∙ f.pair))

    -- Exactly the link between the two is gone, and exactly the links of the node to both are new.
    pub linked-relink :
        (a b : N)
        → linked (relink id n1 n2 m) a b ≡ (
            (linked m a b && not ((n1 == a) && (n2 == b)) && not ((n2 == a) && (n1 == b)))
            || ((n1 == a) && (id == b))
            || ((n2 == a) && (id == b))
            || ((id == a) && (n1 == b))
            || ((id == a) && (n2 == b)))
    unfolding relink
    linked-relink a b =
        let m1 = delete_link n1 n2 m in
        let m2 = delete_link n2 n1 m1 in
        let m3 = add_link n1 id m2 in
        let m4 = add_link n2 id m3 in
        let m5 = add_link id n1 m4 in
        ground (
          arith,
          linked-delete_link n1 n2 m a b,
          linked-delete_link n2 n1 m1 a b,
          linked-add_link n1 id m2 a b,
          linked-add_link n2 id m3 a b,
          linked-add_link id n1 m4 a b,
          linked-add_link id n2 m5 a b,
          has_key-delete_link n1 n2 m a,
          has_key-delete_link n2 n1 m1 a,
          has_key-add_link n1 id m2 a,
          has_key-add_link n2 id m3 a,
          has_key-add_link id n1 m4 a,
          present_pair,
          e.equals_iff n1 a,
          e.equals_iff n2 a,
          e.equals_iff id a,
        )

    pub relink-IsValid : IsValid (relink id n1 n2 m)
    unfolding relink
    relink-IsValid = record {
      symmetric = λ a b. ground (arith, linked-relink a b, linked-relink b a, v.symmetric a b);
      irreflexive = λ a. ground (
        arith,
        linked-relink a a,
        v.irreflexive a,
        e.equals_iff n1 a,
        e.equals_iff n2 a,
        e.equals_iff id a,
        e.equals_iff n1 id,
      );
      distinct = add_link-HasDistinct id n2 _ (
          add_link-HasDistinct id n1 _ (
            add_link-HasDistinct n2 id _ (
              add_link-HasDistinct n1 id _
                (delete_link-HasDistinct n2 n1 _ (delete_link-HasDistinct n1 n2 m v.distinct)))));
      keyed = add_link-IsKeyed id n2 _ (
          add_link-IsKeyed id n1 _ (
            add_link-IsKeyed n2 id _ (
              add_link-IsKeyed n1 id _
                (delete_link-IsKeyed n2 n1 _ (delete_link-IsKeyed n1 n2 m v.keyed)))));
    }
