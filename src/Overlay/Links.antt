-- ===== src/Overlay/Links.antt =====
-- Who is whose neighbour, under the elementary changes of src/logic/OverlayTopology.ts.
use network_old.Base.{
  ◌≡◌, refl, ◌∙◌, IsKeyed, update-IsKeyed, Bool, true, not, ◌&&◌, ◌||◌, List, [], ◌∷◌, arith, Eq,
  ◌==◌, contains, contains-add, contains-delete, add, delete, Distinct, add-Distinct,
  delete-Distinct, lookup, has_key, lookup-update,
}
use network_old.Overlay.{
  Nodes, or_empty, neighbors_in, add_link, delete_link, add_links, delete_links,
}

module _ {N : Type 0} ⦃e : Eq N⦄ where
  -- `b` is among the neighbours of `a`.
  unfoldable pub linked : Nodes N → N → N → Bool
  linked m a b = contains (neighbors_in m a) b

  abbrev pub HasDistinct : Nodes N → Type 0
  HasDistinct m = (a : N) → Distinct (neighbors_in m a)

  pub has_key_of_linked : (m : Nodes N) (a b : N) → linked m a b ≡ true → has_key a m ≡ true
  unfolding linked neighbors_in has_key
  has_key_of_linked m a b h = ground arith

  pub linked-add_link :
      (n k : N) (m : Nodes N) (a b : N)
      → linked (add_link n k m) a b ≡ (linked m a b || ((n == a) && (k == b) && has_key a m))
  unfolding linked neighbors_in add_link has_key
  linked-add_link n k m a b =
      ground (arith, lookup-update n a (λ s. add s k) m, contains-add (or_empty (lookup a m)) k b)

  pub linked-delete_link :
      (n k : N) (m : Nodes N) (a b : N)
      → linked (delete_link n k m) a b ≡ (linked m a b && not ((n == a) && (k == b)))
  unfolding linked neighbors_in delete_link
  linked-delete_link n k m a b = ground (
    arith,
    lookup-update n a (λ s. delete s k) m,
    contains-delete (or_empty (lookup a m)) k b,
    e.equals_iff k b,
    e.equals_iff b k,
  )

  pub has_key-add_link : (n k : N) (m : Nodes N) (a : N) → has_key a (add_link n k m) ≡ has_key a m
  unfolding add_link has_key
  has_key-add_link n k m a = ground (arith, lookup-update n a (λ s. add s k) m)

  pub has_key-delete_link :
      (n k : N) (m : Nodes N) (a : N) → has_key a (delete_link n k m) ≡ has_key a m
  unfolding delete_link has_key
  has_key-delete_link n k m a = ground (arith, lookup-update n a (λ s. delete s k) m)

  pub add_link-HasDistinct : (n k : N) (m : Nodes N) → HasDistinct m → HasDistinct (add_link n k m)
  unfolding add_link neighbors_in
  add_link-HasDistinct n k m d a =
      ground (
        arith,
        lookup-update n a (λ s. add s k) m,
        add-Distinct (or_empty (lookup a m)) k (d a),
        d a,
      )

  pub delete_link-HasDistinct :
      (n k : N) (m : Nodes N) → HasDistinct m → HasDistinct (delete_link n k m)
  unfolding delete_link neighbors_in
  delete_link-HasDistinct n k m d a = ground (
    arith,
    lookup-update n a (λ s. delete s k) m,
    delete-Distinct (or_empty (lookup a m)) k (d a),
    d a,
  )

  pub has_key-add_links :
      (ns : List N) (k : N) (m : Nodes N) (a : N) → has_key a (add_links ns k m) ≡ has_key a m
  unfolding add_links
  has_key-add_links [] k m a = refl
  has_key-add_links (n ∷ ns) k m a =
      has_key-add_links ns k (add_link n k m) a ∙ has_key-add_link n k m a

  pub has_key-delete_links :
      (ns : List N) (k : N) (m : Nodes N) (a : N) → has_key a (delete_links ns k m) ≡ has_key a m
  unfolding delete_links
  has_key-delete_links [] k m a = refl
  has_key-delete_links (n ∷ ns) k m a =
      has_key-delete_links ns k (delete_link n k m) a ∙ has_key-delete_link n k m a

  pub linked-add_links :
      (ns : List N) (k : N) (m : Nodes N) (a b : N)
      → linked (add_links ns k m) a b ≡ (linked m a b || (contains ns a && (k == b) && has_key a m))
  unfolding add_links
  linked-add_links [] k m a b = ground arith
  linked-add_links (n ∷ ns) k m a b = ground (
    arith,
    linked-add_links ns k (add_link n k m) a b,
    linked-add_link n k m a b,
    has_key-add_link n k m a,
  )

  pub linked-delete_links :
      (ns : List N) (k : N) (m : Nodes N) (a b : N)
      → linked (delete_links ns k m) a b ≡ (linked m a b && not (contains ns a && (k == b)))
  unfolding delete_links
  linked-delete_links [] k m a b = ground arith
  linked-delete_links (n ∷ ns) k m a b =
      ground (arith, linked-delete_links ns k (delete_link n k m) a b, linked-delete_link n k m a b)

  pub add_links-HasDistinct :
      (ns : List N) (k : N) (m : Nodes N) → HasDistinct m → HasDistinct (add_links ns k m)
  unfolding add_links
  add_links-HasDistinct [] k m d = d
  add_links-HasDistinct (n ∷ ns) k m d =
      add_links-HasDistinct ns k (add_link n k m) (add_link-HasDistinct n k m d)

  pub delete_links-HasDistinct :
      (ns : List N) (k : N) (m : Nodes N) → HasDistinct m → HasDistinct (delete_links ns k m)
  unfolding delete_links
  delete_links-HasDistinct [] k m d = d
  delete_links-HasDistinct (n ∷ ns) k m d =
      delete_links-HasDistinct ns k (delete_link n k m) (delete_link-HasDistinct n k m d)

  pub add_link-IsKeyed : (n k : N) (m : Nodes N) → IsKeyed m → IsKeyed (add_link n k m)
  unfolding add_link
  add_link-IsKeyed n k m d = update-IsKeyed n _ m d

  pub delete_link-IsKeyed : (n k : N) (m : Nodes N) → IsKeyed m → IsKeyed (delete_link n k m)
  unfolding delete_link
  delete_link-IsKeyed n k m d = update-IsKeyed n _ m d

  pub add_links-IsKeyed :
      (ns : List N) (k : N) (m : Nodes N) → IsKeyed m → IsKeyed (add_links ns k m)
  unfolding add_links
  add_links-IsKeyed [] k m d = d
  add_links-IsKeyed (n ∷ ns) k m d =
      add_links-IsKeyed ns k (add_link n k m) (add_link-IsKeyed n k m d)

  pub delete_links-IsKeyed :
      (ns : List N) (k : N) (m : Nodes N) → IsKeyed m → IsKeyed (delete_links ns k m)
  unfolding delete_links
  delete_links-IsKeyed [] k m d = d
  delete_links-IsKeyed (n ∷ ns) k m d =
      delete_links-IsKeyed ns k (delete_link n k m) (delete_link-IsKeyed n k m d)
