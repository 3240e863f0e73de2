-- ===== src/Peers/Addresses.antt =====
-- The two directions of src/connection/PeerBook.ts, from addresses to peer ids and back.
use network_old.Base.{
  String, string_eq, ◌≡◌, refl, ◌∙◌, ap, true, false, List, [], ◌∷◌, none, some, ok, err, Eq, ◌==◌,
  keys, lookup, has_key, contains, contains-keys, arith, Option-cases, Bool-cases, inl, inr, ◌⊎◌,
}
use network_old.Peers.{PeerBook, not_found, has_id, find_address, get_address, get_peer_id}

module _ {N B : Type 0} ⦃e : Eq N⦄ where
  has_id-find_address :
      (b : PeerBook N B) (n : N) (addresses : List String) (a : String)
      → find_address b n addresses ≡ some a
      → has_id (lookup a b) n ≡ true
  unfolding find_address
  has_id-find_address b n [] a q = cc
  has_id-find_address b n (x ∷ addresses) a q =
      ground (arith, has_id-find_address b n addresses a, string_eq.equals_iff x a)

  find_address-found :
      (b : PeerBook N B) (n : N) (addresses : List String) (a : String)
      → contains addresses a ≡ true
      → has_id (lookup a b) n ≡ true
      → (a' : String) × (find_address b n addresses ≡ some a')
  unfolding find_address
  find_address-found b n [] a q h = cc
  find_address-found b n (x ∷ addresses) a q h = elim (Bool-cases (has_id (lookup x b) n)) [
    | inl here ↦ (x, rw (find_address, here) refl)
    | inr there ↦
        let (a', found) =
          find_address-found b n addresses a (ground (arith, q, there, h, string_eq.equals_iff x a))
            h in
        (a', rw (find_address, there) found)
  ]

  has_id-get_peer_id :
      (b : PeerBook N B) (n : N) (a : String)
      → has_id (lookup a b) n ≡ true
      → get_peer_id b a ≡ ok n
  unfolding get_peer_id
  has_id-get_peer_id b n a h = elim (Option-cases (lookup a b)) [
    | inl none_there ↦ absurd (ground (arith, none_there, h))
    | inr (info, there) ↦ ground (arith, there, h, e.equals_iff info.peer_id n)
  ]

  -- No address is found exactly where none has the peer id.
  find_address-none :
      (b : PeerBook N B) (n : N) (a : String)
      → find_address b n (keys b) ≡ none
      → has_id (lookup a b) n ≡ false
  find_address-none b n a q = elim (Bool-cases (has_id (lookup a b) n)) [
    | inl here ↦
        let (_, found) =
          find_address-found b n (keys b) a
            (contains-keys a b ∙ unfold has_key in ground (arith, here)) here in
        absurd (cc (q, found))
    | inr absent ↦ absent
  ]

  -- `getAddress` returns an address for which `getPeerId` returns the peer id, or throws, and then
  -- no address has the peer id, or the first one that has it is empty.
  get_address_lem :
      (b : PeerBook N B) (n : N)
      → ((a : String) × (get_address b n ≡ ok a) × (get_peer_id b a ≡ ok n))
        ⊎ ((get_address b n ≡ err not_found)
            × (((a : String) → has_id (lookup a b) n ≡ false)
                ⊎ (find_address b n (keys b) ≡ some "")))
  unfolding get_address
  get_address_lem b n = elim (Option-cases (find_address b n (keys b))) [
    | inl q ↦ inr (rw (get_address, q) refl, inl (λ a. find_address-none b n a q))
    | inr (a, q) ↦ elim (Bool-cases (a == "")) [
      | inl blank ↦
          inr (
            rw (get_address, q, blank) refl,
            inr (q ∙ ap some ((string_eq.equals_iff a "").0 blank)),
          )
      | inr named ↦ inl (
        a,
        rw (get_address, q, named) refl,
        has_id-get_peer_id b n a (has_id-find_address b n (keys b) a q),
      )
    ]
  ]
