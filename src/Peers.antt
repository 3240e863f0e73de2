-- ===== src/Peers.antt =====
-- src/connection/PeerBook.ts: the peer infos of the addresses that a node is connected to.
pub mod Addresses
mod Tests
use network_old.Base.{
  String, string_eq, Bool, false, List, [], ◌∷◌, Option, none, some, Result, ok, err, if◌then◌else◌,
  Eq, ◌==◌, Dict, keys, lookup, insert, remove,
}

-- A peer info: its id, and the rest of it.
pub record PeerInfo (N B : Type 0) : Type 0 where
  pub peer_id : N
  pub rest : B

-- Peer infos by address.
abbrev pub PeerBook : Type 0 → Type 0 → Type 0
PeerBook N B = Dict String (PeerInfo N B)

pub data PeerBookError : Type 0 where
  not_found : PeerBookError

-- An address that is not found, or empty, is as none.
abbrev pub or_not_found : Option String → Result PeerBookError String
or_not_found none = err not_found
or_not_found (some address) = if address == "" then err not_found else ok address

abbrev pub id_or_not_found : {N B : Type 0} → Option (PeerInfo N B) → Result PeerBookError N
id_or_not_found none = err not_found
id_or_not_found (some info) = ok info.peer_id

module _ {N B : Type 0} ⦃e : Eq N⦄ where
  unfoldable pub add_peer : PeerBook N B → String → PeerInfo N B → PeerBook N B
  add_peer b address info = insert address info b

  unfoldable pub remove_peer : PeerBook N B → String → PeerBook N B
  remove_peer b address = remove address b

  pub get_peer_info : PeerBook N B → String → Option (PeerInfo N B)
  get_peer_info b address = lookup address b

  abbrev pub has_id : Option (PeerInfo N B) → N → Bool
  has_id none peer_id = false
  has_id (some info) peer_id = info.peer_id == peer_id

  -- `find` over the addresses.
  unfoldable pub find_address : PeerBook N B → N → List String → Option String
  find_address b peer_id [] = none
  find_address b peer_id (address ∷ addresses) =
      if has_id (lookup address b) peer_id then some address else find_address b peer_id addresses

  unfoldable pub get_address : PeerBook N B → N → Result PeerBookError String
  unfolding find_address
  get_address b peer_id = or_not_found (find_address b peer_id (keys b))

  unfoldable pub get_peer_id : PeerBook N B → String → Result PeerBookError N
  get_peer_id b address = id_or_not_found (lookup address b)
