-- ===== src/Peers/Tests.antt =====
-- Runs of the peer book (src/connection/PeerBook.ts), and the theorem at concrete inputs.
use network_old.Base.{
  ℕ, ◌≡◌, refl, String, string_eq, number_eq, [], ◌∷◌, ok, err, lookup, insert, remove,
}
use network_old.Peers.{
  PeerBook, not_found, add_peer, remove_peer, find_address, get_address, get_peer_id,
}

program : Unit {0}
unfolding add_peer remove_peer find_address get_address get_peer_id lookup insert remove
program = tt

abbrev book : PeerBook String ℕ
book =
    ("ws://a", record { peer_id = "a"; rest = 1 })
    ∷ ("ws://b", record { peer_id = "b"; rest = 2 })
    ∷ []

finds : get_address book "b" ≡ ok "ws://b"
unfolding program
finds = refl

removed : get_address (remove_peer book "ws://b") "b" ≡ err not_found
unfolding program
removed = refl
