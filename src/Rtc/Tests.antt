-- ===== src/Rtc/Tests.antt =====
-- Runs of the endpoint (src/connection/WebRtcEndpoint.ts), and the theorems at concrete inputs.
use network_old.Base.{
  ℕ, ◌≡◌, refl, ltb, number_eq, Bool, true, false, List, [], ◌∷◌, none, some, lookup, insert,
  remove, update, arith,
}
use network_old.Rtc.{
  Reception, add_enqueued, unknown, connected, Connection, WebRtcEndpoint, set_remote_description,
  finish, is_remote_description_set, new_endpoint, open_connection, connect, forget,
  close_connection, close, reconnect_if_described, take_offer, on_offer, on_answer,
  close_if_described, on_rtc_connect, on_state_change,
}
use network_old.Rtc.Connections.{HasOpenBut, HasOpen}
use network_old.Rtc.Signals.{
  Signal, offered, rtc_connected, asked_to_stop, state_changed, on_signal, on_signals,
  on_signals-HasOpen,
}
use network_old.Rtc.Offers.{on_offer_misses}

program : Unit {0}
unfolding add_enqueued set_remote_description open_connection connect forget close_connection close
    reconnect_if_described take_offer on_offer on_answer close_if_described on_rtc_connect
    on_state_change on_signal on_signals lookup insert remove update
program = tt

abbrev below : ℕ → ℕ → Bool
below a b = ltb a b

abbrev described : Connection ℕ
described = record {
  peer_id = 5;
  is_offering = true;
  is_finished = false;
  remote_description_set = true;
  enqueued = none;
  remote_candidates = [];
  last_state = unknown;
}

abbrev undescribed : Connection ℕ
undescribed = record described { remote_description_set = false; enqueued = some 4 }

abbrev takes_all : Reception
takes_all = record { takes_description = true; takes_candidate = true }

-- A description that is not taken leaves the connection as one without.
not_taken :
    (set_remote_description
      (record takes_all { takes_description = false })
      undescribed).remote_description_set
    ≡ false
unfolding program
not_taken = refl

-- Peer 5 offers twice, and the endpoint, peer 1, is stopped in the end.
abbrev signals : List (Signal ℕ)
signals =
    offered takes_all 5 9
    ∷ state_changed 0 connected
    ∷ offered takes_all 5 9
    ∷ rtc_connected 7 9
    ∷ asked_to_stop
    ∷ []

abbrev started : WebRtcEndpoint ℕ
started = new_endpoint 1

new-HasOpen : HasOpen started
unfolding HasOpenBut lookup
new-HasOpen = λ c connection there. ground (arith, there)

on_signals-HasOpen_example : HasOpen (on_signals below started signals)
on_signals-HasOpen_example = on_signals-HasOpen below started signals new-HasOpen

-- The smaller of two ids offers, and the other asks for an offer.
abbrev other : WebRtcEndpoint ℕ
other = new_endpoint 5

needs_offer : (connect (below 5 1) 1 9 other).0.needed ≡ (9, 1) ∷ []
unfolding program
needs_offer = refl

abbrev endpoint : WebRtcEndpoint ℕ
endpoint = record (new_endpoint 1) {
  connections = (5, 0) ∷ [];
  made = (0, described) ∷ [];
  next_connection = 1;
}

on_offer_misses_example :
    let w = on_offer below takes_all 5 9 endpoint in
    (lookup 5 w.connections ≡ some 1)
    × (is_remote_description_set (lookup 1 w.made) ≡ false)
    × (lookup 0 w.made ≡ some (finish described))
unfolding lookup
on_offer_misses_example =
    on_offer_misses below takes_all 5 9 endpoint 0 described refl refl refl refl refl refl refl
