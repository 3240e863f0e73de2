-- ===== src/Rtc/Offers.antt =====
-- Offers that reach src/connection/WebRtcEndpoint.ts while there is a connection to the peer.
use network_old.Base.{
  ltb, ℕ, ◌≡◌, refl, ap, ◌∙◌, Eq, number_eq, Bool, true, false, [], none, some, lookup, insert,
  remove, arith, lookup-insert, lookup-remove, lookup-update,
}
use network_old.Rtc.{
  Reception, unknown, Connection, WebRtcEndpoint, set_remote_description, finish,
  is_remote_description_set, open_connection, connect, forget, close_connection, close,
  on_connection, take_offer, reconnect_if_described, on_offer,
}

module _ {N : Type 0} ⦃e : Eq N⦄ where
  -- The endpoint without its connection to a peer.
  abbrev closed_to : N → ℕ → Connection N → WebRtcEndpoint N → WebRtcEndpoint N
  closed_to target c old w = record w {
    connections = remove target w.connections;
    made = insert c (finish old) w.made;
  }

  close_lem :
      (target : N) (w : WebRtcEndpoint N) (c : ℕ) (old : Connection N)
      → lookup target w.connections ≡ some c
      → lookup c w.made ≡ some old
      → old.is_finished ≡ false
      → old.peer_id ≡ target
      → close target w ≡ closed_to target c old w
  unfolding close close_connection forget
  close_lem target w c old there made unfinished peer =
      let gone : lookup old.peer_id (remove target w.connections) ≡ none = ground (
        arith,
        peer,
        lookup-remove target old.peer_id w.connections,
        e.equals_iff target old.peer_id,
      ) in
      rw (close, there, close_connection, made, unfinished, gone) refl

  connect_lem :
      (is_offering : Bool) (target router : N) (w : WebRtcEndpoint N)
      → w.stopped ≡ false
      → lookup target w.connections ≡ none
      → (connect is_offering target router w).0 ≡ open_connection is_offering target router w
  unfolding connect
  connect_lem is_offering target router w running absent = ground (arith, running, absent)

  same_connection :
      (is_offering : Bool) (target router : N) (w : WebRtcEndpoint N) (c : ℕ)
      → w.stopped ≡ false
      → lookup target w.connections ≡ some c
      → (connect is_offering target router w).0 ≡ w
  unfolding connect
  same_connection is_offering target router w c running there = ground (arith, running, there)

  -- The old connection gets the description, after the new one is opened.
  abbrev offered_to :
      Reception → Bool → N → N → ℕ → Connection N → WebRtcEndpoint N → WebRtcEndpoint N
  offered_to reception is_offering target router c old w =
      on_connection c (set_remote_description reception)
        (open_connection is_offering target router (closed_to target c old w))

  on_offer_lem :
      (below : N → N → Bool) (reception : Reception) (target router : N) (w : WebRtcEndpoint N)
      (c : ℕ) (old : Connection N)
      → w.stopped ≡ false
      → lookup target w.connections ≡ some c
      → lookup c w.made ≡ some old
      → old.is_finished ≡ false
      → old.peer_id ≡ target
      → old.remote_description_set ≡ true
      → on_offer below reception target router w
        ≡ offered_to reception (below w.own_id target) target router c old w
  unfolding on_offer take_offer reconnect_if_described
  on_offer_lem below reception target router w c old running there made unfinished peer described =
      let is_offering = below w.own_id target in
      let set : is_remote_description_set (lookup c w.made) ≡ true =
        ground (arith, made, described) in
      let gone : lookup target (remove target w.connections) ≡ none =
        ground (arith, lookup-remove target target w.connections, e.equals_iff target target) in
      let reopened : reconnect_if_described below target router c w
          ≡ open_connection is_offering target router (closed_to target c old w) =
        rw (reconnect_if_described, set)
          (ap (λ v. (connect is_offering target router v).0)
              (close_lem target w c old there made unfinished peer)
            ∙ connect_lem is_offering target router (closed_to target c old w) running gone) in
      let taken : take_offer below reception target router w
          ≡ on_connection c (set_remote_description reception)
              (reconnect_if_described below target router c w) =
        rw (take_offer, there) refl in
      ap (take_offer below reception target router)
        (same_connection is_offering target router w c running there)
      ∙ taken
      ∙ ap (on_connection c (set_remote_description reception)) reopened

  -- An offer for a peer with a connection that has a remote description opens a new connection to the
  -- peer, which gets no description: the offer's goes to the old connection, which is closed and
  -- stays as it is.
  pub on_offer_misses :
      (below : N → N → Bool) (reception : Reception) (target router : N) (w : WebRtcEndpoint N)
      (c : ℕ) (old : Connection N)
      → w.stopped ≡ false
      → lookup target w.connections ≡ some c
      → lookup c w.made ≡ some old
      → old.is_finished ≡ false
      → old.peer_id ≡ target
      → old.remote_description_set ≡ true
      → ltb c w.next_connection ≡ true
      → let w' = on_offer below reception target router w in
        (lookup target w'.connections ≡ some w.next_connection)
        × (is_remote_description_set (lookup w.next_connection w'.made) ≡ false)
        × (lookup c w'.made ≡ some (finish old))
  unfolding open_connection set_remote_description
  on_offer_misses below reception target router w c old running there made unfinished peer described
        earlier =
      let is_offering = below w.own_id target in
      let v : WebRtcEndpoint N = closed_to target c old w in
      let opened : WebRtcEndpoint N = open_connection is_offering target router v in
      let new : Connection N = record {
        peer_id = target;
        is_offering = is_offering;
        is_finished = false;
        remote_description_set = false;
        enqueued = none;
        remote_candidates = [];
        last_state = unknown;
      } in
      rw
        (on_offer_lem below reception target router w c old running there made unfinished peer
          described)
        (
          ground (
            arith,
            lookup-insert target target w.next_connection v.connections,
            e.equals_iff target target,
          ),
          ground (
            arith,
            earlier,
            lookup-update c w.next_connection (set_remote_description reception) opened.made,
            lookup-insert w.next_connection w.next_connection new v.made,
            number_eq.equals_iff w.next_connection w.next_connection,
            number_eq.equals_iff c w.next_connection,
          ),
          ground (
            arith,
            earlier,
            lookup-update c c (set_remote_description reception) opened.made,
            lookup-insert w.next_connection c new v.made,
            lookup-insert c c (finish old) w.made,
            number_eq.equals_iff c c,
            number_eq.equals_iff w.next_connection c,
          ),
        )
