-- ===== src/Rtc/Connections.antt =====
-- The connections of src/connection/WebRtcEndpoint.ts that are open.
use network_old.Base.{
  ℕ, ◌<◌, eqb, ◌≡◌, Eq, number_eq, Bool, true, false, ◌||◌, List, [], ◌∷◌, Option, none, some, Dict,
  values, lookup, insert, remove, arith, lookup-insert, lookup-remove, Option-cases, Bool-cases,
  inl, inr, contains,
}
use network_old.Rtc.{
  unknown, Connection, WebRtcEndpoint, finish, open_connection, connect, forget, close_connection,
  close, close_connections, stop_endpoint,
}

abbrev pub names : Option ℕ → ℕ → Bool
names none c = false
names (some d) c = eqb d c

names-values :
    {N : Type 0} ⦃e : Eq N⦄ (k : N) (m : Dict N ℕ) (c : ℕ)
    → names (lookup k m) c ≡ true
    → contains (values m) c ≡ true
unfolding lookup
names-values k [] c h = h
names-values k ((j, d) ∷ m) c h = ground (arith, h, names-values k m c)

module _ {N : Type 0} ⦃e : Eq N⦄ where
  -- A connection that is not finished is one of those given, or the one that the endpoint has for its
  -- peer, and the numbers of connections are not used twice.
  unfoldable pub HasOpenBut : List ℕ → WebRtcEndpoint N → Type 0
  HasOpenBut cs w =
      (c : ℕ) (connection : Connection N)
      → lookup c w.made ≡ some connection
      → (c < w.next_connection)
        × ((contains cs c
              || connection.is_finished
              || names (lookup connection.peer_id w.connections) c)
            ≡ true)

  -- A connection that is not finished is the one that the endpoint has for its peer.
  abbrev pub HasOpen : WebRtcEndpoint N → Type 0
  HasOpen w = HasOpenBut [] w

  open_connection-HasOpen :
      (is_offering : Bool) (target router : N) (w : WebRtcEndpoint N)
      → lookup target w.connections ≡ none
      → HasOpen w
      → HasOpen (open_connection is_offering target router w)
  unfolding open_connection HasOpenBut
  open_connection-HasOpen is_offering target router w absent h c connection there =
      let new : Connection N = record {
        peer_id = target;
        is_offering = is_offering;
        is_finished = false;
        remote_description_set = false;
        enqueued = none;
        remote_candidates = [];
        last_state = unknown;
      } in
      ground (
        arith,
        h c connection,
        absent,
        lookup-insert w.next_connection c new w.made,
        lookup-insert target connection.peer_id w.next_connection w.connections,
        e.equals_iff target connection.peer_id,
        number_eq.equals_iff w.next_connection c,
      )

  pub connect-HasOpen :
      (is_offering : Bool) (target router : N) (w : WebRtcEndpoint N)
      → HasOpen w
      → HasOpen (connect is_offering target router w).0
  unfolding connect HasOpenBut
  connect-HasOpen is_offering target router w h = elim (Bool-cases w.stopped) [
    | inl s ↦ rw (connect, s) h
    | inr s ↦ elim (Option-cases (lookup target w.connections)) [
      | inl absent ↦
          rw (connect, s, absent) (open_connection-HasOpen is_offering target router w absent h)
      | inr (c, there) ↦ rw (connect, s, there) h
    ]
  ]

  -- Once it is closed, a connection need no longer be left out.
  forget-HasOpenBut :
      (c : ℕ) (cs : List ℕ) (connection : Connection N) (w : WebRtcEndpoint N)
      → lookup c w.made ≡ some connection
      → HasOpenBut (c ∷ cs) w
      → HasOpenBut cs (
          forget connection.peer_id c
            (lookup connection.peer_id w.connections)
            (record w { made = insert c (finish connection) w.made }))
  unfolding forget HasOpenBut
  forget-HasOpenBut c cs connection w there h =
      elim (Option-cases (lookup connection.peer_id w.connections)) [
        | inl absent ↦ rw absent (λ d other found. ground (
          arith,
          h d other,
          h c connection,
          lookup-insert c d (finish connection) w.made,
          number_eq.equals_iff c d,
        ))
        | inr (current, same) ↦ elim (Bool-cases (eqb current c)) [
          | inl equal ↦
              rw (same, equal)
                (λ d other found. ground (
                  arith,
                  equal,
                  same,
                  h d other,
                  h c connection,
                  lookup-insert c d (finish connection) w.made,
                  lookup-remove connection.peer_id other.peer_id w.connections,
                  e.equals_iff connection.peer_id other.peer_id,
                  number_eq.equals_iff c d,
                ))
          | inr different ↦
              rw (same, different)
                (λ d other found. ground (
                  arith,
                  h d other,
                  h c connection,
                  lookup-insert c d (finish connection) w.made,
                  number_eq.equals_iff c d,
                ))
        ]
      ]

  pub close_connection-HasOpenBut :
      (c : ℕ) (cs : List ℕ) (w : WebRtcEndpoint N)
      → HasOpenBut (c ∷ cs) w
      → HasOpenBut cs (close_connection c w)
  unfolding close_connection HasOpenBut
  close_connection-HasOpenBut c cs w h = elim (Option-cases (lookup c w.made)) [
    | inl absent ↦
        rw (close_connection, absent)
          (λ d other found. ground (arith, absent, h d other, number_eq.equals_iff c d))
    | inr (connection, there) ↦ elim (Bool-cases connection.is_finished) [
      | inl finished ↦
          rw (close_connection, there, finished)
            (λ d other found. ground (arith, finished, there, h d other, number_eq.equals_iff c d))
      | inr unfinished ↦
          rw (close_connection, there, unfinished) (forget-HasOpenBut c cs connection w there h)
    ]
  ]

  pub close-HasOpen : (target : N) (w : WebRtcEndpoint N) → HasOpen w → HasOpen (close target w)
  unfolding close HasOpenBut
  close-HasOpen target w h = elim (Option-cases (lookup target w.connections)) [
    | inl absent ↦ rw (close, absent) h
    | inr (c, there) ↦
        rw (close, there)
          (close_connection-HasOpenBut c [] (record w { connections = remove target w.connections })
            (λ d other found. ground (
              arith,
              there,
              h d other,
              lookup-remove target other.peer_id w.connections,
              e.equals_iff target other.peer_id,
            )))
  ]

  close_connections-HasOpenBut :
      (cs : List ℕ) (w : WebRtcEndpoint N) → HasOpenBut cs w → HasOpen (close_connections cs w)
  close_connections-HasOpenBut [] w h = h
  close_connections-HasOpenBut (c ∷ cs) w h =
      close_connections-HasOpenBut cs (close_connection c w) (close_connection-HasOpenBut c cs w h)

  pub stop_endpoint-HasOpen : (w : WebRtcEndpoint N) → HasOpen w → HasOpen (stop_endpoint w)
  unfolding stop_endpoint HasOpenBut
  stop_endpoint-HasOpen w h =
      close_connections-HasOpenBut (values w.connections)
        (record w { stopped = true; connections = [] })
        (λ c connection found.
          ground (arith, h c connection, names-values connection.peer_id w.connections c))
