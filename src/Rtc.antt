-- ===== src/Rtc.antt =====
-- src/connection/WebRtcEndpoint.ts: the connections to other peers, which signals from trackers open.
pub mod Connections
pub mod Descriptions
pub mod Signals
pub mod Offers
mod Tests
use network_old.Base.{
  ℕ, suc, eqb, Eq, number_eq, Bool, true, false, not, ◌||◌, List, [], ◌∷◌, ◌++◌, Option, none, some,
  if◌then◌else◌, Dict, values, lookup, insert, remove, update, has_key,
}

-- The states of a connection that `getLastState` may give.
pub data ConnectionState : Type 0 where
  unknown connecting connected disconnected failed closed : ConnectionState

-- Of src/connection/Connection.ts, what the endpoint reads and sets. `enqueued` are the candidates that
-- wait for the remote description, of which the last is kept.
pub record Connection (N : Type 0) : Type 0 where
  pub peer_id : N
  pub is_offering : Bool
  pub is_finished : Bool
  pub remote_description_set : Bool
  pub enqueued : Option ℕ
  pub remote_candidates : List ℕ
  pub last_state : ConnectionState

-- `made` are all connections that the endpoint has made, by a number, and `connections` those that it
-- has now. `needed` are the calls of `onConnectionNeeded`, with the router and the peer.
pub record WebRtcEndpoint (N : Type 0) : Type 0 where
  pub own_id : N
  pub stopped : Bool
  pub connections : Dict N ℕ
  pub made : Dict ℕ (Connection N)
  pub next_connection : ℕ
  pub needed : List (N × N)

-- What the promise of `connect` does: it is rejected or resolved at once, or waits for a connection.
pub data Connecting : Type 0 where
  rejected resolved : Connecting
  waits_for : ℕ → Connecting

abbrev pub is_settled : ConnectionState → Bool
is_settled unknown = false
is_settled connecting = false
is_settled connected = true
is_settled disconnected = false
is_settled failed = true
is_settled closed = true

abbrev pub is_final : ConnectionState → Bool
is_final unknown = false
is_final connecting = false
is_final connected = false
is_final disconnected = true
is_final failed = true
is_final closed = true

-- Which calls of the package node-datachannel throw: whether it takes the description that it is
-- given, and whether it takes the candidate.
pub record Reception : Type 0 where
  pub takes_description : Bool
  pub takes_candidate : Bool

-- The candidate that waits, once the description is set. If the package throws, it goes on waiting.
unfoldable pub add_enqueued : {N : Type 0} → Bool → Connection N → Connection N
add_enqueued takes_candidate c = elim c.enqueued [
  | none ↦ c
  | some candidate ↦
      if takes_candidate
      then record c { remote_candidates = c.remote_candidates ++ candidate ∷ []; enqueued = none }
      else c
]

-- A finished connection has no peer connection, and is left as it is; so is one whose description is
-- not taken.
unfoldable pub set_remote_description : {N : Type 0} → Reception → Connection N → Connection N
unfolding add_enqueued
set_remote_description reception c =
    if c.is_finished
    then c
    else if reception.takes_description
    then add_enqueued reception.takes_candidate (record c { remote_description_set = true })
    else c

unfoldable pub add_remote_candidate : {N : Type 0} → Bool → ℕ → Connection N → Connection N
add_remote_candidate takes_candidate candidate c =
    if c.is_finished || not takes_candidate
    then c
    else record c { remote_candidates = c.remote_candidates ++ candidate ∷ [] }

abbrev pub finish : {N : Type 0} → Connection N → Connection N
finish c = record c { is_finished = true; enqueued = none }

abbrev pub is_remote_description_set : {N : Type 0} → Option (Connection N) → Bool
is_remote_description_set none = false
is_remote_description_set (some c) = c.remote_description_set

abbrev pub promise_for : {N : Type 0} → ℕ → Option (Connection N) → Connecting
promise_for c none = waits_for c
promise_for c (some connection) = if is_settled connection.last_state then resolved else waits_for c

module _ {N : Type 0} ⦃e : Eq N⦄ where
  abbrev pub new_endpoint : N → WebRtcEndpoint N
  new_endpoint own_id = record {
    own_id = own_id;
    stopped = false;
    connections = [];
    made = [];
    next_connection = 0;
    needed = [];
  }

  -- `is_offering` is the argument of `connect`, or its default.
  unfoldable pub open_connection : Bool → N → N → WebRtcEndpoint N → WebRtcEndpoint N
  open_connection is_offering target router w = record w {
    connections = insert target w.next_connection w.connections;
    made =
        insert w.next_connection
          (record {
            peer_id = target;
            is_offering = is_offering;
            is_finished = false;
            remote_description_set = false;
            enqueued = none;
            remote_candidates = [];
            last_state = unknown;
          })
          w.made;
    next_connection = suc w.next_connection;
    needed = if is_offering then w.needed else w.needed ++ (router, target) ∷ [];
  }

  unfoldable pub connect : Bool → N → N → WebRtcEndpoint N → WebRtcEndpoint N × Connecting
  unfolding open_connection
  connect is_offering target router w =
      if w.stopped then (w, rejected) else elim (lookup target w.connections) [
        | some c ↦ (w, promise_for c (lookup c w.made))
        | none ↦ (open_connection is_offering target router w, waits_for w.next_connection)
      ]

  -- The handler of the event `close` of a connection: another that has replaced it is kept.
  unfoldable pub forget : N → ℕ → Option ℕ → WebRtcEndpoint N → WebRtcEndpoint N
  forget target c none w = w
  forget target c (some other) w =
      if eqb other c then record w { connections = remove target w.connections } else w

  -- `close` of a connection, with the event that it emits if it is not finished.
  unfoldable pub close_connection : ℕ → WebRtcEndpoint N → WebRtcEndpoint N
  unfolding forget
  close_connection c w = elim (lookup c w.made) [
    | none ↦ w
    | some connection ↦
        if connection.is_finished
        then w
        else forget connection.peer_id c (lookup connection.peer_id w.connections)
            (record w { made = insert c (finish connection) w.made })
  ]

  unfoldable pub close : N → WebRtcEndpoint N → WebRtcEndpoint N
  unfolding close_connection
  close target w = elim (lookup target w.connections) [
    | none ↦ w
    | some c ↦ close_connection c (record w { connections = remove target w.connections })
  ]

  -- A listener for signals, which `stop` takes away.
  abbrev pub unless_stopped :
      (WebRtcEndpoint N → WebRtcEndpoint N) → WebRtcEndpoint N → WebRtcEndpoint N
  unless_stopped f w = if w.stopped then w else f w

  abbrev pub on_connection : ℕ → (Connection N → Connection N) → WebRtcEndpoint N → WebRtcEndpoint N
  on_connection c f w = record w { made = update c f w.made }

  -- A connection that has its remote description is replaced by a new one.
  unfoldable pub reconnect_if_described :
      (N → N → Bool) → N → N → ℕ → WebRtcEndpoint N → WebRtcEndpoint N
  unfolding close connect
  reconnect_if_described below target router c w =
      if is_remote_description_set (lookup c w.made)
      then (connect (below w.own_id target) target router (close target w)).0
      else w

  -- The part of the listener for offers after it has called `connect`. The connection that gets the
  -- description is the one from before a new one is opened.
  unfoldable pub take_offer :
      (N → N → Bool) → Reception → N → N → WebRtcEndpoint N → WebRtcEndpoint N
  unfolding reconnect_if_described set_remote_description
  take_offer below reception target router w = elim (lookup target w.connections) [
    | none ↦ w
    | some c ↦
        on_connection c (set_remote_description reception)
          (reconnect_if_described below target router c w)
  ]

  -- `below` is the order of ids.
  unfoldable pub on_offer : (N → N → Bool) → Reception → N → N → WebRtcEndpoint N → WebRtcEndpoint N
  unfolding take_offer connect
  on_offer below reception target router w =
      take_offer below reception target router (connect (below w.own_id target) target router w).0

  -- `agrees` is whether the protocol versions can be negotiated.
  unfoldable pub on_answer : Bool → Reception → N → WebRtcEndpoint N → WebRtcEndpoint N
  unfolding close set_remote_description
  on_answer agrees reception target w = elim (lookup target w.connections) [
    | none ↦ w
    | some c ↦
        let w1 = on_connection c (set_remote_description reception) w in
        if agrees then w1 else close target w1
  ]

  unfoldable pub on_remote_candidate : Bool → ℕ → N → WebRtcEndpoint N → WebRtcEndpoint N
  unfolding add_remote_candidate
  on_remote_candidate takes_candidate candidate target w = elim (lookup target w.connections) [
    | none ↦ w
    | some c ↦
        if is_remote_description_set (lookup c w.made)
        then on_connection c (add_remote_candidate takes_candidate candidate) w
        else on_connection c (λ connection. record connection { enqueued = some candidate }) w
  ]

  -- A connection that has its remote description is closed, as a new one is to be formed.
  unfoldable pub close_if_described : N → WebRtcEndpoint N → WebRtcEndpoint N
  unfolding close
  close_if_described target w = elim (lookup target w.connections) [
    | none ↦ w
    | some c ↦ if is_remote_description_set (lookup c w.made) then close target w else w
  ]

  unfoldable pub on_rtc_connect : (N → N → Bool) → N → N → WebRtcEndpoint N → WebRtcEndpoint N
  unfolding close_if_described connect
  on_rtc_connect below target router w =
      (connect (below w.own_id target) target router (close_if_described target w)).0

  unfoldable pub on_rtc_error : N → WebRtcEndpoint N → WebRtcEndpoint N
  unfolding close_connection
  on_rtc_error target w = elim (lookup target w.connections) [
    | none ↦ w
    | some c ↦ close_connection c w
  ]

  -- `onStateChange`, whose handler is taken away when the connection is finished.
  unfoldable pub on_state_change : ℕ → ConnectionState → WebRtcEndpoint N → WebRtcEndpoint N
  unfolding close_connection
  on_state_change c state w = elim (lookup c w.made) [
    | none ↦ w
    | some connection ↦
        if connection.is_finished
        then w
        else let w' = on_connection c (λ x. record x { last_state = state }) w in
          if is_final state then close_connection c w' else w'
  ]

  abbrev pub close_connections : List ℕ → WebRtcEndpoint N → WebRtcEndpoint N
  close_connections [] w = w
  close_connections (c ∷ cs) w = close_connections cs (close_connection c w)

  unfoldable pub stop_endpoint : WebRtcEndpoint N → WebRtcEndpoint N
  unfolding close_connection
  stop_endpoint w =
      close_connections (values w.connections) (record w { stopped = true; connections = [] })
