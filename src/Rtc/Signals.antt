-- ===== src/Rtc/Signals.antt =====
-- What the signals and events that reach src/connection/WebRtcEndpoint.ts do to its connections.
use network_old.Base.{
  ℕ, refl, Eq, number_eq, Bool, List, [], ◌∷◌, some, lookup, arith, lookup-update, Option-cases,
  inl, inr, if_elim,
}
use network_old.Rtc.{
  Reception, ConnectionState, Connection, WebRtcEndpoint, set_remote_description,
  add_remote_candidate, is_remote_description_set, is_final, connect, close_connection, close,
  unless_stopped, on_connection, take_offer, reconnect_if_described, on_offer, on_answer,
  on_remote_candidate, on_rtc_connect, close_if_described, on_rtc_error, on_state_change,
  stop_endpoint,
}
use network_old.Rtc.Descriptions.{Keeps, set_remote_description-Keeps, add_remote_candidate-Keeps}
use network_old.Rtc.Connections.{
  HasOpenBut, HasOpen, connect-HasOpen, close_connection-HasOpenBut, close-HasOpen,
  stop_endpoint-HasOpen,
}

-- What happens to an endpoint: it is asked to connect, to close or to stop, a signal comes from a
-- tracker, with the peer and the router and with what the package takes of it, or a connection
-- changes its state or times out.
pub data Signal (N : Type 0) : Type 0 where
  asked_to_connect : Bool → N → N → Signal N
  offered : Reception → N → N → Signal N
  rtc_connected : N → N → Signal N
  answered : Bool → Reception → N → Signal N
  candidate_received : Bool → ℕ → N → Signal N
  rtc_failed asked_to_close : N → Signal N
  state_changed : ℕ → ConnectionState → Signal N
  connection_closed : ℕ → Signal N
  asked_to_stop : Signal N

module _ {N : Type 0} ⦃e : Eq N⦄ (below : N → N → Bool) where
  unfoldable pub on_signal : WebRtcEndpoint N → Signal N → WebRtcEndpoint N
  on_signal w (asked_to_connect is_offering target router) = (connect is_offering target router w).0
  on_signal w (offered reception target router) =
      unless_stopped (on_offer below reception target router) w
  on_signal w (rtc_connected target router) = unless_stopped (on_rtc_connect below target router) w
  on_signal w (answered agrees reception target) =
      unless_stopped (on_answer agrees reception target) w
  on_signal w (candidate_received takes_candidate candidate target) =
      unless_stopped (on_remote_candidate takes_candidate candidate target) w
  on_signal w (rtc_failed target) = unless_stopped (on_rtc_error target) w
  on_signal w (asked_to_close target) = close target w
  on_signal w (state_changed c state) = on_state_change c state w
  on_signal w (connection_closed c) = close_connection c w
  on_signal w asked_to_stop = stop_endpoint w

  unfoldable pub on_signals : WebRtcEndpoint N → List (Signal N) → WebRtcEndpoint N
  unfolding on_signal
  on_signals w [] = w
  on_signals w (x ∷ xs) = on_signals (on_signal w x) xs

module _ {N : Type 0} ⦃e : Eq N⦄ where
  weaken-HasOpen : (c : ℕ) (w : WebRtcEndpoint N) → HasOpen w → HasOpenBut (c ∷ []) w
  unfolding HasOpenBut
  weaken-HasOpen c w h d connection found = ground (arith, h d connection)

  on_connection-HasOpen :
      (c : ℕ) (f : Connection N → Connection N) (w : WebRtcEndpoint N)
      → ((x : Connection N) → Keeps x (f x))
      → HasOpen w
      → HasOpen (on_connection c f w)
  unfolding HasOpenBut
  on_connection-HasOpen c f w keeps h d connection found = elim (Option-cases (lookup d w.made)) [
    | inl absent ↦ absurd (ground (arith, absent, found, lookup-update c d f w.made))
    | inr (old, there) ↦ ground (arith, there, h d old, keeps old, lookup-update c d f w.made)
  ]

  reconnect-HasOpen :
      (below : N → N → Bool) (target router : N) (c : ℕ) (w : WebRtcEndpoint N)
      → HasOpen w
      → HasOpen (reconnect_if_described below target router c w)
  unfolding reconnect_if_described
  reconnect-HasOpen below target router c w h =
      if_elim (λ (v : WebRtcEndpoint N). HasOpen v) (is_remote_description_set (lookup c w.made))
        (connect-HasOpen (below w.own_id target) target router (close target w)
          (close-HasOpen target w h))
        h

  take_offer-HasOpen :
      (below : N → N → Bool) (reception : Reception) (target router : N) (w : WebRtcEndpoint N)
      → HasOpen w
      → HasOpen (take_offer below reception target router w)
  unfolding take_offer
  take_offer-HasOpen below reception target router w h =
      elim (Option-cases (lookup target w.connections)) [
        | inl absent ↦ rw (take_offer, absent) h
        | inr (c, there) ↦
            rw (take_offer, there)
              (on_connection-HasOpen c (set_remote_description reception)
                (reconnect_if_described below target router c w)
                (set_remote_description-Keeps reception)
                (reconnect-HasOpen below target router c w h))
      ]

  unless_stopped-HasOpen :
      (f : WebRtcEndpoint N → WebRtcEndpoint N) (w : WebRtcEndpoint N)
      → (HasOpen w → HasOpen (f w))
      → HasOpen w
      → HasOpen (unless_stopped f w)
  unless_stopped-HasOpen f w k h = if_elim (λ (v : WebRtcEndpoint N). HasOpen v) w.stopped h (k h)

  on_offer-HasOpen :
      (below : N → N → Bool) (reception : Reception) (target router : N) (w : WebRtcEndpoint N)
      → HasOpen w
      → HasOpen (on_offer below reception target router w)
  unfolding on_offer
  on_offer-HasOpen below reception target router w h =
      take_offer-HasOpen below reception target router
        (connect (below w.own_id target) target router w).0
        (connect-HasOpen (below w.own_id target) target router w h)

  on_answer-HasOpen :
      (agrees : Bool) (reception : Reception) (target : N) (w : WebRtcEndpoint N)
      → HasOpen w
      → HasOpen (on_answer agrees reception target w)
  unfolding on_answer
  on_answer-HasOpen agrees reception target w h =
      elim (Option-cases (lookup target w.connections)) [
        | inl absent ↦ rw (on_answer, absent) h
        | inr (c, there) ↦
            let w1 = on_connection c (set_remote_description reception) w in
            let h1 =
              on_connection-HasOpen c (set_remote_description reception) w
                (set_remote_description-Keeps reception) h in
            rw (on_answer, there)
              (if_elim (λ (v : WebRtcEndpoint N). HasOpen v) agrees h1 (close-HasOpen target w1 h1))
      ]

  on_remote_candidate-HasOpen :
      (takes_candidate : Bool) (candidate : ℕ) (target : N) (w : WebRtcEndpoint N)
      → HasOpen w
      → HasOpen (on_remote_candidate takes_candidate candidate target w)
  unfolding on_remote_candidate
  on_remote_candidate-HasOpen takes_candidate candidate target w h =
      elim (Option-cases (lookup target w.connections)) [
        | inl absent ↦ rw (on_remote_candidate, absent) h
        | inr (c, there) ↦
            rw (on_remote_candidate, there)
              (if_elim (λ (v : WebRtcEndpoint N). HasOpen v)
                (is_remote_description_set (lookup c w.made))
                (on_connection-HasOpen c (add_remote_candidate takes_candidate candidate) w
                  (add_remote_candidate-Keeps takes_candidate candidate) h)
                (on_connection-HasOpen c (λ x. record x { enqueued = some candidate }) w
                  (λ x. (refl, refl)) h))
      ]

  close_if_described-HasOpen :
      (target : N) (w : WebRtcEndpoint N) → HasOpen w → HasOpen (close_if_described target w)
  unfolding close_if_described
  close_if_described-HasOpen target w h = elim (Option-cases (lookup target w.connections)) [
    | inl absent ↦ rw (close_if_described, absent) h
    | inr (c, there) ↦
        rw (close_if_described, there)
          (if_elim (λ (v : WebRtcEndpoint N). HasOpen v)
            (is_remote_description_set (lookup c w.made)) (close-HasOpen target w h) h)
  ]

  on_rtc_connect-HasOpen :
      (below : N → N → Bool) (target router : N) (w : WebRtcEndpoint N)
      → HasOpen w
      → HasOpen (on_rtc_connect below target router w)
  unfolding on_rtc_connect
  on_rtc_connect-HasOpen below target router w h =
      connect-HasOpen (below w.own_id target) target router (close_if_described target w)
        (close_if_described-HasOpen target w h)

  on_rtc_error-HasOpen :
      (target : N) (w : WebRtcEndpoint N) → HasOpen w → HasOpen (on_rtc_error target w)
  unfolding on_rtc_error
  on_rtc_error-HasOpen target w h = elim (Option-cases (lookup target w.connections)) [
    | inl absent ↦ rw (on_rtc_error, absent) h
    | inr (c, there) ↦
        rw (on_rtc_error, there) (close_connection-HasOpenBut c [] w (weaken-HasOpen c w h))
  ]

  on_state_change-HasOpen :
      (c : ℕ) (state : ConnectionState) (w : WebRtcEndpoint N)
      → HasOpen w
      → HasOpen (on_state_change c state w)
  unfolding on_state_change
  on_state_change-HasOpen c state w h =
      let w1 = on_connection c (λ x. record x { last_state = state }) w in
      let h1 =
        on_connection-HasOpen c (λ x. record x { last_state = state }) w (λ x. (refl, refl)) h in
      elim (Option-cases (lookup c w.made)) [
        | inl absent ↦ rw (on_state_change, absent) h
        | inr (connection, there) ↦
            rw (on_state_change, there)
              (if_elim (λ (v : WebRtcEndpoint N). HasOpen v) connection.is_finished h
                (if_elim (λ (v : WebRtcEndpoint N). HasOpen v) (is_final state)
                  (close_connection-HasOpenBut c [] w1 (weaken-HasOpen c w1 h1)) h1))
      ]

  on_signal-HasOpen :
      (below : N → N → Bool) (w : WebRtcEndpoint N) (x : Signal N)
      → HasOpen w
      → HasOpen (on_signal below w x)
  unfolding on_signal
  on_signal-HasOpen below w (asked_to_connect is_offering target router) h =
      connect-HasOpen is_offering target router w h
  on_signal-HasOpen below w (offered reception target router) h =
      unless_stopped-HasOpen (on_offer below reception target router) w
        (on_offer-HasOpen below reception target router w) h
  on_signal-HasOpen below w (rtc_connected target router) h =
      unless_stopped-HasOpen (on_rtc_connect below target router) w
        (on_rtc_connect-HasOpen below target router w) h
  on_signal-HasOpen below w (answered agrees reception target) h =
      unless_stopped-HasOpen (on_answer agrees reception target) w
        (on_answer-HasOpen agrees reception target w) h
  on_signal-HasOpen below w (candidate_received takes_candidate candidate target) h =
      unless_stopped-HasOpen (on_remote_candidate takes_candidate candidate target) w
        (on_remote_candidate-HasOpen takes_candidate candidate target w) h
  on_signal-HasOpen below w (rtc_failed target) h =
      unless_stopped-HasOpen (on_rtc_error target) w (on_rtc_error-HasOpen target w) h
  on_signal-HasOpen below w (asked_to_close target) h = close-HasOpen target w h
  on_signal-HasOpen below w (state_changed c state) h = on_state_change-HasOpen c state w h
  on_signal-HasOpen below w (connection_closed c) h =
      close_connection-HasOpenBut c [] w (weaken-HasOpen c w h)
  on_signal-HasOpen below w asked_to_stop h = stop_endpoint-HasOpen w h

  -- Whatever signals come and whatever happens to the connections, in whatever order: a connection
  -- that is not finished is the one that the endpoint has for its peer. So no connection is lost
  -- while it is open, and none is open beside another to the same peer.
  pub on_signals-HasOpen :
      (below : N → N → Bool) (w : WebRtcEndpoint N) (xs : List (Signal N))
      → HasOpen w
      → HasOpen (on_signals below w xs)
  unfolding on_signals
  on_signals-HasOpen below w [] h = h
  on_signals-HasOpen below w (x ∷ xs) h =
      on_signals-HasOpen below (on_signal below w x) xs (on_signal-HasOpen below w x h)
