-- ===== src/Resend/Foreign.antt =====
-- `LocalResendStrategy` and `ForeignResendStrategy` in src/resend/resendStrategies.ts: what is asked
-- of the local storage, and the resends from the storage nodes that a tracker names.
use network_old.Base.{
  ℕ, ltb, String, string_eq, Eq, number_eq, Bool, true, false, not, ◌&&◌, List, [], ◌∷◌, ◌++◌,
  Option, none, some, Result, ok, err, ◌>>=◌, if◌then◌else◌, is_empty, add, delete, Dict, lookup,
  insert, remove,
}
use network_old.Detector.{NumberPair}
use network_old.Resend.{ResendRequest, RequestKind, last, from, range}
use network_old.Resend.Pending.{
  PendingResponses, new_pending, add_entry, pop_entries, clear_all_entries,
}
use network_old.Resend.Proxied.{
  ProxiedResend, ProxiedEvent, ProxiedError, cancelled, new_proxied_resend, commence,
  on_proxied_event,
}

-- A call of the storage: of `requestLast`, `requestFrom` or `requestRange`.
pub data StorageCall (K : Type 0) : Type 0 where
  request_last : K → ℕ → StorageCall K
  request_from : K → NumberPair → Option String → Option String → StorageCall K
  request_range : K → NumberPair → NumberPair → Option String → Option String → StorageCall K

-- The chain of messages is not used for the second kind.
unfoldable pub storage_call : {K : Type 0} → K → RequestKind → StorageCall K
storage_call stream (last n) = request_last stream n
storage_call stream (from start publisher) = request_from stream start publisher none
storage_call stream (range start end publisher chain) =
    request_range stream start end publisher chain

-- A response stream is named by a number. `requests` are the requests of the entries that wait, and
-- `resends` the proxied resends, with the node that each is from. `closed` are the response streams
-- that have been ended outside of a resend, and `disconnects` the calls of `disconnectFromNode`.
pub record ForeignResendStrategy (K N U : Type 0) : Type 0 where
  pub pending_tracker_response : PendingResponses K
  pub requests : Dict ℕ (ResendRequest K)
  pub pending_resends : Dict N (List ℕ)
  pub resends : Dict ℕ (ProxiedResend N U)
  pub closed : List (ResendRequest K)
  pub disconnects : List N

pub data ForeignError : Type 0 where
  no_pending_resends no_resend_of_id : ForeignError
  proxied : ProxiedError → ForeignError

-- What a request leads to at once: its stream ends, or a tracker is asked.
pub data Requested (N : Type 0) : Type 0 where
  ended_at_once : Requested N
  asks_tracker : N → Requested N

abbrev pub resends_or_none : Option (List ℕ) → List ℕ
resends_or_none none = []
resends_or_none (some resends) = resends

-- The loop over the storage nodes: the first that can be connected to.
unfoldable pub first_connected : {N : Type 0} → (N → Bool) → List N → Option N
first_connected connects [] = none
first_connected connects (node ∷ nodes) =
    let rest = first_connected connects nodes in if connects node then some node else rest

module _ {K N U : Type 0} ⦃ek : Eq K⦄ ⦃en : Eq N⦄ where
  abbrev pub new_foreign : ForeignResendStrategy K N U
  new_foreign = record {
    pending_tracker_response = new_pending;
    requests = [];
    pending_resends = [];
    resends = [];
    closed = [];
    disconnects = [];
  }

  abbrev pub close_stream :
      ResendRequest K → ForeignResendStrategy K N U → ForeignResendStrategy K N U
  close_stream request s = record s { closed = s.closed ++ request ∷ [] }

  unfoldable pub request_storage_nodes :
      (K → Option N)
      → ResendRequest K
      → ForeignResendStrategy K N U
      → ForeignResendStrategy K N U × Requested N
  request_storage_nodes get_tracker request s = elim (get_tracker request.stream_key) [
    | none ↦ (close_stream request s, ended_at_once)
    | some tracker ↦ (s, asks_tracker tracker)
  ]

  -- Only local requests, which have no source, are resent.
  unfoldable pub get_resend_response_stream :
      (K → Option N)
      → ResendRequest K
      → Option N
      → ForeignResendStrategy K N U
      → ForeignResendStrategy K N U × Requested N
  unfolding request_storage_nodes
  get_resend_response_stream get_tracker request none s =
      request_storage_nodes get_tracker request s
  get_resend_response_stream get_tracker request (some source) s =
      (close_stream request s, ended_at_once)

  -- The request to the tracker has been sent, or not.
  unfoldable pub on_request_sent :
      Bool → ResendRequest K → ForeignResendStrategy K N U → ForeignResendStrategy K N U
  on_request_sent true request s = record s {
    requests = insert s.pending_tracker_response.next_entry request s.requests;
    pending_tracker_response = add_entry request.stream_key s.pending_tracker_response;
  }
  on_request_sent false request s = close_stream request s

  abbrev pub close_all : List ℕ → ForeignResendStrategy K N U → ForeignResendStrategy K N U
  close_all [] s = s
  close_all (entry ∷ entries) s = elim (lookup entry s.requests) [
    | none ↦ close_all entries s
    | some request ↦ close_all entries (close_stream request s)
  ]

  -- A resend is kept under its node before it commences. The node is the only neighbour, which is
  -- asked once.
  unfoldable pub start_resend :
      N → ℕ → ResendRequest K → ForeignResendStrategy K N U → ForeignResendStrategy K N U
  start_resend node entry request s = record s {
    pending_resends =
        insert node (add (resends_or_none (lookup node s.pending_resends)) entry) s.pending_resends;
    resends =
        insert entry (commence (node ∷ []) (new_proxied_resend request.request_id 1)) s.resends;
  }

  abbrev pub start_resends : N → List ℕ → ForeignResendStrategy K N U → ForeignResendStrategy K N U
  start_resends node [] s = s
  start_resends node (entry ∷ entries) s = elim (lookup entry s.requests) [
    | none ↦ start_resends node entries s
    | some request ↦ start_resends node entries (start_resend node entry request s)
  ]

  -- The handler of the tracker's response. `connects` is which nodes can be connected to.
  unfoldable pub on_storage_nodes_response :
      (N → Bool) → K → List N → ForeignResendStrategy K N U → ForeignResendStrategy K N U
  unfolding first_connected start_resend
  on_storage_nodes_response connects stream nodes s =
      let (pending, entries) = pop_entries stream s.pending_tracker_response in
      let s' = record s { pending_tracker_response = pending } in
      if is_empty entries then s' else elim (first_connected connects nodes) [
        | none ↦ close_all entries s'
        | some node ↦ start_resends node entries s'
      ]

  -- The callback that a resend calls when it is done.
  unfoldable pub on_resend_done :
      (N → Bool)
      → N
      → ℕ
      → ForeignResendStrategy K N U
      → Result ForeignError (ForeignResendStrategy K N U)
  on_resend_done is_subscribed_to node entry s = elim (lookup node s.pending_resends) [
    | none ↦ err no_pending_resends
    | some resends ↦
        if is_empty (delete resends entry) && not (is_subscribed_to node)
        then ok (record s {
          pending_resends = remove node s.pending_resends;
          disconnects = s.disconnects ++ node ∷ [];
        })
        else ok
            (record s { pending_resends = insert node (delete resends entry) s.pending_resends })
  ]

  -- The resend after an event, and the callback if the event has ended its stream.
  unfoldable pub after_event :
      (N → Bool)
      → N
      → ℕ
      → ProxiedResend N U
      → Result ProxiedError (ProxiedResend N U)
      → ForeignResendStrategy K N U
      → Result ForeignError (ForeignResendStrategy K N U)
  unfolding on_resend_done
  after_event is_subscribed_to node entry p (err x) s = err (proxied x)
  after_event is_subscribed_to node entry p (ok p') s =
      let s' = record s { resends = insert entry p' s.resends } in
      if ltb p.done_calls p'.done_calls
      then on_resend_done is_subscribed_to node entry s'
      else ok s'

  unfoldable pub on_resend_event :
      (N → Bool)
      → N
      → ℕ
      → ProxiedEvent N U
      → ForeignResendStrategy K N U
      → Result ForeignError (ForeignResendStrategy K N U)
  unfolding after_event
  on_resend_event is_subscribed_to node entry x s = elim (lookup entry s.resends) [
    | none ↦ err no_resend_of_id
    | some p ↦ after_event is_subscribed_to node entry p (on_proxied_event (node ∷ []) p x) s
  ]

  abbrev pub cancel_resends :
      (N → Bool)
      → N
      → List ℕ
      → ForeignResendStrategy K N U
      → Result ForeignError (ForeignResendStrategy K N U)
  cancel_resends is_subscribed_to node [] s = ok s
  cancel_resends is_subscribed_to node (entry ∷ entries) s =
      on_resend_event is_subscribed_to node entry cancelled s
      >>= cancel_resends is_subscribed_to node entries

  abbrev pub cancel_resends_of_nodes :
      (N → Bool)
      → Dict N (List ℕ)
      → ForeignResendStrategy K N U
      → Result ForeignError (ForeignResendStrategy K N U)
  cancel_resends_of_nodes is_subscribed_to [] s = ok s
  cancel_resends_of_nodes is_subscribed_to ((node, entries) ∷ rest) s =
      cancel_resends is_subscribed_to node entries s
      >>= cancel_resends_of_nodes is_subscribed_to rest

  unfoldable pub stop_strategy :
      (N → Bool) → ForeignResendStrategy K N U → Result ForeignError (ForeignResendStrategy K N U)
  unfolding on_resend_event
  stop_strategy is_subscribed_to s =
      cancel_resends_of_nodes is_subscribed_to s.pending_resends s >>= λ s'.
      ok (record s' { pending_tracker_response = clear_all_entries s'.pending_tracker_response })
