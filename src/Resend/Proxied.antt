-- ===== src/Resend/Proxied.antt =====
-- `ProxiedResend` in src/resend/resendStrategies.ts: a request is sent to one neighbour after another.
use network_old.Base.{
  ℕ, suc, leb, String, string_eq, ◌==◌, Eq, Bool, true, false, not, ◌&&◌, List, [], ◌∷◌, ◌++◌,
  Option, none, some, Result, ok, err, if◌then◌else◌, keep_if, length, contains, add, delete,
}

-- `N` is the type of node ids and `U` that of messages. `pushed` is what the response stream has got,
-- where `none` is its end. `timeout_armed` is whether the timer that `timeoutRef` holds is yet to run,
-- `attached` whether the handlers of events are attached, `sends` are the sends of the request that
-- have not ended, `requests` are the neighbours that the request has been sent to, in order, and
-- `done_calls` counts the calls of `onDoneCb`.
pub record ProxiedResend (N U : Type 0) : Type 0 where
  pub request_id : String
  pub max_tries : ℕ
  pub neighbors_asked : List N
  pub current_neighbor : Option N
  pub timeout_armed : Bool
  pub attached : Bool
  pub sends : List N
  pub requests : List N
  pub pushed : List (Option U)
  pub done_calls : ℕ

pub data ResponseType : Type 0 where
  resent no_resend resending other : ResponseType

pub data ProxiedError : Type 0 where
  unexpected_response : ProxiedError

-- What happens to a proxied resend: the network's messages and events, each with the id of the
-- request or the node, the ends of the sends, the timer, and a call of `cancel`.
pub data ProxiedEvent (N U : Type 0) : Type 0 where
  unicast_received : String → N → U → ProxiedEvent N U
  response_received : String → N → ResponseType → ProxiedEvent N U
  node_disconnected sent not_sent : N → ProxiedEvent N U
  timed_out cancelled : ProxiedEvent N U

abbrev pub is_current : {N : Type 0} ⦃e : Eq N⦄ → Option N → N → Bool
is_current none node = false
is_current (some current) node = current == node

module _ {N U : Type 0} ⦃e : Eq N⦄ where
  abbrev pub new_proxied_resend : String → ℕ → ProxiedResend N U
  new_proxied_resend request_id max_tries = record {
    request_id = request_id;
    max_tries = max_tries;
    neighbors_asked = [];
    current_neighbor = none;
    timeout_armed = false;
    attached = false;
    sends = [];
    requests = [];
    pushed = [];
    done_calls = 0;
  }

  unfoldable pub end_stream : ProxiedResend N U → ProxiedResend N U
  end_stream p = record p {
    timeout_armed = false;
    pushed = p.pushed ++ none ∷ [];
    attached = false;
    done_calls = suc p.done_calls;
  }

  abbrev pub reset_timeout : ProxiedResend N U → ProxiedResend N U
  reset_timeout p = record p { timeout_armed = true }

  -- The first candidate is asked.
  unfoldable pub ask_first : List N → ProxiedResend N U → ProxiedResend N U
  unfolding end_stream
  ask_first [] p = end_stream p
  ask_first (node ∷ candidates) p = record p {
    neighbors_asked = add p.neighbors_asked node;
    sends = p.sends ++ node ∷ [];
    requests = p.requests ++ node ∷ [];
    timeout_armed = false;
  }

  -- `neighbors` is what `getNeighbors` returns.
  unfoldable pub ask_next_neighbor : List N → ProxiedResend N U → ProxiedResend N U
  unfolding ask_first end_stream
  ask_next_neighbor neighbors p =
      if leb p.max_tries (length p.neighbors_asked)
      then end_stream p
      else ask_first (keep_if (λ x. not (contains p.neighbors_asked x)) neighbors) p

  unfoldable pub commence : List N → ProxiedResend N U → ProxiedResend N U
  unfolding ask_next_neighbor
  commence neighbors p = ask_next_neighbor neighbors (record p { attached = true })

  unfoldable pub on_unicast : String → N → U → ProxiedResend N U → ProxiedResend N U
  on_unicast request_id source message p =
      if (p.request_id == request_id) && is_current p.current_neighbor source
      then reset_timeout (record p { pushed = p.pushed ++ some message ∷ [] })
      else p

  unfoldable pub respond :
      List N → ResponseType → ProxiedResend N U → Result ProxiedError (ProxiedResend N U)
  unfolding end_stream ask_next_neighbor
  respond neighbors resent p = ok (end_stream p)
  respond neighbors no_resend p = ok (ask_next_neighbor neighbors p)
  respond neighbors resending p = ok (reset_timeout p)
  respond neighbors other p = err unexpected_response

  unfoldable pub on_resend_response :
      List N
      → String
      → N
      → ResponseType
      → ProxiedResend N U
      → Result ProxiedError (ProxiedResend N U)
  unfolding respond
  on_resend_response neighbors request_id source response p =
      if (p.request_id == request_id) && is_current p.current_neighbor source
      then respond neighbors response p
      else ok p

  unfoldable pub on_node_disconnect : List N → N → ProxiedResend N U → ProxiedResend N U
  unfolding ask_next_neighbor
  on_node_disconnect neighbors node p =
      if is_current p.current_neighbor node then ask_next_neighbor neighbors p else p

  unfoldable pub on_sent : N → ProxiedResend N U → ProxiedResend N U
  on_sent node p =
      reset_timeout (record p { current_neighbor = some node; sends = delete p.sends node })

  unfoldable pub on_not_sent : List N → N → ProxiedResend N U → ProxiedResend N U
  unfolding ask_next_neighbor
  on_not_sent neighbors node p =
      ask_next_neighbor neighbors (record p { sends = delete p.sends node })

  unfoldable pub on_timeout : List N → ProxiedResend N U → ProxiedResend N U
  unfolding ask_next_neighbor
  on_timeout neighbors p =
      if p.timeout_armed
      then ask_next_neighbor neighbors (record p { timeout_armed = false })
      else p

  -- An event of the network reaches the handlers only while they are attached, and a send ends only
  -- if it has not ended.
  unfoldable pub on_proxied_event :
      List N → ProxiedResend N U → ProxiedEvent N U → Result ProxiedError (ProxiedResend N U)
  unfolding on_unicast on_resend_response on_node_disconnect on_sent on_not_sent on_timeout
      end_stream
  on_proxied_event neighbors p (unicast_received request_id source message) =
      ok (if p.attached then on_unicast request_id source message p else p)
  on_proxied_event neighbors p (response_received request_id source response) =
      if p.attached then on_resend_response neighbors request_id source response p else ok p
  on_proxied_event neighbors p (node_disconnected node) =
      ok (if p.attached then on_node_disconnect neighbors node p else p)
  on_proxied_event neighbors p (sent node) =
      ok (if contains p.sends node then on_sent node p else p)
  on_proxied_event neighbors p (not_sent node) =
      ok (if contains p.sends node then on_not_sent neighbors node p else p)
  on_proxied_event neighbors p timed_out = ok (on_timeout neighbors p)
  on_proxied_event neighbors p cancelled = ok (end_stream p)
