-- ===== src/Resend/Attempts.antt =====
-- The neighbours that a proxied resend of src/resend/resendStrategies.ts asks.
use Prim.Native.Nat.{◌≤◌}
use network_old.Base.{
  ap, refl, contains-keep_if, leb, ◌<◌, ◌≡◌, String, string_eq, Eq, Bool, true, false, not, ◌&&◌,
  List, [], ◌∷◌, ◌++◌, some, Result, ok, err, if◌then◌else◌, keep_if, length, contains, add, delete,
  ◌==◌, Distinct, arith, contains-append, contains-delete, length-append, Bool-cases, inl, inr,
  if_elim, snoc-Distinct,
}
use network_old.Resend.Proxied.{
  ProxiedResend, ResponseType, resent, no_resend, resending, other, ProxiedError, ProxiedEvent,
  unicast_received, response_received, node_disconnected, sent, not_sent, timed_out, cancelled,
  is_current, end_stream, ask_first, ask_next_neighbor, on_unicast, respond, on_resend_response,
  on_node_disconnect, on_sent, on_not_sent, on_timeout, on_proxied_event,
}

not_asked_yet :
    {N : Type 0} ⦃e : Eq N⦄ (asked neighbors : List N) (node : N)
    → contains (keep_if (λ x. not (contains asked x)) neighbors) node ≡ true
    → contains asked node ≡ false
not_asked_yet asked neighbors node h =
    ground (arith, h, contains-keep_if (λ x. not (contains asked x)) neighbors node)

module _ {N U : Type 0} ⦃e : Eq N⦄ where
  -- What `getNeighbors` would return comes with each event. An error leaves the state as it is.
  abbrev pub or_same :
      ProxiedResend N U → Result ProxiedError (ProxiedResend N U) → ProxiedResend N U
  or_same p (ok p') = p'
  or_same p (err x) = p

  unfoldable pub proxied_steps :
      ProxiedResend N U → List (ProxiedEvent N U × List N) → ProxiedResend N U
  proxied_steps p [] = p
  proxied_steps p ((x, neighbors) ∷ xs) =
      proxied_steps (or_same p (on_proxied_event neighbors p x)) xs

  -- The request is sent to no more neighbours than may be, to none twice, and to those that are noted
  -- as asked; a send that has not ended is one of these.
  unfoldable pub IsBounded : ProxiedResend N U → Type 0
  IsBounded p =
      (length p.requests ≤ p.max_tries)
      × Distinct p.requests
      × (p.requests ≡ p.neighbors_asked)
      × ((node : N) → contains p.sends node ≡ true → contains p.requests node ≡ true)

  end_stream-IsBounded : (p : ProxiedResend N U) → IsBounded p → IsBounded (end_stream p)
  unfolding end_stream IsBounded
  end_stream-IsBounded p b = b

  ask_first-IsBounded :
      (candidates : List N) (p : ProxiedResend N U)
      → length p.neighbors_asked < p.max_tries
      → ((node : N) → contains candidates node ≡ true → contains p.neighbors_asked node ≡ false)
      → IsBounded p
      → IsBounded (ask_first candidates p)
  unfolding ask_first IsBounded add
  ask_first-IsBounded [] p h others b = end_stream-IsBounded p b
  ask_first-IsBounded (node ∷ candidates) p h others (few, once, same, sent_to) =
      let not_asked : contains p.neighbors_asked node ≡ false =
        others node (ground (arith, e.equals_iff node node)) in
      let not_sent_to : contains p.requests node ≡ false = rw same not_asked in
      (
        ground (arith, length-append p.requests (node ∷ []), h, ap length same),
        snoc-Distinct p.requests node not_sent_to once,
        rw (not_asked, same) refl,
        λ n there. ground (
          arith,
          contains-append p.sends (node ∷ []) n,
          contains-append p.requests (node ∷ []) n,
          sent_to n,
        ),
      )

  ask_next_neighbor-IsBounded :
      (neighbors : List N) (p : ProxiedResend N U)
      → IsBounded p
      → IsBounded (ask_next_neighbor neighbors p)
  unfolding ask_next_neighbor
  ask_next_neighbor-IsBounded neighbors p b =
      elim (Bool-cases (leb p.max_tries (length p.neighbors_asked))) [
        | inl h ↦ rw (ask_next_neighbor, h) (end_stream-IsBounded p b)
        | inr h ↦
            rw (ask_next_neighbor, h)
              (ask_first-IsBounded (keep_if (λ x. not (contains p.neighbors_asked x)) neighbors) p
                (ground (arith, h)) (not_asked_yet p.neighbors_asked neighbors) b)
      ]

  -- A test for a change that keeps the bounds.
  if-IsBounded :
      (b : Bool) (p q : ProxiedResend N U)
      → IsBounded p
      → IsBounded q
      → IsBounded (if b then p else q)
  if-IsBounded true p q h k = h
  if-IsBounded false p q h k = k

  after_send-IsBounded :
      (node : N) (p : ProxiedResend N U)
      → IsBounded p
      → IsBounded (record p { sends = delete p.sends node })
  unfolding IsBounded
  after_send-IsBounded node p b =
      (b.0, b.1, b.2, λ n there. ground (arith, contains-delete p.sends node n, b.3 n))

  respond-IsBounded :
      (neighbors : List N) (response : ResponseType) (p : ProxiedResend N U)
      → IsBounded p
      → IsBounded (or_same p (respond neighbors response p))
  unfolding respond IsBounded
  respond-IsBounded neighbors resent p b = end_stream-IsBounded p b
  respond-IsBounded neighbors no_resend p b = ask_next_neighbor-IsBounded neighbors p b
  respond-IsBounded neighbors resending p b = b
  respond-IsBounded neighbors other p b = b

  on_resend_response-IsBounded :
      (neighbors : List N) (request_id : String) (source : N) (response : ResponseType)
      (p : ProxiedResend N U)
      → IsBounded p
      → IsBounded (or_same p (on_resend_response neighbors request_id source response p))
  unfolding on_resend_response
  on_resend_response-IsBounded neighbors request_id source response p b =
      if_elim (λ (r : Result ProxiedError (ProxiedResend N U)). IsBounded (or_same p r))
        ((p.request_id == request_id) && is_current p.current_neighbor source)
        (respond-IsBounded neighbors response p b) b

  on_proxied_event-IsBounded :
      (neighbors : List N) (p : ProxiedResend N U) (x : ProxiedEvent N U)
      → IsBounded p
      → IsBounded (or_same p (on_proxied_event neighbors p x))
  unfolding IsBounded on_proxied_event on_unicast on_node_disconnect on_sent on_not_sent on_timeout
  on_proxied_event-IsBounded neighbors p (unicast_received request_id source message) b =
      if-IsBounded p.attached (on_unicast request_id source message p) p
        (if-IsBounded ((p.request_id == request_id) && is_current p.current_neighbor source)
          (record p { pushed = p.pushed ++ some message ∷ []; timeout_armed = true }) p b b)
        b
  on_proxied_event-IsBounded neighbors p (response_received request_id source response) b =
      if_elim (λ (r : Result ProxiedError (ProxiedResend N U)). IsBounded (or_same p r)) p.attached
        (on_resend_response-IsBounded neighbors request_id source response p b) b
  on_proxied_event-IsBounded neighbors p (node_disconnected node) b =
      if-IsBounded p.attached (on_node_disconnect neighbors node p) p
        (if-IsBounded (is_current p.current_neighbor node) (ask_next_neighbor neighbors p) p
          (ask_next_neighbor-IsBounded neighbors p b) b)
        b
  on_proxied_event-IsBounded neighbors p (sent node) b =
      if-IsBounded (contains p.sends node) (on_sent node p) p (after_send-IsBounded node p b) b
  on_proxied_event-IsBounded neighbors p (not_sent node) b =
      if-IsBounded (contains p.sends node) (on_not_sent neighbors node p) p
        (ask_next_neighbor-IsBounded neighbors (record p { sends = delete p.sends node })
          (after_send-IsBounded node p b))
        b
  on_proxied_event-IsBounded neighbors p timed_out b =
      if-IsBounded p.timeout_armed
        (ask_next_neighbor neighbors (record p { timeout_armed = false })) p
        (ask_next_neighbor-IsBounded neighbors (record p { timeout_armed = false }) b) b
  on_proxied_event-IsBounded neighbors p cancelled b = end_stream-IsBounded p b

  -- Whatever happens to a proxied resend, and whatever neighbours there are at the time, it sends its
  -- request to no neighbour twice, to no more neighbours than it may, and to exactly those that it has
  -- noted as asked, if all this held before; and a send that has not ended is one of these.
  pub proxied_steps-IsBounded :
      (p : ProxiedResend N U) (xs : List (ProxiedEvent N U × List N))
      → IsBounded p
      → IsBounded (proxied_steps p xs)
  unfolding proxied_steps
  proxied_steps-IsBounded p [] b = b
  proxied_steps-IsBounded p ((x, neighbors) ∷ xs) b =
      proxied_steps-IsBounded (or_same p (on_proxied_event neighbors p x)) xs
        (on_proxied_event-IsBounded neighbors p x b)
