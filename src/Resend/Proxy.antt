-- ===== src/Resend/Proxy.antt =====
-- src/resend/proxyRequestStream.ts: the messages of a request are sent to the node that asked.
use network_old.Base.{
  append_assoc, ◌≡◌, refl, ◌∙◌, Bool, true, false, List, [], ◌∷◌, ◌++◌, map, if◌then◌else◌,
}

-- What is sent: a message, or one of the responses.
pub data Response (U : Type 0) : Type 0 where
  resending resent no_resend : Response U
  unicast : U → Response U

-- The events of the stream.
pub data StreamEvent (U : Type 0) : Type 0 where
  data_read : U → StreamEvent U
  end_read : StreamEvent U

-- `first` is whether the handler that runs once has yet to run.
pub record Proxy (U : Type 0) : Type 0 where
  pub first : Bool
  pub fulfilled : Bool
  pub sent : List (Response U)

module _ {U : Type 0} where
  abbrev pub proxy_request_stream : Proxy U
  proxy_request_stream = record { first = true; fulfilled = false; sent = [] }

  unfoldable pub once_data : Proxy U → Proxy U
  once_data p =
      if p.first
      then record { first = false; fulfilled = true; sent = p.sent ++ resending ∷ [] }
      else p

  unfoldable pub on_event : Proxy U → StreamEvent U → Proxy U
  unfolding once_data
  on_event p (data_read message) =
      let p' = once_data p in record p' { sent = p'.sent ++ unicast message ∷ [] }
  on_event p end_read = record p {
    sent = p.sent ++ (if p.fulfilled then resent else no_resend) ∷ [];
  }

  unfoldable pub on_events : Proxy U → List (StreamEvent U) → Proxy U
  unfolding on_event
  on_events p [] = p
  on_events p (x ∷ xs) = on_events (on_event p x) xs

-- What the node that asked gets for the messages of a request.
abbrev pub responses : {U : Type 0} → List U → List (Response U)
responses [] = no_resend ∷ []
responses (u ∷ us) = resending ∷ unicast u ∷ (map unicast us ++ resent ∷ [])

on_events_fulfilled :
    {U : Type 0} (us : List U) (sent : List (Response U))
    → (on_events
        (record { first = false; fulfilled = true; sent = sent })
        (map data_read us ++ end_read ∷ [])).sent
      ≡ sent ++ (map unicast us ++ resent ∷ [])
unfolding on_events on_event once_data
on_events_fulfilled [] sent = refl
on_events_fulfilled (u ∷ us) sent =
    on_events_fulfilled us (sent ++ unicast u ∷ [])
    ∙ append_assoc sent (unicast u ∷ []) (map unicast us ++ resent ∷ [])

-- The node that asked gets all messages of the request in their order, after one response that they
-- follow and before one that they are complete, or the response that there are none.
pub on_events_all :
    {U : Type 0} (us : List U)
    → (on_events proxy_request_stream (map data_read us ++ end_read ∷ [])).sent ≡ responses us
unfolding on_events on_event once_data
on_events_all [] = refl
on_events_all (u ∷ us) = on_events_fulfilled us (resending ∷ unicast u ∷ [])
