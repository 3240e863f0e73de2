-- ===== src/Resend.antt =====
-- src/resend: requests for messages of the past.
pub mod Proxy
pub mod Bookkeeping
pub mod Handler
pub mod Delivery
pub mod Stops
pub mod Proxied
pub mod Attempts
pub mod Pending
pub mod Timers
pub mod Foreign
mod Tests
use network_old.Base.{ℕ, String, Option}
use network_old.Detector.{NumberPair}

-- What is asked for, the message references as pairs of numbers.
pub data RequestKind : Type 0 where
  last : ℕ → RequestKind
  from : NumberPair → Option String → RequestKind
  range : NumberPair → NumberPair → Option String → Option String → RequestKind

-- A request: its id, the key of its stream, and what is asked for.
pub record ResendRequest (K : Type 0) : Type 0 where
  pub request_id : String
  pub stream_key : K
  pub kind : RequestKind
