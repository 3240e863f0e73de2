-- ===== src/Identifiers.antt =====
-- src/identifiers.ts: what a node reports of its streams. A stream's key stands for the stream.
use network_old.Base.{ℤ, List, Dict}

-- The entry of `StatusStreams` at one stream.
pub record StreamStatus (N : Type 0) : Type 0 where
  pub inbound_nodes : List N
  pub outbound_nodes : List N
  pub counter : ℤ

abbrev pub StatusStreams : Type 0 → Type 0 → Type 0
StatusStreams N K = Dict K (StreamStatus N)
