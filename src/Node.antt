-- ===== src/Node.antt =====
-- src/logic/Node.ts: a node, which passes messages on to its neighbours, follows the instructions of
-- trackers and tells them its status.
pub mod Messages
pub mod Instructions
pub mod Propagation
pub mod Reception
pub mod Delivery
pub mod Failures
mod Tests
use network_old.Base.{
  eqb, ℕ, suc, String, string_eq, Eq, Bool, true, false, List, [], ◌∷◌, ◌++◌, Option, none, some,
  Result, ok, err, ensure, if◌then◌else◌, contains, of_list, Dict, lookup, insert, ◌==◌,
}
use network_old.Detector.{NumberPair}
use network_old.Identifiers.{StatusStreams}
use network_old.Streams.{
  StreamManager, MessageId, StreamError, is_set_up, set_up_stream, get_stream_state,
  get_streams_with_connections,
}
use network_old.Buffer.{new_buffer, MessageBuffer, BufferError}
use network_old.Throttler.{new_throttler, InstructionThrottler, ThrottlerError}
use network_old.Retries.{new_retry_manager, InstructionRetryManager}
use network_old.Seen.{CacheOperations, IdTexts}

pub record StreamMessage (K B : Type 0) : Type 0 where
  pub message_id : MessageId K
  pub prev_msg_ref : Option NumberPair
  pub content : B

-- What an instruction has besides its stream and its counter, with the id of the tracker.
pub record InstructionBody (N : Type 0) : Type 0 where
  pub tracker_id : N
  pub node_ids : List N

-- What the node does to others. `sent_status` has the streams of the status, and whether it is of a
-- single stream.
pub data Effect (K N B : Type 0) : Type 0 where
  sent_data : N → StreamMessage K B → Effect K N B
  sent_status : N → StatusStreams N K → Bool → Effect K N B
  connects_to : N → N → Effect K N B
  disconnects_from cancels_resends_of : N → Effect K N B
  handles_resend : Option N → Effect K N B

-- `K` is the type of stream keys, `N` that of the ids of nodes and trackers, `A` that of addresses of
-- trackers, `C` that of caches, and `B` that of contents of messages. `armed` are the timers that are
-- set and neither cleared nor run, with the node that each may disconnect. `effects` has what the node
-- has done, in order.
pub record Node (K N A C B : Type 0) : Type 0 where
  pub disconnection_timers : Dict N ℕ
  pub armed : Dict ℕ N
  pub next_timer : ℕ
  pub streams : StreamManager N K
  pub message_buffer : MessageBuffer K (StreamMessage K B × Option N)
  pub seen_but_not_propagated : C
  pub tracker_book : Dict A N
  pub instruction_throttler : InstructionThrottler K (InstructionBody N)
  pub instruction_retry_manager : InstructionRetryManager K (InstructionBody N)
  pub consecutive_delivery_failures : Dict N ℕ
  pub effects : List (Effect K N B)

-- What the node is made with: the cache, the texts of ids, the registry's address of a stream's
-- tracker, the order of ids as texts, and whether it is a storage node.
pub record Surroundings (K N A C : Type 0) : Type 0 where
  pub cache : CacheOperations C
  pub texts : IdTexts K
  pub get_tracker : K → A
  pub below : N → N → Bool
  pub is_storage : Bool

pub data NodeError : Type 0 where
  not_a_recorded_metric : NodeError
  in_streams : StreamError → NodeError
  in_buffer : BufferError → NodeError
  in_throttler : ThrottlerError → NodeError

-- The metrics that the constructor adds to be recorded.
abbrev pub recorded_metrics : List String
recorded_metrics =
    "resendRequests" ∷ "unexpectedTrackerInstructions" ∷ "trackerInstructions" ∷ "onDataReceived"
    ∷ "onDataReceived:invalidNumbering" ∷ "onDataReceived:gapMismatch"
    ∷ "onDataReceived:ignoredDuplicate" ∷ "propagateMessage" ∷ "onSubscribeRequest"
    ∷ "onUnsubscribeRequest" ∷ "onNodeDisconnect" ∷ []

-- `record` throws unless the metric has been added. What it adds up is not modelled.
abbrev pub record_metric : String → Result NodeError (Unit {0})
record_metric name = ensure (contains recorded_metrics name) not_a_recorded_metric

-- The node after a call, with the error that the call has thrown, if any.
abbrev pub Outcome : Type 0 → Type 0
Outcome S = S × Result NodeError (Unit {0})

abbrev pub done : {S : Type 0} → S → Outcome S
done n = (n, ok tt)

abbrev pub and_then : {S : Type 0} → Outcome S → (S → Outcome S) → Outcome S
and_then (n, ok u) f = f n
and_then (n, err x) f = (n, err x)

-- A test, or a metric, that may throw before the node goes on.
abbrev pub after_metric :
    {S : Type 0} → S → Result NodeError (Unit {0}) → (S → Outcome S) → Outcome S
after_metric n (ok u) f = f n
after_metric n (err x) f = (n, err x)

abbrev pub is_same : {N : Type 0} ⦃e : Eq N⦄ → Option N → N → Bool
is_same none node = false
is_same (some other) node = other == node

-- 0 is as no number.
abbrev pub buffer_max_size : Option ℕ → ℕ
buffer_max_size none = 10000
buffer_max_size (some max) = if eqb max 0 then 10000 else max

module _ {K N A C B : Type 0} ⦃ek : Eq K⦄ ⦃en : Eq N⦄ ⦃ea : Eq A⦄ where
  abbrev pub emit : Effect K N B → Node K N A C B → Node K N A C B
  emit x n = record n { effects = n.effects ++ x ∷ [] }

  -- `max` is the option `bufferMaxSize`, and `cache` a new cache.
  abbrev pub new_node : Option ℕ → C → Node K N A C B
  new_node max cache = record {
    disconnection_timers = [];
    armed = [];
    next_timer = 0;
    streams = [];
    message_buffer = new_buffer (buffer_max_size max);
    seen_but_not_propagated = cache;
    tracker_book = [];
    instruction_throttler = new_throttler;
    instruction_retry_manager = new_retry_manager;
    consecutive_delivery_failures = [];
    effects = [];
  }

  -- The streams after a call that may throw.
  abbrev pub with_streams :
      Node K N A C B → Result StreamError (StreamManager N K) → Outcome (Node K N A C B)
  with_streams n (ok m) = done (record n { streams = m })
  with_streams n (err x) = (n, err (in_streams x))

  -- Ids are taken not to be empty.
  unfoldable pub get_tracker_id : Surroundings K N A C → Node K N A C B → K → Option N
  get_tracker_id s n stream = lookup (s.get_tracker stream) n.tracker_book

  unfoldable pub prepare_and_send_stream_status :
      Surroundings K N A C → K → Node K N A C B → Node K N A C B
  unfolding get_tracker_id
  prepare_and_send_stream_status s stream n = elim (get_tracker_id s n stream) [
    | none ↦ n
    | some tracker ↦ emit (sent_status tracker (get_stream_state n.streams stream) true) n
  ]

  unfoldable pub prepare_and_send_full_status :
      Surroundings K N A C → N → Node K N A C B → Node K N A C B
  unfolding get_tracker_id
  prepare_and_send_full_status s tracker n =
      emit
        (sent_status tracker
          (get_streams_with_connections n.streams (λ k. is_same (get_tracker_id s n k) tracker))
          false)
        n

  unfoldable pub on_connected_to_tracker :
      Surroundings K N A C → A → N → Node K N A C B → Node K N A C B
  unfolding prepare_and_send_full_status
  on_connected_to_tracker s address tracker n =
      prepare_and_send_full_status s tracker
        (record n { tracker_book = insert address tracker n.tracker_book })

  unfoldable pub subscribe_to_stream_if_have_not_yet :
      Surroundings K N A C → Bool → K → Node K N A C B → Outcome (Node K N A C B)
  unfolding prepare_and_send_stream_status
  subscribe_to_stream_if_have_not_yet s send_status stream n =
      if is_set_up n.streams stream
      then done n
      else and_then (with_streams n (set_up_stream n.streams stream))
          (λ n'. done (if send_status then prepare_and_send_stream_status s stream n' else n'))

  unfoldable pub request_resend :
      Surroundings K N A C → K → Option N → Node K N A C B → Outcome (Node K N A C B)
  unfolding subscribe_to_stream_if_have_not_yet
  request_resend s stream source n = after_metric n (record_metric "resendRequests") (λ n'.
      and_then
        (if s.is_storage then subscribe_to_stream_if_have_not_yet s true stream n' else done n')
        (λ n2. done (emit (handles_resend source) n2)))
