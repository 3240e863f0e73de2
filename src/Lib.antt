-- ===== src/Lib.antt =====
-- A verification library for the peer-to-peer network of streams in this repository: nodes that pass
-- the messages of a stream on to each other, and trackers that tell the nodes of each stream who
-- their neighbours are. It models the logic of both sides, and none of the input and output.
--
-- The parts and how they interact:
--   * logic/Tracker.ts receives the statuses of nodes. It drops what is out of date
--     (logic/InstructionCounter.ts), gives the rest to the overlay of each stream
--     (logic/OverlayTopology.ts), and sends the instructions that the overlay forms, each with the
--     next counter of its node and stream.
--   * A node keeps its streams in logic/StreamManager.ts: the neighbours of each stream, the counter
--     of its last instruction, and for each publisher and chain of messages a detector of duplicates
--     (logic/DuplicateMessageDetector.ts), so that a message is passed on once.
--   * A node keeps the messages of a stream for which it has no neighbours yet in
--     helpers/MessageBuffer.ts, each for a limited time.
--   * A node handles the instructions for a stream one after another, and only the last of those that
--     come meanwhile (logic/InstructionThrottler.ts); it drops those with a lower counter. It handles
--     the last one again at an interval (logic/InstructionRetryManager.ts).
--   * logic/Node.ts joins these: a message that comes in is checked by the stream manager, sent to the
--     other nodes of its stream, or put in the buffer and marked in
--     helpers/SeenButNotPropagatedSet.ts until a node shares the stream; an instruction sets up the
--     stream, unsubscribes from the nodes that it does not name and connects to those that it does.
--   * A node asks for messages of the past by resend requests: resend/ResendHandler.ts gives each to one
--     strategy of resend/resendStrategies.ts after another, and resend/proxyRequestStream.ts sends what
--     is found to the node that asked.
--   * A node connects to its neighbours by connection/WebRtcEndpoint.ts, with signals that the trackers
--     relay. The messages to a neighbour wait in connection/MessageQueue.ts until the connection takes
--     them.
--
-- Which file models which part (paths below src/ of the repository; a definition has the name of the
-- function that it models, in snake case):
--   * Detector: logic/DuplicateMessageDetector.ts. `mark_and_check` is `markAndCheck`, and the array
--     of gaps is a list with its last entry first. `Detector.Order` is about pairs of numbers,
--     `Detector.Gaps` and `Detector.Marks` about the set of unseen numbers, and `Detector.Validity`,
--     `Detector.Answers` and `Detector.Histories` about the calls.
--   * Overlay: logic/OverlayTopology.ts. `form_instructions` runs `improve`, which is
--     `reduce_neighbors`, `add_neighbors` and `disconnect_neighbors`, the three parts of
--     `formInstructions`, and then its check. `Overlay.Links`, `Overlay.Updates`,
--     `Overlay.Relinks` and `Overlay.Sizes` say what the steps do to the links, the others what holds
--     of the whole.
--     `Overlay.Randomness` models the default random functions over random numbers from outside.
--   * Counters: logic/InstructionCounter.ts.
--   * Identifiers: the types of a status in identifiers.ts.
--   * Tracker: logic/Tracker.ts. `process_node_status` and `on_node_disconnected` are the handlers.
--     An outcome is the new state with the instructions sent, in order, or an error.
--   * Streams: logic/StreamManager.ts. `Streams.Operations` names the calls that change the state,
--     and `Streams.Chains` is about the messages that share a detector.
--   * Buffer: helpers/MessageBuffer.ts, with the timers that are armed as a part of the state.
--   * Throttler: logic/InstructionThrottler.ts. The calls of the handler that are awaited are a part of
--     the state, and `settle` is what follows when one of them ends. `Throttler.Events` has the
--     histories of calls and ends of calls, and `Throttler.Cases` what a new instruction finds.
--   * Retries: logic/InstructionRetryManager.ts, with the timers that are armed as a part of the state.
--     `run_interval` is a timer that runs, up to the `await` of `retryFunction`, and `after_retry` what
--     follows it. `Retries.Rounds` is about a handler that calls `add`, as the node's does.
--   * Seen: helpers/SeenButNotPropagatedSet.ts.
--   * Node: logic/Node.ts. `Node.Messages` has the messages and subscriptions, `Node.Instructions` the
--     instructions, timers and `stop`. A call gives back the node, with what it has sent in `effects`,
--     and the error that it throws, if any. Where the code waits for the network, the function ends,
--     and what follows is another: `on_delivered` and `on_not_delivered` follow `sendData`, and
--     `begin_instruction`, `on_instructed_node_connected` and `end_instruction` are the parts of
--     `handleTrackerInstruction`. `Node.Propagation` and `Node.Reception` are about a message that is
--     received, `Node.Delivery` about one that has to wait, and `Node.Failures` about a neighbour that
--     cannot be reached.
--   * Queue: connection/MessageQueue.ts, over the operations of a heap. `Queue.Order` has the list of
--     messages that it stands for, and `Queue.Steps` the histories of calls.
--   * Resend: resend/. `Resend.Bookkeeping` and `Resend.Handler` are ResendHandler.ts, where a call of
--     `loopThruResendStrategies` is a `Context` that the events of the streams move on;
--     `Resend.Delivery` and `Resend.Stops` are about it. `Resend.Proxied` (`ProxiedResend`),
--     `Resend.Pending` (`PendingTrackerResponseBookkeeper`) and `Resend.Foreign` (the two strategies)
--     are resendStrategies.ts; `Resend.Attempts` and `Resend.Timers` are about the first two.
--     `Resend.Proxy` is proxyRequestStream.ts.
--   * Rtc: connection/WebRtcEndpoint.ts, and of connection/Connection.ts what it reads and sets. A signal
--     from a tracker, or a change of a connection, is a step (`Rtc.Signals`); `Rtc.Connections` is about
--     the connections that are open, `Rtc.Descriptions` about what signals leave in one, and `Rtc.Offers` about an offer that comes again. What the
--     package node-datachannel takes of a description or a candidate, and does not throw for, comes
--     with the signal (`Reception`).
--   * Versions: connection/NegotiatedProtocolVersions.ts, and Peers: connection/PeerBook.ts, which a
--     node keeps of its connections.
--   * Base: what the parts share. A `Set` is a list without repetition and an object used as a
--     dictionary or a `Map` a list of entries, both in order of insertion (`Base.Sets`,
--     `Base.Dicts`); an exception is a value of `Result`; `===` on ids is the interface `Eq`.
--
-- Conventions: ids of nodes and keys of streams are any types with a test for equality, and a
-- stream's key stands for the stream. Timestamps and sequence numbers are natural numbers or
-- infinity; counters of instructions are natural numbers, and those of a status integers, as it may
-- carry -1. Random functions are parameters (`Choices`), of which `IsChoice` says that they permute
-- an array and pick one of its elements; the code's defaults are `default_choices`. State that a method
-- changes is passed from call to call. A method that throws gives back its error, and the state with
-- it where it has changed by then. What the package cancelable-promise does to a promise that is
-- cancelled is a parameter, of which `IsCancel` says what is documented. So are the package heap, of
-- which `IsHeap` says so, and the package lru-cache (`CacheOperations`), whose limits are not modelled.
--
-- Fuel: only the loop of `formInstructions` that takes links apart has no structural bound. It is
-- given as many rounds as there are targets, since each round takes at least one of them away.
--
-- Not modelled: the data channels of connection/Connection.ts, connection/WsEndpoint.ts and the protocol
-- messages (protocol/), which are calls of packages, and what the node does only to call them;
-- locations, with the lookup of a node's address for them, which is taken not to throw; metrics, of
-- which a node has the names alone; logging, and the texts of errors.
pub mod Base
pub mod Buffer
pub mod Counters
pub mod Detector
pub mod Identifiers
pub mod Node
pub mod Overlay
pub mod Peers
pub mod Queue
pub mod Resend
pub mod Retries
pub mod Rtc
pub mod Seen
pub mod Streams
pub mod Throttler
pub mod Tracker
pub mod Versions
