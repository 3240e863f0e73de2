-- ===== src/Streams/Chains.antt =====
-- Message chains in src/logic/StreamManager.ts: which messages share a detector.
use Prim.Native.String.{count}
use text.Mathlib.TextLemmas.{append_inj, append_cancel_left}
use network_old.Base.{
  ◌≡◌, Bool, true, ◌&&◌, Option, string_eq, Eq, ◌==◌, arith, Bool-cases, inl, inr,
}
use network_old.Detector.{NumberPair}
use network_old.Streams.{
  StreamManager, MessageId, key_for_detector, is_set_up,
  mark_numbers_and_check_that_is_not_duplicate,
}
use network_old.Streams.Marks.{detector_in, mark_numbers_lem}
use network_old.Streams.Outbound.{is_set_up-outbound, outbound-mark}

-- Two messages are of one stream, one publisher and one chain of it.
abbrev pub IsSameChain : {K : Type 0} → MessageId K → MessageId K → Type 0
IsSameChain id other =
    (id.stream_key ≡ other.stream_key)
    × (id.publisher_id ≡ other.publisher_id)
    × (id.msg_chain_id ≡ other.msg_chain_id)

key_for_detector-injective :
    {K : Type 0} (id other : MessageId K)
    → count id.publisher_id ≡ count other.publisher_id
    → key_for_detector id ≡ key_for_detector other
    → (id.publisher_id ≡ other.publisher_id) × (id.msg_chain_id ≡ other.msg_chain_id)
unfolding key_for_detector
key_for_detector-injective id other as_long h =
    let (publishers, rest) = append_inj h as_long in
    (publishers, append_cancel_left "-" id.msg_chain_id other.msg_chain_id rest)

module _ {K : Type 0} ⦃ek : Eq K⦄ where
  -- The two messages have one detector.
  abbrev shares : MessageId K → MessageId K → Bool
  shares id other =
      (id.stream_key == other.stream_key) && (key_for_detector id == key_for_detector other)

  shares-IsSameChain :
      (id other : MessageId K)
      → count id.publisher_id ≡ count other.publisher_id
      → shares id other ≡ true
      → IsSameChain id other
  shares-IsSameChain id other as_long h =
      let streams : id.stream_key ≡ other.stream_key =
        ground (arith, h, ek.equals_iff id.stream_key other.stream_key) in
      let keys : key_for_detector id ≡ key_for_detector other =
        ground (arith, h, string_eq.equals_iff (key_for_detector id) (key_for_detector other)) in
      let (publishers, chains) = key_for_detector-injective id other as_long keys in
      (streams, publishers, chains)

module _ {N K : Type 0} ⦃en : Eq N⦄ ⦃ek : Eq K⦄ where
  is_set_up-mark :
      (m : StreamManager N K) (id : MessageId K) (previous : Option NumberPair) (k : K)
      → is_set_up (mark_numbers_and_check_that_is_not_duplicate m id previous).0 k ≡ is_set_up m k
  is_set_up-mark m id previous k = ground (
    arith,
    outbound-mark m id previous k,
    is_set_up-outbound m k,
    is_set_up-outbound (mark_numbers_and_check_that_is_not_duplicate m id previous).0 k,
  )

  -- Where the publishers' ids are of one length, as addresses are, messages of different streams,
  -- publishers or chains do not change each other's answer: what the call says of a message is the
  -- same with and without a message before it that is of another stream, publisher or chain.
  pub mark_apart :
      (m : StreamManager N K) (id other : MessageId K) (previous previous' : Option NumberPair)
      → count id.publisher_id ≡ count other.publisher_id
      → ¬ IsSameChain id other
      → let m' = (mark_numbers_and_check_that_is_not_duplicate m id previous).0 in
        (mark_numbers_and_check_that_is_not_duplicate m' other previous').1
        ≡ (mark_numbers_and_check_that_is_not_duplicate m other previous').1
  mark_apart m id other previous previous' as_long apart =
      let m' = (mark_numbers_and_check_that_is_not_duplicate m id previous).0 in
      let k = other.stream_key in
      let key = key_for_detector other in
      let kept : detector_in m' k key ≡ detector_in m k key = elim (Bool-cases (shares id other)) [
        | inl h ↦ absurd (apart (shares-IsSameChain id other as_long h))
        | inr h ↦ ground (arith, h, (mark_numbers_lem m id previous k).1 key)
      ] in
      ground (
        arith,
        (mark_numbers_lem m' other previous' k).0,
        (mark_numbers_lem m other previous' k).0,
        is_set_up-mark m id previous k,
        kept,
      )
