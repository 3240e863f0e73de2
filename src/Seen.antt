-- ===== src/Seen.antt =====
-- src/helpers/SeenButNotPropagatedSet.ts: the messages that a node has seen, but passed on to no one.
use Prim.Native.String.{◌++◌ as ◌<>◌}
use network_old.Base.{ℕ, String, Bool}
use network_old.Detector.{NumberPair}
use network_old.Streams.{MessageId}

-- The operations of the package lru-cache that the set uses, on caches `C`.
pub record CacheOperations (C : Type 0) : Type 0 where
  pub cache_set : String → C → C
  pub cache_del : String → C → C
  pub cache_has : String → C → Bool
  pub cache_length : C → ℕ

-- How an id's stream (its id and partition) and its number (time and sequence number) are written,
-- with "-" between the two parts of each.
pub record IdTexts (K : Type 0) : Type 0 where
  pub stream_text : K → String
  pub number_text : NumberPair → String

unfoldable pub message_id_to_str : {K : Type 0} → IdTexts K → MessageId K → String
message_id_to_str texts id =
    texts.stream_text id.stream_key
    <> "-"
    <> texts.number_text id.number
    <> "-"
    <> id.publisher_id
    <> "-"
    <> id.msg_chain_id

module _ {K C : Type 0} (cache : CacheOperations C) (texts : IdTexts K) where
  unfoldable pub add_seen : MessageId K → C → C
  unfolding message_id_to_str
  add_seen id c = cache.cache_set (message_id_to_str texts id) c

  unfoldable pub delete_seen : MessageId K → C → C
  unfolding message_id_to_str
  delete_seen id c = cache.cache_del (message_id_to_str texts id) c

  unfoldable pub has_seen : MessageId K → C → Bool
  unfolding message_id_to_str
  has_seen id c = cache.cache_has (message_id_to_str texts id) c

unfoldable pub seen_size : {C : Type 0} → CacheOperations C → C → ℕ
seen_size cache c = cache.cache_length c
