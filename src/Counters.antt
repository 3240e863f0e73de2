-- ===== src/Counters.antt =====
-- src/logic/InstructionCounter.ts: how many instructions a node has had for each stream, and which
-- of its reports are out of date.
pub mod Laws
mod Tests
use network_old.Base.{
  ℕ, ◌+◌, suc, Bool, ◌||◌, List, [], ◌∷◌, Option, none, some, Eq, Dict, lookup, insert, remove,
  update, map_values, at_least, is_minus_one, if◌then◌else◌,
}
use network_old.Identifiers.{StreamStatus, StatusStreams}

-- node id => stream key => counter
abbrev pub Counters : Type 0 → Type 0 → Type 0
Counters N K = Dict N (Dict K ℕ)

abbrev pub or_zero : Option ℕ → ℕ
or_zero none = 0
or_zero (some n) = n

abbrev pub or_no_counters : {K : Type 0} → Option (Dict K ℕ) → Dict K ℕ
or_no_counters none = []
or_no_counters (some m) = m

-- An entry is out of date if its counter is below the current one, unless it is -1.
abbrev pub is_current : {N : Type 0} → StreamStatus N → ℕ → Bool
is_current entry counter = at_least entry.counter counter || is_minus_one entry.counter

module _ {N K : Type 0} ⦃en : Eq N⦄ ⦃ek : Eq K⦄ where
  unfoldable pub get_and_set_if_necessary : Counters N K → N → K → Counters N K × ℕ
  get_and_set_if_necessary c node_id stream_key =
      let row = or_no_counters (lookup node_id c) in
      let value = or_zero (lookup stream_key row) in
      (insert node_id (insert stream_key value row) c, value)

  unfoldable pub set_or_increment : Counters N K → N → K → Counters N K × ℕ
  unfolding get_and_set_if_necessary
  set_or_increment c node_id stream_key =
      let (c', value) = get_and_set_if_necessary c node_id stream_key in
      (update node_id (update stream_key suc) c', value + 1)

  -- The loop over the entries of the status.
  unfoldable pub filter_status :
      Counters N K → StatusStreams N K → N → Counters N K × StatusStreams N K
  unfolding get_and_set_if_necessary
  filter_status c [] source = (c, [])
  filter_status c ((stream_key, entry) ∷ streams) source =
      let (c', current) = get_and_set_if_necessary c source stream_key in
      let (c'', filtered) = filter_status c' streams source in
      (c'', if is_current entry current then (stream_key, entry) ∷ filtered else filtered)

  unfoldable pub remove_node : Counters N K → N → Counters N K
  remove_node c node_id = remove node_id c

  unfoldable pub remove_stream : Counters N K → K → Counters N K
  remove_stream c stream_key = map_values (λ _ row. remove stream_key row) c
