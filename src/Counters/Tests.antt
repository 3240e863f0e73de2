-- ===== src/Counters/Tests.antt =====
-- Runs of the instruction counter (src/logic/InstructionCounter.ts), and the theorems at concrete
-- inputs.
use network_old.Base.{
  ◌+◌, ◌≡◌, refl, String, string_eq, [], ◌∷◌, some, lookup, insert, update, pos, negsuc,
}
use network_old.Identifiers.{StreamStatus, StatusStreams}
use network_old.Counters.{Counters, set_or_increment, filter_status, remove_node, remove_stream}
use network_old.Counters.Laws.{IsSifted, counter_of, filter_status-set_or_increment}

abbrev report : StreamStatus String
report = record { inbound_nodes = "b" ∷ []; outbound_nodes = []; counter = pos 1 }

abbrev streams : StatusStreams String String
streams = ("s::0", report) ∷ ("t::0", record report { counter = negsuc 0 }) ∷ []

-- Node a has had two instructions for s::0.
abbrev counters : Counters String String
counters = ("a", ("s::0", 2) ∷ []) ∷ []

program : Unit {0}
unfolding set_or_increment filter_status lookup insert update counter_of remove_node remove_stream
program = tt

filtered :
    (filter_status counters streams "a").1 ≡ ("t::0", record report { counter = negsuc 0 }) ∷ []
unfolding program
filtered = refl

lookup-streams : lookup "s::0" streams ≡ some report
unfolding program
lookup-streams = refl

filter_status-set_or_increment_example :
    ((set_or_increment counters "a" "s::0").1 ≡ counter_of counters "a" "s::0" + 1)
    × IsSifted report
        (set_or_increment counters "a" "s::0").1
        (lookup "s::0" (filter_status (set_or_increment counters "a" "s::0").0 streams "a").1)
unfolding program
filter_status-set_or_increment_example =
    filter_status-set_or_increment counters "a" "s::0" streams report (refl, (refl, tt))
      lookup-streams
