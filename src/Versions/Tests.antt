-- ===== src/Versions/Tests.antt =====
-- Runs of the negotiation of versions (src/connection/NegotiatedProtocolVersions.ts), and the theorem
-- at concrete inputs.
use network_old.Base.{◌≡◌, refl, string_eq, [], ◌∷◌, ok, err, lookup, insert}
use network_old.Versions.{
  ProtocolVersion, Supported, missing_versions, unsupported_message_layer, max_of, highest_shared,
  validate_protocol_versions, negotiate_protocol_version,
}
use network_old.Versions.Agreement.{IsHighest, validate_protocol_versions_agree}

program : Unit {0}
unfolding max_of highest_shared validate_protocol_versions negotiate_protocol_version lookup insert
program = tt

abbrev older : Supported
older = record { control_layer_versions = 1 ∷ 2 ∷ []; message_layer_versions = 32 ∷ 31 ∷ [] }

abbrev newer : Supported
newer = record { control_layer_versions = 2 ∷ 3 ∷ []; message_layer_versions = 31 ∷ 32 ∷ 33 ∷ [] }

abbrev version : ProtocolVersion
version = record { control_layer_version = 2; message_layer_version = 32 }

negotiated : validate_protocol_versions older (2 ∷ 3 ∷ []) (31 ∷ 32 ∷ 33 ∷ []) ≡ ok version
unfolding program
negotiated = refl

nothing_given : validate_protocol_versions older [] (31 ∷ []) ≡ err missing_versions
unfolding program
nothing_given = refl

nothing_shared : validate_protocol_versions older (2 ∷ []) (30 ∷ []) ≡ err unsupported_message_layer
unfolding program
nothing_shared = refl

validate_protocol_versions_agree_example :
    (validate_protocol_versions newer (1 ∷ 2 ∷ []) (32 ∷ 31 ∷ []) ≡ ok version)
    × IsHighest (1 ∷ 2 ∷ []) (2 ∷ 3 ∷ []) 2
    × IsHighest (32 ∷ 31 ∷ []) (31 ∷ 32 ∷ 33 ∷ []) 32
validate_protocol_versions_agree_example =
    validate_protocol_versions_agree older newer version negotiated
