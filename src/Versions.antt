-- ===== src/Versions.antt =====
-- src/connection/NegotiatedProtocolVersions.ts: the versions of the two protocol layers that a node
-- uses with each peer.
pub mod Agreement
mod Tests
use network_old.Base.{
  ℕ, leb, if◌then◌else◌, Bool, ◌||◌, List, [], ◌∷◌, Option, none, some, Result, ok, err, ◌>>=◌,
  ensure, ◌>>◌, not, Eq, number_eq, contains, keep_if, is_empty, Dict, lookup, insert, remove,
}

pub record ProtocolVersion : Type 0 where
  pub control_layer_version : ℕ
  pub message_layer_version : ℕ

-- The versions that a node supports, from its peer info.
pub record Supported : Type 0 where
  pub control_layer_versions : List ℕ
  pub message_layer_versions : List ℕ

pub data VersionError : Type 0 where
  missing_versions unsupported_control_layer unsupported_message_layer : VersionError

-- `N` is the type of peer ids.
abbrev pub NegotiatedProtocolVersions : Type 0 → Type 0
NegotiatedProtocolVersions N = Dict N ProtocolVersion

-- `Math.max`, where `none` is -Infinity, the only result below 0 as versions are natural numbers.
unfoldable pub max_of : List ℕ → Option ℕ
max_of [] = none
max_of (x ∷ xs) = elim (max_of xs) [ none ↦ some x | some m ↦ if leb x m then some m else some x ]

-- The highest of a node's versions that its peer has too.
unfoldable pub highest_shared : List ℕ → List ℕ → Option ℕ
unfolding max_of
highest_shared mine theirs = max_of (keep_if (λ version. contains theirs version) mine)

abbrev pub or_error : Option ℕ → VersionError → Result VersionError ℕ
or_error none e = err e
or_error (some n) e = ok n

unfoldable pub validate_protocol_versions :
    Supported → List ℕ → List ℕ → Result VersionError ProtocolVersion
unfolding highest_shared
validate_protocol_versions s control_layer_versions message_layer_versions =
    if is_empty control_layer_versions || is_empty message_layer_versions
    then err missing_versions
    else (or_error (highest_shared s.control_layer_versions control_layer_versions)
          unsupported_control_layer
        >>= λ control.
            or_error (highest_shared s.message_layer_versions message_layer_versions)
              unsupported_message_layer
            >>= λ message.
                ok (record { control_layer_version = control; message_layer_version = message }))

module _ {N : Type 0} ⦃e : Eq N⦄ where
  unfoldable pub negotiate_protocol_version :
      Supported
      → NegotiatedProtocolVersions N
      → N
      → List ℕ
      → List ℕ
      → Result VersionError (NegotiatedProtocolVersions N)
  unfolding validate_protocol_versions
  negotiate_protocol_version s m peer_id control_layer_versions message_layer_versions =
      validate_protocol_versions s control_layer_versions message_layer_versions >>= λ version.
      ok (insert peer_id version m)

  pub remove_negotiated_protocol_version :
      NegotiatedProtocolVersions N → N → NegotiatedProtocolVersions N
  remove_negotiated_protocol_version m peer_id = remove peer_id m

  pub get_negotiated_protocol_versions : NegotiatedProtocolVersions N → N → Option ProtocolVersion
  get_negotiated_protocol_versions m peer_id = lookup peer_id m
