-- ===== src/Tests/Headers.antt =====
-- HTTP headers at a client and a server.
use cpp_mcp_sdk.Base.{
  ℕ, Bool, true, false, none, some, List, [], ◌∷◌, ◌≡◌, refl, codes, ◌⊎◌, if◌then◌else◌,
}
use cpp_mcp_sdk.Text.Ascii.{trim_ascii_whitespace, trim_begin, trim_end, is_ascii_whitespace}
use cpp_mcp_sdk.Http.EventId.{is_visible_ascii}
use cpp_mcp_sdk.Http.Headers.{
  Header, get_header, is_valid_session_id, is_valid_protocol_version, is_supported_protocol_version,
  bytes_eq,
}
use cpp_mcp_sdk.Http.Validation.{
  RequestValidationOptions, SessionResolution, active, unknown, other, accepted, is_active,
  origin_complaint, validate_server_request,
}
use cpp_mcp_sdk.Http.Validation.Rules.{accepted-active}
use cpp_mcp_sdk.Http.HeaderState.{
  cleared, capture_from_initialize_response, replay_to_request_headers,
}
use cpp_mcp_sdk.Http.HeaderState.Replay.{replay-accepted}

-- A server that knows the session `s1`.
abbrev resolver : List ℕ → SessionResolution
resolver id = record {
  state = if bytes_eq id (codes "s1") then active else unknown;
  negotiated_protocol_version = none;
}

abbrev options : RequestValidationOptions
options = record {
  request_kind = other;
  session_required = true;
  validate_origin = true;
  allow_requests_without_origin = true;
  supported_protocol_versions = codes "2025-11-25" ∷ [];
  inferred_protocol_version = none;
  session_resolver = some resolver;
}

abbrev no_origin : List ℕ → Bool
no_origin origin = false

abbrev s1 : List ℕ
s1 = codes " s1"

abbrev latest : List ℕ
latest = codes "2025-11-25 "

good_id : is_valid_session_id (trim_ascii_whitespace s1) ≡ true
unfolding is_valid_session_id is_visible_ascii trim_ascii_whitespace trim_begin trim_end
    is_ascii_whitespace
good_id = refl

good_version : is_valid_protocol_version (trim_ascii_whitespace latest) ≡ true
unfolding is_valid_protocol_version trim_ascii_whitespace trim_begin trim_end is_ascii_whitespace
good_version = refl

origin_passes : origin_complaint no_origin options [] ≡ none
unfolding origin_complaint get_header
origin_passes = refl

live : is_active (resolver (trim_ascii_whitespace s1)).state ≡ true
unfolding is_active bytes_eq trim_ascii_whitespace trim_begin trim_end is_ascii_whitespace
live = refl

supported :
    is_supported_protocol_version (trim_ascii_whitespace latest) options.supported_protocol_versions
    ≡ true
unfolding is_supported_protocol_version bytes_eq trim_ascii_whitespace trim_begin trim_end
    is_ascii_whitespace
supported = refl

abbrev replayed : List Header
replayed =
    replay_to_request_headers [] false (capture_from_initialize_response (some s1) latest cleared).0

replay-accepted_example :
    validate_server_request no_origin replayed options
    ≡ accepted (some (trim_ascii_whitespace s1)) (trim_ascii_whitespace latest)
replay-accepted_example =
    replay-accepted no_origin options resolver [] s1 latest cleared good_id good_version
      origin_passes refl live supported

passes :
    validate_server_request no_origin replayed options
    ≡ accepted (some (trim_ascii_whitespace s1)) (trim_ascii_whitespace latest)
passes =
    replay-accepted no_origin options resolver [] s1 latest cleared good_id good_version
      origin_passes refl live supported

accepted-active_example :
    (is_valid_session_id (trim_ascii_whitespace s1) ≡ true)
    × (is_active (resolver (trim_ascii_whitespace s1)).state ≡ true)
    × ((is_supported_protocol_version
            (trim_ascii_whitespace latest)
            options.supported_protocol_versions
          ≡ true)
        ⊎ (trim_ascii_whitespace latest ≡ codes "2025-03-26"))
accepted-active_example =
    accepted-active no_origin options resolver replayed (trim_ascii_whitespace s1)
      (trim_ascii_whitespace latest) refl passes
