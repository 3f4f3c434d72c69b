-- ===== src/Http/Validation.antt =====
-- include/mcp/transport/http/request_validator.hpp and the types that it uses. `origin_allowed` is
-- `isOriginAllowed` of include/mcp/security/origin_policy_functions.hpp for the configured policy.
pub mod Rules
use cpp_mcp_sdk.Base.{
  ℕ, String, Bool, true, false, not, ◌&&◌, ◌||◌, Option, none, some, List, codes, if◌then◌else◌,
  is_some,
}
use cpp_mcp_sdk.Text.Ascii.{trim_ascii_whitespace}
use cpp_mcp_sdk.Http.Headers.{
  Header, get_header, is_valid_session_id, is_valid_protocol_version, is_supported_protocol_version,
}

pub data RequestKind : Type 0 where
  initialize other : RequestKind

pub data SessionLookupState : Type 0 where
  unknown active expired terminated : SessionLookupState

pub record SessionResolution : Type 0 where
  pub state : SessionLookupState
  pub negotiated_protocol_version : Option (List ℕ)

pub record RequestValidationOptions : Type 0 where
  pub request_kind : RequestKind
  pub session_required : Bool
  pub validate_origin : Bool
  pub allow_requests_without_origin : Bool
  pub supported_protocol_versions : List (List ℕ)
  pub inferred_protocol_version : Option (List ℕ)
  pub session_resolver : Option (List ℕ → SessionResolution)

-- A request is accepted, with its session and its protocol version, or rejected with a status.
pub data RequestValidationResult : Type 0 where
  accepted : Option (List ℕ) → List ℕ → RequestValidationResult
  rejected : ℕ → String → RequestValidationResult

unfoldable pub is_active : SessionLookupState → Bool
is_active active = true
is_active s = false

abbrev is_initialize : RequestKind → Bool
is_initialize initialize = true
is_initialize other = false

abbrev pub header_session_id : List ℕ
header_session_id = codes "MCP-Session-Id"

abbrev pub header_protocol_version : List ℕ
header_protocol_version = codes "MCP-Protocol-Version"

abbrev pub header_origin : List ℕ
header_origin = codes "Origin"

-- What the origin is refused for.
unfoldable pub origin_complaint :
    (List ℕ → Bool) → RequestValidationOptions → List Header → Option String
origin_complaint origin_allowed options headers =
    if not options.validate_origin then none else elim (get_header headers header_origin) [
      | none ↦ if not options.allow_requests_without_origin then some "Origin is required" else none
      | some origin ↦ if not (origin_allowed origin) then some "Origin is not allowed" else none
    ]

-- The protocol version of the request, from its header or from its session.
unfoldable pub validate_version :
    RequestValidationOptions
    → List Header
    → Option (List ℕ)
    → Option (List ℕ)
    → RequestValidationResult
validate_version options headers inferred session_id =
    elim (get_header headers header_protocol_version) [
      | some version ↦
          let normalized = trim_ascii_whitespace version in
          if not (is_valid_protocol_version normalized)
          then rejected 400 "Invalid MCP-Protocol-Version"
          else if not (is_supported_protocol_version normalized options.supported_protocol_versions)
          then rejected 400 "Unsupported MCP-Protocol-Version"
          else accepted session_id normalized
      | none ↦ elim inferred [
        | some version ↦
            let normalized = trim_ascii_whitespace version in
            if not (is_valid_protocol_version normalized)
              || not (is_supported_protocol_version normalized options.supported_protocol_versions)
            then rejected 400 "Inferred protocol version is invalid or unsupported"
            else accepted session_id normalized
        | none ↦ accepted session_id (codes "2025-03-26")
      ]
    ]

abbrev or_else : Option (List ℕ) → Option (List ℕ) → Option (List ℕ)
or_else none b = b
or_else (some a) b = some a

-- The session that the request names, which must be active where there is a resolver.
unfoldable pub validate_session :
    RequestValidationOptions → List Header → Option (List ℕ) → RequestValidationResult
unfolding is_active validate_version
validate_session options headers none =
    validate_version options headers options.inferred_protocol_version none
validate_session options headers (some id) = elim options.session_resolver [
  | none ↦ validate_version options headers options.inferred_protocol_version (some id)
  | some resolver ↦
      let resolution = resolver id in
      if not (is_active resolution.state)
      then rejected 404 "Session is not active"
      else validate_version options headers
          (or_else options.inferred_protocol_version resolution.negotiated_protocol_version)
          (some id)
]

unfoldable pub validate_server_request :
    (List ℕ → Bool) → List Header → RequestValidationOptions → RequestValidationResult
unfolding origin_complaint validate_session
validate_server_request origin_allowed headers options =
    elim (origin_complaint origin_allowed options headers) [
      | some complaint ↦ rejected 403 complaint
      | none ↦ elim (get_header headers header_session_id) [
        | some id ↦
            let normalized = trim_ascii_whitespace id in
            if not (is_valid_session_id normalized)
            then rejected 400 "Invalid MCP-Session-Id"
            else validate_session options headers (some normalized)
        | none ↦
            if options.session_required && not (is_initialize options.request_kind)
            then rejected 400 "Missing required MCP-Session-Id"
            else validate_session options headers none
      ]
    ]
