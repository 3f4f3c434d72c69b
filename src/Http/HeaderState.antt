-- ===== src/Http/HeaderState.antt =====
-- include/mcp/transport/http/session_header_state.hpp, protocol_version_header_state.hpp and
-- shared_header_state.hpp: what a client takes from the response to `initialize`, and the headers that
-- it replays. Each operation of the shared state holds its mutex.
pub mod Replay
use cpp_mcp_sdk.Base.{
  ℕ, Bool, true, false, not, ◌&&◌, ◌||◌, Option, none, some, List, length, if◌then◌else◌, is_some,
  ◌==◌,
}
use cpp_mcp_sdk.Text.Ascii.{trim_ascii_whitespace}
use cpp_mcp_sdk.Http.Headers.{Header, set_header, is_valid_session_id, is_valid_protocol_version}
use cpp_mcp_sdk.Http.Validation.{header_session_id, header_protocol_version}

pub record SessionHeaderState : Type 0 where
  pub session_id : Option (List ℕ)
  pub replay_on_subsequent_requests : Bool

pub record SharedHeaderState : Type 0 where
  pub session_state : SessionHeaderState
  pub negotiated_protocol_version : Option (List ℕ)

abbrev pub cleared_session : SessionHeaderState
cleared_session = record { session_id = none; replay_on_subsequent_requests = false }

abbrev pub cleared : SharedHeaderState
cleared = record { session_state = cleared_session; negotiated_protocol_version = none }

unfoldable pub capture_session : Option (List ℕ) → SessionHeaderState × Bool
capture_session none = (cleared_session, true)
capture_session (some header) =
    let normalized = trim_ascii_whitespace header in
    if not (is_valid_session_id normalized)
    then (cleared_session, false)
    else (record { session_id = some normalized; replay_on_subsequent_requests = true }, true)

-- The version that is kept: none if the text is not a version.
unfoldable pub negotiated_version : List ℕ → Option (List ℕ)
negotiated_version version =
    let normalized = trim_ascii_whitespace version in
    if not (is_valid_protocol_version normalized) then none else some normalized

unfoldable pub capture_from_initialize_response :
    Option (List ℕ) → List ℕ → SharedHeaderState → SharedHeaderState × Bool
unfolding capture_session negotiated_version
capture_from_initialize_response session_header protocol_version s =
    let captured = capture_session session_header in
    if not captured.1 then (record s { session_state = captured.0 }, false) else (
      record {
        session_state = captured.0;
        negotiated_protocol_version =
            if length protocol_version == 0
            then s.negotiated_protocol_version
            else negotiated_version protocol_version;
      },
      true,
    )

abbrev set_if : Bool → Option (List ℕ) → List ℕ → List Header → List Header
set_if flag none name headers = headers
set_if flag (some value) name headers = if flag then set_header headers name value else headers

unfoldable pub replay_to_request_headers : List Header → Bool → SharedHeaderState → List Header
replay_to_request_headers headers is_initialize_request s =
    set_if (not is_initialize_request) s.negotiated_protocol_version header_protocol_version (
      set_if s.session_state.replay_on_subsequent_requests s.session_state.session_id
        header_session_id headers)
