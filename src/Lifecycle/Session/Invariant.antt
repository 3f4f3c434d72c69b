-- ===== src/Lifecycle/Session/Invariant.antt =====
-- What holds of a session after any calls of its methods.
use cpp_mcp_sdk.Base.{
  String, Bool, true, false, ◌||◌, Option, none, some, List, [], ◌∷◌, ◌≡◌, arith, ◌⊎◌, inl, inr,
  Option-cases,
}
use cpp_mcp_sdk.Jsonrpc.Json.{JsonApi}
use cpp_mcp_sdk.Jsonrpc.Messages.{Request, Response, success, error}
use cpp_mcp_sdk.Lifecycle.Capabilities.{ServerCapabilities, Implementation}
use cpp_mcp_sdk.Lifecycle.Session.{
  SessionState, SessionState-discrete, initialized, operating, ◌=ₛₛ◌, SessionRole, Session,
  attach_transport, set_role, stop, handle_initialized_notification,
  configure_server_initialization, send_notification, negotiated_protocol_version, new_session,
}
use cpp_mcp_sdk.Lifecycle.Session.Versions.{
  is_version_supported, select_server_protocol_version, select_server_protocol_version-supported,
}
use cpp_mcp_sdk.Lifecycle.Session.Handshake.{
  enforce_outbound_request_lifecycle, begin_initialize, handle_initialize_request, negotiate,
  accept_initialize, handle_initialize_response, handle_initialize_result, accept_response,
}

pub data Call (J : Type 0) : Type 0 where
  attaches : Call J
  sets_role : SessionRole → Call J
  stops : Call J
  configures : ServerCapabilities J → Implementation → Option String → Call J
  requests : String → J → Call J
  notifies : String → Option J → Call J
  receives_initialize : Request J → Call J
  receives_response : Response J → Call J
  receives_initialized : Call J

module _ {J : Type 0} (api : JsonApi J) where
  unfoldable pub step : Session J → Call J → Session J
  step s attaches = attach_transport s
  step s (sets_role role) = set_role role s
  step s stops = stop s
  step s (configures c i t) = (configure_server_initialization c i t s).0
  step s (requests method params) = (enforce_outbound_request_lifecycle api method params s).0
  step s (notifies method params) = (send_notification method params s).0
  step s (receives_initialize request) = (handle_initialize_request api request s).0
  step s (receives_response response) = (handle_initialize_response api response s).0
  step s receives_initialized = handle_initialized_notification s

  unfoldable pub run : Session J → List (Call J) → Session J
  run s [] = s
  run s (c ∷ cs) = run (step s c) cs

-- The states in which the initialize exchange is done.
abbrev pub is_ready : SessionState → Bool
is_ready state = state =ₛₛ initialized || state =ₛₛ operating

abbrev pub supports : List String → Option String → Bool
supports versions none = false
supports versions (some version) = is_version_supported versions version

-- A session that is ready has negotiated a version that it supports.
abbrev pub IsNegotiated : {J : Type 0} → Session J → Type 0
IsNegotiated s =
    is_ready s.state ≡ true
    → supports s.supported_protocol_versions (negotiated_protocol_version s) ≡ true

module _ {J : Type 0} where
  send_notification-IsNegotiated :
      (method : String) (params : Option J) (s : Session J)
      → IsNegotiated s
      → IsNegotiated (send_notification method params s).0
  unfolding send_notification negotiated_protocol_version SessionState-discrete
  send_notification-IsNegotiated method params s h = ground arith

  configure-IsNegotiated :
      (c : ServerCapabilities J) (i : Implementation) (t : Option String) (s : Session J)
      → IsNegotiated s
      → IsNegotiated (configure_server_initialization c i t s).0
  unfolding configure_server_initialization negotiated_protocol_version
  configure-IsNegotiated c i t s h = ground arith

  stop-IsNegotiated : (s : Session J) → IsNegotiated s → IsNegotiated (stop s)
  unfolding stop negotiated_protocol_version SessionState-discrete
  stop-IsNegotiated s h = ground arith

  initialized-IsNegotiated :
      (s : Session J) → IsNegotiated s → IsNegotiated (handle_initialized_notification s)
  unfolding handle_initialized_notification negotiated_protocol_version SessionState-discrete
  initialized-IsNegotiated s h = ground arith

selected :
    (proposed : String) (versions : List String)
    → (select_server_protocol_version proposed versions ≡ none)
      ⊎ ((version : String) × (select_server_protocol_version proposed versions ≡ some version)
          × (is_version_supported versions version ≡ true))
selected proposed versions =
    elim (Option-cases (select_server_protocol_version proposed versions)) [
      | inl e ↦ inl e
      | inr (v, e) ↦ inr (v, e, select_server_protocol_version-supported proposed versions v e)
    ]

module _ {J : Type 0} (api : JsonApi J) where
  enforce-IsNegotiated :
      (method : String) (params : J) (s : Session J)
      → IsNegotiated s
      → IsNegotiated (enforce_outbound_request_lifecycle api method params s).0
  unfolding enforce_outbound_request_lifecycle begin_initialize negotiated_protocol_version
      SessionState-discrete
  enforce-IsNegotiated method params s h = ground arith

  negotiate-IsNegotiated :
      (request : Request J) (params : J) (s : Session J)
      → IsNegotiated s
      → IsNegotiated (negotiate api request params s).0
  unfolding negotiate accept_initialize negotiated_protocol_version
  negotiate-IsNegotiated request params s h = ground (
    arith,
    selected (api.as_string (api.member params "protocolVersion")) s.supported_protocol_versions,
  )

  handle_initialize_request-IsNegotiated :
      (request : Request J) (s : Session J)
      → IsNegotiated s
      → IsNegotiated (handle_initialize_request api request s).0
  unfolding handle_initialize_request
  handle_initialize_request-IsNegotiated request s h = elim (Option-cases request.params) [
    | inl e ↦ ground (arith, e)
    | inr (params, e) ↦ let n = negotiate-IsNegotiated request params s h in ground (arith, e, n)
  ]

  result-IsNegotiated :
      (result : J) (s : Session J) → IsNegotiated (handle_initialize_result api result s).0
  unfolding handle_initialize_result accept_response negotiated_protocol_version send_notification
      SessionState-discrete
  result-IsNegotiated result s = ground arith

  handle_initialize_response-IsNegotiated :
      (response : Response J) (s : Session J)
      → IsNegotiated s
      → IsNegotiated (handle_initialize_response api response s).0
  unfolding handle_initialize_response SessionState-discrete
  handle_initialize_response-IsNegotiated (success r) s h =
      ground (arith, result-IsNegotiated r.result s)
  handle_initialize_response-IsNegotiated (error e) s h = ground arith

  step-IsNegotiated : (s : Session J) (c : Call J) → IsNegotiated s → IsNegotiated (step api s c)
  unfolding step attach_transport set_role negotiated_protocol_version
  step-IsNegotiated s attaches h = h
  step-IsNegotiated s (sets_role role) h = h
  step-IsNegotiated s stops h = stop-IsNegotiated s h
  step-IsNegotiated s (configures c i t) h = configure-IsNegotiated c i t s h
  step-IsNegotiated s (requests method params) h = enforce-IsNegotiated method params s h
  step-IsNegotiated s (notifies method params) h = send_notification-IsNegotiated method params s h
  step-IsNegotiated s (receives_initialize request) h =
      handle_initialize_request-IsNegotiated request s h
  step-IsNegotiated s (receives_response response) h =
      handle_initialize_response-IsNegotiated response s h
  step-IsNegotiated s receives_initialized h = initialized-IsNegotiated s h

  run-IsNegotiated :
      (s : Session J) (cs : List (Call J)) → IsNegotiated s → IsNegotiated (run api s cs)
  unfolding run
  run-IsNegotiated s [] h = h
  run-IsNegotiated s (c ∷ cs) h = run-IsNegotiated (step api s c) cs (step-IsNegotiated s c h)

  new_session-IsNegotiated : (versions : List String) → IsNegotiated (new_session {J = J} versions)
  unfolding SessionState-discrete
  new_session-IsNegotiated versions ready = cc

  -- Whatever calls a new session has received, where it is initialized or operating it has negotiated
  -- a protocol version, which is one of the versions that it supports.
  pub run-new_session-supports :
      (versions : List String) (cs : List (Call J))
      → is_ready (run api (new_session versions) cs).state ≡ true
      → supports
          (run api (new_session versions) cs).supported_protocol_versions
          (negotiated_protocol_version (run api (new_session versions) cs))
        ≡ true
  run-new_session-supports versions cs ready =
      run-IsNegotiated (new_session versions) cs (new_session-IsNegotiated versions) ready
