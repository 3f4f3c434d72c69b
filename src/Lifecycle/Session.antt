-- ===== src/Lifecycle/Session.antt =====
-- The class Session of src/lifecycle/session.cpp. A method runs under the session's mutex; it gives
-- the new state and its result, and a thrown LifecycleError is the result `lifecycle_error`.
pub mod Versions
pub mod Handshake
pub mod Rules
pub mod Invariant
use cpp_mcp_sdk.Base.{
  String, Bool, true, false, not, ◌&&◌, ◌||◌, Option, none, some, List, [], ◌∷◌, if◌then◌else◌,
  ◌=ₛ◌, holds, is_some,
}
use cpp_mcp_sdk.Jsonrpc.Json.{JsonApi, has_object, has_string}
use cpp_mcp_sdk.Jsonrpc.Messages.{Notification}
use cpp_mcp_sdk.Lifecycle.Capabilities.{
  ClientCapabilities, ServerCapabilities, Implementation, NegotiatedParameters, named,
  no_server_capabilities, client_has_capability, server_has_capability,
}

pub data SessionState : Type 0 where
  created initializing initialized operating stopping stopped : SessionState

pub data SessionRole : Type 0 where
  client server : SessionRole

unfoldable pub SessionState-discrete : Discrete SessionState
SessionState-discrete = hlevel

infix 50 ◌=ₛₛ◌
abbrev pub ◌=ₛₛ◌ : SessionState → SessionState → Bool
a =ₛₛ b = holds (SessionState-discrete a b)

abbrev pub is_client : SessionRole → Bool
is_client client = true
is_client server = false

abbrev pub initialize_method : String
initialize_method = "initialize"

abbrev pub ping_method : String
ping_method = "ping"

abbrev pub logging_set_level_method : String
logging_set_level_method = "logging/setLevel"

abbrev pub notification_initialized : String
notification_initialized = "notifications/initialized"

abbrev pub notification_message : String
notification_message = "notifications/message"

abbrev pub default_client_name : String
default_client_name = "mcp-cpp-client"

abbrev pub default_server_name : String
default_server_name = "mcp-cpp-sdk"

abbrev pub sdk_version : String
sdk_version = "0.1.0"

abbrev pub latest_protocol_version : String
latest_protocol_version = "2025-11-25"

pub record Session (J : Type 0) : Type 0 where
  pub supported_protocol_versions : List String
  -- A transport is attached.
  pub has_transport : Bool
  pub state : SessionState
  pub role : SessionRole
  pub negotiated_params : Option (NegotiatedParameters J)
  pub pending_client_capabilities : Option (ClientCapabilities J)
  pub pending_client_info : Option Implementation
  pub configured_server_capabilities : ServerCapabilities J
  pub configured_server_info : Implementation
  pub configured_server_instructions : Option String

pub data Result {ℓ} (A : Type ℓ) : Type ℓ where
  ok : A → Result A
  lifecycle_error : String → Result A

module _ {J : Type 0} where
  abbrev pub new_session : List String → Session J
  new_session versions = record {
    supported_protocol_versions = versions;
    has_transport = false;
    state = created;
    role = client;
    negotiated_params = none;
    pending_client_capabilities = none;
    pending_client_info = none;
    configured_server_capabilities = no_server_capabilities;
    configured_server_info = named default_server_name sdk_version;
    configured_server_instructions = none;
  }

  unfoldable pub attach_transport : Session J → Session J
  attach_transport s = record s { has_transport = true }

  unfoldable pub set_role : SessionRole → Session J → Session J
  set_role role s = record s { role = role }

  unfoldable pub start : Session J → Result (Unit {0})
  start s =
      if s.state =ₛₛ created
      then ok tt
      else lifecycle_error "Session can only be started from Created state"

  unfoldable pub stop : Session J → Session J
  stop s = if s.state =ₛₛ stopped then s else record s { state = stopped }

  unfoldable pub negotiated_protocol_version : Session J → Option String
  negotiated_protocol_version s = elim s.negotiated_params [
    | none ↦ none
    | some p ↦ some p.protocol_version
  ]

  unfoldable pub handle_initialized_notification : Session J → Session J
  handle_initialized_notification s =
      if s.state =ₛₛ initialized then record s { state = operating } else s

  unfoldable pub configure_server_initialization :
      ServerCapabilities J
      → Implementation
      → Option String
      → Session J
      → Session J × Result (Unit {0})
  configure_server_initialization capabilities info instructions s =
      if not (s.state =ₛₛ created)
      then (
        s,
        lifecycle_error
            "Server initialization configuration must be set before the session starts initialization",
      )
      else (
        record s {
          configured_server_capabilities = capabilities;
          configured_server_info = info;
          configured_server_instructions = instructions;
        },
        ok tt,
      )

  unfoldable pub can_handle_request : Session J → String → Bool
  can_handle_request s method =
      if not (is_client s.role) && not (s.state =ₛₛ operating)
      then (if method =ₛ initialize_method
          then s.state =ₛₛ created
          else if method =ₛ ping_method
          then true
          else if method =ₛ logging_set_level_method
          then s.state =ₛₛ initialized
          else false)
      else true

  unfoldable pub can_send_request : Session J → String → Bool
  can_send_request s method =
      if is_client s.role && s.state =ₛₛ created
      then method =ₛ initialize_method
      else if is_client s.role && s.state =ₛₛ initializing
      then method =ₛ ping_method
      else if is_client s.role && s.state =ₛₛ initialized
      then false
      else if not (is_client s.role) && not (s.state =ₛₛ operating)
      then method =ₛ ping_method
      else true

  unfoldable pub can_send_notification : Session J → String → Bool
  can_send_notification s method =
      if is_client s.role && method =ₛ notification_initialized
      then s.state =ₛₛ initialized
      else if is_client s.role && s.state =ₛₛ initialized
      then false
      else if not (is_client s.role) && method =ₛ notification_message
      then s.state =ₛₛ initialized || s.state =ₛₛ operating
      else is_client s.role || s.state =ₛₛ operating

  unfoldable pub check_capability : Session J → String → Bool
  check_capability s capability = elim s.negotiated_params [
    | none ↦ false
    | some p ↦
        if is_client s.role
        then server_has_capability p.server_capabilities capability
        else client_has_capability p.client_capabilities capability
  ]

  -- The notifications that the call hands to the transport stand behind the result.
  unfoldable pub deliver : Session J → String → Option J → List (Notification J)
  deliver s method params =
      if s.has_transport then record { method = method; params = params } ∷ [] else []

  unfoldable pub send_notification :
      String → Option J → Session J → Session J × Result (List (Notification J))
  unfolding deliver
  send_notification method params s =
      if is_client s.role
      then (if s.state =ₛₛ initialized && not (method =ₛ notification_initialized)
          then (
            s,
            lifecycle_error
                "Client must send 'notifications/initialized' before other notifications",
          )
          else if method =ₛ notification_initialized
          then (if not (s.state =ₛₛ initialized)
              then (
                s,
                lifecycle_error
                    "Client cannot send 'notifications/initialized' before initialize completes",
              )
              else (record s { state = operating }, ok (deliver s method params)))
          else (s, ok (deliver s method params)))
      else (if not (s.state =ₛₛ operating)
            && not (s.state =ₛₛ initialized && method =ₛ notification_message)
          then (
            s,
            lifecycle_error "Server cannot send notifications before initialization completes",
          )
          else (s, ok (deliver s method params)))
