-- ===== src/Lifecycle/Session/Handshake.antt =====
-- The methods of Session that carry out the initialize exchange (src/lifecycle/session.cpp).
use Prim.Native.String
use cpp_mcp_sdk.Base.{String, not, ◌&&◌, none, some, List, [], ◌∷◌, if◌then◌else◌, ◌=ₛ◌, value_or}
use cpp_mcp_sdk.Jsonrpc.Json.{JsonApi, has_object, has_string, string_at, assign_some}
use cpp_mcp_sdk.Jsonrpc.Messages.{
  Request, Response, ErrorResponse, success, error, Notification, invalid_request, invalid_params,
  error_reply, make_error_response, make_json_rpc_error,
}
use cpp_mcp_sdk.Lifecycle.Capabilities.{named, no_client_capabilities}
use cpp_mcp_sdk.Lifecycle.Codec.{
  parse_client_capabilities, parse_server_capabilities, parse_implementation,
  implementation_to_json, server_capabilities_to_json,
}
use cpp_mcp_sdk.Lifecycle.Session.Versions.{
  is_version_supported, select_server_protocol_version, negotiation_failure_data,
  negotiation_failure_message, joined_versions,
}
use cpp_mcp_sdk.Lifecycle.Session.{
  created, initializing, initialized, operating, ◌=ₛₛ◌, is_client, Session, Result, ok,
  lifecycle_error, initialize_method, ping_method, notification_initialized, default_client_name,
  default_server_name, sdk_version, latest_protocol_version, send_notification,
}

-- `supportedVersions.front()`, or the latest version.
abbrev first_version : List String → String
first_version [] = latest_protocol_version
first_version (v ∷ vs) = v

module _ {J : Type 0} (api : JsonApi J) where
  open api use {is_object, contains, member, as_string, object, of_string, assign}

  -- `if (!j.contains(key) || !j[key].is_object()) j[key] = {}`, and so for texts with a default.
  abbrev default_object : String → J → J
  default_object key j = if has_object api j key then j else assign j key object

  abbrev default_string : String → String → J → J
  default_string key d j = if has_string api j key then j else assign j key (of_string d)

  unfoldable pub ensure_client_initialize_defaults : J → List String → J
  ensure_client_initialize_defaults params versions =
      let p0 = if is_object params then params else object in
      let p1 = default_string "protocolVersion" (first_version versions) p0 in
      let p2 = default_object "clientInfo" (default_object "capabilities" p1) in
      assign p2 "clientInfo" (
        default_string "version" sdk_version
          (default_string "name" default_client_name (member p2 "clientInfo")))

  -- The state after a client's `initialize` request has passed the guards.
  unfoldable pub begin_initialize : J → Session J → Session J
  begin_initialize params s =
      let p = ensure_client_initialize_defaults params s.supported_protocol_versions in
      record s {
        pending_client_capabilities =
            some (parse_client_capabilities api (member p "capabilities"));
        pending_client_info =
            some (parse_implementation api (member p "clientInfo") default_client_name sdk_version);
        state = initializing;
      }

  unfoldable pub enforce_outbound_request_lifecycle :
      String → J → Session J → Session J × Result (Unit {0})
  enforce_outbound_request_lifecycle method params s =
      if is_client s.role
      then (if s.state =ₛₛ created && not (method =ₛ initialize_method)
          then (s, lifecycle_error "Client must send 'initialize' as the first request")
          else if s.state =ₛₛ initializing && not (method =ₛ ping_method)
          then (
            s,
            lifecycle_error
                "Client can only send 'ping' requests while waiting for initialize response",
          )
          else if s.state =ₛₛ initialized
          then (
            s,
            lifecycle_error "Client must send 'notifications/initialized' before normal requests",
          )
          else if method =ₛ initialize_method
          then (if not (s.state =ₛₛ created)
              then (s, lifecycle_error "Client can only send 'initialize' from Created state")
              else (begin_initialize params s, ok tt))
          else (s, ok tt))
      else (if not (s.state =ₛₛ operating) && not (method =ₛ ping_method)
          then (
            s,
            lifecycle_error
                "Server cannot send feature requests before receiving 'notifications/initialized'",
          )
          else (s, ok tt))

  unfoldable pub reject : Request J → String → Response J
  reject request message = error_reply invalid_params message request.id

  -- The answer to `initialize` and the state behind it, for parameters that have passed the guards.
  unfoldable pub accept_initialize : Request J → J → String → Session J → Session J × Response J
  accept_initialize request params version s = (
    record s {
      negotiated_params = some (record {
        protocol_version = version;
        client_capabilities = parse_client_capabilities api (member params "capabilities");
        server_capabilities = s.configured_server_capabilities;
        client_info =
            parse_implementation api (member params "clientInfo") default_client_name sdk_version;
        server_info = s.configured_server_info;
        instructions = s.configured_server_instructions;
      });
      state = initialized;
    },
    success (record {
      id = request.id;
      result = assign_some api "instructions" of_string s.configured_server_instructions (
          assign
            (assign (assign object "protocolVersion" (of_string version)) "capabilities"
              (server_capabilities_to_json api s.configured_server_capabilities))
            "serverInfo" (implementation_to_json api s.configured_server_info));
    }),
  )

  unfoldable pub negotiate : Request J → J → Session J → Session J × Response J
  unfolding reject
  negotiate request params s =
      if not (has_string api params "protocolVersion")
      then (s, reject request "Missing or invalid protocolVersion")
      else if not (has_object api params "capabilities")
      then (s, reject request "Missing or invalid capabilities object")
      else if not (has_object api params "clientInfo")
      then (s, reject request "Missing or invalid clientInfo object")
      else (let proposed = as_string (member params "protocolVersion") in
          elim (select_server_protocol_version proposed s.supported_protocol_versions) [
            | none ↦ (
              s,
              make_error_response
                  (make_json_rpc_error invalid_params
                    (negotiation_failure_message proposed s.supported_protocol_versions)
                    (some (negotiation_failure_data api proposed s.supported_protocol_versions)))
                  (some request.id),
            )
            | some version ↦ accept_initialize request params version s
          ])

  unfoldable pub handle_initialize_request : Request J → Session J → Session J × Response J
  handle_initialize_request request s =
      if is_client s.role
      then (
        s,
        error_reply invalid_request "Only a server session can handle initialize requests"
            request.id,
      )
      else if not (request.method =ₛ initialize_method)
      then (s, error_reply invalid_request "Expected 'initialize' request" request.id)
      else if not (s.state =ₛₛ created)
      then (s, error_reply invalid_request "Initialize must be the first request" request.id)
      else elim request.params [
        | none ↦ (s, reject request "Missing initialize params object")
        | some params ↦
            if is_object params
            then negotiate request params s
            else (s, reject request "Missing initialize params object")
      ]

  -- The session after an initialize response that is not usable.
  abbrev back_to_created : Session J → Session J
  back_to_created s = record s { state = created }

  unfoldable pub accept_response : J → String → Session J → Session J
  accept_response result version s = record s {
    negotiated_params = some (record {
      protocol_version = version;
      client_capabilities = value_or s.pending_client_capabilities no_client_capabilities;
      server_capabilities = parse_server_capabilities api (member result "capabilities");
      client_info = value_or s.pending_client_info (named default_client_name sdk_version);
      server_info =
          parse_implementation api (member result "serverInfo") default_server_name sdk_version;
      instructions = string_at api result "instructions";
    });
    pending_client_capabilities = none;
    pending_client_info = none;
    state = initialized;
  }

  unfoldable pub unsupported_message : String → List String → String
  unsupported_message version supported =
      String.◌++◌ "Server selected unsupported protocol version '" (
        String.◌++◌ version
          (String.◌++◌ "'. Client supports: [" (String.◌++◌ (joined_versions supported) "]")))

  -- The code changes the session in one section of its mutex and sends the notification in a second one;
  -- here both are one step, with no other call between them.
  unfoldable pub handle_initialize_result :
      J → Session J → Session J × Result (List (Notification J))
  handle_initialize_result result s =
      if not (has_string api result "protocolVersion")
      then (
        back_to_created s,
        lifecycle_error "Initialize response missing required 'protocolVersion'",
      )
      else (let version = as_string (member result "protocolVersion") in
          if not (is_version_supported s.supported_protocol_versions version)
          then (
            back_to_created s,
            lifecycle_error (unsupported_message version s.supported_protocol_versions),
          )
          else if not (has_object api result "capabilities")
          then (
            back_to_created s,
            lifecycle_error "Initialize response missing required 'capabilities' object",
          )
          else if not (has_object api result "serverInfo")
          then (
            back_to_created s,
            lifecycle_error "Initialize response missing required 'serverInfo' object",
          )
          else send_notification notification_initialized none (accept_response result version s))

  abbrev failure_message : ErrorResponse J → String
  failure_message e =
      if e.error.message =ₛ ""
      then "Initialize failed"
      else String.◌++◌ "Initialize failed" (String.◌++◌ ": " e.error.message)

  unfoldable pub handle_initialize_response :
      Response J → Session J → Session J × Result (List (Notification J))
  unfolding handle_initialize_result
  handle_initialize_response response s =
      if not (is_client s.role)
      then (s, lifecycle_error "Only a client session can handle initialize responses")
      else if not (s.state =ₛₛ initializing)
      then (s, lifecycle_error "Received initialize response while session is not initializing")
      else elim response [
        | error e ↦ (back_to_created s, lifecycle_error (failure_message e))
        | success r ↦ handle_initialize_result r.result s
      ]
