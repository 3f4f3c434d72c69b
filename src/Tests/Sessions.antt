-- ===== src/Tests/Sessions.antt =====
-- The session on concrete exchanges.
use cpp_mcp_sdk.Base.{
  String, true, not, ◌&&◌, none, some, List, [], ◌∷◌, ◌≡◌, refl, String-discrete, ◌=ₛ◌, holds,
}
use cpp_mcp_sdk.Base.Int.{pos}
use cpp_mcp_sdk.Jsonrpc.Messages.{integer}
use cpp_mcp_sdk.Lifecycle.Session.{
  SessionState-discrete, server, Session, created, is_client, new_session,
  negotiated_protocol_version, can_send_request, can_send_notification, send_notification, set_role,
  initialize_method, handle_initialized_notification,
}
use cpp_mcp_sdk.Lifecycle.Session.Versions.{is_version_supported, select_server_protocol_version}
use cpp_mcp_sdk.Lifecycle.Session.Handshake.{
  enforce_outbound_request_lifecycle, handle_initialize_request, negotiate, accept_initialize,
}
use cpp_mcp_sdk.Lifecycle.Session.Rules.{is_ok, send_notification-can, enforce-can_send_request}
use cpp_mcp_sdk.Lifecycle.Session.Invariant.{
  Call, sets_role, receives_initialize, receives_initialized, step, run, is_ready, supports,
  run-new_session-supports,
}
use cpp_mcp_sdk.Tests.Sample.{Json, str, no_entries, entry, sample_api, has_key, value_at}

abbrev versions : List String
versions = "2025-11-25" ∷ "2025-06-18" ∷ []

abbrev greeting : Json
greeting = entry "protocolVersion" (str "2025-06-18") (
    entry "capabilities" no_entries (
      entry "clientInfo" (entry "name" (str "c") (entry "version" (str "1") no_entries))
        no_entries))

abbrev exchange : List (Call Json)
exchange =
    sets_role server
    ∷ receives_initialize
        (record { id = integer (pos 1); method = "initialize"; params = some greeting })
    ∷ receives_initialized
    ∷ []

exchange-ready : is_ready (run sample_api (new_session versions) exchange).state ≡ true
unfolding run step set_role handle_initialize_request negotiate accept_initialize has_key value_at
    String-discrete SessionState-discrete select_server_protocol_version is_version_supported
    handle_initialized_notification
exchange-ready = refl

run-new_session-supports_example :
    supports
      (run sample_api (new_session versions) exchange).supported_protocol_versions
      (negotiated_protocol_version (run sample_api (new_session versions) exchange))
    ≡ true
run-new_session-supports_example =
    run-new_session-supports sample_api versions exchange exchange-ready

abbrev new_client : Session Json
new_client = new_session versions

send_notification-can_example :
    is_ok (send_notification "notifications/initialized" none new_client).1
    ≡ can_send_notification new_client "notifications/initialized"
send_notification-can_example =
    send_notification-can sample_api "notifications/initialized" none new_client

enforce-can_send_request_example :
    is_ok (enforce_outbound_request_lifecycle sample_api "tools/list" no_entries new_client).1 ≡ (
      can_send_request new_client "tools/list"
      && not (
          is_client new_client.role
          && ("tools/list" =ₛ initialize_method
              && not (holds (SessionState-discrete new_client.state created)))))
enforce-can_send_request_example =
    enforce-can_send_request sample_api "tools/list" no_entries new_client

proposal-selected : select_server_protocol_version "2025-06-18" versions ≡ some "2025-06-18"
unfolding select_server_protocol_version is_version_supported String-discrete
proposal-selected = refl
