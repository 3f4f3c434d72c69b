-- ===== src/Lifecycle/Session/Rules.antt =====
-- The guards of the sending methods against the queries that announce them.
use cpp_mcp_sdk.Base.{
  String, Bool, true, false, not, ◌&&◌, Option, ◌=ₛ◌, ◌≡◌, refl, arith, String-discrete, holds,
}
use cpp_mcp_sdk.Jsonrpc.Json.{JsonApi}
use cpp_mcp_sdk.Lifecycle.Session.{
  SessionState-discrete, created, is_client, Session, Result, ok, lifecycle_error,
  initialize_method, can_send_request, can_send_notification, send_notification,
}
use cpp_mcp_sdk.Lifecycle.Session.Handshake.{enforce_outbound_request_lifecycle}

abbrev pub is_ok {ℓ} : {A : Type ℓ} → Result A → Bool
is_ok (ok a) = true
is_ok (lifecycle_error m) = false

-- Texts that the guards tell apart.
initialize-ne-ping : holds (String-discrete "initialize" "ping") ≡ false
unfolding String-discrete
initialize-ne-ping = refl

module _ {J : Type 0} (api : JsonApi J) where
  -- `sendNotification` succeeds exactly when `canSendNotification` says so.
  pub send_notification-can :
      (method : String) (params : Option J) (s : Session J)
      → is_ok (send_notification method params s).1 ≡ can_send_notification s method
  unfolding send_notification can_send_notification
  send_notification-can method params s = ground arith

  -- `enforceOutboundRequestLifecycle` lets a request pass exactly when `canSendRequest` says so and
  -- it is not a client's `initialize` outside the created state.
  pub enforce-can_send_request :
      (method : String) (params : J) (s : Session J)
      → is_ok (enforce_outbound_request_lifecycle api method params s).1 ≡ (
          can_send_request s method
          && not (
              is_client s.role
              && (method =ₛ initialize_method
                  && not (holds (SessionState-discrete s.state created)))))
  unfolding enforce_outbound_request_lifecycle can_send_request
  enforce-can_send_request method params s = ground (arith, initialize-ne-ping)
