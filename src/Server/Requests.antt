-- ===== src/Server/Requests.antt =====
-- The requests of src/server/server.cpp that change what the server keeps, and the check that a
-- request passes before it is dispatched.
use Prim.Native.String
use cpp_mcp_sdk.Base.{
  String, Bool, true, false, not, ◌||◌, Option, none, some, List, [], ◌∷◌, ◌++◌, any, if◌then◌else◌,
  is_some, ◌=ₛ◌,
}
use cpp_mcp_sdk.Jsonrpc.Json.{JsonApi, has_string}
use cpp_mcp_sdk.Jsonrpc.Messages.{
  RequestId, RequestContext, Request, Response, success, invalid_params, invalid_request,
  method_not_found, resource_not_found, error_reply, make_error_response, make_json_rpc_error,
}
use cpp_mcp_sdk.Lifecycle.Capabilities.{TasksCapability, server_has_capability}
use cpp_mcp_sdk.Lifecycle.Session.{can_handle_request}
use cpp_mcp_sdk.Server.{
  ResourceSubscription, Server, session_key_for_context, is_subscription, parse_log_level,
  resources_subscribe,
}
use cpp_mcp_sdk.Server.Registry.{find_named}
use cpp_mcp_sdk.Server.Registration.{resource_uri}

-- `capabilityForMethod` of src/server/detail/helpers.cpp.
unfoldable pub capability_for_method : String → Option String
capability_for_method method =
    if method =ₛ "tools/list" || method =ₛ "tools/call"
    then some "tools"
    else if method =ₛ "resources/list"
        || method =ₛ "resources/read"
        || method =ₛ "resources/templates/list"
        || method =ₛ "resources/subscribe"
        || method =ₛ "resources/unsubscribe"
    then some "resources"
    else if method =ₛ "prompts/list" || method =ₛ "prompts/get"
    then some "prompts"
    else if method =ₛ "completion/complete"
    then some "completions"
    else if method =ₛ "logging/setLevel"
    then some "logging"
    else if method =ₛ "tasks/get"
        || method =ₛ "tasks/result"
        || method =ₛ "tasks/list"
        || method =ₛ "tasks/cancel"
    then some "tasks"
    else none

abbrev tasks_list : Option TasksCapability → Bool
tasks_list none = false
tasks_list (some c) = c.list

abbrev tasks_cancel : Option TasksCapability → Bool
tasks_cancel none = false
tasks_cancel (some c) = c.cancel

-- The subscriptions but those of a session for a URI.
unfoldable pub without_subscription :
    String → String → List ResourceSubscription → List ResourceSubscription
unfolding is_subscription
without_subscription session_key uri [] = []
without_subscription session_key uri (s ∷ ss) =
    let rest = without_subscription session_key uri ss in
    if is_subscription session_key uri s then rest else s ∷ rest

module _ {J : Type 0} (api : JsonApi J) where
  open api use {is_object, member, as_string, object}

  -- The text that a method requires at a key of its parameters, or the response without it.
  unfoldable pub required_string : String → String → Request J → Response J × Option String
  required_string method key request = elim request.params [
    | none ↦
        (error_reply invalid_params (String.◌++◌ method " requires params object") request.id, none)
    | some params ↦
        if not (is_object params)
        then (
          error_reply invalid_params (String.◌++◌ method " requires params object") request.id,
          none,
        )
        else if not (has_string api params key)
        then (
          error_reply invalid_params
              (String.◌++◌ method (String.◌++◌ " requires string params." key)) request.id,
          none,
        )
        else (
          success (record { id = request.id; result = object }),
          some (as_string (member params key)),
        )
  ]

module _ {J H : Type 0} where
  unfoldable pub is_method_enabled_by_capability : Server J H → String → Bool
  unfolding capability_for_method
  is_method_enabled_by_capability s method =
      if method =ₛ "resources/subscribe" || method =ₛ "resources/unsubscribe"
      then resources_subscribe s.capabilities.resources
      else if method =ₛ "tasks/list"
      then tasks_list s.capabilities.tasks
      else if method =ₛ "tasks/cancel"
      then tasks_cancel s.capabilities.tasks
      else if method =ₛ "tasks/get" || method =ₛ "tasks/result"
      then is_some s.capabilities.tasks
      else elim (capability_for_method method) [
        | none ↦ true
        | some capability ↦ server_has_capability s.capabilities capability
      ]

  -- The response of a request that `handleRequest` does not dispatch.
  unfoldable pub refuse_request : Request J → Server J H → Option (Response J)
  unfolding is_method_enabled_by_capability
  refuse_request request s =
      if not (can_handle_request s.session request.method)
      then some (
          error_reply invalid_request
            (String.◌++◌ "Method '"
              (String.◌++◌ request.method "' is not valid before initialization completes."))
            request.id)
      else if not (is_method_enabled_by_capability s request.method)
      then some (
          error_reply method_not_found
            (String.◌++◌ "Method '" (
              String.◌++◌ request.method
                "' is not available for the negotiated server capabilities."))
            request.id)
      else none

  module _ (api : JsonApi J) where
    open api use {object, assign, of_string}

    abbrev subscribe_uri :
        RequestContext
        → RequestId
        → Response J
        → Option String
        → Server J H
        → Server J H × Response J
    subscribe_uri context id reply none s = (s, reply)
    subscribe_uri context id reply (some uri) s =
        if not (is_some (find_named resource_uri uri s.resources))
        then (
          s,
          make_error_response
              (make_json_rpc_error resource_not_found "Resource not found"
                (some (assign object "uri" (of_string uri))))
              (some id),
        )
        else if any (is_subscription (session_key_for_context context) uri) s.resource_subscriptions
        then (s, reply)
        else (
          record s {
            resource_subscriptions =
                s.resource_subscriptions
                ++ (record { session_key = session_key_for_context context; uri = uri } ∷ []);
          },
          reply,
        )

    unfoldable pub handle_resources_subscribe_request :
        RequestContext → Request J → Server J H → Server J H × Response J
    unfolding required_string
    handle_resources_subscribe_request context request s =
        let asked = required_string api "resources/subscribe" "uri" request in
        subscribe_uri context request.id asked.0 asked.1 s

    abbrev unsubscribe_uri : RequestContext → Option String → Server J H → Server J H
    unsubscribe_uri context none s = s
    unsubscribe_uri context (some uri) s = record s {
      resource_subscriptions =
          without_subscription (session_key_for_context context) uri s.resource_subscriptions;
    }

    unfoldable pub handle_resources_unsubscribe_request :
        RequestContext → Request J → Server J H → Server J H × Response J
    unfolding required_string without_subscription
    handle_resources_unsubscribe_request context request s =
        let asked = required_string api "resources/unsubscribe" "uri" request in
        (unsubscribe_uri context asked.1 s, asked.0)

    abbrev set_level : Request J → Response J → Option String → Server J H → Server J H × Response J
    set_level request reply none s = (s, reply)
    set_level request reply (some text) s = elim (parse_log_level text) [
      | none ↦ (s, error_reply invalid_params "Invalid log level" request.id)
      | some level ↦ (record s { log_level = level }, reply)
    ]

    unfoldable pub handle_logging_set_level_request :
        Request J → Server J H → Server J H × Response J
    unfolding required_string
    handle_logging_set_level_request request s =
        let asked = required_string api "logging/setLevel" "level" request in
        set_level request asked.0 asked.1 s
