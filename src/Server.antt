-- ===== src/Server.antt =====
-- The class Server (include/mcp/server/server.hpp, src/server/server.cpp): what it offers, who has
-- subscribed, and the notifications of changes. A section of code that holds a mutex is a part of a
-- function on the state; the notifications that an operation sends stand beside its result. H is the
-- type of the application's handlers, and `diagnose` is the schema validator: the diagnostics of a
-- schema that is not valid.
pub mod Definitions
pub mod Cursors
pub mod Registry
pub mod Registration
pub mod Directory
pub mod Lists
pub mod Requests
pub mod Subscriptions
use cpp_mcp_sdk.Base.{
  ℕ, String, Bool, true, false, not, ◌&&◌, ◌||◌, Option, none, some, List, [], ◌∷◌, if◌then◌else◌,
  ◌=ₛ◌, value_or, ltb, is_some, any,
}
use cpp_mcp_sdk.Jsonrpc.Json.{JsonApi, assign_some}
use cpp_mcp_sdk.Jsonrpc.Messages.{RequestContext, Notification}
use cpp_mcp_sdk.Lifecycle.Capabilities.{
  ServerCapabilities, ToolsCapability, ResourcesCapability, PromptsCapability,
  server_has_capability,
}
use cpp_mcp_sdk.Lifecycle.Session.{Session, can_send_notification}
use cpp_mcp_sdk.Server.Definitions.{
  ToolDefinition, ResourceDefinition, ResourceTemplateDefinition, PromptDefinition,
}

pub data LogLevel : Type 0 where
  debug info notice warning error critical alert emergency : LogLevel

-- A definition with its handler: RegisteredTool, RegisteredResource and RegisteredPrompt.
pub record Registered (H T : Type 0) : Type 0 where
  pub definition : T
  pub handler : H

pub record ResourceSubscription : Type 0 where
  pub session_key : String
  pub uri : String

pub record Server (J H : Type 0) : Type 0 where
  pub capabilities : ServerCapabilities J
  pub session : Session J
  pub tools : List (Registered H (ToolDefinition J))
  pub resources : List (Registered H (ResourceDefinition J))
  pub resource_templates : List (ResourceTemplateDefinition J)
  pub resource_subscriptions : List ResourceSubscription
  pub prompts : List (Registered H (PromptDefinition J))
  pub log_level : LogLevel

unfoldable pub log_level_weight : LogLevel → ℕ
log_level_weight debug = 0
log_level_weight info = 1
log_level_weight notice = 2
log_level_weight warning = 3
log_level_weight error = 4
log_level_weight critical = 5
log_level_weight alert = 6
log_level_weight emergency = 7

unfoldable pub log_level_to_string : LogLevel → String
log_level_to_string debug = "debug"
log_level_to_string info = "info"
log_level_to_string notice = "notice"
log_level_to_string warning = "warning"
log_level_to_string error = "error"
log_level_to_string critical = "critical"
log_level_to_string alert = "alert"
log_level_to_string emergency = "emergency"

unfoldable pub parse_log_level : String → Option LogLevel
parse_log_level level =
    if level =ₛ "debug"
    then some debug
    else if level =ₛ "info"
    then some info
    else if level =ₛ "notice"
    then some notice
    else if level =ₛ "warning"
    then some warning
    else if level =ₛ "error"
    then some error
    else if level =ₛ "critical"
    then some critical
    else if level =ₛ "alert"
    then some alert
    else if level =ₛ "emergency"
    then some emergency
    else none

unfoldable pub session_key_for_context : RequestContext → String
session_key_for_context context = value_or context.session_id ""

unfoldable pub is_subscription : String → String → ResourceSubscription → Bool
is_subscription session_key uri s = s.session_key =ₛ session_key && s.uri =ₛ uri

abbrev tools_list_changed : Option ToolsCapability → Bool
tools_list_changed none = false
tools_list_changed (some c) = c.list_changed

abbrev prompts_list_changed : Option PromptsCapability → Bool
prompts_list_changed none = false
prompts_list_changed (some c) = c.list_changed

abbrev resources_list_changed : Option ResourcesCapability → Bool
resources_list_changed none = false
resources_list_changed (some c) = c.list_changed

abbrev pub resources_subscribe : Option ResourcesCapability → Bool
resources_subscribe none = false
resources_subscribe (some c) = c.subscribe

module _ {J H : Type 0} (api : JsonApi J) where
  open api use {object, assign, of_string}

  -- The notification of a change, if the session may send it.
  abbrev change_notification : String → Bool → J → Server J H → List (Notification J)
  change_notification method enabled params s =
      if not enabled
      then []
      else if not (can_send_notification s.session method)
      then []
      else record { method = method; params = some params } ∷ []

  unfoldable pub notify_tools_list_changed : Server J H → List (Notification J)
  notify_tools_list_changed s =
      change_notification "notifications/tools/list_changed"
        (tools_list_changed s.capabilities.tools) object s

  unfoldable pub notify_resources_list_changed : Server J H → List (Notification J)
  notify_resources_list_changed s =
      change_notification "notifications/resources/list_changed"
        (resources_list_changed s.capabilities.resources) object s

  unfoldable pub notify_prompts_list_changed : Server J H → List (Notification J)
  notify_prompts_list_changed s =
      change_notification "notifications/prompts/list_changed"
        (prompts_list_changed s.capabilities.prompts) object s

  unfoldable pub notify_resource_updated :
      String → RequestContext → Server J H → List (Notification J)
  notify_resource_updated uri context s =
      if not (resources_subscribe s.capabilities.resources)
      then []
      else if not
          (any (is_subscription (session_key_for_context context) uri) s.resource_subscriptions)
      then []
      else change_notification "notifications/resources/updated" true
          (assign object "uri" (of_string uri)) s

  unfoldable pub emit_log_message :
      LogLevel → J → Option String → Server J H → List (Notification J)
  emit_log_message level data_ logger s =
      if not (server_has_capability s.capabilities "logging")
      then []
      else if ltb (log_level_weight level) (log_level_weight s.log_level)
      then []
      else record {
        method = "notifications/message";
        params = some (
            assign
              (assign_some api "logger" of_string logger
                (assign object "level" (of_string (log_level_to_string level))))
              "data" data_);
      }
        ∷ []
