-- ===== src/Server/Lists.antt =====
-- The list handlers of src/server/server.cpp, and src/server/detail/list_handler_helpers.cpp. Cursors
-- are bytes: `of_bytes` makes a JSON string of them.
pub mod Replies
use Prim.Native.String
use cpp_mcp_sdk.Base.{
  ℕ, String, Bool, not, Option, none, some, List, map, length, slice, codes, if◌then◌else◌,
}
use cpp_mcp_sdk.Base.Int.{pos}
use cpp_mcp_sdk.Jsonrpc.Json.{JsonApi, assign_some}
use cpp_mcp_sdk.Jsonrpc.Messages.{
  RequestId, integer, Request, Response, success, invalid_params, error_reply,
}
use cpp_mcp_sdk.Tasks.Pagination.{PaginationWindow}
use cpp_mcp_sdk.Tasks.Requests.{Parsed, value, complaint}
use cpp_mcp_sdk.Server.{Registered, Server}
use cpp_mcp_sdk.Server.Definitions.{
  tool_to_json, resource_to_json, resource_template_to_json, prompt_to_json,
}
use cpp_mcp_sdk.Server.Cursors.{
  ListEndpoint, tools, resources, resource_templates, prompts, tasks, apply_pagination,
}

unfoldable pub endpoint_name : ListEndpoint → String
endpoint_name tools = "tools"
endpoint_name resources = "resources"
endpoint_name resource_templates = "resource_templates"
endpoint_name prompts = "prompts"
endpoint_name tasks = "tasks"

module _ {J : Type 0} (api : JsonApi J) (of_bytes : List ℕ → J) where
  open api use {is_object, is_string, contains, member, as_string, object, assign, array}

  unfoldable pub parse_cursor_from_params : ListEndpoint → Option J → Parsed (Option (List ℕ))
  unfolding endpoint_name
  parse_cursor_from_params endpoint none = value none
  parse_cursor_from_params endpoint (some params) =
      if not (is_object params)
      then complaint (
          String.◌++◌ (endpoint_name endpoint)
            "/list requires params to be an object when provided")
      else if not (contains params "cursor")
      then value none
      else if not (is_string (member params "cursor"))
      then complaint
          (String.◌++◌ (endpoint_name endpoint) "/list requires params.cursor to be a string")
      else value (some (codes (as_string (member params "cursor"))))

  unfoldable pub build_list_response :
      {T : Type 0} → RequestId → List T → PaginationWindow → (T → J) → String → Response J
  build_list_response id items window serialize key =
      let listed =
        assign object key
          (array (map serialize (slice window.start_index window.end_index items))) in
      success (record {
        id = id;
        result = assign_some api "nextCursor" of_bytes window.next_cursor listed;
      })

  -- A list handler, for the definitions of an endpoint; the page size is 50 at each.
  unfoldable pub list_response :
      {T : Type 0} → ListEndpoint → List T → (T → J) → String → Request J → Response J
  unfolding build_list_response parse_cursor_from_params
  list_response endpoint items serialize key request =
      elim (parse_cursor_from_params endpoint request.params) [
        | complaint text ↦ error_reply invalid_params text request.id
        | value cursor ↦ elim (apply_pagination endpoint cursor (length items) 50) [
          | none ↦
              error_reply invalid_params
                (String.◌++◌ "Invalid " (String.◌++◌ (endpoint_name endpoint) "/list cursor"))
                (integer (pos 0))
          | some window ↦ build_list_response request.id items window serialize key
        ]
      ]

  module _ {H : Type 0} where
    unfoldable pub handle_tools_list_request : Request J → Server J H → Response J
    unfolding list_response
    handle_tools_list_request request s =
        list_response tools (map (λ t. t.definition) s.tools) (tool_to_json api) "tools" request

    unfoldable pub handle_resources_list_request : (ℕ → J) → Request J → Server J H → Response J
    unfolding list_response
    handle_resources_list_request of_uint64 request s =
        list_response resources (map (λ r. r.definition) s.resources)
          (resource_to_json api of_uint64) "resources" request

    unfoldable pub handle_resource_templates_list_request : Request J → Server J H → Response J
    unfolding list_response
    handle_resource_templates_list_request request s =
        list_response resource_templates s.resource_templates (resource_template_to_json api)
          "resourceTemplates" request

    unfoldable pub handle_prompts_list_request : Request J → Server J H → Response J
    unfolding list_response
    handle_prompts_list_request request s =
        list_response prompts (map (λ p. p.definition) s.prompts) (prompt_to_json api) "prompts"
          request
