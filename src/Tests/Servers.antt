-- ===== src/Tests/Servers.antt =====
-- The server's registries, lists and subscriptions on concrete calls.
use Prim.Native.Nat.{◌+◌}
use cpp_mcp_sdk.Base.{
  Option, ℕ, String, true, false, none, some, List, [], ◌∷◌, ◌≡◌, refl, arith, String-discrete,
  length, is_some, if◌then◌else◌, slice, map, min, ltb,
}
use cpp_mcp_sdk.Base.Int.{pos}
use cpp_mcp_sdk.Jsonrpc.Json.{assign_some}
use cpp_mcp_sdk.Jsonrpc.Messages.{RequestContext, Request, Notification, integer, success}
use cpp_mcp_sdk.Lifecycle.Capabilities.{no_server_capabilities}
use cpp_mcp_sdk.Lifecycle.Session.{
  can_send_notification, new_session, server, operating, SessionState-discrete,
}
use cpp_mcp_sdk.Tasks.Requests.{value}
use cpp_mcp_sdk.Server.{
  Server, debug, notify_resource_updated, is_subscription, session_key_for_context,
}
use cpp_mcp_sdk.Server.Definitions.{ResourceDefinition, ToolDefinition}
use cpp_mcp_sdk.Server.Cursors.{tools, prompts, parse_list_cursor, make_list_cursor}
use cpp_mcp_sdk.Server.Cursors.RoundTrip.{parse-make_list_cursor, same_endpoint}
use cpp_mcp_sdk.Server.Registry.{find_named, add_named}
use cpp_mcp_sdk.Server.Registry.Refinement.{map_step}
use cpp_mcp_sdk.Server.Directory.{
  ServerCall, registers_tool, registers_resource, unregisters_tool, server_run, server_results,
  directory_run, directory_results, directory_step,
}
use cpp_mcp_sdk.Server.Directory.Refinement.{server-refines_directory}
use cpp_mcp_sdk.Server.Registration.{
  ToolSchemaKind, tool_name, resource_uri, template_uri, prompt_name, register_resource,
}
use cpp_mcp_sdk.Server.Requests.{handle_resources_subscribe_request, required_string}
use cpp_mcp_sdk.Server.Lists.{list_response, parse_cursor_from_params}
use cpp_mcp_sdk.Server.Lists.Replies.{cursor-page}
use cpp_mcp_sdk.Server.Subscriptions.{
  ResourceCall, subscribes, resource_run, resource_step, updated-registered,
}
use cpp_mcp_sdk.Text.Base64Url.{encode_base64_url_no_pad, encode_triple, symbol}
use cpp_mcp_sdk.Base.Decimal.{decimal, digits_from}
use cpp_mcp_sdk.Server.Cursors.{expected_prefix, endpoint_to_cursor_label}
use cpp_mcp_sdk.Tests.Sample.{Json, str, no_entries, entry, sample_api, has_key, value_at}

parse-make_list_cursor_example :
    parse_list_cursor prompts (make_list_cursor tools 50)
    ≡ (if same_endpoint tools prompts then some 50 else none)
parse-make_list_cursor_example = parse-make_list_cursor tools prompts 50 (omega arith)

abbrev of_bytes : List ℕ → Json
of_bytes bytes = no_entries

abbrev listing : Request Json
listing = record {
  id = integer (pos 7);
  method = "tools/list";
  params = some (entry "cursor" (str "x") no_entries);
}

abbrev items : List Json
items = str "a" ∷ str "b" ∷ []

abbrev itself_json : Json → Json
itself_json j = j

-- The cursor for the start index 1 of the tools.
abbrev second_page : Request Json
second_page = record listing {
  params = some (entry "cursor" (str "bWNwOnYxOnRvb2xzOjE") no_entries);
}

parsed_cursor :
    parse_cursor_from_params sample_api of_bytes tools second_page.params
    ≡ value (some (make_list_cursor tools 1))
unfolding parse_cursor_from_params has_key value_at String-discrete make_list_cursor expected_prefix
    endpoint_to_cursor_label encode_base64_url_no_pad encode_triple symbol decimal digits_from
parsed_cursor = refl

cursor-page_example :
    list_response sample_api of_bytes tools items itself_json "tools" second_page
    ≡ success (record {
      id = integer (pos 7);
      result =
          assign_some sample_api "nextCursor" of_bytes
            (if ltb (1 + 50) (length items) then some (make_list_cursor tools (1 + 50)) else none)
            (sample_api.assign sample_api.object "tools"
              (sample_api.array (map itself_json (slice 1 (min (1 + 50) (length items)) items))));
    })
cursor-page_example =
    cursor-page sample_api of_bytes tools items itself_json "tools" second_page 1 parsed_cursor
      (omega arith) (omega arith)

abbrev offering : Server Json ℕ
offering = record {
  capabilities = record no_server_capabilities {
    resources = some (record { subscribe = true; list_changed = false });
  };
  session = record (new_session ("2025-11-25" ∷ [])) { role = server; state = operating };
  tools = [];
  resources = [];
  resource_templates = [];
  resource_subscriptions = [];
  prompts = [];
  log_level = debug;
}

abbrev report : ResourceDefinition Json
report = record {
  uri = "file:r";
  name = "report";
  title = none;
  description = none;
  icons = none;
  mime_type = none;
  size = none;
  annotations = none;
  metadata = none;
}

abbrev peer : RequestContext
peer = record { protocol_version = "2025-11-25"; session_id = some "s1"; auth_context = none }

abbrev subscription : Request Json
subscription = record {
  id = integer (pos 8);
  method = "resources/subscribe";
  params = some (entry "uri" (str "file:r") no_entries);
}

abbrev resource_calls : List (ResourceCall Json ℕ)
resource_calls = ResourceCall.registers report (some 1) ∷ subscribes peer subscription ∷ []

abbrev update : Notification Json
update = record {
  method = "notifications/resources/updated";
  params = some (entry "uri" (str "file:r") no_entries);
}

updated :
    notify_resource_updated sample_api "file:r" peer
      (resource_run sample_api offering resource_calls)
    ≡ update ∷ []
unfolding notify_resource_updated resource_run resource_step register_resource add_named find_named
    handle_resources_subscribe_request required_string has_key value_at is_subscription
    session_key_for_context can_send_notification String-discrete SessionState-discrete
updated = refl

updated-registered_example :
    is_some
      (find_named resource_uri "file:r" (resource_run sample_api offering resource_calls).resources)
    ≡ true
updated-registered_example =
    updated-registered sample_api offering resource_calls "file:r" peer update [] refl updated

-- A tool is registered, then once more; a resource has no handler, then one; the tool goes.
abbrev sum_tool : ToolDefinition Json
sum_tool = record {
  name = "sum";
  title = none;
  description = none;
  icons = none;
  input_schema = no_entries;
  output_schema = none;
  annotations = none;
  execution = none;
  metadata = none;
}

abbrev no_complaint : ToolSchemaKind → Json → Option String
no_complaint kind schema = none

abbrev server_calls : List (ServerCall Json ℕ)
server_calls =
    registers_tool sum_tool (some 1)
    ∷ registers_tool sum_tool (some 2)
    ∷ registers_resource report none
    ∷ registers_resource report (some 3)
    ∷ unregisters_tool "sum"
    ∷ unregisters_tool "sum"
    ∷ []

server-refines_directory_example :
    let after = server_run sample_api no_complaint server_calls offering in
    (server_results sample_api no_complaint server_calls offering
      ≡ true ∷ false ∷ false ∷ true ∷ true ∷ false ∷ [])
    × (find_named tool_name "file:r" after.tools ≡ none)
    × (find_named resource_uri "file:r" after.resources
        ≡ some (record { definition = report; handler = 3 }))
    × (find_named template_uri "file:r" after.resource_templates ≡ none)
    × (find_named prompt_name "file:r" after.prompts ≡ none)
unfolding directory_results directory_run directory_step map_step String-discrete
server-refines_directory_example =
    server-refines_directory sample_api no_complaint server_calls offering "file:r" refl refl refl
      refl
