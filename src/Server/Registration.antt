-- ===== src/Server/Registration.antt =====
-- `registerTool` to `unregisterPrompt` of src/server/server.cpp.
use Prim.Native.String
use cpp_mcp_sdk.Base.{
  String, Bool, true, false, not, Option, none, some, List, [], ◌∷◌, any, if◌then◌else◌, ◌=ₛ◌,
}
use cpp_mcp_sdk.Jsonrpc.Json.{JsonApi}
use cpp_mcp_sdk.Jsonrpc.Messages.{Notification}
use cpp_mcp_sdk.Server.Definitions.{
  ToolDefinition, ResourceDefinition, ResourceTemplateDefinition, PromptArgumentDefinition,
  PromptDefinition,
}
use cpp_mcp_sdk.Server.{
  Registered, ResourceSubscription, Server, notify_tools_list_changed,
  notify_resources_list_changed, notify_prompts_list_changed,
}
use cpp_mcp_sdk.Server.Registry.{add_named, remove_named}

pub data ToolSchemaKind : Type 0 where
  input output : ToolSchemaKind

-- A registration throws, or the notifications that it sends.
pub data Registration (J : Type 0) : Type 0 where
  thrown : String → Registration J
  sent : List (Notification J) → Registration J

-- The names of the arguments that follow one of the same name.
unfoldable pub duplicate_argument : {J : Type 0} → List (PromptArgumentDefinition J) → Option String
duplicate_argument [] = none
duplicate_argument (a ∷ rest) =
    let later = duplicate_argument rest in
    if any (λ b. b.name =ₛ a.name) rest then some a.name else later

unfoldable pub without_uri : String → List ResourceSubscription → List ResourceSubscription
without_uri uri [] = []
without_uri uri (s ∷ ss) = let rest = without_uri uri ss in if s.uri =ₛ uri then rest else s ∷ rest

abbrev pub tool_name : {J H : Type 0} → Registered H (ToolDefinition J) → String
tool_name t = t.definition.name

abbrev pub resource_uri : {J H : Type 0} → Registered H (ResourceDefinition J) → String
resource_uri r = r.definition.uri

abbrev pub template_uri : {J : Type 0} → ResourceTemplateDefinition J → String
template_uri t = t.uri_template

abbrev pub prompt_name : {J H : Type 0} → Registered H (PromptDefinition J) → String
prompt_name p = p.definition.name

-- What a tool's schemas are refused for.
unfoldable pub schema_complaint :
    {J : Type 0} → (ToolSchemaKind → J → Option String) → ToolDefinition J → Option String
schema_complaint diagnose d = elim (diagnose input d.input_schema) [
  | some text ↦ some (String.◌++◌ "Tool input schema is invalid: " text)
  | none ↦ elim d.output_schema [
    | none ↦ none
    | some schema ↦ elim (diagnose output schema) [
      | some text ↦ some (String.◌++◌ "Tool output schema is invalid: " text)
      | none ↦ none
    ]
  ]
]

module _ {J H : Type 0} where
  -- A change that is done, or a name that is taken.
  abbrev registered :
      (Server J H → List (Notification J))
      → String
      → Server J H
      → Option (Server J H)
      → Server J H × Registration J
  registered notify taken s none = (s, thrown taken)
  registered notify taken s (some s') = (s', sent (notify s'))

  -- An entry that went, or none of the name.
  abbrev unregistered :
      (Server J H → List (Notification J))
      → Server J H
      → Bool
      → Server J H × Bool × List (Notification J)
  unregistered notify s true = (s, true, notify s)
  unregistered notify s false = (s, false, [])

  abbrev put_tools :
      Server J H → Option (List (Registered H (ToolDefinition J))) → Option (Server J H)
  put_tools s none = none
  put_tools s (some ts) = some (record s { tools = ts })

  abbrev put_resources :
      Server J H → Option (List (Registered H (ResourceDefinition J))) → Option (Server J H)
  put_resources s none = none
  put_resources s (some rs) = some (record s { resources = rs })

  abbrev put_templates :
      Server J H → Option (List (ResourceTemplateDefinition J)) → Option (Server J H)
  put_templates s none = none
  put_templates s (some ts) = some (record s { resource_templates = ts })

module _ {J H : Type 0} (api : JsonApi J) where
  unfoldable pub register_tool :
      (ToolSchemaKind → J → Option String)
      → ToolDefinition J
      → Option H
      → Server J H
      → Server J H × Registration J
  unfolding schema_complaint
  register_tool diagnose d none s = (s, thrown "Tool handler must not be null")
  register_tool diagnose d (some handler) s =
      if d.name =ₛ ""
      then (s, thrown "Tool name must not be empty")
      else if not (api.is_object d.input_schema)
      then (s, thrown "Tool input schema must be a JSON object")
      else elim (schema_complaint diagnose d) [
        | some complaint ↦ (s, thrown complaint)
        | none ↦
            registered (notify_tools_list_changed api)
              (String.◌++◌ "Tool already registered: " d.name) s
              (put_tools s
                (add_named tool_name (record { definition = d; handler = handler }) s.tools))
      ]

  unfoldable pub unregister_tool : String → Server J H → Server J H × Bool × List (Notification J)
  unregister_tool name s =
      let removed = remove_named tool_name name s.tools in
      unregistered (notify_tools_list_changed api) (record s { tools = removed.0 }) removed.1

  unfoldable pub register_resource :
      ResourceDefinition J → Option H → Server J H → Server J H × Registration J
  register_resource d none s = (s, thrown "Resource handler must not be null")
  register_resource d (some handler) s =
      if d.uri =ₛ ""
      then (s, thrown "Resource URI must not be empty")
      else if d.name =ₛ ""
      then (s, thrown "Resource name must not be empty")
      else registered (notify_resources_list_changed api)
          (String.◌++◌ "Resource already registered: " d.uri) s
          (put_resources s
            (add_named resource_uri (record { definition = d; handler = handler }) s.resources))

  unfoldable pub unregister_resource :
      String → Server J H → Server J H × Bool × List (Notification J)
  unfolding without_uri
  unregister_resource uri s =
      let removed = remove_named resource_uri uri s.resources in
      unregistered (notify_resources_list_changed api)
        (record s {
          resources = removed.0;
          resource_subscriptions =
              if removed.1
              then without_uri uri s.resource_subscriptions
              else s.resource_subscriptions;
        })
        removed.1

  unfoldable pub register_resource_template :
      ResourceTemplateDefinition J → Server J H → Server J H × Registration J
  register_resource_template d s =
      if d.uri_template =ₛ ""
      then (s, thrown "Resource template URI template must not be empty")
      else if d.name =ₛ ""
      then (s, thrown "Resource template name must not be empty")
      else registered (notify_resources_list_changed api)
          (String.◌++◌ "Resource template already registered: " d.uri_template) s
          (put_templates s (add_named template_uri d s.resource_templates))

  unfoldable pub unregister_resource_template :
      String → Server J H → Server J H × Bool × List (Notification J)
  unregister_resource_template uri_template s =
      let removed = remove_named template_uri uri_template s.resource_templates in
      unregistered (notify_resources_list_changed api) (record s { resource_templates = removed.0 })
        removed.1

  unfoldable pub register_prompt :
      PromptDefinition J → Option H → Server J H → Server J H × Registration J
  unfolding duplicate_argument
  register_prompt d none s = (s, thrown "Prompt handler must not be null")
  register_prompt d (some handler) s =
      if d.name =ₛ ""
      then (s, thrown "Prompt name must not be empty")
      else if any (λ a. a.name =ₛ "") d.arguments
      then (s, thrown "Prompt argument name must not be empty")
      else elim (add_named prompt_name (record { definition = d; handler = handler }) s.prompts) [
        | none ↦ (s, thrown (String.◌++◌ "Prompt already registered: " d.name))
        | some ps ↦ elim (duplicate_argument d.arguments) [
          | some name ↦ (s, thrown (String.◌++◌ "Prompt argument names must be unique: " name))
          | none ↦
              let s' = record s { prompts = ps } in (s', sent (notify_prompts_list_changed api s'))
        ]
      ]

  unfoldable pub unregister_prompt : String → Server J H → Server J H × Bool × List (Notification J)
  unregister_prompt name s =
      let removed = remove_named prompt_name name s.prompts in
      unregistered (notify_prompts_list_changed api) (record s { prompts = removed.0 }) removed.1
