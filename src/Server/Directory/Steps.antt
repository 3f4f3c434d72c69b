-- ===== src/Server/Directory/Steps.antt =====
-- What each registration and unregistration does with the lists of a server (src/server/server.cpp).
use cpp_mcp_sdk.Base.{
  String, not, ◌&&◌, Option, none, some, List, [], ◌∷◌, ◌≡◌, refl, arith, if◌then◌else◌, is_some,
  Bool-cases, Option-cases, inl, inr,
}
use cpp_mcp_sdk.Jsonrpc.Json.{JsonApi}
use cpp_mcp_sdk.Server.Definitions.{
  ToolDefinition, ResourceDefinition, ResourceTemplateDefinition, PromptArgumentDefinition,
  PromptDefinition,
}
use cpp_mcp_sdk.Server.{Server}
use cpp_mcp_sdk.Server.Registration.{
  ToolSchemaKind, input, tool_name, resource_uri, template_uri, prompt_name, register_tool,
  unregister_tool, register_resource, unregister_resource, register_resource_template,
  unregister_resource_template, register_prompt, unregister_prompt, schema_complaint,
  duplicate_argument,
}
use cpp_mcp_sdk.Server.Registry.{remove_named}
use cpp_mcp_sdk.Server.Registry.Refinement.{brings, drops, registry_step}
use cpp_mcp_sdk.Server.Directory.{
  entry_if, are_distinct, accepts_output, fit_tool, fit_resource, fit_template, fit_prompt, is_sent,
}

-- The checks of the code against the conditions.
schema_complaint-fit :
    {J : Type 0} (diagnose : ToolSchemaKind → J → Option String) (d : ToolDefinition J)
    → not (is_some (schema_complaint diagnose d))
      ≡ (not (is_some (diagnose input d.input_schema)) && accepts_output diagnose d.output_schema)
unfolding schema_complaint
schema_complaint-fit diagnose d = ground arith

duplicate_argument-distinct :
    {J : Type 0} (as_ : List (PromptArgumentDefinition J))
    → not (is_some (duplicate_argument as_)) ≡ are_distinct as_
unfolding duplicate_argument
duplicate_argument-distinct [] = refl
duplicate_argument-distinct (a ∷ rest) = ground (arith, duplicate_argument-distinct rest)

module _ {J H : Type 0} (api : JsonApi J) (diagnose : ToolSchemaKind → J → Option String) where
  pub register_tool-step :
      (d : ToolDefinition J) (handler : Option H) (s : Server J H)
      → let r = register_tool api diagnose d handler s in
        let m =
          registry_step tool_name (brings (entry_if (fit_tool api diagnose d) d handler)) s.tools in
        (r.0 ≡ record s { tools = m.0 }) × (is_sent r.1 ≡ m.1)
  unfolding register_tool registry_step
  register_tool-step d none s = (refl, refl)
  register_tool-step d (some handler) s = elim (Option-cases (schema_complaint diagnose d)) [
    | inl e ↦ ground (arith, e, schema_complaint-fit diagnose d)
    | inr (text, e) ↦ ground (arith, e, schema_complaint-fit diagnose d)
  ]

module _ {J H : Type 0} (api : JsonApi J) where
  pub register_resource-step :
      (d : ResourceDefinition J) (handler : Option H) (s : Server J H)
      → let r = register_resource api d handler s in
        let m =
          registry_step resource_uri (brings (entry_if (fit_resource d) d handler)) s.resources in
        (r.0 ≡ record s { resources = m.0 }) × (is_sent r.1 ≡ m.1)
  unfolding register_resource registry_step
  register_resource-step d none s = (refl, refl)
  register_resource-step d (some handler) s = ground arith

  pub register_prompt-step :
      (d : PromptDefinition J) (handler : Option H) (s : Server J H)
      → let r = register_prompt api d handler s in
        let m = registry_step prompt_name (brings (entry_if (fit_prompt d) d handler)) s.prompts in
        (r.0 ≡ record s { prompts = m.0 }) × (is_sent r.1 ≡ m.1)
  unfolding register_prompt registry_step
  register_prompt-step d none s = (refl, refl)
  register_prompt-step d (some handler) s = ground (arith, duplicate_argument-distinct d.arguments)

  pub register_resource_template-step :
      (d : ResourceTemplateDefinition J) (s : Server J H)
      → let r = register_resource_template api d s in
        let m =
          registry_step template_uri
            (brings (if fit_template d then some d else none))
            s.resource_templates in
        (r.0 ≡ record s { resource_templates = m.0 }) × (is_sent r.1 ≡ m.1)
  unfolding register_resource_template registry_step
  register_resource_template-step d s = ground arith

  pub unregister_tool-step :
      (name : String) (s : Server J H)
      → let r = unregister_tool api name s in
        let m = registry_step tool_name (drops name) s.tools in
        (r.0 ≡ record s { tools = m.0 }) × (r.1 ≡ m.1)
  unfolding unregister_tool registry_step
  unregister_tool-step name s = elim (Bool-cases (remove_named tool_name name s.tools).1) [
    | inl e ↦ rw (unregister_tool, e) (refl, refl)
    | inr e ↦ rw (unregister_tool, e) (refl, refl)
  ]

  pub unregister_resource-step :
      (uri : String) (s : Server J H)
      → let r = unregister_resource api uri s in
        let m = registry_step resource_uri (drops uri) s.resources in
        (r.0 ≡ record s { resources = m.0; resource_subscriptions = r.0.resource_subscriptions })
        × (r.1 ≡ m.1)
  unfolding unregister_resource registry_step
  unregister_resource-step uri s = elim (Bool-cases (remove_named resource_uri uri s.resources).1) [
    | inl e ↦ rw (unregister_resource, e) (refl, refl)
    | inr e ↦ rw (unregister_resource, e) (refl, refl)
  ]

  pub unregister_resource_template-step :
      (uri : String) (s : Server J H)
      → let r = unregister_resource_template api uri s in
        let m = registry_step template_uri (drops uri) s.resource_templates in
        (r.0 ≡ record s { resource_templates = m.0 }) × (r.1 ≡ m.1)
  unfolding unregister_resource_template registry_step
  unregister_resource_template-step uri s =
      elim (Bool-cases (remove_named template_uri uri s.resource_templates).1) [
        | inl e ↦ rw (unregister_resource_template, e) (refl, refl)
        | inr e ↦ rw (unregister_resource_template, e) (refl, refl)
      ]

  pub unregister_prompt-step :
      (name : String) (s : Server J H)
      → let r = unregister_prompt api name s in
        let m = registry_step prompt_name (drops name) s.prompts in
        (r.0 ≡ record s { prompts = m.0 }) × (r.1 ≡ m.1)
  unfolding unregister_prompt registry_step
  unregister_prompt-step name s = elim (Bool-cases (remove_named prompt_name name s.prompts).1) [
    | inl e ↦ rw (unregister_prompt, e) (refl, refl)
    | inr e ↦ rw (unregister_prompt, e) (refl, refl)
  ]
