-- ===== src/Server/Directory.antt =====
-- The registrations of tools, resources, templates and prompts at a server against a directory: four maps
-- from names to entries, into which an entry comes if it is fit to be registered and its name is free
-- (registerTool to unregisterPrompt of src/server/server.cpp).
pub mod Steps
pub mod Refinement
use cpp_mcp_sdk.Base.{
  String, Bool, true, false, not, ◌&&◌, Option, none, some, List, [], ◌∷◌, any, if◌then◌else◌, ◌=ₛ◌,
  is_some,
}
use cpp_mcp_sdk.Jsonrpc.Json.{JsonApi}
use cpp_mcp_sdk.Server.Definitions.{
  ToolDefinition, ResourceDefinition, ResourceTemplateDefinition, PromptArgumentDefinition,
  PromptDefinition,
}
use cpp_mcp_sdk.Server.{Registered, Server}
use cpp_mcp_sdk.Server.Registration.{
  ToolSchemaKind, input, output, Registration, thrown, sent, tool_name, resource_uri, template_uri,
  prompt_name, register_tool, unregister_tool, register_resource, unregister_resource,
  register_resource_template, unregister_resource_template, register_prompt, unregister_prompt,
}
use cpp_mcp_sdk.Server.Registry.Refinement.{RegistryCall, brings, drops, map_step}

-- A handler may be null.
pub data ServerCall (J H : Type 0) : Type 0 where
  registers_tool : ToolDefinition J → Option H → ServerCall J H
  unregisters_tool : String → ServerCall J H
  registers_resource : ResourceDefinition J → Option H → ServerCall J H
  unregisters_resource : String → ServerCall J H
  registers_template : ResourceTemplateDefinition J → ServerCall J H
  unregisters_template : String → ServerCall J H
  registers_prompt : PromptDefinition J → Option H → ServerCall J H
  unregisters_prompt : String → ServerCall J H

pub record Directory (J H : Type 0) : Type 0 where
  pub tool_at : String → Option (Registered H (ToolDefinition J))
  pub resource_at : String → Option (Registered H (ResourceDefinition J))
  pub template_at : String → Option (ResourceTemplateDefinition J)
  pub prompt_at : String → Option (Registered H (PromptDefinition J))

-- An entry, if there is a handler and it is fit.
abbrev pub entry_if : {H T : Type 0} → Bool → T → Option H → Option (Registered H T)
entry_if fit d none = none
entry_if fit d (some handler) =
    if fit then some (record { definition = d; handler = handler }) else none

-- No two arguments have one name.
abbrev pub are_distinct : {J : Type 0} → List (PromptArgumentDefinition J) → Bool
are_distinct [] = true
are_distinct (a ∷ rest) = not (any (λ b. b.name =ₛ a.name) rest) && are_distinct rest

abbrev pub accepts_output : {J : Type 0} → (ToolSchemaKind → J → Option String) → Option J → Bool
accepts_output diagnose none = true
accepts_output diagnose (some schema) = not (is_some (diagnose output schema))

module _ {J : Type 0} (api : JsonApi J) (diagnose : ToolSchemaKind → J → Option String) where
  -- A name, and schemas that are valid.
  abbrev pub fit_tool : ToolDefinition J → Bool
  fit_tool d =
      not (d.name =ₛ "")
      && (api.is_object d.input_schema
          && (not (is_some (diagnose input d.input_schema))
              && accepts_output diagnose d.output_schema))

-- A name and a URI.
abbrev pub fit_resource : {J : Type 0} → ResourceDefinition J → Bool
fit_resource d = not (d.uri =ₛ "") && not (d.name =ₛ "")

abbrev pub fit_template : {J : Type 0} → ResourceTemplateDefinition J → Bool
fit_template d = not (d.uri_template =ₛ "") && not (d.name =ₛ "")

-- A name, and arguments whose names are not empty and distinct.
abbrev pub fit_prompt : {J : Type 0} → PromptDefinition J → Bool
fit_prompt d =
    not (d.name =ₛ "") && (not (any (λ a. a.name =ₛ "") d.arguments) && are_distinct d.arguments)

-- Was the registration done?
abbrev pub is_sent : {J : Type 0} → Registration J → Bool
is_sent (thrown text) = false
is_sent (sent notifications) = true

module _ {J H : Type 0} (api : JsonApi J) (diagnose : ToolSchemaKind → J → Option String) where
  -- The server after a call, and whether a registration was done or an unregistration found something.
  unfoldable pub server_step : ServerCall J H → Server J H → Server J H × Bool
  unfolding register_tool unregister_tool register_resource unregister_resource
      register_resource_template unregister_resource_template register_prompt unregister_prompt
  server_step (registers_tool d handler) s =
      let r = register_tool api diagnose d handler s in (r.0, is_sent r.1)
  server_step (unregisters_tool name) s = let r = unregister_tool api name s in (r.0, r.1)
  server_step (registers_resource d handler) s =
      let r = register_resource api d handler s in (r.0, is_sent r.1)
  server_step (unregisters_resource uri) s = let r = unregister_resource api uri s in (r.0, r.1)
  server_step (registers_template d) s =
      let r = register_resource_template api d s in (r.0, is_sent r.1)
  server_step (unregisters_template uri) s =
      let r = unregister_resource_template api uri s in (r.0, r.1)
  server_step (registers_prompt d handler) s =
      let r = register_prompt api d handler s in (r.0, is_sent r.1)
  server_step (unregisters_prompt name) s = let r = unregister_prompt api name s in (r.0, r.1)

  unfoldable pub directory_step : ServerCall J H → Directory J H → Directory J H × Bool
  unfolding map_step
  directory_step (registers_tool d handler) f =
      let r =
        map_step tool_name (brings (entry_if (fit_tool api diagnose d) d handler)) f.tool_at in
      (record f { tool_at = r.0 }, r.1)
  directory_step (unregisters_tool name) f =
      let r = map_step tool_name (drops name) f.tool_at in (record f { tool_at = r.0 }, r.1)
  directory_step (registers_resource d handler) f =
      let r = map_step resource_uri (brings (entry_if (fit_resource d) d handler)) f.resource_at in
      (record f { resource_at = r.0 }, r.1)
  directory_step (unregisters_resource uri) f =
      let r = map_step resource_uri (drops uri) f.resource_at in
      (record f { resource_at = r.0 }, r.1)
  directory_step (registers_template d) f =
      let r =
        map_step template_uri (brings (if fit_template d then some d else none)) f.template_at in
      (record f { template_at = r.0 }, r.1)
  directory_step (unregisters_template uri) f =
      let r = map_step template_uri (drops uri) f.template_at in
      (record f { template_at = r.0 }, r.1)
  directory_step (registers_prompt d handler) f =
      let r = map_step prompt_name (brings (entry_if (fit_prompt d) d handler)) f.prompt_at in
      (record f { prompt_at = r.0 }, r.1)
  directory_step (unregisters_prompt name) f =
      let r = map_step prompt_name (drops name) f.prompt_at in (record f { prompt_at = r.0 }, r.1)

  unfoldable pub server_run : List (ServerCall J H) → Server J H → Server J H
  unfolding server_step
  server_run [] s = s
  server_run (c ∷ cs) s = server_run cs (server_step c s).0

  unfoldable pub server_results : List (ServerCall J H) → Server J H → List Bool
  unfolding server_step
  server_results [] s = []
  server_results (c ∷ cs) s = (server_step c s).1 ∷ server_results cs (server_step c s).0

  unfoldable pub directory_run : List (ServerCall J H) → Directory J H → Directory J H
  unfolding directory_step
  directory_run [] f = f
  directory_run (c ∷ cs) f = directory_run cs (directory_step c f).0

  unfoldable pub directory_results : List (ServerCall J H) → Directory J H → List Bool
  unfolding directory_step
  directory_results [] f = []
  directory_results (c ∷ cs) f =
      (directory_step c f).1 ∷ directory_results cs (directory_step c f).0

abbrev pub empty_directory : {J H : Type 0} → Directory J H
empty_directory = record {
  tool_at = λ n. none;
  resource_at = λ n. none;
  template_at = λ n. none;
  prompt_at = λ n. none;
}
