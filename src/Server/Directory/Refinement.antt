-- ===== src/Server/Directory/Refinement.antt =====
-- The lists of the server give the directory's entries.
use cpp_mcp_sdk.Base.{String, Option, List, [], ◌∷◌, ◌≡◌, refl, ◌∙◌, sym}
use mathlib.Core.Path.{subst, ap₂}
use cpp_mcp_sdk.Jsonrpc.Json.{JsonApi}
use cpp_mcp_sdk.Server.Definitions.{
  ToolDefinition, ResourceDefinition, ResourceTemplateDefinition, PromptDefinition,
}
use cpp_mcp_sdk.Server.{Registered, ResourceSubscription, Server}
use cpp_mcp_sdk.Server.Registration.{
  ToolSchemaKind, tool_name, resource_uri, template_uri, prompt_name,
}
use cpp_mcp_sdk.Server.Registry.{find_named}
use cpp_mcp_sdk.Server.Registry.Refinement.{
  RegistryCall, map_step, registry_step, Represents, step-result, step-Represents, empty-Represents,
}
use cpp_mcp_sdk.Server.Directory.{
  ServerCall, registers_tool, unregisters_tool, registers_resource, unregisters_resource,
  registers_template, unregisters_template, registers_prompt, unregisters_prompt, Directory,
  server_step, directory_step, server_run, server_results, directory_run, directory_results,
  empty_directory,
}
use cpp_mcp_sdk.Server.Directory.Steps.{
  register_tool-step, register_resource-step, register_prompt-step, register_resource_template-step,
  unregister_tool-step, unregister_resource-step, unregister_resource_template-step,
  unregister_prompt-step,
}

module _ {J H : Type 0} (api : JsonApi J) (diagnose : ToolSchemaKind → J → Option String) where
  -- The lists of the server give the directory's entries.
  pub record Shows (s : Server J H) (f : Directory J H) : Type 0 where
    pub tools_shown : Represents tool_name s.tools f.tool_at
    pub resources_shown : Represents resource_uri s.resources f.resource_at
    pub templates_shown : Represents template_uri s.resource_templates f.template_at
    pub prompts_shown : Represents prompt_name s.prompts f.prompt_at

  step-result_shown :
      (c : ServerCall J H) (s : Server J H) (f : Directory J H)
      → Shows s f
      → (server_step api diagnose c s).1 ≡ (directory_step api diagnose c f).1
  unfolding server_step directory_step
  step-result_shown (registers_tool d handler) s f sh =
      (register_tool-step api diagnose d handler s).1
      ∙ step-result tool_name _ s.tools f.tool_at sh.tools_shown
  step-result_shown (unregisters_tool name) s f sh =
      (unregister_tool-step api name s).1 ∙ step-result tool_name _ s.tools f.tool_at sh.tools_shown
  step-result_shown (registers_resource d handler) s f sh =
      (register_resource-step api d handler s).1
      ∙ step-result resource_uri _ s.resources f.resource_at sh.resources_shown
  step-result_shown (unregisters_resource uri) s f sh =
      (unregister_resource-step api uri s).1
      ∙ step-result resource_uri _ s.resources f.resource_at sh.resources_shown
  step-result_shown (registers_template d) s f sh =
      (register_resource_template-step api d s).1
      ∙ step-result template_uri _ s.resource_templates f.template_at sh.templates_shown
  step-result_shown (unregisters_template uri) s f sh =
      (unregister_resource_template-step api uri s).1
      ∙ step-result template_uri _ s.resource_templates f.template_at sh.templates_shown
  step-result_shown (registers_prompt d handler) s f sh =
      (register_prompt-step api d handler s).1
      ∙ step-result prompt_name _ s.prompts f.prompt_at sh.prompts_shown
  step-result_shown (unregisters_prompt name) s f sh =
      (unregister_prompt-step api name s).1
      ∙ step-result prompt_name _ s.prompts f.prompt_at sh.prompts_shown

  tools-Shows :
      (call : RegistryCall (Registered H (ToolDefinition J))) (s s' : Server J H)
      (f : Directory J H)
      → Shows s f
      → s' ≡ record s { tools = (registry_step tool_name call s.tools).0 }
      → Shows s' (record f { tool_at = (map_step tool_name call f.tool_at).0 })
  tools-Shows call s s' f sh e =
      subst (λ t. Shows t (record f { tool_at = (map_step tool_name call f.tool_at).0 })) (sym e)
        (record {
          tools_shown = step-Represents tool_name call s.tools f.tool_at sh.tools_shown;
          resources_shown = sh.resources_shown;
          templates_shown = sh.templates_shown;
          prompts_shown = sh.prompts_shown;
        })

  resources-Shows :
      (call : RegistryCall (Registered H (ResourceDefinition J))) (s s' : Server J H)
      (subs : List ResourceSubscription) (f : Directory J H)
      → Shows s f
      → s' ≡ record s {
        resources = (registry_step resource_uri call s.resources).0;
        resource_subscriptions = subs;
      }
      → Shows s' (record f { resource_at = (map_step resource_uri call f.resource_at).0 })
  resources-Shows call s s' subs f sh e =
      subst (λ t. Shows t (record f { resource_at = (map_step resource_uri call f.resource_at).0 }))
        (sym e)
        (record {
          tools_shown = sh.tools_shown;
          resources_shown =
              step-Represents resource_uri call s.resources f.resource_at sh.resources_shown;
          templates_shown = sh.templates_shown;
          prompts_shown = sh.prompts_shown;
        })

  templates-Shows :
      (call : RegistryCall (ResourceTemplateDefinition J)) (s s' : Server J H) (f : Directory J H)
      → Shows s f
      → s'
        ≡ record s { resource_templates = (registry_step template_uri call s.resource_templates).0 }
      → Shows s' (record f { template_at = (map_step template_uri call f.template_at).0 })
  templates-Shows call s s' f sh e =
      subst (λ t. Shows t (record f { template_at = (map_step template_uri call f.template_at).0 }))
        (sym e)
        (record {
          tools_shown = sh.tools_shown;
          resources_shown = sh.resources_shown;
          templates_shown =
              step-Represents template_uri call s.resource_templates f.template_at
                sh.templates_shown;
          prompts_shown = sh.prompts_shown;
        })

  prompts-Shows :
      (call : RegistryCall (Registered H (PromptDefinition J))) (s s' : Server J H)
      (f : Directory J H)
      → Shows s f
      → s' ≡ record s { prompts = (registry_step prompt_name call s.prompts).0 }
      → Shows s' (record f { prompt_at = (map_step prompt_name call f.prompt_at).0 })
  prompts-Shows call s s' f sh e =
      subst (λ t. Shows t (record f { prompt_at = (map_step prompt_name call f.prompt_at).0 }))
        (sym e)
        (record {
          tools_shown = sh.tools_shown;
          resources_shown = sh.resources_shown;
          templates_shown = sh.templates_shown;
          prompts_shown = step-Represents prompt_name call s.prompts f.prompt_at sh.prompts_shown;
        })

  step-Shows :
      (c : ServerCall J H) (s : Server J H) (f : Directory J H)
      → Shows s f
      → Shows (server_step api diagnose c s).0 (directory_step api diagnose c f).0
  unfolding server_step directory_step
  step-Shows (registers_tool d handler) s f sh =
      tools-Shows _ s _ f sh (register_tool-step api diagnose d handler s).0
  step-Shows (unregisters_tool name) s f sh =
      tools-Shows _ s _ f sh (unregister_tool-step api name s).0
  step-Shows (registers_resource d handler) s f sh =
      resources-Shows _ s _ _ f sh (register_resource-step api d handler s).0
  step-Shows (unregisters_resource uri) s f sh =
      resources-Shows _ s _ _ f sh (unregister_resource-step api uri s).0
  step-Shows (registers_template d) s f sh =
      templates-Shows _ s _ f sh (register_resource_template-step api d s).0
  step-Shows (unregisters_template uri) s f sh =
      templates-Shows _ s _ f sh (unregister_resource_template-step api uri s).0
  step-Shows (registers_prompt d handler) s f sh =
      prompts-Shows _ s _ f sh (register_prompt-step api d handler s).0
  step-Shows (unregisters_prompt name) s f sh =
      prompts-Shows _ s _ f sh (unregister_prompt-step api name s).0

  run-Shows :
      (cs : List (ServerCall J H)) (s : Server J H) (f : Directory J H)
      → Shows s f
      → (server_results api diagnose cs s ≡ directory_results api diagnose cs f)
        × Shows (server_run api diagnose cs s) (directory_run api diagnose cs f)
  unfolding server_results directory_results server_run directory_run
  run-Shows [] s f sh = (refl, sh)
  run-Shows (c ∷ cs) s f sh =
      let rest =
        run-Shows cs (server_step api diagnose c s).0 (directory_step api diagnose c f).0
          (step-Shows c s f sh) in
      (ap₂ ◌∷◌ (step-result_shown c s f sh) rest.0, rest.1)

  -- From a server without tools, resources, templates and prompts, any sequence of their registrations and
  -- unregistrations gives the results of the same calls on a directory, and each name then finds the
  -- directory's entry: a registration is done if and only if there is a handler, the definition
  -- passes the conditions on its names, schemas and arguments and its name is free, and throws and
  -- changes none of the lists otherwise; an unregistration removes the entry of the name if and only if
  -- there is one.
  pub server-refines_directory :
      (cs : List (ServerCall J H)) (s : Server J H) (n : String)
      → s.tools ≡ []
      → s.resources ≡ []
      → s.resource_templates ≡ []
      → s.prompts ≡ []
      → let after = server_run api diagnose cs s in
        let directory = directory_run api diagnose cs empty_directory in
        (server_results api diagnose cs s ≡ directory_results api diagnose cs empty_directory)
        × (find_named tool_name n after.tools ≡ directory.tool_at n)
        × (find_named resource_uri n after.resources ≡ directory.resource_at n)
        × (find_named template_uri n after.resource_templates ≡ directory.template_at n)
        × (find_named prompt_name n after.prompts ≡ directory.prompt_at n)
  server-refines_directory cs s n no_tools no_resources no_templates no_prompts =
      let run = run-Shows cs s empty_directory (record {
        tools_shown = rw no_tools (empty-Represents tool_name);
        resources_shown = rw no_resources (empty-Represents resource_uri);
        templates_shown = rw no_templates (empty-Represents template_uri);
        prompts_shown = rw no_prompts (empty-Represents prompt_name);
      }) in
      let shown = run.1 in
      (
        run.0,
        shown.tools_shown.gives n,
        shown.resources_shown.gives n,
        shown.templates_shown.gives n,
        shown.prompts_shown.gives n,
      )
