-- ===== src/Lifecycle/Capabilities.antt =====
-- include/mcp/lifecycle/session: capabilities, implementation info and negotiated parameters.
use cpp_mcp_sdk.Base.{String, Bool, ◌&&◌, ◌||◌, Option, List, ◌=ₛ◌, is_some, none}

pub record RootsCapability : Type 0 where
  pub list_changed : Bool

pub record SamplingCapability : Type 0 where
  pub context : Bool
  pub tools : Bool

pub record ElicitationCapability : Type 0 where
  pub form : Bool
  pub url : Bool

pub record TasksCapability : Type 0 where
  pub list : Bool
  pub cancel : Bool
  pub sampling_create_message : Bool
  pub elicitation_create : Bool
  pub tools_call : Bool

pub record PromptsCapability : Type 0 where
  pub list_changed : Bool

pub record ResourcesCapability : Type 0 where
  pub subscribe : Bool
  pub list_changed : Bool

pub record ToolsCapability : Type 0 where
  pub list_changed : Bool

-- Their presence says it all.
pub data LoggingCapability : Type 0 where
  logging_support : LoggingCapability

pub data CompletionsCapability : Type 0 where
  completions_support : CompletionsCapability

pub record ClientCapabilities (J : Type 0) : Type 0 where
  pub roots : Option RootsCapability
  pub sampling : Option SamplingCapability
  pub elicitation : Option ElicitationCapability
  pub tasks : Option TasksCapability
  pub experimental : Option J

pub record ServerCapabilities (J : Type 0) : Type 0 where
  pub logging : Option LoggingCapability
  pub completions : Option CompletionsCapability
  pub prompts : Option PromptsCapability
  pub resources : Option ResourcesCapability
  pub tools : Option ToolsCapability
  pub tasks : Option TasksCapability
  pub experimental : Option J

pub record Icon : Type 0 where
  pub src : String
  pub mime_type : Option String
  pub sizes : Option (List String)
  pub theme : Option String

pub record Implementation : Type 0 where
  pub name : String
  pub version : String
  pub title : Option String
  pub description : Option String
  pub website_url : Option String
  pub icons : Option (List Icon)

abbrev pub named : String → String → Implementation
named name version = record {
  name = name;
  version = version;
  title = none;
  description = none;
  website_url = none;
  icons = none;
}

pub record NegotiatedParameters (J : Type 0) : Type 0 where
  pub protocol_version : String
  pub client_capabilities : ClientCapabilities J
  pub server_capabilities : ServerCapabilities J
  pub client_info : Implementation
  pub server_info : Implementation
  pub instructions : Option String

module _ {J : Type 0} where
  abbrev pub no_client_capabilities : ClientCapabilities J
  no_client_capabilities = record {
    roots = none;
    sampling = none;
    elicitation = none;
    tasks = none;
    experimental = none;
  }

  abbrev pub no_server_capabilities : ServerCapabilities J
  no_server_capabilities = record {
    logging = none;
    completions = none;
    prompts = none;
    resources = none;
    tools = none;
    tasks = none;
    experimental = none;
  }

  unfoldable pub client_has_capability : ClientCapabilities J → String → Bool
  client_has_capability c capability =
      (capability =ₛ "roots" && is_some c.roots)
      || (capability =ₛ "sampling" && is_some c.sampling)
      || (capability =ₛ "elicitation" && is_some c.elicitation)
      || (capability =ₛ "tasks" && is_some c.tasks)
      || (capability =ₛ "experimental" && is_some c.experimental)

  unfoldable pub server_has_capability : ServerCapabilities J → String → Bool
  server_has_capability c capability =
      (capability =ₛ "logging" && is_some c.logging)
      || (capability =ₛ "completions" && is_some c.completions)
      || (capability =ₛ "prompts" && is_some c.prompts)
      || (capability =ₛ "resources" && is_some c.resources)
      || (capability =ₛ "tools" && is_some c.tools)
      || (capability =ₛ "tasks" && is_some c.tasks)
      || (capability =ₛ "experimental" && is_some c.experimental)
