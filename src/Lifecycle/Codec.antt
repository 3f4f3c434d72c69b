-- ===== src/Lifecycle/Codec.antt =====
-- src/detail/initialize_codec.cpp: capabilities and implementation info to and from JSON.
use cpp_mcp_sdk.Base.{
  String, Bool, true, false, not, ◌&&◌, ◌||◌, Option, none, some, List, [], ◌∷◌, map, if◌then◌else◌,
  value_or,
}
use cpp_mcp_sdk.Jsonrpc.Json.{JsonApi, has_object, string_at, flag_at, assign_when, assign_some}
use cpp_mcp_sdk.Lifecycle.Capabilities.{
  RootsCapability, SamplingCapability, ElicitationCapability, TasksCapability, PromptsCapability,
  ResourcesCapability, ToolsCapability, logging_support, completions_support, ClientCapabilities,
  ServerCapabilities, Icon, Implementation, named, no_client_capabilities, no_server_capabilities,
}

module _ {J : Type 0} (api : JsonApi J) where
  open api use {
    is_object, is_array, is_empty, is_string, contains, member, elements, object, array, of_string,
    of_bool, as_string, assign,
  }

  -- An empty object under a key, for a flag that is set.
  abbrev mark : Bool → String → J → J
  mark b key j = assign_when api b key object j

  -- An object that holds an empty object under a key.
  abbrev nested : String → J
  nested key = assign object key object

  unfoldable pub strings_of : List J → List String
  strings_of [] = []
  strings_of (j ∷ js) = if is_string j then as_string j ∷ strings_of js else strings_of js

  unfoldable pub parse_icon : J → Option Icon
  unfolding strings_of
  parse_icon j =
      if not (is_object j) || not (contains j "src") || not (is_string (member j "src"))
      then none
      else some (record {
        src = as_string (member j "src");
        mime_type = string_at api j "mimeType";
        sizes =
            if contains j "sizes" && is_array (member j "sizes")
            then some (strings_of (elements (member j "sizes")))
            else none;
        theme = string_at api j "theme";
      })

  unfoldable pub icon_to_json : Icon → J
  icon_to_json icon = assign_some api "theme" of_string icon.theme (
      assign_some api "sizes" (λ sizes. array (map of_string sizes)) icon.sizes
        (assign_some api "mimeType" of_string icon.mime_type
          (assign object "src" (of_string icon.src))))

  unfoldable pub implementation_to_json : Implementation → J
  unfolding icon_to_json
  implementation_to_json i =
      assign_some api "icons" (λ icons. array (map icon_to_json icons)) i.icons
        (assign_some api "websiteUrl" of_string i.website_url (
          assign_some api "description" of_string i.description (
            assign_some api "title" of_string i.title
              (assign (assign object "name" (of_string i.name)) "version" (of_string i.version)))))

  -- The icons that parse, in order.
  unfoldable pub icons_of : List J → List Icon
  icons_of [] = []
  icons_of (j ∷ js) = elim (parse_icon j) [ none ↦ icons_of js | some icon ↦ icon ∷ icons_of js ]

  unfoldable pub parse_implementation : J → String → String → Implementation
  unfolding icons_of
  parse_implementation j default_name default_version =
      if not (is_object j) then named default_name default_version else record {
        name = value_or (string_at api j "name") default_name;
        version = value_or (string_at api j "version") default_version;
        title = string_at api j "title";
        description = string_at api j "description";
        website_url = string_at api j "websiteUrl";
        icons =
            if contains j "icons" && is_array (member j "icons")
            then some (icons_of (elements (member j "icons")))
            else none;
      }

  unfoldable pub roots_to_json : RootsCapability → J
  roots_to_json c = assign object "listChanged" (of_bool c.list_changed)

  unfoldable pub sampling_to_json : SamplingCapability → J
  sampling_to_json c = mark c.tools "tools" (mark c.context "context" object)

  unfoldable pub elicitation_to_json : ElicitationCapability → J
  elicitation_to_json c = mark c.url "url" (mark c.form "form" object)

  unfoldable pub client_task_requests_to_json : TasksCapability → J
  client_task_requests_to_json c = assign_when api c.tools_call "tools" (nested "call") (
      assign_when api c.elicitation_create "elicitation" (nested "create")
        (assign_when api c.sampling_create_message "sampling" (nested "createMessage") object))

  unfoldable pub client_tasks_to_json : TasksCapability → J
  unfolding client_task_requests_to_json
  client_tasks_to_json c =
      assign_when api (c.sampling_create_message || c.elicitation_create || c.tools_call) "requests"
        (client_task_requests_to_json c) (mark c.cancel "cancel" (mark c.list "list" object))

  unfoldable pub client_capabilities_to_json : ClientCapabilities J → J
  client_capabilities_to_json c = assign_some api "tasks" client_tasks_to_json c.tasks (
      assign_some api "elicitation" elicitation_to_json c.elicitation (
        assign_some api "sampling" sampling_to_json c.sampling (
          assign_some api "roots" roots_to_json c.roots
            (assign_some api "experimental" (λ e. e) c.experimental object))))

  -- What `parse` makes of the object at a key, if there is one.
  abbrev pub object_at {ℓ} : {A : Type ℓ} → J → String → (J → A) → Option A
  object_at j key parse = if has_object api j key then some (parse (member j key)) else none

  unfoldable pub parse_roots : J → RootsCapability
  parse_roots j = record { list_changed = flag_at api j "listChanged" }

  unfoldable pub parse_sampling : J → SamplingCapability
  parse_sampling j = record {
    context = has_object api j "context";
    tools = has_object api j "tools";
  }

  -- An empty object stands for the form mode.
  unfoldable pub parse_elicitation : J → ElicitationCapability
  parse_elicitation j =
      let form = has_object api j "form" in
      let url = has_object api j "url" in
      record { form = if not form && not url && is_empty j then true else form; url = url }

  -- `requests.<group>` is an object that holds an object under the key.
  abbrev pub request_flag : J → String → String → Bool
  request_flag j group key =
      has_object api j "requests"
      && (has_object api (member j "requests") group
          && has_object api (member (member j "requests") group) key)

  unfoldable pub parse_client_tasks : J → TasksCapability
  parse_client_tasks j = record {
    list = has_object api j "list";
    cancel = has_object api j "cancel";
    sampling_create_message = request_flag j "sampling" "createMessage";
    elicitation_create = request_flag j "elicitation" "create";
    tools_call = request_flag j "tools" "call";
  }

  unfoldable pub parse_client_capabilities : J → ClientCapabilities J
  parse_client_capabilities j = if not (is_object j) then no_client_capabilities else record {
    roots = object_at j "roots" parse_roots;
    sampling = object_at j "sampling" parse_sampling;
    elicitation = object_at j "elicitation" parse_elicitation;
    tasks = object_at j "tasks" parse_client_tasks;
    experimental = object_at j "experimental" (λ e. e);
  }

  unfoldable pub prompts_to_json : PromptsCapability → J
  prompts_to_json c = assign_when api c.list_changed "listChanged" (of_bool true) object

  unfoldable pub resources_to_json : ResourcesCapability → J
  resources_to_json c =
      assign_when api c.list_changed "listChanged" (of_bool true)
        (assign_when api c.subscribe "subscribe" (of_bool true) object)

  unfoldable pub tools_to_json : ToolsCapability → J
  tools_to_json c = assign_when api c.list_changed "listChanged" (of_bool true) object

  unfoldable pub server_tasks_to_json : TasksCapability → J
  server_tasks_to_json c =
      assign_when api c.tools_call "requests" (assign object "tools" (nested "call"))
        (mark c.cancel "cancel" (mark c.list "list" object))

  unfoldable pub server_capabilities_to_json : ServerCapabilities J → J
  server_capabilities_to_json c = assign_some api "tasks" server_tasks_to_json c.tasks (
      assign_some api "tools" tools_to_json c.tools (
        assign_some api "resources" resources_to_json c.resources (
          assign_some api "prompts" prompts_to_json c.prompts (
            assign_some api "completions" (λ _. object) c.completions
              (assign_some api "logging" (λ _. object) c.logging
                (assign_some api "experimental" (λ e. e) c.experimental object))))))

  unfoldable pub parse_prompts : J → PromptsCapability
  parse_prompts j = record { list_changed = flag_at api j "listChanged" }

  unfoldable pub parse_resources : J → ResourcesCapability
  parse_resources j = record {
    subscribe = flag_at api j "subscribe";
    list_changed = flag_at api j "listChanged";
  }

  unfoldable pub parse_tools : J → ToolsCapability
  parse_tools j = record { list_changed = flag_at api j "listChanged" }

  -- The server's side reads no client requests.
  unfoldable pub parse_server_tasks : J → TasksCapability
  parse_server_tasks j = record {
    list = has_object api j "list";
    cancel = has_object api j "cancel";
    sampling_create_message = false;
    elicitation_create = false;
    tools_call = request_flag j "tools" "call";
  }

  unfoldable pub parse_server_capabilities : J → ServerCapabilities J
  parse_server_capabilities j = if not (is_object j) then no_server_capabilities else record {
    logging = object_at j "logging" (λ _. logging_support);
    completions = object_at j "completions" (λ _. completions_support);
    prompts = object_at j "prompts" parse_prompts;
    resources = object_at j "resources" parse_resources;
    tools = object_at j "tools" parse_tools;
    tasks = object_at j "tasks" parse_server_tasks;
    experimental = object_at j "experimental" (λ e. e);
  }
