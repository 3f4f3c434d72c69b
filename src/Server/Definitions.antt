-- ===== src/Server/Definitions.antt =====
-- What a server offers (include/mcp/server), and its JSON as the list handlers of
-- src/server/server.cpp write it.
use cpp_mcp_sdk.Base.{ℕ, String, Bool, Option, List, [], ◌∷◌, map}
use cpp_mcp_sdk.Jsonrpc.Json.{JsonApi, assign_some}

pub record ToolDefinition (J : Type 0) : Type 0 where
  pub name : String
  pub title : Option String
  pub description : Option String
  pub icons : Option J
  pub input_schema : J
  pub output_schema : Option J
  pub annotations : Option J
  pub execution : Option J
  pub metadata : Option J

pub record ResourceDefinition (J : Type 0) : Type 0 where
  pub uri : String
  pub name : String
  pub title : Option String
  pub description : Option String
  pub icons : Option J
  pub mime_type : Option String
  pub size : Option ℕ
  pub annotations : Option J
  pub metadata : Option J

pub record ResourceTemplateDefinition (J : Type 0) : Type 0 where
  pub uri_template : String
  pub name : String
  pub title : Option String
  pub description : Option String
  pub icons : Option J
  pub mime_type : Option String
  pub annotations : Option J
  pub metadata : Option J

pub record PromptArgumentDefinition (J : Type 0) : Type 0 where
  pub name : String
  pub title : Option String
  pub description : Option String
  pub required : Option Bool
  pub metadata : Option J

pub record PromptDefinition (J : Type 0) : Type 0 where
  pub name : String
  pub title : Option String
  pub description : Option String
  pub icons : Option J
  pub arguments : List (PromptArgumentDefinition J)
  pub metadata : Option J

module _ {J : Type 0} (api : JsonApi J) where
  open api use {object, assign, of_string, of_bool, array}

  -- `title`, `description` and `icons`, where there are any.
  abbrev described : Option String → Option String → Option J → J → J
  described title description icons j =
      assign_some api "icons" (λ i. i) icons
        (assign_some api "description" of_string description
          (assign_some api "title" of_string title j))

  abbrev json_at : String → Option J → J → J
  json_at key value j = assign_some api key (λ v. v) value j

  unfoldable pub tool_to_json : ToolDefinition J → J
  tool_to_json d =
      let j1 = described d.title d.description d.icons (assign object "name" (of_string d.name)) in
      let j2 = json_at "outputSchema" d.output_schema (assign j1 "inputSchema" d.input_schema) in
      json_at "_meta" d.metadata
        (json_at "execution" d.execution (json_at "annotations" d.annotations j2))

  -- `of_uint64` makes a JSON number of a size.
  unfoldable pub resource_to_json : (ℕ → J) → ResourceDefinition J → J
  resource_to_json of_uint64 d =
      let j1 = assign (assign object "uri" (of_string d.uri)) "name" (of_string d.name) in
      let j2 =
        assign_some api "mimeType" of_string d.mime_type
          (described d.title d.description d.icons j1) in
      json_at "_meta" d.metadata
        (json_at "annotations" d.annotations (assign_some api "size" of_uint64 d.size j2))

  unfoldable pub resource_template_to_json : ResourceTemplateDefinition J → J
  resource_template_to_json d =
      let j1 =
        assign (assign object "uriTemplate" (of_string d.uri_template)) "name" (of_string d.name) in
      let j2 =
        assign_some api "mimeType" of_string d.mime_type
          (described d.title d.description d.icons j1) in
      json_at "_meta" d.metadata (json_at "annotations" d.annotations j2)

  unfoldable pub prompt_argument_to_json : PromptArgumentDefinition J → J
  prompt_argument_to_json a =
      let j1 =
        assign_some api "description" of_string a.description
          (assign_some api "title" of_string a.title (assign object "name" (of_string a.name))) in
      json_at "_meta" a.metadata (assign_some api "required" of_bool a.required j1)

  abbrev with_arguments : List (PromptArgumentDefinition J) → J → J
  with_arguments [] j = j
  with_arguments (a ∷ rest) j =
      assign j "arguments" (array (map prompt_argument_to_json (a ∷ rest)))

  unfoldable pub prompt_to_json : PromptDefinition J → J
  unfolding prompt_argument_to_json
  prompt_to_json d = json_at "_meta" d.metadata (
      with_arguments d.arguments
        (described d.title d.description d.icons (assign object "name" (of_string d.name))))
