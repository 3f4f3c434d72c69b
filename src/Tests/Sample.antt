-- ===== src/Tests/Sample.antt =====
-- A small JSON library, for the runs: an object or an array is built up entry by entry.
use cpp_mcp_sdk.Base.{ℕ, String, Bool, true, false, List, [], ◌∷◌, if◌then◌else◌, ◌=ₛ◌}
use cpp_mcp_sdk.Base.Int.{ℤ, pos}
use cpp_mcp_sdk.Jsonrpc.Json.{JsonApi}

pub data Json : Type 0 where
  nothing : Json
  flag : Bool → Json
  number : ℤ → Json
  str : String → Json
  no_entries : Json
  entry : String → Json → Json → Json
  no_items : Json
  item : Json → Json → Json

abbrev is_entries : Json → Bool
is_entries no_entries = true
is_entries (entry k v j) = true
is_entries j = false

abbrev is_items : Json → Bool
is_items no_items = true
is_items (item v j) = true
is_items j = false

abbrev is_str : Json → Bool
is_str (str s) = true
is_str j = false

abbrev is_number : Json → Bool
is_number (number n) = true
is_number j = false

abbrev is_flag : Json → Bool
is_flag (flag b) = true
is_flag j = false

abbrev is_nothing : Json → Bool
is_nothing nothing = true
is_nothing j = false

abbrev holds_none : Json → Bool
holds_none no_entries = true
holds_none no_items = true
holds_none j = false

unfoldable pub has_key : Json → String → Bool
has_key (entry k v j) key = if k =ₛ key then true else has_key j key
has_key j key = false

unfoldable pub value_at : Json → String → Json
value_at (entry k v j) key = if k =ₛ key then v else value_at j key
value_at j key = nothing

abbrev str_of : Json → String
str_of (str s) = s
str_of j = ""

abbrev number_of : Json → ℤ
number_of (number n) = n
number_of j = pos 0

abbrev flag_of : Json → Bool
flag_of (flag b) = b
flag_of j = false

unfoldable pub items_of : Json → List Json
items_of (item v j) = v ∷ items_of j
items_of j = []

unfoldable pub of_items : List Json → Json
of_items [] = no_items
of_items (v ∷ vs) = item v (of_items vs)

abbrev never : Json → Bool
never j = false

abbrev zero_of : Json → ℕ
zero_of j = 0

abbrev pub sample_api : JsonApi Json
sample_api = record {
  is_object = is_entries;
  is_string = is_str;
  is_null = is_nothing;
  is_int64 = is_number;
  is_uint64 = never;
  is_bool = is_flag;
  is_array = is_items;
  is_empty = holds_none;
  contains = has_key;
  member = value_at;
  as_string = str_of;
  as_int64 = number_of;
  as_uint64 = zero_of;
  as_bool = flag_of;
  elements = items_of;
  null = nothing;
  object = no_entries;
  of_string = str;
  of_int64 = number;
  of_bool = flag;
  array = of_items;
  assign = λ j key v. entry key v j;
}
