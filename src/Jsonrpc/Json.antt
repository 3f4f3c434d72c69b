-- ===== src/Jsonrpc/Json.antt =====
-- The JSON library (jsoncons), which the repository does not hold: a value type and the operations
-- that the code calls on it, as a parameter.
use cpp_mcp_sdk.Base.{ℕ, String, Bool, false, List, Option, none, some, ◌&&◌, if◌then◌else◌}
use cpp_mcp_sdk.Base.Int.{ℤ}

pub record JsonApi (J : Type 0) : Type 0 where
  pub is_object : J → Bool
  pub is_string : J → Bool
  pub is_null : J → Bool
  pub is_int64 : J → Bool
  pub is_uint64 : J → Bool
  pub is_bool : J → Bool
  pub is_array : J → Bool
  -- `j.empty()`.
  pub is_empty : J → Bool
  pub contains : J → String → Bool
  -- `j[key]` and `j.at(key)` of a member that is there.
  pub member : J → String → J
  pub as_string : J → String
  pub as_int64 : J → ℤ
  pub as_uint64 : J → ℕ
  pub as_bool : J → Bool
  -- `j.array_range()`.
  pub elements : J → List J
  pub null : J
  -- The empty object.
  pub object : J
  pub of_string : String → J
  pub of_int64 : ℤ → J
  pub of_bool : Bool → J
  pub array : List J → J
  -- `j[key] = value`.
  pub assign : J → String → J → J

module _ {J : Type 0} (api : JsonApi J) where
  open api use {contains, member, is_object, is_string, is_bool, as_string, as_bool, assign}

  -- `j.contains(key) && j[key].is_object()`, and so for strings.
  abbrev pub has_object : J → String → Bool
  has_object j key = contains j key && is_object (member j key)

  abbrev pub has_string : J → String → Bool
  has_string j key = contains j key && is_string (member j key)

  -- The text at a key that holds one.
  abbrev pub string_at : J → String → Option String
  string_at j key = if has_string j key then some (as_string (member j key)) else none

  -- The flag at a key, where it holds one, and otherwise the default of the field.
  abbrev pub flag_at : J → String → Bool
  flag_at j key = if contains j key && is_bool (member j key) then as_bool (member j key) else false

  -- `if (value) j[key] = ...`.
  abbrev pub assign_when : Bool → String → J → J → J
  assign_when b key v j = if b then assign j key v else j

  abbrev pub assign_some {ℓ} : {A : Type ℓ} → String → (A → J) → Option A → J → J
  assign_some key encode none j = j
  assign_some key encode (some a) j = assign j key (encode a)
