-- ===== src/Http/Headers.antt =====
-- include/mcp/transport/http/header.hpp and header_utils.hpp. Names and values are bytes.
use cpp_mcp_sdk.Base.{
  ℕ, Bool, true, false, not, ◌&&◌, ◌||◌, Option, none, some, List, [], ◌∷◌, ◌≡◌, refl, arith,
  length, any, all, get_or, drop, take, if◌then◌else◌, ◌==◌,
}
use cpp_mcp_sdk.Base.Number.{is_digit}
use cpp_mcp_sdk.Text.Ascii.{equals_ignore_case_ascii, equals→lower, lower→equals}
use cpp_mcp_sdk.Http.EventId.{is_visible_ascii}

pub record Header : Type 0 where
  pub name : List ℕ
  pub value : List ℕ

unfoldable pub set_header : List Header → List ℕ → List ℕ → List Header
set_header [] name value = record { name = name; value = value } ∷ []
set_header (h ∷ hs) name value =
    let rest = set_header hs name value in
    if equals_ignore_case_ascii h.name name then record h { value = value } ∷ hs else h ∷ rest

unfoldable pub get_header : List Header → List ℕ → Option (List ℕ)
get_header [] name = none
get_header (h ∷ hs) name =
    let rest = get_header hs name in
    if equals_ignore_case_ascii h.name name then some h.value else rest

unfoldable pub is_valid_session_id : List ℕ → Bool
unfolding is_visible_ascii
is_valid_session_id session_id = is_visible_ascii session_id

-- Ten bytes: digits, with dashes at 4 and 7.
unfoldable pub is_valid_protocol_version : List ℕ → Bool
is_valid_protocol_version version =
    if not (length version == 10)
    then false
    else if not (get_or version 4 0 == b'-') || not (get_or version 7 0 == b'-')
    then false
    else all is_digit (take 4 version)
      && all is_digit (take 2 (drop 5 version))
      && all is_digit (drop 8 version)

unfoldable pub bytes_eq : List ℕ → List ℕ → Bool
bytes_eq [] [] = true
bytes_eq (c ∷ s) (d ∷ t) = let rest = bytes_eq s t in if c == d then rest else false
bytes_eq s t = false

unfoldable pub is_supported_protocol_version : List ℕ → List (List ℕ) → Bool
unfolding bytes_eq
is_supported_protocol_version version supported = any (λ v. bytes_eq v version) supported

-- A header that is set is the one that is found, under its name in any case, and the headers of other
-- names stay.
pub get-set_header :
    (headers : List Header) (name other value : List ℕ)
    → get_header (set_header headers name value) other
      ≡ (if equals_ignore_case_ascii name other then some value else get_header headers other)
unfolding get_header set_header
get-set_header [] name other value = refl
get-set_header (h ∷ hs) name other value = ground (
  arith,
  get-set_header hs name other value,
  equals→lower h.name name,
  equals→lower h.name other,
  equals→lower name other,
  lower→equals h.name name,
  lower→equals h.name other,
  lower→equals name other,
)
