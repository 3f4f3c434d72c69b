-- ===== src/Lifecycle/Session/Versions.antt =====
-- The protocol versions of src/lifecycle/session.cpp: which one a server selects.
use Prim.Native.Nat.{Ordering}
use Prim.Native.String
use cpp_mcp_sdk.Base.{
  String, Bool, true, false, Option, none, some, List, [], ◌∷◌, any, map, if◌then◌else◌, ◌=ₛ◌, ◌≡◌,
  arith,
}
use cpp_mcp_sdk.Jsonrpc.Json.{JsonApi}

unfoldable pub is_version_supported : List String → String → Bool
is_version_supported supported version = any (λ v. v =ₛ version) supported

-- `a < b` of std::string.
abbrev pub precedes : String → String → Bool
precedes a b = elim (String.compare a b) [ Ordering.lt ↦ true | _ ↦ false ]

-- `std::max_element` behind the largest version so far.
unfoldable pub max_version : String → List String → String
max_version best [] = best
max_version best (v ∷ vs) = max_version (if precedes best v then v else best) vs

unfoldable pub select_server_protocol_version : String → List String → Option String
select_server_protocol_version proposed supported =
    if is_version_supported supported proposed
    then some proposed
    else elim supported [ [] ↦ none | v ∷ vs ↦ some (max_version v vs) ]

unfoldable pub joined_versions : List String → String
joined_versions [] = ""
joined_versions (v ∷ []) = v
joined_versions (v ∷ w ∷ vs) = String.◌++◌ v (String.◌++◌ ", " (joined_versions (w ∷ vs)))

unfoldable pub format_version_list : List String → String
unfolding joined_versions
format_version_list versions = String.◌++◌ "[" (String.◌++◌ (joined_versions versions) "]")

unfoldable pub negotiation_failure_message : String → List String → String
unfolding format_version_list
negotiation_failure_message requested supported =
    String.◌++◌ "Protocol negotiation failed: requested '"
      (String.◌++◌ requested (String.◌++◌ "', supported: " (format_version_list supported)))

unfoldable pub negotiation_failure_data : {J : Type 0} → JsonApi J → String → List String → J
negotiation_failure_data api requested supported =
    api.assign (api.assign api.object "requested" (api.of_string requested)) "supported"
      (api.array (map api.of_string supported))

max_version-supported :
    (best : String) (vs : List String)
    → is_version_supported (best ∷ vs) (max_version best vs) ≡ true
unfolding is_version_supported max_version
max_version-supported best [] = ground arith
max_version-supported best (v ∷ vs) =
    ground (arith, max_version-supported best vs, max_version-supported v vs)

-- A version that the server selects is one that it supports.
pub select_server_protocol_version-supported :
    (proposed : String) (supported : List String) (version : String)
    → select_server_protocol_version proposed supported ≡ some version
    → is_version_supported supported version ≡ true
unfolding select_server_protocol_version
select_server_protocol_version-supported proposed [] version h = ground arith
select_server_protocol_version-supported proposed (v ∷ vs) version h =
    ground (arith, max_version-supported v vs)
