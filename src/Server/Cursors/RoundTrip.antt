-- ===== src/Server/Cursors/RoundTrip.antt =====
-- What the server's cursors parse back to (src/server/detail/helpers.cpp).
use cpp_mcp_sdk.Base.{
  ℕ, ◌<◌, ◌^◌, Bool, true, false, none, some, List, [], ◌∷◌, ◌++◌, ◌≡◌, refl, length, length-append,
  all, arith, All, is_some, if◌then◌else◌, Bool-cases, inl, inr, sym,
}
use cpp_mcp_sdk.Base.Decimal.{decimal}
use cpp_mcp_sdk.Base.Number.{decimal-All, length-decimal_pos, stoull-decimal}
use cpp_mcp_sdk.Text.Base64Url.{sextet, decode_base64_url_no_pad, encode_base64_url_no_pad}
use cpp_mcp_sdk.Text.Base64Url.RoundTrip.{decode-encode, length-encode_base64_url_no_pad, IsByte}
use cpp_mcp_sdk.Tasks.Pagination.{starts_with}
use cpp_mcp_sdk.Server.Cursors.{
  ListEndpoint, tools, resources, resource_templates, prompts, tasks, expected_prefix,
  make_list_cursor, parse_cursor_payload, parse_list_cursor, is_valid_cursor_char,
}

-- The same endpoint.
unfoldable pub same_endpoint : ListEndpoint → ListEndpoint → Bool
same_endpoint tools tools = true
same_endpoint resources resources = true
same_endpoint resource_templates resource_templates = true
same_endpoint prompts prompts = true
same_endpoint tasks tasks = true
same_endpoint e f = false

valid_of_sextet : (c : ℕ) → is_some (sextet c) ≡ true → is_valid_cursor_char c ≡ true
unfolding sextet is_valid_cursor_char
valid_of_sextet c h = ground arith

all-valid :
    (s : List ℕ) → all (λ c. is_some (sextet c)) s ≡ true → all is_valid_cursor_char s ≡ true
all-valid [] h = refl
all-valid (c ∷ s) h = ground (arith, valid_of_sextet c, all-valid s)

decoded-valid :
    (s bytes : List ℕ)
    → decode_base64_url_no_pad s ≡ some bytes
    → 0 < length s
    → all is_valid_cursor_char s ≡ true
unfolding decode_base64_url_no_pad
decoded-valid s bytes h pos = ground (arith, all-valid s)

prefix-IsByte : (e : ListEndpoint) (n : ℕ) → All IsByte (expected_prefix e ++ decimal n)
unfolding expected_prefix
prefix-IsByte tools n = grind (arith, decimal-All n)
prefix-IsByte resources n = grind (arith, decimal-All n)
prefix-IsByte resource_templates n = grind (arith, decimal-All n)
prefix-IsByte prompts n = grind (arith, decimal-All n)
prefix-IsByte tasks n = grind (arith, decimal-All n)

parse_cursor_payload-own :
    (e : ListEndpoint) (n : ℕ)
    → n < 2 ^ 64
    → parse_cursor_payload e (expected_prefix e ++ decimal n) ≡ some n
unfolding parse_cursor_payload expected_prefix
parse_cursor_payload-own tools n h = ground (arith, length-decimal_pos n, stoull-decimal n h)
parse_cursor_payload-own resources n h = ground (arith, length-decimal_pos n, stoull-decimal n h)
parse_cursor_payload-own resource_templates n h =
    ground (arith, length-decimal_pos n, stoull-decimal n h)
parse_cursor_payload-own prompts n h = ground (arith, length-decimal_pos n, stoull-decimal n h)
parse_cursor_payload-own tasks n h = ground (arith, length-decimal_pos n, stoull-decimal n h)

-- No endpoint's prefix begins the payload of another.
foreign_prefix :
    (e f : ListEndpoint) (index : List ℕ)
    → same_endpoint e f ≡ false
    → starts_with (expected_prefix f) (expected_prefix e ++ index) ≡ false
unfolding expected_prefix same_endpoint starts_with
foreign_prefix tools tools index h = cc
foreign_prefix tools resources index h = refl
foreign_prefix tools resource_templates index h = refl
foreign_prefix tools prompts index h = refl
foreign_prefix tools tasks index h = refl
foreign_prefix resources tools index h = refl
foreign_prefix resources resources index h = cc
foreign_prefix resources resource_templates index h = refl
foreign_prefix resources prompts index h = refl
foreign_prefix resources tasks index h = refl
foreign_prefix resource_templates tools index h = refl
foreign_prefix resource_templates resources index h = refl
foreign_prefix resource_templates resource_templates index h = cc
foreign_prefix resource_templates prompts index h = refl
foreign_prefix resource_templates tasks index h = refl
foreign_prefix prompts tools index h = refl
foreign_prefix prompts resources index h = refl
foreign_prefix prompts resource_templates index h = refl
foreign_prefix prompts prompts index h = cc
foreign_prefix prompts tasks index h = refl
foreign_prefix tasks tools index h = refl
foreign_prefix tasks resources index h = refl
foreign_prefix tasks resource_templates index h = refl
foreign_prefix tasks prompts index h = refl
foreign_prefix tasks tasks index h = cc

parse_cursor_payload-other :
    (e f : ListEndpoint) (index : List ℕ)
    → same_endpoint e f ≡ false
    → parse_cursor_payload f (expected_prefix e ++ index) ≡ none
unfolding parse_cursor_payload
parse_cursor_payload-other e f index h = rw (foreign_prefix e f index h, parse_cursor_payload) refl

same_endpoint-eq : (e f : ListEndpoint) → same_endpoint e f ≡ true → e ≡ f
unfolding same_endpoint
same_endpoint-eq e f h = ground arith

parse_list_cursor-payload :
    (e f : ListEndpoint) (n : ℕ)
    → parse_list_cursor f (make_list_cursor e n)
      ≡ parse_cursor_payload f (expected_prefix e ++ decimal n)
unfolding parse_list_cursor make_list_cursor
parse_list_cursor-payload e f n =
    let payload = expected_prefix e ++ decimal n in
    ground (
      arith,
      length-encode_base64_url_no_pad payload,
      length-append (expected_prefix e) (decimal n),
      length-decimal_pos n,
      decode-encode payload (prefix-IsByte e n),
      decoded-valid (encode_base64_url_no_pad payload) payload,
    )

-- A cursor that the server makes for an endpoint and an index of 64 bits parses, at that endpoint, back
-- to the index, and at every other endpoint it is refused.
pub parse-make_list_cursor :
    (e f : ListEndpoint) (n : ℕ)
    → n < 2 ^ 64
    → parse_list_cursor f (make_list_cursor e n) ≡ (if same_endpoint e f then some n else none)
parse-make_list_cursor e f n h = elim (Bool-cases (same_endpoint e f)) [
  | inl same ↦
      rw (same, parse_list_cursor-payload e f n, sym (same_endpoint-eq e f same))
        (parse_cursor_payload-own e n h)
  | inr other ↦
      rw (other, parse_list_cursor-payload e f n) (parse_cursor_payload-other e f (decimal n) other)
]
