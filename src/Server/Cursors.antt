-- ===== src/Server/Cursors.antt =====
-- The cursors of the list endpoints: include/mcp/server/list_endpoint.hpp, the cursor functions of
-- src/server/detail/helpers.cpp and `applyPagination` of src/server/detail/list_handler_helpers.cpp.
pub mod RoundTrip
use cpp_mcp_sdk.Base.{
  ℕ, ◌+◌, ◌^◌, ◌%◌, min, String, Bool, true, false, not, ◌&&◌, ◌||◌, Option, none, some, List, [],
  ◌∷◌, ◌++◌, length, drop, all, codes, if◌then◌else◌, ◌==◌, ltb, leb,
}
use cpp_mcp_sdk.Base.Decimal.{decimal}
use cpp_mcp_sdk.Text.Base64Url.{encode_base64_url_no_pad, decode_base64_url_no_pad}
use cpp_mcp_sdk.Tasks.Pagination.{PaginationWindow, starts_with, parse_index}

pub data ListEndpoint : Type 0 where
  tools resources resource_templates prompts tasks : ListEndpoint

unfoldable pub endpoint_to_cursor_label : ListEndpoint → String
endpoint_to_cursor_label tools = "tools"
endpoint_to_cursor_label resources = "resources"
endpoint_to_cursor_label resource_templates = "resource_templates"
endpoint_to_cursor_label prompts = "prompts"
endpoint_to_cursor_label tasks = "tasks"

-- `isalnum` in the C locale, a dash or an underscore.
unfoldable pub is_valid_cursor_char : ℕ → Bool
is_valid_cursor_char c =
    leb b'A' c && leb c b'Z'
    || leb b'a' c && leb c b'z'
    || leb b'0' c && leb c b'9'
    || c == b'-'
    || c == b'_'

unfoldable pub expected_prefix : ListEndpoint → List ℕ
unfolding endpoint_to_cursor_label
expected_prefix endpoint = codes "mcp:v1:" ++ codes (endpoint_to_cursor_label endpoint) ++ codes ":"

unfoldable pub make_list_cursor : ListEndpoint → ℕ → List ℕ
make_list_cursor endpoint start =
    encode_base64_url_no_pad (expected_prefix endpoint ++ decimal start)

unfoldable pub parse_cursor_payload : ListEndpoint → List ℕ → Option ℕ
unfolding starts_with parse_index
parse_cursor_payload endpoint decoded =
    if starts_with (expected_prefix endpoint) decoded
    then (let index = drop (length (expected_prefix endpoint)) decoded in
        if length index == 0 then none else parse_index index)
    else none

unfoldable pub parse_list_cursor : ListEndpoint → List ℕ → Option ℕ
parse_list_cursor endpoint cursor =
    if length cursor == 0
    then none
    else if not (all is_valid_cursor_char cursor)
    then none
    else elim (decode_base64_url_no_pad cursor) [
      | none ↦ none
      | some decoded ↦ parse_cursor_payload endpoint decoded
    ]

unfoldable pub window_at : ListEndpoint → ℕ → ℕ → ℕ → PaginationWindow
window_at endpoint start total size =
    let end = min ((start + size) % 2 ^ 64) total in
    record {
      start_index = start;
      end_index = end;
      next_cursor = if ltb end total then some (make_list_cursor endpoint end) else none;
    }

-- The start index that a cursor names, at most the number of items.
unfoldable pub start_index_of : ListEndpoint → Option (List ℕ) → ℕ → Option ℕ
start_index_of endpoint none total = some 0
start_index_of endpoint (some cursor) total = elim (parse_list_cursor endpoint cursor) [
  | none ↦ none
  | some start ↦ if ltb total start then none else some start
]

-- `none` where the code throws and catches.
unfoldable pub apply_pagination : ListEndpoint → Option (List ℕ) → ℕ → ℕ → Option PaginationWindow
apply_pagination endpoint cursor total size =
    if size == 0 then none else elim (start_index_of endpoint cursor total) [
      | none ↦ none
      | some start ↦ some (window_at endpoint start total size)
    ]
