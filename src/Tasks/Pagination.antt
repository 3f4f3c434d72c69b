-- ===== src/Tasks/Pagination.antt =====
-- The cursors of `tasks/list` (src/util/tasks.cpp): base64url of a prefix and a start index.
pub mod Laws
use cpp_mcp_sdk.Base.{
  ℕ, ◌+◌, ◌≤◌, ◌<◌, ◌^◌, ◌%◌, min, Bool, true, false, ◌&&◌, ◌||◌, Option, none, some, List, [], ◌∷◌,
  ◌++◌, ◌≡◌, refl, length, drop, take, codes, if◌then◌else◌, ◌==◌, ltb, leb, arith,
}
use cpp_mcp_sdk.Base.Decimal.{decimal}
use cpp_mcp_sdk.Base.Number.{stoull}
use cpp_mcp_sdk.Text.Base64Url.{encode_base64_url_no_pad, decode_base64_url_no_pad}

abbrev pub cursor_prefix : List ℕ
cursor_prefix = codes "mcp:v1:tasks:"

-- `text.rfind(prefix, 0) == 0`.
unfoldable pub starts_with : List ℕ → List ℕ → Bool
starts_with [] text = true
starts_with (c ∷ p) [] = false
starts_with (c ∷ p) (d ∷ text) = c == d && starts_with p text

pub record PaginationWindow : Type 0 where
  pub start_index : ℕ
  pub end_index : ℕ
  pub next_cursor : Option (List ℕ)

unfoldable pub make_pagination_cursor : ℕ → List ℕ
make_pagination_cursor start = encode_base64_url_no_pad (cursor_prefix ++ decimal start)

-- The index behind the prefix: a number that `stoull` reads to the end.
unfoldable pub parse_index : List ℕ → Option ℕ
parse_index text = elim (stoull text) [
  | none ↦ none
  | some (n, rest) ↦ if length rest == 0 && ltb n (2 ^ 64) then some n else none
]

unfoldable pub parse_payload : List ℕ → Option ℕ
unfolding starts_with parse_index
parse_payload decoded =
    if starts_with cursor_prefix decoded
    then (let index = drop (length cursor_prefix) decoded in
        if length index == 0 then none else parse_index index)
    else none

unfoldable pub parse_pagination_cursor : List ℕ → Option ℕ
parse_pagination_cursor cursor =
    if length cursor == 0 then none else elim (decode_base64_url_no_pad cursor) [
      | none ↦ none
      | some decoded ↦ parse_payload decoded
    ]

unfoldable pub window : ℕ → ℕ → ℕ → PaginationWindow
window start total size =
    let end = min ((start + size) % 2 ^ 64) total in
    record {
      start_index = start;
      end_index = end;
      next_cursor = if ltb end total then some (make_pagination_cursor end) else none;
    }

-- The start index that a cursor names, at most the number of items.
unfoldable pub start_of : Option (List ℕ) → ℕ → Option ℕ
start_of none total = some 0
start_of (some cursor) total = elim (parse_pagination_cursor cursor) [
  | none ↦ none
  | some start ↦ if ltb total start then none else some start
]

unfoldable pub paginate : Option (List ℕ) → ℕ → ℕ → Option PaginationWindow
unfolding start_of
paginate cursor total size =
    if size == 0
    then none
    else elim (start_of cursor total) [ none ↦ none | some start ↦ some (window start total size) ]
