-- ===== src/Http/EventId.antt =====
-- The ids of server-sent events (include/mcp/http/sse/encoding.hpp), as bytes: a stream id, a colon
-- and a cursor.
pub mod RoundTrip
use Prim.Native.Nat.{◌-◌, ◌*◌, ◌/◌}
use cpp_mcp_sdk.Base.{
  ℕ, ◌+◌, ◌^◌, Bool, true, false, not, ◌&&◌, ◌||◌, Option, none, some, List, [], ◌∷◌, ◌++◌,
  if◌then◌else◌, ltb, leb, ◌==◌, length, all, any,
}
use cpp_mcp_sdk.Base.Decimal.{decimal}
use cpp_mcp_sdk.Base.Number.{is_digit}

pub record EventIdCursor : Type 0 where
  pub stream_id : List ℕ
  pub cursor : ℕ

unfoldable pub is_visible_ascii : List ℕ → Bool
is_visible_ascii value =
    if length value == 0 then false else all (λ c. leb 0x21 c && leb c 0x7E) value

-- `value.find(':') != npos`.
unfoldable pub has_colon : List ℕ → Bool
has_colon value = any (λ c. c == b':') value

unfoldable pub make_event_id : List ℕ → ℕ → List ℕ
make_event_id stream_id cursor =
    if not (is_visible_ascii stream_id) || has_colon stream_id || cursor == 0
    then []
    else stream_id ++ (b':' ∷ decimal cursor)

-- What stands before and behind the last colon.
unfoldable pub split_last : List ℕ → Option (List ℕ × List ℕ)
split_last [] = none
split_last (c ∷ s) = elim (split_last s) [
  | some parts ↦ some (c ∷ parts.0, parts.1)
  | none ↦ if c == b':' then some ([], s) else none
]

-- The loop over the digits, with its test for an overflow of 64 bits.
unfoldable pub read_cursor : ℕ → List ℕ → Option ℕ
read_cursor cursor [] = some cursor
read_cursor cursor (c ∷ s) =
    let digit = c - b'0' in
    let more = read_cursor (cursor * 10 + digit) s in
    if not (is_digit c) then none else if ltb ((2 ^ 64 - 1 - digit) / 10) cursor then none else more

-- The checks and the cursor, for the two sides of the last colon.
unfoldable pub parse_parts : List ℕ → List ℕ → Option EventIdCursor
parse_parts stream_id text =
    if length stream_id == 0 || length text == 0
    then none
    else if not (is_visible_ascii stream_id) || has_colon stream_id
    then none
    else elim (read_cursor 0 text) [
      | none ↦ none
      | some cursor ↦
          if cursor == 0 then none else some (record { stream_id = stream_id; cursor = cursor })
    ]

unfoldable pub parse_event_id : List ℕ → Option EventIdCursor
unfolding split_last parse_parts
parse_event_id event_id = elim (split_last event_id) [
  | none ↦ none
  | some parts ↦ parse_parts parts.0 parts.1
]
