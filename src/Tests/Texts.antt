-- ===== src/Tests/Texts.antt =====
-- Base64url and cursors on concrete texts.
use Prim.Native.Nat.{ℕ, suc}
use native.Mathlib.Omega.{arith}
use cpp_mcp_sdk.Base.{none, some, List, [], ◌∷◌, ◌≡◌, refl, All, length}
use cpp_mcp_sdk.Text.Base64Url.{encode_base64_url_no_pad, decode_base64_url_no_pad}
use cpp_mcp_sdk.Text.Base64Url.RoundTrip.{IsByte, decode-encode}
use cpp_mcp_sdk.Tasks.Pagination.{make_pagination_cursor, parse_pagination_cursor}
use cpp_mcp_sdk.Tasks.Pagination.Laws.{parse-make_pagination_cursor, read_pages, read_pages-all}
use cpp_mcp_sdk.Base.{codes}
use cpp_mcp_sdk.Http.EventId.{make_event_id, parse_event_id}
use cpp_mcp_sdk.Http.EventId.RoundTrip.{parse-make_event_id}
use cpp_mcp_sdk.Http.Events.{Event, encode_events, parse_events}
use cpp_mcp_sdk.Http.Events.RoundTrip.{parse-encode_events}

abbrev bytes : List ℕ
bytes = 255 ∷ 0 ∷ 62 ∷ 7 ∷ []

bytes-All : All IsByte bytes
bytes-All = (omega arith, (omega arith, (omega arith, (omega arith, tt))))

decode-encode_example : decode_base64_url_no_pad (encode_base64_url_no_pad bytes) ≡ some bytes
decode-encode_example = decode-encode bytes bytes-All

parse-make_pagination_cursor_example :
    parse_pagination_cursor (make_pagination_cursor 1250) ≡ some 1250
parse-make_pagination_cursor_example = parse-make_pagination_cursor 1250 (omega arith)

-- Four items in pages of two.
read_pages-all_example : read_pages 2 bytes (suc (length bytes)) none ≡ some bytes
read_pages-all_example = read_pages-all 2 bytes (omega arith) (omega arith)

-- The stream `ab` at cursor 42.
parse-make_event_id_example :
    parse_event_id (make_event_id (97 ∷ 98 ∷ []) 42)
    ≡ some (record { stream_id = 97 ∷ 98 ∷ []; cursor = 42 })
parse-make_event_id_example =
    parse-make_event_id (97 ∷ 98 ∷ []) 42 (omega arith) (ground arith) (omega arith) (omega arith)

-- An event with an id, a retry and two lines of data, and one with an empty text.
abbrev two_events : List Event
two_events =
    record {
      event = none;
      id = some (codes "s:1");
      retry_milliseconds = some 2500;
      data_ = 97 ∷ 10 ∷ 98 ∷ [];
    }
    ∷ record { event = some (codes "message"); id = none; retry_milliseconds = none; data_ = [] }
    ∷ []

parse-encode_events_example : parse_events (encode_events two_events) ≡ two_events
parse-encode_events_example = parse-encode_events two_events refl
