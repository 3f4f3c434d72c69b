-- ===== src/Server/Lists/Replies.antt =====
-- What the list handlers answer (src/server/server.cpp).
use cpp_mcp_sdk.Base.{
  ℕ, String, true, none, some, List, ◌≡◌, refl, length, if◌then◌else◌, ltb, ◌<◌, ◌≤◌, ◌+◌, ◌^◌,
  slice, map, min, ◌%◌, arith, dec_lt,
}
use cpp_mcp_sdk.Jsonrpc.Json.{JsonApi, assign_some}
use cpp_mcp_sdk.Jsonrpc.Messages.{Request, success}
use cpp_mcp_sdk.Tasks.Requests.{value}
use cpp_mcp_sdk.Server.Cursors.{
  ListEndpoint, start_index_of, apply_pagination, make_list_cursor, window_at,
}
use cpp_mcp_sdk.Server.Cursors.RoundTrip.{same_endpoint, parse-make_list_cursor}
use cpp_mcp_sdk.Server.Lists.{parse_cursor_from_params, list_response, build_list_response}

same_endpoint_self : (e : ListEndpoint) → same_endpoint e e ≡ true
unfolding same_endpoint
same_endpoint_self e = ground arith

start_index_of-cursor :
    (e : ListEndpoint) (start total : ℕ)
    → start ≤ total
    → total < 2 ^ 64
    → start_index_of e (some (make_list_cursor e start)) total ≡ some start
unfolding start_index_of
start_index_of-cursor e start total within small =
    ground (arith, parse-make_list_cursor e e start, same_endpoint_self e)

-- The window without the wrap-around of its end.
window_at-small :
    (e : ListEndpoint) (start total size : ℕ)
    → start + size < 2 ^ 64
    → window_at e start total size ≡ record {
      start_index = start;
      end_index = min (start + size) total;
      next_cursor =
          if ltb (start + size) total then some (make_list_cursor e (start + size)) else none;
    }
unfolding window_at
window_at-small e start total size small = elim (dec_lt (start + size) total) [
  | yes more ↦
      let end : min ((start + size) % 2 ^ 64) total ≡ start + size = omega arith in
      let plain : min (start + size) total ≡ start + size = omega arith in
      ground (arith, end, plain)
  | no last ↦
      let end : min ((start + size) % 2 ^ 64) total ≡ total = omega arith in
      let plain : min (start + size) total ≡ total = omega arith in ground (arith, end, plain)
]

module _ {J T : Type 0} (api : JsonApi J) (of_bytes : List ℕ → J) where
  -- A list request with the cursor that the server makes for a start index of the list is answered, under
  -- its own id, with the items from that index up to 50 further ones, and with a cursor for the next
  -- index if and only if more items follow.
  pub cursor-page :
      (endpoint : ListEndpoint) (items : List T) (serialize : T → J) (key : String)
      (request : Request J) (start : ℕ)
      → parse_cursor_from_params api of_bytes endpoint request.params
        ≡ value (some (make_list_cursor endpoint start))
      → start ≤ length items
      → length items + 50 < 2 ^ 64
      → list_response api of_bytes endpoint items serialize key request
        ≡ success (record {
          id = request.id;
          result =
              assign_some api "nextCursor" of_bytes
                (if ltb (start + 50) (length items)
                  then some (make_list_cursor endpoint (start + 50))
                  else none)
                (api.assign api.object key (
                  api.array (map serialize (slice start (min (start + 50) (length items)) items))));
        })
  unfolding list_response apply_pagination build_list_response
  cursor-page endpoint items serialize key request start parsed within small =
      rw
        (
          list_response,
          parsed,
          apply_pagination,
          start_index_of-cursor endpoint start (length items) within (omega arith),
          window_at-small endpoint start (length items) 50 (omega arith),
          build_list_response,
        )
        refl
