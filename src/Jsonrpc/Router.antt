-- ===== src/Jsonrpc/Router.antt =====
-- The outbound half of the class Router (src/jsonrpc/router.cpp). A section of code that holds the
-- mutex is a function on the state. What an operation does beyond the state is its effects: the
-- promises that it settles, named by the id that their request is held under, and the messages that it hands out.
pub mod Ops
pub mod Outbound
pub mod Limits
pub mod Timeouts
pub mod Tokens
use Prim.Native.String
use cpp_mcp_sdk.Base.{
  ℕ, String, Bool, true, false, not, ◌&&◌, ◌||◌, Option, none, some, List, [], ◌∷◌, map, any,
  if◌then◌else◌, leb, is_some, holds, length, ◌=ₛ◌,
}
use cpp_mcp_sdk.Base.Decimal.{decimal_text_ℤ}
use cpp_mcp_sdk.Base.Map.{lookup, insert, erase}
use cpp_mcp_sdk.Jsonrpc.Json.{JsonApi}
use cpp_mcp_sdk.Jsonrpc.Messages.{
  RequestId, RequestId-discrete, integer, text, RequestContext, Request, Notification, Response,
  success, error, invalid_request, internal_error, error_reply,
}
use cpp_mcp_sdk.Jsonrpc.Cancellation.{
  make_cancelled_notification, is_task_augmented_request, extract_progress_token,
  extract_create_task_result_task_id, make_tasks_cancel_request,
}

pub record InFlightRequest (J : Type 0) : Type 0 where
  pub context : RequestContext
  pub request : Request J
  pub cancel_on_timeout : Bool
  pub progress_token : Option RequestId
  pub task_augmented : Bool
  pub task_id : Option String

pub record Router (J : Type 0) : Type 0 where
  pub seen_outbound_request_ids : List RequestId
  pub in_flight_requests : List (RequestId × InFlightRequest J)
  pub ignored_response_ids : List RequestId
  pub pending_task_cancellation : List (RequestId × RequestContext)
  pub request_ids_by_progress_token : List (RequestId × RequestId)
  pub max_concurrent_in_flight_requests : ℕ

pub data Message (J : Type 0) : Type 0 where
  request_message : Request J → Message J
  notification_message : Notification J → Message J

pub record Effects (J : Type 0) : Type 0 where
  pub settled : List (RequestId × Response J)
  pub sent : List (RequestContext × Message J)

unfoldable pub is_member : RequestId → List RequestId → Bool
is_member id [] = false
is_member id (i ∷ ids) = holds (RequestId-discrete i id) || is_member id ids

unfoldable pub without : RequestId → List RequestId → List RequestId
without id [] = []
without id (i ∷ ids) =
    if holds (RequestId-discrete i id) then without id ids else i ∷ without id ids

unfoldable pub request_id_to_string : RequestId → String
request_id_to_string (integer n) = decimal_text_ℤ n
request_id_to_string (text s) = s

-- `"cancel:" + requestIdToString(id)`.
abbrev pub cancel_id : RequestId → RequestId
cancel_id id = text (String.◌++◌ "cancel:" (request_id_to_string id))

unfoldable pub response_id : {J : Type 0} → Response J → Option RequestId
response_id (success r) = some r.id
response_id (error e) = e.id

abbrev pub with_token :
    Option RequestId → RequestId → List (RequestId × RequestId) → List (RequestId × RequestId)
with_token none id m = m
with_token (some token) id m = insert RequestId-discrete token id m

abbrev pub without_token :
    Option RequestId → List (RequestId × RequestId) → List (RequestId × RequestId)
without_token none m = m
without_token (some token) m = erase RequestId-discrete token m

module _ {J : Type 0} where
  abbrev pub nothing : Effects J
  nothing = record { settled = []; sent = [] }

  abbrev pub settles : RequestId → Response J → Effects J
  settles id response = record { settled = (id, response) ∷ []; sent = [] }

  abbrev pub new_router : ℕ → Router J
  new_router limit = record {
    seen_outbound_request_ids = [];
    in_flight_requests = [];
    ignored_response_ids = [];
    pending_task_cancellation = [];
    request_ids_by_progress_token = [];
    max_concurrent_in_flight_requests = limit;
  }

  abbrev pub find_request : RequestId → Router J → Option (InFlightRequest J)
  find_request id r = lookup RequestId-discrete id r.in_flight_requests

  abbrev pub holds_token : Option RequestId → Router J → Bool
  holds_token none r = false
  holds_token (some token) r =
      is_some (lookup RequestId-discrete token r.request_ids_by_progress_token)

  -- The response of a request that is refused, or none.
  unfoldable pub add_in_flight_request :
      InFlightRequest J → Router J → Router J × Option (Response J)
  unfolding is_member
  add_in_flight_request q r =
      let id = q.request.id in
      if leb r.max_concurrent_in_flight_requests (length r.in_flight_requests)
      then (
        r,
        some (
            error_reply invalid_request
              "Exceeded configured max concurrent in-flight outbound requests." id),
      )
      else if is_member id r.seen_outbound_request_ids
      then (
        r,
        some (error_reply invalid_request "Duplicate outbound request id within session." id),
      )
      else if holds_token q.progress_token r
      then (
        r,
        some (
            error_reply invalid_request "Duplicate progress token for active outbound request." id),
      )
      else (
        record r {
          seen_outbound_request_ids = id ∷ r.seen_outbound_request_ids;
          in_flight_requests = insert RequestId-discrete id q r.in_flight_requests;
          request_ids_by_progress_token =
              with_token q.progress_token id r.request_ids_by_progress_token;
        },
        none,
      )

  unfoldable pub pop_in_flight_request :
      RequestId → Bool → Router J → Router J × Option (InFlightRequest J)
  pop_in_flight_request id mark_ignored r = elim (find_request id r) [
    | none ↦ (r, none)
    | some q ↦ (
      record r {
        in_flight_requests = erase RequestId-discrete id r.in_flight_requests;
        ignored_response_ids =
            if mark_ignored then id ∷ r.ignored_response_ids else r.ignored_response_ids;
        request_ids_by_progress_token =
            without_token q.progress_token r.request_ids_by_progress_token;
      },
      some q,
    )
  ]
