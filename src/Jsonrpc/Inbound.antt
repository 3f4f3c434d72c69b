-- ===== src/Jsonrpc/Inbound.antt =====
-- The inbound half of the class Router (src/jsonrpc/router.cpp): the requests that a peer sends, kept
-- per sender, from `dispatchRequest` until their handler is done. A section of code that holds a
-- mutex is a function on the state. D is the type of progress values, doubles in the code, with the
-- comparison that the code makes on them as a parameter; P is the type of response promises.
pub mod Steps
pub mod Lookup
pub mod Changes
pub mod Ids
pub mod Runs
pub mod Admission
pub mod Limits
pub mod Tokens
pub mod Promises
pub mod Cancelling
pub mod Ascending
pub mod Progress
use cpp_mcp_sdk.Base.{
  ℕ, String, Bool, true, false, not, ◌&&◌, ◌||◌, Option, none, some, List, [], ◌∷◌, if◌then◌else◌,
  leb, is_some, any, ◌=ₛ◌, value_or, String-discrete,
}
use cpp_mcp_sdk.Base.Nested.{total, find_in, put_in, erase_in, drop_in}
use cpp_mcp_sdk.Jsonrpc.Json.{JsonApi}
use cpp_mcp_sdk.Jsonrpc.Messages.{
  RequestId, RequestId-discrete, RequestContext, Request, Notification, Response, invalid_request,
  method_not_found, internal_error, error_reply, method_not_found_message,
}
use cpp_mcp_sdk.Jsonrpc.Cancellation.{
  is_task_augmented_request, extract_progress_token, json_to_request_id,
}

pub record InboundRequest (D : Type 0) : Type 0 where
  pub method : String
  pub task_augmented : Bool
  pub progress_token : Option RequestId
  pub last_emitted_progress : Option D
  pub cancelled : Bool

abbrev pub BySender : Type 0 → Type 0
BySender V = List (String × List (RequestId × V))

pub record InboundState (D P : Type 0) : Type 0 where
  pub shutting_down : Bool
  pub has_completion_pool : Bool
  pub requests : BySender (InboundRequest D)
  pub ids_by_progress_token : BySender RequestId
  pub promises : BySender P

-- What `dispatchRequest` reads beside the inbound state.
pub record InboundRouter (D P : Type 0) : Type 0 where
  pub request_handlers : List String
  pub seen_request_ids : BySender Unit
  pub inbound : InboundState D P
  pub max_concurrent_in_flight_requests : ℕ

pub data InboundActivation : Type 0 where
  accepted shutting_down duplicate_progress_token limit_exceeded : InboundActivation

unfoldable pub sender_key : RequestContext → String
sender_key context = value_or context.session_id "__default_sender__"

module _ {V : Type 0} where
  abbrev pub find_at : String → RequestId → BySender V → Option V
  find_at = find_in String-discrete RequestId-discrete

  abbrev pub put_at : String → RequestId → V → BySender V → BySender V
  put_at = put_in String-discrete RequestId-discrete

  abbrev pub erase_at : String → RequestId → BySender V → BySender V
  erase_at = erase_in String-discrete RequestId-discrete

  abbrev pub drop_at : String → RequestId → BySender V → BySender V
  drop_at = drop_in String-discrete RequestId-discrete

abbrev drop_token : String → Option RequestId → BySender RequestId → BySender RequestId
drop_token sender none m = m
drop_token sender (some token) m = drop_at sender token m

module _ {D J : Type 0} (api : JsonApi J) where
  abbrev pub inbound_request : Request J → InboundRequest D
  inbound_request request = record {
    method = request.method;
    task_augmented = is_task_augmented_request api request;
    progress_token = extract_progress_token api request;
    last_emitted_progress = none;
    cancelled = false;
  }

-- `last.has_value() && progress <= *last`.
abbrev pub not_above : {D : Type 0} → (D → D → Bool) → D → Option D → Bool
not_above le progress none = false
not_above le progress (some last) = le progress last

module _ {D P : Type 0} where
  abbrev pub new_inbound_router : ℕ → List String → InboundRouter D P
  new_inbound_router limit handlers = record {
    request_handlers = handlers;
    seen_request_ids = [];
    inbound = record {
      shutting_down = false;
      has_completion_pool = true;
      requests = [];
      ids_by_progress_token = [];
      promises = [];
    };
    max_concurrent_in_flight_requests = limit;
  }

  -- The first section of `dispatchRequest`: the state, and the response of a request that is refused.
  unfoldable pub admit_request :
      {J : Type 0}
      → RequestContext
      → Request J
      → InboundRouter D P
      → InboundRouter D P × Option (Response J)
  admit_request context request r =
      if is_some (find_at (sender_key context) request.id r.seen_request_ids)
      then (
        r,
        some (
            error_reply invalid_request "Duplicate request id for sender within session."
              request.id),
      )
      else (
        record r {
          seen_request_ids = put_at (sender_key context) request.id tt r.seen_request_ids;
        },
        if any (λ m. m =ₛ request.method) r.request_handlers
            then none
            else some (error_reply method_not_found method_not_found_message request.id),
      )

  -- The new request is in, and its token is looked up.
  unfoldable pub register_progress_token :
      String
      → RequestId
      → Option RequestId
      → P
      → InboundState D P
      → InboundState D P × InboundActivation
  register_progress_token sender id none promise s =
      (record s { promises = put_at sender id promise s.promises }, accepted)
  register_progress_token sender id (some token) promise s =
      if is_some (find_at sender token s.ids_by_progress_token)
      then (record s { requests = erase_at sender id s.requests }, duplicate_progress_token)
      else (
        record s {
          ids_by_progress_token = put_at sender token id s.ids_by_progress_token;
          promises = put_at sender id promise s.promises;
        },
        accepted,
      )

  module _ {J : Type 0} (api : JsonApi J) where
    unfoldable pub mark_inbound_request_active :
        RequestContext → Request J → P → ℕ → InboundState D P → InboundState D P × InboundActivation
    unfolding register_progress_token
    mark_inbound_request_active context request promise limit s =
        let sender = sender_key context in
        if s.shutting_down || not s.has_completion_pool
        then (s, shutting_down)
        else if leb limit (total s.requests)
        then (s, limit_exceeded)
        else register_progress_token sender request.id (extract_progress_token api request) promise
            (record s {
              requests = put_at sender request.id (inbound_request api request) s.requests;
            })

  -- The section of `dispatchNotification` that marks a request as cancelled.
  unfoldable pub cancel_inbound_request :
      RequestContext → RequestId → InboundState D P → InboundState D P
  cancel_inbound_request context id s = elim (find_at (sender_key context) id s.requests) [
    | none ↦ s
    | some q ↦
        if not (q.method =ₛ "initialize") && not q.task_augmented
        then record s {
          requests = put_at (sender_key context) id (record q { cancelled = true }) s.requests;
        }
        else s
  ]

  unfoldable pub complete_inbound_request :
      RequestContext → RequestId → InboundState D P → InboundState D P
  complete_inbound_request context id s =
      let sender = sender_key context in
      let promises = drop_at sender id s.promises in
      elim (find_at sender id s.requests) [
        | none ↦ record s { promises = promises }
        | some q ↦ record s {
          promises = promises;
          ids_by_progress_token = drop_token sender q.progress_token s.ids_by_progress_token;
          requests = drop_at sender id s.requests;
        }
      ]

  -- The section of `emitProgress`: whether the notification goes out.
  unfoldable pub emit_progress :
      (D → D → Bool) → RequestContext → RequestId → D → InboundState D P → InboundState D P × Bool
  emit_progress le context token progress s =
      let sender = sender_key context in
      elim (find_at sender token s.ids_by_progress_token) [
        | none ↦ (s, false)
        | some id ↦ elim (find_at sender id s.requests) [
          | none ↦ (s, false)
          | some q ↦
              if q.cancelled || not_above le progress q.last_emitted_progress then (s, false) else (
                record s {
                  requests =
                      put_at sender id (record q { last_emitted_progress = some progress })
                        s.requests;
                },
                true,
              )
        ]
      ]

  -- The first section of the destructor, and the one that drops the pool.
  unfoldable pub shut_down_inbound : InboundState D P → InboundState D P
  shut_down_inbound s = record s {
    shutting_down = true;
    requests = [];
    ids_by_progress_token = [];
    promises = [];
  }

  unfoldable pub drop_completion_pool : InboundState D P → InboundState D P
  drop_completion_pool s = record s { has_completion_pool = false }
