-- ===== src/Jsonrpc/Router/Ops.antt =====
-- The operations of the outbound half of the class Router (src/jsonrpc/router.cpp).
use cpp_mcp_sdk.Base.{
  Bool, true, false, not, ◌&&◌, ◌||◌, Option, none, some, List, [], ◌∷◌, map, if◌then◌else◌,
  is_some, ◌=ₛ◌,
}
use cpp_mcp_sdk.Base.Map.{lookup, insert, erase}
use cpp_mcp_sdk.Jsonrpc.Json.{JsonApi}
use cpp_mcp_sdk.Jsonrpc.Messages.{
  RequestId, RequestId-discrete, RequestContext, Request, Response, internal_error, error_reply,
}
use cpp_mcp_sdk.Jsonrpc.Cancellation.{
  make_cancelled_notification, is_task_augmented_request, extract_progress_token,
  extract_create_task_result_task_id, make_tasks_cancel_request,
}
use cpp_mcp_sdk.Jsonrpc.Router.{
  InFlightRequest, Router, Message, request_message, notification_message, Effects, is_member,
  without, cancel_id, response_id, nothing, settles, add_in_flight_request, pop_in_flight_request,
}

module _ {J : Type 0} where
  -- `sendRequest` after a message that could not be sent.
  unfoldable pub fail_send_request : RequestId → Router J → Router J × Effects J
  unfolding pop_in_flight_request
  fail_send_request id r =
      let popped = pop_in_flight_request id false r in
      elim popped.1 [
        | none ↦ (popped.0, nothing)
        | some q ↦ (
          popped.0,
          settles id (error_reply internal_error "Failed to send outbound request." q.request.id),
        )
      ]

  -- The second section of `handleRequestTimeout`.
  unfoldable pub note_task_cancellation : RequestId → RequestContext → Router J → Router J
  note_task_cancellation id context r = record r {
    pending_task_cancellation = insert RequestId-discrete id context r.pending_task_cancellation;
  }

  -- `dispatchResponse` up to its second section.
  unfoldable pub settle_response : Response J → Router J → Router J × Bool × Effects J
  unfolding pop_in_flight_request response_id
  settle_response response r = elim (response_id response) [
    | none ↦ (r, false, nothing)
    | some id ↦
        let popped = pop_in_flight_request id false r in
        elim popped.1 [
          | none ↦ (popped.0, false, nothing)
          | some q ↦ (popped.0, true, settles id response)
        ]
  ]

module _ {J : Type 0} (api : JsonApi J) where
  abbrev pub in_flight : RequestContext → Request J → Bool → InFlightRequest J
  in_flight context request cancel = record {
    context = context;
    request = request;
    cancel_on_timeout = cancel;
    progress_token = extract_progress_token api request;
    task_augmented = is_task_augmented_request api request;
    task_id = none;
  }

  -- `sendRequest` up to the message that it hands out; a response is a future that is ready.
  unfoldable pub begin_send_request :
      RequestContext → Request J → Bool → Router J → Router J × Option (Response J) × Effects J
  unfolding add_in_flight_request
  begin_send_request context request cancel r =
      let added = add_in_flight_request (in_flight context request cancel) r in
      elim added.1 [
        | some refusal ↦ (added.0, some refusal, nothing)
        | none ↦
            (added.0, none, record { settled = []; sent = (context, request_message request) ∷ [] })
      ]

  -- The message, if any, that follows the timeout of a request.
  unfoldable pub cancellation_message : RequestId → InFlightRequest J → Option (Message J)
  cancellation_message id q =
      if not q.cancel_on_timeout || q.request.method =ₛ "initialize"
      then none
      else if q.task_augmented
      then (elim q.task_id [
        | none ↦ none
        | some task_id ↦
            some (request_message (make_tasks_cancel_request api (cancel_id id) task_id))
      ])
      else some
          (notification_message (make_cancelled_notification api id (some "Request timed out.")))

  -- The timed out request whose task is to be cancelled once its id is known.
  unfoldable pub awaits_task : InFlightRequest J → Bool
  awaits_task q =
      q.cancel_on_timeout
      && not (q.request.method =ₛ "initialize")
      && (q.task_augmented && not (is_some q.task_id))

  abbrev messages_to : RequestContext → Option (Message J) → List (RequestContext × Message J)
  messages_to context none = []
  messages_to context (some m) = (context, m) ∷ []

  -- `handleRequestTimeout` up to its second section: the request that it took out, if any.
  unfoldable pub expire_request :
      RequestId → Router J → Router J × Option (InFlightRequest J) × Effects J
  unfolding pop_in_flight_request cancellation_message
  expire_request id r =
      let popped = pop_in_flight_request id true r in
      elim popped.1 [
        | none ↦ (popped.0, none, nothing)
        | some q ↦ (
          popped.0,
          some q,
          record {
            settled = (id, error_reply internal_error "Request timed out." id) ∷ [];
            sent = messages_to q.context (cancellation_message id q);
          },
        )
      ]

  -- Both sections, with no other call between them.
  unfoldable pub handle_request_timeout : RequestId → Router J → Router J × Effects J
  unfolding expire_request note_task_cancellation awaits_task
  handle_request_timeout id r =
      let expired = expire_request id r in
      elim expired.1 [
        | none ↦ (expired.0, expired.2)
        | some q ↦ (
          (if awaits_task q then note_task_cancellation id q.context expired.0 else expired.0),
          expired.2,
        )
      ]

  -- The `tasks/cancel` for the task that a late response names.
  unfoldable pub late_cancellation :
      RequestId → Response J → Option RequestContext → List (RequestContext × Message J)
  late_cancellation id response none = []
  late_cancellation id response (some context) =
      elim (extract_create_task_result_task_id api response) [
        | none ↦ []
        | some task_id ↦
            (context, request_message (make_tasks_cancel_request api (cancel_id id) task_id)) ∷ []
      ]

  -- The second section of `dispatchResponse`: a response to a request that is not in flight.
  unfoldable pub drop_response : RequestId → Response J → Router J → Router J × Effects J
  unfolding late_cancellation is_member without
  drop_response id response r =
      if is_member id r.ignored_response_ids
      then (
        record r {
          ignored_response_ids = without id r.ignored_response_ids;
          pending_task_cancellation = erase RequestId-discrete id r.pending_task_cancellation;
        },
        record {
          settled = [];
          sent =
              late_cancellation id response
                (lookup RequestId-discrete id r.pending_task_cancellation);
        },
      )
      else (r, nothing)

  -- `dispatchResponse`: both sections, with no other call between them. The Boolean says whether a
  -- request was waiting for the response.
  unfoldable pub dispatch_response : Response J → Router J → Router J × Bool × Effects J
  unfolding settle_response drop_response response_id
  dispatch_response response r =
      let first = settle_response response r in
      if first.1 then first else elim (response_id response) [
        | none ↦ first
        | some id ↦ let dropped = drop_response id response first.0 in (dropped.0, false, dropped.1)
      ]

abbrev pub shutdown_replies :
    {J : Type 0} → List (RequestId × InFlightRequest J) → List (RequestId × Response J)
shutdown_replies = map (λ entry. (
  entry.0,
  error_reply internal_error "Router shutdown before response was received." entry.1.request.id,
))

-- The outbound part of the destructor.
unfoldable pub shut_down : {J : Type 0} → Router J → Router J × Effects J
shut_down r = (
  record r {
    in_flight_requests = [];
    request_ids_by_progress_token = [];
    pending_task_cancellation = [];
  },
  record { settled = shutdown_replies r.in_flight_requests; sent = [] },
)
