-- ===== src/Jsonrpc/Inbound/Steps.antt =====
-- `dispatchRequest`, and the interleavings of the sections of the inbound half
-- (src/jsonrpc/router.cpp). Between its two sections a request is waiting: that is known to the
-- thread that dispatches it, and is kept here beside the router.
use cpp_mcp_sdk.Base.{
  ℕ, String, Bool, true, false, Option, none, some, List, [], ◌∷◌, if◌then◌else◌, is_some,
}
use cpp_mcp_sdk.Jsonrpc.Json.{JsonApi}
use cpp_mcp_sdk.Jsonrpc.Messages.{
  RequestId, RequestContext, Request, Response, invalid_request, internal_error, error_reply,
}
use cpp_mcp_sdk.Jsonrpc.Inbound.{
  BySender, InboundRouter, InboundState, InboundActivation, accepted, shutting_down,
  duplicate_progress_token, limit_exceeded, sender_key, find_at, put_at, erase_at, admit_request,
  mark_inbound_request_active, cancel_inbound_request, complete_inbound_request, emit_progress,
  shut_down_inbound, drop_completion_pool, new_inbound_router,
}

-- The response of a request that is not activated.
abbrev pub activation_reply : {J : Type 0} → InboundActivation → RequestId → Option (Response J)
activation_reply accepted id = none
activation_reply shutting_down id = some (error_reply internal_error "Router is shutting down." id)
activation_reply duplicate_progress_token id =
    some (error_reply invalid_request "Duplicate progress token for active inbound request." id)
activation_reply limit_exceeded id = some (
    error_reply invalid_request "Exceeded configured max concurrent in-flight inbound requests." id)

-- What the handler of a request comes to.
pub data HandlerOutcome (J : Type 0) : Type 0 where
  handler_threw post_failed future_threw : HandlerOutcome J
  responded : Response J → HandlerOutcome J

-- The response that the promise is given, where the flag tells if there is a completion pool.
unfoldable pub dispatch_reply : {J : Type 0} → Bool → HandlerOutcome J → RequestId → Response J
dispatch_reply pool handler_threw id =
    error_reply internal_error "Request handler threw an exception." id
dispatch_reply false outcome id = error_reply internal_error "Router is shutting down." id
dispatch_reply true post_failed id =
    error_reply internal_error "Failed to post completion handler." id
dispatch_reply true future_threw id =
    error_reply internal_error "Request handler threw an exception." id
dispatch_reply true (responded response) id = response

module _ {D P J : Type 0} (api : JsonApi J) where
  -- `dispatchRequest` of one thread, no other in between: the state, and its response.
  unfoldable pub dispatch_request :
      RequestContext
      → Request J
      → P
      → HandlerOutcome J
      → InboundRouter D P
      → InboundRouter D P × Response J
  unfolding dispatch_reply
  dispatch_request context request promise outcome r =
      let admitted = admit_request context request r in
      elim admitted.1 [
        | some refusal ↦ (admitted.0, refusal)
        | none ↦
            let marked =
              mark_inbound_request_active api context request promise
                r.max_concurrent_in_flight_requests admitted.0.inbound in
            elim (activation_reply marked.1 request.id) [
              | some refusal ↦ (record admitted.0 { inbound = marked.0 }, refusal)
              | none ↦ (
                record admitted.0 {
                  inbound = complete_inbound_request context request.id marked.0;
                },
                dispatch_reply marked.0.has_completion_pool outcome request.id,
              )
            ]
      ]

pub record Dispatching (D P : Type 0) : Type 0 where
  pub router : InboundRouter D P
  pub waiting : BySender Unit

pub data InboundCall (D P J : Type 0) : Type 0 where
  admit : RequestContext → Request J → InboundCall D P J
  activate : RequestContext → Request J → P → InboundCall D P J
  complete : RequestContext → RequestId → InboundCall D P J
  cancel : RequestContext → RequestId → InboundCall D P J
  emit : RequestContext → RequestId → D → InboundCall D P J
  shut_down : InboundCall D P J
  drop_pool : InboundCall D P J

abbrev wait_if :
    {J : Type 0} → Option (Response J) → String → RequestId → BySender Unit → BySender Unit
wait_if none sender id m = put_at sender id tt m
wait_if (some refusal) sender id m = m

module _ {D P : Type 0} where
  abbrev pub new_dispatching : ℕ → List String → Dispatching D P
  new_dispatching limit handlers = record {
    router = new_inbound_router limit handlers;
    waiting = [];
  }

  abbrev pub with_inbound : InboundState D P → Dispatching D P → Dispatching D P
  with_inbound s d = record d { router = record d.router { inbound = s } }

module _ {D P J : Type 0} where
  unfoldable pub admit_step : RequestContext → Request J → Dispatching D P → Dispatching D P
  admit_step context request d =
      let admitted = admit_request context request d.router in
      record {
        router = admitted.0;
        waiting = wait_if admitted.1 (sender_key context) request.id d.waiting;
      }

  unfoldable pub activate_step :
      JsonApi J → RequestContext → Request J → P → Dispatching D P → Dispatching D P
  activate_step api context request promise d =
      if is_some (find_at (sender_key context) request.id d.waiting)
      then record d {
        router = record d.router {
          inbound =
              (mark_inbound_request_active api context request promise
                d.router.max_concurrent_in_flight_requests d.router.inbound).0;
        };
        waiting = erase_at (sender_key context) request.id d.waiting;
      }
      else d

module _ {D P J : Type 0} (api : JsonApi J) (le : D → D → Bool) where
  unfoldable pub inbound_step : InboundCall D P J → Dispatching D P → Dispatching D P
  inbound_step (admit context request) d = admit_step context request d
  inbound_step (activate context request promise) d = activate_step api context request promise d
  inbound_step (complete context id) d =
      with_inbound (complete_inbound_request context id d.router.inbound) d
  inbound_step (cancel context id) d =
      with_inbound (cancel_inbound_request context id d.router.inbound) d
  inbound_step (emit context token progress) d =
      with_inbound ((emit_progress le context token progress d.router.inbound).0) d
  inbound_step shut_down d = with_inbound (shut_down_inbound d.router.inbound) d
  inbound_step drop_pool d = with_inbound (drop_completion_pool d.router.inbound) d

  unfoldable pub inbound_run : Dispatching D P → List (InboundCall D P J) → Dispatching D P
  unfolding inbound_step
  inbound_run d [] = d
  inbound_run d (c ∷ cs) = inbound_run (inbound_step c d) cs
