-- ===== src/Jsonrpc/Router/Timeouts.antt =====
-- Responses that come after the timeout of their request.
use cpp_mcp_sdk.Base.{
  String, true, false, none, some, List, [], ◌∷◌, ◌≡◌, refl, ◌∙◌, Bool-cases, arith, inl, inr,
}
use cpp_mcp_sdk.Base.Map.{lookup, erase, lookup-insert, lookup-erase}
use cpp_mcp_sdk.Jsonrpc.Json.{JsonApi}
use cpp_mcp_sdk.Jsonrpc.Messages.{RequestId, RequestId-discrete, Response}
use cpp_mcp_sdk.Jsonrpc.Cancellation.{extract_create_task_result_task_id, make_tasks_cancel_request}
use cpp_mcp_sdk.Jsonrpc.Router.{
  InFlightRequest, Router, request_message, find_request, is_member, without, pop_in_flight_request,
  response_id, cancel_id, nothing,
}
use cpp_mcp_sdk.Jsonrpc.Router.Ops.{
  handle_request_timeout, awaits_task, late_cancellation, drop_response, dispatch_response,
  settle_response, expire_request, note_task_cancellation,
}
use cpp_mcp_sdk.Jsonrpc.Router.Outbound.{pop-cases}

module _ {J : Type 0} (api : JsonApi J) where
  settle_response-eq-absent :
      (id : RequestId) (response : Response J) (r : Router J)
      → response_id response ≡ some id
      → find_request id r ≡ none
      → settle_response response r ≡ (r, false, nothing)
  unfolding settle_response
  settle_response-eq-absent id response r e absent = elim (pop-cases id false r) [
    | inl (_, p, same) ↦ rw (e, p, same, settle_response) refl
    | inr (q, found, _, _, _) ↦ cc
  ]

  dispatch_response-eq-drop :
      (id : RequestId) (response : Response J) (r : Router J)
      → response_id response ≡ some id
      → find_request id r ≡ none
      → dispatch_response api response r
        ≡ ((drop_response api id response r).0, false, (drop_response api id response r).1)
  unfolding dispatch_response
  dispatch_response-eq-drop id response r e absent =
      rw (e, settle_response-eq-absent id response r e absent, dispatch_response) refl

  pop-ignored :
      (id : RequestId) (r : Router J) (q : InFlightRequest J)
      → find_request id r ≡ some q
      → let popped = pop_in_flight_request id true r in
        (popped.1 ≡ some q)
        × (popped.0.ignored_response_ids ≡ id ∷ r.ignored_response_ids)
        × (popped.0.in_flight_requests ≡ erase RequestId-discrete id r.in_flight_requests)
  unfolding pop_in_flight_request
  pop-ignored id r q held = (
    rw (held, pop_in_flight_request) refl,
    rw (held, pop_in_flight_request) refl,
    rw (held, pop_in_flight_request) refl,
  )

  -- The state that a timeout of a request leaves before its second section.
  expire_request-lem :
      (id : RequestId) (r : Router J) (q : InFlightRequest J)
      → find_request id r ≡ some q
      → let expired = expire_request api id r in
        (expired.1 ≡ some q)
        × (find_request id expired.0 ≡ none)
        × (is_member id expired.0.ignored_response_ids ≡ true)
  unfolding expire_request is_member
  expire_request-lem id r q held =
      let (popped, ignored, rest) = pop-ignored id r q held in
      let gone : lookup RequestId-discrete id (erase RequestId-discrete id r.in_flight_requests)
          ≡ none =
        ground (arith, lookup-erase RequestId-discrete id id r.in_flight_requests) in
      (
        rw (popped, expire_request) refl,
        rw (popped, expire_request) (rw rest gone),
        rw (popped, expire_request) (rw ignored (ground arith)),
      )

  -- The state that both sections leave, as far as a late response reads it.
  timeout-lem :
      (id : RequestId) (r : Router J) (q : InFlightRequest J)
      → find_request id r ≡ some q
      → awaits_task api q ≡ true
      → let r1 = (handle_request_timeout api id r).0 in
        (find_request id r1 ≡ none)
        × (is_member id r1.ignored_response_ids ≡ true)
        × (lookup RequestId-discrete id r1.pending_task_cancellation ≡ some q.context)
  unfolding handle_request_timeout note_task_cancellation
  timeout-lem id r q held waits =
      let (popped, gone, ignored) = expire_request-lem id r q held in
      (
        rw (popped, waits, handle_request_timeout) gone,
        rw (popped, waits, handle_request_timeout) ignored,
        rw (popped, waits, handle_request_timeout)
            (ground (
              arith,
              lookup-insert RequestId-discrete id id q.context
                  (expire_request api id r).0.pending_task_cancellation,
            )),
      )

  -- Where a task-augmented request other than `initialize`, sent with `cancelOnTimeout`, times out before
  -- the id of its task is known, a response that names the task and comes after the timeout is not
  -- delivered and settles nothing, and `tasks/cancel` for that task goes out in the context of the
  -- request.
  pub dispatch_response-late :
      (id : RequestId) (r : Router J) (q : InFlightRequest J) (response : Response J)
      (task_id : String)
      → find_request id r ≡ some q
      → awaits_task api q ≡ true
      → response_id response ≡ some id
      → extract_create_task_result_task_id api response ≡ some task_id
      → let late = dispatch_response api response (handle_request_timeout api id r).0 in
        (late.1 ≡ false)
        × (late.2.settled ≡ [])
        × (late.2.sent
            ≡ (q.context, request_message (make_tasks_cancel_request api (cancel_id id) task_id))
              ∷ [])
  unfolding drop_response late_cancellation
  dispatch_response-late id r q response task_id held waits named task =
      let (gone, ignored, pending) = timeout-lem id r q held waits in
      let e =
        dispatch_response-eq-drop id response (handle_request_timeout api id r).0 named gone in
      (
        rw e refl,
        rw (e, ignored, drop_response) refl,
        rw (e, ignored, drop_response) (rw (pending, late_cancellation) (rw task refl)),
      )

  is_member-without :
      (id : RequestId) (ids : List RequestId) → is_member id (without id ids) ≡ false
  unfolding is_member without
  is_member-without id [] = refl
  is_member-without id (i ∷ ids) = ground (arith, is_member-without id ids)

  drop_response-lem :
      (id : RequestId) (response : Response J) (r : Router J)
      → let dropped = (drop_response api id response r).0 in
        (find_request id dropped ≡ find_request id r)
        × (is_member id dropped.ignored_response_ids ≡ false)
  unfolding drop_response
  drop_response-lem id response r = elim (Bool-cases (is_member id r.ignored_response_ids)) [
    | inl e ↦ (
      rw (e, drop_response) refl,
      rw (e, drop_response) (is_member-without id r.ignored_response_ids),
    )
    | inr e ↦ (rw (e, drop_response) refl, rw (e, drop_response) e)
  ]

  drop_response-sent :
      (id : RequestId) (response : Response J) (r : Router J)
      → lookup RequestId-discrete id r.pending_task_cancellation ≡ none
      → (drop_response api id response r).1.sent ≡ []
  unfolding drop_response late_cancellation
  drop_response-sent id response r fresh = elim (Bool-cases (is_member id r.ignored_response_ids)) [
    | inl e ↦ rw (e, drop_response) (rw (fresh, late_cancellation) refl)
    | inr e ↦ rw (e, drop_response) refl
  ]

  drop_response-unknown :
      (id : RequestId) (response : Response J) (r : Router J)
      → is_member id r.ignored_response_ids ≡ false
      → (drop_response api id response r).1.sent ≡ []
  unfolding drop_response
  drop_response-unknown id response r e = rw (e, drop_response) refl

  drop_response-state :
      (id : RequestId) (response : Response J) (r : Router J)
      → is_member id r.ignored_response_ids ≡ false
      → (drop_response api id response r).0 ≡ r
  unfolding drop_response
  drop_response-state id response r e = rw (e, drop_response) refl

  expire_request-pending :
      (id : RequestId) (r : Router J)
      → (expire_request api id r).0.pending_task_cancellation ≡ r.pending_task_cancellation
  unfolding expire_request pop_in_flight_request
  expire_request-pending id r = ground arith

  -- Where the response comes between the two sections of the timeout, no `tasks/cancel` goes out, and
  -- none goes out for a later response with that id, while the note that the second section leaves
  -- stays. The request has no note from before.
  pub dispatch_response-between :
      (id : RequestId) (r : Router J) (q : InFlightRequest J) (response later : Response J)
      → find_request id r ≡ some q
      → response_id response ≡ some id
      → response_id later ≡ some id
      → lookup RequestId-discrete id r.pending_task_cancellation ≡ none
      → let early = dispatch_response api response (expire_request api id r).0 in
        let last = dispatch_response api later (note_task_cancellation id q.context early.0) in
        (early.2.sent ≡ [])
        × (last.2.sent ≡ [])
        × (lookup RequestId-discrete id last.0.pending_task_cancellation ≡ some q.context)
  unfolding note_task_cancellation
  dispatch_response-between id r q response later held named named' fresh =
      let (popped, gone, ignored) = expire_request-lem id r q held in
      let expired = (expire_request api id r).0 in
      let e = dispatch_response-eq-drop id response expired named gone in
      let (same, unknown) = drop_response-lem id response expired in
      let noted = note_task_cancellation id q.context (drop_response api id response expired).0 in
      let e' = dispatch_response-eq-drop id later noted named' (same ∙ gone) in
      (
        rw e (drop_response-sent id response expired (rw (expire_request-pending id r) fresh)),
        rw e (rw e' (drop_response-unknown id later noted unknown)),
        rw e (
            rw e' (
              rw (drop_response-state id later noted unknown) (
                ground (
                  arith,
                  lookup-insert RequestId-discrete id id q.context
                      (drop_response api id response expired).0.pending_task_cancellation,
                )))),
      )
