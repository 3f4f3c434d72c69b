-- ===== src/Jsonrpc/Router/Limits.antt =====
-- The limit on the outbound requests in flight.
use cpp_mcp_sdk.Base.{
  ℕ, ◌≤◌, Bool, true, false, List, [], ◌∷◌, length, ◌≡◌, refl, arith, Option-cases, inl, inr,
}
use cpp_mcp_sdk.Base.Map.{length-insert-le, length-erase-le}
use cpp_mcp_sdk.Jsonrpc.Json.{JsonApi}
use cpp_mcp_sdk.Jsonrpc.Messages.{RequestId, RequestId-discrete, RequestContext, Request, Response}
use cpp_mcp_sdk.Jsonrpc.Router.{
  InFlightRequest, Router, new_router, add_in_flight_request, pop_in_flight_request, response_id,
}
use cpp_mcp_sdk.Jsonrpc.Router.Ops.{
  begin_send_request, fail_send_request, expire_request, note_task_cancellation, settle_response,
  drop_response, shut_down, in_flight,
}
use cpp_mcp_sdk.Jsonrpc.Router.Outbound.{
  Call, sends, send_fails, times_out, notes, responds, drops, shuts_down, step, run,
}

module _ {J : Type 0} (limit : ℕ) where
  abbrev Fits : Router J → Type 0
  Fits r = (r.max_concurrent_in_flight_requests ≡ limit) × (length r.in_flight_requests ≤ limit)

  pop-Fits :
      (id : RequestId) (mark : Bool) (r : Router J)
      → Fits r
      → Fits (pop_in_flight_request id mark r).0
  unfolding pop_in_flight_request
  pop-Fits id mark r h = ground (arith, length-erase-le RequestId-discrete id r.in_flight_requests)

  add-Fits : (q : InFlightRequest J) (r : Router J) → Fits r → Fits (add_in_flight_request q r).0
  unfolding add_in_flight_request
  add-Fits q r h =
      ground (arith, length-insert-le RequestId-discrete q.request.id q r.in_flight_requests)

  fail-Fits : (id : RequestId) (r : Router J) → Fits r → Fits (fail_send_request id r).0
  unfolding fail_send_request
  fail-Fits id r h = let p = pop-Fits id false r h in ground (arith, p)

module _ {J : Type 0} (api : JsonApi J) (limit : ℕ) where
  begin-Fits :
      (context : RequestContext) (request : Request J) (cancel : Bool) (r : Router J)
      → Fits limit r
      → Fits limit (begin_send_request api context request cancel r).0
  unfolding begin_send_request
  begin-Fits context request cancel r h =
      let a = add-Fits limit (in_flight api context request cancel) r h in ground (arith, a)

  timeout-Fits :
      (id : RequestId) (r : Router J) → Fits limit r → Fits limit (expire_request api id r).0
  unfolding expire_request
  timeout-Fits id r h = let p = pop-Fits limit id true r h in ground (arith, p)

  settle-Fits :
      (response : Response J) (r : Router J)
      → Fits limit r
      → Fits limit (settle_response response r).0
  unfolding settle_response
  settle-Fits response r h = elim (Option-cases (response_id response)) [
    | inl e ↦ rw (e, settle_response) h
    | inr (id, e) ↦ let p = pop-Fits limit id false r h in ground (arith, p, e)
  ]

  drop-Fits :
      (id : RequestId) (response : Response J) (r : Router J)
      → Fits limit r
      → Fits limit (drop_response api id response r).0
  unfolding drop_response
  drop-Fits id response r h = ground arith

  step-Fits : (r : Router J) (c : Call J) → Fits limit r → Fits limit (step api r c).0
  unfolding step shut_down note_task_cancellation
  step-Fits r (sends context request cancel) h = begin-Fits context request cancel r h
  step-Fits r (send_fails id) h = fail-Fits limit id r h
  step-Fits r (times_out id) h = timeout-Fits id r h
  step-Fits r (notes id context) h = h
  step-Fits r (responds response) h = settle-Fits response r h
  step-Fits r (drops id response) h = drop-Fits id response r h
  step-Fits r shuts_down h = (h.0, omega arith)

  run-Fits : (r : Router J) (cs : List (Call J)) → Fits limit r → Fits limit (run api r cs).0
  unfolding run
  run-Fits r [] h = h
  run-Fits r (c ∷ cs) h = run-Fits (step api r c).0 cs (step-Fits r c h)

  -- On a new router, no calls bring more outbound requests in flight than the configured limit.
  pub run-length_in_flight :
      (cs : List (Call J)) → length (run api (new_router limit) cs).0.in_flight_requests ≤ limit
  run-length_in_flight cs = (run-Fits (new_router limit) cs (refl, omega arith)).1
