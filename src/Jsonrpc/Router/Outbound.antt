-- ===== src/Jsonrpc/Router/Outbound.antt =====
-- Sequences of the steps of outbound requests, and the answers that their promises get.
use cpp_mcp_sdk.Base.{
  ℕ, ◌+◌, Bool, true, false, none, some, List, [], ◌∷◌, ◌++◌, if◌then◌else◌, is_some, holds, ◌≡◌,
  refl, arith, Option-cases, Bool-cases, inl, inr, ◌⊎◌,
}
use cpp_mcp_sdk.Base.Map.{
  lookup, erase, Distinct, lookup-insert, lookup-erase, insert-Distinct, erase-Distinct,
}
use cpp_mcp_sdk.Jsonrpc.Json.{JsonApi}
use cpp_mcp_sdk.Jsonrpc.Messages.{RequestId, RequestId-discrete, RequestContext, Request, Response}
use cpp_mcp_sdk.Jsonrpc.Router.{
  InFlightRequest, Router, new_router, find_request, is_member, add_in_flight_request,
  pop_in_flight_request, response_id,
}
use cpp_mcp_sdk.Jsonrpc.Router.Ops.{
  begin_send_request, fail_send_request, expire_request, note_task_cancellation, settle_response,
  drop_response, in_flight, shut_down, shutdown_replies,
}

-- A section that holds the mutex; other threads may come between two of one method. A timer may
-- fire, a send may fail, and a second section may follow, for any id.
pub data Call (J : Type 0) : Type 0 where
  sends : RequestContext → Request J → Bool → Call J
  send_fails : RequestId → Call J
  times_out : RequestId → Call J
  notes : RequestId → RequestContext → Call J
  responds : Response J → Call J
  drops : RequestId → Response J → Call J
  shuts_down : Call J

module _ {J : Type 0} (api : JsonApi J) where
  -- The router after a call, and the promises settled.
  unfoldable pub step : Router J → Call J → Router J × List (RequestId × Response J)
  step r (sends context request cancel) =
      let out = begin_send_request api context request cancel r in (out.0, out.2.settled)
  step r (send_fails id) = let out = fail_send_request id r in (out.0, out.1.settled)
  step r (times_out id) = let out = expire_request api id r in (out.0, out.2.settled)
  step r (notes id context) = (note_task_cancellation id context r, [])
  step r (responds response) = let out = settle_response response r in (out.0, out.2.settled)
  step r (drops id response) = let out = drop_response api id response r in (out.0, out.1.settled)
  step r shuts_down = let out = shut_down r in (out.0, out.1.settled)

  unfoldable pub run : Router J → List (Call J) → Router J × List (RequestId × Response J)
  run r [] = (r, [])
  run r (c ∷ cs) = let here = step r c in let later = run here.0 cs in (later.0, here.1 ++ later.1)

module _ {J : Type 0} where
  -- How often the promise of a request is settled.
  unfoldable pub answers : RequestId → List (RequestId × Response J) → ℕ
  answers id [] = 0
  answers id ((i, response) ∷ log) =
      (if holds (RequestId-discrete i id) then 1 else 0) + answers id log

  abbrev pub is_in_flight : RequestId → Router J → ℕ
  is_in_flight id r = if is_some (find_request id r) then 1 else 0

  abbrev pub was_accepted : RequestId → Router J → ℕ
  was_accepted id r = if is_member id r.seen_outbound_request_ids then 1 else 0

  answers-append :
      (id : RequestId) (log log' : List (RequestId × Response J))
      → answers id (log ++ log') ≡ answers id log + answers id log'
  unfolding answers
  answers-append id [] log' = omega arith
  answers-append id ((i, x) ∷ log) log' = omega (arith, answers-append id log log')

  answers-shutdown :
      (id : RequestId) (m : List (RequestId × InFlightRequest J))
      → Distinct RequestId-discrete m
      → answers id (shutdown_replies m)
        ≡ (if is_some (lookup RequestId-discrete id m) then 1 else 0)
  unfolding answers lookup
  answers-shutdown id [] d = refl
  answers-shutdown id ((i, q) ∷ m) d = ground (arith, answers-shutdown id m d.1)

  -- What a step keeps: a request that was accepted is in flight or answered, and not both.
  abbrev Balanced : RequestId → ℕ → Router J → Type 0
  Balanced id n r =
      (n + is_in_flight id r ≡ was_accepted id r) × Distinct RequestId-discrete r.in_flight_requests

  pub pop-cases :
      (id : RequestId) (mark : Bool) (r : Router J)
      → ((find_request id r ≡ none)
          × ((pop_in_flight_request id mark r).1 ≡ none)
          × ((pop_in_flight_request id mark r).0 ≡ r))
        ⊎ ((q : InFlightRequest J) × (find_request id r ≡ some q)
            × ((pop_in_flight_request id mark r).1 ≡ some q)
            × ((pop_in_flight_request id mark r).0.in_flight_requests
                ≡ erase RequestId-discrete id r.in_flight_requests)
            × ((pop_in_flight_request id mark r).0.seen_outbound_request_ids
                ≡ r.seen_outbound_request_ids))
  unfolding pop_in_flight_request
  pop-cases id mark r = elim (Option-cases (find_request id r)) [
    | inl e ↦ inl (e, rw (e, pop_in_flight_request) refl, rw (e, pop_in_flight_request) refl)
    | inr (q, e) ↦ inr (
      q,
      e,
      rw (e, pop_in_flight_request) refl,
      rw (e, pop_in_flight_request) refl,
      rw (e, pop_in_flight_request) refl,
    )
  ]

  popped-Balanced :
      (k id : RequestId) (n : ℕ) (r : Router J) (q : InFlightRequest J)
      (m : List (RequestId × InFlightRequest J)) (seen : List RequestId)
      → Balanced k n r
      → find_request id r ≡ some q
      → m ≡ erase RequestId-discrete id r.in_flight_requests
      → seen ≡ r.seen_outbound_request_ids
      → (n
            + ((if holds (RequestId-discrete id k) then 1 else 0) + 0)
            + (if is_some (lookup RequestId-discrete k m) then 1 else 0)
          ≡ (if is_member k seen then 1 else 0))
        × Distinct RequestId-discrete m
  popped-Balanced k id n r q m seen (b, d) found e same = (
    ground (arith, lookup-erase RequestId-discrete id k r.in_flight_requests),
    rw e (erase-Distinct RequestId-discrete id r.in_flight_requests d),
  )

  add-Balanced :
      (k : RequestId) (n : ℕ) (q : InFlightRequest J) (r : Router J)
      → Balanced k n r
      → Balanced k n (add_in_flight_request q r).0
  unfolding add_in_flight_request is_member
  add-Balanced k n q r (b, d) = (
    ground (arith, lookup-insert RequestId-discrete q.request.id k q r.in_flight_requests),
    ground (arith, insert-Distinct RequestId-discrete q.request.id q r.in_flight_requests d),
  )

  fail-Balanced :
      (k id : RequestId) (n : ℕ) (r : Router J)
      → Balanced k n r
      → Balanced k (n + answers k (fail_send_request id r).1.settled) (fail_send_request id r).0
  unfolding fail_send_request answers
  fail-Balanced k id n r h = elim (pop-cases id false r) [
    | inl (e, p, same) ↦ rw (p, same, fail_send_request) (omega (arith, h.0), h.1)
    | inr (q, found, p, e, s) ↦
        rw (p, fail_send_request) (popped-Balanced k id n r q _ _ h found e s)
  ]

  shut_down-Balanced :
      (k : RequestId) (n : ℕ) (r : Router J)
      → Balanced k n r
      → Balanced k (n + answers k (shut_down r).1.settled) (shut_down r).0
  unfolding shut_down lookup
  shut_down-Balanced k n r (b, d) =
      (omega (arith, b, answers-shutdown k r.in_flight_requests d), tt)

module _ {J : Type 0} (api : JsonApi J) where
  begin-Balanced :
      (k : RequestId) (n : ℕ) (context : RequestContext) (request : Request J) (cancel : Bool)
      (r : Router J)
      → Balanced k n r
      → Balanced k
          (n + answers k (begin_send_request api context request cancel r).2.settled)
          (begin_send_request api context request cancel r).0
  unfolding begin_send_request answers
  begin-Balanced k n context request cancel r h =
      let q = in_flight api context request cancel in
      let a = add-Balanced k n q r h in
      elim (Option-cases (add_in_flight_request q r).1) [
        | inl e ↦ rw (e, begin_send_request) (omega (arith, a.0), a.1)
        | inr (_, e) ↦ rw (e, begin_send_request) (omega (arith, a.0), a.1)
      ]

  timeout-Balanced :
      (k id : RequestId) (n : ℕ) (r : Router J)
      → Balanced k n r
      → Balanced k (n + answers k (expire_request api id r).2.settled) (expire_request api id r).0
  unfolding expire_request answers
  timeout-Balanced k id n r h = elim (pop-cases id true r) [
    | inl (e, p, same) ↦ rw (p, same, expire_request) (omega (arith, h.0), h.1)
    | inr (q, found, p, e, s) ↦ rw (p, expire_request) (popped-Balanced k id n r q _ _ h found e s)
  ]

  drop-Balanced :
      (k id : RequestId) (response : Response J) (n : ℕ) (r : Router J)
      → Balanced k n r
      → Balanced k
          (n + answers k (drop_response api id response r).1.settled)
          (drop_response api id response r).0
  unfolding drop_response answers
  drop-Balanced k id response n r h = elim (Bool-cases (is_member id r.ignored_response_ids)) [
    | inl e ↦ rw (e, drop_response) (omega (arith, h.0), h.1)
    | inr e ↦ rw (e, drop_response) (omega (arith, h.0), h.1)
  ]

  dispatch-Balanced :
      (k : RequestId) (response : Response J) (n : ℕ) (r : Router J)
      → Balanced k n r
      → Balanced k
          (n + answers k (settle_response response r).2.settled)
          (settle_response response r).0
  unfolding settle_response answers
  dispatch-Balanced k response n r h = elim (Option-cases (response_id response)) [
    | inl e ↦ rw (e, settle_response) (omega (arith, h.0), h.1)
    | inr (id, e) ↦ elim (pop-cases id false r) [
      | inl (_, p, same) ↦ rw (e, p, same, settle_response) (omega (arith, h.0), h.1)
      | inr (q, found, p, e', s) ↦
          rw (e, p, settle_response) (popped-Balanced k id n r q _ _ h found e' s)
    ]
  ]

  step-Balanced :
      (k : RequestId) (n : ℕ) (r : Router J) (c : Call J)
      → Balanced k n r
      → Balanced k (n + answers k (step api r c).1) (step api r c).0
  unfolding step note_task_cancellation answers
  step-Balanced k n r (sends context request cancel) h =
      begin-Balanced k n context request cancel r h
  step-Balanced k n r (send_fails id) h = fail-Balanced k id n r h
  step-Balanced k n r (times_out id) h = timeout-Balanced k id n r h
  step-Balanced k n r (notes id context) h = (omega (arith, h.0), h.1)
  step-Balanced k n r (drops id response) h = drop-Balanced k id response n r h
  step-Balanced k n r (responds response) h = dispatch-Balanced k response n r h
  step-Balanced k n r shuts_down h = shut_down-Balanced k n r h

  run-Balanced :
      (k : RequestId) (n : ℕ) (r : Router J) (cs : List (Call J))
      → Balanced k n r
      → Balanced k (n + answers k (run api r cs).1) (run api r cs).0
  unfolding run answers
  run-Balanced k n r [] h = (omega (arith, h.0), h.1)
  run-Balanced k n r (c ∷ cs) h =
      let later =
        run-Balanced k (n + answers k (step api r c).1) (step api r c).0 cs
          (step-Balanced k n r c h) in
      (
        omega (arith, later.0, answers-append k (step api r c).1 (run api (step api r c).0 cs).1),
        later.1,
      )

  -- On a new router, whatever calls it receives, the promise of a request that it accepted under an
  -- id is settled exactly once, if the request is no longer in flight, and not at all while it is;
  -- no promise is settled under an id for which no request was accepted.
  pub run-answers :
      (limit : ℕ) (cs : List (Call J)) (id : RequestId)
      → answers id (run api (new_router limit) cs).1
          + is_in_flight id (run api (new_router limit) cs).0
        ≡ was_accepted id (run api (new_router limit) cs).0
  unfolding is_member lookup
  run-answers limit cs id = omega (arith, (run-Balanced id 0 (new_router limit) cs (refl, tt)).0)
