-- ===== src/Jsonrpc/Router/Tokens.antt =====
-- The progress tokens of outbound requests.
use cpp_mcp_sdk.Base.{
  ℕ, Bool, true, false, ◌||◌, Option, none, some, List, [], ◌∷◌, ◌≡◌, refl, sym, ap, ◌∙◌, arith,
  Option-cases, Bool-cases, inl, inr, ◌⊎◌, holds, leb, length,
}
use cpp_mcp_sdk.Base.Map.{lookup, insert, erase, lookup-insert, lookup-erase}
use cpp_mcp_sdk.Jsonrpc.Json.{JsonApi}
use cpp_mcp_sdk.Jsonrpc.Messages.{RequestId, RequestId-discrete, RequestContext, Request, Response}
use cpp_mcp_sdk.Jsonrpc.Router.{
  InFlightRequest, Router, new_router, find_request, is_member, add_in_flight_request,
  pop_in_flight_request, holds_token, response_id, with_token, without_token,
}
use cpp_mcp_sdk.Jsonrpc.Router.Ops.{
  begin_send_request, fail_send_request, expire_request, note_task_cancellation, settle_response,
  drop_response, shut_down, in_flight,
}
use cpp_mcp_sdk.Jsonrpc.Router.Outbound.{
  Call, sends, send_fails, times_out, notes, responds, drops, shuts_down, step, run, pop-cases,
}

without_token-lem :
    (token : RequestId) (o : Option RequestId) (m : List (RequestId × RequestId)) (id : RequestId)
    → lookup RequestId-discrete token (without_token o m) ≡ some id
    → (lookup RequestId-discrete token m ≡ some id) × (o ≡ some token → ⊥)
without_token-lem token none m id h = (h, λ e. cc)
without_token-lem token (some t) m id h =
    let l = lookup-erase RequestId-discrete t token m in (ground arith, λ e. ground arith)

with_token-lem :
    (token : RequestId) (o : Option RequestId) (id : RequestId) (m : List (RequestId × RequestId))
    (k : RequestId)
    → lookup RequestId-discrete token (with_token o id m) ≡ some k
    → ((o ≡ some token) × (k ≡ id)) ⊎ (lookup RequestId-discrete token m ≡ some k)
with_token-lem token none id m k h = inr h
with_token-lem token (some t) id m k h =
    let l = lookup-insert RequestId-discrete t token id m in
    elim (RequestId-discrete t token) [
      | yes same ↦ inl (ap some same, ground arith)
      | no other ↦ inr (ground arith)
    ]

module _ {J : Type 0} where
  abbrev pub find_token : RequestId → Router J → Option RequestId
  find_token token r = lookup RequestId-discrete token r.request_ids_by_progress_token

  -- A token that is noted leads to a request in flight that carries it, and a request in flight has
  -- an id that was seen.
  record Tracks (r : Router J) : Type 0 where
    carried :
        (token id : RequestId)
        → find_token token r ≡ some id
        → (q : InFlightRequest J) × (find_request id r ≡ some q) × (q.progress_token ≡ some token)
    seen :
        (id : RequestId)
        → is_member id r.seen_outbound_request_ids ≡ false
        → find_request id r ≡ none

  erased-Tracks :
      (id : RequestId) (q : InFlightRequest J) (r r' : Router J)
      → Tracks r
      → find_request id r ≡ some q
      → r'.in_flight_requests ≡ erase RequestId-discrete id r.in_flight_requests
      → r'.request_ids_by_progress_token
        ≡ without_token q.progress_token r.request_ids_by_progress_token
      → r'.seen_outbound_request_ids ≡ r.seen_outbound_request_ids
      → Tracks r'
  erased-Tracks id q r r' h held e1 e2 e3 = record {
    carried = λ token k noted.
        let (old, other) =
          without_token-lem token q.progress_token r.request_ids_by_progress_token k
            (rw e2 at noted) in
        let (q', held', carries) = h.carried token k old in
        elim (RequestId-discrete id k) [
          | yes same ↦
              let one : q' ≡ q = cc in
              absurd (other (ap (λ x. x.progress_token) (sym one) ∙ carries))
          | no apart ↦ (
            q',
            rw e1 (ground (arith, lookup-erase RequestId-discrete id k r.in_flight_requests)),
            carries,
          )
        ];
    seen = λ k new.
        let gone = h.seen k (rw e3 at new) in
        rw e1 (ground (arith, lookup-erase RequestId-discrete id k r.in_flight_requests));
  }

  add-cases :
      (q : InFlightRequest J) (r : Router J)
      → let r' = (add_in_flight_request q r).0 in
        (r' ≡ r)
        ⊎ ((is_member q.request.id r.seen_outbound_request_ids ≡ false)
            × (r'.in_flight_requests
                ≡ insert RequestId-discrete q.request.id q r.in_flight_requests)
            × (r'.request_ids_by_progress_token
                ≡ with_token q.progress_token q.request.id r.request_ids_by_progress_token)
            × (r'.seen_outbound_request_ids ≡ q.request.id ∷ r.seen_outbound_request_ids))
  unfolding add_in_flight_request
  add-cases q r =
      elim (Bool-cases (leb r.max_concurrent_in_flight_requests (length r.in_flight_requests))) [
        | inl e ↦ rw (e, add_in_flight_request) (inl refl)
        | inr a ↦ elim (Bool-cases (is_member q.request.id r.seen_outbound_request_ids)) [
          | inl e ↦ rw (a, e, add_in_flight_request) (inl refl)
          | inr new ↦ elim (Bool-cases (holds_token q.progress_token r)) [
            | inl e ↦ rw (a, new, e, add_in_flight_request) (inl refl)
            | inr e ↦ rw (a, new, e, add_in_flight_request) (inr (refl, refl, refl, refl))
          ]
        ]
      ]

  added-Tracks :
      (q : InFlightRequest J) (r r' : Router J)
      → Tracks r
      → is_member q.request.id r.seen_outbound_request_ids ≡ false
      → r'.in_flight_requests ≡ insert RequestId-discrete q.request.id q r.in_flight_requests
      → r'.request_ids_by_progress_token
        ≡ with_token q.progress_token q.request.id r.request_ids_by_progress_token
      → r'.seen_outbound_request_ids ≡ q.request.id ∷ r.seen_outbound_request_ids
      → Tracks r'
  unfolding is_member
  added-Tracks q r r' h new e1 e2 e3 =
      let absent = h.seen q.request.id new in
      record {
        carried = λ token k noted.
            let l = lookup-insert RequestId-discrete q.request.id k q r.in_flight_requests in
            elim (with_token-lem token q.progress_token q.request.id r.request_ids_by_progress_token
              k (rw e2 at noted)) [
                | inl (own, same) ↦ (q, rw e1 (ground arith), own)
                | inr old ↦
                    let (q', held', carries) = h.carried token k old in
                    (q', rw e1 (ground arith), carries)
              ];
        seen = λ k unseen.
            let old = h.seen k in
            let missing : (holds (RequestId-discrete q.request.id k)
                  || is_member k r.seen_outbound_request_ids)
                ≡ false =
              (rw e3 at unseen) in
            rw e1 (
              ground
                (arith, lookup-insert RequestId-discrete q.request.id k q r.in_flight_requests));
      }

  add-Tracks :
      (q : InFlightRequest J) (r : Router J) → Tracks r → Tracks (add_in_flight_request q r).0
  add-Tracks q r h = elim (add-cases q r) [
    | inl same ↦ rw same h
    | inr (new, e1, e2, e3) ↦ added-Tracks q r _ h new e1 e2 e3
  ]

  pop-tokens :
      (id : RequestId) (mark : Bool) (r : Router J) (q : InFlightRequest J)
      → find_request id r ≡ some q
      → (pop_in_flight_request id mark r).0.request_ids_by_progress_token
        ≡ without_token q.progress_token r.request_ids_by_progress_token
  unfolding pop_in_flight_request
  pop-tokens id mark r q held = rw (held, pop_in_flight_request) refl

  pop-Tracks :
      (id : RequestId) (mark : Bool) (r : Router J)
      → Tracks r
      → Tracks (pop_in_flight_request id mark r).0
  pop-Tracks id mark r h = elim (pop-cases id mark r) [
    | inl (_, _, same) ↦ rw same h
    | inr (q, held, _, e1, e3) ↦ erased-Tracks id q r _ h held e1 (pop-tokens id mark r q held) e3
  ]

  fail-Tracks : (id : RequestId) (r : Router J) → Tracks r → Tracks (fail_send_request id r).0
  unfolding fail_send_request
  fail-Tracks id r h = elim (Option-cases (pop_in_flight_request id false r).1) [
    | inl e ↦ rw (e, fail_send_request) (pop-Tracks id false r h)
    | inr (q, e) ↦ rw (e, fail_send_request) (pop-Tracks id false r h)
  ]

  settle-Tracks :
      (response : Response J) (r : Router J) → Tracks r → Tracks (settle_response response r).0
  unfolding settle_response
  settle-Tracks response r h = elim (Option-cases (response_id response)) [
    | inl e ↦ rw (e, settle_response) h
    | inr (id, e) ↦ elim (Option-cases (pop_in_flight_request id false r).1) [
      | inl p ↦ rw (e, p, settle_response) (pop-Tracks id false r h)
      | inr (q, p) ↦ rw (e, p, settle_response) (pop-Tracks id false r h)
    ]
  ]

module _ {J : Type 0} (api : JsonApi J) where
  begin-Tracks :
      (context : RequestContext) (request : Request J) (cancel : Bool) (r : Router J)
      → Tracks r
      → Tracks (begin_send_request api context request cancel r).0
  unfolding begin_send_request
  begin-Tracks context request cancel r h =
      let q = in_flight api context request cancel in
      elim (Option-cases (add_in_flight_request q r).1) [
        | inl e ↦ rw (e, begin_send_request) (add-Tracks q r h)
        | inr (_, e) ↦ rw (e, begin_send_request) (add-Tracks q r h)
      ]

  expire-Tracks : (id : RequestId) (r : Router J) → Tracks r → Tracks (expire_request api id r).0
  unfolding expire_request
  expire-Tracks id r h = elim (Option-cases (pop_in_flight_request id true r).1) [
    | inl e ↦ rw (e, expire_request) (pop-Tracks id true r h)
    | inr (q, e) ↦ rw (e, expire_request) (pop-Tracks id true r h)
  ]

  drop-Tracks :
      (id : RequestId) (response : Response J) (r : Router J)
      → Tracks r
      → Tracks (drop_response api id response r).0
  unfolding drop_response
  drop-Tracks id response r h = elim (Bool-cases (is_member id r.ignored_response_ids)) [
    | inl e ↦ rw (e, drop_response) (record { carried = h.carried; seen = h.seen })
    | inr e ↦ rw (e, drop_response) h
  ]

  step-Tracks : (r : Router J) (c : Call J) → Tracks r → Tracks (step api r c).0
  unfolding step shut_down note_task_cancellation lookup
  step-Tracks r (sends context request cancel) h = begin-Tracks context request cancel r h
  step-Tracks r (send_fails id) h = fail-Tracks id r h
  step-Tracks r (times_out id) h = expire-Tracks id r h
  step-Tracks r (notes id context) h = record { carried = h.carried; seen = h.seen }
  step-Tracks r (responds response) h = settle-Tracks response r h
  step-Tracks r (drops id response) h = drop-Tracks id response r h
  step-Tracks r shuts_down h = record { carried = λ token id e. cc; seen = λ id new. refl }

  run-Tracks : (r : Router J) (cs : List (Call J)) → Tracks r → Tracks (run api r cs).0
  unfolding run
  run-Tracks r [] h = h
  run-Tracks r (c ∷ cs) h = run-Tracks (step api r c).0 cs (step-Tracks r c h)

  -- On a new router, whatever calls it receives, the id that a progress token is noted for is that of
  -- a request in flight which carries the token.
  pub run-find_token :
      (limit : ℕ) (cs : List (Call J)) (token id : RequestId)
      → find_token token (run api (new_router limit) cs).0 ≡ some id
      → (q : InFlightRequest J) × (find_request id (run api (new_router limit) cs).0 ≡ some q)
        × (q.progress_token ≡ some token)
  unfolding lookup
  run-find_token limit cs =
      (run-Tracks (new_router limit) cs
        (record { carried = λ token id e. cc; seen = λ id new. refl })).carried
