-- ===== src/Jsonrpc/Inbound/Admission.antt =====
-- A sender uses an id once (`dispatchRequest` of src/jsonrpc/router.cpp).
use cpp_mcp_sdk.Base.{
  String, Bool, true, some, List, [], ◌∷◌, ◌≡◌, refl, arith, is_some, inl, inr, Bool-cases,
}
use cpp_mcp_sdk.Jsonrpc.Json.{JsonApi}
use cpp_mcp_sdk.Jsonrpc.Messages.{RequestId, RequestContext, Request, invalid_request, error_reply}
use cpp_mcp_sdk.Jsonrpc.Inbound.{InboundRouter, sender_key, find_at, admit_request}
use cpp_mcp_sdk.Jsonrpc.Inbound.Lookup.{find_at-put_at, find_at-put_at_same}
use cpp_mcp_sdk.Jsonrpc.Inbound.Steps.{
  Dispatching, InboundCall, admit, activate, complete, cancel, emit, shut_down, drop_pool,
  inbound_step, inbound_run, admit_step, activate_step,
}

module _ {D P : Type 0} where
  module _ {J : Type 0} where
    admit-seen :
        (t : String) (j : RequestId) (context : RequestContext) (request : Request J)
        (r : InboundRouter D P)
        → is_some (find_at t j r.seen_request_ids) ≡ true
        → is_some (find_at t j (admit_request context request r).0.seen_request_ids) ≡ true
    unfolding admit_request
    admit-seen t j context request r h =
        elim (Bool-cases (is_some (find_at (sender_key context) request.id r.seen_request_ids))) [
          | inl used ↦ rw (used, admit_request) h
          | inr new ↦
              rw (new, admit_request)
                (ground (
                  arith,
                  find_at-put_at (sender_key context) t request.id j tt r.seen_request_ids,
                  h,
                ))
        ]

    admit-own_seen :
        (context : RequestContext) (request : Request J) (r : InboundRouter D P)
        → is_some (
            find_at
              (sender_key context)
              request.id
              (admit_request context request r).0.seen_request_ids)
          ≡ true
    unfolding admit_request
    admit-own_seen context request r =
        elim (Bool-cases (is_some (find_at (sender_key context) request.id r.seen_request_ids))) [
          | inl used ↦ rw (used, admit_request) used
          | inr new ↦
              rw
                (
                  new,
                  admit_request,
                  find_at-put_at_same (sender_key context) request.id tt r.seen_request_ids,
                )
                refl
        ]

  module _ {J : Type 0} (api : JsonApi J) (le : D → D → Bool) (t : String) (j : RequestId) where
    step-seen :
        (c : InboundCall D P J) (d : Dispatching D P)
        → is_some (find_at t j d.router.seen_request_ids) ≡ true
        → is_some (find_at t j (inbound_step api le c d).router.seen_request_ids) ≡ true
    unfolding inbound_step admit_step activate_step
    step-seen (admit context request) d h = admit-seen t j context request d.router h
    step-seen (activate context request promise) d h =
        elim (Bool-cases (is_some (find_at (sender_key context) request.id d.waiting))) [
          | inl waits ↦ rw (waits, inbound_step, activate_step) h
          | inr idle ↦ rw (idle, inbound_step, activate_step) h
        ]
    step-seen (complete context id) d h = h
    step-seen (cancel context id) d h = h
    step-seen (emit context token progress) d h = h
    step-seen shut_down d h = h
    step-seen drop_pool d h = h

    run-seen :
        (d : Dispatching D P) (cs : List (InboundCall D P J))
        → is_some (find_at t j d.router.seen_request_ids) ≡ true
        → is_some (find_at t j (inbound_run api le d cs).router.seen_request_ids) ≡ true
    unfolding inbound_run
    run-seen d [] h = h
    run-seen d (c ∷ cs) h = run-seen (inbound_step api le c d) cs (step-seen c d h)

  module _ {J : Type 0} (api : JsonApi J) (le : D → D → Bool) where
    -- Once a request of a sender was dispatched, whatever its response was and whatever happens in
    -- between, each later request of the same sender with the same id is answered as a duplicate.
    pub id-used_once :
        (context context' : RequestContext) (request request' : Request J) (d : Dispatching D P)
        (cs : List (InboundCall D P J))
        → sender_key context' ≡ sender_key context
        → request'.id ≡ request.id
        → (admit_request context' request'
            (inbound_run api le (admit_step context request d) cs).router).1
          ≡ some (
              error_reply invalid_request "Duplicate request id for sender within session."
                request'.id)
    unfolding admit_request admit_step
    id-used_once context context' request request' d cs same_sender same_id =
        let seen =
          run-seen api le (sender_key context) request.id (admit_step context request d) cs
            (admit-own_seen context request d.router) in
        let again : is_some (
              find_at (sender_key context') request'.id
                (inbound_run api le (admit_step context request d) cs).router.seen_request_ids)
            ≡ true =
          rw (same_sender, same_id) seen in
        rw (again, admit_request) refl
