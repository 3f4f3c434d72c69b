-- ===== src/Jsonrpc/Inbound/Promises.antt =====
-- The response promises of inbound requests (src/jsonrpc/router.cpp).
use cpp_mcp_sdk.Base.{ℕ, String, Bool, List, ◌≡◌, refl, arith, is_some}
use cpp_mcp_sdk.Jsonrpc.Json.{JsonApi}
use cpp_mcp_sdk.Jsonrpc.Messages.{RequestId}
use cpp_mcp_sdk.Jsonrpc.Inbound.{InboundState, InboundRequest, find_at, put_at}
use cpp_mcp_sdk.Jsonrpc.Inbound.Lookup.{
  find_at-nil, find_at-put_at, find_at-erase_at, find_at-drop_at,
}
use cpp_mcp_sdk.Jsonrpc.Inbound.Changes.{
  InboundChange, keeps, opens, reverts, updates, closes, forgets, clears, unpools,
}
use cpp_mcp_sdk.Jsonrpc.Inbound.Steps.{InboundCall, new_dispatching, inbound_run}
use cpp_mcp_sdk.Jsonrpc.Inbound.Runs.{AnyId, run-keeps}

module _ {D P : Type 0} {limit : ℕ} (t : String) (j : RequestId) where
  Change-promise :
      (s s' : InboundState D P)
      → InboundChange limit AnyId s s'
      → is_some (find_at t j s.promises) ≡ is_some (find_at t j s.requests)
      → is_some (find_at t j s'.promises) ≡ is_some (find_at t j s'.requests)
  Change-promise s _ keeps w = w
  Change-promise s _ (opens sender id token q promise may same free unheld room fresh) w = ground (
    arith,
    find_at-put_at sender t id j q s.requests,
    find_at-put_at sender t id j promise s.promises,
    w,
  )
  Change-promise s _ (reverts sender id q free room) w = ground (
    arith,
    find_at-erase_at sender t id j (put_at sender id q s.requests),
    find_at-put_at sender t id j q s.requests,
    free,
    w,
  )
  Change-promise s _ (updates sender id q q' held same may) w =
      ground (arith, find_at-put_at sender t id j q' s.requests, held, w)
  Change-promise s _ (closes sender id q held) w =
      ground (
        arith,
        find_at-drop_at sender t id j s.requests,
        find_at-drop_at sender t id j s.promises,
        w,
      )
  Change-promise s _ (forgets sender id free) w =
      ground (arith, find_at-drop_at sender t id j s.promises, free, w)
  Change-promise s _ clears w =
      rw (find_at-nil {V = P} t j, find_at-nil {V = InboundRequest D} t j) refl
  Change-promise s _ unpools w = w

module _ {D P J : Type 0} (api : JsonApi J) (le : D → D → Bool) where
  -- From a new router and after any interleaving of its sections, a promise is held for exactly the
  -- requests in flight: a response promise stands at a sender and an id if and only if a request does.
  pub promise-held :
      (limit : ℕ) (handlers : List String) (cs : List (InboundCall D P J)) (s : String)
      (id : RequestId)
      → is_some (
          find_at s id
            (inbound_run api le (new_dispatching limit handlers) cs).router.inbound.promises)
        ≡ is_some (
            find_at s id
              (inbound_run api le (new_dispatching limit handlers) cs).router.inbound.requests)
  promise-held limit handlers cs s id =
      run-keeps api le (λ r. is_some (find_at s id r.promises) ≡ is_some (find_at s id r.requests))
        limit handlers (Change-promise s id) cs
        (rw (find_at-nil {V = P} s id, find_at-nil {V = InboundRequest D} s id) refl)
