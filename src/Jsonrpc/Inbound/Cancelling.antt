-- ===== src/Jsonrpc/Inbound/Cancelling.antt =====
-- Cancellation of inbound requests (`dispatchNotification` of src/jsonrpc/router.cpp).
use cpp_mcp_sdk.Base.{
  ℕ, String, Bool, true, false, not, ◌||◌, Option, none, some, List, ◌≡◌, refl, arith, ◌=ₛ◌,
}
use cpp_mcp_sdk.Jsonrpc.Json.{JsonApi}
use cpp_mcp_sdk.Jsonrpc.Messages.{RequestId}
use cpp_mcp_sdk.Jsonrpc.Inbound.{InboundState, InboundRequest, find_at, put_at}
use cpp_mcp_sdk.Jsonrpc.Inbound.Lookup.{
  find_at-nil, find_at-put_at, find_at-erase_at, find_at-drop_at,
}
use cpp_mcp_sdk.Jsonrpc.Inbound.Changes.{
  InboundChange, keeps, opens, reverts, updates, closes, forgets, clears, unpools, cancellable,
}
use cpp_mcp_sdk.Jsonrpc.Inbound.Steps.{InboundCall, new_dispatching, inbound_run}
use cpp_mcp_sdk.Jsonrpc.Inbound.Runs.{AnyId, run-keeps}

-- The entry, if there is one, is not marked, or is one that may be.
abbrev well_cancelled : {D : Type 0} → Option (InboundRequest D) → Bool
well_cancelled none = true
well_cancelled (some q) = not q.cancelled || cancellable q

module _ {D P : Type 0} {limit : ℕ} (t : String) (j : RequestId) where
  Change-cancelled :
      (s s' : InboundState D P)
      → InboundChange limit AnyId s s'
      → well_cancelled (find_at t j s.requests) ≡ true
      → well_cancelled (find_at t j s'.requests) ≡ true
  Change-cancelled s _ keeps w = w
  Change-cancelled s _ (opens sender id token q promise may same free unheld room fresh) w =
      ground (arith, find_at-put_at sender t id j q s.requests, w, fresh)
  Change-cancelled s _ (reverts sender id q free room) w = ground (
    arith,
    find_at-erase_at sender t id j (put_at sender id q s.requests),
    find_at-put_at sender t id j q s.requests,
    w,
  )
  Change-cancelled s _ (updates sender id q q' held same may) w =
      ground (arith, find_at-put_at sender t id j q' s.requests, held, w, may)
  Change-cancelled s _ (closes sender id q held) w =
      ground (arith, find_at-drop_at sender t id j s.requests, w)
  Change-cancelled s _ (forgets sender id free) w = w
  Change-cancelled s _ clears w = rw (find_at-nil {V = InboundRequest D} t j) refl
  Change-cancelled s _ unpools w = w

module _ {D P J : Type 0} (api : JsonApi J) (le : D → D → Bool) where
  -- From a new router and after any interleaving of its sections, a request that is marked as
  -- cancelled is neither an `initialize` request nor a task-augmented one.
  pub cancelled-may_be :
      (limit : ℕ) (handlers : List String) (cs : List (InboundCall D P J)) (s : String)
      (id : RequestId) (q : InboundRequest D)
      → find_at s id
          (inbound_run api le (new_dispatching limit handlers) cs).router.inbound.requests
        ≡ some q
      → q.cancelled ≡ true
      → ((q.method =ₛ "initialize") ≡ false) × (q.task_augmented ≡ false)
  cancelled-may_be limit handlers cs s id q held marked =
      let w =
        run-keeps api le (λ r. well_cancelled (find_at s id r.requests) ≡ true) limit handlers
          (Change-cancelled s id) cs (rw (find_at-nil {V = InboundRequest D} s id) refl) in
      let v = (rw (held, marked) at w) in ground arith
