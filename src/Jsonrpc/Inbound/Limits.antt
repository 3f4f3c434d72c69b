-- ===== src/Jsonrpc/Inbound/Limits.antt =====
-- The limit on the inbound requests in flight (`markInboundRequestActive` of src/jsonrpc/router.cpp).
use cpp_mcp_sdk.Base.{ℕ, ◌≤◌, String, Bool, List, arith, String-discrete}
use cpp_mcp_sdk.Base.Nested.{
  total, total-put_in-le, total-erase_in-le, total-drop_in-le, total-put_in_held,
}
use cpp_mcp_sdk.Jsonrpc.Json.{JsonApi}
use cpp_mcp_sdk.Jsonrpc.Messages.{RequestId-discrete}
use cpp_mcp_sdk.Jsonrpc.Inbound.{InboundState, put_at}
use cpp_mcp_sdk.Jsonrpc.Inbound.Changes.{
  InboundChange, keeps, opens, reverts, updates, closes, forgets, clears, unpools,
}
use cpp_mcp_sdk.Jsonrpc.Inbound.Steps.{InboundCall, new_dispatching, inbound_run}
use cpp_mcp_sdk.Jsonrpc.Inbound.Runs.{AnyId, run-keeps}

module _ {D P : Type 0} (limit : ℕ) where
  Change-within :
      (s s' : InboundState D P)
      → InboundChange limit AnyId s s'
      → total s.requests ≤ limit
      → total s'.requests ≤ limit
  unfolding total
  Change-within s _ keeps w = w
  Change-within s _ (opens sender id token q promise may same free unheld room fresh) w =
      omega (arith, total-put_in-le String-discrete RequestId-discrete sender id q s.requests)
  Change-within s _ (reverts sender id q free room) w = omega (
    arith,
    total-put_in-le String-discrete RequestId-discrete sender id q s.requests,
    total-erase_in-le String-discrete RequestId-discrete sender id (put_at sender id q s.requests),
  )
  Change-within s _ (updates sender id q q' held same may) w =
      omega
        (arith, total-put_in_held String-discrete RequestId-discrete sender id q' q s.requests held)
  Change-within s _ (closes sender id q held) w =
      omega (arith, total-drop_in-le String-discrete RequestId-discrete sender id s.requests)
  Change-within s _ (forgets sender id free) w = w
  Change-within s _ clears w = omega arith
  Change-within s _ unpools w = w

module _ {D P J : Type 0} (api : JsonApi J) (le : D → D → Bool) where
  -- From a new router, no interleaving of the sections of dispatched requests, completions,
  -- cancellations, progress and shutdown has more requests in flight, all senders together, than the
  -- configured limit.
  pub in_flight-within :
      (limit : ℕ) (handlers : List String) (cs : List (InboundCall D P J))
      → total (inbound_run api le (new_dispatching limit handlers) cs).router.inbound.requests
        ≤ limit
  unfolding total
  in_flight-within limit handlers cs =
      run-keeps api le (λ s. total s.requests ≤ limit) limit handlers (Change-within limit) cs
        (omega arith)
