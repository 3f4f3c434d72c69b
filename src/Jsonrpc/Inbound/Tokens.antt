-- ===== src/Jsonrpc/Inbound/Tokens.antt =====
-- The progress tokens of inbound requests (src/jsonrpc/router.cpp).
use cpp_mcp_sdk.Base.{ℕ, String, Bool, Option, none, some, List, ◌≡◌, refl, arith, []}
use cpp_mcp_sdk.Jsonrpc.Json.{JsonApi}
use cpp_mcp_sdk.Jsonrpc.Messages.{RequestId}
use cpp_mcp_sdk.Jsonrpc.Inbound.{
  InboundState, InboundRequest, BySender, find_at, put_at, drop_at, drop_token,
}
use cpp_mcp_sdk.Jsonrpc.Inbound.Lookup.{
  find_at-nil, find_at-put_at, find_at-erase_at, find_at-drop_at,
}
use cpp_mcp_sdk.Jsonrpc.Inbound.Changes.{
  InboundChange, keeps, opens, reverts, updates, closes, forgets, clears, unpools,
}
use cpp_mcp_sdk.Jsonrpc.Inbound.Steps.{InboundCall, new_dispatching, inbound_run}
use cpp_mcp_sdk.Jsonrpc.Inbound.Runs.{AnyId, run-keeps}

abbrev pub token_of : {D : Type 0} → Option (InboundRequest D) → Option RequestId
token_of none = none
token_of (some q) = q.progress_token

-- The token names the request that carries it, and no other.
record Names {D : Type 0} (t : String) (token id : RequestId)
    (requests : BySender (InboundRequest D)) (tokens : BySender RequestId) : Type 0 where
  pub carries : find_at t token tokens ≡ some id → token_of (find_at t id requests) ≡ some token
  pub named : token_of (find_at t id requests) ≡ some token → find_at t token tokens ≡ some id

abbrev AllNamed : {D P : Type 0} → String → RequestId → InboundState D P → Type 0
AllNamed t token s = (id : RequestId) → Names t token id s.requests s.ids_by_progress_token

-- A request leaves with its token.
closes-Names :
    {D : Type 0} (t : String) (token i : RequestId) (requests : BySender (InboundRequest D))
    (tokens : BySender RequestId) (sender : String) (id : RequestId) (q : InboundRequest D)
    (own : Option RequestId)
    → find_at sender id requests ≡ some q
    → q.progress_token ≡ own
    → ((k : RequestId) → Names t token k requests tokens)
    → Names t token i (drop_at sender id requests) (drop_token sender own tokens)
closes-Names t token i requests tokens sender id q none held same w = record {
  carries =
      λ h. ground (arith, find_at-drop_at sender t id i requests, (w i).carries h, held, same);
  named = λ h. ground (arith, find_at-drop_at sender t id i requests, h, (w i).named);
}
closes-Names t token i requests tokens sender id q (some tk) held same w = record {
  carries = λ h. ground (
    arith,
    find_at-drop_at sender t id i requests,
    find_at-drop_at sender t tk token tokens,
    (w i).carries,
    held,
    same,
    h,
  );
  named = λ h. ground (
    arith,
    find_at-drop_at sender t id i requests,
    find_at-drop_at sender t tk token tokens,
    h,
    (w i).named,
    (w id).named,
    held,
    same,
  );
}

new-Names : {D : Type 0} (t : String) (token id : RequestId) → Names {D = D} t token id [] []
new-Names {D} t token id = record {
  carries = λ h. ground (arith, find_at-nil {V = RequestId} t token, h);
  named = λ h. ground (arith, find_at-nil {V = InboundRequest D} t id, h);
}

module _ {D P : Type 0} {limit : ℕ} (t : String) (token : RequestId) where
  Change-Names :
      (s s' : InboundState D P)
      → InboundChange limit AnyId s s'
      → AllNamed t token s
      → AllNamed t token s'
  Change-Names s _ keeps w i = w i
  Change-Names s _ (opens sender id none q promise may same free unheld room fresh) w i = record {
    carries = λ h. ground (arith, find_at-put_at sender t id i q s.requests, (w i).carries h, free);
    named = λ h. ground (arith, find_at-put_at sender t id i q s.requests, h, (w i).named, same);
  }
  Change-Names s _ (opens sender id (some tk) q promise may same free unheld room fresh) w i =
      record {
        carries = λ h. ground (
          arith,
          find_at-put_at sender t id i q s.requests,
          find_at-put_at sender t tk token id s.ids_by_progress_token,
          (w i).carries,
          free,
          h,
          same,
        );
        named = λ h. ground (
          arith,
          find_at-put_at sender t id i q s.requests,
          find_at-put_at sender t tk token id s.ids_by_progress_token,
          (w i).named,
          h,
          same,
          unheld,
        );
      }
  Change-Names s _ (reverts sender id q free room) w i = record {
    carries = λ h. ground (
      arith,
      find_at-erase_at sender t id i (put_at sender id q s.requests),
      find_at-put_at sender t id i q s.requests,
      (w i).carries h,
      free,
    );
    named = λ h. ground (
      arith,
      find_at-erase_at sender t id i (put_at sender id q s.requests),
      find_at-put_at sender t id i q s.requests,
      h,
      (w i).named,
    );
  }
  Change-Names s _ (updates sender id q q' held same may) w i = record {
    carries = λ h.
        ground (arith, find_at-put_at sender t id i q' s.requests, (w i).carries h, held, same);
    named =
        λ h. ground (arith, find_at-put_at sender t id i q' s.requests, h, (w i).named, held, same);
  }
  Change-Names s _ (closes sender id q held) w i =
      closes-Names t token i s.requests s.ids_by_progress_token sender id q q.progress_token held
        refl w
  Change-Names s _ (forgets sender id free) w i = w i
  Change-Names s _ clears w i = new-Names t token i
  Change-Names s _ unpools w i = w i

module _ {D P J : Type 0} (api : JsonApi J) (le : D → D → Bool) where
  run-Names :
      (limit : ℕ) (handlers : List String) (cs : List (InboundCall D P J)) (s : String)
      (token : RequestId)
      → AllNamed s token (inbound_run api le (new_dispatching limit handlers) cs).router.inbound
  run-Names limit handlers cs s token =
      run-keeps api le (AllNamed s token) limit handlers (Change-Names s token) cs
        (new-Names s token)

  -- From a new router and after any interleaving of its sections, if a sender's progress token is
  -- registered for an id, a request of that sender is in flight under that id and carries the token.
  pub token-carried :
      (limit : ℕ) (handlers : List String) (cs : List (InboundCall D P J)) (s : String)
      (token id : RequestId)
      → find_at s token
          (inbound_run api le
            (new_dispatching limit handlers)
            cs).router.inbound.ids_by_progress_token
        ≡ some id
      → token_of (
          find_at s id
            (inbound_run api le (new_dispatching limit handlers) cs).router.inbound.requests)
        ≡ some token
  token-carried limit handlers cs s token id h = (run-Names limit handlers cs s token id).carries h

  -- From a new router and after any interleaving of its sections, two requests in flight of one
  -- sender that carry the same progress token have the same id.
  pub token_unique :
      (limit : ℕ) (handlers : List String) (cs : List (InboundCall D P J)) (s : String)
      (token id id' : RequestId)
      → token_of (
          find_at s id
            (inbound_run api le (new_dispatching limit handlers) cs).router.inbound.requests)
        ≡ some token
      → token_of (
          find_at s id'
            (inbound_run api le (new_dispatching limit handlers) cs).router.inbound.requests)
        ≡ some token
      → id ≡ id'
  token_unique limit handlers cs s token id id' h h' =
      let n = run-Names limit handlers cs s token in
      let a = (n id).named h in let b = (n id').named h' in ground arith
