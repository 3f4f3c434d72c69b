-- ===== src/Jsonrpc/Inbound/Runs.antt =====
-- Invariants of the inbound state (src/jsonrpc/router.cpp) along any interleaving of its sections.
use cpp_mcp_sdk.Base.{ℕ, String, Bool, List, [], ◌∷◌, ◌≡◌, refl, ◌∙◌, inl, inr, is_some, Bool-cases}
use mathlib.Core.Path.{subst}
use mathlib.Core.Bool.{false≢true}
use cpp_mcp_sdk.Jsonrpc.Json.{JsonApi}
use cpp_mcp_sdk.Jsonrpc.Messages.{RequestId}
use cpp_mcp_sdk.Jsonrpc.Inbound.{
  InboundState, sender_key, find_at, shut_down_inbound, drop_completion_pool, admit_request,
}
use cpp_mcp_sdk.Jsonrpc.Inbound.Lookup.{find_at-nil}
use cpp_mcp_sdk.Jsonrpc.Inbound.Changes.{
  InboundChange, keeps, clears, unpools, mark-Change, cancel-Change, complete-Change, emit-Change,
}
use cpp_mcp_sdk.Jsonrpc.Inbound.Steps.{
  Dispatching, InboundCall, admit, activate, complete, cancel, emit, shut_down, drop_pool,
  new_dispatching, inbound_step, inbound_run, admit_step, activate_step,
}
use cpp_mcp_sdk.Jsonrpc.Inbound.Ids.{IdUsed, step-IdUsed}

abbrev pub AnyId : String → RequestId → Type 0
AnyId s k = Unit

module _ {D P J : Type 0} (api : JsonApi J) (le : D → D → Bool) where
  pub step-Change :
      (c : InboundCall D P J) (d : Dispatching D P)
      → ((s : String) (k : RequestId) → IdUsed s k d)
      → InboundChange d.router.max_concurrent_in_flight_requests AnyId d.router.inbound
          (inbound_step api le c d).router.inbound
  unfolding inbound_step shut_down_inbound drop_completion_pool admit_step activate_step
      admit_request
  step-Change (admit context request) d u =
      elim (Bool-cases
        (is_some (find_at (sender_key context) request.id d.router.seen_request_ids))) [
          | inl used ↦ rw (used, inbound_step, admit_step, admit_request) keeps
          | inr new ↦ rw (new, inbound_step, admit_step, admit_request) keeps
        ]
  step-Change (activate context request promise) d u =
      elim (Bool-cases (is_some (find_at (sender_key context) request.id d.waiting))) [
        | inl waits ↦
            rw (waits, inbound_step, activate_step)
              (mark-Change api context request promise d.router.max_concurrent_in_flight_requests
                d.router.inbound tt ((u (sender_key context) request.id).waiting_idle waits))
        | inr idle ↦ rw (idle, inbound_step, activate_step) keeps
      ]
  step-Change (complete context id) d u = complete-Change context id _ d.router.inbound
  step-Change (cancel context id) d u = cancel-Change context id _ d.router.inbound
  step-Change (emit context token progress) d u =
      emit-Change le context token progress _ d.router.inbound
  step-Change shut_down d u = clears
  step-Change drop_pool d u = unpools

  pub step-limit :
      (c : InboundCall D P J) (d : Dispatching D P)
      → (inbound_step api le c d).router.max_concurrent_in_flight_requests
        ≡ d.router.max_concurrent_in_flight_requests
  unfolding inbound_step admit_step activate_step admit_request
  step-limit (admit context request) d =
      elim (Bool-cases
        (is_some (find_at (sender_key context) request.id d.router.seen_request_ids))) [
          | inl used ↦ rw (used, inbound_step, admit_step, admit_request) refl
          | inr new ↦ rw (new, inbound_step, admit_step, admit_request) refl
        ]
  step-limit (activate context request promise) d =
      elim (Bool-cases (is_some (find_at (sender_key context) request.id d.waiting))) [
        | inl waits ↦ rw (waits, inbound_step, activate_step) refl
        | inr idle ↦ rw (idle, inbound_step, activate_step) refl
      ]
  step-limit (complete context id) d = refl
  step-limit (cancel context id) d = refl
  step-limit (emit context token progress) d = refl
  step-limit shut_down d = refl
  step-limit drop_pool d = refl

pub new-IdUsed :
    {D P : Type 0} (limit : ℕ) (handlers : List String) (s : String) (k : RequestId)
    → IdUsed s k (new_dispatching {D = D} {P = P} limit handlers)
new-IdUsed limit handlers s k = record {
  waiting_seen = λ w. absurd (false≢true (rw (find_at-nil s k) at w));
  waiting_idle = λ w. find_at-nil s k;
  active_seen = λ a. absurd (false≢true (rw (find_at-nil s k) at a));
}

module _ {D P J : Type 0} (api : JsonApi J) (le : D → D → Bool)
    (I : InboundState D P → Type 0) where
  -- What every change keeps holds at the end of every run.
  run-keeps_from :
      (limit : ℕ) (keep : (s s' : InboundState D P) → InboundChange limit AnyId s s' → I s → I s')
      (d : Dispatching D P) (cs : List (InboundCall D P J))
      → d.router.max_concurrent_in_flight_requests ≡ limit
      → ((s : String) (k : RequestId) → IdUsed s k d)
      → I d.router.inbound
      → I (inbound_run api le d cs).router.inbound
  unfolding inbound_run
  run-keeps_from limit keep d [] same u i = i
  run-keeps_from limit keep d (c ∷ cs) same u i =
      run-keeps_from limit keep (inbound_step api le c d) cs (step-limit api le c d ∙ same)
        (λ s k. step-IdUsed api le s k c d u)
        (keep _ _
          (subst
            (λ n. InboundChange n AnyId d.router.inbound (inbound_step api le c d).router.inbound)
            same (step-Change api le c d u))
          i)

  pub run-keeps :
      (limit : ℕ) (handlers : List String)
      (keep : (s s' : InboundState D P) → InboundChange limit AnyId s s' → I s → I s')
      (cs : List (InboundCall D P J))
      → I (new_dispatching limit handlers).router.inbound
      → I (inbound_run api le (new_dispatching limit handlers) cs).router.inbound
  run-keeps limit handlers keep cs i =
      run-keeps_from limit keep (new_dispatching limit handlers) cs refl (new-IdUsed limit handlers)
        i
