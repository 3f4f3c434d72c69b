-- ===== src/Jsonrpc/Inbound/Changes.antt =====
-- What the sections of the inbound half can do to its state (src/jsonrpc/router.cpp), as a relation.
use cpp_mcp_sdk.Base.{
  ℕ, ◌<◌, String, Bool, true, false, not, ◌&&◌, ◌||◌, Option, none, some, [], ◌≡◌, refl, inl, inr,
  arith, leb, is_some, ◌=ₛ◌, Bool-cases, Option-cases,
}
use cpp_mcp_sdk.Base.Nested.{total}
use cpp_mcp_sdk.Jsonrpc.Json.{JsonApi}
use cpp_mcp_sdk.Jsonrpc.Messages.{RequestId, RequestContext, Request}
use cpp_mcp_sdk.Jsonrpc.Cancellation.{extract_progress_token}
use cpp_mcp_sdk.Jsonrpc.Inbound.{
  InboundRequest, InboundState, BySender, sender_key, find_at, put_at, erase_at, drop_at,
  drop_token, inbound_request, register_progress_token, mark_inbound_request_active,
  cancel_inbound_request, complete_inbound_request, emit_progress, not_above,
}

-- A request that a cancellation may mark.
abbrev pub cancellable : {D : Type 0} → InboundRequest D → Bool
cancellable q = not (q.method =ₛ "initialize") && not q.task_augmented

-- A request that is marked is one that may be.
abbrev pub WellCancelled : {D : Type 0} → InboundRequest D → Type 0
WellCancelled q = (not q.cancelled || cancellable q) ≡ true

abbrev pub put_token :
    String → Option RequestId → RequestId → BySender RequestId → BySender RequestId
put_token sender none id m = m
put_token sender (some token) id m = put_at sender token id m

abbrev pub token_is_free : String → Option RequestId → BySender RequestId → Bool
token_is_free sender none m = true
token_is_free sender (some token) m = not (is_some (find_at sender token m))

-- A change opens a request only at an id that it may open.
pub data InboundChange {D P : Type 0} (limit : ℕ) (MayOpen : String → RequestId → Type 0)
    : InboundState D P → InboundState D P → Type 0 where
  keeps : {s : InboundState D P} → InboundChange limit MayOpen s s
  opens :
      {s : InboundState D P} (sender : String) (id : RequestId) (token : Option RequestId)
      (q : InboundRequest D) (promise : P)
      → MayOpen sender id
      → q.progress_token ≡ token
      → find_at sender id s.requests ≡ none
      → token_is_free sender token s.ids_by_progress_token ≡ true
      → total s.requests < limit
      → q.cancelled ≡ false
      → InboundChange limit MayOpen s (record s {
        requests = put_at sender id q s.requests;
        ids_by_progress_token = put_token sender token id s.ids_by_progress_token;
        promises = put_at sender id promise s.promises;
      })
  reverts :
      {s : InboundState D P} (sender : String) (id : RequestId) (q : InboundRequest D)
      → find_at sender id s.requests ≡ none
      → total s.requests < limit
      → InboundChange limit MayOpen s
          (record s { requests = erase_at sender id (put_at sender id q s.requests) })
  updates :
      {s : InboundState D P} (sender : String) (id : RequestId) (q q' : InboundRequest D)
      → find_at sender id s.requests ≡ some q
      → q'.progress_token ≡ q.progress_token
      → (WellCancelled q → WellCancelled q')
      → InboundChange limit MayOpen s (record s { requests = put_at sender id q' s.requests })
  closes :
      {s : InboundState D P} (sender : String) (id : RequestId) (q : InboundRequest D)
      → find_at sender id s.requests ≡ some q
      → InboundChange limit MayOpen s (record s {
        promises = drop_at sender id s.promises;
        ids_by_progress_token = drop_token sender q.progress_token s.ids_by_progress_token;
        requests = drop_at sender id s.requests;
      })
  forgets :
      {s : InboundState D P} (sender : String) (id : RequestId)
      → find_at sender id s.requests ≡ none
      → InboundChange limit MayOpen s (record s { promises = drop_at sender id s.promises })
  clears :
      {s : InboundState D P}
      → InboundChange limit MayOpen s (record s {
        shutting_down = true;
        requests = [];
        ids_by_progress_token = [];
        promises = [];
      })
  unpools :
      {s : InboundState D P}
      → InboundChange limit MayOpen s (record s { has_completion_pool = false })

module _ {D P : Type 0} (MayOpen : String → RequestId → Type 0) where
  register-Change :
      (sender : String) (id : RequestId) (token : Option RequestId) (q : InboundRequest D)
      (promise : P) (limit : ℕ) (s : InboundState D P)
      → MayOpen sender id
      → q.progress_token ≡ token
      → find_at sender id s.requests ≡ none
      → total s.requests < limit
      → q.cancelled ≡ false
      → InboundChange limit MayOpen s
          (register_progress_token sender id token promise
            (record s { requests = put_at sender id q s.requests })).0
  unfolding register_progress_token
  register-Change sender id none q promise limit s may same free room fresh =
      opens sender id none q promise may same free refl room fresh
  register-Change sender id (some token) q promise limit s may same free room fresh =
      elim (Option-cases (find_at sender token s.ids_by_progress_token)) [
        | inl e ↦ rw e (opens sender id (some token) q promise may same free (rw e refl) room fresh)
        | inr (i, e) ↦ rw e (reverts sender id q free room)
      ]

-- The id of a call.
abbrev pub IdOf : String → RequestId → String → RequestId → Type 0
IdOf sender id t j = (sender ≡ t) × (id ≡ j)

module _ {D P J : Type 0} (api : JsonApi J) {MayOpen : String → RequestId → Type 0} where
  pub mark-Change :
      (context : RequestContext) (request : Request J) (promise : P) (limit : ℕ)
      (s : InboundState D P)
      → MayOpen (sender_key context) request.id
      → find_at (sender_key context) request.id s.requests ≡ none
      → InboundChange limit MayOpen s
          (mark_inbound_request_active api context request promise limit s).0
  unfolding mark_inbound_request_active
  mark-Change context request promise limit s may free =
      elim (Bool-cases (s.shutting_down || not s.has_completion_pool)) [
        | inl e ↦ rw e keeps
        | inr running ↦ elim (Bool-cases (leb limit (total s.requests))) [
          | inl e ↦ rw (running, e) keeps
          | inr room ↦
              rw (running, room)
                (register-Change MayOpen (sender_key context) request.id
                  (extract_progress_token api request) (inbound_request api request) promise limit s
                  may refl free (ground arith) refl)
        ]
      ]

module _ {D P : Type 0} {MayOpen : String → RequestId → Type 0} where
  pub cancel-Change :
      (context : RequestContext) (id : RequestId) (limit : ℕ) (s : InboundState D P)
      → InboundChange limit MayOpen s (cancel_inbound_request context id s)
  unfolding cancel_inbound_request
  cancel-Change context id limit s =
      elim (Option-cases (find_at (sender_key context) id s.requests)) [
        | inl e ↦ rw (e, cancel_inbound_request) keeps
        | inr (q, e) ↦ elim (Bool-cases (cancellable q)) [
          | inl may ↦
              rw (e, may, cancel_inbound_request)
                (updates (sender_key context) id q (record q { cancelled = true }) e refl
                  (λ _. rw may refl))
          | inr may_not ↦ rw (e, may_not, cancel_inbound_request) keeps
        ]
      ]

  pub complete-Change :
      (context : RequestContext) (id : RequestId) (limit : ℕ) (s : InboundState D P)
      → InboundChange limit MayOpen s (complete_inbound_request context id s)
  unfolding complete_inbound_request
  complete-Change context id limit s =
      elim (Option-cases (find_at (sender_key context) id s.requests)) [
        | inl e ↦ rw (e, complete_inbound_request) (forgets (sender_key context) id e)
        | inr (q, e) ↦ rw (e, complete_inbound_request) (closes (sender_key context) id q e)
      ]

  pub emit-Change :
      (le : D → D → Bool) (context : RequestContext) (token : RequestId) (progress : D) (limit : ℕ)
      (s : InboundState D P)
      → InboundChange limit MayOpen s (emit_progress le context token progress s).0
  unfolding emit_progress
  emit-Change le context token progress limit s =
      elim (Option-cases (find_at (sender_key context) token s.ids_by_progress_token)) [
        | inl e ↦ rw (e, emit_progress) keeps
        | inr (id, e) ↦ elim (Option-cases (find_at (sender_key context) id s.requests)) [
          | inl f ↦ rw (e, emit_progress, f) keeps
          | inr (q, f) ↦
              elim (Bool-cases (q.cancelled || not_above le progress q.last_emitted_progress)) [
                | inl blocked ↦ rw (e, emit_progress, f, blocked) keeps
                | inr above ↦
                    rw (e, emit_progress, f, above)
                      (updates (sender_key context) id q _ f refl (λ w. w))
              ]
        ]
      ]
