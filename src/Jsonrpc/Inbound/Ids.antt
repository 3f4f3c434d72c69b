-- ===== src/Jsonrpc/Inbound/Ids.antt =====
-- The ids that a sender has used, through the interleavings of `dispatchRequest`
-- (src/jsonrpc/router.cpp).
use cpp_mcp_sdk.Base.{
  ℕ, String, Bool, true, Option, none, some, ◌≡◌, refl, inl, inr, arith, is_some, String-discrete,
  Bool-cases, any, ◌=ₛ◌,
}
use mathlib.Core.Path.{subst}
use mathlib.Core.Bool.{false≢true}
use cpp_mcp_sdk.Jsonrpc.Inbound.Lookup.{
  find_at-nil, find_at-put_at, find_at-erase_at, find_at-drop_at, find_at-put_at_other,
}
use cpp_mcp_sdk.Jsonrpc.Json.{JsonApi}
use cpp_mcp_sdk.Jsonrpc.Messages.{RequestId, RequestId-discrete, RequestContext, Request}
use cpp_mcp_sdk.Jsonrpc.Inbound.{
  InboundState, sender_key, find_at, put_at, erase_at, admit_request, shut_down_inbound,
  drop_completion_pool,
}
use cpp_mcp_sdk.Jsonrpc.Inbound.Changes.{
  InboundChange, keeps, opens, reverts, updates, closes, forgets, clears, unpools, mark-Change,
  IdOf, cancel-Change, complete-Change, emit-Change,
}
use cpp_mcp_sdk.Jsonrpc.Inbound.Steps.{
  Dispatching, InboundCall, admit, activate, complete, cancel, emit, shut_down, drop_pool,
  inbound_step, admit_step, activate_step, with_inbound,
}

-- A waiting request has a used id and is not active; an active one has a used id.
pub record IdUsed {D P : Type 0} (s : String) (k : RequestId) (d : Dispatching D P) : Type 0 where
  pub waiting_seen :
      is_some (find_at s k d.waiting) ≡ true
      → is_some (find_at s k d.router.seen_request_ids) ≡ true
  pub waiting_idle :
      is_some (find_at s k d.waiting) ≡ true → find_at s k d.router.inbound.requests ≡ none
  pub active_seen :
      is_some (find_at s k d.router.inbound.requests) ≡ true
      → is_some (find_at s k d.router.seen_request_ids) ≡ true

not_active : {A : Type 0} {o : Option A} → ¬ (is_some o ≡ true) → o ≡ none
not_active {o = none} h = refl
not_active {o = some a} h = absurd (h refl)

module _ {D P : Type 0} {limit : ℕ} {MayOpen : String → RequestId → Type 0} where
  -- A change that may not open a request at an id leaves none where there was none.
  Change-active :
      {s s' : InboundState D P}
      → InboundChange limit MayOpen s s'
      → (sender : String) (id : RequestId) → ¬ MayOpen sender id
      → is_some (find_at sender id s'.requests) ≡ true
      → is_some (find_at sender id s.requests) ≡ true
  Change-active keeps t j may_not h = h
  Change-active {s} (opens sender id token q promise may same free unheld room fresh) t j may_not
        h =
      rw
        (find_at-put_at_other sender t id j s.requests
          (λ same. may_not (subst (λ x. MayOpen x j) same.0 (subst (MayOpen sender) same.1 may))) q)
        at h
  Change-active {s} (reverts sender id q free room) t j may_not h = ground (
    arith,
    find_at-erase_at sender t id j (put_at sender id q s.requests),
    find_at-put_at sender t id j q s.requests,
    h,
  )
  Change-active {s} (updates sender id q q' held same may) t j may_not h =
      ground (arith, find_at-put_at sender t id j q' s.requests)
  Change-active {s} (closes sender id q held) t j may_not h =
      ground (arith, find_at-drop_at sender t id j s.requests)
  Change-active (forgets sender id free) t j may_not h = h
  Change-active clears t j may_not h = absurd (false≢true (rw (find_at-nil t j) at h))
  Change-active unpools t j may_not h = h

module _ {D P : Type 0} where
  -- A change of the inbound state that opens no request.
  Change-IdUsed :
      {limit : ℕ} (t : String) (j : RequestId) (d : Dispatching D P) (s : InboundState D P)
      → InboundChange limit (λ x y. ⊥) d.router.inbound s
      → IdUsed t j d
      → IdUsed t j (with_inbound s d)
  Change-IdUsed t j d s c u = record {
    waiting_seen = u.waiting_seen;
    waiting_idle = λ w.
        not_active (λ a. false≢true (rw (u.waiting_idle w) at (Change-active c t j (λ z. z) a)));
    active_seen = λ a. u.active_seen (Change-active c t j (λ z. z) a);
  }

  -- The sender's id joins the used ones, and the waiting ones if it was not among the used.
  use_id :
      (t : String) (j : RequestId) (d : Dispatching D P) (sender : String) (id : RequestId)
      → IdUsed t j d
      → IdUsed t j (record d {
        router = record d.router {
          seen_request_ids = put_at sender id tt d.router.seen_request_ids;
        };
      })
  use_id t j d sender id u = record {
    waiting_seen = λ w.
        ground (arith, u.waiting_seen w, find_at-put_at sender t id j tt d.router.seen_request_ids);
    waiting_idle = u.waiting_idle;
    active_seen = λ a.
        ground (arith, u.active_seen a, find_at-put_at sender t id j tt d.router.seen_request_ids);
  }

  wait_id :
      (t : String) (j : RequestId) (d : Dispatching D P) (sender : String) (id : RequestId)
      → find_at sender id d.router.inbound.requests ≡ none
      → IdUsed t j (record d {
        router = record d.router {
          seen_request_ids = put_at sender id tt d.router.seen_request_ids;
        };
      })
      → IdUsed t j (record d {
        router = record d.router {
          seen_request_ids = put_at sender id tt d.router.seen_request_ids;
        };
        waiting = put_at sender id tt d.waiting;
      })
  wait_id t j d sender id idle u = record {
    waiting_seen = λ w. ground (
      arith,
      u.waiting_seen,
      find_at-put_at sender t id j tt d.router.seen_request_ids,
      find_at-put_at sender t id j tt d.waiting,
      w,
    );
    waiting_idle =
        λ w. ground (arith, u.waiting_idle, idle, find_at-put_at sender t id j tt d.waiting, w);
    active_seen = u.active_seen;
  }

  -- The request with the id is no longer waiting, and may be active.
  leave_waiting :
      {limit : ℕ} (t : String) (j : RequestId) (d : Dispatching D P) (sender : String)
      (id : RequestId) (s : InboundState D P)
      → InboundChange limit (IdOf sender id) d.router.inbound s
      → is_some (find_at sender id d.router.seen_request_ids) ≡ true
      → IdUsed t j d
      → IdUsed t j (record d {
        router = record d.router { inbound = s };
        waiting = erase_at sender id d.waiting;
      })
  leave_waiting t j d sender id s c used u = record {
    waiting_seen = λ w. u.waiting_seen (still w);
    waiting_idle = λ w.
        not_active (λ a.
          false≢true (rw (u.waiting_idle (still w)) at (Change-active c t j (elsewhere w) a)));
    active_seen = λ a. elim (String-discrete sender t) [
      | yes s ↦ elim (RequestId-discrete id j) [
        | yes k ↦ rw (s, k) at used
        | no other ↦ u.active_seen (Change-active c t j (λ same. other same.1) a)
      ]
      | no other ↦ u.active_seen (Change-active c t j (λ same. other same.0) a)
    ];
  }
    where
      still :
          is_some (find_at t j (erase_at sender id d.waiting)) ≡ true
          → is_some (find_at t j d.waiting) ≡ true
      still w = ground (arith, find_at-erase_at sender t id j d.waiting, w)

      elsewhere : is_some (find_at t j (erase_at sender id d.waiting)) ≡ true → ¬ IdOf sender id t j
      elsewhere w = λ same. ground (arith, find_at-erase_at sender t id j d.waiting, w, same)

module _ {D P J : Type 0} where
  admit-IdUsed :
      (t : String) (j : RequestId) (d : Dispatching D P) (context : RequestContext)
      (request : Request J)
      → ((s : String) (k : RequestId) → IdUsed s k d)
      → IdUsed t j (admit_step context request d)
  unfolding admit_step admit_request
  admit-IdUsed t j d context request u =
      elim (Bool-cases
        (is_some (find_at (sender_key context) request.id d.router.seen_request_ids))) [
          | inl used ↦ rw (used, admit_step, admit_request) (u t j)
          | inr new ↦ elim (Bool-cases (any (λ m. m =ₛ request.method) d.router.request_handlers)) [
            | inl handled ↦
                rw (new, handled, admit_step, admit_request)
                  (wait_id t j d (sender_key context) request.id
                    (not_active (λ a.
                      false≢true (rw new at ((u (sender_key context) request.id).active_seen a))))
                    (use_id t j d (sender_key context) request.id (u t j)))
            | inr unknown ↦
                rw (new, unknown, admit_step, admit_request)
                  (use_id t j d (sender_key context) request.id (u t j))
          ]
        ]

  activate-IdUsed :
      (api : JsonApi J) (t : String) (j : RequestId) (d : Dispatching D P)
      (context : RequestContext) (request : Request J) (promise : P)
      → ((s : String) (k : RequestId) → IdUsed s k d)
      → IdUsed t j (activate_step api context request promise d)
  unfolding activate_step
  activate-IdUsed api t j d context request promise u =
      let sender = sender_key context in
      let id = request.id in
      elim (Bool-cases (is_some (find_at sender id d.waiting))) [
        | inr idle ↦ rw (idle, activate_step) (u t j)
        | inl waits ↦
            rw (waits, activate_step)
              (leave_waiting t j d sender id _
                (mark-Change api {MayOpen = IdOf sender id} context request promise
                  d.router.max_concurrent_in_flight_requests d.router.inbound (refl, refl)
                  ((u sender id).waiting_idle waits))
                ((u sender id).waiting_seen waits) (u t j))
      ]

  module _ (api : JsonApi J) (le : D → D → Bool) where
    pub step-IdUsed :
        (t : String) (j : RequestId) (c : InboundCall D P J) (d : Dispatching D P)
        → ((s : String) (k : RequestId) → IdUsed s k d)
        → IdUsed t j (inbound_step api le c d)
    unfolding inbound_step shut_down_inbound drop_completion_pool
    step-IdUsed t j (admit context request) d u = admit-IdUsed t j d context request u
    step-IdUsed t j (activate context request promise) d u =
        activate-IdUsed api t j d context request promise u
    step-IdUsed t j (complete context id) d u =
        Change-IdUsed t j d _ (complete-Change context id 0 d.router.inbound) (u t j)
    step-IdUsed t j (cancel context id) d u =
        Change-IdUsed t j d _ (cancel-Change context id 0 d.router.inbound) (u t j)
    step-IdUsed t j (emit context token progress) d u =
        Change-IdUsed t j d _ (emit-Change le context token progress 0 d.router.inbound) (u t j)
    step-IdUsed t j shut_down d u = Change-IdUsed {limit = 0} t j d _ clears (u t j)
    step-IdUsed t j drop_pool d u = Change-IdUsed {limit = 0} t j d _ unpools (u t j)
