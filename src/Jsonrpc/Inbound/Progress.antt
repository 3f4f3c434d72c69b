-- ===== src/Jsonrpc/Inbound/Progress.antt =====
-- The progress that a handler emits (`emitProgress` of src/jsonrpc/router.cpp).
use cpp_mcp_sdk.Base.{
  All, String, Bool, true, false, ◌||◌, Option, none, some, List, [], ◌∷◌, ◌≡◌, refl, arith, inl,
  inr, ◌⊎◌, if◌then◌else◌, Bool-cases, Option-cases,
}
use cpp_mcp_sdk.Jsonrpc.Messages.{RequestId, RequestContext}
use cpp_mcp_sdk.Jsonrpc.Inbound.{
  InboundState, InboundRequest, BySender, sender_key, find_at, put_at, not_above, emit_progress,
  cancel_inbound_request,
}
use cpp_mcp_sdk.Jsonrpc.Inbound.Lookup.{find_at-put_at, find_at-put_at_same}
use cpp_mcp_sdk.Jsonrpc.Inbound.Changes.{cancellable}
use cpp_mcp_sdk.Jsonrpc.Inbound.Ascending.{Rising, OnSome, AboveLast, Ascending, Rising-Ascending}

-- What happens to a request while it is in flight.
pub data Signal (D : Type 0) : Type 0 where
  emits : D → Signal D
  cancels : RequestId → Signal D

abbrev pub EmitsOnly : {D : Type 0} → (D → Type 0) → Signal D → Type 0
EmitsOnly Q (emits p) = Q p
EmitsOnly Q (cancels id) = Unit

abbrev pub last_of : {D : Type 0} → Option (InboundRequest D) → Option D
last_of none = none
last_of (some q) = q.last_emitted_progress

abbrev pub request_of :
    {D : Type 0}
    → String
    → Option RequestId
    → BySender (InboundRequest D)
    → Option (InboundRequest D)
request_of sender none m = none
request_of sender (some id) m = find_at sender id m

module _ {D : Type 0} where
  last-put :
      (sender : String) (id : RequestId) (named : Option RequestId) (q q' : InboundRequest D)
      (m : BySender (InboundRequest D))
      → find_at sender id m ≡ some q
      → q'.last_emitted_progress ≡ q.last_emitted_progress
      → last_of (request_of sender named (put_at sender id q' m))
        ≡ last_of (request_of sender named m)
  last-put sender id none q q' m held same = refl
  last-put sender id (some i) q q' m held same =
      ground (arith, find_at-put_at sender sender id i q' m, held, same)

  abbrev is_marked : Option (InboundRequest D) → Bool
  is_marked none = false
  is_marked (some q) = q.cancelled

  marked-put :
      (sender : String) (id : RequestId) (named : Option RequestId) (q : InboundRequest D)
      (m : BySender (InboundRequest D))
      → is_marked (request_of sender named m) ≡ true
      → is_marked (request_of sender named (put_at sender id (record q { cancelled = true }) m))
        ≡ true
  marked-put sender id none q m marked = marked
  marked-put sender id (some i) q m marked =
      ground (arith, find_at-put_at sender sender id i (record q { cancelled = true }) m, marked)

module _ {D P : Type 0} where
  -- The request that the token names.
  abbrev pub named_by : RequestContext → RequestId → InboundState D P → Option (InboundRequest D)
  named_by context token s =
      request_of (sender_key context) (find_at (sender_key context) token s.ids_by_progress_token)
        s.requests

  -- The values for the token that pass the locked section of `emitProgress`, in the order of the
  -- sections, while values are emitted and requests are cancelled. Each is sent after its section.
  unfoldable pub passed_progress :
      (D → D → Bool) → RequestContext → RequestId → List (Signal D) → InboundState D P → List D
  passed_progress le context token [] s = []
  passed_progress le context token (emits p ∷ signals) s =
      let emitted = emit_progress le context token p s in
      let rest = passed_progress le context token signals emitted.0 in
      if emitted.1 then p ∷ rest else rest
  passed_progress le context token (cancels id ∷ signals) s =
      passed_progress le context token signals (cancel_inbound_request context id s)

  -- One emission: refused and the state kept, or above the last value and recorded.
  emit-cases :
      (le : D → D → Bool) (context : RequestContext) (token : RequestId) (p : D)
      (s : InboundState D P)
      → (((emit_progress le context token p s).0 ≡ s)
          × ((emit_progress le context token p s).1 ≡ false))
        ⊎ ((not_above le p (last_of (named_by context token s)) ≡ false)
            × ((emit_progress le context token p s).1 ≡ true)
            × (last_of (named_by context token (emit_progress le context token p s).0) ≡ some p))
  unfolding emit_progress
  emit-cases le context token p s =
      elim (Option-cases (find_at (sender_key context) token s.ids_by_progress_token)) [
        | inl e ↦ inl (rw (e, emit_progress) (refl, refl))
        | inr (id, e) ↦ elim (Option-cases (find_at (sender_key context) id s.requests)) [
          | inl f ↦ inl (rw (e, emit_progress, f) (refl, refl))
          | inr (q, f) ↦ elim (Bool-cases (q.cancelled || not_above le p q.last_emitted_progress)) [
            | inl blocked ↦ inl (rw (e, emit_progress, f, blocked) (refl, refl))
            | inr above ↦ inr (
              rw (e, f) (ground (arith, above)),
              rw (e, emit_progress, f, above) refl,
              rw
                  (
                    e,
                    emit_progress,
                    f,
                    above,
                    e,
                    find_at-put_at_same (sender_key context) id
                        (record q { last_emitted_progress = some p }) s.requests,
                  )
                  refl,
            )
          ]
        ]
      ]

  cancel-last :
      (context : RequestContext) (token id : RequestId) (s : InboundState D P)
      → last_of (named_by context token (cancel_inbound_request context id s))
        ≡ last_of (named_by context token s)
  unfolding cancel_inbound_request
  cancel-last context token id s =
      elim (Option-cases (find_at (sender_key context) id s.requests)) [
        | inl e ↦ rw (e, cancel_inbound_request) refl
        | inr (q, e) ↦ elim (Bool-cases (cancellable q)) [
          | inl may ↦
              rw (e, may, cancel_inbound_request)
                (last-put (sender_key context) id
                  (find_at (sender_key context) token s.ids_by_progress_token) q
                  (record q { cancelled = true }) s.requests e refl)
          | inr may_not ↦ rw (e, may_not, cancel_inbound_request) refl
        ]
      ]

  passed-Rising :
      (le : D → D → Bool) (context : RequestContext) (token : RequestId) (signals : List (Signal D))
      (s : InboundState D P)
      → Rising le (last_of (named_by context token s)) (passed_progress le context token signals s)
  unfolding passed_progress
  passed-Rising le context token [] s = tt
  passed-Rising le context token (emits p ∷ signals) s = elim (emit-cases le context token p s) [
    | inl (kept, refused) ↦
        rw (refused, passed_progress, kept) (passed-Rising le context token signals s)
    | inr (above, sent, recorded) ↦
        rw (sent, passed_progress)
          (
            above,
            rw recorded at
                (passed-Rising le context token signals (emit_progress le context token p s).0),
          )
  ]
  passed-Rising le context token (cancels id ∷ signals) s =
      rw (cancel-last context token id s) at
        (passed-Rising le context token signals (cancel_inbound_request context id s))

  passed-All :
      (Q : D → Type 0) (le : D → D → Bool) (context : RequestContext) (token : RequestId)
      (signals : List (Signal D)) (s : InboundState D P)
      → All (EmitsOnly Q) signals
      → All Q (passed_progress le context token signals s)
  unfolding passed_progress
  passed-All Q le context token [] s qs = tt
  passed-All Q le context token (emits p ∷ signals) s qs =
      let emitted = emit_progress le context token p s in
      let rest = passed-All Q le context token signals emitted.0 qs.1 in
      elim (Bool-cases emitted.1) [
        | inl sent ↦ rw (sent, passed_progress) (qs.0, rest)
        | inr refused ↦ rw (refused, passed_progress) rest
      ]
  passed-All Q le context token (cancels id ∷ signals) s qs =
      passed-All Q le context token signals (cancel_inbound_request context id s) qs.1

  -- If the values emitted and the value that the request has recorded last are numbers, which `<=`
  -- decides the order of (no NaN), then the values for a token that pass the locked section of
  -- `emitProgress` are each greater than that last value and than all that passed before, in the order
  -- of the sections, whatever is emitted and cancelled in between.
  pub passed-Ascending :
      (le : D → D → Bool) (IsNumber : D → Type 0) (lt : D → D → Type 0)
      → ((a b : D) → IsNumber a → IsNumber b → le a b ≡ false → lt b a)
      → ((a b c : D) → lt a b → lt b c → lt a c)
      → (context : RequestContext) (token : RequestId) (signals : List (Signal D))
        (s : InboundState D P)
      → All (EmitsOnly IsNumber) signals
      → OnSome IsNumber (last_of (named_by context token s))
      → All
          (AboveLast lt (last_of (named_by context token s)))
          (passed_progress le context token signals s)
        × Ascending lt (passed_progress le context token signals s)
  passed-Ascending le IsNumber lt decides trans context token signals s numbers last =
      Rising-Ascending le IsNumber lt decides trans (last_of (named_by context token s))
        (passed_progress le context token signals s) (passed-Rising le context token signals s) last
        (passed-All IsNumber le context token signals s numbers)

  emit-marked :
      (le : D → D → Bool) (context : RequestContext) (token : RequestId) (p : D)
      (s : InboundState D P)
      → is_marked (named_by context token s) ≡ true
      → emit_progress le context token p s ≡ (s, false)
  unfolding emit_progress
  emit-marked le context token p s marked =
      elim (Option-cases (find_at (sender_key context) token s.ids_by_progress_token)) [
        | inl e ↦ rw (e, emit_progress) refl
        | inr (id, e) ↦ elim (Option-cases (find_at (sender_key context) id s.requests)) [
          | inl f ↦ rw (e, emit_progress, f) refl
          | inr (q, f) ↦
              let c : q.cancelled ≡ true = rw (e, f) at marked in rw (e, emit_progress, f, c) refl
        ]
      ]

  cancel-marked :
      (context : RequestContext) (token id : RequestId) (s : InboundState D P)
      → is_marked (named_by context token s) ≡ true
      → is_marked (named_by context token (cancel_inbound_request context id s)) ≡ true
  unfolding cancel_inbound_request
  cancel-marked context token id s marked =
      elim (Option-cases (find_at (sender_key context) id s.requests)) [
        | inl e ↦ rw (e, cancel_inbound_request) marked
        | inr (q, e) ↦ elim (Bool-cases (cancellable q)) [
          | inl may ↦
              rw (e, may, cancel_inbound_request)
                (marked-put (sender_key context) id
                  (find_at (sender_key context) token s.ids_by_progress_token) q s.requests marked)
          | inr may_not ↦ rw (e, may_not, cancel_inbound_request) marked
        ]
      ]

  marked-silent :
      (le : D → D → Bool) (context : RequestContext) (token : RequestId) (signals : List (Signal D))
      (s : InboundState D P)
      → is_marked (named_by context token s) ≡ true
      → passed_progress le context token signals s ≡ []
  unfolding passed_progress
  marked-silent le context token [] s m = refl
  marked-silent le context token (emits p ∷ signals) s m =
      rw (passed_progress, emit-marked le context token p s m)
        (marked-silent le context token signals s m)
  marked-silent le context token (cancels id ∷ signals) s m =
      marked-silent le context token signals (cancel_inbound_request context id s)
        (cancel-marked context token id s m)

  -- No value for a token passes the locked section of `emitProgress` after its request is cancelled, if
  -- that is one that may be, whatever else is emitted and cancelled, so no later emission is sent.
  pub sent-cancelled :
      (le : D → D → Bool) (context : RequestContext) (token id : RequestId) (q : InboundRequest D)
      (signals : List (Signal D)) (s : InboundState D P)
      → find_at (sender_key context) token s.ids_by_progress_token ≡ some id
      → find_at (sender_key context) id s.requests ≡ some q
      → cancellable q ≡ true
      → passed_progress le context token (cancels id ∷ signals) s ≡ []
  unfolding passed_progress cancel_inbound_request
  sent-cancelled le context token id q signals s named held may =
      marked-silent le context token signals (cancel_inbound_request context id s) (
        rw
          (
            held,
            may,
            cancel_inbound_request,
            named,
            find_at-put_at_same (sender_key context) id (record q { cancelled = true }) s.requests,
          )
          refl)
