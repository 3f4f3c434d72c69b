-- ===== src/Http/Streams/Retained.antt =====
-- What a stream retains (src/transport/http/server.cpp).
use Prim.Native.Nat.{◌-◌}
use cpp_mcp_sdk.Base.{
  ℕ, zero, suc, ◌+◌, ◌%◌, ◌^◌, ◌<◌, List, [], ◌∷◌, ◌++◌, ◌≡◌, refl, sym, ap, ◌∙◌, inl, inr, length,
  drop, length-append, append_assoc, append-nil, if◌then◌else◌, ltb, leb, Bool-cases, arith,
  drop-append_le, drop-drop, length-drop,
}
use cpp_mcp_sdk.Http.EventId.{make_event_id}
use cpp_mcp_sdk.Http.Streams.{
  StreamState, StreamEventRecord, StreamLimits, make_event, push_event, append_event,
  apply_sse_buffer_limit, append_message_event, emit_messages,
}

module _ {ℓ} {A : Type ℓ} where
  -- The end of a list of which at most `max` items are kept.
  abbrev pub last_of : ℕ → List A → List A
  last_of max xs = drop (length xs - max) xs

  pub last_of-append :
      (max : ℕ) (xs ys : List A) → last_of max (last_of max xs ++ ys) ≡ last_of max (xs ++ ys)
  last_of-append max xs ys =
      rw (sym (drop-append_le (length xs - max) xs ys (omega arith)), drop-drop)
        (ap (λ n. drop n (xs ++ ys))
          (omega (arith, length-append xs ys, length-drop (length xs - max) (xs ++ ys))))

-- The events of a stream that were appended for these data, from a cursor on.
abbrev pub numbered : List ℕ → ℕ → List (List ℕ) → List StreamEventRecord
numbered id n [] = []
numbered id n (d ∷ ds) =
    record { cursor = n; event = make_event (make_event_id id n) d } ∷ numbered id (n + 1) ds

pub length-numbered :
    (id : List ℕ) (n : ℕ) (ds : List (List ℕ)) → length (numbered id n ds) ≡ length ds
length-numbered id n [] = refl
length-numbered id n (d ∷ ds) = ap suc (length-numbered id (n + 1) ds)

apply_sse_buffer_limit-events :
    (max : ℕ) (s : StreamState)
    → 0 < max
    → (apply_sse_buffer_limit max s).events ≡ last_of max s.events
unfolding apply_sse_buffer_limit
apply_sse_buffer_limit-events max s some_kept = elim (Bool-cases (leb (length s.events) max)) [
  | inl fits ↦
      let none_dropped : length s.events - max ≡ zero = ground arith in
      ground (arith, none_dropped, fits)
  | inr over ↦ ground (arith, over)
]

pub append_event-events :
    (max : ℕ) (d : List ℕ) (s : StreamState) (all : List StreamEventRecord)
    → 0 < max
    → s.events ≡ last_of max all
    → (append_event max d s).events
      ≡ last_of max (all ++ numbered s.stream_id s.next_cursor (d ∷ []))
unfolding append_event
append_event-events max d s all some_kept e =
    apply_sse_buffer_limit-events max (push_event d s) some_kept
    ∙ (rw e (last_of-append max all (numbered s.stream_id s.next_cursor (d ∷ []))))

-- What the events that are appended leave as it is.
pub record SameStream (s t : StreamState) : Type 0 where
  pub same_id : s.stream_id ≡ t.stream_id
  pub same_session_id : s.session_id ≡ t.session_id
  pub same_opened_at : s.opened_at ≡ t.opened_at
  pub same_terminated : s.terminated ≡ t.terminated

SameStream-refl : (s : StreamState) → SameStream s s
SameStream-refl s = record {
  same_id = refl;
  same_session_id = refl;
  same_opened_at = refl;
  same_terminated = refl;
}

pub SameStream-trans : {s t u : StreamState} → SameStream s t → SameStream t u → SameStream s u
SameStream-trans p q = record {
  same_id = p.same_id ∙ q.same_id;
  same_session_id = p.same_session_id ∙ q.same_session_id;
  same_opened_at = p.same_opened_at ∙ q.same_opened_at;
  same_terminated = p.same_terminated ∙ q.same_terminated;
}

pub append_event-next :
    (max : ℕ) (d : List ℕ) (s : StreamState)
    → (append_event max d s).next_cursor ≡ (s.next_cursor + 1) % 2 ^ 64
unfolding append_event apply_sse_buffer_limit
append_event-next max d s = ground arith

pub append_event-SameStream :
    (max : ℕ) (d : List ℕ) (s : StreamState) → SameStream s (append_event max d s)
unfolding append_event apply_sse_buffer_limit
append_event-SameStream max d s = record {
  same_id = ground arith;
  same_session_id = ground arith;
  same_opened_at = ground arith;
  same_terminated = ground arith;
}

-- The texts of the messages that are within a size.
abbrev pub texts_within : {M : Type 0} → (M → List ℕ) → ℕ → List M → List (List ℕ)
texts_within write size [] = []
texts_within write size (m ∷ ms) =
    let rest = texts_within write size ms in
    if ltb size (length (write m)) then rest else write m ∷ rest

pub numbered-append :
    (s t : StreamState) (d : List ℕ) (ds : List (List ℕ)) (all : List StreamEventRecord)
    → t.next_cursor ≡ s.next_cursor + 1
    → s.stream_id ≡ t.stream_id
    → (all ++ numbered s.stream_id s.next_cursor (d ∷ [])) ++ numbered t.stream_id t.next_cursor ds
      ≡ all ++ numbered s.stream_id s.next_cursor (d ∷ ds)
numbered-append s t d ds all next id =
    rw (next, sym id) (append_assoc all (numbered s.stream_id s.next_cursor (d ∷ [])) _)

module _ {M : Type 0} (serialize_message : M → List ℕ) (limits : StreamLimits) where
  pub emit_messages-SameStream :
      (ms : List M) (s : StreamState) → SameStream s (emit_messages serialize_message limits ms s)
  unfolding emit_messages append_message_event
  emit_messages-SameStream [] s = SameStream-refl s
  emit_messages-SameStream (m ∷ ms) s =
      elim (Bool-cases (ltb limits.max_message_size_bytes (length (serialize_message m)))) [
        | inl large ↦ rw (large, append_message_event) (emit_messages-SameStream ms s)
        | inr fits ↦
            let data_ = serialize_message m in
            let max = limits.max_sse_buffered_messages in
            rw (fits, append_message_event)
              (SameStream-trans (append_event-SameStream max data_ s)
                (emit_messages-SameStream ms (append_event max data_ s)))
      ]

  pub emit_messages-events :
      (ms : List M) (s : StreamState) (all : List StreamEventRecord)
      → 0 < limits.max_sse_buffered_messages
      → s.next_cursor + length ms < 2 ^ 64
      → s.events ≡ last_of limits.max_sse_buffered_messages all
      → (emit_messages serialize_message limits ms s).events
        ≡ last_of limits.max_sse_buffered_messages (
            all
            ++ numbered s.stream_id s.next_cursor
                (texts_within serialize_message limits.max_message_size_bytes ms))
  unfolding emit_messages append_message_event
  emit_messages-events [] s all some_kept small e =
      e ∙ ap (last_of limits.max_sse_buffered_messages) (sym (append-nil all))
  emit_messages-events (m ∷ ms) s all some_kept small e =
      elim (Bool-cases (ltb limits.max_message_size_bytes (length (serialize_message m)))) [
        | inl large ↦
            rw (emit_messages, append_message_event, large)
              (emit_messages-events ms s all some_kept (omega arith) e)
        | inr fits ↦
            let data_ = serialize_message m in
            let max = limits.max_sse_buffered_messages in
            let t = append_event max data_ s in
            let same = append_event-SameStream max data_ s in
            let texts = texts_within serialize_message limits.max_message_size_bytes ms in
            let next : t.next_cursor ≡ s.next_cursor + 1 =
              append_event-next max data_ s ∙ (omega arith) in
            let rest =
              emit_messages-events ms t (all ++ numbered s.stream_id s.next_cursor (data_ ∷ []))
                some_kept (omega arith) (append_event-events max data_ s all some_kept e) in
            rw (emit_messages, append_message_event, fits)
              (rest ∙ ap (last_of max) (numbered-append s t data_ texts all next same.same_id))
      ]
