-- ===== src/Http/Streams/Resume.antt =====
-- What a resumed stream is answered (src/transport/http/server.cpp).
use Prim.Native.Nat.{◌-◌}
use cpp_mcp_sdk.Base.{
  ℕ, ◌+◌, ◌^◌, ◌<◌, true, false, Option, none, some, List, [], ◌∷◌, ◌++◌, ◌≡◌, refl, sym, ap, ◌∙◌,
  Bool-cases, inl, inr, length, drop, if◌then◌else◌, ltb, arith, drop-nil,
}
use cpp_mcp_sdk.Http.EventId.{parse_event_id}
use cpp_mcp_sdk.Http.Headers.{bytes_eq}
use cpp_mcp_sdk.Http.Streams.{
  StreamKind, StreamState, StreamLimits, resumed, outside_window, new_stream, emit_messages,
  is_stream_expired, same_session, retry_guidance, resume_stream, resume, find_stream, append_event,
  empty_stream,
}
use cpp_mcp_sdk.Http.Streams.Retained.{
  numbered, last_of, texts_within, SameStream, append_event-SameStream, append_event-events,
  append_event-next, numbered-append, emit_messages-SameStream, emit_messages-events,
  SameStream-trans,
}
use cpp_mcp_sdk.Http.Streams.Replay.{events_of, is_outside_window-retained, replay_from-retained}

bytes_eq_refl : (s : List ℕ) → bytes_eq s s ≡ true
unfolding bytes_eq
bytes_eq_refl [] = refl
bytes_eq_refl (c ∷ s) = ground (arith, bytes_eq_refl s)

same_session_refl : (id : Option (List ℕ)) → same_session id id ≡ true
same_session_refl none = refl
same_session_refl (some id) = bytes_eq_refl id

is_stream_expired-SameStream :
    {s t : StreamState} (limits : StreamLimits) (now : ℕ)
    → SameStream s t
    → is_stream_expired limits now t ≡ is_stream_expired limits now s
unfolding is_stream_expired
is_stream_expired-SameStream limits now same = rw same.same_opened_at refl

-- A stream whose events are the last ones of those that were appended for `ds`.
resume_stream-retained :
    (limits : StreamLimits) (now : ℕ) (session_id : Option (List ℕ)) (cursor : ℕ) (id : List ℕ)
    (ds : List (List ℕ)) (s : StreamState)
    → 0 < limits.max_sse_buffered_messages
    → cursor + 1 < 2 ^ 64
    → is_stream_expired limits now s ≡ false
    → same_session s.session_id session_id ≡ true
    → s.terminated ≡ false
    → s.events ≡ last_of limits.max_sse_buffered_messages (numbered id 1 ds)
    → (resume_stream limits now session_id cursor s).1 ≡ (
        if ltb (cursor + limits.max_sse_buffered_messages) (length ds)
        then outside_window
        else resumed
            (events_of (drop cursor (numbered id 1 ds))
              ++ retry_guidance limits.default_sse_retry_milliseconds)
            false)
unfolding resume_stream
resume_stream-retained limits now session_id cursor id ds s some_kept small in_time matched live e =
    let max = limits.max_sse_buffered_messages in
    elim (Bool-cases (ltb (cursor + max) (length ds))) [
      | inl late ↦
          rw
            (
              resume_stream,
              in_time,
              matched,
              e,
              is_outside_window-retained id max cursor ds some_kept small,
              late,
            )
            refl
      | inr inside ↦
          rw
            (
              resume_stream,
              in_time,
              matched,
              e,
              is_outside_window-retained id max cursor ds some_kept small,
              inside,
              live,
              replay_from-retained id max cursor ds inside,
            )
            refl
    ]

module _ {M : Type 0} (serialize_message : M → List ℕ) (limits : StreamLimits) where
  -- The data of a stream that is created and to which messages are appended.
  abbrev pub stream_data : List M → List (List ℕ)
  stream_data ms = [] ∷ texts_within serialize_message limits.max_message_size_bytes ms

  abbrev pub fed : List M → List ℕ → Option (List ℕ) → StreamKind → ℕ → StreamState
  fed ms id session_id kind opened_at =
      emit_messages serialize_message limits ms
        (new_stream limits.max_sse_buffered_messages id session_id kind opened_at)

  pub fed-events :
      (ms : List M) (id : List ℕ) (session_id : Option (List ℕ)) (kind : StreamKind) (opened_at : ℕ)
      → 0 < limits.max_sse_buffered_messages
      → 2 + length ms < 2 ^ 64
      → (fed ms id session_id kind opened_at).events
        ≡ last_of limits.max_sse_buffered_messages (numbered id 1 (stream_data ms))
  fed-events ms id session_id kind opened_at some_kept small =
      let max = limits.max_sse_buffered_messages in
      let s = empty_stream id session_id kind opened_at in
      let t = append_event max [] s in
      let next : t.next_cursor ≡ 2 = append_event-next max [] s in
      let same = append_event-SameStream max [] s in
      let texts = texts_within serialize_message limits.max_message_size_bytes ms in
      emit_messages-events serialize_message limits ms t (numbered id 1 ([] ∷ [])) some_kept
        (omega arith) (append_event-events max [] s [] some_kept (sym (drop-nil (0 - max))))
      ∙ ap (last_of max) (numbered-append s t [] texts [] next same.same_id)

  pub fed-SameStream :
      (ms : List M) (id : List ℕ) (session_id : Option (List ℕ)) (kind : StreamKind) (opened_at : ℕ)
      → SameStream (empty_stream id session_id kind opened_at) (fed ms id session_id kind opened_at)
  fed-SameStream ms id session_id kind opened_at =
      let max = limits.max_sse_buffered_messages in
      let s = empty_stream id session_id kind opened_at in
      SameStream-trans (append_event-SameStream max [] s)
        (emit_messages-SameStream serialize_message limits ms (append_event max [] s))

  -- A client that asks, with the id of an event in `Last-Event-ID`, for a stream that its session has
  -- opened, that is not expired and to which messages were appended, is sent each event of the
  -- stream behind that one, in order, if those are at most as many as the stream retains, and is answered
  -- with a conflict otherwise; messages beyond the size limit have no event, and a stream retains at least
  -- one event.
  pub resume-no_gap :
      (ms : List M) (id : List ℕ) (session_id : Option (List ℕ)) (kind : StreamKind)
      (opened_at now : ℕ) (streams : List StreamState) (last_event_id : List ℕ) (cursor : ℕ)
      → 0 < limits.max_sse_buffered_messages
      → 2 + length ms < 2 ^ 64
      → cursor + 1 < 2 ^ 64
      → parse_event_id last_event_id ≡ some (record { stream_id = id; cursor = cursor })
      → find_stream id streams ≡ some (fed ms id session_id kind opened_at)
      → is_stream_expired limits now (empty_stream id session_id kind opened_at) ≡ false
      → (resume limits now session_id last_event_id streams).1 ≡ (
          if ltb (cursor + limits.max_sse_buffered_messages) (length (stream_data ms))
          then outside_window
          else resumed
              (events_of (drop cursor (numbered id 1 (stream_data ms)))
                ++ retry_guidance limits.default_sse_retry_milliseconds)
              false)
  unfolding resume
  resume-no_gap ms id session_id kind opened_at now streams last_event_id cursor some_kept few small
        parsed found in_time =
      let s = fed ms id session_id kind opened_at in
      let same = fed-SameStream ms id session_id kind opened_at in
      let matched : same_session s.session_id session_id ≡ true =
        ap (λ i. same_session i session_id) (sym same.same_session_id)
        ∙ same_session_refl session_id in
      rw (resume, parsed, found)
        (resume_stream-retained limits now session_id cursor id (stream_data ms) s some_kept small
          (is_stream_expired-SameStream limits now same ∙ in_time) matched
          (sym same.same_terminated) (fed-events ms id session_id kind opened_at some_kept few))
