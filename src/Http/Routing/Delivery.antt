-- ===== src/Http/Routing/Delivery.antt =====
-- What becomes of the messages that wait for a stream (src/transport/http/server.cpp).
use Prim.Native.Nat.{◌-◌}
use cpp_mcp_sdk.Base.{
  ℕ, ◌+◌, ◌%◌, ◌^◌, ◌<◌, ◌≤◌, Bool, true, Option, List, [], ◌∷◌, ◌++◌, ◌≡◌, refl, sym, ap, ◌∙◌, map,
  dec_lt, drop, suc, length, if◌then◌else◌, ltb, arith, codes,
}
use cpp_mcp_sdk.Base.Decimal.{decimal}
use cpp_mcp_sdk.Http.EventId.{make_event_id}
use cpp_mcp_sdk.Http.Streams.{make_event, StreamEventRecord, StreamLimits, retry_guidance, get}
use cpp_mcp_sdk.Http.Streams.Retained.{last_of, numbered, texts_within, length-numbered}
use cpp_mcp_sdk.Http.Streams.Replay.{events_of, replay_from-first}
use cpp_mcp_sdk.Http.Streams.Resume.{stream_data, fed-events, fed-SameStream}
use cpp_mcp_sdk.Http.Routing.{HttpStreams, session_key, waiting, open_get_stream}
use cpp_mcp_sdk.Http.Routing.Waiting.{no_stream_of, enqueue_all, enqueue_all-waiting}

-- The id of the next stream.
abbrev pub next_stream_id : {M : Type 0} → HttpStreams M → List ℕ
next_stream_id h = codes "s" ++ decimal ((h.next_stream_ordinal + 1) % 2 ^ 64)

length-map : {A B : Type 0} (f : A → B) (xs : List A) → length (map f xs) ≡ length xs
length-map f [] = refl
length-map f (x ∷ xs) = ap suc (length-map f xs)

texts_within-le :
    {M : Type 0} (write : M → List ℕ) (size : ℕ) (ms : List M)
    → length (texts_within write size ms) ≤ length ms
texts_within-le write size [] = omega arith
texts_within-le write size (m ∷ ms) = ground (arith, texts_within-le write size ms)

-- Of one event more than are kept, at most the first is dropped.
last_of-cons :
    {A : Type 0} (max n : ℕ) (x : A) (xs : List A)
    → length xs ≡ n
    → n ≤ max
    → last_of max (x ∷ xs) ≡ (if ltb n max then x ∷ xs else xs)
last_of-cons max n x xs count le = elim (dec_lt n max) [
  | yes room ↦ let kept : suc (length xs) - max ≡ 0 = omega arith in ground (arith, kept)
  | no full ↦ let dropped : suc (length xs) - max ≡ 1 = omega arith in ground (arith, dropped)
]

module _ {M : Type 0} (eqk : Discrete (List ℕ)) (serialize_message : M → List ℕ)
    (limits : StreamLimits) where
  open_get_stream-events :
      (now : ℕ) (session_id : Option (List ℕ)) (ms : List M) (h : HttpStreams M)
      → 0 < limits.max_sse_buffered_messages
      → 2 + length ms < 2 ^ 64
      → waiting eqk (session_key session_id) h ≡ ms
      → (open_get_stream eqk serialize_message limits now session_id h).1
        ≡ events_of (
            last_of limits.max_sse_buffered_messages
              (numbered (next_stream_id h) 1 (stream_data serialize_message limits ms)))
          ++ retry_guidance limits.default_sse_retry_milliseconds
  unfolding open_get_stream
  open_get_stream-events now session_id ms h some_kept few wait =
      let id = next_stream_id h in
      let same = fed-SameStream serialize_message limits ms id session_id get now in
      rw
        (
          open_get_stream,
          wait,
          fed-events serialize_message limits ms id session_id get now some_kept few,
          sym same.same_terminated,
          replay_from-first id limits.max_sse_buffered_messages
              (stream_data serialize_message limits ms),
        )
        refl

module _ {M : Type 0} (eqk : Discrete (List ℕ)) (is_response_message : M → Bool)
    (serialize_message : M → List ℕ) (limits : StreamLimits) where
  -- If a session has no stream and no message waits for one, and then the server enqueues for it at most
  -- as many messages as a stream retains, the stream that the session opens with a GET request is sent
  -- an event for each of the messages within the size limit, in order, behind the priming event, which
  -- is left out when they are as many as a stream retains, and then the retry guidance, if there
  -- is one; a stream retains at least one event.
  pub open_get_stream-enqueue_all :
      (now : ℕ) (session_id : Option (List ℕ)) (ms : List (ℕ × M)) (h : HttpStreams M)
      → 0 < limits.max_sse_buffered_messages
      → 2 + length ms < 2 ^ 64
      → no_stream_of session_id h.streams ≡ true
      → waiting eqk (session_key session_id) h ≡ []
      → length ms ≤ limits.max_sse_buffered_messages
      → let texts =
          texts_within serialize_message limits.max_message_size_bytes (map (λ call. call.1) ms) in
        let events =
          numbered
            (next_stream_id
              (enqueue_all eqk is_response_message serialize_message limits session_id ms h))
            1
            ([] ∷ texts) in
        (open_get_stream eqk serialize_message limits now session_id
          (enqueue_all eqk is_response_message serialize_message limits session_id ms h)).1
        ≡ events_of
            (if ltb (length texts) limits.max_sse_buffered_messages then events else drop 1 events)
          ++ retry_guidance limits.default_sse_retry_milliseconds
  open_get_stream-enqueue_all now session_id ms h some_kept few others none_wait fit =
      let max = limits.max_sse_buffered_messages in
      let sent = map (λ call. call.1) ms in
      let count : length sent ≡ length ms = length-map (λ call. call.1) ms in
      let texts = texts_within serialize_message limits.max_message_size_bytes sent in
      let bound = texts_within-le serialize_message limits.max_message_size_bytes sent in
      let none_long = ap length none_wait in
      let after = enqueue_all eqk is_response_message serialize_message limits session_id ms h in
      let wait : waiting eqk (session_key session_id) after ≡ sent =
        enqueue_all-waiting eqk is_response_message serialize_message limits session_id ms h others
          (omega arith)
        ∙ ap (λ w. w ++ sent) none_wait in
      let id = next_stream_id after in
      let first : StreamEventRecord = record {
        cursor = 1;
        event = make_event (make_event_id id 1) [];
      } in
      let counted = length-numbered id 2 texts in
      open_get_stream-events eqk serialize_message limits now session_id sent after some_kept
        (omega arith) wait
      ∙ ap (λ rs. events_of rs ++ retry_guidance limits.default_sse_retry_milliseconds)
          (last_of-cons max (length texts) first (numbered id 2 texts) counted (omega arith))
