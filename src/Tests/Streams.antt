-- ===== src/Tests/Streams.antt =====
-- Streams of the HTTP server.
use cpp_mcp_sdk.Base.{ℕ, false, none, some, List, [], ◌∷◌, ◌≡◌, refl, codes, ℕ_discrete, arith}
use mathlib.Core.List.{List-discrete}
use cpp_mcp_sdk.Base.Map.{lookup}
use cpp_mcp_sdk.Http.Routing.{
  HttpStreams, open_get_stream, enqueue_server_message, choose_target_stream,
}
use cpp_mcp_sdk.Http.Routing.Waiting.{enqueue_all}
use cpp_mcp_sdk.Http.Routing.Delivery.{open_get_stream-enqueue_all}
use cpp_mcp_sdk.Base.Decimal.{decimal, digits_from}
use cpp_mcp_sdk.Http.EventId.{
  make_event_id, parse_event_id, is_visible_ascii, has_colon, parse_parts, split_last, read_cursor,
}
use cpp_mcp_sdk.Http.Headers.{bytes_eq}
use cpp_mcp_sdk.Http.Streams.{
  StreamState, StreamLimits, get, make_event, append_event, apply_sse_buffer_limit, emit_messages,
  append_message_event, find_stream, is_stream_expired, resume, resumed,
}
use cpp_mcp_sdk.Http.Streams.Resume.{fed, resume-no_gap}

-- Two events are retained, and a message has at most three bytes.
abbrev limits : StreamLimits
limits = record {
  max_message_size_bytes = 3;
  max_sse_buffered_messages = 2;
  max_sse_stream_duration = 100;
  default_sse_retry_milliseconds = none;
}

-- The message of four bytes has no event.
abbrev messages : List (List ℕ)
messages = codes "one" ∷ codes "four" ∷ codes "two" ∷ []

abbrev stream : StreamState
stream = fed (λ m. m) limits messages (codes "s1") none get 7

resume-no_gap_example :
    (resume limits 9 none (codes "s1:2") (stream ∷ [])).1
    ≡ resumed (make_event (codes "s1:3") (codes "two") ∷ []) false
unfolding make_event_id parse_event_id is_visible_ascii has_colon parse_parts split_last read_cursor
    decimal digits_from bytes_eq append_event apply_sse_buffer_limit emit_messages
    append_message_event find_stream is_stream_expired
resume-no_gap_example =
    resume-no_gap (λ m. m) limits messages (codes "s1") none get 7 9 (stream ∷ []) (codes "s1:2") 2
      (omega arith) (omega arith) (omega arith) refl refl refl

abbrev no_streams : HttpStreams (List ℕ)
no_streams = record { next_stream_ordinal = 4; streams = []; pending_messages_by_session = [] }

-- The priming event is left out: as many messages have an event as a stream retains.
open_get_stream-enqueue_all_example :
    (open_get_stream
      (List-discrete ℕ_discrete)
      (λ m. m)
      limits
      9
      (some (codes "a"))
      (enqueue_all
        (List-discrete ℕ_discrete)
        (λ m. false)
        (λ m. m)
        limits
        (some (codes "a"))
        ((5, codes "one") ∷ (6, codes "two") ∷ [])
        no_streams)).1
    ≡ make_event (codes "s5:2") (codes "one") ∷ make_event (codes "s5:3") (codes "two") ∷ []
unfolding make_event_id is_visible_ascii has_colon decimal digits_from lookup enqueue_server_message
    choose_target_stream
open_get_stream-enqueue_all_example =
    open_get_stream-enqueue_all (List-discrete ℕ_discrete) (λ m. false) (λ m. m) limits 9
      (some (codes "a")) ((5, codes "one") ∷ (6, codes "two") ∷ []) no_streams (omega arith)
      (omega arith) refl refl (omega arith)
