-- ===== src/Http/Streams.antt =====
-- The event streams of src/transport/http/server.cpp: what a stream retains and what it replays after a
-- `Last-Event-ID`. Texts are bytes. M is the type of JSON-RPC messages and `serialize_message` writes
-- one; times are readings of the steady clock.
pub mod Retained
pub mod Replay
pub mod Resume
use Prim.Native.Nat.{◌-◌}
use cpp_mcp_sdk.Base.{
  ℕ, ◌+◌, ◌%◌, ◌^◌, Bool, true, false, not, ◌&&◌, ◌||◌, Option, none, some, List, [], ◌∷◌, ◌++◌,
  length, drop, if◌then◌else◌, ◌==◌, ltb, leb,
}
use cpp_mcp_sdk.Http.EventId.{make_event_id, parse_event_id, EventIdCursor}
use cpp_mcp_sdk.Http.Events.{Event}
use cpp_mcp_sdk.Http.Headers.{bytes_eq}

pub data StreamKind : Type 0 where
  get post : StreamKind

pub record StreamEventRecord : Type 0 where
  pub cursor : ℕ
  pub event : Event

pub record StreamState : Type 0 where
  pub stream_id : List ℕ
  pub session_id : Option (List ℕ)
  pub kind : StreamKind
  pub next_cursor : ℕ
  pub opened_at : ℕ
  pub terminated : Bool
  pub events : List StreamEventRecord

abbrev pub make_event : List ℕ → List ℕ → Event
make_event id data_ = record {
  event = none;
  id = some id;
  data_ = data_;
  retry_milliseconds = none;
}

unfoldable pub apply_sse_buffer_limit : ℕ → StreamState → StreamState
apply_sse_buffer_limit max_buffered s =
    if max_buffered == 0
    then record s { events = [] }
    else if leb (length s.events) max_buffered
    then s
    else record s { events = drop (length s.events - max_buffered) s.events }

abbrev pub push_event : List ℕ → StreamState → StreamState
push_event data_ s = record s {
  next_cursor = (s.next_cursor + 1) % 2 ^ 64;
  events =
      s.events
      ++ (record {
        cursor = s.next_cursor;
        event = make_event (make_event_id s.stream_id s.next_cursor) data_;
      }
          ∷ []);
}

-- What `appendPrimingEvent` and `appendMessageEvent` do with the data of their event.
unfoldable pub append_event : ℕ → List ℕ → StreamState → StreamState
unfolding apply_sse_buffer_limit
append_event max_buffered data_ s = apply_sse_buffer_limit max_buffered (push_event data_ s)

unfoldable pub replay_from : List StreamEventRecord → ℕ → List Event
replay_from [] cursor = []
replay_from (r ∷ rs) cursor =
    let rest = replay_from rs cursor in if ltb cursor r.cursor then r.event ∷ rest else rest

abbrev pub append_priming_event : ℕ → StreamState → StreamState
append_priming_event max_buffered s = append_event max_buffered [] s

abbrev pub empty_stream : List ℕ → Option (List ℕ) → StreamKind → ℕ → StreamState
empty_stream stream_id session_id kind now = record {
  stream_id = stream_id;
  session_id = session_id;
  kind = kind;
  next_cursor = 1;
  opened_at = now;
  terminated = false;
  events = [];
}

-- A stream as `createStream` fills it in.
abbrev pub new_stream : ℕ → List ℕ → Option (List ℕ) → StreamKind → ℕ → StreamState
new_stream max_buffered stream_id session_id kind now =
    append_priming_event max_buffered (empty_stream stream_id session_id kind now)

-- The limits of a server, the duration in the unit of the clock.
pub record StreamLimits : Type 0 where
  pub max_message_size_bytes : ℕ
  pub max_sse_buffered_messages : ℕ
  pub max_sse_stream_duration : ℕ
  pub default_sse_retry_milliseconds : Option ℕ

module _ {M : Type 0} (serialize_message : M → List ℕ) (limits : StreamLimits) where
  unfoldable pub append_message_event : M → StreamState → StreamState × Bool
  unfolding append_event
  append_message_event message s =
      if ltb limits.max_message_size_bytes (length (serialize_message message))
      then (s, false)
      else (append_event limits.max_sse_buffered_messages (serialize_message message) s, true)

  -- The loop of `emitPendingMessages` over the messages that wait.
  unfoldable pub emit_messages : List M → StreamState → StreamState
  unfolding append_message_event
  emit_messages [] s = s
  emit_messages (m ∷ ms) s = emit_messages ms (append_message_event m s).0

unfoldable pub is_stream_expired : StreamLimits → ℕ → StreamState → Bool
is_stream_expired limits now s =
    if limits.max_sse_stream_duration == 0
    then false
    else ltb limits.max_sse_stream_duration (now - s.opened_at)

abbrev pub make_retry_guidance_event : ℕ → Event
make_retry_guidance_event milliseconds = record {
  event = none;
  id = none;
  data_ = [];
  retry_milliseconds = some milliseconds;
}

abbrev pub same_session : Option (List ℕ) → Option (List ℕ) → Bool
same_session none none = true
same_session none (some b) = false
same_session (some a) none = false
same_session (some a) (some b) = bytes_eq a b

abbrev pub retry_guidance : Option ℕ → List Event
retry_guidance none = []
retry_guidance (some milliseconds) = make_retry_guidance_event milliseconds ∷ []

-- What a GET request with a `Last-Event-ID` is answered: a status 400, 404 or 409, or the events, with
-- whether the stream ends there.
pub data Resumption : Type 0 where
  invalid_event_id no_stream outside_window : Resumption
  resumed : List Event → Bool → Resumption

-- `eventCursor->cursor + 1 < stream.events.front().cursor`, in 64 bits.
unfoldable pub is_outside_window : List StreamEventRecord → ℕ → Bool
is_outside_window [] cursor = false
is_outside_window (r ∷ rs) cursor = ltb ((cursor + 1) % 2 ^ 64) r.cursor

abbrev pub replay_events : StreamLimits → StreamState → ℕ → List Event
replay_events limits s cursor =
    replay_from s.events cursor
    ++ (if s.terminated then [] else retry_guidance limits.default_sse_retry_milliseconds)

-- The end of `handleGet` for a stream that was found.
unfoldable pub resume_stream :
    StreamLimits → ℕ → Option (List ℕ) → ℕ → StreamState → StreamState × Resumption
unfolding is_stream_expired is_outside_window replay_from
resume_stream limits now session_id cursor s =
    if is_stream_expired limits now s
    then (record s { terminated = true }, no_stream)
    else if not (same_session s.session_id session_id)
    then (s, no_stream)
    else if is_outside_window s.events cursor
    then (s, outside_window)
    else (s, resumed (replay_events limits s cursor) s.terminated)

-- `streams`: the streams by their ids.
unfoldable pub find_stream : List ℕ → List StreamState → Option StreamState
find_stream id [] = none
find_stream id (s ∷ ss) = if bytes_eq id s.stream_id then some s else find_stream id ss

unfoldable pub put_stream : StreamState → List StreamState → List StreamState
put_stream s [] = []
put_stream s (t ∷ ts) = if bytes_eq s.stream_id t.stream_id then s ∷ ts else t ∷ put_stream s ts

abbrev pub resume_found :
    StreamLimits
    → ℕ
    → Option (List ℕ)
    → ℕ
    → Option StreamState
    → List StreamState
    → List StreamState × Resumption
resume_found limits now session_id cursor none streams = (streams, no_stream)
resume_found limits now session_id cursor (some s) streams =
    let answer = resume_stream limits now session_id cursor s in
    (put_stream answer.0 streams, answer.1)

abbrev pub resume_at :
    StreamLimits
    → ℕ
    → Option (List ℕ)
    → Option EventIdCursor
    → List StreamState
    → List StreamState × Resumption
resume_at limits now session_id none streams = (streams, invalid_event_id)
resume_at limits now session_id (some at) streams =
    resume_found limits now session_id at.cursor (find_stream at.stream_id streams) streams

-- `handleGet` of a valid and authorized request that has a `Last-Event-ID`.
unfoldable pub resume :
    StreamLimits → ℕ → Option (List ℕ) → List ℕ → List StreamState → List StreamState × Resumption
unfolding parse_event_id find_stream put_stream resume_stream
resume limits now session_id last_event_id streams =
    resume_at limits now session_id (parse_event_id last_event_id) streams

-- `handleDelete` at the streams: those of the session end.
unfoldable pub terminate_streams : Option (List ℕ) → List StreamState → List StreamState
terminate_streams session_id [] = []
terminate_streams session_id (s ∷ ss) =
    (if same_session s.session_id session_id then record s { terminated = true } else s)
    ∷ terminate_streams session_id ss
