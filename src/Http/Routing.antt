-- ===== src/Http/Routing.antt =====
-- The streams of all sessions and the messages that wait for one (src/transport/http/server.cpp): the
-- choice of a stream for a message of the server, `enqueueServerMessage`, the opening of a stream by a GET
-- request without `Last-Event-ID`, and the end of a session. M is the type of JSON-RPC messages;
-- the streams stand in the order in which they were created, which `streamOrder` keeps.
pub mod Waiting
pub mod Delivery
use cpp_mcp_sdk.Base.{
  ℕ, suc, ◌+◌, ◌%◌, ◌^◌, Bool, true, false, not, ◌&&◌, ◌||◌, Option, none, some, List, [], ◌∷◌,
  ◌++◌, length, if◌then◌else◌, leb, codes,
}
use cpp_mcp_sdk.Base.Decimal.{decimal}
use cpp_mcp_sdk.Base.Map.{lookup, insert, erase}
use cpp_mcp_sdk.Http.Events.{Event}
use cpp_mcp_sdk.Http.Headers.{bytes_eq}
use cpp_mcp_sdk.Http.Streams.{
  StreamKind, get, post, StreamState, StreamLimits, new_stream, is_stream_expired, same_session,
  emit_messages, append_message_event, put_stream, replay_events, terminate_streams, find_stream,
}

pub record HttpStreams (M : Type 0) : Type 0 where
  pub next_stream_ordinal : ℕ
  pub streams : List StreamState
  pub pending_messages_by_session : List (List ℕ × List M)

abbrev pub session_key : Option (List ℕ) → List ℕ
session_key none = []
session_key (some id) = id

unfoldable pub mark_expired : StreamLimits → ℕ → StreamState → StreamState
unfolding is_stream_expired
mark_expired limits now s =
    if is_stream_expired limits now s then record s { terminated = true } else s

abbrev pub is_kind : StreamKind → StreamKind → Bool
is_kind get get = true
is_kind post post = true
is_kind get post = false
is_kind post get = false

abbrev pub first_of : Option (List ℕ) → List ℕ → Option (List ℕ)
first_of none id = some id
first_of (some other) id = some other

-- `chooseTargetStream`: the streams, of which the expired ones that it met are ended, and the id of the
-- chosen one.
unfoldable pub choose_target_stream :
    StreamLimits
    → ℕ
    → Bool
    → Option (List ℕ)
    → Option (List ℕ)
    → List StreamState
    → List StreamState × Option (List ℕ)
unfolding mark_expired
choose_target_stream limits now to_post session_id fallback [] =
    ([], if to_post then none else fallback)
choose_target_stream limits now to_post session_id fallback (u ∷ us) =
    let s = mark_expired limits now u in
    let on = choose_target_stream limits now to_post session_id fallback us in
    let noted =
      choose_target_stream limits now to_post session_id (first_of fallback s.stream_id) us in
    if s.terminated || not (same_session s.session_id session_id)
    then (s ∷ on.0, on.1)
    else if is_kind s.kind (if to_post then post else get)
    then (s ∷ us, some s.stream_id)
    else if to_post
    then (s ∷ on.0, on.1)
    else (s ∷ noted.0, noted.1)

abbrev pub or_none : {M : Type 0} → Option (List M) → List M
or_none none = []
or_none (some ms) = ms

abbrev pub chosen_stream : Option (List ℕ) → List StreamState → Option StreamState
chosen_stream none ss = none
chosen_stream (some id) ss = find_stream id ss

module _ {M : Type 0} (eqk : Discrete (List ℕ)) where
  abbrev pub waiting : List ℕ → HttpStreams M → List M
  waiting key h = or_none (lookup eqk key h.pending_messages_by_session)

  -- A message that is kept until its session opens a stream, unless as many wait as a stream retains.
  abbrev pub keep_waiting : ℕ → List ℕ → M → HttpStreams M → HttpStreams M × Bool
  keep_waiting max key message h =
      let ms = waiting key h in
      let full = leb max (length ms) in
      (
        record h {
          pending_messages_by_session =
              insert eqk key (if full then ms else ms ++ (message ∷ []))
                h.pending_messages_by_session;
        },
        not full,
      )

  -- `handleDelete` of a session that exists, at its streams and its messages.
  abbrev pub delete_session : List ℕ → HttpStreams M → HttpStreams M
  delete_session session_id h = record h {
    streams = terminate_streams (some session_id) h.streams;
    pending_messages_by_session = erase eqk session_id h.pending_messages_by_session;
  }

module _ {M : Type 0} (is_response_message : M → Bool) (serialize_message : M → List ℕ)
    (limits : StreamLimits) where
  -- The stream after a message; it ends with a response.
  abbrev pub append_to : M → StreamState → StreamState × Bool
  append_to message s =
      let sent = append_message_event serialize_message limits message s in
      if not sent.1
      then (sent.0, false)
      else if is_response_message message && is_kind sent.0.kind post
      then (record sent.0 { terminated = true }, true)
      else (sent.0, true)

module _ {M : Type 0} (eqk : Discrete (List ℕ)) (is_response_message : M → Bool)
    (serialize_message : M → List ℕ) (limits : StreamLimits) where
  abbrev pub enqueue_at : Option StreamState → List ℕ → M → HttpStreams M → HttpStreams M × Bool
  enqueue_at none key message h = keep_waiting eqk limits.max_sse_buffered_messages key message h
  enqueue_at (some s) key message h =
      let sent = append_to is_response_message serialize_message limits message s in
      (record h { streams = put_stream sent.0 h.streams }, sent.1)

  unfoldable pub enqueue_server_message :
      ℕ → Option (List ℕ) → M → HttpStreams M → HttpStreams M × Bool
  unfolding choose_target_stream append_message_event put_stream find_stream
  enqueue_server_message now session_id message h =
      let choice =
        choose_target_stream limits now (is_response_message message) session_id none h.streams in
      enqueue_at (chosen_stream choice.1 choice.0) (session_key session_id) message
        (record h { streams = choice.0 })

module _ {M : Type 0} (eqk : Discrete (List ℕ)) (serialize_message : M → List ℕ)
    (limits : StreamLimits) where
  -- `handleGet` of a valid and authorized request without `Last-Event-ID`: `createStream`,
  -- `emitPendingMessages` and the events that are sent.
  unfoldable pub open_get_stream : ℕ → Option (List ℕ) → HttpStreams M → HttpStreams M × List Event
  unfolding emit_messages
  open_get_stream now session_id h =
      let ordinal = (h.next_stream_ordinal + 1) % 2 ^ 64 in
      let key = session_key session_id in
      let s = emit_messages serialize_message limits (waiting eqk key h) (
        new_stream limits.max_sse_buffered_messages (codes "s" ++ decimal ordinal) session_id get
          now) in
      (
        record {
          next_stream_ordinal = ordinal;
          streams = h.streams ++ (s ∷ []);
          pending_messages_by_session = erase eqk key h.pending_messages_by_session;
        },
        replay_events limits s 0,
      )
