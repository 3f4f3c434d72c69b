-- ===== src/Http/Routing/Waiting.antt =====
-- Which messages wait for a stream (src/transport/http/server.cpp).
use cpp_mcp_sdk.Base.{
  ℕ, ◌+◌, ◌<◌, ◌≤◌, Bool, true, false, not, ◌||◌, Option, none, List, [], ◌∷◌, ◌++◌, ◌≡◌, refl, sym,
  ap, ◌∙◌, map, length-append, length, all, leb, arith, append_assoc, append-nil,
}
use cpp_mcp_sdk.Base.Map.{lookup-insert}
use cpp_mcp_sdk.Http.Streams.{StreamState, StreamLimits, same_session}
use cpp_mcp_sdk.Http.Routing.{
  HttpStreams, session_key, mark_expired, choose_target_stream, waiting, enqueue_server_message,
}

abbrev pub no_stream_of : Option (List ℕ) → List StreamState → Bool
no_stream_of session_id ss = all (λ s. not (same_session s.session_id session_id)) ss

mark_expired-session :
    (limits : StreamLimits) (now : ℕ) (s : StreamState)
    → (mark_expired limits now s).session_id ≡ s.session_id
unfolding mark_expired
mark_expired-session limits now s = ground arith

choose-none :
    (limits : StreamLimits) (now : ℕ) (to_post : Bool) (session_id : Option (List ℕ))
    (ss : List StreamState)
    → no_stream_of session_id ss ≡ true
    → ((choose_target_stream limits now to_post session_id none ss).1 ≡ none)
      × (no_stream_of session_id (choose_target_stream limits now to_post session_id none ss).0
          ≡ true)
unfolding choose_target_stream
choose-none limits now to_post session_id [] others = ground arith
choose-none limits now to_post session_id (u ∷ us) others =
    let session = mark_expired-session limits now u in
    let elsewhere : same_session u.session_id session_id ≡ false = ground arith in
    let t = mark_expired limits now u in
    let skipped : same_session t.session_id session_id ≡ false =
      ap (λ i. same_session i session_id) session ∙ elsewhere in
    let passed : t.terminated || not (same_session t.session_id session_id) ≡ true = ground arith in
    let rest = choose-none limits now to_post session_id us (ground arith) in
    rw (choose_target_stream, passed) (rest.0, rw (skipped, rest.1) refl)

module _ {M : Type 0} (eqk : Discrete (List ℕ)) (is_response_message : M → Bool)
    (serialize_message : M → List ℕ) (limits : StreamLimits) where
  enqueue_server_message-waiting :
      (now : ℕ) (session_id : Option (List ℕ)) (m : M) (h : HttpStreams M)
      → no_stream_of session_id h.streams ≡ true
      → length (waiting eqk (session_key session_id) h) < limits.max_sse_buffered_messages
      → let after =
          (enqueue_server_message eqk is_response_message serialize_message limits now session_id m
            h).0 in
        (no_stream_of session_id after.streams ≡ true)
        × (waiting eqk (session_key session_id) after
            ≡ waiting eqk (session_key session_id) h ++ (m ∷ []))
  unfolding enqueue_server_message
  enqueue_server_message-waiting now session_id m h others room =
      let chosen = choose-none limits now (is_response_message m) session_id h.streams others in
      let not_full : leb limits.max_sse_buffered_messages
            (length (waiting eqk (session_key session_id) h))
          ≡ false =
        ground arith in
      rw (enqueue_server_message, chosen.0)
        (
          chosen.1,
          rw (not_full, lookup-insert eqk (session_key session_id) (session_key session_id))
              (ground arith),
        )

  -- Messages that the server has for a session, each at its time.
  abbrev pub enqueue_all : Option (List ℕ) → List (ℕ × M) → HttpStreams M → HttpStreams M
  enqueue_all session_id [] h = h
  enqueue_all session_id ((now, m) ∷ ms) h =
      enqueue_all session_id ms
        (enqueue_server_message eqk is_response_message serialize_message limits now session_id m
          h).0

  pub enqueue_all-waiting :
      (session_id : Option (List ℕ)) (ms : List (ℕ × M)) (h : HttpStreams M)
      → no_stream_of session_id h.streams ≡ true
      → length (waiting eqk (session_key session_id) h) + length ms
        ≤ limits.max_sse_buffered_messages
      → waiting eqk (session_key session_id) (enqueue_all session_id ms h)
        ≡ waiting eqk (session_key session_id) h ++ map (λ call. call.1) ms
  enqueue_all-waiting session_id [] h others room =
      sym (append-nil (waiting eqk (session_key session_id) h))
  enqueue_all-waiting session_id ((now, m) ∷ ms) h others room =
      let key = session_key session_id in
      let after =
        (enqueue_server_message eqk is_response_message serialize_message limits now session_id m
          h).0 in
      let step = enqueue_server_message-waiting now session_id m h others (omega arith) in
      let longer = ap length step.1 ∙ length-append (waiting eqk key h) (m ∷ []) in
      enqueue_all-waiting session_id ms after step.0 (omega arith)
      ∙ (rw step.1 (append_assoc (waiting eqk key h) (m ∷ []) (map (λ call. call.1) ms)))
