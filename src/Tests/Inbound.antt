-- ===== src/Tests/Inbound.antt =====
-- Inbound requests of the router on concrete calls.
use Prim.Native.Nat.{◌≤◌}
use cpp_mcp_sdk.Jsonrpc.Inbound.Ascending.{AboveLast, Ascending}
use cpp_mcp_sdk.Base.{
  All, ◌<◌, arith, ℕ, true, false, none, some, List, [], ◌∷◌, ◌≡◌, refl, String-discrete, leb,
  is_some, ◌=ₛ◌,
}
use cpp_mcp_sdk.Base.Int.{pos, ℤ-discrete}
use cpp_mcp_sdk.Base.Map.{lookup, insert, erase}
use cpp_mcp_sdk.Base.Nested.{total, find_in, put_in, erase_in, drop_in}
use cpp_mcp_sdk.Jsonrpc.Messages.{
  RequestId, RequestId-discrete, RequestContext, Request, integer, text, invalid_request,
  error_reply,
}
use cpp_mcp_sdk.Jsonrpc.Cancellation.{
  extract_progress_token, json_to_request_id, is_task_augmented_request,
}
use cpp_mcp_sdk.Jsonrpc.Inbound.{
  InboundRequest, InboundState, sender_key, find_at, admit_request, register_progress_token,
  mark_inbound_request_active, cancel_inbound_request, emit_progress,
}
use cpp_mcp_sdk.Jsonrpc.Inbound.Steps.{
  Dispatching, InboundCall, admit, activate, cancel, emit, new_dispatching, inbound_step,
  inbound_run, admit_step, activate_step,
}
use cpp_mcp_sdk.Jsonrpc.Inbound.Limits.{in_flight-within}
use cpp_mcp_sdk.Jsonrpc.Inbound.Promises.{promise-held}
use cpp_mcp_sdk.Jsonrpc.Inbound.Tokens.{token_of, token_unique}
use cpp_mcp_sdk.Jsonrpc.Inbound.Cancelling.{cancelled-may_be}
use cpp_mcp_sdk.Jsonrpc.Inbound.Admission.{id-used_once}
use cpp_mcp_sdk.Jsonrpc.Inbound.Progress.{
  Signal, emits, cancels, named_by, last_of, passed_progress, passed-Ascending, sent-cancelled,
}
use cpp_mcp_sdk.Tests.Sample.{Json, str, no_entries, entry, sample_api, has_key, value_at}

abbrev peer : RequestContext
peer = record { protocol_version = "2025-11-25"; session_id = some "s1"; auth_context = none }

abbrev one : RequestId
one = integer (pos 1)

abbrev token : RequestId
token = text "t"

abbrev call : Request Json
call = record {
  id = one;
  method = "tools/call";
  params = some (entry "_meta" (entry "progressToken" (str "t") no_entries) no_entries);
}

abbrev calls : List (InboundCall ℕ ℕ Json)
calls =
    admit peer call
    ∷ activate peer call 7
    ∷ admit peer call
    ∷ emit peer token 3
    ∷ cancel peer one
    ∷ []

abbrev marked : InboundRequest ℕ
marked = record {
  method = "tools/call";
  task_augmented = false;
  progress_token = some token;
  last_emitted_progress = some 3;
  cancelled = true;
}

abbrev start : Dispatching ℕ ℕ
start = new_dispatching 2 ("tools/call" ∷ [])

abbrev finish : Dispatching ℕ ℕ
finish = inbound_run sample_api leb start calls

in_flight-within_example : total finish.router.inbound.requests ≤ 2
in_flight-within_example = in_flight-within sample_api leb 2 ("tools/call" ∷ []) calls

promise-held_example :
    is_some (find_at "s1" one finish.router.inbound.promises)
    ≡ is_some (find_at "s1" one finish.router.inbound.requests)
promise-held_example = promise-held sample_api leb 2 ("tools/call" ∷ []) calls "s1" one

held_by_run : find_at "s1" one finish.router.inbound.requests ≡ some marked
unfolding inbound_run inbound_step admit_step activate_step admit_request
    mark_inbound_request_active register_progress_token cancel_inbound_request emit_progress
    sender_key extract_progress_token json_to_request_id is_task_augmented_request find_in put_in
    erase_in drop_in lookup insert erase total String-discrete RequestId-discrete ℤ-discrete has_key
    value_at
held_by_run = refl

cancelled-may_be_example :
    ((marked.method =ₛ "initialize") ≡ false) × (marked.task_augmented ≡ false)
cancelled-may_be_example =
    cancelled-may_be sample_api leb 2 ("tools/call" ∷ []) calls "s1" one marked held_by_run refl

carried : token_of (find_at "s1" one finish.router.inbound.requests) ≡ some token
unfolding inbound_run inbound_step admit_step activate_step admit_request
    mark_inbound_request_active register_progress_token cancel_inbound_request emit_progress
    sender_key extract_progress_token json_to_request_id is_task_augmented_request find_in put_in
    erase_in drop_in lookup insert erase total String-discrete RequestId-discrete ℤ-discrete has_key
    value_at
carried = refl

token_unique_example : one ≡ one
token_unique_example =
    token_unique sample_api leb 2 ("tools/call" ∷ []) calls "s1" token one one carried carried

id-used_once_example :
    (admit_request peer call
      (inbound_run sample_api leb (admit_step peer call start) calls).router).1
    ≡ some (error_reply invalid_request "Duplicate request id for sender within session." one)
id-used_once_example = id-used_once sample_api leb peer peer call call start calls refl refl

abbrev running : InboundState ℕ ℕ
running =
    (inbound_run sample_api leb start (admit peer call ∷ activate peer call 7 ∷ [])).router.inbound

abbrev signals : List (Signal ℕ)
signals = emits 3 ∷ emits 2 ∷ emits 5 ∷ cancels one ∷ emits 9 ∷ []

passed-Ascending_example :
    All
      (AboveLast ◌<◌ (last_of (named_by peer token running)))
      (passed_progress leb peer token signals running)
    × Ascending ◌<◌ (passed_progress leb peer token signals running)
unfolding inbound_run inbound_step admit_step activate_step admit_request
    mark_inbound_request_active register_progress_token cancel_inbound_request emit_progress
    sender_key extract_progress_token json_to_request_id is_task_augmented_request find_in put_in
    erase_in drop_in lookup insert erase total String-discrete RequestId-discrete ℤ-discrete has_key
    value_at
passed-Ascending_example =
    passed-Ascending leb (λ n. n ≡ n) ◌<◌ (λ a b n m h. ground arith)
      (λ a b c below above. omega arith) peer token signals running
      (refl, (refl, (refl, (tt, (refl, tt))))) tt

named : find_at "s1" token running.ids_by_progress_token ≡ some one
unfolding inbound_run inbound_step admit_step activate_step admit_request
    mark_inbound_request_active register_progress_token cancel_inbound_request emit_progress
    sender_key extract_progress_token json_to_request_id is_task_augmented_request find_in put_in
    erase_in drop_in lookup insert erase total String-discrete RequestId-discrete ℤ-discrete has_key
    value_at
named = refl

abbrev fresh : InboundRequest ℕ
fresh = record marked { last_emitted_progress = none; cancelled = false }

held : find_at "s1" one running.requests ≡ some fresh
unfolding inbound_run inbound_step admit_step activate_step admit_request
    mark_inbound_request_active register_progress_token cancel_inbound_request emit_progress
    sender_key extract_progress_token json_to_request_id is_task_augmented_request find_in put_in
    erase_in drop_in lookup insert erase total String-discrete RequestId-discrete ℤ-discrete has_key
    value_at
held = refl

sent-cancelled_example : passed_progress leb peer token (cancels one ∷ signals) running ≡ []
unfolding sender_key String-discrete
sent-cancelled_example = sent-cancelled leb peer token one fresh signals running named held refl
