-- ===== src/Tests/Requests.antt =====
-- Outbound requests of the router on concrete calls.
use Prim.Native.Nat.{◌+◌, ◌≤◌}
use cpp_mcp_sdk.Base.{true, false, none, some, List, [], ◌∷◌, ◌≡◌, refl, String-discrete, length}
use cpp_mcp_sdk.Base.Int.{pos, ℤ-discrete}
use cpp_mcp_sdk.Base.Map.{lookup}
use cpp_mcp_sdk.Jsonrpc.Messages.{
  RequestId, RequestId-discrete, RequestContext, Request, Response, integer, success,
}
use cpp_mcp_sdk.Jsonrpc.Cancellation.{extract_create_task_result_task_id, make_tasks_cancel_request}
use cpp_mcp_sdk.Jsonrpc.Router.{
  InFlightRequest, Router, new_router, find_request, response_id, request_message, cancel_id,
}
use cpp_mcp_sdk.Jsonrpc.Router.Ops.{
  awaits_task, dispatch_response, handle_request_timeout, expire_request, note_task_cancellation,
}
use cpp_mcp_sdk.Jsonrpc.Router.Outbound.{
  Call, sends, times_out, notes, responds, drops, shuts_down, run, answers, is_in_flight,
  was_accepted, run-answers,
}
use cpp_mcp_sdk.Jsonrpc.Router.Limits.{run-length_in_flight}
use cpp_mcp_sdk.Jsonrpc.Router.Timeouts.{dispatch_response-late, dispatch_response-between}
use cpp_mcp_sdk.Tests.Sample.{Json, str, no_entries, entry, sample_api, has_key, value_at}
use cpp_mcp_sdk.Base.Map.{insert}
use cpp_mcp_sdk.Jsonrpc.Messages.{text}
use cpp_mcp_sdk.Jsonrpc.Cancellation.{extract_progress_token, json_to_request_id}
use cpp_mcp_sdk.Jsonrpc.Router.{is_member, add_in_flight_request}
use cpp_mcp_sdk.Jsonrpc.Router.Ops.{begin_send_request}
use cpp_mcp_sdk.Jsonrpc.Router.Outbound.{step}
use cpp_mcp_sdk.Jsonrpc.Router.Tokens.{find_token, run-find_token}

abbrev peer : RequestContext
peer = record { protocol_version = "2025-11-25"; session_id = some "s1"; auth_context = none }

abbrev one : RequestId
one = integer (pos 1)

abbrev task_call : Request Json
task_call = record {
  id = one;
  method = "tools/call";
  params = some (entry "task" no_entries no_entries);
}

abbrev created_task : Response Json
created_task =
    success
      (record { id = one; result = entry "task" (entry "taskId" (str "t9") no_entries) no_entries })

abbrev calls : List (Call Json)
calls =
    sends peer task_call true
    ∷ sends peer task_call true
    ∷ times_out one
    ∷ notes one peer
    ∷ responds created_task
    ∷ drops one created_task
    ∷ shuts_down
    ∷ []

run-answers_example :
    answers one (run sample_api (new_router 4) calls).1
      + is_in_flight one (run sample_api (new_router 4) calls).0
    ≡ was_accepted one (run sample_api (new_router 4) calls).0
run-answers_example = run-answers sample_api 4 calls one

run-length_in_flight_example : length (run sample_api (new_router 4) calls).0.in_flight_requests ≤ 4
run-length_in_flight_example = run-length_in_flight sample_api 4 calls

abbrev waiting : InFlightRequest Json
waiting = record {
  context = peer;
  request = task_call;
  cancel_on_timeout = true;
  progress_token = none;
  task_augmented = true;
  task_id = none;
}

abbrev router_waiting : Router Json
router_waiting = record (new_router {J = Json} 4) {
  seen_outbound_request_ids = one ∷ [];
  in_flight_requests = (one, waiting) ∷ [];
}

router_waiting-find : find_request one router_waiting ≡ some waiting
unfolding lookup RequestId-discrete ℤ-discrete
router_waiting-find = refl

waiting-awaits : awaits_task sample_api waiting ≡ true
unfolding awaits_task String-discrete
waiting-awaits = refl

created_task-id : response_id created_task ≡ some one
unfolding response_id
created_task-id = refl

created_task-names : extract_create_task_result_task_id sample_api created_task ≡ some "t9"
unfolding extract_create_task_result_task_id has_key value_at String-discrete
created_task-names = refl

dispatch_response-late_example :
    let late =
      dispatch_response sample_api created_task
        (handle_request_timeout sample_api one router_waiting).0 in
    (late.1 ≡ false)
    × (late.2.settled ≡ [])
    × (late.2.sent
        ≡ (peer, request_message (make_tasks_cancel_request sample_api (cancel_id one) "t9")) ∷ [])
dispatch_response-late_example =
    dispatch_response-late sample_api one router_waiting waiting created_task "t9"
      router_waiting-find waiting-awaits created_task-id created_task-names

router_waiting-unnoted :
    lookup RequestId-discrete one router_waiting.pending_task_cancellation ≡ none
unfolding lookup
router_waiting-unnoted = refl

dispatch_response-between_example :
    let early =
      dispatch_response sample_api created_task (expire_request sample_api one router_waiting).0 in
    let last =
      dispatch_response sample_api created_task (note_task_cancellation one peer early.0) in
    (early.2.sent ≡ [])
    × (last.2.sent ≡ [])
    × (lookup RequestId-discrete one last.0.pending_task_cancellation ≡ some peer)
dispatch_response-between_example =
    dispatch_response-between sample_api one router_waiting waiting created_task created_task
      router_waiting-find created_task-id created_task-id router_waiting-unnoted

abbrev token_call : Request Json
token_call = record {
  id = one;
  method = "tools/call";
  params = some (entry "_meta" (entry "progressToken" (str "p") no_entries) no_entries);
}

abbrev token_calls : List (Call Json)
token_calls = sends peer token_call true ∷ []

token_calls-token : find_token (text "p") (run sample_api (new_router 4) token_calls).0 ≡ some one
unfolding run step begin_send_request add_in_flight_request is_member lookup insert
    extract_progress_token json_to_request_id has_key value_at String-discrete RequestId-discrete
    ℤ-discrete
token_calls-token = refl

run-find_token_example :
    (q : InFlightRequest Json) × (find_request one (run sample_api (new_router 4) token_calls).0
      ≡ some q)
    × (q.progress_token ≡ some (text "p"))
run-find_token_example = run-find_token sample_api 4 token_calls (text "p") one token_calls-token
