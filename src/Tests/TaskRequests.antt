-- ===== src/Tests/TaskRequests.antt =====
-- Task requests and their answers on concrete messages.
use Prim.Native.Nat.{ℕ}
use cpp_mcp_sdk.Base.{
  String, true, false, none, some, List, [], ◌∷◌, ◌≡◌, refl, String-discrete, inr, if◌then◌else◌,
}
use cpp_mcp_sdk.Base.Int.{pos}
use cpp_mcp_sdk.Base.Map.{lookup, retain}
use cpp_mcp_sdk.Jsonrpc.Messages.{Request, RequestContext, integer, success}
use cpp_mcp_sdk.Tasks.Status.{cancelled, working, is_terminal_task_status}
use cpp_mcp_sdk.Tasks.Store.{StoredTask, find_task, is_expired, check_access, purge_expired_locked}
use cpp_mcp_sdk.Tasks.Store.Ops.{found, access}
use cpp_mcp_sdk.Tasks.Requests.{
  value, TaskAugmentationRequest, parse_task_augmentation, parse_ttl, augmentation_of_task,
  parse_task_id_from_request_params, task_id_of_params, make_invalid_params_response, task_to_json,
}
use cpp_mcp_sdk.Tasks.Receiver.{TaskReceiver, handle_tasks_get_request, handle_tasks_cancel_request}
use cpp_mcp_sdk.Tasks.Receiver.Laws.{
  IsHidden, handle_tasks_get_request-hidden, handle_tasks_cancel_request-success,
}
use cpp_mcp_sdk.Tests.Sample.{Json, str, number, no_entries, entry, sample_api, has_key, value_at}

abbrev stamp : ℕ → String
stamp now = "2025-11-25T00:00:00.000Z"

-- A cursor, of which these messages have none.
abbrev cursor_text : List ℕ → Json
cursor_text bytes = str ""

abbrev asked_params : Json
asked_params = entry "task" (entry "ttl" (number (pos 500)) no_entries) no_entries

abbrev asked : TaskAugmentationRequest
asked = record { requested = true; ttl_provided = true; ttl = some (pos 500) }

asked-parsed : parse_task_augmentation sample_api (some asked_params) ≡ value asked
unfolding parse_task_augmentation parse_ttl augmentation_of_task has_key value_at String-discrete
asked-parsed = refl

abbrev ann_task : StoredTask Json
ann_task = record {
  task = record {
    task_id = "t1";
    status = working;
    status_message = none;
    created_at = stamp 0;
    last_updated_at = stamp 0;
    ttl = some (pos 1000);
    poll_interval = none;
  };
  auth_context = some "ann";
  expires_at = some 1000;
  result = none;
  error_payload = none;
  sequence = 1;
}

abbrev receiver : TaskReceiver Json
receiver = record {
  store = record {
    tasks = ("t1", ann_task) ∷ [];
    next_sequence = 2;
    options = record {
      max_task_ttl_milliseconds = pos 60000;
      max_active_tasks_per_auth_context = 2;
    };
  };
  has_observer = true;
  default_poll_interval = none;
  list_page_size = 10;
}

abbrev context_of : String → RequestContext
context_of auth = record {
  protocol_version = "2025-11-25";
  session_id = none;
  auth_context = some auth;
}

abbrev request_of : String → Request Json
request_of method = record {
  id = integer (pos 7);
  method = method;
  params = some (entry "taskId" (str "t1") no_entries);
}

request-parsed :
    (method : String)
    → parse_task_id_from_request_params sample_api (request_of method) ≡ value "t1"
unfolding parse_task_id_from_request_params task_id_of_params has_key value_at String-discrete
request-parsed method = refl

bob-IsHidden : IsHidden "t1" (some "bob") (purge_expired_locked 10 receiver.store)
unfolding find_task lookup String-discrete purge_expired_locked retain is_expired check_access
bob-IsHidden = inr (ann_task, refl, refl)

handle_tasks_get_request-hidden_example :
    (handle_tasks_get_request sample_api stamp cursor_text 10 receiver
      (context_of "bob")
      (request_of "tasks/get")).1
    ≡ make_invalid_params_response (integer (pos 7)) "Failed to retrieve task: Task not found"
handle_tasks_get_request-hidden_example =
    handle_tasks_get_request-hidden sample_api stamp cursor_text 10 receiver (context_of "bob")
      (request_of "tasks/get") "t1" (request-parsed "tasks/get") bob-IsHidden

ann-found : access "t1" (some "ann") (purge_expired_locked 10 receiver.store) ≡ found ann_task
unfolding access find_task lookup String-discrete purge_expired_locked retain is_expired
    check_access
ann-found = refl

ann_task-active : is_terminal_task_status ann_task.task.status ≡ false
unfolding is_terminal_task_status
ann_task-active = refl

handle_tasks_cancel_request-success_example :
    let out =
      handle_tasks_cancel_request sample_api stamp cursor_text 10 11 receiver
        (context_of "ann")
        (request_of "tasks/cancel") in
    (u : StoredTask Json) × (find_task "t1" (out.0).store ≡ some u)
    × (u.task.status ≡ cancelled)
    × (u.auth_context ≡ ann_task.auth_context)
    × (u.result ≡ none)
    × (out.1 ≡ success (record { id = integer (pos 7); result = task_to_json sample_api u.task }))
    × (out.2 ≡ (if true then (context_of "ann", u.task) ∷ [] else []))
handle_tasks_cancel_request-success_example =
    handle_tasks_cancel_request-success sample_api stamp cursor_text 10 11 receiver
      (context_of "ann") (request_of "tasks/cancel") "t1" ann_task (request-parsed "tasks/cancel")
      ann-found ann_task-active
