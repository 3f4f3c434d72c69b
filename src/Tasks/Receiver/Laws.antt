-- ===== src/Tasks/Receiver/Laws.antt =====
-- What the answers to task requests disclose, and what a cancellation leaves behind.
use cpp_mcp_sdk.Base.{
  ℕ, String, false, Option, none, some, List, [], ◌∷◌, ◌≡◌, refl, arith, ◌⊎◌, inl, inr,
  if◌then◌else◌, String-discrete,
}
use cpp_mcp_sdk.Base.Map.{lookup-insert}
use cpp_mcp_sdk.Jsonrpc.Json.{JsonApi}
use cpp_mcp_sdk.Jsonrpc.Messages.{Request, RequestContext, success, JsonRpcError}
use cpp_mcp_sdk.Tasks.Status.{cancelled, is_terminal_task_status}
use cpp_mcp_sdk.Tasks.Status.{finish}
use cpp_mcp_sdk.Tasks.Status.Laws.{valid_of_Transition}
use cpp_mcp_sdk.Tasks.Store.{
  StoredTask, Store, TaskStoreError, no_error, not_found, access_denied, find_task, put_task,
  check_access, purge_expired_locked,
}
use cpp_mcp_sdk.Tasks.Store.Ops.{fault, found, access, get_task, settle, cancel_task}
use cpp_mcp_sdk.Tasks.Requests.{
  value, parse_task_id_from_request_params, make_invalid_params_response,
  default_cancellation_error, task_to_json,
}
use cpp_mcp_sdk.Tasks.Receiver.{
  TaskReceiver, succeeded, handle_tasks_get_request, handle_tasks_cancel_request, cancel_task_for,
}

-- A task is out of the caller's reach: it is not there, or it belongs to another auth context.
abbrev pub IsHidden : {J : Type 0} → String → Option String → Store J → Type 0
IsHidden {J} id auth s =
    (find_task id s ≡ none)
    ⊎ ((t : StoredTask J) × (find_task id s ≡ some t) × (check_access t auth ≡ false))

abbrev cancel_message : String
cancel_message = "The task was cancelled by request."

module _ {J : Type 0} where
  access_of_hidden :
      (id : String) (auth : Option String) (s : Store J)
      → IsHidden id auth s
      → (e : TaskStoreError) × (access id auth s ≡ fault e) × (succeeded e ≡ false)
  unfolding access
  access_of_hidden id auth s (inl gone) = (not_found, ground arith, refl)
  access_of_hidden id auth s (inr (t, held, refused)) = (access_denied, ground arith, refl)

module _ {J : Type 0} (api : JsonApi J) (iso : ℕ → String) (of_bytes : List ℕ → J) where
  -- `tasks/get` answers alike for a task that is not there and for a task of another auth context,
  -- so the answer does not tell whether such a task exists.
  pub handle_tasks_get_request-hidden :
      (now : ℕ) (r : TaskReceiver J) (context : RequestContext) (request : Request J) (id : String)
      → parse_task_id_from_request_params api request ≡ value id
      → IsHidden id context.auth_context (purge_expired_locked now r.store)
      → (handle_tasks_get_request api iso of_bytes now r context request).1
        ≡ make_invalid_params_response request.id "Failed to retrieve task: Task not found"
  unfolding handle_tasks_get_request get_task
  handle_tasks_get_request-hidden now r context request id parsed hidden =
      let (e, q, failed) =
        access_of_hidden id context.auth_context (purge_expired_locked now r.store) hidden in
      rw (parsed, handle_tasks_get_request) (rw (q, get_task) (rw failed))

  cancelled_entry : ℕ → Option String → JsonRpcError J → StoredTask J → StoredTask J
  cancelled_entry later message e t = record t {
    task = record (t.task) {
      status = cancelled;
      status_message = message;
      last_updated_at = iso later;
    };
    result = none;
    error_payload = some e;
  }

  cancel_task-eq :
      (now later : ℕ) (id : String) (message : Option String) (e : JsonRpcError J)
      (auth : Option String) (s : Store J) (t : StoredTask J)
      → access id auth (purge_expired_locked now s) ≡ found t
      → is_terminal_task_status t.task.status ≡ false
      → cancel_task iso now later id message e auth s ≡ (
        put_task id (cancelled_entry later message e t) (purge_expired_locked now s),
        record {
          error = no_error;
          error_message = none;
          task = (cancelled_entry later message e t).task;
        },
      )
  unfolding cancel_task settle cancelled_entry is_terminal_task_status
  cancel_task-eq now later id message e auth s t q active =
      rw (q, active, valid_of_Transition (finish t.task.status cancelled active refl), settle)

  -- `tasks/cancel` for a task that the caller may access and that is not terminal is answered with
  -- success; it leaves the task cancelled, with its owner and no result, and tells the observer, if
  -- there is one, of that one change.
  pub handle_tasks_cancel_request-success :
      (now later : ℕ) (r : TaskReceiver J) (context : RequestContext) (request : Request J)
      (id : String) (t : StoredTask J)
      → parse_task_id_from_request_params api request ≡ value id
      → access id context.auth_context (purge_expired_locked now r.store) ≡ found t
      → is_terminal_task_status t.task.status ≡ false
      → let out = handle_tasks_cancel_request api iso of_bytes now later r context request in
        (u : StoredTask J) × (find_task id (out.0).store ≡ some u)
        × (u.task.status ≡ cancelled)
        × (u.auth_context ≡ t.auth_context)
        × (u.result ≡ none)
        × (out.1 ≡ success (record { id = request.id; result = task_to_json api u.task }))
        × (out.2 ≡ (if r.has_observer then (context, u.task) ∷ [] else []))
  unfolding handle_tasks_cancel_request cancel_task_for cancelled_entry find_task put_task
  handle_tasks_cancel_request-success now later r context request id t parsed q active =
      let e = default_cancellation_error (some cancel_message) in
      let u = cancelled_entry later (some cancel_message) e t in
      let done =
        cancel_task-eq now later id (some cancel_message) e context.auth_context r.store t q
          active in
      (
        u,
        rw (parsed, handle_tasks_cancel_request)
            (rw (done, cancel_task_for)
              (ground (
                arith,
                lookup-insert String-discrete id id u (purge_expired_locked now r.store).tasks,
              ))),
        refl,
        refl,
        refl,
        rw (parsed, handle_tasks_cancel_request) (rw (done, cancel_task_for)),
        rw (parsed, handle_tasks_cancel_request) (rw (done, cancel_task_for) (ground arith)),
      )
