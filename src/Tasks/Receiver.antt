-- ===== src/Tasks/Receiver.antt =====
-- TaskReceiver of src/util/tasks.cpp over the in-memory store. The status observer is the list of
-- the calls made to it; `api` is the JSON library, `iso` the calendar, `rounds` the waits of
-- `tasks/result`. Cursors are bytes: `of_bytes` makes a JSON string of them.
pub mod Laws
use Prim.Native.String
use cpp_mcp_sdk.Base.{
  ℕ, String, Bool, true, false, not, ◌&&◌, Option, none, some, List, [], ◌∷◌, map, if◌then◌else◌,
  value_or, length, slice, codes,
}
use cpp_mcp_sdk.Base.Int.{ℤ}
use cpp_mcp_sdk.Jsonrpc.Json.{JsonApi}
use cpp_mcp_sdk.Jsonrpc.Messages.{
  Request, RequestContext, Response, success, error, JsonRpcError, internal_error, error_reply,
  make_error_response,
}
use cpp_mcp_sdk.Tasks.Status.{TaskStatus, failed, to_string}
use cpp_mcp_sdk.Tasks.Store.{
  Task, TaskStoreError, no_error, not_found, access_denied, invalid_transition, terminal_immutable,
  limit_exceeded, TaskCreateOptions, TaskRecordResult, TaskTerminalResult, Store,
}
use cpp_mcp_sdk.Tasks.Store.Ops.{
  create_task, get_task, list_tasks, update_task_status, set_task_result, set_task_error,
  cancel_task,
}
use cpp_mcp_sdk.Tasks.Store.History.{Call, wait_for_task_terminal}
use cpp_mcp_sdk.Tasks.Pagination.{PaginationWindow, paginate}
use cpp_mcp_sdk.Tasks.Requests.{
  Parsed, value, complaint, TaskAugmentationRequest, task_store_error_message,
  make_invalid_params_response, default_cancellation_error, parse_task_id_from_request_params,
  task_to_json, inject_related_task_metadata,
}

pub record TaskReceiver (J : Type 0) : Type 0 where
  pub store : Store J
  pub has_observer : Bool
  pub default_poll_interval : Option ℤ
  pub list_page_size : ℕ

-- A call that returns, or throws `std::runtime_error`.
pub data Outcome {ℓ} (A : Type ℓ) : Type ℓ where
  returned : A → Outcome A
  threw : String → Outcome A

-- The calls of the status observer.
abbrev pub Observed : Type 0
Observed = List (RequestContext × Task)

abbrev pub succeeded : TaskStoreError → Bool
succeeded no_error = true
succeeded _ = false

abbrev pub is_terminal_immutable : TaskStoreError → Bool
is_terminal_immutable terminal_immutable = true
is_terminal_immutable _ = false

abbrev pub auth_context_for_request : RequestContext → Option String
auth_context_for_request context = context.auth_context

module _ {J : Type 0} where
  unfoldable pub notify_status_observer :
      TaskReceiver J → RequestContext → TaskRecordResult → Observed
  notify_status_observer r context result =
      if not r.has_observer
      then []
      else if not (succeeded result.error)
      then []
      else (context, result.task) ∷ []

  unfoldable pub set_status_observer : TaskReceiver J → Bool → TaskReceiver J
  set_status_observer r present = record r { has_observer = present }

  -- The receiver, the result and the observer's calls after a change of one task.
  unfoldable pub after_mutation :
      TaskReceiver J
      → RequestContext
      → Store J × TaskRecordResult
      → TaskReceiver J × TaskRecordResult × Observed
  unfolding notify_status_observer
  after_mutation r context (s, result) =
      (record r { store = s }, result, notify_status_observer r context result)

module _ {J : Type 0} (iso : ℕ → String) (now later : ℕ) where
  -- `none`: the store still draws ids.
  unfoldable pub create_task_for :
      TaskReceiver J
      → RequestContext
      → List String
      → TaskAugmentationRequest
      → Option String
      → Option (TaskReceiver J × Outcome Task)
  create_task_for r context draws augmentation message =
      let options : TaskCreateOptions = record {
        ttl = if augmentation.ttl_provided then augmentation.ttl else none;
        poll_interval = r.default_poll_interval;
        status_message = message;
        auth_context = auth_context_for_request context;
      } in
      elim (create_task iso now later draws options r.store) [
        | none ↦ none
        | some (s, result) ↦ some (
          record r { store = s },
          (if succeeded result.error
              then returned result.task
              else threw (value_or result.error_message (task_store_error_message result.error))),
        )
      ]

  unfoldable pub update_task_status_for :
      TaskReceiver J
      → RequestContext
      → String
      → TaskStatus
      → Option String
      → TaskReceiver J × TaskRecordResult × Observed
  unfolding after_mutation
  update_task_status_for r context id status message = after_mutation r context (
      update_task_status iso now later id status message (auth_context_for_request context) r.store)

  unfoldable pub complete_task_with_response :
      TaskReceiver J
      → RequestContext
      → String
      → Response J
      → TaskStatus
      → Option String
      → TaskReceiver J × TaskRecordResult × Observed
  unfolding after_mutation
  complete_task_with_response r context id (success response) status message =
      after_mutation r context (
        set_task_result iso now later id status message response.result
          (auth_context_for_request context) r.store)
  complete_task_with_response r context id (error response) status message =
      after_mutation r context (
        set_task_error iso now later id failed message response.error
          (auth_context_for_request context) r.store)

  unfoldable pub cancel_task_for :
      TaskReceiver J
      → RequestContext
      → String
      → Option String
      → Option (JsonRpcError J)
      → TaskReceiver J × TaskRecordResult × Observed
  unfolding after_mutation default_cancellation_error
  cancel_task_for r context id message cancellation = after_mutation r context (
      cancel_task iso now later id message
        (value_or cancellation (default_cancellation_error message))
        (auth_context_for_request context) r.store)

module _ {J : Type 0} (api : JsonApi J) (iso : ℕ → String) (of_bytes : List ℕ → J) where
  unfoldable pub handle_tasks_get_request :
      ℕ → TaskReceiver J → RequestContext → Request J → TaskReceiver J × Response J
  handle_tasks_get_request now r context request =
      elim (parse_task_id_from_request_params api request) [
        | complaint m ↦ (r, make_invalid_params_response request.id m)
        | value id ↦
            let (s, result) = get_task now id (auth_context_for_request context) r.store in
            (
              record r { store = s },
              (if succeeded result.error
                  then success (record { id = request.id; result = task_to_json api result.task })
                  else make_invalid_params_response request.id
                      "Failed to retrieve task: Task not found"),
            )
      ]

  -- The answer to `tasks/result` for what the store hands out.
  unfoldable pub answer_terminal : Request J → String → TaskTerminalResult J → Response J
  answer_terminal request id result =
      if not (succeeded result.error)
      then make_invalid_params_response request.id "Failed to retrieve task: Task not found"
      else elim result.result [
        | some payload ↦
            success
              (record { id = request.id; result = inject_related_task_metadata api payload id })
        | none ↦ elim result.error_payload [
          | some e ↦ make_error_response e (some request.id)
          | none ↦ error_reply internal_error "Task terminal result is missing payload" request.id
        ]
      ]

  -- `none`: the last of the rounds still waits.
  unfoldable pub handle_tasks_result_request :
      List (List (Call J) × ℕ)
      → TaskReceiver J
      → RequestContext
      → Request J
      → TaskReceiver J × Option (Response J)
  handle_tasks_result_request rounds r context request =
      elim (parse_task_id_from_request_params api request) [
        | complaint m ↦ (r, some (make_invalid_params_response request.id m))
        | value id ↦
            let (s, outcome) =
              wait_for_task_terminal iso rounds id (auth_context_for_request context) r.store in
            (
              record r { store = s },
              elim outcome [ none ↦ none | some result ↦ some (answer_terminal request id result) ],
            )
      ]

  -- The `cursor` of the parameters of `tasks/list`.
  unfoldable pub cursor_of_params : Option J → Parsed (Option (List ℕ))
  cursor_of_params none = value none
  cursor_of_params (some params) =
      if not (api.is_object params)
      then complaint "tasks/list requires params to be an object when provided"
      else if not (api.contains params "cursor")
      then value none
      else if not (api.is_string (api.member params "cursor"))
      then complaint "tasks/list requires params.cursor to be a string"
      else value (some (codes (api.as_string (api.member params "cursor"))))

  unfoldable pub page_to_json : PaginationWindow → List Task → J
  page_to_json w tasks =
      let listed =
        api.assign api.object "tasks"
          (api.array (map (task_to_json api) (slice w.start_index w.end_index tasks))) in
      elim w.next_cursor [ none ↦ listed | some c ↦ api.assign listed "nextCursor" (of_bytes c) ]

  unfoldable pub handle_tasks_list_request :
      ℕ → TaskReceiver J → RequestContext → Request J → TaskReceiver J × Response J
  handle_tasks_list_request now r context request = elim (cursor_of_params request.params) [
    | complaint m ↦ (r, make_invalid_params_response request.id m)
    | value cursor ↦
        let (s, tasks) = list_tasks now (auth_context_for_request context) r.store in
        (
          record r { store = s },
          elim (paginate cursor (length tasks) r.list_page_size) [
            | none ↦ make_invalid_params_response request.id "Invalid tasks/list cursor"
            | some w ↦ success (record { id = request.id; result = page_to_json w tasks })
          ],
        )
  ]

  unfoldable pub handle_tasks_cancel_request :
      ℕ → ℕ → TaskReceiver J → RequestContext → Request J → TaskReceiver J × Response J × Observed
  handle_tasks_cancel_request now later r context request =
      elim (parse_task_id_from_request_params api request) [
        | complaint m ↦ (r, make_invalid_params_response request.id m, [])
        | value id ↦
            let (r', result, seen) =
              cancel_task_for iso now later r context id (some "The task was cancelled by request.")
                none in
            (
              r',
              (if is_terminal_immutable result.error
                  then make_invalid_params_response request.id (
                      String.◌++◌ "Cannot cancel task: already in terminal status '"
                        (String.◌++◌ (to_string result.task.status) "'"))
                  else if not (succeeded result.error)
                  then make_invalid_params_response request.id
                      "Failed to cancel task: Task not found"
                  else success (record { id = request.id; result = task_to_json api result.task })),
              seen,
            )
      ]
