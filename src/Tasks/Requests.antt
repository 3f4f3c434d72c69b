-- ===== src/Tasks/Requests.antt =====
-- The JSON that task requests and their answers carry (src/util/tasks.cpp, from
-- parseTaskIdFromRequestParams to injectRelatedTaskMetadata).
pub mod Laws
use cpp_mcp_sdk.Base.{
  ℕ, ◌-◌, ◌^◌, String, Bool, true, false, not, ◌&&◌, ◌||◌, Option, none, some, List, [], ◌∷◌,
  if◌then◌else◌, ltb, ◌=ₛ◌, value_or,
}
use cpp_mcp_sdk.Base.Int.{ℤ, pos, is_negative}
use cpp_mcp_sdk.Jsonrpc.Json.{JsonApi, assign_some}
use cpp_mcp_sdk.Jsonrpc.Messages.{
  Request, Response, JsonRpcError, invalid_params, invalid_request, RequestId, error_reply,
  make_json_rpc_error,
}
use cpp_mcp_sdk.Tasks.Status.{to_string}
use cpp_mcp_sdk.Tasks.Store.{
  Task, TaskStoreError, no_error, not_found, access_denied, invalid_transition, terminal_immutable,
  limit_exceeded,
}

-- A value, or the message of an error.
pub data Parsed {ℓ} (A : Type ℓ) : Type ℓ where
  value : A → Parsed A
  complaint : String → Parsed A

unfoldable pub task_store_error_message : TaskStoreError → String
task_store_error_message no_error = "No task store error"
task_store_error_message not_found = "Task not found"
task_store_error_message access_denied = "Task access denied for current auth context"
task_store_error_message invalid_transition = "Task status transition is invalid"
task_store_error_message terminal_immutable = "Task is already in a terminal status"
task_store_error_message limit_exceeded = "Task creation rejected by runtime limits"

pub record TaskAugmentationRequest : Type 0 where
  pub requested : Bool
  pub ttl_provided : Bool
  pub ttl : Option ℤ

-- `TaskAugmentationRequest {}`.
abbrev pub no_augmentation : TaskAugmentationRequest
no_augmentation = record { requested = false; ttl_provided = false; ttl = none }

unfoldable pub with_ttl : Parsed ℤ → Parsed TaskAugmentationRequest
with_ttl (complaint m) = complaint m
with_ttl (value ttl) =
    if is_negative ttl
    then complaint "params.task.ttl must be greater than or equal to zero"
    else value (record { requested = true; ttl_provided = true; ttl = some ttl })

module _ {J : Type 0} where
  abbrev pub make_invalid_params_response : RequestId → String → Response J
  make_invalid_params_response id message = error_reply invalid_params message id

  -- `defaultCancellationError`.
  unfoldable pub default_cancellation_error : Option String → JsonRpcError J
  default_cancellation_error message =
      make_json_rpc_error invalid_request (value_or message "Task cancelled") none

module _ {J : Type 0} (api : JsonApi J) where
  open api use {
    is_object, is_string, is_null, is_int64, is_uint64, contains, member, as_string, as_int64,
    as_uint64, null, object, of_string, of_int64, assign,
  }

  unfoldable pub task_id_of_params : J → Parsed String
  task_id_of_params params =
      if not (contains params "taskId")
        || not (is_string (member params "taskId"))
        || as_string (member params "taskId") =ₛ ""
      then complaint "Request requires non-empty params.taskId"
      else value (as_string (member params "taskId"))

  unfoldable pub parse_task_id_from_request_params : Request J → Parsed String
  unfolding task_id_of_params
  parse_task_id_from_request_params request = elim request.params [
    | none ↦ complaint "Request requires params object with string taskId"
    | some params ↦
        if is_object params
        then task_id_of_params params
        else complaint "Request requires params object with string taskId"
  ]

  -- The value of `params.task.ttl` that is not null.
  unfoldable pub parse_ttl : J → Parsed ℤ
  parse_ttl j =
      if is_int64 j
      then value (as_int64 j)
      else if is_uint64 j
      then (if ltb (2 ^ 63 - 1) (as_uint64 j)
          then complaint "params.task.ttl is out of range"
          else value (pos (as_uint64 j)))
      else complaint "params.task.ttl must be an integer or null"

  unfoldable pub augmentation_of_task : J → Parsed TaskAugmentationRequest
  unfolding parse_ttl with_ttl
  augmentation_of_task task =
      if not (is_object task)
      then complaint "params.task must be an object"
      else if not (contains task "ttl")
      then value (record { requested = true; ttl_provided = false; ttl = none })
      else if is_null (member task "ttl")
      then value (record { requested = true; ttl_provided = true; ttl = none })
      else with_ttl (parse_ttl (member task "ttl"))

  -- With a complaint the function returns `{}` and sets the caller's message.
  unfoldable pub parse_task_augmentation : Option J → Parsed TaskAugmentationRequest
  unfolding augmentation_of_task
  parse_task_augmentation none = value no_augmentation
  parse_task_augmentation (some params) =
      if not (is_object params)
      then complaint "Request params must be an object"
      else if not (contains params "task")
      then value no_augmentation
      else augmentation_of_task (member params "task")

  unfoldable pub ttl_to_json : Option ℤ → J
  ttl_to_json none = null
  ttl_to_json (some ttl) = of_int64 ttl

  unfoldable pub task_to_json : Task → J
  unfolding ttl_to_json
  task_to_json task =
      let j1 =
        assign (assign object "taskId" (of_string task.task_id)) "status"
          (of_string (to_string task.status)) in
      let j2 = assign_some api "statusMessage" of_string task.status_message j1 in
      let j3 =
        assign (assign j2 "createdAt" (of_string task.created_at)) "lastUpdatedAt"
          (of_string task.last_updated_at) in
      assign_some api "pollInterval" of_int64 task.poll_interval
        (assign j3 "ttl" (ttl_to_json task.ttl))

  -- The result of `createTask`; its metadata is left empty by the receiver.
  unfoldable pub create_task_result_to_json : Task → Option J → J
  unfolding task_to_json
  create_task_result_to_json task metadata =
      assign_some api "_meta" (λ m. m) metadata (assign object "task" (task_to_json task))

  -- An object gets an object `_meta`, where it has none, and in it the related task.
  unfoldable pub inject_related_task_metadata : J → String → J
  inject_related_task_metadata result task_id =
      if not (is_object result)
      then result
      else (let meta =
            if not (contains result "_meta") || not (is_object (member result "_meta"))
            then object
            else member result "_meta" in
          assign result "_meta" (
            assign meta "io.modelcontextprotocol/related-task"
              (assign object "taskId" (of_string task_id))))
