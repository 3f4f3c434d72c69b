-- ===== src/Jsonrpc/Cancellation.antt =====
-- include/mcp/util/cancellation.hpp, and `extractProgressToken` of include/mcp/util/progress.hpp.
use Prim.Native.Nat.{◌-◌, ◌^◌}
use cpp_mcp_sdk.Base.{String, Bool, false, ◌&&◌, Option, none, some, if◌then◌else◌, leb, ◌=ₛ◌}
use cpp_mcp_sdk.Base.Int.{pos}
use cpp_mcp_sdk.Jsonrpc.Json.{JsonApi, has_object, string_at, assign_some}
use cpp_mcp_sdk.Jsonrpc.Messages.{
  RequestId, integer, text, Request, Notification, Response, success, error,
}

-- A text that is not empty.
abbrev non_empty : Option String → Option String
non_empty none = none
non_empty (some s) = if s =ₛ "" then none else some s

module _ {J : Type 0} (api : JsonApi J) where
  open api use {
    is_object, is_string, is_int64, is_uint64, contains, member, as_string, as_int64, as_uint64,
    object, of_string, of_int64, assign,
  }

  unfoldable pub request_id_to_json : RequestId → J
  request_id_to_json (integer n) = of_int64 n
  request_id_to_json (text s) = of_string s

  unfoldable pub json_to_request_id : J → Option RequestId
  json_to_request_id j =
      if is_string j
      then some (text (as_string j))
      else if is_int64 j
      then some (integer (as_int64 j))
      else if is_uint64 j && leb (as_uint64 j) (2 ^ 63 - 1)
      then some (integer (pos (as_uint64 j)))
      else none

  unfoldable pub make_cancelled_notification : RequestId → Option String → Notification J
  unfolding request_id_to_json
  make_cancelled_notification id reason = record {
    method = "notifications/cancelled";
    params = some (
        assign_some api "reason" of_string reason
          (assign object "requestId" (request_id_to_json id)));
  }

  unfoldable pub is_task_augmented_request : Request J → Bool
  is_task_augmented_request request = elim request.params [
    | none ↦ false
    | some params ↦ is_object params && has_object api params "task"
  ]

  unfoldable pub extract_progress_token : Request J → Option RequestId
  unfolding json_to_request_id
  extract_progress_token request = elim request.params [
    | none ↦ none
    | some params ↦
        if is_object params && contains params "_meta"
        then (let meta = member params "_meta" in
            if is_object meta && contains meta "progressToken"
            then json_to_request_id (member meta "progressToken")
            else none)
        else none
  ]

  -- The id of the task that a result of a task-augmented request names.
  unfoldable pub extract_create_task_result_task_id : Response J → Option String
  extract_create_task_result_task_id (error e) = none
  extract_create_task_result_task_id (success r) =
      if is_object r.result && has_object api r.result "task"
      then non_empty (string_at api (member r.result "task") "taskId")
      else none

  unfoldable pub make_tasks_cancel_request : RequestId → String → Request J
  make_tasks_cancel_request id task_id = record {
    id = id;
    method = "tasks/cancel";
    params = some (assign object "taskId" (of_string task_id));
  }
