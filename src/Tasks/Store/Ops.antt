-- ===== src/Tasks/Store/Ops.antt =====
-- The operations of InMemoryTaskStore (src/util/tasks.cpp). `now` is the clock when expired tasks
-- are purged, `later` the second reading, and `iso` stands for `toIso8601Utc`, which calls the C
-- library's calendar. `condition.notify_all()` is the re-check in `wait_for_task_terminal`.
use Prim.Native.String
use cpp_mcp_sdk.Base.{
  ℕ, suc, ◌%◌, ◌^◌, String, not, ◌&&◌, ◌||◌, Option, none, some, List, [], ◌∷◌, map, if◌then◌else◌,
  leb, ltb, is_some,
}
use cpp_mcp_sdk.Base.Decimal.{decimal_text}
use cpp_mcp_sdk.Jsonrpc.Messages.{JsonRpcError, internal_error, make_json_rpc_error}
use cpp_mcp_sdk.Tasks.Status.{
  TaskStatus, cancelled, is_terminal_task_status, is_valid_task_status_transition,
}
use cpp_mcp_sdk.Tasks.Store.{
  Task, default_task, TaskStoreError, no_error, not_found, access_denied, invalid_transition,
  terminal_immutable, limit_exceeded, TaskCreateOptions, TaskRecordResult, StoredTask, Store,
  TaskTerminalResult, failure, rejection, accepted, check_access, purge_expired_locked,
  count_active_tasks_for_auth_context, find_task, put_task, fresh_id, ttl_error, new_task,
}

abbrev limit_message : ℕ → String
limit_message n =
    String.◌++◌ "Active task limit reached for auth context (max "
      (String.◌++◌ (decimal_text n) ")")

-- What the look-up and the access check, which every operation on one task begins with, give.
pub data Access (J : Type 0) : Type 0 where
  fault : TaskStoreError → Access J
  found : StoredTask J → Access J

module _ {J : Type 0} where
  unfoldable pub access : String → Option String → Store J → Access J
  access id auth s = elim (find_task id s) [
    | none ↦ fault not_found
    | some t ↦ if check_access t auth then found t else fault access_denied
  ]

  unfoldable pub get_task : ℕ → String → Option String → Store J → Store J × TaskRecordResult
  get_task now id auth s0 =
      let s = purge_expired_locked now s0 in
      elim (access id auth s) [ fault e ↦ (s, failure e none) | found t ↦ (s, accepted t.task) ]

  -- `std::sort` by sequence number.
  unfoldable pub place : StoredTask J → List (StoredTask J) → List (StoredTask J)
  place t [] = t ∷ []
  place t (u ∷ us) = if ltb u.sequence t.sequence then u ∷ place t us else t ∷ u ∷ us

  unfoldable pub sort_by_sequence : List (StoredTask J) → List (StoredTask J)
  unfolding place
  sort_by_sequence [] = []
  sort_by_sequence (t ∷ ts) = place t (sort_by_sequence ts)

  -- The entries that the caller may see, in the map's order.
  unfoldable pub visible : Option String → List (String × StoredTask J) → List (StoredTask J)
  visible auth [] = []
  visible auth ((id, t) ∷ m) = if check_access t auth then t ∷ visible auth m else visible auth m

  unfoldable pub list_tasks : ℕ → Option String → Store J → Store J × List Task
  list_tasks now auth s0 =
      let s = purge_expired_locked now s0 in
      (s, map (λ t. t.task) (sort_by_sequence (visible auth s.tasks)))

  -- One round of the loop of `waitForTaskTerminal`; `none` is a wait on the condition variable.
  unfoldable pub wait_round :
      ℕ → String → Option String → Store J → Store J × Option (TaskTerminalResult J)
  wait_round now id auth s0 =
      let s = purge_expired_locked now s0 in
      elim (access id auth s) [
        | fault e ↦ (
          s,
          some (record { error = e; task = default_task; result = none; error_payload = none }),
        )
        | found t ↦
            if is_terminal_task_status t.task.status
            then (
              s,
              some (record {
                error = no_error;
                task = t.task;
                result = t.result;
                error_payload =
                    if not (is_some t.result) && not (is_some t.error_payload)
                    then some (
                        make_json_rpc_error internal_error
                          "Task reached a terminal state without a stored result payload" none)
                    else t.error_payload;
              }),
            )
            else (s, none)
      ]

module _ {J : Type 0} (iso : ℕ → String) where
  -- `none`: every id drawn was taken, and the loop that draws ids goes on.
  unfoldable pub create_task :
      ℕ → ℕ → List String → TaskCreateOptions → Store J → Option (Store J × TaskRecordResult)
  create_task now later draws o s0 =
      let s = purge_expired_locked now s0 in
      elim (ttl_error s.options o.ttl) [
        | some message ↦ some (s, failure limit_exceeded (some message))
        | none ↦
            if leb s.options.max_active_tasks_per_auth_context
              (count_active_tasks_for_auth_context o.auth_context s)
            then some (
              s,
              failure limit_exceeded
                  (some (limit_message s.options.max_active_tasks_per_auth_context)),
            )
            else elim (fresh_id s draws) [
              | none ↦ none
              | some id ↦
                  let t = new_task iso id o s.next_sequence later in
                  some (
                    record (put_task id t s) { next_sequence = suc s.next_sequence % 2 ^ 64 },
                    accepted t.task,
                  )
            ]
      ]

  unfoldable pub update_task_status :
      ℕ
      → ℕ
      → String
      → TaskStatus
      → Option String
      → Option String
      → Store J
      → Store J × TaskRecordResult
  update_task_status now later id status message auth s0 =
      let s = purge_expired_locked now s0 in
      elim (access id auth s) [
        | fault e ↦ (s, failure e none)
        | found t ↦
            if is_terminal_task_status t.task.status
            then (s, rejection terminal_immutable t.task)
            else if not (is_valid_task_status_transition t.task.status status)
            then (s, rejection invalid_transition t.task)
            else let task' = record (t.task) {
              status = status;
              status_message = message;
              last_updated_at = iso later;
            } in
              (put_task id (record t { task = task' }) s, accepted task')
      ]

  -- The common body of `setTaskResult` and `setTaskError`, over the two payloads to store.
  unfoldable pub settle :
      ℕ
      → ℕ
      → String
      → TaskStatus
      → Option String
      → Option J
      → Option (JsonRpcError J)
      → Option String
      → Store J
      → Store J × TaskRecordResult
  settle now later id status message payload error auth s0 =
      let s = purge_expired_locked now s0 in
      elim (access id auth s) [
        | fault e ↦ (s, failure e none)
        | found t ↦
            if is_terminal_task_status t.task.status
            then (s, rejection terminal_immutable t.task)
            else if not (is_terminal_task_status status)
                || not (is_valid_task_status_transition t.task.status status)
            then (s, rejection invalid_transition t.task)
            else let task' = record (t.task) {
              status = status;
              status_message = message;
              last_updated_at = iso later;
            } in
              (
                put_task id (record t { task = task'; result = payload; error_payload = error }) s,
                accepted task',
              )
      ]

  unfoldable pub set_task_result :
      ℕ
      → ℕ
      → String
      → TaskStatus
      → Option String
      → J
      → Option String
      → Store J
      → Store J × TaskRecordResult
  unfolding settle
  set_task_result now later id status message result auth =
      settle now later id status message (some result) none auth

  unfoldable pub set_task_error :
      ℕ
      → ℕ
      → String
      → TaskStatus
      → Option String
      → JsonRpcError J
      → Option String
      → Store J
      → Store J × TaskRecordResult
  unfolding settle
  set_task_error now later id status message error auth =
      settle now later id status message none (some error) auth

  unfoldable pub cancel_task :
      ℕ
      → ℕ
      → String
      → Option String
      → JsonRpcError J
      → Option String
      → Store J
      → Store J × TaskRecordResult
  unfolding set_task_error
  cancel_task now later id message error auth =
      set_task_error now later id cancelled message error auth
