-- ===== src/Tasks/Store.antt =====
-- InMemoryTaskStore of src/util/tasks.cpp. A call runs under the store's mutex; the clock readings
-- and the random ids that it draws are its arguments. Times are milliseconds.
pub mod Ops
pub mod Changes
pub mod History
pub mod Lifetime
pub mod Limits
pub mod Payloads
pub mod Listing
pub mod Access
use Prim.Native.String
use cpp_mcp_sdk.Base.{
  ℕ, suc, ◌+◌, ◌%◌, ◌^◌, String, Bool, true, false, not, ◌&&◌, Option, none, some, List, [], ◌∷◌,
  map, if◌then◌else◌, leb, ltb, ◌=ₛ◌, is_some, value_or, String-discrete,
}
use cpp_mcp_sdk.Base.Int.{ℤ, pos, negsuc, is_negative, lt_ℤ}
use cpp_mcp_sdk.Base.Decimal.{decimal_text, decimal_text_ℤ}
use cpp_mcp_sdk.Base.Map.{retain, count_if, lookup, insert}
use cpp_mcp_sdk.Jsonrpc.Messages.{JsonRpcError, JsonRpcErrorCode, make_json_rpc_error}
use cpp_mcp_sdk.Tasks.Status.{
  TaskStatus, working, cancelled, is_terminal_task_status, is_valid_task_status_transition,
}

pub record Task : Type 0 where
  pub task_id : String
  pub status : TaskStatus
  pub status_message : Option String
  pub created_at : String
  pub last_updated_at : String
  pub ttl : Option ℤ
  pub poll_interval : Option ℤ

-- `Task {}`.
abbrev pub default_task : Task
default_task = record {
  task_id = "";
  status = working;
  status_message = none;
  created_at = "";
  last_updated_at = "";
  ttl = none;
  poll_interval = none;
}

pub data TaskStoreError : Type 0 where
  no_error not_found access_denied invalid_transition terminal_immutable limit_exceeded :
      TaskStoreError

pub record TaskCreateOptions : Type 0 where
  pub ttl : Option ℤ
  pub poll_interval : Option ℤ
  pub status_message : Option String
  pub auth_context : Option String

pub record TaskRecordResult : Type 0 where
  pub error : TaskStoreError
  pub error_message : Option String
  pub task : Task

pub record InMemoryTaskStoreOptions : Type 0 where
  pub max_task_ttl_milliseconds : ℤ
  pub max_active_tasks_per_auth_context : ℕ

pub record StoredTask (J : Type 0) : Type 0 where
  pub task : Task
  pub auth_context : Option String
  pub expires_at : Option ℕ
  pub result : Option J
  pub error_payload : Option (JsonRpcError J)
  pub sequence : ℕ

pub record Store (J : Type 0) : Type 0 where
  pub tasks : List (String × StoredTask J)
  pub next_sequence : ℕ
  pub options : InMemoryTaskStoreOptions

pub record TaskTerminalResult (J : Type 0) : Type 0 where
  pub error : TaskStoreError
  pub task : Task
  pub result : Option J
  pub error_payload : Option (JsonRpcError J)

abbrev pub unbound_auth_context_key : String
unbound_auth_context_key = "__mcp_unbound_auth_context__"

abbrev pub normalized_auth_context_key : Option String → String
normalized_auth_context_key auth = value_or auth unbound_auth_context_key

-- `authContext.has_value() && *stored == *authContext`.
abbrev pub same_context : String → Option String → Bool
same_context owner none = false
same_context owner (some auth) = owner =ₛ auth

abbrev pub grants : Option String → Option String → Bool
grants none auth = true
grants (some owner) auth = same_context owner auth

-- `TaskRecordResult` with an error and a default task, with an error and the task, and without.
abbrev pub failure : TaskStoreError → Option String → TaskRecordResult
failure e message = record { error = e; error_message = message; task = default_task }

abbrev pub rejection : TaskStoreError → Task → TaskRecordResult
rejection e t = record { error = e; error_message = none; task = t }

abbrev pub accepted : Task → TaskRecordResult
accepted t = rejection no_error t

-- The guards of `createTask` on the time to live.
unfoldable pub ttl_error : InMemoryTaskStoreOptions → Option ℤ → Option String
ttl_error o none = none
ttl_error o (some ttl) =
    if is_negative ttl
    then some "Task ttl must be greater than or equal to zero milliseconds"
    else if lt_ℤ o.max_task_ttl_milliseconds ttl
    then some (
        String.◌++◌ "Task ttl exceeds configured maximum of "
          (String.◌++◌ (decimal_text_ℤ o.max_task_ttl_milliseconds) " milliseconds"))
    else none

-- `now + milliseconds(ttl)`; the guards leave no negative time to live.
unfoldable pub expiry : ℕ → Option ℤ → Option ℕ
expiry now none = none
expiry now (some (pos ttl)) = some (now + ttl)
expiry now (some (negsuc n)) = some now

module _ {J : Type 0} where
  abbrev pub new_store : InMemoryTaskStoreOptions → Store J
  new_store o = record { tasks = []; next_sequence = 1; options = o }

  unfoldable pub check_access : StoredTask J → Option String → Bool
  check_access t auth = grants t.auth_context auth

  -- `expiresAt.has_value() && now >= *expiresAt`.
  unfoldable pub is_expired : ℕ → StoredTask J → Bool
  is_expired now t = elim t.expires_at [ none ↦ false | some e ↦ leb e now ]

  unfoldable pub purge_expired_locked : ℕ → Store J → Store J
  purge_expired_locked now s = record s { tasks = retain (λ t. not (is_expired now t)) s.tasks }

  -- The tasks that count against the limit of an auth context.
  unfoldable pub is_active_for : String → StoredTask J → Bool
  is_active_for key t =
      normalized_auth_context_key t.auth_context =ₛ key
      && not (is_terminal_task_status t.task.status)

  unfoldable pub count_active_tasks_for_auth_context : Option String → Store J → ℕ
  count_active_tasks_for_auth_context auth s =
      count_if (is_active_for (normalized_auth_context_key auth)) s.tasks

  unfoldable pub find_task : String → Store J → Option (StoredTask J)
  find_task id s = lookup String-discrete id s.tasks

  unfoldable pub put_task : String → StoredTask J → Store J → Store J
  put_task id t s = record s { tasks = insert String-discrete id t s.tasks }

  -- The do-while loop over `generateTaskId`: the first id drawn that is not in the map.
  unfoldable pub fresh_id : Store J → List String → Option String
  unfolding find_task
  fresh_id s [] = none
  fresh_id s (id ∷ draws) = if is_some (find_task id s) then fresh_id s draws else some id

module _ {J : Type 0} (iso : ℕ → String) where
  -- The entry that `createTask` stores.
  unfoldable pub new_task : String → TaskCreateOptions → ℕ → ℕ → StoredTask J
  new_task id o sequence now = record {
    task = record {
      task_id = id;
      status = working;
      status_message = o.status_message;
      created_at = iso now;
      last_updated_at = iso now;
      ttl = o.ttl;
      poll_interval = o.poll_interval;
    };
    auth_context = o.auth_context;
    expires_at = expiry now o.ttl;
    result = none;
    error_payload = none;
    sequence = sequence;
  }
