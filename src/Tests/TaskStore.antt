-- ===== src/Tests/TaskStore.antt =====
-- The task store on concrete histories.
use Prim.Native.Nat.{ℕ, ◌≤◌}
use mathlib.Core.List.{Perm}
use mathlib.Core.List.{filter}
use mathlib.Core.Bool.{Bool-discrete}
use cpp_mcp_sdk.Base.{
  String, true, false, Option, none, some, List, [], ◌∷◌, ◌≡◌, refl, String-discrete, All, map, ◌⊎◌,
  ◌↔◌,
}
use cpp_mcp_sdk.Base.Int.{pos}
use cpp_mcp_sdk.Base.Map.{lookup, retain}
use cpp_mcp_sdk.Jsonrpc.Messages.{JsonRpcError, make_json_rpc_error, internal_error}
use cpp_mcp_sdk.Tasks.Status.{
  TaskStatus, working, input_required, completed, failed, is_terminal_task_status,
  is_valid_task_status_transition, Transition, to_string, task_status_from_string,
}
use cpp_mcp_sdk.Tasks.Status.Laws.{is_valid_task_status_transition_iff, task_status_from_string_iff}
use cpp_mcp_sdk.Tasks.Store.{
  default_task, TaskCreateOptions, InMemoryTaskStoreOptions, StoredTask, Store, new_store,
  find_task, is_expired, count_active_tasks_for_auth_context, check_access, purge_expired_locked,
  failure, access_denied,
}
use cpp_mcp_sdk.Tasks.Store.Ops.{
  get_task, list_tasks, update_task_status, set_task_result, set_task_error, cancel_task,
  wait_round,
}
use cpp_mcp_sdk.Tasks.Store.Changes.{IfSome}
use cpp_mcp_sdk.Tasks.Store.History.{
  Call, creates, updates, results, cancels, run, clock, wait_for_task_terminal,
}
use cpp_mcp_sdk.Tasks.Store.Lifetime.{run-Descends, run_terminal, Descends, HasDistinctIds}
use cpp_mcp_sdk.Tasks.Store.Limits.{run-WithinLimit}
use cpp_mcp_sdk.Tasks.Store.Payloads.{IsOutcome, wait_for_task_terminal-IsOutcome}
use cpp_mcp_sdk.Tasks.Store.Access.{operations_denied, check_access_iff}
use cpp_mcp_sdk.Tasks.Store.Listing.{list_tasks_lem, SortedFrom, is_listed}
use cpp_mcp_sdk.Tests.Sample.{Json, str}

abbrev stamp : ℕ → String
stamp now = "2025-11-25T00:00:00.000Z"

abbrev limits : InMemoryTaskStoreOptions
limits = record { max_task_ttl_milliseconds = pos 60000; max_active_tasks_per_auth_context = 2 }

abbrev ann_options : TaskCreateOptions
ann_options = record {
  ttl = some (pos 1000);
  poll_interval = none;
  status_message = none;
  auth_context = some "ann";
}

abbrev ann_task : StoredTask Json
ann_task = record {
  task = record {
    task_id = "t1";
    status = working;
    status_message = none;
    created_at = stamp 0;
    last_updated_at = stamp 0;
    ttl = some (pos 1000);
    poll_interval = none;
  };
  auth_context = some "ann";
  expires_at = some 1000;
  result = none;
  error_payload = none;
  sequence = 1;
}

abbrev done_task : StoredTask Json
done_task = record ann_task {
  task = record (ann_task.task) { status = completed };
  result = some (str "done");
}

abbrev open_store : Store Json
open_store = record { tasks = ("t1", ann_task) ∷ []; next_sequence = 2; options = limits }

abbrev done_store : Store Json
done_store = record { tasks = ("t1", done_task) ∷ []; next_sequence = 2; options = limits }

abbrev interruption : JsonRpcError Json
interruption = make_json_rpc_error internal_error "stopped" none

abbrev ann_calls : List (Call Json)
ann_calls =
    updates 100 101 "t1" input_required none (some "ann")
    ∷ results 200 201 "t1" completed none (str "done") (some "ann")
    ∷ cancels 300 301 "t1" none interruption (some "ann")
    ∷ []

open_store-find : find_task "t1" open_store ≡ some ann_task
unfolding find_task lookup String-discrete
open_store-find = refl

done_store-find : find_task "t1" done_store ≡ some done_task
unfolding find_task lookup String-discrete
done_store-find = refl

done_task-final : is_terminal_task_status done_task.task.status ≡ true
unfolding is_terminal_task_status
done_task-final = refl

open_store-distinct : HasDistinctIds open_store
unfolding lookup
open_store-distinct = (refl, tt)

done_store-distinct : HasDistinctIds done_store
unfolding lookup
done_store-distinct = (refl, tt)

ann_calls-live : All (λ c. is_expired (clock c) ann_task ≡ false) ann_calls
unfolding is_expired
ann_calls-live = (refl, (refl, (refl, tt)))

ann_calls-live_done : All (λ c. is_expired (clock c) done_task ≡ false) ann_calls
unfolding is_expired
ann_calls-live_done = (refl, (refl, (refl, tt)))

run-Descends_example :
    (u : StoredTask Json) × (find_task "t1" (run stamp open_store ann_calls) ≡ some u)
    × Descends ann_task u
run-Descends_example =
    run-Descends stamp open_store ann_calls "t1" ann_task open_store-distinct open_store-find
      ann_calls-live

run_terminal_example : find_task "t1" (run stamp done_store ann_calls) ≡ some done_task
run_terminal_example =
    run_terminal stamp done_store ann_calls "t1" done_task done_store-distinct done_store-find
      done_task-final ann_calls-live_done

-- Three requests for a task of ann, of which the limit admits two.
abbrev creations : List (Call Json)
creations =
    creates 0 0 ("t1" ∷ []) ann_options
    ∷ creates 1 1 ("t1" ∷ "t2" ∷ []) ann_options
    ∷ creates 2 2 ("t3" ∷ []) ann_options
    ∷ []

run-WithinLimit_example :
    count_active_tasks_for_auth_context (some "ann") (run stamp (new_store limits) creations) ≤ 2
run-WithinLimit_example = run-WithinLimit stamp limits creations (some "ann")

abbrev waiting : List (List (Call Json) × ℕ)
waiting = (creations, 50) ∷ (ann_calls, 400) ∷ []

wait_for_task_terminal-IsOutcome_example :
    IfSome IsOutcome (wait_for_task_terminal stamp waiting "t1" (some "ann") (new_store limits)).1
wait_for_task_terminal-IsOutcome_example =
    wait_for_task_terminal-IsOutcome stamp limits waiting "t1" (some "ann")

open_store-purge_find : find_task "t1" (purge_expired_locked 10 open_store) ≡ some ann_task
unfolding find_task lookup String-discrete purge_expired_locked retain is_expired
open_store-purge_find = refl

bob-refused : check_access ann_task (some "bob") ≡ false
unfolding check_access String-discrete
bob-refused = refl

operations_denied_example :
    (get_task 10 "t1" (some "bob") open_store
      ≡ (purge_expired_locked 10 open_store, failure access_denied none))
    × ((status : TaskStatus) (message : Option String)
        → update_task_status stamp 10 11 "t1" status message (some "bob") open_store
          ≡ (purge_expired_locked 10 open_store, failure access_denied none))
    × ((status : TaskStatus) (message : Option String) (result : Json)
        → set_task_result stamp 10 11 "t1" status message result (some "bob") open_store
          ≡ (purge_expired_locked 10 open_store, failure access_denied none))
    × ((status : TaskStatus) (message : Option String) (e : JsonRpcError Json)
        → set_task_error stamp 10 11 "t1" status message e (some "bob") open_store
          ≡ (purge_expired_locked 10 open_store, failure access_denied none))
    × ((message : Option String) (e : JsonRpcError Json)
        → cancel_task stamp 10 11 "t1" message e (some "bob") open_store
          ≡ (purge_expired_locked 10 open_store, failure access_denied none))
    × (wait_round 10 "t1" (some "bob") open_store ≡ (
      purge_expired_locked 10 open_store,
      some (record {
        error = access_denied;
        task = default_task;
        result = none;
        error_payload = none;
      }),
    ))
operations_denied_example =
    operations_denied stamp open_store 10 11 "t1" ann_task (some "bob") open_store-purge_find
      bob-refused

list_tasks_lem_example :
    (entries : List (StoredTask Json)) × ((list_tasks 10 (some "ann") open_store).1
      ≡ map (λ t. t.task) entries)
    × Perm entries (
        filter
          (λ t. Bool-discrete (is_listed 10 (some "ann") t) true)
          (map (λ entry. entry.1) open_store.tasks))
    × SortedFrom 0 entries
list_tasks_lem_example = list_tasks_lem 10 (some "ann") open_store

check_access_iff_example : (check_access ann_task (some "ann") ≡ true) ↔ (
    (ann_task.auth_context ≡ none)
    ⊎ ((owner : String) × (ann_task.auth_context ≡ some owner) × (some "ann" ≡ some owner)))
check_access_iff_example = check_access_iff ann_task (some "ann")

is_valid_task_status_transition_iff_example :
    (is_valid_task_status_transition working completed ≡ true) ↔ Transition working completed
is_valid_task_status_transition_iff_example = is_valid_task_status_transition_iff working completed

task_status_from_string_iff_example :
    (task_status_from_string "failed" ≡ some failed) ↔ ("failed" ≡ to_string failed)
task_status_from_string_iff_example = task_status_from_string_iff "failed" failed
