-- ===== src/Tasks/Store/History.antt =====
-- Calls of InMemoryTaskStore in sequence: the mutex makes each call one step.
use cpp_mcp_sdk.Base.{ℕ, String, Option, none, some, List, [], ◌∷◌, refl}
use cpp_mcp_sdk.Jsonrpc.Messages.{JsonRpcError}
use cpp_mcp_sdk.Tasks.Status.{TaskStatus, cancelled}
use cpp_mcp_sdk.Tasks.Store.{
  TaskCreateOptions, TaskRecordResult, TaskTerminalResult, Store, purge_expired_locked,
}
use cpp_mcp_sdk.Tasks.Store.Ops.{
  create_task, update_task_status, get_task, list_tasks, wait_round, set_task_result,
  set_task_error, cancel_task,
}
use cpp_mcp_sdk.Tasks.Store.Changes.{
  Change, keeps, IfSome, update_task_status-Change, create_task-Change, settle-Change,
  get_task-eq-purge, wait_round-eq-purge,
}

-- A call of the store, with the readings of the clock and the ids that it draws.
pub data Call (J : Type 0) : Type 0 where
  creates : (now later : ℕ) → List String → TaskCreateOptions → Call J
  updates : (now later : ℕ) → String → TaskStatus → Option String → Option String → Call J
  results : (now later : ℕ) → String → TaskStatus → Option String → J → Option String → Call J
  errors :
      (now later : ℕ)
      → String
      → TaskStatus
      → Option String
      → JsonRpcError J
      → Option String
      → Call J
  cancels : (now later : ℕ) → String → Option String → JsonRpcError J → Option String → Call J
  gets : ℕ → String → Option String → Call J
  lists : ℕ → Option String → Call J
  waits : ℕ → String → Option String → Call J

module _ {J : Type 0} where
  -- The clock at the purge.
  abbrev pub clock : Call J → ℕ
  clock (creates now _ _ _) = now
  clock (updates now _ _ _ _ _) = now
  clock (results now _ _ _ _ _ _) = now
  clock (errors now _ _ _ _ _ _) = now
  clock (cancels now _ _ _ _ _) = now
  clock (gets now _ _) = now
  clock (lists now _) = now
  clock (waits now _ _) = now

  abbrev after_create : Store J → Option (Store J × TaskRecordResult) → Store J
  after_create s none = s
  after_create s (some r) = r.0

module _ {J : Type 0} (iso : ℕ → String) where
  -- The store after a call. A `createTask` whose draws have run out has purged, and still draws.
  unfoldable pub step : Store J → Call J → Store J
  step s (creates now later draws o) =
      after_create (purge_expired_locked now s) (create_task iso now later draws o s)
  step s (updates now later id status message auth) =
      (update_task_status iso now later id status message auth s).0
  step s (results now later id status message result auth) =
      (set_task_result iso now later id status message result auth s).0
  step s (errors now later id status message error auth) =
      (set_task_error iso now later id status message error auth s).0
  step s (cancels now later id message error auth) =
      (cancel_task iso now later id message error auth s).0
  step s (gets now id auth) = (get_task now id auth s).0
  step s (lists now auth) = (list_tasks now auth s).0
  step s (waits now id auth) = (wait_round now id auth s).0

  unfoldable pub run : Store J → List (Call J) → Store J
  run s [] = s
  run s (c ∷ cs) = run (step s c) cs

  -- `waitForTaskTerminal`: its rounds, each with the calls of other threads before it and the clock
  -- at its purge. `none` in the result: the last round still waits.
  unfoldable pub wait_for_task_terminal :
      List (List (Call J) × ℕ)
      → String
      → Option String
      → Store J
      → Store J × Option (TaskTerminalResult J)
  wait_for_task_terminal [] id auth s = (s, none)
  wait_for_task_terminal ((cs, now) ∷ rounds) id auth s =
      let s1 = run s cs in
      let next = wait_for_task_terminal rounds id auth (wait_round now id auth s1).0 in
      elim (wait_round now id auth s1).1 [
        | none ↦ next
        | some r ↦ ((wait_round now id auth s1).0, some r)
      ]

  after_create-Change :
      (p : Store J) (r : Option (Store J × TaskRecordResult))
      → IfSome (λ x. Change p x.0) r
      → Change p (after_create p r)
  after_create-Change p none h = keeps
  after_create-Change p (some r) h = h

  -- Every call purges, and then makes one change.
  pub step-Change :
      (s : Store J) (c : Call J) → Change (purge_expired_locked (clock c) s) (step s c)
  unfolding step set_task_result set_task_error cancel_task list_tasks
  step-Change s (creates now later draws o) =
      after_create-Change _ _ (create_task-Change iso now later draws o s)
  step-Change s (updates now later id status message auth) =
      update_task_status-Change iso now later id status message auth s
  step-Change s (results now later id status message result auth) =
      settle-Change iso now later id status message (some result) none auth s refl
  step-Change s (errors now later id status message error auth) =
      settle-Change iso now later id status message none (some error) auth s refl
  step-Change s (cancels now later id message error auth) =
      settle-Change iso now later id cancelled message none (some error) auth s refl
  step-Change s (gets now id auth) = rw (get_task-eq-purge now id auth s) keeps
  step-Change s (lists now auth) = keeps
  step-Change s (waits now id auth) = rw (wait_round-eq-purge now id auth s) keeps
