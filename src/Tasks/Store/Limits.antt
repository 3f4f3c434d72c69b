-- ===== src/Tasks/Store/Limits.antt =====
-- The limit on the active tasks of an auth context.
use cpp_mcp_sdk.Base.{
  ℕ, ◌+◌, ◌≤◌, ◌<◌, String, not, Option, List, [], ◌∷◌, ◌≡◌, refl, ◌∙◌, arith, if◌then◌else◌,
  String-discrete,
}
use cpp_mcp_sdk.Base.Map.{count_if, count_if-retain-le, count_if-insert_new, count_if-insert_old}
use cpp_mcp_sdk.Tasks.Status.Laws.{active_of_valid}
use cpp_mcp_sdk.Tasks.Store.{
  InMemoryTaskStoreOptions, StoredTask, Store, is_expired, is_active_for, purge_expired_locked,
  find_task, put_task, new_store, count_active_tasks_for_auth_context, normalized_auth_context_key,
}
use cpp_mcp_sdk.Tasks.Store.Changes.{Change, keeps, writes, adds, Advances}
use cpp_mcp_sdk.Tasks.Store.History.{Call, clock, step, run, step-Change}

-- No auth context has more active tasks than the configured limit.
abbrev pub WithinLimit : {J : Type 0} → Store J → Type 0
WithinLimit s =
    (auth : Option String)
    → count_active_tasks_for_auth_context auth s ≤ s.options.max_active_tasks_per_auth_context

module _ {J : Type 0} where
  purge-WithinLimit :
      (now : ℕ) (s : Store J) → WithinLimit s → WithinLimit (purge_expired_locked now s)
  unfolding purge_expired_locked count_active_tasks_for_auth_context
  purge-WithinLimit now s w auth = omega (
    arith,
    w auth,
    count_if-retain-le (is_active_for (normalized_auth_context_key auth))
        (λ t. not (is_expired now t)) s.tasks,
  )

  -- A task that is active after a step of its status was active before, for the same context.
  is_active_for_mono :
      (key : String) (t u : StoredTask J)
      → Advances t u
      → (if is_active_for key u then 1 else 0) ≤ (if is_active_for key t then 1 else 0)
  unfolding is_active_for
  is_active_for_mono key t u a =
      let o = a.owner in ground (arith, active_of_valid t.task.status u.task.status a.valid)

  -- The new task fits: the limit was not reached in its own context, and it counts in no other.
  new_task-within :
      (auth : Option String) (s : Store J) (t : StoredTask J)
      → count_active_tasks_for_auth_context t.auth_context s
        < s.options.max_active_tasks_per_auth_context
      → count_active_tasks_for_auth_context auth s ≤ s.options.max_active_tasks_per_auth_context
      → count_active_tasks_for_auth_context auth s
          + (if is_active_for (normalized_auth_context_key auth) t then 1 else 0)
        ≤ s.options.max_active_tasks_per_auth_context
  unfolding count_active_tasks_for_auth_context is_active_for
  new_task-within auth s t room w = ground arith

  Change-WithinLimit : {s s' : Store J} → Change s s' → WithinLimit s → WithinLimit s'
  unfolding count_active_tasks_for_auth_context put_task find_task
  Change-WithinLimit keeps w auth = w auth
  Change-WithinLimit {s} (writes id t u held a) w auth = omega (
    arith,
    w auth,
    is_active_for_mono (normalized_auth_context_key auth) t u a,
    count_if-insert_old String-discrete (is_active_for (normalized_auth_context_key auth)) id u t
        s.tasks held,
  )
  Change-WithinLimit {s} (adds id t free new _ _ room) w auth = omega (
    arith,
    w auth,
    new_task-within auth s t room (w auth),
    count_if-insert_new String-discrete (is_active_for (normalized_auth_context_key auth)) id t
        s.tasks free,
  )

  Change-options : {s s' : Store J} → Change s s' → s'.options ≡ s.options
  unfolding put_task
  Change-options keeps = refl
  Change-options (writes id t u held a) = refl
  Change-options (adds id t free new _ _ room) = refl

module _ {J : Type 0} (iso : ℕ → String) where
  run-options : (s : Store J) (cs : List (Call J)) → (run iso s cs).options ≡ s.options
  unfolding run purge_expired_locked
  run-options s [] = refl
  run-options s (c ∷ cs) = run-options (step iso s c) cs ∙ Change-options (step-Change iso s c)

  run-WithinLimit_from :
      (s : Store J) (cs : List (Call J)) → WithinLimit s → WithinLimit (run iso s cs)
  unfolding run
  run-WithinLimit_from s [] w = w
  run-WithinLimit_from s (c ∷ cs) w =
      run-WithinLimit_from (step iso s c) cs
        (Change-WithinLimit (step-Change iso s c) (purge-WithinLimit (clock c) s w))

  -- From a new store, no calls give any auth context more active tasks than the configured limit.
  pub run-WithinLimit :
      (o : InMemoryTaskStoreOptions) (cs : List (Call J)) (auth : Option String)
      → count_active_tasks_for_auth_context auth (run iso (new_store o) cs)
        ≤ o.max_active_tasks_per_auth_context
  unfolding count_active_tasks_for_auth_context count_if
  run-WithinLimit o cs auth =
      let w = run-WithinLimit_from (new_store o) cs (λ auth. omega arith) auth in
      rw (run-options (new_store o) cs) at w
