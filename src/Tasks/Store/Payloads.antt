-- ===== src/Tasks/Store/Payloads.antt =====
-- What `waitForTaskTerminal` hands out.
use cpp_mcp_sdk.Base.{
  ℕ, String, true, false, not, ◌&&◌, Option, none, some, List, [], ◌∷◌, ◌≡◌, arith, is_some, ◌≢◌,
  ◌⊎◌, inl, inr, Bool-cases, Option-cases, String-discrete, if◌then◌else◌,
}
use cpp_mcp_sdk.Base.Map.{AllValues, AllValues-insert, AllValues-lookup, AllValues-retain}
use cpp_mcp_sdk.Jsonrpc.Messages.{internal_error, make_json_rpc_error}
use cpp_mcp_sdk.Tasks.Status.Laws.{active_of_valid}
use cpp_mcp_sdk.Tasks.Status.{is_terminal_task_status}
use cpp_mcp_sdk.Tasks.Store.{
  InMemoryTaskStoreOptions, StoredTask, Store, TaskTerminalResult, TaskStoreError, no_error,
  purge_expired_locked, find_task, put_task, new_store,
}
use cpp_mcp_sdk.Tasks.Store.Ops.{fault, access, wait_round}
use cpp_mcp_sdk.Tasks.Store.Changes.{
  Change, keeps, writes, adds, Advances, Payloads, kept, stored, access-eq-found, Access-cases,
  IfSome, wait_round-eq-purge,
}
use cpp_mcp_sdk.Tasks.Store.History.{Call, clock, step, run, step-Change, wait_for_task_terminal}

module _ {J : Type 0} where
  -- A task holds at most one payload, and none before it is terminal.
  pub record IsSettled (t : StoredTask J) : Type 0 where
    pub one : is_some t.result && is_some t.error_payload ≡ false
    pub late :
        is_terminal_task_status t.task.status ≡ false
        → (is_some t.result ≡ false) × (is_some t.error_payload ≡ false)

  abbrev pub AllSettled : Store J → Type 0
  AllSettled s = AllValues IsSettled s.tasks

  Advances-IsSettled : (t u : StoredTask J) → IsSettled t → Advances t u → IsSettled u
  Advances-IsSettled t u h a = go a.payloads
    where
      before : (is_some t.result ≡ false) × (is_some t.error_payload ≡ false)
      before = h.late (active_of_valid t.task.status u.task.status a.valid)

      go : Payloads t u → IsSettled u
      go (kept r e) = record { one = rw (r, e, before.0); late = λ _. rw (r, e) before }
      go (stored final exactly) = record { one = ground arith; late = λ open_. ground arith }

  Change-AllSettled : {s s' : Store J} → Change s s' → AllSettled s → AllSettled s'
  unfolding put_task find_task
  Change-AllSettled keeps h = h
  Change-AllSettled {s} (writes id t u held a) h =
      AllValues-insert IsSettled String-discrete id u s.tasks
        (Advances-IsSettled t u (AllValues-lookup IsSettled String-discrete id t s.tasks h held) a)
        h
  Change-AllSettled {s} (adds id t free new no_result no_error_ room) h =
      AllValues-insert IsSettled String-discrete id t s.tasks
        (record { one = rw no_result; late = λ _. (rw no_result, rw no_error_) }) h

  -- What a waiter is handed: an error code, or a terminal task with exactly one payload.
  abbrev pub IsOutcome : TaskTerminalResult J → Type 0
  IsOutcome r =
      (r.error ≢ no_error)
      ⊎ ((is_terminal_task_status r.task.status ≡ true)
          × (is_some r.result ≡ not (is_some r.error_payload)))

  access-ne-no_error :
      (id : String) (auth : Option String) (s : Store J) (e : TaskStoreError)
      → access id auth s ≡ fault e
      → e ≢ no_error
  unfolding access
  access-ne-no_error id auth s e h = ground arith

  payload_shown :
      (t : StoredTask J)
      → IsSettled t
      → is_some t.result
        ≡ not (
            is_some (
              if not (is_some t.result) && not (is_some t.error_payload)
              then some (
                  make_json_rpc_error internal_error
                    "Task reached a terminal state without a stored result payload" none)
              else t.error_payload))
  payload_shown t h = ground arith

  wait_round-IsOutcome :
      (now : ℕ) (id : String) (auth : Option String) (s : Store J)
      → AllSettled (purge_expired_locked now s)
      → IfSome IsOutcome (wait_round now id auth s).1
  unfolding wait_round find_task
  wait_round-IsOutcome now id auth s h =
      let p = purge_expired_locked now s in
      elim (Access-cases (access id auth p)) [
        | inl (e, q) ↦ rw (q, wait_round) (inl (access-ne-no_error id auth p e q))
        | inr (t, q) ↦ elim (Bool-cases (is_terminal_task_status t.task.status)) [
          | inl final ↦
              let settled =
                AllValues-lookup IsSettled String-discrete id t p.tasks h
                  (access-eq-found id auth p q).0 in
              rw (q, final, wait_round) (inr (final, payload_shown t settled))
          | inr active ↦ rw (q, active, wait_round) tt
        ]
      ]

  purge-AllSettled :
      (now : ℕ) (s : Store J) → AllSettled s → AllSettled (purge_expired_locked now s)
  unfolding purge_expired_locked
  purge-AllSettled now s h = AllValues-retain IsSettled _ s.tasks h

  wait_round-AllSettled :
      (now : ℕ) (id : String) (auth : Option String) (s : Store J)
      → AllSettled s
      → AllSettled (wait_round now id auth s).0
  wait_round-AllSettled now id auth s h =
      rw (wait_round-eq-purge now id auth s) (purge-AllSettled now s h)

module _ {J : Type 0} (iso : ℕ → String) where
  run-AllSettled : (s : Store J) (cs : List (Call J)) → AllSettled s → AllSettled (run iso s cs)
  unfolding run
  run-AllSettled s [] h = h
  run-AllSettled s (c ∷ cs) h =
      run-AllSettled (step iso s c) cs
        (Change-AllSettled (step-Change iso s c) (purge-AllSettled (clock c) s h))

  wait_for_task_terminal-IsOutcome_from :
      (rounds : List (List (Call J) × ℕ)) (id : String) (auth : Option String) (s : Store J)
      → AllSettled s
      → IfSome IsOutcome (wait_for_task_terminal iso rounds id auth s).1
  unfolding wait_for_task_terminal
  wait_for_task_terminal-IsOutcome_from [] id auth s h = tt
  wait_for_task_terminal-IsOutcome_from ((cs, now) ∷ rounds) id auth s h =
      let s1 = run iso s cs in
      let settled = run-AllSettled s cs h in
      let here = wait_round-IsOutcome now id auth s1 (purge-AllSettled now s1 settled) in
      let later =
        wait_for_task_terminal-IsOutcome_from rounds id auth (wait_round now id auth s1).0
          (wait_round-AllSettled now id auth s1 settled) in
      elim (Option-cases (wait_round now id auth s1).1) [
        | inl e ↦ rw (e, wait_for_task_terminal) later
        | inr (r, e) ↦ rw (e, wait_for_task_terminal) (rw e at here)
      ]

  -- On a new store, whatever calls of other threads come before the first round of a waiter and
  -- between its rounds, a result that it returns has an error code, or is a terminal task with
  -- exactly one of a result and an error payload.
  pub wait_for_task_terminal-IsOutcome :
      (o : InMemoryTaskStoreOptions) (rounds : List (List (Call J) × ℕ)) (id : String)
      (auth : Option String)
      → IfSome IsOutcome (wait_for_task_terminal iso rounds id auth (new_store o)).1
  wait_for_task_terminal-IsOutcome o rounds id auth =
      wait_for_task_terminal-IsOutcome_from rounds id auth (new_store o) tt
