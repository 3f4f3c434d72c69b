-- ===== src/Tasks/Store/Changes.antt =====
-- What a call of InMemoryTaskStore does to the purged store: nothing, one entry written again, or
-- one new entry.
use cpp_mcp_sdk.Base.{
  [], ◌∷◌, ℕ, suc, ◌%◌, ◌^◌, ◌<◌, String, true, not, Option, none, some, List, ◌≡◌, refl, ◌⊎◌, inl,
  inr, arith, leb, is_some, Bool-cases, Option-cases,
}
use cpp_mcp_sdk.Jsonrpc.Messages.{JsonRpcError}
use cpp_mcp_sdk.Tasks.Status.{
  TaskStatus, working, is_terminal_task_status, is_valid_task_status_transition,
}
use cpp_mcp_sdk.Tasks.Store.{
  TaskCreateOptions, TaskStoreError, StoredTask, Store, check_access, purge_expired_locked,
  count_active_tasks_for_auth_context, find_task, put_task, fresh_id, ttl_error, new_task,
}
use cpp_mcp_sdk.Tasks.Store.Ops.{
  Access, fault, found, access, create_task, update_task_status, settle, get_task, wait_round,
}

module _ {J : Type 0} where
  -- The payloads stay, or exactly one is stored beside a terminal status.
  pub data Payloads (t u : StoredTask J) : Type 0 where
    kept : u.result ≡ t.result → u.error_payload ≡ t.error_payload → Payloads t u
    stored :
        is_terminal_task_status u.task.status ≡ true
        → (is_some u.result ≡ not (is_some u.error_payload))
        → Payloads t u

  -- `u` is `t` after one step of its status.
  pub record Advances (t u : StoredTask J) : Type 0 where
    pub valid : is_valid_task_status_transition t.task.status u.task.status ≡ true
    pub owner : u.auth_context ≡ t.auth_context
    pub expires_at : u.expires_at ≡ t.expires_at
    pub sequence : u.sequence ≡ t.sequence
    pub task_id : u.task.task_id ≡ t.task.task_id
    pub payloads : Payloads t u

  pub data Change (s : Store J) : Store J → Type 0 where
    keeps : Change s s
    writes :
        (id : String) (t u : StoredTask J)
        → find_task id s ≡ some t
        → Advances t u
        → Change s (put_task id u s)
    adds :
        (id : String) (t : StoredTask J)
        → find_task id s ≡ none
        → t.task.status ≡ working
        → t.result ≡ none
        → t.error_payload ≡ none
        → count_active_tasks_for_auth_context t.auth_context s
          < s.options.max_active_tasks_per_auth_context
        → Change s (record (put_task id t s) { next_sequence = suc s.next_sequence % 2 ^ 64 })

  pub access-eq-found :
      (id : String) (auth : Option String) (s : Store J) {t : StoredTask J}
      → access id auth s ≡ found t
      → (find_task id s ≡ some t) × (check_access t auth ≡ true)
  unfolding access
  access-eq-found id auth s h = ground arith

  fresh_id_lem :
      (s : Store J) (draws : List String) (id : String)
      → fresh_id s draws ≡ some id
      → find_task id s ≡ none
  unfolding fresh_id
  fresh_id_lem s [] id h = cc
  fresh_id_lem s (d ∷ draws) id h = ground (arith, fresh_id_lem s draws id)

-- A statement about the value, if there is one.
abbrev pub IfSome {ℓ κ} : {A : Type ℓ} → (A → Type κ) → Option A → Type κ
IfSome P none = Unit
IfSome P (some a) = P a

module _ {J : Type 0} where
  pub Access-cases :
      (a : Access J) → ((e : TaskStoreError) × (a ≡ fault e)) ⊎ ((t : StoredTask J) × (a ≡ found t))
  Access-cases (fault e) = inl (e, refl)
  Access-cases (found t) = inr (t, refl)

module _ {J : Type 0} (iso : ℕ → String) where
  pub update_task_status-Change :
      (now later : ℕ) (id : String) (status : TaskStatus) (message auth : Option String)
      (s : Store J)
      → Change
          (purge_expired_locked now s)
          (update_task_status iso now later id status message auth s).0
  unfolding update_task_status
  update_task_status-Change now later id status message auth s =
      let p = purge_expired_locked now s in
      elim (Access-cases (access id auth p)) [
        | inl (e, q) ↦ rw (q, update_task_status) keeps
        | inr (t, q) ↦ elim (Bool-cases (is_terminal_task_status t.task.status)) [
          | inl final ↦ rw (q, final, update_task_status) keeps
          | inr active ↦ elim (Bool-cases (is_valid_task_status_transition t.task.status status)) [
            | inl valid ↦
                rw (q, active, valid, update_task_status)
                  (writes id t _ (access-eq-found id auth p q).0 (record {
                    valid = valid;
                    owner = refl;
                    expires_at = refl;
                    sequence = refl;
                    task_id = refl;
                    payloads = kept refl refl;
                  }))
            | inr invalid ↦ rw (q, active, invalid, update_task_status) keeps
          ]
        ]
      ]

  pub create_task-Change :
      (now later : ℕ) (draws : List String) (o : TaskCreateOptions) (s : Store J)
      → IfSome (λ r. Change (purge_expired_locked now s) r.0) (create_task iso now later draws o s)
  unfolding create_task
  create_task-Change now later draws o s =
      let p = purge_expired_locked now s in
      elim (Option-cases (ttl_error p.options o.ttl)) [
        | inr (m, e) ↦ rw (e, create_task) keeps
        | inl e ↦
            elim (Bool-cases (
              leb p.options.max_active_tasks_per_auth_context
                (count_active_tasks_for_auth_context o.auth_context p))) [
                  | inl full ↦ rw (e, full, create_task) keeps
                  | inr free ↦ elim (Option-cases (fresh_id p draws)) [
                    | inl none_left ↦ rw (e, free, none_left, create_task) tt
                    | inr (id, drawn) ↦
                        rw (e, free, drawn, create_task)
                          (adds id (new_task iso id o p.next_sequence later)
                            (fresh_id_lem p draws id drawn) (unfold new_task in refl)
                            (unfold new_task in refl) (unfold new_task in refl)
                            (unfold new_task in (ground arith)))
                  ]
                ]
      ]

  -- `setTaskResult` and `setTaskError` store exactly one of the two payloads.
  pub settle-Change :
      (now later : ℕ) (id : String) (status : TaskStatus) (message : Option String)
      (payload : Option J) (error : Option (JsonRpcError J)) (auth : Option String) (s : Store J)
      → (is_some payload ≡ not (is_some error))
      → Change
          (purge_expired_locked now s)
          (settle iso now later id status message payload error auth s).0
  unfolding settle
  settle-Change now later id status message payload error auth s one =
      let p = purge_expired_locked now s in
      elim (Access-cases (access id auth p)) [
        | inl (e, q) ↦ rw (q, settle) keeps
        | inr (t, q) ↦ elim (Bool-cases (is_terminal_task_status t.task.status)) [
          | inl final ↦ rw (q, final, settle) keeps
          | inr active ↦ elim (Bool-cases (is_terminal_task_status status)) [
            | inr open_ ↦ rw (q, active, open_, settle) keeps
            | inl ends ↦ elim (Bool-cases (is_valid_task_status_transition t.task.status status)) [
              | inl valid ↦
                  rw (q, active, ends, valid, settle)
                    (writes id t _ (access-eq-found id auth p q).0 (record {
                      valid = valid;
                      owner = refl;
                      expires_at = refl;
                      sequence = refl;
                      task_id = refl;
                      payloads = stored ends one;
                    }))
              | inr invalid ↦ rw (q, active, ends, invalid, settle) keeps
            ]
          ]
        ]
      ]

module _ {J : Type 0} where
  pub get_task-eq-purge :
      (now : ℕ) (id : String) (auth : Option String) (s : Store J)
      → (get_task now id auth s).0 ≡ purge_expired_locked now s
  unfolding get_task
  get_task-eq-purge now id auth s =
      elim (Access-cases (access id auth (purge_expired_locked now s))) [
        | inl (e, q) ↦ rw (q, get_task)
        | inr (t, q) ↦ rw (q, get_task)
      ]

  pub wait_round-eq-purge :
      (now : ℕ) (id : String) (auth : Option String) (s : Store J)
      → (wait_round now id auth s).0 ≡ purge_expired_locked now s
  unfolding wait_round
  wait_round-eq-purge now id auth s =
      elim (Access-cases (access id auth (purge_expired_locked now s))) [
        | inl (e, q) ↦ rw (q, wait_round)
        | inr (t, q) ↦ elim (Bool-cases (is_terminal_task_status t.task.status)) [
          | inl final ↦ rw (q, final, wait_round)
          | inr active ↦ rw (q, active, wait_round)
        ]
      ]
