-- ===== src/Tasks/Store/Access.antt =====
-- Access control: what a caller of another auth context sees and changes.
use cpp_mcp_sdk.Base.{
  ℕ, String, true, false, Option, none, some, ◌≡◌, refl, arith, ◌↔◌, ◌⊎◌, inl, inr,
}
use cpp_mcp_sdk.Jsonrpc.Messages.{JsonRpcError}
use cpp_mcp_sdk.Tasks.Status.{TaskStatus}
use cpp_mcp_sdk.Tasks.Store.{
  TaskRecordResult, StoredTask, Store, access_denied, failure, grants, check_access,
  purge_expired_locked, find_task, default_task,
}
use cpp_mcp_sdk.Tasks.Store.Ops.{
  fault, access, get_task, update_task_status, settle, set_task_result, set_task_error, cancel_task,
  wait_round,
}

check_access_sound :
    (owner auth : Option String)
    → grants owner auth ≡ true
    → (owner ≡ none) ⊎ ((o : String) × (owner ≡ some o) × (auth ≡ some o))
check_access_sound none auth h = inl refl
check_access_sound (some o) none h = cc
check_access_sound (some o) (some a) h = inr (o, refl, ground arith)

check_access_complete :
    (owner auth : Option String)
    → ((owner ≡ none) ⊎ ((o : String) × (owner ≡ some o) × (auth ≡ some o)))
    → grants owner auth ≡ true
check_access_complete owner auth h = ground arith

module _ {J : Type 0} where
  -- `check_access` lets in whoever asks for a task without an owner, and otherwise its owner alone.
  pub check_access_iff :
      (t : StoredTask J) (auth : Option String)
      → (check_access t auth ≡ true) ↔ (
          (t.auth_context ≡ none)
          ⊎ ((owner : String) × (t.auth_context ≡ some owner) × (auth ≡ some owner)))
  unfolding check_access
  check_access_iff t auth =
      (check_access_sound t.auth_context auth, check_access_complete t.auth_context auth)

  access-eq-denied :
      (id : String) (auth : Option String) (s : Store J) (t : StoredTask J)
      → find_task id s ≡ some t
      → check_access t auth ≡ false
      → access id auth s ≡ fault access_denied
  unfolding access
  access-eq-denied id auth s t h d = ground arith

module _ {J : Type 0} (iso : ℕ → String) where
  -- A caller who may not access a task gets `access_denied` from every operation on it, with none
  -- of the task's fields, and the store is left as the purge made it.
  pub operations_denied :
      (s : Store J) (now later : ℕ) (id : String) (t : StoredTask J) (auth : Option String)
      → find_task id (purge_expired_locked now s) ≡ some t
      → check_access t auth ≡ false
      → let refused : Store J × TaskRecordResult =
          (purge_expired_locked now s, failure access_denied none) in
        (get_task now id auth s ≡ refused)
        × ((status : TaskStatus) (message : Option String)
            → update_task_status iso now later id status message auth s ≡ refused)
        × ((status : TaskStatus) (message : Option String) (result : J)
            → set_task_result iso now later id status message result auth s ≡ refused)
        × ((status : TaskStatus) (message : Option String) (e : JsonRpcError J)
            → set_task_error iso now later id status message e auth s ≡ refused)
        × ((message : Option String) (e : JsonRpcError J)
            → cancel_task iso now later id message e auth s ≡ refused)
        × (wait_round now id auth s ≡ (
          purge_expired_locked now s,
          some (record {
            error = access_denied;
            task = default_task;
            result = none;
            error_payload = none;
          }),
        ))
  unfolding get_task update_task_status set_task_result set_task_error cancel_task wait_round
  operations_denied s now later id t auth held refused =
      let e = access-eq-denied id auth (purge_expired_locked now s) t held refused in
      (
        rw (e, get_task),
        λ status message. rw (e, update_task_status),
        λ status message result. rw (e, settle),
        λ status message err. rw (e, settle),
        λ message err. rw (e, settle),
        rw (e, wait_round),
      )
