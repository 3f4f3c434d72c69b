-- ===== src/Tasks/Store/Lifetime.antt =====
-- What calls do to a stored task: the steps of its status, and its other fields.
use cpp_mcp_sdk.Base.{
  ℕ, String, true, false, not, some, List, [], ◌∷◌, ◌≡◌, refl, sym, ◌∙◌, ap, ◌⊎◌, inl, inr, arith,
  All, String-discrete,
}
use mathlib.Core.Path.{subst}
use cpp_mcp_sdk.Base.Map.{Distinct, lookup-insert, lookup-retain, retain-Distinct, insert-Distinct}
use cpp_mcp_sdk.Tasks.Status.{is_terminal_task_status, is_valid_task_status_transition}
use cpp_mcp_sdk.Tasks.Store.{
  StoredTask, Store, is_expired, purge_expired_locked, find_task, put_task,
}
use cpp_mcp_sdk.Tasks.Store.Changes.{Change, keeps, writes, adds, Advances}
use cpp_mcp_sdk.Tasks.Store.History.{Call, clock, step, run, step-Change}

-- No id stands twice in the map.
abbrev pub HasDistinctIds : {J : Type 0} → Store J → Type 0
HasDistinctIds s = Distinct String-discrete s.tasks

module _ {J : Type 0} where
  find_task-purge :
      (now : ℕ) (id : String) (s : Store J) (t : StoredTask J)
      → HasDistinctIds s
      → find_task id s ≡ some t
      → is_expired now t ≡ false
      → find_task id (purge_expired_locked now s) ≡ some t
  unfolding find_task purge_expired_locked
  find_task-purge now id s t d h live = ground (
    arith,
    lookup-retain String-discrete (λ (u : StoredTask J). not (is_expired now u)) id s.tasks d,
  )

  -- A change leaves an entry as it is, or advances it, which a terminal one cannot.
  Change-find_task :
      {s s' : Store J} (id : String) (t : StoredTask J)
      → Change s s'
      → find_task id s ≡ some t
      → (u : StoredTask J) × (find_task id s' ≡ some u) × ((u ≡ t) ⊎ Advances t u)
  unfolding find_task put_task
  Change-find_task id t keeps h = (t, h, inl refl)
  Change-find_task {s = s} id t (writes k v w held a) h = elim (String-discrete k id) [
    | yes same ↦ (
      w,
      ground (arith, lookup-insert String-discrete k id w s.tasks),
      inr (subst (λ x. Advances x w) (ground arith) a),
    )
    | no other ↦ (t, ground (arith, lookup-insert String-discrete k id w s.tasks), inl refl)
  ]
  Change-find_task {s = s} id t (adds k v free _ _ _ _) h =
      (t, ground (arith, lookup-insert String-discrete k id v s.tasks), inl refl)

  Change-HasDistinctIds : {s s' : Store J} → Change s s' → HasDistinctIds s → HasDistinctIds s'
  unfolding put_task
  Change-HasDistinctIds keeps d = d
  Change-HasDistinctIds {s = s} (writes k v w held a) d =
      insert-Distinct String-discrete k w s.tasks d
  Change-HasDistinctIds {s = s} (adds k v free _ _ _ _) d =
      insert-Distinct String-discrete k v s.tasks d

  -- The entry after any number of steps of its status.
  pub data Descends (t : StoredTask J) : StoredTask J → Type 0 where
    start : Descends t t
    advance : {u v : StoredTask J} → Descends t u → Advances u v → Descends t v

  pub Descends-identity :
      {t u : StoredTask J}
      → Descends t u
      → (u.auth_context ≡ t.auth_context)
        × (u.expires_at ≡ t.expires_at)
        × (u.sequence ≡ t.sequence)
        × (u.task.task_id ≡ t.task.task_id)
  Descends-identity start = (refl, refl, refl, refl)
  Descends-identity (advance d a) =
      let (o, e, s, i) = Descends-identity d in
      (a.owner ∙ o, a.expires_at ∙ e, a.sequence ∙ s, a.task_id ∙ i)

  not-Advances_of_terminal :
      (t u : StoredTask J) → is_terminal_task_status t.task.status ≡ true → Advances t u → ⊥
  unfolding is_valid_task_status_transition
  not-Advances_of_terminal t u final a = let v = a.valid in ground arith

  pub Descends-terminal :
      {t u : StoredTask J} → Descends t u → is_terminal_task_status t.task.status ≡ true → u ≡ t
  Descends-terminal start final = refl
  Descends-terminal {t} (advance {u} {v} d a) final =
      absurd (not-Advances_of_terminal u v (rw (Descends-terminal d final) final) a)

module _ {J : Type 0} (iso : ℕ → String) where
  step-HasDistinctIds :
      (s : Store J) (c : Call J) → HasDistinctIds s → HasDistinctIds (step iso s c)
  unfolding purge_expired_locked
  step-HasDistinctIds s c d =
      Change-HasDistinctIds (step-Change iso s c) (retain-Distinct String-discrete _ s.tasks d)

  step-Advances :
      (s : Store J) (c : Call J) (id : String) (t : StoredTask J)
      → HasDistinctIds s
      → find_task id s ≡ some t
      → is_expired (clock c) t ≡ false
      → (u : StoredTask J) × (find_task id (step iso s c) ≡ some u) × ((u ≡ t) ⊎ Advances t u)
  step-Advances s c id t d h live =
      Change-find_task id t (step-Change iso s c) (find_task-purge (clock c) id s t d h live)

  Descends-step : {t u v : StoredTask J} → Descends t u → ((v ≡ u) ⊎ Advances u v) → Descends t v
  Descends-step {t} {u} {v} d (inl e) = subst (Descends t) (sym e) d
  Descends-step d (inr a) = advance d a

  run-Descends_from :
      (s : Store J) (cs : List (Call J)) (id : String) (t u : StoredTask J)
      → HasDistinctIds s
      → find_task id s ≡ some u
      → Descends t u
      → All (λ c. is_expired (clock c) t ≡ false) cs
      → (v : StoredTask J) × (find_task id (run iso s cs) ≡ some v) × Descends t v
  unfolding run is_expired
  run-Descends_from s [] id t u d h r live = (u, h, r)
  run-Descends_from s (c ∷ cs) id t u d h r live =
      let (v, found, moved) = step-Advances s c id u d h (rw ((Descends-identity r).1) (live.0)) in
      run-Descends_from (step iso s c) cs id t v (step-HasDistinctIds s c d) found
        (Descends-step r moved) live.1

  -- While the clock stays before its expiry, a task remains in the store under its id through any
  -- calls, and each change of it is a valid step of its status that keeps owner, expiry, id and sequence.
  pub run-Descends :
      (s : Store J) (cs : List (Call J)) (id : String) (t : StoredTask J)
      → HasDistinctIds s
      → find_task id s ≡ some t
      → All (λ c. is_expired (clock c) t ≡ false) cs
      → (u : StoredTask J) × (find_task id (run iso s cs) ≡ some u) × Descends t u
  run-Descends s cs id t d h live = run-Descends_from s cs id t t d h start live

  -- While the clock stays before its expiry, no calls change anything of a task in a terminal status.
  pub run_terminal :
      (s : Store J) (cs : List (Call J)) (id : String) (t : StoredTask J)
      → HasDistinctIds s
      → find_task id s ≡ some t
      → is_terminal_task_status t.task.status ≡ true
      → All (λ c. is_expired (clock c) t ≡ false) cs
      → find_task id (run iso s cs) ≡ some t
  run_terminal s cs id t d h final live =
      let (u, found, moved) = run-Descends s cs id t d h live in
      found ∙ ap some (Descends-terminal moved final)
