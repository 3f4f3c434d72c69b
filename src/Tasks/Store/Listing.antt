-- ===== src/Tasks/Store/Listing.antt =====
-- The order and the contents of `listTasks`.
use mathlib.Core.List.{Perm, filter}
use mathlib.Core.Bool.{Bool-discrete}
use cpp_mcp_sdk.Base.Map.{retain}
use mathlib.Core.List.Perm
use cpp_mcp_sdk.Base.{
  ℕ, ◌≤◌, String, true, Option, List, [], ◌∷◌, map, ◌≡◌, refl, arith, inl, inr, Bool, not, ◌&&◌,
  Bool-cases, ltb,
}
use cpp_mcp_sdk.Tasks.Store.{StoredTask, Store, check_access, purge_expired_locked, is_expired}
use cpp_mcp_sdk.Tasks.Store.Ops.{visible, list_tasks, sort_by_sequence, place}

module _ {J : Type 0} where
  -- The sequence numbers do not fall along the list, and start at the bound or later.
  abbrev pub SortedFrom : ℕ → List (StoredTask J) → Type 0
  SortedFrom n [] = Unit
  SortedFrom n (t ∷ ts) = (n ≤ t.sequence) × SortedFrom t.sequence ts

  place-SortedFrom :
      (n : ℕ) (t : StoredTask J) (ts : List (StoredTask J))
      → n ≤ t.sequence
      → SortedFrom n ts
      → SortedFrom n (place t ts)
  unfolding place
  place-SortedFrom n t [] h s = (h, tt)
  place-SortedFrom n t (u ∷ us) h s = ground (arith, place-SortedFrom u.sequence t us)

  sort_by_sequence-SortedFrom : (ts : List (StoredTask J)) → SortedFrom 0 (sort_by_sequence ts)
  unfolding sort_by_sequence
  sort_by_sequence-SortedFrom [] = tt
  sort_by_sequence-SortedFrom (t ∷ ts) =
      place-SortedFrom 0 t (sort_by_sequence ts) (omega arith) (sort_by_sequence-SortedFrom ts)

  place-perm : (t : StoredTask J) (ts : List (StoredTask J)) → Perm (place t ts) (t ∷ ts)
  unfolding place
  place-perm t [] = Perm.refl _
  place-perm t (u ∷ us) = elim (Bool-cases (ltb u.sequence t.sequence)) [
    | inl before ↦ rw before (Perm.trans (Perm.cons u (place-perm t us)) (Perm.swap t u us))
    | inr here ↦ rw here (Perm.refl _)
  ]

  sort_by_sequence-perm : (ts : List (StoredTask J)) → Perm (sort_by_sequence ts) ts
  unfolding sort_by_sequence
  sort_by_sequence-perm [] = Perm.refl _
  sort_by_sequence-perm (t ∷ ts) =
      Perm.trans (place-perm t (sort_by_sequence ts)) (Perm.cons t (sort_by_sequence-perm ts))

  -- Is the task alive, and may the caller access it?
  abbrev pub is_listed : ℕ → Option String → StoredTask J → Bool
  is_listed now auth t = not (is_expired now t) && check_access t auth

  visible-retain :
      (now : ℕ) (auth : Option String) (m : List (String × StoredTask J))
      → visible auth (retain (λ t. not (is_expired now t)) m)
        ≡ filter (λ t. Bool-discrete (is_listed now auth t) true) (map (λ entry. entry.1) m)
  unfolding visible retain
  visible-retain now auth [] = refl
  visible-retain now auth ((k, t) ∷ m) = ground (arith, visible-retain now auth m)

  -- `listTasks` gives, in the order of their creation numbers, the tasks of exactly the stored entries
  -- that are not expired and that the caller may access, each as often as it is stored.
  pub list_tasks_lem :
      (now : ℕ) (auth : Option String) (s : Store J)
      → (entries : List (StoredTask J)) × ((list_tasks now auth s).1 ≡ map (λ t. t.task) entries)
        × Perm entries (
            filter
              (λ t. Bool-discrete (is_listed now auth t) true)
              (map (λ entry. entry.1) s.tasks))
        × SortedFrom 0 entries
  unfolding list_tasks purge_expired_locked
  list_tasks_lem now auth s =
      let seen = visible auth (purge_expired_locked now s).tasks in
      (
        sort_by_sequence seen,
        refl,
        Perm.trans (sort_by_sequence-perm seen)
            (rw (visible-retain now auth s.tasks) (Perm.refl _)),
        sort_by_sequence-SortedFrom seen,
      )
