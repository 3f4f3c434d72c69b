-- ===== src/Base/Nested.antt =====
-- Maps of maps, as the code keeps them per sender: `m[s][k] = v`, lookups through both levels, and an
-- erase that drops a sender's map once it is empty.
use Prim.Native.Nat.{ℕ, ◌+◌, ◌≤◌}
use mathlib.Core.Path.{◌≡◌, refl}
use mathlib.Core.Logic.{ite, inl, inr}
use mathlib.Core.List.{List, [], ◌∷◌}
use mathlib.Core.Option.{Option, none, some}
use native.Mathlib.Omega.{arith}
use cpp_mcp_sdk.Base.Lists.{length}
use cpp_mcp_sdk.Base.Tests.{Option-cases}
use cpp_mcp_sdk.Base.Map.{
  lookup, insert, erase, lookup-insert, lookup-erase, length-insert-le, length-erase-le,
}

module _ {K V : Type 0} where
  -- The map of a sender, empty if there is none yet.
  abbrev pub rows_of : Option (List (K × V)) → List (K × V)
  rows_of none = []
  rows_of (some m) = m

  -- The number of entries of all senders.
  unfoldable pub total : {S : Type 0} → List (S × List (K × V)) → ℕ
  total [] = 0
  total ((s, m) ∷ rest) = length m + total rest

module _ {S K V : Type 0} (eqs : Discrete S) (eqk : Discrete K) where
  unfoldable pub find_in : S → K → List (S × List (K × V)) → Option V
  find_in s k m = lookup eqk k (rows_of (lookup eqs s m))

  unfoldable pub put_in : S → K → V → List (S × List (K × V)) → List (S × List (K × V))
  put_in s k v m = insert eqs s (insert eqk k v (rows_of (lookup eqs s m))) m

  -- `m[s].erase(k)`, which leaves the sender's map.
  unfoldable pub erase_in : S → K → List (S × List (K × V)) → List (S × List (K × V))
  erase_in s k m = insert eqs s (erase eqk k (rows_of (lookup eqs s m))) m

  -- An erase that drops the sender's map with its last entry.
  abbrev pub keep_rows : S → List (K × V) → List (S × List (K × V)) → List (S × List (K × V))
  keep_rows s [] m = erase eqs s m
  keep_rows s (e ∷ es) m = insert eqs s (e ∷ es) m

  abbrev pub drop_from :
      S → K → Option (List (K × V)) → List (S × List (K × V)) → List (S × List (K × V))
  drop_from s k none m = m
  drop_from s k (some rows) m = keep_rows s (erase eqk k rows) m

  unfoldable pub drop_in : S → K → List (S × List (K × V)) → List (S × List (K × V))
  drop_in s k m = drop_from s k (lookup eqs s m) m

  pub find_in-nil : (s : S) (k : K) → find_in s k [] ≡ none
  unfolding find_in lookup
  find_in-nil s k = refl

  -- What a sender's map is after each change of one.
  rows-put :
      (s t : S) (rows : List (K × V)) (m : List (S × List (K × V)))
      → rows_of (lookup eqs t (insert eqs s rows m)) ≡ ite (eqs s t) rows (rows_of (lookup eqs t m))
  rows-put s t rows m = ground (arith, lookup-insert eqs s t rows m)

  rows-keep :
      (s t : S) (rows : List (K × V)) (m : List (S × List (K × V)))
      → rows_of (lookup eqs t (keep_rows s rows m)) ≡ ite (eqs s t) rows (rows_of (lookup eqs t m))
  rows-keep s t [] m = ground (arith, lookup-erase eqs s t m)
  rows-keep s t (e ∷ es) m = rows-put s t (e ∷ es) m

  pub find_in-put_in :
      (s t : S) (k j : K) (v : V) (m : List (S × List (K × V)))
      → find_in t j (put_in s k v m)
        ≡ ite (eqs s t) (ite (eqk k j) (some v) (find_in t j m)) (find_in t j m)
  unfolding find_in put_in
  find_in-put_in s t k j v m =
      rw (rows-put s t (insert eqk k v (rows_of (lookup eqs s m))) m)
        (ground (arith, lookup-insert eqk k j v (rows_of (lookup eqs s m))))

  pub find_in-erase_in :
      (s t : S) (k j : K) (m : List (S × List (K × V)))
      → find_in t j (erase_in s k m)
        ≡ ite (eqs s t) (ite (eqk k j) none (find_in t j m)) (find_in t j m)
  unfolding find_in erase_in
  find_in-erase_in s t k j m =
      rw (rows-put s t (erase eqk k (rows_of (lookup eqs s m))) m)
        (ground (arith, lookup-erase eqk k j (rows_of (lookup eqs s m))))

  find_in-none :
      (s : S) (j : K) (m : List (S × List (K × V))) → lookup eqs s m ≡ none → find_in s j m ≡ none
  unfolding find_in lookup
  find_in-none s j m h = rw h refl

  find_in_absent :
      (s t : S) (k j : K) (m : List (S × List (K × V)))
      → lookup eqs s m ≡ none
      → find_in t j m ≡ ite (eqs s t) (ite (eqk k j) none (find_in t j m)) (find_in t j m)
  find_in_absent s t k j m h = ground (arith, find_in-none s j m h)

  pub find_in-drop_in :
      (s t : S) (k j : K) (m : List (S × List (K × V)))
      → find_in t j (drop_in s k m)
        ≡ ite (eqs s t) (ite (eqk k j) none (find_in t j m)) (find_in t j m)
  unfolding find_in drop_in
  find_in-drop_in s t k j m = elim (Option-cases (lookup eqs s m)) [
    | inl e ↦ rw e (find_in_absent s t k j m e)
    | inr (rows, e) ↦
        rw e (rw (rows-keep s t (erase eqk k rows) m) (ground (arith, lookup-erase eqk k j rows)))
  ]

  -- The totals.
  pub total-insert :
      (s : S) (rows : List (K × V)) (m : List (S × List (K × V)))
      → total (insert eqs s rows m) + length (rows_of (lookup eqs s m)) ≡ total m + length rows
  unfolding total insert lookup
  total-insert s rows [] = omega arith
  total-insert s rows ((t, old) ∷ m) = ground (arith, total-insert s rows m)

  pub total-erase : (s : S) (m : List (S × List (K × V))) → total (erase eqs s m) ≤ total m
  unfolding total erase
  total-erase s [] = omega arith
  total-erase s ((t, rows) ∷ m) = ground (arith, total-erase s m)

  pub total-put_in-le :
      (s : S) (k : K) (v : V) (m : List (S × List (K × V))) → total (put_in s k v m) ≤ total m + 1
  unfolding put_in
  total-put_in-le s k v m = omega (
    arith,
    total-insert s (insert eqk k v (rows_of (lookup eqs s m))) m,
    length-insert-le eqk k v (rows_of (lookup eqs s m)),
  )

  pub total-erase_in-le :
      (s : S) (k : K) (m : List (S × List (K × V))) → total (erase_in s k m) ≤ total m
  unfolding erase_in
  total-erase_in-le s k m = omega (
    arith,
    total-insert s (erase eqk k (rows_of (lookup eqs s m))) m,
    length-erase-le eqk k (rows_of (lookup eqs s m)),
  )

  total-keep_rows-le :
      (s : S) (rows : List (K × V)) (m : List (S × List (K × V)))
      → length rows ≤ length (rows_of (lookup eqs s m))
      → total (keep_rows s rows m) ≤ total m
  total-keep_rows-le s [] m h = total-erase s m
  total-keep_rows-le s (e ∷ es) m h = omega (arith, total-insert s (e ∷ es) m)

  pub total-drop_in-le :
      (s : S) (k : K) (m : List (S × List (K × V))) → total (drop_in s k m) ≤ total m
  unfolding drop_in
  total-drop_in-le s k m = elim (Option-cases (lookup eqs s m)) [
    | inl e ↦ rw e (omega arith)
    | inr (rows, e) ↦
        rw e (total-keep_rows-le s (erase eqk k rows) m (rw e (length-erase-le eqk k rows)))
  ]

  -- A value that is written again does not grow the total.
  length-insert_held :
      (k : K) (v w : V) (rows : List (K × V))
      → lookup eqk k rows ≡ some w
      → length (insert eqk k v rows) ≤ length rows
  unfolding lookup insert
  length-insert_held k v w [] h = cc
  length-insert_held k v w ((j, u) ∷ rows) h = ground (arith, length-insert_held k v w rows)

  pub total-put_in_held :
      (s : S) (k : K) (v w : V) (m : List (S × List (K × V)))
      → find_in s k m ≡ some w
      → total (put_in s k v m) ≤ total m
  unfolding put_in find_in
  total-put_in_held s k v w m h = omega (
    arith,
    total-insert s (insert eqk k v (rows_of (lookup eqs s m))) m,
    length-insert_held k v w (rows_of (lookup eqs s m)) h,
  )
