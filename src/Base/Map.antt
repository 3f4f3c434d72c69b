-- ===== src/Base/Map.antt =====
-- Association lists for the standard library's maps, over keys with a decidable equality.
use Prim.Native.Nat.{◌+◌, ◌≤◌, ℕ}
use mathlib.Core.Path.{◌≡◌, refl, subst}
use mathlib.Core.Logic.{ite, if_pos, if_neg, inl, inr}
use mathlib.Core.Bool.{Bool}
use mathlib.Core.List.{List, [], ◌∷◌}
use mathlib.Core.Option.{Option, none, some}
use native.Mathlib.Omega.{arith}
use cpp_mcp_sdk.Base.Lists.{length}
use cpp_mcp_sdk.Base.Tests.{if◌then◌else◌, Bool-cases}

-- What a lookup in the retained entries gives.
abbrev pub keep_if {ℓ} : {V : Type ℓ} → (V → Bool) → Option V → Option V
keep_if p none = none
keep_if p (some v) = if p v then some v else none

module _ {ℓ} {K V : Type ℓ} where
  -- The entries whose value passes the test.
  unfoldable pub retain : (V → Bool) → List (K × V) → List (K × V)
  retain p [] = []
  retain p ((k, v) ∷ m) = if p v then (k, v) ∷ retain p m else retain p m

  unfoldable pub count_if : (V → Bool) → List (K × V) → ℕ
  count_if p [] = 0
  count_if p ((k, v) ∷ m) = (if p v then 1 else 0) + count_if p m

  pub count_if-retain-le :
      (p q : V → Bool) (m : List (K × V)) → count_if p (retain q m) ≤ count_if p m
  unfolding retain count_if
  count_if-retain-le p q [] = omega arith
  count_if-retain-le p q ((k, v) ∷ m) = ground (arith, count_if-retain-le p q m)

module _ {ℓ} {K V : Type ℓ} (eq : Discrete K) where
  unfoldable pub lookup : K → List (K × V) → Option V
  lookup k [] = none
  lookup k ((j, v) ∷ m) = ite (eq j k) (some v) (lookup k m)

  -- `m[k] = v`.
  unfoldable pub insert : K → V → List (K × V) → List (K × V)
  insert k v [] = (k, v) ∷ []
  insert k v ((j, w) ∷ m) = ite (eq j k) ((k, v) ∷ m) ((j, w) ∷ insert k v m)

  -- `m.erase(k)`.
  unfoldable pub erase : K → List (K × V) → List (K × V)
  erase k [] = []
  erase k ((j, w) ∷ m) = ite (eq j k) (erase k m) ((j, w) ∷ erase k m)

  -- No key stands twice.
  abbrev pub Distinct : List (K × V) → Type ℓ
  Distinct [] = Unit
  Distinct ((k, v) ∷ m) = (lookup k m ≡ none) × Distinct m

  pub lookup-insert :
      (k j : K) (v : V) (m : List (K × V))
      → lookup j (insert k v m) ≡ ite (eq k j) (some v) (lookup j m)
  unfolding lookup insert
  lookup-insert k j v [] = refl
  lookup-insert k j v ((i, w) ∷ m) = ground (arith, lookup-insert k j v m)

  pub lookup-erase :
      (k j : K) (m : List (K × V)) → lookup j (erase k m) ≡ ite (eq k j) none (lookup j m)
  unfolding lookup erase
  lookup-erase k j [] = ground arith
  lookup-erase k j ((i, w) ∷ m) = ground (arith, lookup-erase k j m)

  lookup-retain_absent :
      (p : V → Bool) (k : K) (m : List (K × V)) → lookup k m ≡ none → lookup k (retain p m) ≡ none
  unfolding lookup retain
  lookup-retain_absent p k [] h = refl
  lookup-retain_absent p k ((j, w) ∷ m) h = ground (arith, lookup-retain_absent p k m)

  pub lookup-retain :
      (p : V → Bool) (k : K) (m : List (K × V))
      → Distinct m
      → lookup k (retain p m) ≡ keep_if p (lookup k m)
  unfolding lookup retain
  lookup-retain p k [] d = refl
  lookup-retain p k ((j, w) ∷ m) d =
      ground (arith, lookup-retain p k m d.1, lookup-retain_absent p k m, d.0)

  pub retain-Distinct : (p : V → Bool) (m : List (K × V)) → Distinct m → Distinct (retain p m)
  unfolding retain
  retain-Distinct p [] d = tt
  retain-Distinct p ((j, w) ∷ m) d =
      ground (arith, retain-Distinct p m d.1, lookup-retain_absent p j m d.0)

  pub insert-Distinct : (k : K) (v : V) (m : List (K × V)) → Distinct m → Distinct (insert k v m)
  unfolding insert lookup
  insert-Distinct k v [] d = (refl, tt)
  insert-Distinct k v ((j, w) ∷ m) d =
      ground (arith, insert-Distinct k v m d.1, lookup-insert k j v m)

  pub erase-Distinct : (k : K) (m : List (K × V)) → Distinct m → Distinct (erase k m)
  unfolding erase
  erase-Distinct k [] d = tt
  erase-Distinct k ((j, w) ∷ m) d = ground (arith, erase-Distinct k m d.1, lookup-erase k j m)

  pub length-insert-le : (k : K) (v : V) (m : List (K × V)) → length (insert k v m) ≤ length m + 1
  unfolding insert
  length-insert-le k v [] = omega arith
  length-insert-le k v ((i, w) ∷ m) = ground (arith, length-insert-le k v m)

  pub length-erase-le : (k : K) (m : List (K × V)) → length (erase k m) ≤ length m
  unfolding erase
  length-erase-le k [] = omega arith
  length-erase-le k ((i, w) ∷ m) = ground (arith, length-erase-le k m)

  -- A new entry counts for itself.
  pub count_if-insert_new :
      (p : V → Bool) (k : K) (v : V) (m : List (K × V))
      → lookup k m ≡ none
      → count_if p (insert k v m) ≡ count_if p m + (if p v then 1 else 0)
  unfolding lookup insert count_if
  count_if-insert_new p k v [] h = omega arith
  count_if-insert_new p k v ((j, w) ∷ m) h = ground (arith, count_if-insert_new p k v m)

  -- An entry that is written again counts for its new value in place of its old one.
  pub count_if-insert_old :
      (p : V → Bool) (k : K) (v w : V) (m : List (K × V))
      → lookup k m ≡ some w
      → count_if p (insert k v m) + (if p w then 1 else 0) ≡ count_if p m + (if p v then 1 else 0)
  unfolding lookup insert count_if
  count_if-insert_old p k v w [] h = cc
  count_if-insert_old p k v w ((j, u) ∷ m) h = ground (arith, count_if-insert_old p k v w m)

module _ {ℓ κ} {K V : Type ℓ} (P : V → Type κ) where
  -- A statement about every value.
  abbrev pub AllValues : List (K × V) → Type κ
  AllValues [] = Unit
  AllValues ((k, v) ∷ m) = P v × AllValues m

  pub AllValues-retain : (p : V → Bool) (m : List (K × V)) → AllValues m → AllValues (retain p m)
  unfolding retain
  AllValues-retain p [] h = tt
  AllValues-retain p ((k, v) ∷ m) h = elim (Bool-cases (p v)) [
    | inl keep ↦ rw keep (h.0, AllValues-retain p m h.1)
    | inr drop ↦ rw drop (AllValues-retain p m h.1)
  ]

module _ {ℓ κ} {K V : Type ℓ} (P : V → Type κ) (eq : Discrete K) where
  pub AllValues-insert :
      (k : K) (v : V) (m : List (K × V)) → P v → AllValues P m → AllValues P (insert eq k v m)
  unfolding insert
  AllValues-insert k v [] p h = (p, tt)
  AllValues-insert k v ((j, w) ∷ m) p h = elim (eq j k) [
    | yes hit ↦ rw (if_pos _ hit) (p, h.1)
    | no miss ↦ rw (if_neg _ miss) (h.0, AllValues-insert k v m p h.1)
  ]

  pub AllValues-lookup :
      (k : K) (v : V) (m : List (K × V)) → AllValues P m → lookup eq k m ≡ some v → P v
  unfolding lookup
  AllValues-lookup k v [] h e = cc
  AllValues-lookup k v ((j, w) ∷ m) h e = elim (eq j k) [
    | yes hit ↦ let same : w ≡ v = ground arith in subst P same h.0
    | no miss ↦ AllValues-lookup k v m h.1 (rw (if_neg _ miss) at e)
  ]
