-- ===== src/Server/Registry.antt =====
-- The lists of what a server offers, as src/server/server.cpp keeps them: an entry is found by its
-- name, added at the end unless the name is taken (`throwIfDuplicateExists` of
-- include/mcp/server/detail/helpers.hpp), and removed by its name.
pub mod Refinement
use cpp_mcp_sdk.Base.{
  String, Bool, true, false, Option, none, some, List, [], ◌∷◌, ◌++◌, ◌≡◌, refl, arith,
  if◌then◌else◌, is_some, ◌=ₛ◌, ap, Bool-cases, Option-cases, inl, inr,
}

module _ {T : Type 0} (name : T → String) where
  -- `find_if` on the names.
  unfoldable pub find_named : String → List T → Option T
  find_named n [] = none
  find_named n (t ∷ ts) = let rest = find_named n ts in if name t =ₛ n then some t else rest

  -- `find_if` and `erase`: the first entry of the name goes.
  unfoldable pub erase_named : String → List T → List T
  erase_named n [] = []
  erase_named n (t ∷ ts) = let rest = erase_named n ts in if name t =ₛ n then ts else t ∷ rest

  -- The entries with a new one, unless the code throws.
  unfoldable pub add_named : T → List T → Option (List T)
  unfolding find_named
  add_named t ts = if is_some (find_named (name t) ts) then none else some (ts ++ (t ∷ []))

  unfoldable pub remove_named : String → List T → List T × Bool
  unfolding find_named erase_named
  remove_named n ts = if is_some (find_named n ts) then (erase_named n ts, true) else (ts, false)

  -- No name stands twice.
  abbrev pub UniqueNames : List T → Type 0
  UniqueNames [] = Unit
  UniqueNames (t ∷ ts) = (find_named (name t) ts ≡ none) × UniqueNames ts

  pub find_named-append :
      (n : String) (ts : List T) (t : T)
      → find_named n (ts ++ (t ∷ [])) ≡ (
          if is_some (find_named n ts)
          then find_named n ts
          else if name t =ₛ n
          then some t
          else none)
  unfolding find_named
  find_named-append n [] t = refl
  find_named-append n (u ∷ ts) t = ground (arith, find_named-append n ts t)

  pub find_named-erase_named :
      (n m : String) (ts : List T)
      → UniqueNames ts
      → find_named m (erase_named n ts) ≡ (if n =ₛ m then none else find_named m ts)
  unfolding find_named erase_named
  find_named-erase_named n m [] u = ground arith
  find_named-erase_named n m (t ∷ ts) u = ground (arith, find_named-erase_named n m ts u.1, u.0)

  pub append-UniqueNames :
      (ts : List T) (t : T)
      → UniqueNames ts
      → find_named (name t) ts ≡ none
      → UniqueNames (ts ++ (t ∷ []))
  unfolding find_named
  append-UniqueNames [] t u free = (refl, tt)
  append-UniqueNames (s ∷ ts) t u free =
      ground (arith, append-UniqueNames ts t u.1, find_named-append (name s) ts t, u.0, free)

  pub erase_named-UniqueNames :
      (n : String) (ts : List T) → UniqueNames ts → UniqueNames (erase_named n ts)
  unfolding erase_named find_named
  erase_named-UniqueNames n [] u = tt
  erase_named-UniqueNames n (t ∷ ts) u =
      ground (
        arith,
        erase_named-UniqueNames n ts u.1,
        find_named-erase_named n (name t) ts u.1,
        u.0,
        u.1,
      )
