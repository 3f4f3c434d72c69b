-- ===== src/Server/Registry/Refinement.antt =====
-- A registry against a map from names to entries (src/server/server.cpp).
use cpp_mcp_sdk.Base.{
  String, Bool, true, false, Option, none, some, List, [], ◌≡◌, refl, arith, if◌then◌else◌, is_some,
  ◌=ₛ◌, Option-cases, inl, inr,
}
use mathlib.Core.Path.{sym}
use cpp_mcp_sdk.Server.Registry.{
  find_named, add_named, remove_named, UniqueNames, find_named-append, find_named-erase_named,
  append-UniqueNames, erase_named-UniqueNames,
}

-- A call at one registry: a registration, which brings no entry if the checks of the code refuse it, or
-- an unregistration.
pub data RegistryCall (T : Type 0) : Type 0 where
  brings : Option T → RegistryCall T
  drops : String → RegistryCall T

module _ {T : Type 0} (name : T → String) where
  -- The entries after a call, and whether it was done: a registration may throw, an unregistration
  -- may find nothing.
  abbrev pub added : Option (List T) → List T → List T × Bool
  added none ts = (ts, false)
  added (some us) ts = (us, true)

  unfoldable pub registry_step : RegistryCall T → List T → List T × Bool
  unfolding add_named remove_named
  registry_step (brings none) ts = (ts, false)
  registry_step (brings (some t)) ts = added (add_named name t ts) ts
  registry_step (drops n) ts = remove_named name n ts

  -- The same call on a map from names to entries.
  unfoldable pub map_step : RegistryCall T → (String → Option T) → (String → Option T) × Bool
  map_step (brings none) f = (f, false)
  map_step (brings (some t)) f =
      if is_some (f (name t))
      then (f, false)
      else ((λ n. if name t =ₛ n then some t else f n), true)
  map_step (drops n) f = ((λ m. if n =ₛ m then none else f m), is_some (f n))

  -- The list has unique names and gives the map's entries.
  pub record Represents (ts : List T) (f : String → Option T) : Type 0 where
    pub unique : UniqueNames name ts
    pub gives : (n : String) → find_named name n ts ≡ f n

  pub step-result :
      (c : RegistryCall T) (ts : List T) (f : String → Option T)
      → Represents ts f
      → (registry_step c ts).1 ≡ (map_step c f).1
  unfolding registry_step map_step
  step-result (brings none) ts f r = refl
  step-result (brings (some t)) ts f r = ground (arith, r.gives (name t))
  step-result (drops n) ts f r = ground (arith, r.gives n)

  pub step-Represents :
      (c : RegistryCall T) (ts : List T) (f : String → Option T)
      → Represents ts f
      → Represents (registry_step c ts).0 (map_step c f).0
  unfolding registry_step map_step remove_named add_named
  step-Represents (brings none) ts f r = r
  step-Represents (brings (some t)) ts f r = elim (Option-cases (find_named name (name t) ts)) [
    | inl e ↦
        rw (e, registry_step, add_named, map_step, sym (r.gives (name t)), e)
          (record {
            unique = append-UniqueNames name ts t r.unique e;
            gives = λ m. ground (arith, find_named-append name m ts t, r.gives m, e);
          })
    | inr (s, e) ↦ rw (e, registry_step, add_named, map_step, sym (r.gives (name t)), e) r
  ]
  step-Represents (drops n) ts f r = elim (Option-cases (find_named name n ts)) [
    | inl e ↦
        rw (e, registry_step, remove_named, map_step)
          (record { unique = r.unique; gives = λ m. ground (arith, r.gives m, e) })
    | inr (s, e) ↦
        rw (e, registry_step, remove_named, map_step)
          (record {
            unique = erase_named-UniqueNames name n ts r.unique;
            gives = λ m. ground (arith, find_named-erase_named name n m ts r.unique, r.gives m);
          })
  ]

  pub empty-Represents : Represents [] (λ n. none)
  unfolding find_named
  empty-Represents = record { unique = tt; gives = λ n. refl }
