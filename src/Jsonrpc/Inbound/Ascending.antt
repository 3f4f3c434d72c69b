-- ===== src/Jsonrpc/Inbound/Ascending.antt =====
-- The values of a request's progress, in their order (`emitProgress` of src/jsonrpc/router.cpp).
use cpp_mcp_sdk.Base.{All, Bool, false, Option, none, some, List, [], ◌∷◌, ◌≡◌}
use cpp_mcp_sdk.Jsonrpc.Inbound.{not_above}

-- Each value is above the one before it.
abbrev pub Rising : {D : Type 0} → (D → D → Bool) → Option D → List D → Type 0
Rising le last [] = Unit
Rising le last (p ∷ ps) = (not_above le p last ≡ false) × Rising le (some p) ps

abbrev pub OnSome : {D : Type 0} → (D → Type 0) → Option D → Type 0
OnSome Q none = Unit
OnSome Q (some d) = Q d

abbrev pub AboveLast : {D : Type 0} → (D → D → Type 0) → Option D → D → Type 0
AboveLast lt none p = Unit
AboveLast lt (some last) p = lt last p

-- Each value is below all that follow it.
abbrev pub Ascending : {D : Type 0} → (D → D → Type 0) → List D → Type 0
Ascending lt [] = Unit
Ascending lt (p ∷ ps) = All (lt p) ps × Ascending lt ps

module _ {D : Type 0} (le : D → D → Bool) (IsNumber : D → Type 0) (lt : D → D → Type 0)
    (decides : (a b : D) → IsNumber a → IsNumber b → le a b ≡ false → lt b a)
    (trans : (a b c : D) → lt a b → lt b c → lt a c) where
  below_following :
      (a p : D) (ps : List D)
      → lt a p
      → IsNumber p
      → Rising le (some p) ps
      → All IsNumber ps
      → All (lt a) ps
  below_following a p [] below n rising ns = tt
  below_following a p (q ∷ ps) below n rising ns =
      let next = trans a p q below (decides q p ns.0 n rising.0) in
      (next, below_following a q ps next ns.0 rising.1 ns.1)

  none_above : (ps : List D) → All (AboveLast lt none) ps
  none_above [] = tt
  none_above (p ∷ ps) = (tt, none_above ps)

  pub Rising-Ascending :
      (last : Option D) (ps : List D)
      → Rising le last ps
      → OnSome IsNumber last
      → All IsNumber ps
      → All (AboveLast lt last) ps × Ascending lt ps
  Rising-Ascending none [] rising n ns = (tt, tt)
  Rising-Ascending (some last) [] rising n ns = (tt, tt)
  Rising-Ascending none (p ∷ ps) rising n ns =
      let rest = Rising-Ascending (some p) ps rising.1 ns.0 ns.1 in ((tt, none_above ps), rest)
  Rising-Ascending (some last) (p ∷ ps) rising n ns =
      let next = decides p last ns.0 n rising.0 in
      let rest = Rising-Ascending (some p) ps rising.1 ns.0 ns.1 in
      ((next, below_following last p ps next ns.0 rising.1 ns.1), rest)
