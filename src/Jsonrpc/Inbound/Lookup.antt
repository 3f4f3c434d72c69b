-- ===== src/Jsonrpc/Inbound/Lookup.antt =====
-- The lookups in the maps of the inbound half, after a change of one.
use cpp_mcp_sdk.Base.{String, none, some, [], ◌≡◌, ite, arith, String-discrete}
use cpp_mcp_sdk.Base.Nested.{find_in-nil, find_in-put_in, find_in-erase_in, find_in-drop_in}
use cpp_mcp_sdk.Jsonrpc.Messages.{RequestId, RequestId-discrete}
use cpp_mcp_sdk.Jsonrpc.Inbound.{BySender, find_at, put_at, erase_at, drop_at}

module _ {V : Type 0} where
  pub find_at-put_at :
      (s t : String) (k j : RequestId) (v : V) (m : BySender V)
      → find_at t j (put_at s k v m)
        ≡ ite
            (String-discrete s t)
            (ite (RequestId-discrete k j) (some v) (find_at t j m))
            (find_at t j m)
  find_at-put_at s t k j v m = find_in-put_in String-discrete RequestId-discrete s t k j v m

  pub find_at-erase_at :
      (s t : String) (k j : RequestId) (m : BySender V)
      → find_at t j (erase_at s k m)
        ≡ ite
            (String-discrete s t)
            (ite (RequestId-discrete k j) none (find_at t j m))
            (find_at t j m)
  find_at-erase_at s t k j m = find_in-erase_in String-discrete RequestId-discrete s t k j m

  pub find_at-drop_at :
      (s t : String) (k j : RequestId) (m : BySender V)
      → find_at t j (drop_at s k m)
        ≡ ite
            (String-discrete s t)
            (ite (RequestId-discrete k j) none (find_at t j m))
            (find_at t j m)
  find_at-drop_at s t k j m = find_in-drop_in String-discrete RequestId-discrete s t k j m

  pub find_at-nil : (s : String) (k : RequestId) → find_at {V = V} s k [] ≡ none
  find_at-nil s k = find_in-nil String-discrete RequestId-discrete s k

  pub find_at-put_at_same :
      (s : String) (k : RequestId) (v : V) (m : BySender V) → find_at s k (put_at s k v m) ≡ some v
  find_at-put_at_same s k v m = ground (arith, find_at-put_at s s k k v m)

  pub find_at-erase_at_same :
      (s : String) (k : RequestId) (m : BySender V) → find_at s k (erase_at s k m) ≡ none
  find_at-erase_at_same s k m = ground (arith, find_at-erase_at s s k k m)

  pub find_at-drop_at_same :
      (s : String) (k : RequestId) (m : BySender V) → find_at s k (drop_at s k m) ≡ none
  find_at-drop_at_same s k m = ground (arith, find_at-drop_at s s k k m)

  module _ (s t : String) (k j : RequestId) (m : BySender V) (other : ¬ ((s ≡ t) × (k ≡ j))) where
    pub find_at-put_at_other : (v : V) → find_at t j (put_at s k v m) ≡ find_at t j m
    find_at-put_at_other v = ground (arith, find_at-put_at s t k j v m, other)

    pub find_at-erase_at_other : find_at t j (erase_at s k m) ≡ find_at t j m
    find_at-erase_at_other = ground (arith, find_at-erase_at s t k j m, other)

    pub find_at-drop_at_other : find_at t j (drop_at s k m) ≡ find_at t j m
    find_at-drop_at_other = ground (arith, find_at-drop_at s t k j m, other)
