-- ===== src/Http/Streams/Replay.antt =====
-- What a stream replays (src/transport/http/server.cpp).
use Prim.Native.Nat.{◌-◌}
use cpp_mcp_sdk.Base.{
  ℕ, zero, suc, ◌+◌, ◌^◌, ◌<◌, true, false, List, [], ◌∷◌, ◌≡◌, refl, sym, ap, ◌∙◌, length, drop,
  ltb, map, arith, dec_lt, drop-nil, drop-drop, length-drop,
}
use cpp_mcp_sdk.Http.Events.{Event}
use cpp_mcp_sdk.Http.Streams.{StreamEventRecord, replay_from, is_outside_window}
use cpp_mcp_sdk.Http.Streams.Retained.{last_of, numbered, length-numbered}

numbered-drop :
    (k : ℕ) (id : List ℕ) (n : ℕ) (ds : List (List ℕ))
    → drop k (numbered id n ds) ≡ numbered id (n + k) (drop k ds)
numbered-drop zero id n ds = ap (λ m. numbered id m ds) (omega arith)
numbered-drop (suc k) id n [] = refl
numbered-drop (suc k) id n (d ∷ ds) =
    let sum : n + 1 + k ≡ n + suc k = omega arith in
    numbered-drop k id (n + 1) ds ∙ ap (λ m. numbered id m (drop k ds)) sum

-- The events of a stream for the data that were appended to it.
abbrev pub events_of : List StreamEventRecord → List Event
events_of rs = map (λ r. r.event) rs

replay_from-later :
    (id : List ℕ) (n c : ℕ) (ds : List (List ℕ))
    → c < n
    → replay_from (numbered id n ds) c ≡ events_of (numbered id n ds)
unfolding replay_from
replay_from-later id n c [] lt = refl
replay_from-later id n c (d ∷ ds) lt =
    let below : ltb c n ≡ true = ground arith in
    rw (replay_from, below, replay_from-later id (n + 1) c ds (omega arith)) refl

replay_from-numbered :
    (id : List ℕ) (n c : ℕ) (ds : List (List ℕ))
    → replay_from (numbered id n ds) c ≡ events_of (drop (c + 1 - n) (numbered id n ds))
unfolding replay_from
replay_from-numbered id n c [] = ap events_of (sym (drop-nil (c + 1 - n)))
replay_from-numbered id n c (d ∷ ds) = elim (dec_lt c n) [
  | yes later ↦
      let none_dropped : c + 1 - n ≡ zero = omega arith in
      replay_from-later id n c (d ∷ ds) later
      ∙ ap (λ k. events_of (drop k (numbered id n (d ∷ ds)))) (sym none_dropped)
  | no sent ↦
      let below : ltb c n ≡ false = ground arith in
      let dropped : c + 1 - n ≡ suc (c + 1 - (n + 1)) = omega arith in
      rw (replay_from, below, dropped) (replay_from-numbered id (n + 1) c ds)
]

-- What a stream retains of its events when at most `max` are kept.
retained :
    (id : List ℕ) (max : ℕ) (ds : List (List ℕ))
    → last_of max (numbered id 1 ds)
      ≡ numbered id (1 + (length ds - max)) (drop (length ds - max) ds)
retained id max ds = rw (length-numbered id 1 ds) (numbered-drop (length ds - max) id 1 ds)

pub is_outside_window-retained :
    (id : List ℕ) (max c : ℕ) (ds : List (List ℕ))
    → 0 < max
    → c + 1 < 2 ^ 64
    → is_outside_window (last_of max (numbered id 1 ds)) c ≡ ltb (c + max) (length ds)
unfolding is_outside_window
is_outside_window-retained id max c ds some_kept small =
    rw (retained id max ds)
      (first_retained (drop (length ds - max) ds) (length-drop (length ds - max) ds))
  where
    first_retained :
        (left : List (List ℕ))
        → length left ≡ length ds - (length ds - max)
        → is_outside_window (numbered id (1 + (length ds - max)) left) c ≡ ltb (c + max) (length ds)
    first_retained [] e = ground arith
    first_retained (d ∷ left) e = ground arith

pub replay_from-retained :
    (id : List ℕ) (max c : ℕ) (ds : List (List ℕ))
    → ltb (c + max) (length ds) ≡ false
    → replay_from (last_of max (numbered id 1 ds)) c ≡ events_of (drop c (numbered id 1 ds))
replay_from-retained id max c ds inside =
    let k = length ds - max in
    let all = numbered id 1 ds in
    let sum : k + (c + 1 - (1 + k)) ≡ c = ground arith in
    ap (λ rs. replay_from rs c) (retained id max ds)
    ∙ replay_from-numbered id (1 + k) c (drop k ds)
    ∙ ap (λ rs. events_of (drop (c + 1 - (1 + k)) rs)) (sym (numbered-drop k id 1 ds))
    ∙ ap events_of (drop-drop (c + 1 - (1 + k)) k all)
    ∙ ap (λ n. events_of (drop n all)) sum

pub replay_from-first :
    (id : List ℕ) (max : ℕ) (ds : List (List ℕ))
    → replay_from (last_of max (numbered id 1 ds)) 0 ≡ events_of (last_of max (numbered id 1 ds))
replay_from-first id max ds =
    rw (retained id max ds)
      (replay_from-later id (1 + (length ds - max)) 0 (drop (length ds - max) ds) (omega arith))
