-- ===== src/Http/Events/DataLines.antt =====
-- The lines of the data of an event, written and read back.
use mathlib.Core.List
use cpp_mcp_sdk.Base.{
  ℕ, Bool, true, not, ◌&&◌, List, [], ◌∷◌, ◌++◌, ◌==◌, all, codes, ◌≡◌, refl, ◌∙◌, ap, arith, inl,
  inr, Bool-cases,
}
use cpp_mcp_sdk.Http.Events.{
  Event, is_valid_sse_field_value, split_lines, data_line, data_lines, append_data_lines,
  split_field, set_field, take_stripped, parse_from,
}
use cpp_mcp_sdk.Http.Events.Fields.{parse_from-line}

-- A line of data adds itself and a newline.
abbrev pub with_data : Event → List ℕ → Event
with_data e text = record e { data_ = text }

data-line :
    (current : Event) (has : Bool) (line : List ℕ)
    → take_stripped (codes "data: " ++ line) current has ≡ record {
      emitted = [];
      current = with_data current (current.data_ ++ (line ++ (10 ∷ [])));
      has_fields = true;
    }
unfolding take_stripped set_field split_field
data-line current has line = refl

data-line_empty :
    (current : Event) (has : Bool)
    → take_stripped (codes "data:") current has ≡ record {
      emitted = [];
      current = with_data current (current.data_ ++ (10 ∷ []));
      has_fields = true;
    }
unfolding take_stripped set_field split_field
data-line_empty current has = refl

data_line-step :
    (current : Event) (has : Bool) (line rest : List ℕ)
    → is_valid_sse_field_value line ≡ true
    → parse_from current has (data_line line rest)
      ≡ parse_from (with_data current (current.data_ ++ (line ++ (10 ∷ [])))) true rest
data_line-step current has [] rest h =
    parse_from-line current has (codes "data:") rest refl ∙ rw (data-line_empty current has) refl
data_line-step current has (c ∷ line) rest h =
    parse_from-line current has (codes "data: " ++ (c ∷ line)) rest h
    ∙ rw (data-line current has (c ∷ line)) refl

joined : List ℕ → List (List ℕ) → List ℕ
joined line [] = line ++ (10 ∷ [])
joined line (next ∷ more) = line ++ (10 ∷ joined next more)

joined-cons :
    (c : ℕ) (line : List ℕ) (more : List (List ℕ)) → joined (c ∷ line) more ≡ c ∷ joined line more
unfolding joined
joined-cons c line [] = refl
joined-cons c line (next ∷ more) = refl

joined-split_lines : (d : List ℕ) → joined (split_lines d).0 (split_lines d).1 ≡ d ++ (10 ∷ [])
unfolding split_lines joined
joined-split_lines [] = refl
joined-split_lines (c ∷ s) = elim (Bool-cases (c == 10)) [
  | inl e ↦
      let same : c ≡ 10 = ground arith in rw (e, split_lines) (rw (joined-split_lines s, same) refl)
  | inr e ↦
      rw (e, split_lines)
        (rw (joined-cons c (split_lines s).0 (split_lines s).1, joined-split_lines s) refl)
]

lines_valid : List ℕ → List (List ℕ) → Bool
lines_valid line [] = is_valid_sse_field_value line
lines_valid line (next ∷ more) = is_valid_sse_field_value line && lines_valid next more

lines_valid-cons :
    (c : ℕ) (line : List ℕ) (more : List (List ℕ))
    → not (c == 10) && not (c == 13) ≡ true
    → lines_valid line more ≡ true
    → lines_valid (c ∷ line) more ≡ true
unfolding lines_valid
lines_valid-cons c line [] h v = ground arith
lines_valid-cons c line (next ∷ more) h v = ground arith

split_lines-valid :
    (d : List ℕ)
    → all (λ c. not (c == 13)) d ≡ true
    → lines_valid (split_lines d).0 (split_lines d).1 ≡ true
unfolding split_lines lines_valid
split_lines-valid [] h = refl
split_lines-valid (c ∷ s) h =
    let rest = split_lines-valid s (ground arith) in
    elim (Bool-cases (c == 10)) [
      | inl e ↦ rw (e, split_lines) rest
      | inr e ↦
          rw (e, split_lines)
            (lines_valid-cons c (split_lines s).0 (split_lines s).1 (ground (arith, e)) rest)
    ]

joined-append :
    (d line : List ℕ) (next : List ℕ) (more : List (List ℕ))
    → (d ++ (line ++ (10 ∷ []))) ++ joined next more ≡ d ++ joined line (next ∷ more)
unfolding joined
joined-append d line next more =
    List.append_assoc d (line ++ (10 ∷ [])) (joined next more)
    ∙ ap (λ t. d ++ t) (List.append_assoc line (10 ∷ []) (joined next more))

data_lines-step :
    (current : Event) (has : Bool) (line : List ℕ) (more : List (List ℕ)) (rest : List ℕ)
    → lines_valid line more ≡ true
    → parse_from current has (data_lines line more rest)
      ≡ parse_from (with_data current (current.data_ ++ joined line more)) true rest
unfolding data_lines lines_valid
data_lines-step current has line [] rest h = unfold joined in data_line-step current has line rest h
data_lines-step current has line (next ∷ more) rest h =
    let text = current.data_ ++ (line ++ (10 ∷ [])) in
    data_line-step current has line (data_lines next more rest) (ground arith)
    ∙ data_lines-step (with_data current text) true next more rest (ground arith)
    ∙ ap (λ t. parse_from (with_data current t) true rest)
        (joined-append current.data_ line next more)

pub data-step :
    (current : Event) (has : Bool) (d rest : List ℕ)
    → current.data_ ≡ []
    → all (λ c. not (c == 13)) d ≡ true
    → parse_from current has (append_data_lines d rest)
      ≡ parse_from (with_data current (d ++ (10 ∷ []))) true rest
unfolding append_data_lines
data-step current has d rest none_ h =
    data_lines-step current has (split_lines d).0 (split_lines d).1 rest (split_lines-valid d h)
    ∙ ap (λ t. parse_from (with_data current t) true rest) (rw none_ (joined-split_lines d))
