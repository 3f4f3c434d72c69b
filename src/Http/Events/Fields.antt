-- ===== src/Http/Events/Fields.antt =====
-- The lines of the fields of an event, written and read back.
use Prim.Native.Nat.{◌/◌}
use cpp_mcp_sdk.Base.{
  ℕ, zero, suc, ◌+◌, ◌^◌, ◌%◌, ◌<◌, Bool, true, not, Option, none, some, List, [], ◌∷◌, ◌++◌, ltb,
  ◌==◌, all, codes, ◌≡◌, refl, ◌∙◌, arith,
}
use cpp_mcp_sdk.Base.Decimal.{decimal, digits_from}
use cpp_mcp_sdk.Base.Number.{length-decimal_pos}
use cpp_mcp_sdk.Http.Events.{
  Event, is_valid_sse_field_value, split_lines, field_line, retry_line, read_retry,
  parse_retry_field, strip_return, split_field, set_field, take_stripped, take_line, parse_lines,
  parse_from,
}

split_lines-line :
    (line rest : List ℕ)
    → all (λ c. not (c == 10)) line ≡ true
    → split_lines (line ++ (10 ∷ rest)) ≡ (line, (split_lines rest).0 ∷ (split_lines rest).1)
unfolding split_lines
split_lines-line [] rest h = refl
split_lines-line (c ∷ line) rest h = ground (arith, split_lines-line line rest)

strip_return-id : (s : List ℕ) → all (λ c. not (c == 13)) s ≡ true → strip_return s ≡ s
unfolding strip_return
strip_return-id [] h = refl
strip_return-id (c ∷ []) h = ground arith
strip_return-id (c ∷ d ∷ s) h = ground (arith, strip_return-id (d ∷ s))

valid-newline : (s : List ℕ) → is_valid_sse_field_value s ≡ true → all (λ c. not (c == 10)) s ≡ true
valid-newline [] h = refl
valid-newline (c ∷ s) h = ground (arith, valid-newline s)

valid-return : (s : List ℕ) → is_valid_sse_field_value s ≡ true → all (λ c. not (c == 13)) s ≡ true
valid-return [] h = refl
valid-return (c ∷ s) h = ground (arith, valid-return s)

-- A line of plain text is taken as it is, and parsing goes on behind it.
pub parse_from-line :
    (current : Event) (has : Bool) (line rest : List ℕ)
    → is_valid_sse_field_value line ≡ true
    → parse_from current has (line ++ (10 ∷ rest))
      ≡ (take_stripped line current has).emitted
        ++ parse_from
            (take_stripped line current has).current
            (take_stripped line current has).has_fields
            rest
unfolding parse_from parse_lines take_line
parse_from-line current has line rest h =
    rw (split_lines-line line rest (valid-newline line h))
      (rw (strip_return-id line (valid-return line h)) refl)

event-line :
    (current : Event) (has : Bool) (value : List ℕ)
    → take_stripped (codes "event: " ++ value) current has
      ≡ record { emitted = []; current = record current { event = some value }; has_fields = true }
unfolding take_stripped set_field split_field
event-line current has value = refl

id-line :
    (current : Event) (has : Bool) (value : List ℕ)
    → take_stripped (codes "id: " ++ value) current has
      ≡ record { emitted = []; current = record current { id = some value }; has_fields = true }
unfolding take_stripped set_field split_field
id-line current has value = refl

retry-line :
    (current : Event) (has : Bool) (value : List ℕ)
    → take_stripped (codes "retry: " ++ value) current has ≡ record {
      emitted = [];
      current = record current { retry_milliseconds = parse_retry_field value };
      has_fields = true;
    }
unfolding take_stripped set_field split_field
retry-line current has value = refl

read_retry-digits_from :
    (fuel n : ℕ) (rest : List ℕ)
    → n < fuel
    → n < 2 ^ 32
    → read_retry 0 (digits_from fuel n rest) ≡ read_retry n rest
unfolding digits_from read_retry
read_retry-digits_from zero n rest h small = absurd (omega arith)
read_retry-digits_from (suc fuel) n rest h small =
    ground (arith, read_retry-digits_from fuel (n / 10) ((n % 10 + b'0') ∷ rest))

read_retry_end : (n : ℕ) → read_retry n [] ≡ some n
unfolding read_retry
read_retry_end n = refl

parse_retry_field-decimal : (n : ℕ) → n < 2 ^ 32 → parse_retry_field (decimal n) ≡ some n
unfolding parse_retry_field decimal
parse_retry_field-decimal n small = ground (
  arith,
  length-decimal_pos n,
  read_retry-digits_from (suc n) n [] (omega arith) small ∙ read_retry_end n,
)

-- The values that events are given back with: no line breaks in a field, no carriage return in the
-- data, and a retry of 32 bits.
abbrev pub is_plain_field : Option (List ℕ) → Bool
is_plain_field none = true
is_plain_field (some value) = is_valid_sse_field_value value

abbrev pub is_plain_retry : Option ℕ → Bool
is_plain_retry none = true
is_plain_retry (some n) = ltb n (2 ^ 32)

abbrev pub or_some {ℓ} : {A : Type ℓ} → Bool → Option A → Bool
or_some has none = has
or_some has (some a) = true

abbrev pub with_event : Event → Option (List ℕ) → Event
with_event e none = e
with_event e (some v) = record e { event = some v }

abbrev pub with_id : Event → Option (List ℕ) → Event
with_id e none = e
with_id e (some v) = record e { id = some v }

abbrev pub with_retry : Event → Option ℕ → Event
with_retry e none = e
with_retry e (some n) = record e { retry_milliseconds = some n }

pub event-step :
    (current : Event) (has : Bool) (o : Option (List ℕ)) (rest : List ℕ)
    → is_plain_field o ≡ true
    → parse_from current has (field_line (codes "event: ") o rest)
      ≡ parse_from (with_event current o) (or_some has o) rest
event-step current has none rest h = refl
event-step current has (some v) rest h =
    rw (h, parse_from-line current has (codes "event: " ++ v) rest h, event-line current has v) refl

pub id-step :
    (current : Event) (has : Bool) (o : Option (List ℕ)) (rest : List ℕ)
    → is_plain_field o ≡ true
    → parse_from current has (field_line (codes "id: ") o rest)
      ≡ parse_from (with_id current o) (or_some has o) rest
id-step current has none rest h = refl
id-step current has (some v) rest h =
    rw (h, parse_from-line current has (codes "id: " ++ v) rest h, id-line current has v) refl

digits_from-valid :
    (fuel n : ℕ) (rest : List ℕ)
    → is_valid_sse_field_value rest ≡ true
    → is_valid_sse_field_value (digits_from fuel n rest) ≡ true
unfolding digits_from
digits_from-valid zero n rest h = h
digits_from-valid (suc fuel) n rest h =
    ground (arith, digits_from-valid fuel (n / 10) ((n % 10 + b'0') ∷ rest))

decimal-valid : (n : ℕ) → is_valid_sse_field_value (decimal n) ≡ true
unfolding decimal
decimal-valid n = digits_from-valid (suc n) n [] refl

pub retry-step :
    (current : Event) (has : Bool) (o : Option ℕ) (rest : List ℕ)
    → is_plain_retry o ≡ true
    → parse_from current has (retry_line o rest)
      ≡ parse_from (with_retry current o) (or_some has o) rest
retry-step current has none rest h = refl
retry-step current has (some n) rest h =
    let small : n < 2 ^ 32 = ground arith in
    parse_from-line current has (codes "retry: " ++ decimal n) rest (decimal-valid n)
    ∙ rw (retry-line current has (decimal n)) (rw (parse_retry_field-decimal n small) refl)
