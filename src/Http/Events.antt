-- ===== src/Http/Events.antt =====
-- Server-sent events on the wire (include/mcp/http/sse/encoding.hpp and detail/internal.hpp), as
-- bytes.
pub mod Fields
pub mod DataLines
pub mod RoundTrip
use Prim.Native.Nat.{◌-◌, ◌*◌, ◌/◌}
use cpp_mcp_sdk.Base.{
  ℕ, ◌+◌, ◌^◌, Bool, true, false, not, ◌&&◌, ◌||◌, Option, none, some, List, [], ◌∷◌, ◌++◌,
  if◌then◌else◌, ltb, leb, ◌==◌, length, all, codes,
}
use cpp_mcp_sdk.Base.Decimal.{decimal}
use cpp_mcp_sdk.Base.Number.{is_digit}

pub record Event : Type 0 where
  pub event : Option (List ℕ)
  pub id : Option (List ℕ)
  pub retry_milliseconds : Option ℕ
  pub data_ : List ℕ

abbrev pub no_event : Event
no_event = record { event = none; id = none; retry_milliseconds = none; data_ = [] }

abbrev pub is_valid_sse_field_value : List ℕ → Bool
is_valid_sse_field_value value = all (λ c. not (c == 10) && not (c == 13)) value

-- The lines of a text: what stands between its newlines.
unfoldable pub split_lines : List ℕ → List ℕ × List (List ℕ)
split_lines [] = ([], [])
split_lines (c ∷ s) =
    let rest = split_lines s in if c == 10 then ([], rest.0 ∷ rest.1) else (c ∷ rest.0, rest.1)

-- A line of a field, with the newline, in front of `rest`.
abbrev pub data_line : List ℕ → List ℕ → List ℕ
data_line [] rest = codes "data:" ++ (10 ∷ rest)
data_line (c ∷ line) rest = codes "data: " ++ ((c ∷ line) ++ (10 ∷ rest))

unfoldable pub data_lines : List ℕ → List (List ℕ) → List ℕ → List ℕ
data_lines line [] rest = data_line line rest
data_lines line (next ∷ more) rest = data_line line (data_lines next more rest)

unfoldable pub append_data_lines : List ℕ → List ℕ → List ℕ
unfolding data_lines split_lines
append_data_lines text rest = let lines = split_lines text in data_lines lines.0 lines.1 rest

-- A field that is written where it has a value of one line.
abbrev pub field_line : List ℕ → Option (List ℕ) → List ℕ → List ℕ
field_line name none rest = rest
field_line name (some value) rest =
    if is_valid_sse_field_value value then name ++ (value ++ (10 ∷ rest)) else rest

abbrev pub retry_line : Option ℕ → List ℕ → List ℕ
retry_line none rest = rest
retry_line (some n) rest = codes "retry: " ++ (decimal n ++ (10 ∷ rest))

-- `encodeEvent`, in front of `rest`.
unfoldable pub encode_event : Event → List ℕ → List ℕ
unfolding append_data_lines
encode_event e rest = field_line (codes "event: ") e.event (
    field_line (codes "id: ") e.id
      (retry_line e.retry_milliseconds (append_data_lines e.data_ (10 ∷ rest))))

unfoldable pub encode_events : List Event → List ℕ
unfolding encode_event
encode_events [] = []
encode_events (e ∷ es) = encode_event e (encode_events es)

-- The loop over the digits, with its tests for an overflow.
unfoldable pub read_retry : ℕ → List ℕ → Option ℕ
read_retry parsed [] = some parsed
read_retry parsed (c ∷ s) =
    let digit = c - b'0' in
    let more = read_retry (parsed * 10 + digit) s in
    if not (is_digit c)
    then none
    else if ltb ((2 ^ 64 - 1 - digit) / 10) parsed
    then none
    else if ltb (2 ^ 32 - 1) (parsed * 10 + digit)
    then none
    else more

unfoldable pub parse_retry_field : List ℕ → Option ℕ
unfolding read_retry
parse_retry_field value = if length value == 0 then none else read_retry 0 value

-- A carriage return at the end of a line goes.
unfoldable pub strip_return : List ℕ → List ℕ
strip_return [] = []
strip_return (c ∷ []) = if c == 13 then [] else c ∷ []
strip_return (c ∷ d ∷ s) = c ∷ strip_return (d ∷ s)

-- The name of the field, and its value behind the first colon and one space.
abbrev value_of : List ℕ → List ℕ
value_of [] = []
value_of (c ∷ s) = if c == b' ' then s else c ∷ s

unfoldable pub split_field : List ℕ → List ℕ × List ℕ
split_field [] = ([], [])
split_field (c ∷ s) =
    let rest = split_field s in if c == b':' then ([], value_of s) else (c ∷ rest.0, rest.1)

abbrev pub same_bytes : List ℕ → List ℕ → Bool
same_bytes [] [] = true
same_bytes (c ∷ s) (d ∷ t) = c == d && same_bytes s t
same_bytes s t = false

unfoldable pub set_field : List ℕ → List ℕ → Event → Event
unfolding parse_retry_field
set_field field value e =
    if same_bytes field (codes "event")
    then record e { event = some value }
    else if same_bytes field (codes "id")
    then record e { id = some value }
    else if same_bytes field (codes "retry")
    then record e { retry_milliseconds = parse_retry_field value }
    else if same_bytes field (codes "data")
    then record e { data_ = e.data_ ++ (value ++ (10 ∷ [])) }
    else e

-- The newline at the end of the data goes.
unfoldable pub drop_newline : List ℕ → List ℕ
drop_newline [] = []
drop_newline (c ∷ []) = if c == 10 then [] else c ∷ []
drop_newline (c ∷ d ∷ s) = c ∷ drop_newline (d ∷ s)

-- What `flushParsedEvent` appends.
abbrev pub flush : Event → Bool → List Event
flush current false = []
flush current true = record current { data_ = drop_newline current.data_ } ∷ []

-- What a line does: the events that it ends, and the event and the flag behind it.
pub record Taken : Type 0 where
  pub emitted : List Event
  pub current : Event
  pub has_fields : Bool

abbrev begins_with_colon : List ℕ → Bool
begins_with_colon [] = false
begins_with_colon (c ∷ s) = c == b':'

abbrev is_empty_line : List ℕ → Bool
is_empty_line [] = true
is_empty_line (c ∷ s) = false

unfoldable pub take_stripped : List ℕ → Event → Bool → Taken
unfolding set_field split_field drop_newline
take_stripped line current has =
    if is_empty_line line
    then record {
      emitted = flush current has;
      current = if has then no_event else current;
      has_fields = false;
    }
    else if begins_with_colon line
    then record { emitted = []; current = current; has_fields = has }
    else record {
      emitted = [];
      current = set_field (split_field line).0 (split_field line).1 current;
      has_fields = true;
    }

unfoldable pub take_line : List ℕ → Event → Bool → Taken
unfolding take_stripped strip_return
take_line line current has = take_stripped (strip_return line) current has

-- The loop of `parseEvents` over the lines.
unfoldable pub parse_lines : Event → Bool → List ℕ → List (List ℕ) → List Event
unfolding take_line drop_newline
parse_lines current has line [] =
    let t = take_line line current has in t.emitted ++ flush t.current t.has_fields
parse_lines current has line (next ∷ more) =
    let t = take_line line current has in t.emitted ++ parse_lines t.current t.has_fields next more

-- The loop from a position on.
unfoldable pub parse_from : Event → Bool → List ℕ → List Event
unfolding parse_lines split_lines
parse_from current has encoded =
    let lines = split_lines encoded in parse_lines current has lines.0 lines.1

unfoldable pub parse_events : List ℕ → List Event
unfolding parse_from
parse_events encoded = parse_from no_event false encoded
