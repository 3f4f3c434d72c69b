-- ===== src/Http/EventId/RoundTrip.antt =====
-- The round trip of event ids.
use Prim.Native.Nat.{◌/◌}
use cpp_mcp_sdk.Base.{
  ℕ, zero, suc, ◌+◌, ◌^◌, ◌%◌, ◌<◌, false, not, ◌||◌, none, some, List, [], ◌∷◌, ◌++◌, ◌==◌, ◌≡◌,
  ◌≢◌, ◌≤◌, All, all, leb, ◌&&◌, true, length, refl, ◌∙◌, arith,
}
use cpp_mcp_sdk.Base.Decimal.{decimal, digits_from}
use cpp_mcp_sdk.Base.Number.{length-decimal_pos}
use cpp_mcp_sdk.Http.EventId.{
  is_visible_ascii, has_colon, make_event_id, split_last, read_cursor, parse_parts, parse_event_id,
}

-- Reading the digits of a number of 64 bits goes on behind them with the number.
read_cursor-digits_from :
    (fuel n : ℕ) (rest : List ℕ)
    → n < fuel
    → n < 2 ^ 64
    → read_cursor 0 (digits_from fuel n rest) ≡ read_cursor n rest
unfolding digits_from read_cursor
read_cursor-digits_from zero n rest h small = absurd (omega arith)
read_cursor-digits_from (suc fuel) n rest h small =
    ground (arith, read_cursor-digits_from fuel (n / 10) ((n % 10 + b'0') ∷ rest))

read_cursor_end : (n : ℕ) → read_cursor n [] ≡ some n
unfolding read_cursor
read_cursor_end n = refl

read_cursor-decimal : (n : ℕ) → n < 2 ^ 64 → read_cursor 0 (decimal n) ≡ some n
unfolding decimal
read_cursor-decimal n small =
    read_cursor-digits_from (suc n) n [] (omega arith) small ∙ read_cursor_end n

-- Digits hold no colon.
split_last-digits_from :
    (fuel n : ℕ) (rest : List ℕ)
    → n < fuel
    → split_last rest ≡ none
    → split_last (digits_from fuel n rest) ≡ none
unfolding digits_from split_last
split_last-digits_from zero n rest h none_ = none_
split_last-digits_from (suc fuel) n rest h none_ =
    ground (arith, split_last-digits_from fuel (n / 10) ((n % 10 + b'0') ∷ rest))

split_last-decimal : (n : ℕ) → split_last (decimal n) ≡ none
unfolding decimal split_last
split_last-decimal n = split_last-digits_from (suc n) n [] (omega arith) refl

split_last-append :
    (stream text : List ℕ)
    → split_last text ≡ none
    → split_last (stream ++ (b':' ∷ text)) ≡ some (stream, text)
unfolding split_last
split_last-append [] text h = ground arith
split_last-append (c ∷ stream) text h = ground (arith, split_last-append stream text h)

parse_parts-made :
    (stream : List ℕ) (n : ℕ)
    → not (is_visible_ascii stream) || has_colon stream || n == 0 ≡ false
    → n < 2 ^ 64
    → parse_parts stream (decimal n) ≡ some (record { stream_id = stream; cursor = n })
unfolding parse_parts is_visible_ascii
parse_parts-made stream n made small =
    ground (arith, length-decimal_pos n, read_cursor-decimal n small)

-- A text of visible ASCII characters other than the colon.
abbrev IsStreamId : List ℕ → Type 0
IsStreamId id = All (λ c. (0x21 ≤ c) × (c ≤ 0x7E) × (c ≢ b':')) id

all_visible : (id : List ℕ) → IsStreamId id → all (λ c. leb 0x21 c && leb c 0x7E) id ≡ true
all_visible [] h = refl
all_visible (c ∷ id) h = ground (arith, all_visible id h.1)

IsStreamId-colon : (id : List ℕ) → IsStreamId id → has_colon id ≡ false
unfolding has_colon
IsStreamId-colon [] h = refl
IsStreamId-colon (c ∷ id) h = ground (arith, IsStreamId-colon id h.1)

-- The id that is made for a stream id of at least one visible ASCII character, none of them a colon, and
-- for a cursor of 64 bits that is not 0 parses back to the stream id and the cursor.
pub parse-make_event_id :
    (stream_id : List ℕ) (cursor : ℕ)
    → 0 < length stream_id
    → IsStreamId stream_id
    → 0 < cursor
    → cursor < 2 ^ 64
    → parse_event_id (make_event_id stream_id cursor)
      ≡ some (record { stream_id = stream_id; cursor = cursor })
unfolding make_event_id parse_event_id is_visible_ascii
parse-make_event_id stream_id cursor some_char valid from small =
    let e : not (is_visible_ascii stream_id) || has_colon stream_id || cursor == 0 ≡ false =
      ground (arith, all_visible stream_id valid, IsStreamId-colon stream_id valid) in
    rw (make_event_id, e)
      (rw (split_last-append stream_id (decimal cursor) (split_last-decimal cursor), parse_event_id)
        (parse_parts-made stream_id cursor e small))
