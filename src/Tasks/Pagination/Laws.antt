-- ===== src/Tasks/Pagination/Laws.antt =====
-- The round trip of cursors, and a client that reads page after page.
use mathlib.Core.Option
use cpp_mcp_sdk.Base.{
  ℕ, ◌+◌, ◌≤◌, ◌<◌, ◌^◌, ◌%◌, min, zero, suc, Option, none, some, List, ◌++◌, ◌≡◌, refl, ◌∙◌, ap,
  length, drop, arith, All, dec_lt, slice, slice-append-drop, slice-drop,
}
use cpp_mcp_sdk.Base.Decimal.{decimal}
use cpp_mcp_sdk.Base.Number.{decimal-All, length-decimal_pos, stoull-decimal}
use cpp_mcp_sdk.Text.Base64Url.RoundTrip.{decode-encode, length-encode_base64_url_no_pad, IsByte}
use cpp_mcp_sdk.Tasks.Pagination.{
  cursor_prefix, make_pagination_cursor, parse_payload, parse_pagination_cursor, window, start_of,
  paginate,
}

prefix-IsByte : (n : ℕ) → All IsByte (cursor_prefix ++ decimal n)
prefix-IsByte n = grind (arith, decimal-All n)

parse_payload-prefix : (n : ℕ) → n < 2 ^ 64 → parse_payload (cursor_prefix ++ decimal n) ≡ some n
unfolding parse_payload
parse_payload-prefix n h = ground (arith, length-decimal_pos n, stoull-decimal n h)

-- A cursor that the server makes for an index of 64 bits parses back to the index.
pub parse-make_pagination_cursor :
    (n : ℕ) → n < 2 ^ 64 → parse_pagination_cursor (make_pagination_cursor n) ≡ some n
unfolding parse_pagination_cursor make_pagination_cursor
parse-make_pagination_cursor n h =
    let payload = cursor_prefix ++ decimal n in
    ground (
      arith,
      length-encode_base64_url_no_pad payload,
      decode-encode payload (prefix-IsByte n),
      parse_payload-prefix n h,
    )

-- Where more items follow, the page is full and its cursor names the index behind it.
window_more :
    (start total size : ℕ)
    → start + size < total
    → total < 2 ^ 64
    → window start total size ≡ record {
      start_index = start;
      end_index = start + size;
      next_cursor = some (make_pagination_cursor (start + size));
    }
unfolding window
window_more start total size h small =
    let e : min ((start + size) % 2 ^ 64) total ≡ start + size = omega arith in ground (arith, e)

-- Otherwise it ends with the last item and has no cursor.
window_last :
    (start total size : ℕ)
    → total ≤ start + size
    → start + size < 2 ^ 64
    → window start total size
      ≡ record { start_index = start; end_index = total; next_cursor = none }
unfolding window
window_last start total size h small =
    let e : min ((start + size) % 2 ^ 64) total ≡ total = omega arith in ground (arith, e)

-- A client that asks for page after page, each time with the cursor of the page before.
module _ {ℓ} {A : Type ℓ} (size : ℕ) (xs : List A) where
  unfoldable pub read_pages : ℕ → Option (List ℕ) → Option (List A)
  read_pages zero cursor = none
  read_pages (suc fuel) cursor = elim (paginate cursor (length xs) size) [
    | none ↦ none
    | some w ↦ elim w.next_cursor [
      | none ↦ some (slice w.start_index w.end_index xs)
      | some next ↦
          Option.map (◌++◌ (slice w.start_index w.end_index xs)) (read_pages fuel (some next))
    ]
  ]

  paginate_start :
      (cursor : Option (List ℕ)) (start : ℕ)
      → 0 < size
      → start_of cursor (length xs) ≡ some start
      → paginate cursor (length xs) size ≡ some (window start (length xs) size)
  unfolding paginate
  paginate_start cursor start pos e = ground arith

  start_of-none : start_of none (length xs) ≡ some 0
  unfolding start_of
  start_of-none = refl

  start_of-cursor :
      (start : ℕ)
      → start ≤ length xs
      → length xs < 2 ^ 64
      → start_of (some (make_pagination_cursor start)) (length xs) ≡ some start
  unfolding start_of
  start_of-cursor start le small = ground (arith, parse-make_pagination_cursor start)

  read_pages_from :
      (fuel start : ℕ) (cursor : Option (List ℕ))
      → 0 < size
      → length xs + size < 2 ^ 64
      → start ≤ length xs
      → length xs < start + fuel
      → start_of cursor (length xs) ≡ some start
      → read_pages fuel cursor ≡ some (drop start xs)
  unfolding read_pages
  read_pages_from zero start cursor pos small le enough e = absurd (omega arith)
  read_pages_from (suc fuel) start cursor pos small le enough e =
      elim (dec_lt (start + size) (length xs)) [
        | yes more ↦
            rw
              (
                paginate_start cursor start pos e
                    ∙ ap some (window_more start (length xs) size more (omega arith)),
                read_pages,
              )
              (rw
                (read_pages_from fuel (start + size) _ pos small (omega arith) (omega arith)
                  (start_of-cursor (start + size) (omega arith) (omega arith)))
                (ap some (slice-append-drop start (start + size) xs (omega arith))))
        | no last ↦
            rw
              (
                paginate_start cursor start pos e
                    ∙ ap some (window_last start (length xs) size (omega arith) (omega arith)),
                read_pages,
              )
              (ap some (slice-drop start xs))
      ]

  -- For pages of at least one item, and a list whose length plus the size of a page stays below 2 ^ 64,
  -- a client that follows the cursors from the first page reads each item exactly once, in order,
  -- in no more requests than there are items and one.
  pub read_pages-all :
      0 < size → length xs + size < 2 ^ 64 → read_pages (suc (length xs)) none ≡ some xs
  read_pages-all pos small =
      read_pages_from (suc (length xs)) 0 none pos small (omega arith) (omega arith) start_of-none
