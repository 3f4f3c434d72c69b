-- ===== src/Http/Events/RoundTrip.antt =====
-- The round trip of encoded events.
use cpp_mcp_sdk.Base.{
  ℕ, Bool, true, false, not, ◌&&◌, Option, none, some, List, [], ◌∷◌, ◌++◌, ◌==◌, all, ◌≡◌, refl,
  ◌∙◌, ap, arith,
}
use cpp_mcp_sdk.Http.Events.{
  Event, no_event, split_lines, encode_event, encode_events, strip_return, drop_newline,
  take_stripped, take_line, parse_lines, parse_from, parse_events,
}
use cpp_mcp_sdk.Http.Events.Fields.{
  parse_from-line, is_plain_field, is_plain_retry, or_some, with_event, with_id, with_retry,
  event-step, id-step, retry-step,
}
use cpp_mcp_sdk.Http.Events.DataLines.{with_data, data-step}

drop_newline-append : (s : List ℕ) → drop_newline (s ++ (10 ∷ [])) ≡ s
unfolding drop_newline
drop_newline-append [] = refl
drop_newline-append (c ∷ []) = refl
drop_newline-append (c ∷ d ∷ s) = ap (λ t. c ∷ t) (drop_newline-append (d ∷ s))

abbrev pub is_plain : Event → Bool
is_plain e =
    is_plain_field e.event
    && is_plain_field e.id
    && is_plain_retry e.retry_milliseconds
    && all (λ c. not (c == 13)) e.data_

-- The empty line ends the event.
blank-step :
    (current : Event) (rest : List ℕ)
    → parse_from current true (10 ∷ rest)
      ≡ record current { data_ = drop_newline current.data_ } ∷ parse_from no_event false rest
unfolding take_stripped
blank-step current rest = parse_from-line current true [] rest refl

collected :
    (o i : Option (List ℕ)) (r : Option ℕ) (d : List ℕ)
    → with_data (with_retry (with_id (with_event no_event o) i) r) d
      ≡ record { event = o; id = i; retry_milliseconds = r; data_ = d }
collected none none none d = refl
collected none none (some r) d = refl
collected none (some i) none d = refl
collected none (some i) (some r) d = refl
collected (some o) none none d = refl
collected (some o) none (some r) d = refl
collected (some o) (some i) none d = refl
collected (some o) (some i) (some r) d = refl

collected-data :
    (o i : Option (List ℕ)) (r : Option ℕ)
    → (with_retry (with_id (with_event no_event o) i) r).data_ ≡ []
collected-data none none none = refl
collected-data none none (some r) = refl
collected-data none (some i) none = refl
collected-data none (some i) (some r) = refl
collected-data (some o) none none = refl
collected-data (some o) none (some r) = refl
collected-data (some o) (some i) none = refl
collected-data (some o) (some i) (some r) = refl

event-round :
    (e : Event) (rest : List ℕ)
    → is_plain e ≡ true
    → parse_from no_event false (encode_event e rest) ≡ e ∷ parse_from no_event false rest
unfolding encode_event
event-round e rest h =
    let c1 = with_event no_event e.event in
    let c2 = with_id c1 e.id in
    let c3 = with_retry c2 e.retry_milliseconds in
    let h1 = or_some false e.event in
    let h2 = or_some h1 e.id in
    let h3 = or_some h2 e.retry_milliseconds in
    event-step no_event false e.event _ (ground arith)
    ∙ id-step c1 h1 e.id _ (ground arith)
    ∙ retry-step c2 h2 e.retry_milliseconds _ (ground arith)
    ∙ data-step c3 h3 e.data_ (10 ∷ rest) (collected-data e.event e.id e.retry_milliseconds)
        (ground arith)
    ∙ ap (λ c. parse_from c true (10 ∷ rest)) (collected e.event e.id e.retry_milliseconds _)
    ∙ blank-step _ rest
    ∙ ap (λ d. record e { data_ = d } ∷ parse_from no_event false rest)
        (drop_newline-append e.data_)

-- Events whose field values have no line break, whose data has no carriage return and whose retry
-- has 32 bits are what parsing their encoding gives.
pub parse-encode_events :
    (es : List Event) → all is_plain es ≡ true → parse_events (encode_events es) ≡ es
unfolding parse_events encode_events parse_from parse_lines split_lines take_line strip_return
    take_stripped
parse-encode_events [] h = refl
parse-encode_events (e ∷ es) h =
    event-round e (encode_events es) (ground arith)
    ∙ ap (λ t. e ∷ t) (parse-encode_events es (ground arith))
