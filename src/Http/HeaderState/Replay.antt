-- ===== src/Http/HeaderState/Replay.antt =====
-- The headers that a client replays, at the server that made them.
use cpp_mcp_sdk.Base.{
  ℕ, Bool, true, false, not, ◌&&◌, ◌||◌, none, some, List, [], ◌∷◌, ◌≡◌, refl, ap, arith, all,
  length, if◌then◌else◌, leb, ◌==◌,
}
use cpp_mcp_sdk.Base.Number.{is_digit}
use cpp_mcp_sdk.Text.Ascii.{
  is_ascii_whitespace, trim_ascii_whitespace, trim_begin, trim_end, no_whitespace, trim-none,
  equals_ignore_case_ascii, same_lower, to_ascii_lower, is_ascii_upper,
}
use cpp_mcp_sdk.Http.EventId.{is_visible_ascii}
use cpp_mcp_sdk.Http.Headers.{
  Header, get_header, set_header, is_valid_session_id, is_valid_protocol_version,
  is_supported_protocol_version, get-set_header,
}
use cpp_mcp_sdk.Http.Validation.{
  RequestValidationOptions, accepted, SessionResolution, is_active, header_session_id,
  header_protocol_version, header_origin, origin_complaint, validate_session, validate_version,
  validate_server_request,
}
use cpp_mcp_sdk.Http.HeaderState.{
  SharedHeaderState, capture_from_initialize_response, capture_session, negotiated_version,
  replay_to_request_headers,
}

digit-no_whitespace : (c : ℕ) → is_digit c ≡ true → is_ascii_whitespace c ≡ false
unfolding is_ascii_whitespace
digit-no_whitespace c h = ground arith

all_visible-no_whitespace :
    (s : List ℕ) → all (λ c. leb 0x21 c && leb c 0x7E) s ≡ true → no_whitespace s ≡ true
unfolding is_ascii_whitespace
all_visible-no_whitespace [] h = refl
all_visible-no_whitespace (c ∷ s) h = ground (arith, all_visible-no_whitespace s)

-- A valid session id, or a valid version, is not changed by a further trim.
trim-session_id : (s : List ℕ) → is_valid_session_id s ≡ true → trim_ascii_whitespace s ≡ s
unfolding is_valid_session_id is_visible_ascii
trim-session_id s h = trim-none s (all_visible-no_whitespace s (ground arith))

digits-no_whitespace : (s : List ℕ) → all is_digit s ≡ true → no_whitespace s ≡ true
digits-no_whitespace [] h = refl
digits-no_whitespace (c ∷ s) h = ground (arith, digit-no_whitespace c, digits-no_whitespace s)

-- The tests of a version, one by one.
version_tests :
    (p q r x y z : Bool)
    → (if not p then false else if not q || not r then false else x && y && z) ≡ true
    → (q ≡ true) × (r ≡ true) × (x ≡ true) × (y ≡ true) × (z ≡ true)
version_tests p q r x y z h = ground arith

dash-no_whitespace : (c : ℕ) → (c == b'-') ≡ true → is_ascii_whitespace c ≡ false
unfolding is_ascii_whitespace
dash-no_whitespace c h = ground arith

-- A text of ten bytes, digits but for the two dashes.
ten-no_whitespace :
    (a b c d e f g h i j : ℕ)
    → no_whitespace (a ∷ b ∷ c ∷ d ∷ []) ≡ true
    → is_ascii_whitespace e ≡ false
    → no_whitespace (f ∷ g ∷ []) ≡ true
    → is_ascii_whitespace h ≡ false
    → no_whitespace (i ∷ j ∷ []) ≡ true
    → no_whitespace (a ∷ b ∷ c ∷ d ∷ e ∷ f ∷ g ∷ h ∷ i ∷ j ∷ []) ≡ true
ten-no_whitespace a b c d e f g h i j n1 n2 n3 n4 n5 = ground arith

valid_version-no_whitespace :
    (s : List ℕ) → is_valid_protocol_version s ≡ true → no_whitespace s ≡ true
unfolding is_valid_protocol_version
valid_version-no_whitespace (a ∷ b ∷ c ∷ d ∷ e ∷ f ∷ g ∷ h ∷ i ∷ j ∷ []) valid =
    let t = version_tests true (e == b'-') (h == b'-') _ _ _ valid in
    ten-no_whitespace a b c d e f g h i j (digits-no_whitespace (a ∷ b ∷ c ∷ d ∷ []) t.2)
      (dash-no_whitespace e t.0) (digits-no_whitespace (f ∷ g ∷ []) t.3) (dash-no_whitespace h t.1)
      (digits-no_whitespace (i ∷ j ∷ []) t.4)
valid_version-no_whitespace [] valid = ground arith
valid_version-no_whitespace (a ∷ []) valid = ground arith
valid_version-no_whitespace (a ∷ b ∷ []) valid = ground arith
valid_version-no_whitespace (a ∷ b ∷ c ∷ []) valid = ground arith
valid_version-no_whitespace (a ∷ b ∷ c ∷ d ∷ []) valid = ground arith
valid_version-no_whitespace (a ∷ b ∷ c ∷ d ∷ e ∷ []) valid = ground arith
valid_version-no_whitespace (a ∷ b ∷ c ∷ d ∷ e ∷ f ∷ []) valid = ground arith
valid_version-no_whitespace (a ∷ b ∷ c ∷ d ∷ e ∷ f ∷ g ∷ []) valid = ground arith
valid_version-no_whitespace (a ∷ b ∷ c ∷ d ∷ e ∷ f ∷ g ∷ h ∷ []) valid = ground arith
valid_version-no_whitespace (a ∷ b ∷ c ∷ d ∷ e ∷ f ∷ g ∷ h ∷ i ∷ []) valid = ground arith
valid_version-no_whitespace (a ∷ b ∷ c ∷ d ∷ e ∷ f ∷ g ∷ h ∷ i ∷ j ∷ k ∷ s) valid = ground arith

trim-version : (s : List ℕ) → is_valid_protocol_version s ≡ true → trim_ascii_whitespace s ≡ s
trim-version s h = trim-none s (valid_version-no_whitespace s h)

-- What a replay finds under the three names.
module _ (headers : List Header) (id version : List ℕ) where
  abbrev both : List Header
  both = set_header (set_header headers header_session_id id) header_protocol_version version

  get-session_id : get_header both header_session_id ≡ some id
  unfolding equals_ignore_case_ascii same_lower to_ascii_lower is_ascii_upper
  get-session_id =
      rw
        (
          get-set_header (set_header headers header_session_id id) header_protocol_version
              header_session_id version,
          get-set_header headers header_session_id header_session_id id,
        )
        refl

  get-version : get_header both header_protocol_version ≡ some version
  unfolding equals_ignore_case_ascii same_lower to_ascii_lower is_ascii_upper
  get-version =
      rw
        (get-set_header (set_header headers header_session_id id) header_protocol_version
          header_protocol_version version)
        refl

  get-origin : get_header both header_origin ≡ get_header headers header_origin
  unfolding equals_ignore_case_ascii same_lower to_ascii_lower is_ascii_upper
  get-origin =
      rw
        (
          get-set_header (set_header headers header_session_id id) header_protocol_version
              header_origin version,
          get-set_header headers header_session_id header_origin id,
        )
        refl

some_version :
    (version : List ℕ)
    → is_valid_protocol_version (trim_ascii_whitespace version) ≡ true
    → (length version == 0) ≡ false
unfolding is_valid_protocol_version trim_ascii_whitespace trim_begin trim_end
some_version [] h = cc
some_version (c ∷ v) h = ground arith

capture-both :
    (id version : List ℕ) (s : SharedHeaderState)
    → is_valid_session_id (trim_ascii_whitespace id) ≡ true
    → is_valid_protocol_version (trim_ascii_whitespace version) ≡ true
    → (capture_from_initialize_response (some id) version s).0 ≡ record {
      session_state = record {
        session_id = some (trim_ascii_whitespace id);
        replay_on_subsequent_requests = true;
      };
      negotiated_protocol_version = some (trim_ascii_whitespace version);
    }
unfolding capture_from_initialize_response capture_session negotiated_version
capture-both id version s good_id good_version =
    rw
      (
        capture_from_initialize_response,
        capture_session,
        negotiated_version,
        good_id,
        good_version,
        some_version version good_version,
      )
      refl

replay-origin :
    (origin_allowed : List ℕ → Bool) (options : RequestValidationOptions) (headers : List Header)
    (id version : List ℕ)
    → origin_complaint origin_allowed options (both headers id version)
      ≡ origin_complaint origin_allowed options headers
unfolding origin_complaint
replay-origin origin_allowed options headers id version =
    rw (origin_complaint, get-origin headers id version) refl

replay-both :
    (headers : List Header) (id version : List ℕ) (s : SharedHeaderState)
    → is_valid_session_id (trim_ascii_whitespace id) ≡ true
    → is_valid_protocol_version (trim_ascii_whitespace version) ≡ true
    → replay_to_request_headers headers false
        (capture_from_initialize_response (some id) version s).0
      ≡ both headers (trim_ascii_whitespace id) (trim_ascii_whitespace version)
unfolding replay_to_request_headers
replay-both headers id version s good_id good_version =
    ap (replay_to_request_headers headers false) (capture-both id version s good_id good_version)

both-accepted :
    (origin_allowed : List ℕ → Bool) (options : RequestValidationOptions)
    (resolver : List ℕ → SessionResolution) (headers : List Header) (i v : List ℕ)
    → is_valid_session_id i ≡ true
    → is_valid_protocol_version v ≡ true
    → origin_complaint origin_allowed options headers ≡ none
    → options.session_resolver ≡ some resolver
    → is_active (resolver i).state ≡ true
    → is_supported_protocol_version v options.supported_protocol_versions ≡ true
    → validate_server_request origin_allowed (both headers i v) options ≡ accepted (some i) v
unfolding validate_server_request validate_session validate_version
both-accepted origin_allowed options resolver headers i v good_id good_version origin has_resolver
      session supported =
    rw
      (
        validate_server_request,
        replay-origin origin_allowed options headers i v,
        origin,
        get-session_id headers i v,
        trim-session_id i good_id,
        good_id,
        validate_session,
        has_resolver,
        trim-session_id i good_id,
        session,
        validate_version,
        get-version headers i v,
        trim-version v good_version,
        good_version,
        supported,
      )
      (ap (λ x. accepted (some x) v) (trim-session_id i good_id))

-- What a client has captured from a response to `initialize`, replayed in the headers of a later
-- request, is accepted by a server at which the session is active and the version supported: the request
-- has the captured session and version, whatever spaces stood around them, if its origin passes.
pub replay-accepted :
    (origin_allowed : List ℕ → Bool) (options : RequestValidationOptions)
    (resolver : List ℕ → SessionResolution) (headers : List Header) (id version : List ℕ)
    (s : SharedHeaderState)
    → is_valid_session_id (trim_ascii_whitespace id) ≡ true
    → is_valid_protocol_version (trim_ascii_whitespace version) ≡ true
    → origin_complaint origin_allowed options headers ≡ none
    → options.session_resolver ≡ some resolver
    → is_active (resolver (trim_ascii_whitespace id)).state ≡ true
    → is_supported_protocol_version
        (trim_ascii_whitespace version)
        options.supported_protocol_versions
      ≡ true
    → validate_server_request origin_allowed
        (replay_to_request_headers headers false
          (capture_from_initialize_response (some id) version s).0)
        options
      ≡ accepted (some (trim_ascii_whitespace id)) (trim_ascii_whitespace version)
replay-accepted origin_allowed options resolver headers id version s good_id good_version origin
      has_resolver session supported =
    rw (replay-both headers id version s good_id good_version) (
      both-accepted origin_allowed options resolver headers (trim_ascii_whitespace id)
        (trim_ascii_whitespace version) good_id good_version origin has_resolver session supported)
