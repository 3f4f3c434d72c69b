-- ===== src/Http/Validation/Rules.antt =====
-- What an accepted request has (include/mcp/transport/http/request_validator.hpp).
use cpp_mcp_sdk.Base.{
  ℕ, String, sym, Bool, true, not, ◌&&◌, Option, none, some, List, ◌≡◌, arith, inl, inr, Bool-cases,
  Option-cases, codes, ◌⊎◌,
}
use cpp_mcp_sdk.Text.Ascii.{trim_ascii_whitespace}
use cpp_mcp_sdk.Http.Headers.{
  Header, get_header, is_valid_session_id, is_supported_protocol_version,
}
use cpp_mcp_sdk.Http.Validation.{
  RequestValidationOptions, accepted, rejected, SessionResolution, is_active, is_initialize,
  header_session_id, origin_complaint, validate_session, validate_version, validate_server_request,
}

rejected≢accepted :
    {n : ℕ} {t : String} {id : Option (List ℕ)} {v : List ℕ} → ¬ (rejected n t ≡ accepted id v)
rejected≢accepted e = cc

none≢some : {a : List ℕ} → ¬ (none ≡ some a)
none≢some e = cc

some-injective : {a b : List ℕ} → some a ≡ some b → a ≡ b
some-injective e = cc

version-known :
    (options : RequestValidationOptions) (headers : List Header) (inferred id : Option (List ℕ))
    (id' : Option (List ℕ)) (v : List ℕ)
    → validate_version options headers inferred id ≡ accepted id' v
    → (id ≡ id')
      × ((is_supported_protocol_version v options.supported_protocol_versions ≡ true)
          ⊎ (v ≡ codes "2025-03-26"))
unfolding validate_version
version-known options headers inferred id id' v h = ground arith

-- What an accepted request has, if its session was looked up.
abbrev Sound : RequestValidationOptions → (List ℕ → SessionResolution) → List ℕ → List ℕ → Type 0
Sound options resolver id v =
    (is_valid_session_id id ≡ true)
    × (is_active (resolver id).state ≡ true)
    × ((is_supported_protocol_version v options.supported_protocol_versions ≡ true)
        ⊎ (v ≡ codes "2025-03-26"))

session-Sound :
    (options : RequestValidationOptions) (resolver : List ℕ → SessionResolution)
    (headers : List Header) (looked id v : List ℕ)
    → options.session_resolver ≡ some resolver
    → is_valid_session_id looked ≡ true
    → validate_session options headers (some looked) ≡ accepted (some id) v
    → Sound options resolver id v
unfolding validate_session
session-Sound options resolver headers looked id v has good h =
    elim (Bool-cases (is_active (resolver looked).state)) [
      | inr dead ↦ absurd (rejected≢accepted (rw (validate_session, has, dead) at h))
      | inl live ↦
          let k =
            version-known options headers _ (some looked) (some id) v
              (rw (validate_session, has, live) at h) in
          let same : looked ≡ id = some-injective k.0 in
          (rw (sym same) good, rw (sym same) live, k.1)
    ]

no_session_sound :
    (options : RequestValidationOptions) (headers : List Header) (id v : List ℕ)
    → ¬ (validate_session options headers none ≡ accepted (some id) v)
unfolding validate_session
no_session_sound options headers id v h =
    let k = version-known options headers options.inferred_protocol_version none (some id) v h in
    none≢some k.0

-- A request that is accepted with a session, at a server that looks sessions up, has a session id of
-- visible characters whose session is active, and a protocol version that is one of the supported ones
-- or the fallback.
pub accepted-active :
    (origin_allowed : List ℕ → Bool) (options : RequestValidationOptions)
    (resolver : List ℕ → SessionResolution) (headers : List Header) (id v : List ℕ)
    → options.session_resolver ≡ some resolver
    → validate_server_request origin_allowed headers options ≡ accepted (some id) v
    → (is_valid_session_id id ≡ true)
      × (is_active (resolver id).state ≡ true)
      × ((is_supported_protocol_version v options.supported_protocol_versions ≡ true)
          ⊎ (v ≡ codes "2025-03-26"))
unfolding validate_server_request
accepted-active origin_allowed options resolver headers id v has h =
    elim (Option-cases (origin_complaint origin_allowed options headers)) [
      | inr (complaint, e) ↦ absurd (rejected≢accepted (rw (validate_server_request, e) at h))
      | inl e ↦ elim (Option-cases (get_header headers header_session_id)) [
        | inl f ↦
            elim (Bool-cases
              (options.session_required && not (is_initialize options.request_kind))) [
                | inl g ↦ absurd (rejected≢accepted (rw (validate_server_request, e, f, g) at h))
                | inr g ↦ absurd (
                    no_session_sound options headers id v
                      (rw (validate_server_request, e, f, g) at h))
              ]
        | inr (named, f) ↦ elim (Bool-cases (is_valid_session_id (trim_ascii_whitespace named))) [
          | inr bad ↦ absurd (rejected≢accepted (rw (validate_server_request, e, f, bad) at h))
          | inl good ↦
              session-Sound options resolver headers (trim_ascii_whitespace named) id v has good
                (rw (validate_server_request, e, f, good) at h)
        ]
      ]
    ]
