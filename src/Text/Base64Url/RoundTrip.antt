-- ===== src/Text/Base64Url/RoundTrip.antt =====
-- The round trip of base64url.
use cpp_mcp_sdk.Base.{
  ℕ, ◌+◌, ◌*◌, ◌/◌, ◌%◌, ◌^◌, ◌<◌, Bool, true, false, Option, none, some, List, [], ◌∷◌, ◌≡◌, refl,
  arith, length, all, All, all_below, all_below_sound, is_some, ◌==◌, ap, ◌≢◌, ◌∙◌,
}
use mathlib.Core.Path.{ap₂}
use cpp_mcp_sdk.Text.Base64Url.{
  symbol, sextet, value, encode_base64_url_no_pad, decode_quad, decode_groups,
  decode_base64_url_no_pad,
}

abbrev is_value : ℕ → Option ℕ → Bool
is_value v none = false
is_value v (some w) = w == v

symbols_decode : all_below 64 (λ v. is_value v (sextet (symbol v))) ≡ true
unfolding symbol sextet
symbols_decode = refl

sextet-symbol : (v : ℕ) → v < 64 → sextet (symbol v) ≡ some v
sextet-symbol v h =
    ground (arith, all_below_sound 64 (λ w. is_value w (sextet (symbol w))) v symbols_decode h)

-- Every six bits have a symbol, which decodes to them.
value-symbol_mod : (n : ℕ) → value (symbol (n % 64)) ≡ n % 64
unfolding value
value-symbol_mod n = rw (sextet-symbol (n % 64) (omega arith))

is_symbol : ℕ → Bool
is_symbol c = is_some (sextet c)

is_symbol-symbol_mod : (n : ℕ) → is_symbol (symbol (n % 64)) ≡ true
unfolding is_symbol
is_symbol-symbol_mod n = rw (sextet-symbol (n % 64) (omega arith))

all-is_symbol-encode : (bytes : List ℕ) → all is_symbol (encode_base64_url_no_pad bytes) ≡ true
unfolding encode_base64_url_no_pad
all-is_symbol-encode [] = refl
all-is_symbol-encode (a ∷ []) = simp is_symbol-symbol_mod
all-is_symbol-encode (a ∷ b ∷ []) = simp is_symbol-symbol_mod
all-is_symbol-encode (a ∷ b ∷ c ∷ rest) = simp (is_symbol-symbol_mod, all-is_symbol-encode rest)

-- The encoding has four symbols for three bytes, and two or three for one or two that remain.
pub length-encode_base64_url_no_pad :
    (bytes : List ℕ) → length (encode_base64_url_no_pad bytes) ≡ (length bytes * 4 + 2) / 3
unfolding encode_base64_url_no_pad
length-encode_base64_url_no_pad [] = refl
length-encode_base64_url_no_pad (a ∷ []) = refl
length-encode_base64_url_no_pad (a ∷ b ∷ []) = refl
length-encode_base64_url_no_pad (a ∷ b ∷ c ∷ rest) =
    omega (arith, length-encode_base64_url_no_pad rest)

abbrev pub IsByte : ℕ → Type 0
IsByte b = b < 256

-- Four groups of six bits make up a number of 24 bits.
quad-eq :
    (n : ℕ)
    → n < 2 ^ 24
    → n / 2 ^ 18 % 64 * 2 ^ 18 + n / 2 ^ 12 % 64 * 2 ^ 12 + n / 2 ^ 6 % 64 * 2 ^ 6 + n % 64 ≡ n
quad-eq n h = omega arith

decode_quad_lem :
    (a b c : ℕ) (rest : List ℕ)
    → IsByte a
    → IsByte b
    → IsByte c
    → decode_quad (a * 2 ^ 16 + b * 2 ^ 8 + c) rest ≡ a ∷ b ∷ c ∷ rest
unfolding decode_quad
decode_quad_lem a b c rest ha hb hc =
    ap₂ (λ x y. x ∷ y) (omega arith) (ap₂ (λ x y. x ∷ y ∷ rest) (omega arith) (omega arith))

decode_groups-encode :
    (bytes : List ℕ) → All IsByte bytes → decode_groups (encode_base64_url_no_pad bytes) ≡ bytes
unfolding decode_groups encode_base64_url_no_pad
decode_groups-encode [] h = refl
decode_groups-encode (a ∷ []) h = simp value-symbol_mod (ap (λ x. x ∷ []) (omega arith))
decode_groups-encode (a ∷ b ∷ []) h =
    simp value-symbol_mod (ap₂ (λ x y. x ∷ y ∷ []) (omega arith) (omega arith))
decode_groups-encode (a ∷ b ∷ c ∷ rest) h =
    simp (value-symbol_mod, decode_groups-encode rest h.1.1.1)
      (rw (quad-eq (a * 2 ^ 16 + b * 2 ^ 8 + c) (omega arith))
        (decode_quad_lem a b c rest h.0 h.1.0 h.1.1.0))

-- Valid symbols that leave no single one over decode group by group.
decode_of_symbols :
    (text : List ℕ)
    → all is_symbol text ≡ true
    → length text % 4 ≢ 1
    → decode_base64_url_no_pad text ≡ some (decode_groups text)
unfolding decode_base64_url_no_pad is_symbol
decode_of_symbols [] valid count = unfold decode_groups in refl
decode_of_symbols (c ∷ s) valid count = ground arith

-- Whatever the bytes, their encoding decodes to them.
pub decode-encode :
    (bytes : List ℕ)
    → All IsByte bytes
    → decode_base64_url_no_pad (encode_base64_url_no_pad bytes) ≡ some bytes
decode-encode bytes h =
    decode_of_symbols (encode_base64_url_no_pad bytes) (all-is_symbol-encode bytes)
      (omega (arith, length-encode_base64_url_no_pad bytes))
    ∙ ap some (decode_groups-encode bytes h)
