-- ===== src/Text/Base64Url.antt =====
-- include/mcp/detail/base64url.hpp. `x << k` and `x >> k` are `x * 2 ^ k` and `x / 2 ^ k`, a mask of
-- k bits is `% 2 ^ k`, and an `|` of values that share no bit is their sum.
pub mod RoundTrip
use cpp_mcp_sdk.Base.{
  ℕ, ◌+◌, ◌-◌, ◌*◌, ◌/◌, ◌%◌, ◌^◌, Bool, true, false, not, ◌&&◌, Option, none, some, List, [], ◌∷◌,
  length, all, get_or, codes, if◌then◌else◌, leb, ◌==◌, is_some, value_or,
}

abbrev pub alphabet : List ℕ
alphabet = codes "ABCDEFGHIJKLMNOPQRSTUVWXYZabcdefghijklmnopqrstuvwxyz0123456789-_"

-- `kBase64UrlAlphabet[v]`.
unfoldable pub symbol : ℕ → ℕ
symbol v = get_or alphabet v 0

-- `kDecodeTable[byte]`, with `none` for -1.
unfoldable pub sextet : ℕ → Option ℕ
sextet c =
    if leb b'A' c && leb c b'Z'
    then some (c - b'A')
    else if leb b'a' c && leb c b'z'
    then some (26 + (c - b'a'))
    else if leb b'0' c && leb c b'9'
    then some (52 + (c - b'0'))
    else if c == b'-'
    then some 62
    else if c == b'_'
    then some 63
    else none

-- A table entry that is known not to be -1.
unfoldable pub value : ℕ → ℕ
unfolding sextet
value c = value_or (sextet c) 0

-- The four symbols of a group of three bytes.
unfoldable pub encode_triple : ℕ → List ℕ → List ℕ
unfolding symbol
encode_triple triple rest =
    symbol (triple / 2 ^ 18 % 2 ^ 6)
    ∷ symbol (triple / 2 ^ 12 % 2 ^ 6)
    ∷ symbol (triple / 2 ^ 6 % 2 ^ 6)
    ∷ symbol (triple % 2 ^ 6)
    ∷ rest

unfoldable pub encode_base64_url_no_pad : List ℕ → List ℕ
unfolding encode_triple
encode_base64_url_no_pad [] = []
encode_base64_url_no_pad (a ∷ []) =
    let triple = a * 2 ^ 16 in
    symbol (triple / 2 ^ 18 % 2 ^ 6) ∷ symbol (triple / 2 ^ 12 % 2 ^ 6) ∷ []
encode_base64_url_no_pad (a ∷ b ∷ []) =
    let triple = a * 2 ^ 16 + b * 2 ^ 8 in
    symbol (triple / 2 ^ 18 % 2 ^ 6)
    ∷ symbol (triple / 2 ^ 12 % 2 ^ 6)
    ∷ symbol (triple / 2 ^ 6 % 2 ^ 6)
    ∷ []
encode_base64_url_no_pad (a ∷ b ∷ c ∷ rest) =
    encode_triple (a * 2 ^ 16 + b * 2 ^ 8 + c) (encode_base64_url_no_pad rest)

-- The three bytes of a group of four symbols.
unfoldable pub decode_quad : ℕ → List ℕ → List ℕ
decode_quad quad rest = (quad / 2 ^ 16 % 2 ^ 8) ∷ (quad / 2 ^ 8 % 2 ^ 8) ∷ (quad % 2 ^ 8) ∷ rest

-- The loop over the groups, and the two or three symbols that remain.
unfoldable pub decode_groups : List ℕ → List ℕ
unfolding value decode_quad
decode_groups [] = []
decode_groups (a ∷ []) = []
decode_groups (a ∷ b ∷ []) = ((value a * 2 ^ 2 + value b / 2 ^ 4) % 2 ^ 8) ∷ []
decode_groups (a ∷ b ∷ c ∷ []) =
    ((value a * 2 ^ 2 + value b / 2 ^ 4) % 2 ^ 8)
    ∷ ((value b % 2 ^ 4 * 2 ^ 4 + value c / 2 ^ 2) % 2 ^ 8)
    ∷ []
decode_groups (a ∷ b ∷ c ∷ d ∷ rest) =
    decode_quad (value a * 2 ^ 18 + value b * 2 ^ 12 + value c * 2 ^ 6 + value d)
      (decode_groups rest)

unfoldable pub decode_base64_url_no_pad : List ℕ → Option (List ℕ)
decode_base64_url_no_pad text =
    if length text == 0
    then some []
    else if not (all (λ c. is_some (sextet c)) text)
    then none
    else if length text % 4 == 1
    then none
    else some (decode_groups text)
