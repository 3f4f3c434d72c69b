-- ===== src/Base/Decimal.antt =====
-- `std::to_string` of an unsigned number, as ASCII codes and as a text.
use Prim.Native.String
use cpp_mcp_sdk.Base.Tests.{ltb, if◌then◌else◌}
use cpp_mcp_sdk.Base.Int.{ℤ, pos, negsuc}
use Prim.Native.Nat.{ℕ, zero, suc, ◌+◌, ◌/◌, ◌%◌}
use Prim.Native.String.{String}
use mathlib.Core.List.{List, [], ◌∷◌}

-- The digits of `n`, the most significant first, in front of `rest`. A number needs no more rounds
-- than it has digits, and it has at most `n + 1`.
unfoldable pub digits_from : ℕ → ℕ → List ℕ → List ℕ
digits_from zero n rest = rest
digits_from (suc fuel) n rest =
    let longer = digits_from fuel (n / 10) ((n % 10 + b'0') ∷ rest) in
    if ltb n 10 then (n + b'0') ∷ rest else longer

unfoldable pub decimal : ℕ → List ℕ
unfolding digits_from
decimal n = digits_from (suc n) n []

digit_text : ℕ → String
digit_text d =
    if ltb d 49
    then "0"
    else if ltb d 50
    then "1"
    else if ltb d 51
    then "2"
    else if ltb d 52
    then "3"
    else if ltb d 53
    then "4"
    else if ltb d 54
    then "5"
    else if ltb d 55
    then "6"
    else if ltb d 56
    then "7"
    else if ltb d 57
    then "8"
    else "9"

text_of : List ℕ → String
text_of [] = ""
text_of (d ∷ ds) = String.◌++◌ (digit_text d) (text_of ds)

unfoldable pub decimal_text : ℕ → String
unfolding decimal digit_text text_of
decimal_text n = text_of (decimal n)

-- `std::to_string` of a signed number.
unfoldable pub decimal_text_ℤ : ℤ → String
unfolding decimal_text
decimal_text_ℤ (pos n) = decimal_text n
decimal_text_ℤ (negsuc n) = String.◌++◌ "-" (decimal_text (suc n))
