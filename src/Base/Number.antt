-- ===== src/Base/Number.antt =====
-- Reading decimal digits back, and what `std::stoull` of the C++ library does with a text.
use cpp_mcp_sdk.Base.Tests.{ltb, leb, if◌then◌else◌, ◌==◌}
use cpp_mcp_sdk.Base.Lists.{length, All}
use cpp_mcp_sdk.Base.Decimal.{digits_from, decimal}
use Prim.Native.Nat.{ℕ, zero, suc, ◌+◌, ◌-◌, ◌*◌, ◌/◌, ◌%◌, ◌^◌, ◌<◌}
use mathlib.Core.Path.{◌≡◌, refl, ◌∙◌}
use mathlib.Core.Bool.{Bool, true, false, ◌&&◌, ◌||◌}
use mathlib.Core.Option.{Option, none, some}
use mathlib.Core.List.{List, [], ◌∷◌}
use native.Mathlib.Omega.{arith}

abbrev pub is_digit : ℕ → Bool
is_digit c = leb b'0' c && leb c b'9'

-- Whitespace in the C locale.
abbrev pub is_space : ℕ → Bool
is_space c = c == b' ' || leb 9 c && leb c 13

-- The number that a run of digits stands for, after `acc`, and the text behind the run.
unfoldable pub read_digits : ℕ → List ℕ → ℕ × List ℕ
read_digits acc [] = (acc, [])
read_digits acc (c ∷ s) =
    let more = read_digits (acc * 10 + (c - b'0')) s in if is_digit c then more else (acc, c ∷ s)

-- `stoull`: no conversion and overflow throw (`none`); otherwise the value and the rest. A minus
-- sign negates in the unsigned type.
unfoldable pub read_unsigned : Bool → List ℕ → Option (ℕ × List ℕ)
unfolding read_digits
read_unsigned negative [] = none
read_unsigned negative (c ∷ s) =
    let (n, rest) = read_digits 0 (c ∷ s) in
    if is_digit c && ltb n (2 ^ 64)
    then some ((if negative then (2 ^ 64 - n) % 2 ^ 64 else n), rest)
    else none

unfoldable pub read_sign : List ℕ → Option (ℕ × List ℕ)
unfolding read_unsigned
read_sign [] = none
read_sign (c ∷ s) =
    if c == b'-'
    then read_unsigned true s
    else if c == b'+'
    then read_unsigned false s
    else read_unsigned false (c ∷ s)

unfoldable pub stoull : List ℕ → Option (ℕ × List ℕ)
unfolding read_sign
stoull [] = none
stoull (c ∷ s) = let skipped = stoull s in if is_space c then skipped else read_sign (c ∷ s)

-- Reading the digits of `n` in front of a text goes on behind them with the value `n`.
read_digits-digits_from :
    (fuel n : ℕ) (rest : List ℕ)
    → n < fuel
    → read_digits 0 (digits_from fuel n rest) ≡ read_digits n rest
unfolding digits_from read_digits
read_digits-digits_from zero n rest h = absurd (omega arith)
read_digits-digits_from (suc fuel) n rest h =
    ground (arith, read_digits-digits_from fuel (n / 10) ((n % 10 + b'0') ∷ rest))

-- The digits of a number begin with a digit.
abbrev starts_with_digit : List ℕ → Bool
starts_with_digit [] = false
starts_with_digit (c ∷ s) = is_digit c

starts_with_digit-digits_from :
    (fuel n : ℕ) (rest : List ℕ) → n < fuel → starts_with_digit (digits_from fuel n rest) ≡ true
unfolding digits_from
starts_with_digit-digits_from zero n rest h = absurd (omega arith)
starts_with_digit-digits_from (suc fuel) n rest h =
    ground (arith, starts_with_digit-digits_from fuel (n / 10) ((n % 10 + b'0') ∷ rest))

stoull_of_digits :
    (s : List ℕ) (n : ℕ) (rest : List ℕ)
    → starts_with_digit s ≡ true
    → read_digits 0 s ≡ (n, rest)
    → n < 2 ^ 64
    → stoull s ≡ some (n, rest)
unfolding stoull
stoull_of_digits [] n rest d e h = cc
stoull_of_digits (c ∷ s) n rest d e h = ground arith

read_digits_end : (n : ℕ) → read_digits n [] ≡ (n, [])
unfolding read_digits
read_digits_end n = refl

-- `stoull` reads back what `to_string` printed.
pub stoull-decimal : (n : ℕ) → n < 2 ^ 64 → stoull (decimal n) ≡ some (n, [])
unfolding decimal
stoull-decimal n h =
    stoull_of_digits (digits_from (suc n) n []) n []
      (starts_with_digit-digits_from (suc n) n [] (omega arith))
      (read_digits-digits_from (suc n) n [] (omega arith) ∙ read_digits_end n) h

digits_from-All :
    (fuel n : ℕ) (rest : List ℕ)
    → All (λ c. c < 256) rest
    → All (λ c. c < 256) (digits_from fuel n rest)
unfolding digits_from
digits_from-All zero n rest h = h
digits_from-All (suc fuel) n rest h =
    ground (arith, digits_from-All fuel (n / 10) ((n % 10 + b'0') ∷ rest) (omega arith, h))

-- Decimal digits are bytes, and there is at least one.
pub decimal-All : (n : ℕ) → All (λ c. c < 256) (decimal n)
unfolding decimal
decimal-All n = digits_from-All (suc n) n [] tt

length_of_digit : (s : List ℕ) → starts_with_digit s ≡ true → 0 < length s
length_of_digit [] h = cc
length_of_digit (c ∷ s) h = omega arith

pub length-decimal_pos : (n : ℕ) → 0 < length (decimal n)
unfolding decimal
length-decimal_pos n =
    length_of_digit (decimal n) (starts_with_digit-digits_from (suc n) n [] (omega arith))
