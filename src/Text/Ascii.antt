-- ===== src/Text/Ascii.antt =====
-- include/mcp/detail/ascii.hpp, on bytes.
use cpp_mcp_sdk.Base.{
  ℕ, ◌+◌, Bool, true, false, not, ◌&&◌, ◌||◌, List, [], ◌∷◌, ◌≡◌, refl, arith, map, length, any,
  all, if◌then◌else◌, ◌==◌, leb,
}

unfoldable pub is_ascii_whitespace : ℕ → Bool
is_ascii_whitespace c = c == 0x20 || c == 0x09 || c == 0x0A || c == 0x0B || c == 0x0C || c == 0x0D

unfoldable pub is_ascii_control : ℕ → Bool
is_ascii_control c = leb c 0x1F || c == 0x7F

unfoldable pub is_ascii_upper : ℕ → Bool
is_ascii_upper c = leb 0x41 c && leb c 0x5A

unfoldable pub to_ascii_lower : ℕ → ℕ
unfolding is_ascii_upper
to_ascii_lower c = if is_ascii_upper c then c + 0x20 else c

unfoldable pub trim_begin : List ℕ → List ℕ
unfolding is_ascii_whitespace
trim_begin [] = []
trim_begin (c ∷ s) = let rest = trim_begin s in if is_ascii_whitespace c then rest else c ∷ s

unfoldable pub trim_end : List ℕ → List ℕ
unfolding is_ascii_whitespace
trim_end [] = []
trim_end (c ∷ s) =
    let rest = trim_end s in if is_ascii_whitespace c && length rest == 0 then [] else c ∷ rest

unfoldable pub trim_ascii_whitespace : List ℕ → List ℕ
unfolding trim_begin trim_end
trim_ascii_whitespace value = trim_end (trim_begin value)

unfoldable pub to_lower_ascii : List ℕ → List ℕ
unfolding to_ascii_lower
to_lower_ascii text = map to_ascii_lower text

-- The loop over the two texts, which have the same length.
unfoldable pub same_lower : List ℕ → List ℕ → Bool
unfolding to_ascii_lower
same_lower [] right = true
same_lower (c ∷ left) [] = true
same_lower (c ∷ left) (d ∷ right) =
    let rest = same_lower left right in if to_ascii_lower c == to_ascii_lower d then rest else false

unfoldable pub equals_ignore_case_ascii : List ℕ → List ℕ → Bool
unfolding same_lower
equals_ignore_case_ascii left right =
    if length left == length right then same_lower left right else false

unfoldable pub contains_ascii_whitespace_or_control : List ℕ → Bool
contains_ascii_whitespace_or_control value =
    any (λ c. is_ascii_whitespace c || is_ascii_control c) value

-- The comparison is that of the texts in lower case.
pub equals→lower :
    (left right : List ℕ)
    → equals_ignore_case_ascii left right ≡ true
    → to_lower_ascii left ≡ to_lower_ascii right
unfolding equals_ignore_case_ascii to_lower_ascii same_lower
equals→lower [] [] h = refl
equals→lower [] (d ∷ right) h = ground arith
equals→lower (c ∷ left) [] h = ground arith
equals→lower (c ∷ left) (d ∷ right) h = ground (arith, equals→lower left right)

pub lower→equals :
    (left right : List ℕ)
    → to_lower_ascii left ≡ to_lower_ascii right
    → equals_ignore_case_ascii left right ≡ true
unfolding equals_ignore_case_ascii to_lower_ascii same_lower
lower→equals [] [] h = refl
lower→equals [] (d ∷ right) h = cc
lower→equals (c ∷ left) [] h = cc
lower→equals (c ∷ left) (d ∷ right) h = ground (arith, lower→equals left right)

-- A text without whitespace is trimmed to itself.
abbrev pub no_whitespace : List ℕ → Bool
no_whitespace s = all (λ c. not (is_ascii_whitespace c)) s

trim_begin-none : (s : List ℕ) → no_whitespace s ≡ true → trim_begin s ≡ s
unfolding trim_begin
trim_begin-none [] h = refl
trim_begin-none (c ∷ s) h = ground arith

trim_end-none : (s : List ℕ) → no_whitespace s ≡ true → trim_end s ≡ s
unfolding trim_end
trim_end-none [] h = refl
trim_end-none (c ∷ s) h = ground (arith, trim_end-none s)

pub trim-none : (s : List ℕ) → no_whitespace s ≡ true → trim_ascii_whitespace s ≡ s
unfolding trim_ascii_whitespace
trim-none s h = rw (trim_ascii_whitespace, trim_begin-none s h) (trim_end-none s h)
