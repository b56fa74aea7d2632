-- ===== src/Libc.antt =====
-- What the program uses of the C library: decimal numbers in text, and binary search. Text is the
-- list of its bytes; a list that ends without a NUL byte is read as if one followed.
pub mod Decimal
pub mod Search
pub mod Tests
use Prim.Native.Char.{code}
use Prim.Native.String.{String}
use wl.Prelude.{
  ℕ, zero, suc, ◌+◌, ◌-◌, ◌*◌, ◌/◌, ◌%◌, ◌^◌, Bool, true, false, ◌&&◌, ◌||◌, Option, none, some,
  List, [], ◌∷◌, ltb, leb, ◌==◌, if◌then◌else◌,
}
use wl.Prelude.Int.{ℤ, pos, negsuc, sub_ℕ}

abbrev pub codes : String → List ℕ
codes String.[] = []
codes (String.◌∷◌ c s) = code c ∷ codes s

unfoldable pub is_space : ℕ → Bool
is_space c = c == 32 || (leb 9 c && leb c 13)

unfoldable pub is_digit : ℕ → Bool
is_digit c = leb 48 c && leb c 57

unfoldable pub skip_spaces : List ℕ → List ℕ
unfolding is_space
skip_spaces [] = []
skip_spaces (c ∷ s) = if is_space c then skip_spaces s else c ∷ s

-- The digits at the front, and what follows them.
unfoldable pub read_digits : List ℕ → ℕ → ℕ × List ℕ
unfolding is_digit
read_digits [] acc = (acc, [])
read_digits (c ∷ s) acc = if is_digit c then read_digits s (acc * 10 + (c - 48)) else (acc, c ∷ s)

abbrev starts_with_digit : List ℕ → Bool
starts_with_digit [] = false
starts_with_digit (c ∷ s) = is_digit c

-- Whether a minus sign was read, the magnitude, and the rest; `none` where there is no number.
unsigned_part : Bool → List ℕ → Option (Bool × ℕ × List ℕ)
unfolding read_digits
unsigned_part negative t =
    let (n, rest) = read_digits t 0 in
    if starts_with_digit t then some (negative, n, rest) else none

unfoldable pub magnitude : List ℕ → Option (Bool × ℕ × List ℕ)
unfolding is_digit unsigned_part
magnitude [] = none
magnitude (c ∷ s) =
    if c == b'-'
    then unsigned_part true s
    else if c == b'+'
    then unsigned_part false s
    else unsigned_part false (c ∷ s)

abbrev clamp_unsigned : Bool → ℕ → ℕ
clamp_unsigned negative n =
    if ltb n (2 ^ 64) then (if negative then (2 ^ 64 - n) % 2 ^ 64 else n) else 2 ^ 64 - 1

-- `strtoul(s, &s, 10)`: the value and the rest.
unfoldable pub strtoul : List ℕ → ℕ × List ℕ
unfolding skip_spaces magnitude read_digits
strtoul s = elim (magnitude (skip_spaces s)) [
  | none ↦ (0, s)
  | some (negative, n, rest) ↦ (clamp_unsigned negative n, rest)
]

abbrev clamp_signed : Bool → ℕ → ℤ
clamp_signed true n = sub_ℕ 0 (if leb n (2 ^ 63) then n else 2 ^ 63)
clamp_signed false n = pos (if ltb n (2 ^ 63) then n else 2 ^ 63 - 1)

-- `strtol(s, &s, 10)`
unfoldable pub strtol : List ℕ → ℤ × List ℕ
unfolding skip_spaces magnitude read_digits
strtol s = elim (magnitude (skip_spaces s)) [
  | none ↦ (pos 0, s)
  | some (negative, n, rest) ↦ (clamp_signed negative n, rest)
]
