-- ===== src/Util/Utf8.antt =====
-- `utf8dec` of util.c. A string is the list of its bytes.
pub mod Laws
pub mod Sound
use wl.Prelude.{
  ℕ, zero, suc, ◌+◌, ◌-◌, ◌*◌, ◌%◌, ◌^◌, bit_and, bit_or, Bool, not, ◌||◌, Option, none, some, List,
  [], ◌∷◌, ltb, leb, ◌==◌, if◌then◌else◌,
}

-- `char c l` stores c and returns l, `invalid` returns (size_t)-1, `fault` reads past the string.
pub data Decoded : Type 0 where
  char : ℕ → ℕ → Decoded
  invalid fault : Decoded

-- The bits that the first byte gives, and the length that it announces.
pub lead : ℕ → Option (ℕ × ℕ)
lead b =
    if bit_and b 0xe0 == 0xc0
    then some (bit_and b 0x1f, 2)
    else if bit_and b 0xf0 == 0xe0
    then some (bit_and b 0x0f, 3)
    else if bit_and b 0xf8 == 0xf0
    then some (bit_and b 0x07, 4)
    else none

-- The test after the loop, `x - 0xd800` in 32 bits.
pub finish : ℕ → ℕ → Decoded
finish l x =
    if leb 0x110000 x || ltb ((x + 2 ^ 32 - 0xd800) % 2 ^ 32) 0x0200 then invalid else char x l

-- The loop, by the rounds left.
pub continue : ℕ → ℕ → List ℕ → ℕ → Decoded
continue zero l s x = finish l x
continue (suc left) l [] x = fault
continue (suc left) l (b ∷ s) x =
    if not (bit_and b 0xc0 == 0x80)
    then invalid
    else continue left l s (bit_or (x * 2 ^ 6 % 2 ^ 32) (bit_and b 0x3f))

unfoldable pub utf8dec : List ℕ → ℕ → Decoded
unfolding lead continue finish
utf8dec [] n = fault
utf8dec (b ∷ s) n = if ltb b 0x80 then char b 1 else elim (lead b) [
  | none ↦ invalid
  | some (x, l) ↦ if ltb n l then invalid else continue (l - 1) l s x
]
