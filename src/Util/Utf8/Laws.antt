-- ===== src/Util/Utf8/Laws.antt =====
-- What `utf8dec` accepts, against the encoding of RFC 3629 written as arithmetic.
use wl.Prelude.{
  ℕ, suc, ◌+◌, ◌-◌, ◌*◌, ◌/◌, ◌%◌, ◌^◌, ◌≤◌, ◌<◌, bit_and, ◌≡◌, refl, ◌∙◌, ◌⊎◌, Bool, true, not,
  ◌&&◌, Option, none, some, List, [], ◌∷◌, ◌++◌, ltb, leb, ◌==◌, if◌then◌else◌, arith, length,
}
use wl.Prelude.Bits.{tested_below, tested_below_lem}
use wl.Prelude.Masks.{bit_and_mask, bit_or_field}
use wl.Util.Utf8.{char, invalid, lead, finish, continue, utf8dec}

-- A mask test on a byte as a range.
abbrev pub masked : ℕ → ℕ → ℕ → ℕ → ℕ → Bool
masked m v lo hi b = if leb lo b && ltb b hi then bit_and b m == v else not (bit_and b m == v)

lead_two : (b : ℕ) → b < 256 → masked 0xe0 0xc0 192 224 b ≡ true
unfolding tested_below
lead_two b h = tested_below_lem (masked 0xe0 0xc0 192 224) 256 b h refl

lead_three : (b : ℕ) → b < 256 → masked 0xf0 0xe0 224 240 b ≡ true
unfolding tested_below
lead_three b h = tested_below_lem (masked 0xf0 0xe0 224 240) 256 b h refl

lead_four : (b : ℕ) → b < 256 → masked 0xf8 0xf0 240 248 b ≡ true
unfolding tested_below
lead_four b h = tested_below_lem (masked 0xf8 0xf0 240 248) 256 b h refl

pub later : (b : ℕ) → b < 256 → masked 0xc0 0x80 128 192 b ≡ true
unfolding tested_below
later b h = tested_below_lem (masked 0xc0 0x80 128 192) 256 b h refl

-- The first byte, by range.
abbrev pub lead_by_range : ℕ → Option (ℕ × ℕ)
lead_by_range b =
    if leb 192 b && ltb b 224
    then some (b % 32, 2)
    else if leb 224 b && ltb b 240
    then some (b % 16, 3)
    else if leb 240 b && ltb b 248
    then some (b % 8, 4)
    else none

pub lead_lem : (b : ℕ) → b < 256 → lead b ≡ lead_by_range b
unfolding lead
lead_lem b h = ground (
  arith,
  lead_two b h,
  lead_three b h,
  lead_four b h,
  bit_and_mask 5 b,
  bit_and_mask 4 b,
  bit_and_mask 3 b,
)

-- One round of the loop.
pub continue_step :
    (left l b x : ℕ) (s : List ℕ)
    → b < 256
    → x < 2 ^ 20
    → continue (suc left) l (b ∷ s) x
      ≡ (if leb 128 b && ltb b 192 then continue left l s (x * 64 + b % 64) else invalid)
unfolding continue
continue_step left l b x s hb hx =
    ground (arith, later b hb, bit_and_mask 6 b, bit_or_field 6 x (b % 64))

-- The values that the last test lets through: it takes out U+D800 to U+D9FF only.
abbrev pub IsAccepted : ℕ → Type 0
IsAccepted c = (c < 0x110000) × ((c < 0xd800) ⊎ (0xda00 ≤ c))

pub finish_ok : (l x : ℕ) → IsAccepted x → finish l x ≡ char x l
unfolding finish
finish_ok l x h = ground arith

pub finish_sound : (l x c n : ℕ) → x < 2 ^ 31 → finish l x ≡ char c n → IsAccepted c × (n ≡ l)
unfolding finish
finish_sound l x c n h e = ground arith

-- RFC 3629.
abbrev pub encoding : ℕ → List ℕ
encoding c =
    if ltb c 0x80
    then c ∷ []
    else if ltb c 0x800
    then (0xc0 + c / 64) ∷ (0x80 + c % 64) ∷ []
    else if ltb c 0x10000
    then (0xe0 + c / 4096) ∷ (0x80 + c / 64 % 64) ∷ (0x80 + c % 64) ∷ []
    else (0xf0 + c / 262144) ∷ (0x80 + c / 4096 % 64) ∷ (0x80 + c / 64 % 64) ∷ (0x80 + c % 64) ∷ []

-- `utf8dec` on a string whose first byte announces l bytes.
utf8dec-lead :
    (b n x l : ℕ) (s : List ℕ)
    → 128 ≤ b
    → lead b ≡ some (x, l)
    → l ≤ n
    → utf8dec (b ∷ s) n ≡ continue (l - 1) l s x
unfolding utf8dec
utf8dec-lead b n x l s hb e h = ground arith

pub continue_done : (l x : ℕ) (s : List ℕ) → continue 0 l s x ≡ finish l x
unfolding continue
continue_done l x s = refl

two_bytes :
    (c n : ℕ) (rest : List ℕ)
    → 0x80 ≤ c
    → c < 0x800
    → 2 ≤ n
    → utf8dec ((0xc0 + c / 64) ∷ (0x80 + c % 64) ∷ rest) n ≡ finish 2 c
two_bytes c n rest lo hi h =
    utf8dec-lead (0xc0 + c / 64) n (c / 64) 2 ((0x80 + c % 64) ∷ rest) (omega arith)
      (ground (arith, lead_lem (0xc0 + c / 64))) h
    ∙ ground (arith, continue_step 0 2 (0x80 + c % 64) (c / 64) rest, continue_done 2 c rest)

three_bytes :
    (c n : ℕ) (rest : List ℕ)
    → 0x800 ≤ c
    → c < 0x10000
    → 3 ≤ n
    → utf8dec ((0xe0 + c / 4096) ∷ (0x80 + c / 64 % 64) ∷ (0x80 + c % 64) ∷ rest) n ≡ finish 3 c
three_bytes c n rest lo hi h =
    utf8dec-lead (0xe0 + c / 4096) n (c / 4096) 3 ((0x80 + c / 64 % 64) ∷ (0x80 + c % 64) ∷ rest)
      (omega arith) (ground (arith, lead_lem (0xe0 + c / 4096))) h
    ∙ ground (
      arith,
      continue_step 1 3 (0x80 + c / 64 % 64) (c / 4096) ((0x80 + c % 64) ∷ rest),
      continue_step 0 3 (0x80 + c % 64) (c / 64) rest,
      continue_done 3 c rest,
    )

four_bytes :
    (c n : ℕ) (rest : List ℕ)
    → 0x10000 ≤ c
    → c < 0x110000
    → 4 ≤ n
    → utf8dec
        ((0xf0 + c / 262144)
          ∷ (0x80 + c / 4096 % 64)
          ∷ (0x80 + c / 64 % 64)
          ∷ (0x80 + c % 64)
          ∷ rest)
        n
      ≡ finish 4 c
four_bytes c n rest lo hi h =
    utf8dec-lead (0xf0 + c / 262144) n (c / 262144) 4
      ((0x80 + c / 4096 % 64) ∷ (0x80 + c / 64 % 64) ∷ (0x80 + c % 64) ∷ rest) (omega arith)
      (ground (arith, lead_lem (0xf0 + c / 262144))) h
    ∙ ground (
      arith,
      continue_step 2 4 (0x80 + c / 4096 % 64) (c / 262144)
          ((0x80 + c / 64 % 64) ∷ (0x80 + c % 64) ∷ rest),
      continue_step 1 4 (0x80 + c / 64 % 64) (c / 4096) ((0x80 + c % 64) ∷ rest),
      continue_step 0 4 (0x80 + c % 64) (c / 64) rest,
      continue_done 4 c rest,
    )

one_byte : (c n : ℕ) (rest : List ℕ) → c < 0x80 → utf8dec (c ∷ rest) n ≡ finish 1 c
unfolding utf8dec finish
one_byte c n rest h = ground arith

utf8dec-encoding-finish :
    (c n : ℕ) (rest : List ℕ)
    → c < 0x110000
    → length (encoding c) ≤ n
    → utf8dec (encoding c ++ rest) n ≡ finish (length (encoding c)) c
utf8dec-encoding-finish c n rest h fits =
    ground (arith, one_byte c n rest, two_bytes c n rest, three_bytes c n rest, four_bytes c n rest)

-- Every code point below 0x110000 outside U+D800 to U+D9FF, once encoded by RFC 3629, is decoded to
-- itself and its length, whatever bytes follow it, when n counts all its bytes.
pub utf8dec-encoding :
    (c n : ℕ) (rest : List ℕ)
    → IsAccepted c
    → length (encoding c) ≤ n
    → utf8dec (encoding c ++ rest) n ≡ char c (length (encoding c))
utf8dec-encoding c n rest ok fits =
    utf8dec-encoding-finish c n rest ok.0 fits ∙ finish_ok (length (encoding c)) c ok
