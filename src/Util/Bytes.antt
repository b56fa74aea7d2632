-- ===== src/Util/Bytes.antt =====
-- The little-endian helpers of util.h. A buffer is the list of its bytes, and `none` is a read past it.
use wl.Prelude.{
  ℕ, ◌+◌, ◌*◌, ◌/◌, ◌%◌, ◌^◌, ◌<◌, bit_and, bit_or, ◌≡◌, Option, none, some, List, [], ◌∷◌, ◌++◌,
  arith,
}
use wl.Prelude.Masks.{bit_and_mask, bit_or_field, bit_or_comm}

-- `v >> k & 0xff`
abbrev byte_of : ℕ → ℕ → ℕ
byte_of v k = bit_and (v / 2 ^ k) 0xff

pub putle16 : ℕ → List ℕ
putle16 v = bit_and v 0xff ∷ byte_of v 8 ∷ []

unfoldable pub putle32 : ℕ → List ℕ
putle32 v = bit_and v 0xff ∷ byte_of v 8 ∷ byte_of v 16 ∷ byte_of v 24 ∷ []

pub putle64 : ℕ → List ℕ
putle64 v =
    bit_and v 0xff
    ∷ byte_of v 8
    ∷ byte_of v 16
    ∷ byte_of v 24
    ∷ byte_of v 32
    ∷ byte_of v 40
    ∷ byte_of v 48
    ∷ byte_of v 56
    ∷ []

-- `(b[k / 8] & 0xff) << k`
abbrev field : ℕ → ℕ → ℕ
field b k = bit_and b 0xff * 2 ^ k

pub getle16 : List ℕ → Option ℕ
getle16 (b0 ∷ b1 ∷ rest) = some (bit_or (bit_and b0 0xff) (field b1 8))
getle16 _ = none

pub getle32 : List ℕ → Option ℕ
getle32 (b0 ∷ b1 ∷ b2 ∷ b3 ∷ rest) =
    some (bit_or (bit_or (bit_or (bit_and b0 0xff) (field b1 8)) (field b2 16)) (field b3 24))
getle32 _ = none

byte_of_lem : (v k : ℕ) → byte_of v k ≡ v / 2 ^ k % 256
byte_of_lem v k = bit_and_mask 8 (v / 2 ^ k)

-- A sum of fields is built by `|` from the lowest up.
bit_or_above : (k lo b : ℕ) → lo < 2 ^ k → bit_or lo (b * 2 ^ k) ≡ lo + b * 2 ^ k
bit_or_above k lo b h = rw (bit_or_comm lo (b * 2 ^ k)) (omega (arith, bit_or_field k b lo h))

getle32_sum :
    (b0 b1 b2 b3 : ℕ) (rest : List ℕ)
    → getle32 (b0 ∷ b1 ∷ b2 ∷ b3 ∷ rest)
      ≡ some (b0 % 256 + b1 % 256 * 2 ^ 8 + b2 % 256 * 2 ^ 16 + b3 % 256 * 2 ^ 24)
unfolding getle32
getle32_sum b0 b1 b2 b3 rest = ground (
  arith,
  bit_and_mask 8 b0,
  bit_and_mask 8 b1,
  bit_and_mask 8 b2,
  bit_and_mask 8 b3,
  bit_or_above 8 (b0 % 256) (b1 % 256),
  bit_or_above 16 (b0 % 256 + b1 % 256 * 2 ^ 8) (b2 % 256),
  bit_or_above 24 (b0 % 256 + b1 % 256 * 2 ^ 8 + b2 % 256 * 2 ^ 16) (b3 % 256),
)

getle16_sum :
    (b0 b1 : ℕ) (rest : List ℕ) → getle16 (b0 ∷ b1 ∷ rest) ≡ some (b0 % 256 + b1 % 256 * 2 ^ 8)
unfolding getle16
getle16_sum b0 b1 rest =
    ground (arith, bit_and_mask 8 b0, bit_and_mask 8 b1, bit_or_above 8 (b0 % 256) (b1 % 256))

getle32-putle32 : (v : ℕ) (rest : List ℕ) → getle32 (putle32 v ++ rest) ≡ some (v % 2 ^ 32)
unfolding putle32
getle32-putle32 v rest =
    rw getle32_sum
      (ground (arith, bit_and_mask 8 v, byte_of_lem v 8, byte_of_lem v 16, byte_of_lem v 24))

getle16-putle16 : (v : ℕ) (rest : List ℕ) → getle16 (putle16 v ++ rest) ≡ some (v % 2 ^ 16)
unfolding putle16
getle16-putle16 v rest = rw getle16_sum (ground (arith, bit_and_mask 8 v, byte_of_lem v 8))

putle64-putle32 : (v : ℕ) → putle64 v ≡ putle32 v ++ putle32 (v / 2 ^ 32)
unfolding putle64 putle32
putle64-putle32 v = ground (
  arith,
  byte_of_lem v 32,
  bit_and_mask 8 (v / 2 ^ 32),
  byte_of_lem v 40,
  byte_of_lem v 48,
  byte_of_lem v 56,
  byte_of_lem (v / 2 ^ 32) 8,
  byte_of_lem (v / 2 ^ 32) 16,
  byte_of_lem (v / 2 ^ 32) 24,
)

-- The writers and readers agree: `getle16` and `getle32` read back what `putle16` and `putle32`
-- wrote of v, modulo 2 ^ 16 and 2 ^ 32, whatever follows; the eight bytes of `putle64` are those of
-- `putle32` on v and then on its upper half.
pub getle-putle :
    (v : ℕ) (rest : List ℕ)
    → (getle16 (putle16 v ++ rest) ≡ some (v % 2 ^ 16))
      × (getle32 (putle32 v ++ rest) ≡ some (v % 2 ^ 32))
      × (putle64 v ≡ putle32 v ++ putle32 (v / 2 ^ 32))
getle-putle v rest = (getle16-putle16 v rest, getle32-putle32 v rest, putle64-putle32 v)
