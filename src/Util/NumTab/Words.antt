-- ===== src/Util/NumTab/Words.antt =====
-- The words of a table, bit by bit: clearing one, setting one, and the bit of a number.
use wl.Prelude.{
  ℕ, zero, suc, ◌+◌, ◌-◌, ◌*◌, ◌/◌, ◌%◌, ◌^◌, ◌≤◌, ◌<◌, ◌≡◌, refl, ap, bit_and, bit_or, none, some,
  List, [], ◌∷◌, ◌++◌, ltb, ◌==◌, if◌then◌else◌, length, arith, get_elem?, set, dec_lt,
}
use wl.Prelude.Bits.{
  bit, bit-le, bit-bit_and, bit-bit_or, bit-two_pow, bit-complement, bit_and-le, bit_or-lt,
}
use wl.Prelude.Masks.{two_pow-lt}

-- Bit n of the words, counted from the first.
unfoldable pub free_bit : List ℕ → ℕ → ℕ
free_bit [] n = 0
free_bit (w ∷ ws) n = if ltb n 64 then bit w n else free_bit ws (n - 64)

-- Every word is an unsigned long.
abbrev pub Words : List ℕ → Type 0
Words [] = Unit {0}
Words (w ∷ ws) = (w < 2 ^ 64) × Words ws

pub free_bit-le : (ws : List ℕ) (n : ℕ) → free_bit ws n ≤ 1
unfolding free_bit
free_bit-le [] n = omega arith
free_bit-le (w ∷ ws) n = ground (arith, bit-le w n, free_bit-le ws (n - 64))

pub free_bit_above : (ws : List ℕ) (n : ℕ) → 64 * length ws ≤ n → free_bit ws n ≡ 0
unfolding free_bit
free_bit_above [] n h = refl
free_bit_above (w ∷ ws) n h = ground (arith, free_bit_above ws (n - 64))

pub free_bit-append :
    (ws vs : List ℕ) (n : ℕ)
    → free_bit (ws ++ vs) n
      ≡ (if ltb n (64 * length ws) then free_bit ws n else free_bit vs (n - 64 * length ws))
unfolding free_bit
free_bit-append [] vs n = ground arith
free_bit-append (w ∷ ws) vs n =
    ground (arith, free_bit-append ws vs (n - 64), ap (free_bit vs) (sub_sub n 64 (64 * length ws)))
  where
    sub_sub : (a b c : ℕ) → a - b - c ≡ a - (b + c)
    sub_sub a b c = omega arith

pub cleared :
    (w k i : ℕ)
    → w < 2 ^ 64
    → k < 64
    → i < 64
    → bit (bit_and w (2 ^ 64 - 1 - 2 ^ k)) i ≡ (if i == k then 0 else bit w i)
cleared w k i hw hk hi = ground (
  arith,
  bit-bit_and i w (2 ^ 64 - 1 - 2 ^ k),
  bit-complement 64 i (2 ^ k) (two_pow-lt 64 k hk) hi,
  bit-two_pow k i,
  bit-le w i,
)

pub cleared-lt : (w k : ℕ) → w < 2 ^ 64 → bit_and w (2 ^ 64 - 1 - 2 ^ k) < 2 ^ 64
cleared-lt w k h = omega (arith, bit_and-le 64 w (2 ^ 64 - 1 - 2 ^ k) h)

pub added : (w k i : ℕ) → bit (bit_or w (2 ^ k)) i ≡ (if i == k then 1 else bit w i)
added w k i = ground (arith, bit-bit_or i w (2 ^ k), bit-two_pow k i, bit-le w i)

pub added-lt : (w k : ℕ) → w < 2 ^ 64 → k < 64 → bit_or w (2 ^ k) < 2 ^ 64
added-lt w k h hk = bit_or-lt 64 w (2 ^ k) h (two_pow-lt 64 k hk)

get_first : (v n : ℕ) (ws : List ℕ) → n < 64 → get_elem? (v ∷ ws) (n / 64) ≡ some v
get_first v n ws h = let z : n / 64 ≡ 0 = omega arith in rw z

get_later :
    (v n : ℕ) (ws : List ℕ) → 64 ≤ n → get_elem? (v ∷ ws) (n / 64) ≡ get_elem? ws ((n - 64) / 64)
get_later v n ws h = let z : n / 64 ≡ suc ((n - 64) / 64) = omega arith in rw z

pub free_bit_get :
    (ws : List ℕ) (n w : ℕ) → get_elem? ws (n / 64) ≡ some w → free_bit ws n ≡ bit w (n % 64)
unfolding free_bit
free_bit_get [] n w e = cc
free_bit_get (v ∷ ws) n w e = elim (dec_lt n 64) [
  | yes h ↦ let z : n % 64 ≡ n = omega arith in rw z (ground (arith, get_first v n ws h))
  | no h ↦
      let z : n % 64 ≡ (n - 64) % 64 = omega arith in
      rw z (ground (arith, free_bit_get ws (n - 64) w (rw (← get_later v n ws (omega arith)) e)))
]

pub get_beyond : (ws : List ℕ) (j : ℕ) → get_elem? ws j ≡ none → length ws ≤ j
get_beyond [] j e = omega arith
get_beyond (w ∷ ws) zero e = cc
get_beyond (w ∷ ws) (suc j) e = omega (arith, get_beyond ws j e)

pub get_within : (ws : List ℕ) (j w : ℕ) → get_elem? ws j ≡ some w → j < length ws
get_within [] j w e = cc
get_within (v ∷ ws) zero w e = omega arith
get_within (v ∷ ws) (suc j) w e = omega (arith, get_within ws j w e)

pub get-Words : (ws : List ℕ) (j w : ℕ) → Words ws → get_elem? ws j ≡ some w → w < 2 ^ 64
get-Words [] j w h e = cc
get-Words (v ∷ ws) zero w h e = ground (arith, h.0)
get-Words (v ∷ ws) (suc j) w h e = get-Words ws j w h.1 e

pub set-Words : (ws : List ℕ) (j v : ℕ) → Words ws → v < 2 ^ 64 → Words (set ws j v)
set-Words [] j v h hv = tt
set-Words (w ∷ ws) zero v h hv = (hv, h.1)
set-Words (w ∷ ws) (suc j) v h hv = (h.0, set-Words ws j v h.1 hv)

pub append-Words : (ws : List ℕ) (v : ℕ) → Words ws → v < 2 ^ 64 → Words (ws ++ v ∷ [])
append-Words [] v h hv = (hv, tt)
append-Words (w ∷ ws) v h hv = (h.0, append-Words ws v h.1 hv)

pub free_bit-set :
    (ws : List ℕ) (j v n : ℕ)
    → j < length ws
    → free_bit (set ws j v) n ≡ (if n / 64 == j then bit v (n % 64) else free_bit ws n)
unfolding free_bit
free_bit-set [] j v n h = absurd (omega arith)
free_bit-set (u ∷ ws) zero v n h = elim (dec_lt n 64) [
  | yes lt ↦ let z : n % 64 ≡ n = omega arith in rw z (ground arith)
  | no ge ↦ ground arith
]
free_bit-set (u ∷ ws) (suc j) v n h = elim (dec_lt n 64) [
  | yes lt ↦ ground arith
  | no ge ↦
      let z : n % 64 ≡ (n - 64) % 64 = omega arith in
      rw z (ground (arith, free_bit-set ws j v (n - 64)))
]
