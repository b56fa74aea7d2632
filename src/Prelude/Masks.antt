-- ===== src/Prelude/Masks.antt =====
-- Masks, fields and single bits.
use Prim.Native.Nat.{
  ℕ, zero, suc, ◌+◌, ◌-◌, ◌*◌, ◌/◌, ◌%◌, ◌^◌, ◌<◌, bit_and, bit_or, bit_or-bitwise,
}
use mathlib.Core.Path.{◌≡◌, refl, ap, ◌∙◌}
use native.Mathlib.Nat.{
  pow-suc, one-le-pow, mod-lt, mod-eq_of_lt, mul-add-mod_self_right, div-add-mod',
}
use native.Mathlib.Omega.{arith}
use wl.Prelude.Bits.{bit, bit_and_step, bit_or_step}

double_field : (q k : ℕ) → q * 2 ^ suc k ≡ q * 2 ^ k * 2
double_field q k = omega (arith, ap (λ (t : ℕ). q * t) (pow-suc 2 k))

bit_or-nothing : (n a : ℕ) → a < n → bit_or a 0 ≡ a
bit_or-nothing zero a h = absurd (omega arith)
bit_or-nothing (suc n) zero h = refl
bit_or-nothing (suc n) (suc a) h =
    omega (arith, bit_or_step (suc a) 0, bit_or-nothing n (suc a / 2) (omega arith))

-- `q << k | r` is a sum where r has k bits.
pub bit_or_field : (k q r : ℕ) → r < 2 ^ k → bit_or (q * 2 ^ k) r ≡ q * 2 ^ k + r
bit_or_field zero q r h =
    let e : r ≡ 0 = omega arith in
    let e' : q * 2 ^ 0 ≡ q = omega arith in
    rw (e, e') (omega (arith, bit_or-nothing (suc q) q (omega arith)))
bit_or_field (suc k) q r h =
    let e : q * 2 ^ suc k / 2 ≡ q * 2 ^ k = omega (arith, double_field q k) in
    omega (
      arith,
      bit_or_step (q * 2 ^ suc k) r,
      ap (λ (t : ℕ). bit_or t (r / 2)) e,
      bit_or_field k q (r / 2) (omega (arith, pow-suc 2 k)),
      double_field q k,
    )

bit_or_comm_fuel : (n a b : ℕ) → a < n → bit_or a b ≡ bit_or b a
bit_or_comm_fuel zero a b h = absurd (omega arith)
bit_or_comm_fuel (suc n) zero b h =
    omega (arith, bit_or-nothing (suc b) b (omega arith), bit_or-bitwise 0 b)
bit_or_comm_fuel (suc n) (suc a) b h = omega (
  arith,
  bit_or_step (suc a) b,
  bit_or_step b (suc a),
  bit_or_comm_fuel n (suc a / 2) (b / 2) (omega arith),
)

pub bit_or_comm : (a b : ℕ) → bit_or a b ≡ bit_or b a
bit_or_comm a b = bit_or_comm_fuel (suc a) a b (omega arith)

bit_and-nothing : (n a : ℕ) → a < n → bit_and a 0 ≡ 0
bit_and-nothing zero a h = absurd (omega arith)
bit_and-nothing (suc n) zero h = refl
bit_and-nothing (suc n) (suc a) h =
    omega (arith, bit_and_step (suc a) 0, bit_and-nothing n (suc a / 2) (omega arith))

mod_double : (k a : ℕ) → a % 2 ^ suc k ≡ a / 2 % 2 ^ k * 2 + a % 2
mod_double k a =
    let q : ℕ = a / 2 / 2 ^ k in
    let s : ℕ = a / 2 % 2 ^ k * 2 + a % 2 in
    let small : s < 2 ^ suc k =
      omega (arith, mod-lt (a / 2) (one-le-pow k 2 (omega arith)), pow-suc 2 k) in
    let whole : a ≡ q * 2 ^ suc k + s =
      omega (arith, div-add-mod' (a / 2) (2 ^ k), double_field q k) in
    ap (λ t. t % 2 ^ suc k) whole ∙ mul-add-mod_self_right q (2 ^ suc k) s ∙ mod-eq_of_lt small

mask_half : (k : ℕ) → (2 ^ suc k - 1) / 2 ≡ 2 ^ k - 1
mask_half k = omega (arith, pow-suc 2 k, one-le-pow k 2)

-- A mask of k ones is the remainder by 2 ^ k.
pub bit_and_mask : (k a : ℕ) → bit_and a (2 ^ k - 1) ≡ a % 2 ^ k
bit_and_mask zero a = omega (arith, bit_and-nothing (suc a) a (omega arith))
bit_and_mask (suc k) a = omega (
  arith,
  bit_and_step a (2 ^ suc k - 1),
  ap (λ (t : ℕ). bit_and (a / 2) t) (mask_half k),
  bit_and_mask k (a / 2),
  pow-suc 2 k,
  one-le-pow k 2,
  mod_double k a,
)

-- One bit, masked out.
pub bit_and-two_pow : (m w : ℕ) → bit_and w (2 ^ m) ≡ bit w m * 2 ^ m
unfolding bit
bit_and-two_pow zero w = omega (arith, bit_and_mask 1 w)
bit_and-two_pow (suc m) w =
    let e : 2 ^ suc m / 2 ≡ 2 ^ m = omega (arith, pow-suc 2 m) in
    omega (
      arith,
      bit_and_step w (2 ^ suc m),
      ap (λ (t : ℕ). bit_and (w / 2) t) e,
      bit_and-two_pow m (w / 2),
      pow-suc 2 m,
      ap (λ (t : ℕ). bit (w / 2) m * t) (pow-suc 2 m),
    )

pub two_pow-lt : (n k : ℕ) → k < n → 2 ^ k < 2 ^ n
two_pow-lt zero k h = absurd (omega arith)
two_pow-lt (suc n) zero h = omega (arith, one-le-pow n 2 (omega arith), pow-suc 2 n)
two_pow-lt (suc n) (suc k) h = omega (arith, two_pow-lt n k (omega arith), pow-suc 2 n, pow-suc 2 k)
