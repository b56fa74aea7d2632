-- ===== src/Prelude/Bits.antt =====
-- The bit operations of C on numbers, bit by bit.
use Prim.Native.Nat.{
  ℕ, zero, suc, ◌+◌, ◌-◌, ◌*◌, ◌/◌, ◌%◌, ◌^◌, ◌≤◌, ◌<◌, min, max, digits, bitwise, bit_and, bit_or,
  bit_xor, differ, bit_and-bitwise, bit_or-bitwise, bit_xor-bitwise,
}
use mathlib.Core.Path.{◌≡◌, refl, sym, ap, ◌∙◌}
use mathlib.Core.Bool.{Bool, true, ◌&&◌}
use native.Mathlib.Nat.{pow-suc}
use native.Mathlib.Omega.{arith}
use wl.Prelude.Tests.{◌==◌, if◌then◌else◌}

-- Bit i of w, 0 or 1.
unfoldable pub bit : ℕ → ℕ → ℕ
bit w zero = w % 2
bit w (suc i) = bit (w / 2) i

pub bit-zero_lem : (w : ℕ) → bit w 0 ≡ w % 2
unfolding bit
bit-zero_lem w = refl

pub bit-suc_lem : (w i : ℕ) → bit w (suc i) ≡ bit (w / 2) i
unfolding bit
bit-suc_lem w i = refl

pub bit-le : (w i : ℕ) → bit w i ≤ 1
unfolding bit
bit-le w zero = omega arith
bit-le w (suc i) = bit-le (w / 2) i

-- The native operations recur on digits with the left number as fuel; more fuel changes nothing.
module _ (z : ℕ → ℕ) (f : ℕ → ℕ → ℕ) where
  more_fuel : (n d a b : ℕ) → a ≤ n → digits z f (n + d) a b ≡ digits z f n a b
  more_fuel zero zero zero b h = refl
  more_fuel zero (suc d) zero b h = let e : 0 + suc d ≡ suc d = omega arith in rw e
  more_fuel zero d (suc a) b h = absurd (omega arith)
  more_fuel (suc n) d zero b h = let e : suc n + d ≡ suc (n + d) = omega arith in rw e
  more_fuel (suc n) d (suc a) b h =
      let e : suc n + d ≡ suc (n + d) = omega arith in
      rw (e, more_fuel n d (suc a / 2) (b / 2) (omega arith))

  reversed : (q r : ℕ) → q * 2 + r ≡ r + 2 * q
  reversed q r = omega arith

  bitwise_halves :
      (m n : ℕ)
      → bitwise z f (suc m) n ≡ f (suc m % 2) (n % 2) + 2 * bitwise z f (suc m / 2) (n / 2)
  bitwise_halves m n =
      let q : ℕ = suc m / 2 in
      let less : q + (m - q) ≡ m = omega arith in
      ap (λ fuel. digits z f fuel q (n / 2) * 2 + f (suc m % 2) (n % 2)) (sym less)
      ∙ (ap (λ rest. rest * 2 + f (suc m % 2) (n % 2)) (more_fuel q (m - q) q (n / 2) (omega arith))
          ∙ reversed (bitwise z f q (n / 2)) (f (suc m % 2) (n % 2)))

-- The lowest bit, and the others.
pub bit_and_step : (m n : ℕ) → bit_and m n ≡ min (m % 2) (n % 2) + 2 * bit_and (m / 2) (n / 2)
bit_and_step zero n = simp bit_and-bitwise (omega arith)
bit_and_step (suc m) n = simp bit_and-bitwise (bitwise_halves (λ rest. 0) min m n)

pub bit_or_step : (m n : ℕ) → bit_or m n ≡ max (m % 2) (n % 2) + 2 * bit_or (m / 2) (n / 2)
bit_or_step zero n = simp bit_or-bitwise (omega arith)
bit_or_step (suc m) n = simp bit_or-bitwise (bitwise_halves (λ rest. rest) max m n)

pub bit_xor_step : (m n : ℕ) → bit_xor m n ≡ differ (m % 2) (n % 2) + 2 * bit_xor (m / 2) (n / 2)
bit_xor_step zero n = simp bit_xor-bitwise (omega arith)
bit_xor_step (suc m) n = simp bit_xor-bitwise (bitwise_halves (λ rest. rest) differ m n)

half_of : (x q r : ℕ) → r ≤ 1 → x ≡ q * 2 + r → (x / 2 ≡ q) × (x % 2 ≡ r)
half_of x q r h e = (omega arith, omega arith)

pub bit-bit_and : (i a b : ℕ) → bit (bit_and a b) i ≡ min (bit a i) (bit b i)
unfolding bit
bit-bit_and zero a b = omega (arith, bit_and_step a b)
bit-bit_and (suc i) a b =
    let e : bit_and a b / 2 ≡ bit_and (a / 2) (b / 2) = omega (arith, bit_and_step a b) in
    ap (λ t. bit t i) e ∙ bit-bit_and i (a / 2) (b / 2)

pub bit-bit_or : (i a b : ℕ) → bit (bit_or a b) i ≡ max (bit a i) (bit b i)
unfolding bit
bit-bit_or zero a b = omega (arith, bit_or_step a b)
bit-bit_or (suc i) a b =
    let e : bit_or a b / 2 ≡ bit_or (a / 2) (b / 2) = omega (arith, bit_or_step a b) in
    ap (λ t. bit t i) e ∙ bit-bit_or i (a / 2) (b / 2)

differ_digits : (d e : ℕ) → d ≤ 1 → e ≤ 1 → differ d e ≡ (if d == e then 0 else 1)
differ_digits zero zero hd he = refl
differ_digits zero (suc zero) hd he = refl
differ_digits zero (suc (suc e)) hd he = absurd (omega arith)
differ_digits (suc zero) zero hd he = refl
differ_digits (suc zero) (suc zero) hd he = refl
differ_digits (suc zero) (suc (suc e)) hd he = absurd (omega arith)
differ_digits (suc (suc d)) e hd he = absurd (omega arith)

pub bit-bit_xor : (i a b : ℕ) → bit (bit_xor a b) i ≡ (if bit a i == bit b i then 0 else 1)
unfolding bit
bit-bit_xor zero a b =
    ground (arith, bit_xor_step a b, differ_digits (a % 2) (b % 2) (omega arith) (omega arith))
bit-bit_xor (suc i) a b =
    let small : differ (a % 2) (b % 2) ≤ 1 =
      ground (arith, differ_digits (a % 2) (b % 2) (omega arith) (omega arith)) in
    let e : bit_xor a b / 2 ≡ bit_xor (a / 2) (b / 2) = omega (arith, bit_xor_step a b, small) in
    ap (λ t. bit t i) e ∙ bit-bit_xor i (a / 2) (b / 2)

pub bit_zero : (i : ℕ) → bit 0 i ≡ 0
unfolding bit
bit_zero zero = refl
bit_zero (suc i) = bit_zero i

pub bit-two_pow : (k i : ℕ) → bit (2 ^ k) i ≡ (if i == k then 1 else 0)
unfolding bit
bit-two_pow zero zero = refl
bit-two_pow zero (suc i) = ground (arith, bit_zero i)
bit-two_pow (suc k) zero = ground (arith, pow-suc 2 k)
bit-two_pow (suc k) (suc i) =
    let e : 2 ^ suc k / 2 ≡ 2 ^ k = omega (arith, pow-suc 2 k) in
    ap (λ t. bit t i) e ∙ ground (arith, bit-two_pow k i)

-- The complement of a word of n bits.
pub bit-complement : (n i x : ℕ) → x < 2 ^ n → i < n → bit (2 ^ n - 1 - x) i ≡ 1 - bit x i
unfolding bit
bit-complement zero i x hx hi = absurd (omega arith)
bit-complement (suc n) zero x hx hi = omega (arith, pow-suc 2 n)
bit-complement (suc n) (suc i) x hx hi =
    let e : (2 ^ suc n - 1 - x) / 2 ≡ 2 ^ n - 1 - x / 2 = omega (arith, pow-suc 2 n) in
    ap (λ t. bit t i) e ∙ bit-complement n i (x / 2) (omega (arith, pow-suc 2 n)) (omega arith)

-- A number below 2 ^ n has no bit from n on, and 0 is the one with no bit at all.
pub bit_above : (n i x : ℕ) → x < 2 ^ n → n ≤ i → bit x i ≡ 0
unfolding bit
bit_above zero i x hx hi = let e : x ≡ 0 = omega arith in rw e (bit_zero i)
bit_above (suc n) zero x hx hi = absurd (omega arith)
bit_above (suc n) (suc i) x hx hi = bit_above n i (x / 2) (omega (arith, pow-suc 2 n)) (omega arith)

pub bit_and-le : (n a b : ℕ) → a < 2 ^ n → bit_and a b ≤ a
bit_and-le zero a b h =
    let e : a ≡ 0 = omega arith in rw e (omega (arith, bit_and_step 0 b, bit_and-bitwise 0 b))
bit_and-le (suc n) a b h =
    omega (arith, bit_and_step a b, bit_and-le n (a / 2) (b / 2) (omega (arith, pow-suc 2 n)))

pub bit_or-lt : (n a b : ℕ) → a < 2 ^ n → b < 2 ^ n → bit_or a b < 2 ^ n
bit_or-lt zero a b h k =
    let e : a ≡ 0 = omega arith in let e' : b ≡ 0 = omega arith in rw (e, e') (omega arith)
bit_or-lt (suc n) a b h k = omega (
  arith,
  bit_or_step a b,
  bit_or-lt n (a / 2) (b / 2) (omega (arith, pow-suc 2 n)) (omega (arith, pow-suc 2 n)),
  pow-suc 2 n,
)

-- Over a small range, every value is checked by evaluation.
module _ (test : ℕ → Bool) where
  unfoldable pub tested_below : ℕ → Bool
  tested_below zero = true
  tested_below (suc i) = test i && tested_below i

  pub tested_below_lem : (bound i : ℕ) → i < bound → tested_below bound ≡ true → test i ≡ true
  unfolding tested_below
  tested_below_lem zero i lt e = absurd (omega arith)
  tested_below_lem (suc bound) i lt e = ground (arith, tested_below_lem bound i)
