-- ===== src/Util/Utf8/Sound.antt =====
-- What `utf8dec` returns on any bytes.
use wl.Prelude.{
  ℕ, zero, suc, ◌+◌, ◌*◌, ◌%◌, ◌^◌, ◌≤◌, ◌<◌, ◌≡◌, ap, List, [], ◌∷◌, arith, length, All,
}
use native.Mathlib.Nat.{pow-suc, one-le-pow, mul-le-mul, le_refl}
use wl.Util.Utf8.{Decoded, char, invalid, fault, finish, continue, utf8dec}
-- A mask test on a byte as a range.
use wl.Util.Utf8.Laws.{lead_lem, continue_done, continue_step, IsAccepted}

abbrev pub IsByte : ℕ → Type 0
IsByte b = b < 256

-- A result that reads nothing past the string and consumes some of the n bytes only.
abbrev pub IsSound : ℕ → Decoded → Type 0
IsSound n (char c l) = IsAccepted c × (1 ≤ l) × (l ≤ 4) × (l ≤ n)
IsSound n invalid = Unit {0}
IsSound n fault = ⊥

finish-IsSound : (n l x : ℕ) → x < 2 ^ 31 → 1 ≤ l → l ≤ 4 → l ≤ n → IsSound n (finish l x)
unfolding finish
finish-IsSound n l x hx lo hi h = ground arith

room :
    (left x d : ℕ)
    → d < 64
    → (x + 1) * 64 ^ suc left ≤ 2 ^ 21
    → (x < 2 ^ 20) × ((x * 64 + d + 1) * 64 ^ left ≤ 2 ^ 21)
room left x d hd h =
    let one : 1 ≤ 64 ^ left = one-le-pow left 64 (omega arith) in
    let e : (x + 1) * 64 ^ suc left ≡ (x + 1) * 64 * 64 ^ left =
      omega (arith, ap (λ (t : ℕ). (x + 1) * t) (pow-suc 64 left)) in
    (
      omega (arith, mul-le-mul (le_refl ((x + 1) * 64)) one),
      omega (
        arith,
        mul-le-mul {n₁ = x * 64 + d + 1} {n₂ = (x + 1) * 64} (omega arith) (le_refl (64 ^ left)),
      ),
    )

continue-IsSound :
    (left n l x : ℕ) (s : List ℕ)
    → All IsByte s
    → left ≤ length s
    → (x + 1) * 64 ^ left ≤ 2 ^ 21
    → 1 ≤ l
    → l ≤ 4
    → l ≤ n
    → IsSound n (continue left l s x)
continue-IsSound zero n l x s bytes long small lo hi h =
    rw continue_done (finish-IsSound n l x (omega arith) lo hi h)
continue-IsSound (suc left) n l x [] bytes long small lo hi h = absurd (omega arith)
continue-IsSound (suc left) n l x (b ∷ s) bytes long small lo hi h =
    let bound = room left x (b % 64) (omega arith) small in
    rw (continue_step left l b x s bytes.0 bound.0) (
      ground (
        arith,
        continue-IsSound left n l (x * 64 + b % 64) s bytes.1 (omega arith) bound.1 lo hi h,
      ))

utf8dec_cons_IsSound :
    (b : ℕ) (s : List ℕ) (n : ℕ)
    → IsByte b
    → All IsByte s
    → 0 < n
    → n ≤ length s + 1
    → IsSound n (utf8dec (b ∷ s) n)
unfolding utf8dec
utf8dec_cons_IsSound b s n hb hs pos fits = ground (
  arith,
  lead_lem b hb,
  continue-IsSound 1 n 2 (b % 32) s hs,
  continue-IsSound 2 n 3 (b % 16) s hs,
  continue-IsSound 3 n 4 (b % 8) s hs,
)

-- On a string of bytes that holds the n > 0 bytes it is told of, `utf8dec` reads none past the
-- string; what it returns is below 0x110000 and outside U+D800 to U+D9FF, with a length of 1 to 4
-- bytes that does not pass n.
pub utf8dec-IsSound :
    (s : List ℕ) (n : ℕ) → All IsByte s → 0 < n → n ≤ length s → IsSound n (utf8dec s n)
utf8dec-IsSound [] n bytes pos fits = absurd (omega arith)
utf8dec-IsSound (b ∷ s) n bytes pos fits =
    utf8dec_cons_IsSound b s n bytes.0 bytes.1 pos (omega arith)
