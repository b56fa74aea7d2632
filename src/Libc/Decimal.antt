-- ===== src/Libc/Decimal.antt =====
-- Reading back numbers in decimal.
use wl.Prelude.{
  ℕ, zero, suc, ◌+◌, ◌-◌, ◌*◌, ◌/◌, ◌%◌, ◌^◌, ◌≤◌, ◌<◌, ◌≡◌, ap, ◌∙◌, false, some, List, [], ◌∷◌,
  ◌++◌, ltb, if◌then◌else◌, arith, replicate, lt→ltb, dec_lt,
}
use mathlib.Core.List.{append_assoc}
use native.Mathlib.Nat.{pow-suc}
use wl.Prelude.Int.{pos}
use wl.Libc.{is_digit, skip_spaces, read_digits, magnitude, strtol, strtol}

-- n in decimal, with f digits at most.
abbrev pub decimal : ℕ → ℕ → List ℕ
decimal zero n = []
decimal (suc f) n =
    let more = decimal f (n / 10) in (if ltb n 10 then [] else more) ++ (48 + n % 10) ∷ []

read_digits_one :
    (c acc : ℕ) (s : List ℕ)
    → c < 10
    → read_digits ((48 + c) ∷ s) acc ≡ read_digits s (acc * 10 + c)
unfolding read_digits
read_digits_one c acc s h = let e : 48 + c - 48 ≡ c = omega arith in rw e (ground arith)

decimal_longer : (f n : ℕ) → 10 ≤ n → decimal (suc f) n ≡ decimal f (n / 10) ++ (48 + n % 10) ∷ []
decimal_longer f n h = ground arith

room : (f n : ℕ) → n < 10 ^ suc f → 10 ≤ n → 0 < f
room zero n h ge = absurd (omega arith)
room (suc f) n h ge = omega arith

read_digits-decimal :
    (f n : ℕ) (rest : List ℕ)
    → 0 < f
    → n < 10 ^ f
    → read_digits (decimal f n ++ rest) 0 ≡ read_digits rest n
read_digits-decimal zero n rest some_ h = absurd (omega arith)
read_digits-decimal (suc f) n rest some_ h = elim (dec_lt n 10) [
  | yes small ↦
      let e : 0 * 10 + n % 10 ≡ n = omega arith in
      rw (lt→ltb n 10 small)
        (read_digits_one (n % 10) 0 rest (omega arith) ∙ ap (read_digits rest) e)
  | no large ↦
      let e : n / 10 * 10 + n % 10 ≡ n = omega arith in
      rw (decimal_longer f n (omega arith), append_assoc)
        (read_digits-decimal f (n / 10) ((48 + n % 10) ∷ rest) (room f n h (omega arith))
            (omega (arith, pow-suc 10 f))
          ∙ read_digits_one (n % 10) (n / 10) rest (omega arith)
          ∙ ap (read_digits rest) e)
]

-- The first byte is a digit.
abbrev pub HasHead : List ℕ → Type 0
HasHead l = (c : ℕ) × (s : List ℕ) × (l ≡ c ∷ s) × (48 ≤ c) × (c ≤ 57)

pub HasHead-append : (l m : List ℕ) → HasHead l → HasHead (l ++ m)
HasHead-append l m (c, s, e, lo, hi) = (c, s ++ m, ap (λ t. t ++ m) e, lo, hi)

pub decimal_head : (f n : ℕ) → 0 < f → n < 10 ^ f → HasHead (decimal f n)
decimal_head zero n some_ h = absurd (omega arith)
decimal_head (suc f) n some_ h = elim (dec_lt n 10) [
  | yes small ↦ (48 + n % 10, [], rw (lt→ltb n 10 small), omega arith, omega arith)
  | no large ↦ rw (decimal_longer f n (omega arith)) (
      HasHead-append (decimal f (n / 10)) _
        (decimal_head f (n / 10) (room f n h (omega arith)) (omega (arith, pow-suc 10 f))))
]

read_digits_stop :
    (c acc : ℕ) (s : List ℕ) → is_digit c ≡ false → read_digits (c ∷ s) acc ≡ (acc, c ∷ s)
unfolding read_digits
read_digits_stop c acc s h = ground (arith, h)

skip_blanks :
    (k c : ℕ) (s : List ℕ) → 48 ≤ c → c ≤ 57 → skip_spaces (replicate k 32 ++ (c ∷ s)) ≡ c ∷ s
unfolding skip_spaces
skip_blanks zero c s lo hi = ground arith
skip_blanks (suc k) c s lo hi = ground (arith, skip_blanks k c s lo hi)

magnitude_digits :
    (c n : ℕ) (s rest : List ℕ)
    → 48 ≤ c
    → c ≤ 57
    → read_digits (c ∷ s) 0 ≡ (n, rest)
    → magnitude (c ∷ s) ≡ some (false, n, rest)
unfolding magnitude
magnitude_digits c n s rest lo hi e = rw e (ground arith)

strtol_digits :
    (k d n : ℕ) (s rest : List ℕ)
    → 48 ≤ d
    → d ≤ 57
    → n < 2 ^ 63
    → read_digits (d ∷ s) 0 ≡ (n, rest)
    → strtol (replicate k 32 ++ (d ∷ s)) ≡ (pos n, rest)
unfolding strtol
strtol_digits k d n s rest lo hi fits read =
    rw (skip_blanks k d s lo hi, magnitude_digits d n s rest lo hi read, strtol) (ground arith)

-- The same for `strtol`.
pub strtol-decimal :
    (k f n c : ℕ) (rest : List ℕ)
    → 0 < f
    → n < 10 ^ f
    → n < 2 ^ 63
    → is_digit c ≡ false
    → strtol (replicate k 32 ++ (decimal f n ++ c ∷ rest)) ≡ (pos n, c ∷ rest)
strtol-decimal k f n c rest some_ h fits stop =
    headed (HasHead-append (decimal f n) (c ∷ rest) (decimal_head f n some_ h))
  where
    read : read_digits (decimal f n ++ c ∷ rest) 0 ≡ (n, c ∷ rest)
    read = read_digits-decimal f n (c ∷ rest) some_ h ∙ read_digits_stop c n rest stop

    headed :
        HasHead (decimal f n ++ c ∷ rest)
        → strtol (replicate k 32 ++ (decimal f n ++ c ∷ rest)) ≡ (pos n, c ∷ rest)
    headed (d, s, e, lo, hi) = rw e (strtol_digits k d n s (c ∷ rest) lo hi fits (rw e at read))
