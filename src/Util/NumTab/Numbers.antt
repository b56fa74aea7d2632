-- ===== src/Util/NumTab/Numbers.antt =====
-- The abstract view of a table: which numbers are in use.
use wl.Prelude.{
  ℕ, zero, suc, ◌+◌, ◌-◌, ◌*◌, ◌/◌, ◌%◌, ◌^◌, ◌≤◌, ◌<◌, ◌≡◌, refl, ap, ◌∙◌, ℕ_discrete, dec_lt, ◌⊎◌,
  inl, inr, bit_and, Option, some, List, [], ◌∷◌, ◌==◌, if◌then◌else◌, length, arith,
}
use native.Mathlib.Nat.{pow-suc}
use wl.Prelude.Bits.{bit, bit_zero, bit-zero_lem, bit-suc_lem}
use wl.Prelude.Masks.{bit_and_mask}
use wl.Util.NumTab.Words.{Words, free_bit, cleared, cleared-lt}
use wl.Util.NumTab.{NumTab, Scan, found, full, past, trailing, scan, take_bit, shl_one}

abbrev pub IsTaken : NumTab → ℕ → Type 0
IsTaken tab n = (n < 64 * length tab.ent) × (free_bit tab.ent n ≡ 0)

abbrev pub IsNumTab : NumTab → Type 0
IsNumTab tab = Words tab.ent

low_bit : (w : ℕ) → bit_and w 1 ≡ w % 2
low_bit w = bit_and_mask 1 w

-- The inner loop ends at the lowest set bit.
abbrev Lowest : ℕ → ℕ → ℕ → Option ℕ → Type 0
Lowest f w num r =
    (k : ℕ) × (k < f) × (r ≡ some (num + k)) × (bit w k ≡ 1) × ((i : ℕ) → i < k → bit w i ≡ 0)

trailing_odd : (f w num : ℕ) → w % 2 ≡ 1 → trailing (suc f) w num ≡ some num
unfolding trailing
trailing_odd f w num e = ground (arith, low_bit w)

trailing_even : (f w num : ℕ) → w % 2 ≡ 0 → trailing (suc f) w num ≡ trailing f (w / 2) (num + 1)
unfolding trailing
trailing_even f w num e = ground (arith, low_bit w)

below_suc :
    (w k : ℕ)
    → w % 2 ≡ 0
    → ((i : ℕ) → i < k → bit (w / 2) i ≡ 0)
    → (i : ℕ) → i < suc k
    → bit w i ≡ 0
below_suc w k e low zero h = rw bit-zero_lem e
below_suc w k e low (suc i) h = rw bit-suc_lem (low i (omega arith))

Lowest-suc :
    (f w num : ℕ) (r : Option ℕ) → w % 2 ≡ 0 → Lowest f (w / 2) (num + 1) r → Lowest (suc f) w num r
Lowest-suc f w num r e (k, small, eq, set_, low) =
    (suc k, omega arith, eq ∙ ap some (omega arith), rw bit-suc_lem set_, below_suc w k e low)

trailing-Lowest : (f w num : ℕ) → 0 < w → w < 2 ^ f → Lowest f w num (trailing f w num)
trailing-Lowest zero w num pos h = absurd (omega arith)
trailing-Lowest (suc f) w num pos h = elim (ℕ_discrete (w % 2) 1) [
  | yes odd ↦ (
    0,
    omega arith,
    trailing_odd f w num odd ∙ ap some (omega arith),
    rw bit-zero_lem odd,
    λ i lt. absurd (omega arith),
  )
  | no even ↦
      let e : w % 2 ≡ 0 = omega arith in
      rw (trailing_even f w num e) (
        Lowest-suc f w num _ e
          (trailing-Lowest f (w / 2) (num + 1) (omega arith) (omega (arith, pow-suc 2 f))))
]

-- A step from words ws to words vs that takes k, the lowest free number.
pub record Taking (ws : List ℕ) (k : ℕ) (vs : List ℕ) : Type 0 where
  pub valid : Words vs
  pub same : length vs ≡ length ws
  pub inside : k < 64 * length ws
  pub was_free : free_bit ws k ≡ 1
  pub least : (i : ℕ) → i < k → free_bit ws i ≡ 0
  pub after : (i : ℕ) → free_bit vs i ≡ (if i == k then 0 else free_bit ws i)

Taking-first :
    (w k : ℕ) (ws : List ℕ)
    → Words (w ∷ ws)
    → k < 64
    → bit w k ≡ 1
    → ((i : ℕ) → i < k → bit w i ≡ 0)
    → Taking (w ∷ ws) k (bit_and w (2 ^ 64 - 1 - 2 ^ k) ∷ ws)
unfolding free_bit
Taking-first w k ws h hk on low = record {
  valid = (cleared-lt w k h.0, h.1);
  same = refl;
  inside = omega arith;
  was_free = ground arith;
  least = λ i lt. ground (arith, low i lt);
  after = λ i. ground (arith, cleared w k i h.0 hk);
}

Taking-later : (k : ℕ) (ws vs : List ℕ) → Taking ws k vs → Taking (0 ∷ ws) (64 + k) (0 ∷ vs)
unfolding free_bit
Taking-later k ws vs t = record {
  valid = (omega arith, t.valid);
  same = ap suc t.same;
  inside = omega (arith, t.inside);
  was_free =
      let e : 64 + k - 64 ≡ k = omega arith in ground (arith, ap (free_bit ws) e, t.was_free);
  least = λ i lt. ground (arith, t.least (i - 64), bit_zero i);
  after = λ i. ground (arith, t.after (i - 64), bit_zero i);
}

module _ (wide : ℕ → ℕ) where
  -- As on a machine that shifts modulo 64, in the form in which the loop meets it.
  abbrev pub ShiftsMod64 : Type 0
  ShiftsMod64 = (n : ℕ) → 64 ≤ n → wide n ≡ 2 ^ (n % 64)

  abbrev pub Scanned : List ℕ → ℕ → Scan → Type 0
  Scanned ws base r =
      ((k : ℕ) × (vs : List ℕ) × (r ≡ found (base + k) vs) × Taking ws k vs)
      ⊎ ((r ≡ full) × ((i : ℕ) → free_bit ws i ≡ 0))

  shl_one_lem :
      ShiftsMod64 → (base k : ℕ) → base % 64 ≡ 0 → k < 64 → shl_one wide (base + k) ≡ 2 ^ k
  unfolding shl_one
  shl_one_lem law base k h hk = elim (dec_lt (base + k) 64) [
    | yes small ↦
        let z : base ≡ 0 = omega arith in
        rw z (let e : 0 + k ≡ k = omega arith in rw e (ground arith))
    | no large ↦
        let e : (base + k) % 64 ≡ k = omega arith in
        ground (arith, law (base + k) (omega arith), ap (λ t. 2 ^ t) e)
  ]

  scan_zero : (ws : List ℕ) (base : ℕ) → scan wide (0 ∷ ws) base ≡ past 0 (scan wide ws (base + 64))
  unfolding scan
  scan_zero ws base = refl

  scan_hit :
      (w base num : ℕ) (ws : List ℕ)
      → 0 < w
      → trailing 64 w base ≡ some num
      → scan wide (w ∷ ws) base ≡ found num (bit_and w (2 ^ 64 - 1 - shl_one wide num) ∷ ws)
  unfolding scan take_bit
  scan_hit w base num ws pos e = ground arith

  pub scan-Scanned :
      ShiftsMod64
      → (ws : List ℕ) (base : ℕ) → Words ws
      → base % 64 ≡ 0
      → Scanned ws base (scan wide ws base)
  scan-Scanned law [] base h hb = inr (unfold scan in refl, λ i. unfold free_bit in refl)
  scan-Scanned law (zero ∷ ws) base h hb =
      rw scan_zero (passed (scan-Scanned law ws (base + 64) h.1 (omega arith)))
    where
      passed :
          Scanned ws (base + 64) (scan wide ws (base + 64))
          → Scanned (0 ∷ ws) base (past 0 (scan wide ws (base + 64)))
      passed (inl (k, vs, e, t)) =
          inl (
            64 + k,
            0 ∷ vs,
            rw e (ap (λ n. found n (0 ∷ vs)) (omega arith)),
            Taking-later k ws vs t,
          )
      passed (inr (e, none_free)) =
          inr (rw e, λ i. unfold free_bit in ground (arith, bit_zero i, none_free (i - 64)))
  scan-Scanned law (suc w ∷ ws) base h hb = hit (trailing-Lowest 64 (suc w) base (omega arith) h.0)
    where
      hit :
          Lowest 64 (suc w) base (trailing 64 (suc w) base)
          → Scanned (suc w ∷ ws) base (scan wide (suc w ∷ ws) base)
      hit (k, small, e, on, low) = inl (
        k,
        bit_and (suc w) (2 ^ 64 - 1 - 2 ^ k) ∷ ws,
        rw (scan_hit (suc w) base (base + k) ws (omega arith) e, shl_one_lem law base k hb small),
        Taking-first (suc w) k ws h small on low,
      )
