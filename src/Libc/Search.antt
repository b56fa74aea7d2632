-- ===== src/Libc/Search.antt =====
-- Binary search over elements that are told apart by one number each.
use wl.Prelude.{
  ℕ, zero, suc, ◌+◌, ◌-◌, ◌/◌, ◌≤◌, ◌<◌, ◌≡◌, refl, ap, dec_lt, ◌≢◌, true, false, Option, none,
  some, ltb, ◌==◌, if◌then◌else◌, arith,
}

-- The sign of a comparison.
pub data Sign : Type 0 where
  below same above : Sign

-- `bsearch` over the nel elements from `base` on; `side i` compares the key with element i.
unfoldable pub bsearch : (ℕ → Sign) → ℕ → ℕ → ℕ → Option ℕ
bsearch side zero base nel = none
bsearch side (suc fuel) base nel = elim (nel == 0) [
  | true ↦ none
  | false ↦ elim (side (base + nel / 2)) [
    | below ↦ bsearch side fuel base (nel / 2)
    | same ↦ some (base + nel / 2)
    | above ↦ bsearch side fuel (base + nel / 2 + 1) (nel - (nel / 2 + 1))
  ]
]

-- The numbers of the elements from `base` on rise.
abbrev pub Rises : (ℕ → ℕ) → ℕ → ℕ → Type 0
Rises at base nel = (i j : ℕ) → base ≤ i → i < j → j < base + nel → at i < at j

-- The answer is an element with the key, or there is none.
pub data Searched (at : ℕ → ℕ) (key base nel : ℕ) : Option ℕ → Type 0 where
  hit : (i : ℕ) → base ≤ i → i < base + nel → at i ≡ key → Searched at key base nel (some i)
  miss : ((i : ℕ) → base ≤ i → i < base + nel → at i ≢ key) → Searched at key base nel none

module _ (at : ℕ → ℕ) (key : ℕ) (side : ℕ → Sign)
    (tells : (i : ℕ)
      → side i ≡ (if ltb key (at i) then below else if ltb (at i) key then above else same)) where
  widen :
      (base nel base' nel' : ℕ) (r : Option ℕ)
      → base ≤ base'
      → base' + nel' ≤ base + nel
      → ((i : ℕ) → base ≤ i → i < base + nel → at i ≡ key → (base' ≤ i) × (i < base' + nel'))
      → Searched at key base' nel' r
      → Searched at key base nel r
  widen base nel base' nel' r lo hi only (hit i p q e) = hit i (omega arith) (omega arith) e
  widen base nel base' nel' r lo hi only (miss none_) =
      miss λ i p q e. let w = only i p q e in none_ i w.0 w.1 e

  go_below :
      (fuel base nel : ℕ)
      → 0 < nel
      → key < at (base + nel / 2)
      → bsearch side (suc fuel) base nel ≡ bsearch side fuel base (nel / 2)
  unfolding bsearch
  go_below fuel base nel h lt = ground (arith, tells (base + nel / 2))

  go_above :
      (fuel base nel : ℕ)
      → 0 < nel
      → at (base + nel / 2) < key
      → bsearch side (suc fuel) base nel
        ≡ bsearch side fuel (base + nel / 2 + 1) (nel - (nel / 2 + 1))
  unfolding bsearch
  go_above fuel base nel h gt = ground (arith, tells (base + nel / 2))

  stop_here :
      (fuel base nel : ℕ)
      → 0 < nel
      → at (base + nel / 2) ≡ key
      → bsearch side (suc fuel) base nel ≡ some (base + nel / 2)
  unfolding bsearch
  stop_here fuel base nel h e = ground (arith, tells (base + nel / 2))

  stop_empty : (fuel base : ℕ) → bsearch side fuel base 0 ≡ none
  unfolding bsearch
  stop_empty zero base = refl
  stop_empty (suc fuel) base = refl

  before :
      (base nel i m : ℕ)
      → Rises at base nel
      → base ≤ i
      → i < base + nel
      → base ≤ m
      → m < base + nel
      → at i < at m
      → i < m
  before base nel i m up p q p' q' lt = elim (dec_lt i m) [
    | yes h ↦ h
    | no h ↦ elim (dec_lt m i) [
      | yes g ↦ absurd (omega (arith, up m i p' g q))
      | no g ↦ let e : i ≡ m = omega arith in absurd (omega (arith, ap at e))
    ]
  ]

  -- With fuel for every element, on rising numbers.
  pub bsearch-Searched :
      (fuel base nel : ℕ)
      → nel ≤ fuel
      → Rises at base nel
      → Searched at key base nel (bsearch side fuel base nel)
  bsearch-Searched zero base nel h up =
      let e : nel ≡ 0 = omega arith in
      rw (e, stop_empty 0 base) (miss λ i p q. absurd (omega arith))
  bsearch-Searched (suc fuel) base nel h up = elim (dec_lt 0 nel) [
    | no empty ↦
        let e : nel ≡ 0 = omega arith in
        rw (e, stop_empty (suc fuel) base) (miss λ i p q. absurd (omega arith))
    | yes some_ ↦
        let m : ℕ = base + nel / 2 in
        elim (dec_lt key (at m)) [
          | yes lt ↦ rw (go_below fuel base nel some_ lt) (
              widen base nel base (nel / 2) _ (omega arith) (omega arith)
                (λ i p q e.
                  (p, before base nel i m up p q (omega arith) (omega arith) (omega arith)))
                (bsearch-Searched fuel base (nel / 2) (omega arith)
                  (λ i j p q r. up i j p q (omega arith))))
          | no not_below ↦ elim (dec_lt (at m) key) [
            | yes gt ↦ rw (go_above fuel base nel some_ gt) (
                widen base nel (m + 1) (nel - (nel / 2 + 1)) _ (omega arith) (omega arith)
                  (λ i p q e. (
                    omega (
                      arith,
                      before base nel m i up (omega arith) (omega arith) p q (omega arith),
                    ),
                    omega arith,
                  ))
                  (bsearch-Searched fuel (m + 1) (nel - (nel / 2 + 1)) (omega arith)
                    (λ i j p q r. up i j (omega arith) q (omega arith))))
            | no not_above ↦
                rw (stop_here fuel base nel some_ (omega arith))
                  (hit m (omega arith) (omega arith) (omega arith))
          ]
        ]
  ]

-- Sorted or not, an answer is the place of an element.
pub bsearch_in_range :
    (side : ℕ → Sign) (fuel base nel i : ℕ)
    → bsearch side fuel base nel ≡ some i
    → (base ≤ i) × (i < base + nel)
unfolding bsearch
bsearch_in_range side zero base nel i e = cc
bsearch_in_range side (suc fuel) base nel i e = ground (
  arith,
  bsearch_in_range side fuel base (nel / 2) i,
  bsearch_in_range side fuel (base + nel / 2 + 1) (nel - (nel / 2 + 1)) i,
)
