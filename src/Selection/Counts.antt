-- ===== src/Selection/Counts.antt =====
-- How often a descriptor stands in a list.
use wl.Prelude.{
  ℕ, zero, suc, ◌+◌, ◌<◌, ◌≡◌, refl, ap, none, some, List, [], ◌∷◌, ◌==◌, if◌then◌else◌, get_elem?,
  arith, map, Bool-cases, inl, inr,
}
use wl.Selection.{without, remove_at, replace_at}

abbrev pub one_if : ℕ → ℕ → ℕ
one_if i x = if x == i then 1 else 0

abbrev pub count : ℕ → List ℕ → ℕ
count i [] = 0
count i (x ∷ xs) = one_if i x + count i xs

pub count-without :
    (i fd : ℕ) (xs : List ℕ) → 0 < count fd xs → count i (without fd xs) + one_if i fd ≡ count i xs
count-without i fd [] h = absurd (omega arith)
count-without i fd (x ∷ xs) h = elim (Bool-cases (x == fd)) [
  | inl e ↦ rw e (ground (arith, e))
  | inr ne ↦ rw ne (let more = count-without i fd xs (ground (arith, ne, h)) in omega (arith, more))
]

module _ {A : Type 0} (f : A → ℕ) where
  pub count-remove_at :
      (i n : ℕ) (xs : List A) (c : A)
      → get_elem? xs n ≡ some c
      → count i (map f (remove_at n xs)) + one_if i (f c) ≡ count i (map f xs)
  count-remove_at i n [] c e = absurd (ground (arith, e))
  count-remove_at i zero (x ∷ xs) c e =
      omega (arith, ap (λ o. one_if i (f (elim o [ none ↦ x | some y ↦ y ]))) e)
  count-remove_at i (suc n) (x ∷ xs) c e = omega (arith, count-remove_at i n xs c e)

  pub count-replace_at :
      (i n : ℕ) (xs : List A) (c d : A)
      → get_elem? xs n ≡ some c
      → f d ≡ f c
      → count i (map f (replace_at n d xs)) ≡ count i (map f xs)
  count-replace_at i n [] c d e same = refl
  count-replace_at i zero (x ∷ xs) c d e same =
      omega (arith, ap (λ o. one_if i (f (elim o [ none ↦ x | some y ↦ y ]))) e, ap (one_if i) same)
  count-replace_at i (suc n) (x ∷ xs) c d e same = omega (arith, count-replace_at i n xs c d e same)
