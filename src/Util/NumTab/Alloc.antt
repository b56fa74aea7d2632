-- ===== src/Util/NumTab/Alloc.antt =====
-- `numget` and `numput` against a table that is a set of numbers in use.
use wl.Prelude.{
  ℕ, ◌-◌, ◌*◌, ◌/◌, ◌%◌, ◌^◌, ◌<◌, ◌≡◌, refl, ◌∙◌, ◌⊎◌, inl, inr, ◌↔◌, ◌≢◌, bit_or, Bool, true,
  false, none, some, [], ◌∷◌, ◌++◌, ltb, ◌==◌, if◌then◌else◌, length, length-append, length-set,
  arith, get_elem?, set, Option-cases, ℕ_discrete,
}
use native.Mathlib.Nat.{one-le-pow}
use wl.Prelude.Bits.{bit, bit-le, bit-two_pow, bit-complement}
use wl.Prelude.Masks.{bit_and-two_pow}
use wl.Util.NumTab.Words.{
  free_bit, free_bit-append, added, added-lt, free_bit_get, get_beyond, get_within, get-Words,
  set-Words, append-Words, free_bit-set,
}
use wl.Util.NumTab.Numbers.{IsTaken, IsNumTab, Taking, ShiftsMod64, Scanned, scan-Scanned}
use wl.Util.NumTab.{NumTab, Got, got, failed, scan, grow, numget, numput, all_but_first}

-- From tab to tab', num is taken, the lowest number that was free, and no other changes.
pub record Allocates (tab : NumTab) (num : ℕ) (tab' : NumTab) : Type 0 where
  pub valid : IsNumTab tab'
  pub fresh : ¬ IsTaken tab num
  pub least : (i : ℕ) → i < num → IsTaken tab i
  pub taken : IsTaken tab' num
  pub others : (i : ℕ) → i ≢ num → IsTaken tab' i ↔ IsTaken tab i

Taking-Allocates : (tab tab' : NumTab) (k : ℕ) → Taking tab.ent k tab'.ent → Allocates tab k tab'
Taking-Allocates tab tab' k t = record {
  valid = t.valid;
  fresh = λ used. omega (arith, used.1, t.was_free);
  least = λ i lt. (omega (arith, t.inside), t.least i lt);
  taken = ground (arith, t.same, t.inside, t.after k);
  others = λ i ne. ground (arith, t.same, t.after i);
}

first_taken : (i : ℕ) → i < 64 → bit all_but_first i ≡ (if i == 0 then 0 else 1)
first_taken i h = ground (arith, bit-complement 64 i 1 (omega arith) h, bit-two_pow 0 i)

free_bit_new :
    (i : ℕ) → free_bit (all_but_first ∷ []) i ≡ (if i == 0 then 0 else if ltb i 64 then 1 else 0)
unfolding free_bit
free_bit_new i = ground (arith, first_taken i)

grown-Allocates :
    (tab : NumTab)
    → IsNumTab tab
    → ((i : ℕ) → free_bit tab.ent i ≡ 0)
    → Allocates tab (length tab.ent * 64) (record { ent = tab.ent ++ all_but_first ∷ [] })
grown-Allocates tab h none_free =
    let len = length-append tab.ent (all_but_first ∷ []) in
    record {
      valid = append-Words tab.ent all_but_first h (omega arith);
      fresh = λ used. omega (arith, used.0);
      least = λ i lt. (omega arith, none_free i);
      taken = ground (
        arith,
        len,
        free_bit-append tab.ent (all_but_first ∷ []) (length tab.ent * 64),
        free_bit_new (length tab.ent * 64 - 64 * length tab.ent),
      );
      others = λ i ne. ground (
        arith,
        len,
        none_free i,
        free_bit-append tab.ent (all_but_first ∷ []) i,
        free_bit_new (i - 64 * length tab.ent),
      );
    }

-- What `numget` may answer: a number, or -1 where every number of the table is taken and there is
-- no memory for another word.
abbrev pub Answers : Bool → NumTab → Got → Type 0
Answers room tab r =
    ((num : ℕ) × (tab' : NumTab) × (r ≡ got num tab') × Allocates tab num tab')
    ⊎ ((r ≡ failed) × (room ≡ false) × ((i : ℕ) → i < 64 * length tab.ent → IsTaken tab i))

module _ (wide : ℕ → ℕ) where
  grow-Answers :
      (room : Bool) (tab : NumTab)
      → IsNumTab tab
      → ((i : ℕ) → free_bit tab.ent i ≡ 0)
      → Answers room tab (grow wide room tab)
  unfolding grow
  grow-Answers false tab h none_free = inr (refl, refl, λ i lt. (lt, none_free i))
  grow-Answers true tab h none_free = inl (
    length tab.ent * 64,
    record { ent = tab.ent ++ all_but_first ∷ [] },
    refl,
    grown-Allocates tab h none_free,
  )

  Scanned-Answers :
      (room : Bool) (tab : NumTab)
      → IsNumTab tab
      → Scanned wide tab.ent 0 (scan wide tab.ent 0)
      → Answers room tab (numget wide room tab)
  unfolding numget
  Scanned-Answers room tab h (inl (k, vs, e, t)) =
      inl (k, record { ent = vs }, ground (arith, e), Taking-Allocates tab _ k t)
  Scanned-Answers room tab h (inr (e, none_free)) =
      rw (e, numget) (grow-Answers room tab h none_free)

  -- Where 1ul << n for n of 64 or more shifts modulo 64, `numget` on a table of 64-bit words always
  -- returns: it takes the lowest number that is not in use and changes the use of no other, or
  -- fails, without memory, when the whole table is in use.
  pub numget-Answers :
      ShiftsMod64 wide
      → (room : Bool) (tab : NumTab) → IsNumTab tab
      → Answers room tab (numget wide room tab)
  numget-Answers law room tab h =
      Scanned-Answers room tab h (scan-Scanned wide law tab.ent 0 h refl)

-- From tab to tab', num stops being taken, and no other changes.
pub record Releases (tab : NumTab) (num : ℕ) (tab' : NumTab) : Type 0 where
  pub valid : IsNumTab tab'
  pub released : ¬ IsTaken tab' num
  pub others : (i : ℕ) → i ≢ num → IsTaken tab' i ↔ IsTaken tab i

-- The word that `numput` reads and the test that it makes are about the bit of its number.
put_found :
    (tab : NumTab) (num w : ℕ)
    → get_elem? tab.ent (num / 64) ≡ some w
    → numput tab num ≡ (
        if free_bit tab.ent num == 0
        then some (record { ent = set tab.ent (num / 64) (bit_or w (2 ^ (num % 64))) })
        else none)
unfolding numput
put_found tab num w e = ground (
  arith,
  free_bit_get tab.ent num w e,
  bit_and-two_pow (num % 64) w,
  bit-le w (num % 64),
  one-le-pow (num % 64) 2 (omega arith),
  mul_bit (bit w (num % 64)) (2 ^ (num % 64)),
)
  where
    mul_bit : (b p : ℕ) → b * p ≡ (if b == 0 then 0 else b * p)
    mul_bit b p = ground arith

put_missing : (tab : NumTab) (num : ℕ) → get_elem? tab.ent (num / 64) ≡ none → numput tab num ≡ none
unfolding numput
put_missing tab num e = ground (arith, e)

other_bit :
    (tab : NumTab) (num w i : ℕ)
    → get_elem? tab.ent (num / 64) ≡ some w
    → i ≢ num
    → free_bit (set tab.ent (num / 64) (bit_or w (2 ^ (num % 64)))) i ≡ free_bit tab.ent i
other_bit tab num w i e ne =
    let after =
      free_bit-set tab.ent (num / 64) (bit_or w (2 ^ (num % 64))) i
        (get_within tab.ent (num / 64) w e) in
    elim (ℕ_discrete (i / 64) (num / 64)) [
      | yes same ↦
          let e' : get_elem? tab.ent (i / 64) ≡ some w = rw same e in
          let apart : i % 64 ≢ num % 64 = λ q. ne (omega arith) in
          ground (arith, after, free_bit_get tab.ent i w e', added w (num % 64) (i % 64))
      | no other ↦ ground (arith, after)
    ]

released :
    (tab : NumTab) (num w : ℕ)
    → IsNumTab tab
    → get_elem? tab.ent (num / 64) ≡ some w
    → Releases tab num (record { ent = set tab.ent (num / 64) (bit_or w (2 ^ (num % 64))) })
released tab num w h e =
    let after = free_bit-set tab.ent (num / 64) (bit_or w (2 ^ (num % 64))) in
    let inside = get_within tab.ent (num / 64) w e in
    let same = length-set tab.ent (num / 64) (bit_or w (2 ^ (num % 64))) in
    record {
      valid =
          set-Words tab.ent (num / 64) _ h
            (added-lt w (num % 64) (get-Words tab.ent (num / 64) w h e) (omega arith));
      released = λ used. ground (arith, used.1, after num inside, added w (num % 64) (num % 64));
      others = λ i ne. ground (arith, same, other_bit tab num w i e ne);
    }

-- `numput` on a table of 64-bit words frees a number in use and changes the use of no other; on a
-- number that is not in use it returns -1.
pub numput-Releases :
    (tab : NumTab) (num : ℕ)
    → IsNumTab tab
    → (IsTaken tab num × ((tab' : NumTab) × (numput tab num ≡ some tab') × Releases tab num tab'))
      ⊎ ((¬ IsTaken tab num) × (numput tab num ≡ none))
numput-Releases tab num h = elim (Option-cases (get_elem? tab.ent (num / 64))) [
  | inl e ↦
      inr (λ used. omega (arith, used.0, get_beyond tab.ent (num / 64) e), put_missing tab num e)
  | inr (w, e) ↦ elim (ℕ_discrete (free_bit tab.ent num) 0) [
    | yes used ↦ inl (
      (omega (arith, get_within tab.ent (num / 64) w e), used),
      (_, put_found tab num w e ∙ ground arith, released tab num w h e),
    )
    | no free ↦ inr (λ used. free used.1, put_found tab num w e ∙ ground arith)
  ]
]
