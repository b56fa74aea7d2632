-- ===== src/Keymap/Capacity.antt =====
-- The array of keys of `writekeymap`: how many it holds, and which runes.
use wl.Prelude.{
  ℕ, zero, suc, ◌+◌, ◌-◌, ◌*◌, ◌%◌, ◌^◌, ◌≤◌, ◌<◌, ◌≡◌, ◌≢◌, refl, ap, ◌∙◌, ◌⊎◌, inl, inr, Bool,
  true, false, ◌&&◌, ◌||◌, not, ℕ_discrete, Bool-cases, lt→ltb, Option, none, some, List, [], ◌∷◌,
  ◌++◌, ltb, ◌==◌, if◌then◌else◌, length, length-append, length-set, All, get_elem?, set, replicate,
  arith, ==_iff, Option-cases,
}
use wl.Prelude
use wl.Libc.{codes}
use wl.Keymap.Runes.{hex4}
use wl.Prelude.Bits.{tested_below, tested_below_lem}
use wl.Keymap.Table.{
  Key, Keys, rune_at, Added, added, overrun, new_key, has_rune, must_grow, grown_cap, keycode_line,
  push, enter, set_level, u16,
}

-- No key and no array, or an array of 128 that is not yet overrun.
abbrev pub IsTable : Keys → Type 0
IsTable t =
    ((length t.keys ≡ 0) × (t.cap ≡ 0))
    ⊎ ((0 < length t.keys) × (length t.keys ≤ 128) × (t.cap ≡ 128))

-- Both runes that are printed have 16 bits, and the first is not 0.
abbrev pub IsPrintable : Key → Type 0
IsPrintable k = (0 < rune_at k 0) × (rune_at k 0 < 2 ^ 16) × (rune_at k 1 < 2 ^ 16)

abbrev grows_at_zero : ℕ → Bool
grows_at_zero n = if n == 0 then must_grow n else (if must_grow n then false else true)

grow_table : tested_below grows_at_zero 129 ≡ true
unfolding tested_below must_grow
grow_table = refl

-- Up to 128 keys the array is allocated for the first key only.
must_grow_lem : (n : ℕ) → n ≤ 128 → must_grow n ≡ (n == 0)
must_grow_lem n h = ground (arith, tested_below_lem grows_at_zero 129 n (omega arith) grow_table)

-- With memory, on an array of at most 128 keys, a line of level 0, 2, 5 or 6 leaves the array alone
-- where its rune is there; adds a key with this rune at the end and prints its key code where there
-- are fewer than 128; and writes past the array where there are 128.
pub enter_cases :
    (room : ℕ → Bool) (t : Keys) (scan rune : ℕ)
    → IsTable t
    → room 128 ≡ true
    → enter room t scan rune ≡ (
        if has_rune t.keys rune
        then added t []
        else if ltb (length t.keys) 128
        then added
            (record { cap = 128; keys = t.keys ++ new_key scan rune ∷ [] })
            (keycode_line rune)
        else overrun)
unfolding enter push
enter_cases room t scan rune (inl empty) mem =
    ground (arith, must_grow_lem (length t.keys), ap room (cap_at (length t.keys) empty.0))
  where
    cap_at : (n : ℕ) → n ≡ 0 → grown_cap n ≡ 128
    cap_at n e = ground arith
enter_cases room t scan rune (inr some_) mem = ground (arith, must_grow_lem (length t.keys))

-- The first rune that is stored for a key.
abbrev pub first_of : Key → ℕ
first_of k = Prelude.get_or k.rune 0 0

-- Some key has the rune first, and nothing is done; or none has it, and a key with the 16 bits of it
-- and of the scan code, and no runes beside it, is added at the end, and its key code printed; or
-- the array is full, and written past.
abbrev pub Enters : Keys → ℕ → ℕ → Added → Type 0
Enters t scan rune out =
    ((i : ℕ) × (k : Key) × (get_elem? t.keys i ≡ some k) × (first_of k ≡ rune) × (out ≡ added t []))
    ⊎ (All (λ (k : Key). first_of k ≢ rune) t.keys
        × (((length t.keys < 128)
              × ((k : Key) × (text : List ℕ) × (out
                    ≡ added (record { cap = 128; keys = t.keys ++ k ∷ [] }) text)
                  × (k.scan ≡ scan % 2 ^ 16)
                  × (k.rune ≡ rune % 2 ^ 16 ∷ 0 ∷ 0 ∷ 0 ∷ 0 ∷ 0 ∷ 0 ∷ 0 ∷ 0 ∷ 0 ∷ [])
                  × (text
                      ≡ codes "\t<U+"
                        ++ (hex4 rune ++ (codes "> = 0x" ++ (hex4 (rune + 8) ++ codes ";\n"))))))
            ⊎ ((length t.keys ≡ 128) × (out ≡ overrun))))

-- What the loop over the keys finds.
has_rune_lem :
    (ks : List Key) (rune : ℕ)
    → ((has_rune ks rune ≡ true)
        × ((i : ℕ) × (k : Key) × (get_elem? ks i ≡ some k) × (first_of k ≡ rune)))
      ⊎ ((has_rune ks rune ≡ false) × All (λ (k : Key). first_of k ≢ rune) ks)
unfolding has_rune
has_rune_lem [] rune = inr (refl, tt)
has_rune_lem (k ∷ ks) rune = elim (Bool-cases (first_of k == rune)) [
  | inl e ↦ rw e (inl (refl, (0, k, refl, ground (arith, e))))
  | inr e ↦ rw e (later (has_rune_lem ks rune) (ground (arith, e)))
]
  where
    later :
        ((has_rune ks rune ≡ true)
            × ((i : ℕ) × (c : Key) × (get_elem? ks i ≡ some c) × (first_of c ≡ rune)))
          ⊎ ((has_rune ks rune ≡ false) × All (λ (c : Key). first_of c ≢ rune) ks)
        → first_of k ≢ rune
        → ((has_rune ks rune ≡ true)
            × ((i : ℕ) × (c : Key) × (get_elem? (k ∷ ks) i ≡ some c) × (first_of c ≡ rune)))
          ⊎ ((has_rune ks rune ≡ false) × All (λ (c : Key). first_of c ≢ rune) (k ∷ ks))
    later (inl (e, (i, c, at, same))) ne = inl (e, (suc i, c, at, same))
    later (inr (e, none_)) ne = inr (e, (ne, none_))

-- With memory, on an array of at most 128 keys: a line of level 0, 2, 5 or 6 leaves the array alone and
-- prints nothing where a key has its rune first; where none has and there are fewer than 128, it
-- adds a key at the end, with the 16 bits of its scan code and, first and alone, of its rune, and
-- prints the key code; and where there are 128 it writes past the array.
pub enter-Enters :
    (room : ℕ → Bool) (t : Keys) (scan rune : ℕ)
    → IsTable t
    → room 128 ≡ true
    → Enters t scan rune (enter room t scan rune)
unfolding keycode_line
enter-Enters room t scan rune table mem =
    rw (enter_cases room t scan rune table mem) (step (has_rune_lem t.keys rune))
  where
    most : length t.keys ≤ 128
    most = either table
      where
        either :
            ((length t.keys ≡ 0) × (t.cap ≡ 0))
              ⊎ ((0 < length t.keys) × (length t.keys ≤ 128) × (t.cap ≡ 128))
            → length t.keys ≤ 128
        either (inl (e, c)) = omega arith
        either (inr (some_, few, c)) = few

    step :
        ((has_rune t.keys rune ≡ true)
            × ((i : ℕ) × (k : Key) × (get_elem? t.keys i ≡ some k) × (first_of k ≡ rune)))
          ⊎ ((has_rune t.keys rune ≡ false) × All (λ (k : Key). first_of k ≢ rune) t.keys)
        → Enters t scan rune (
            if has_rune t.keys rune
            then added t []
            else if ltb (length t.keys) 128
            then added
                (record { cap = 128; keys = t.keys ++ new_key scan rune ∷ [] })
                (keycode_line rune)
            else overrun)
    step (inl (e, (i, k, at, same))) = rw e (inl (i, k, at, same, refl))
    step (inr (e, none_)) = elim (Bool-cases (ltb (length t.keys) 128)) [
      | inl few ↦
          rw (e, few)
            (inr (
              none_,
              inl (
                ground (arith, few),
                (new_key scan rune, keycode_line rune, refl, refl, refl, refl),
              ),
            ))
      | inr full ↦ rw (e, full) (inr (none_, inr (omega (arith, most, many full), refl)))
    ]
      where
        many : ltb (length t.keys) 128 ≡ false → 128 ≤ length t.keys
        many q = ground (arith, q)

-- What is known of a table after n lines whose runes have 16 bits.
pub record IsGood (n : ℕ) (t : Keys) : Type 0 where
  pub table : IsTable t
  pub few : length t.keys ≤ n
  pub printable : All IsPrintable t.keys

pub append-IsPrintable :
    (ks : List Key) (k : Key) → All IsPrintable ks → IsPrintable k → All IsPrintable (ks ++ k ∷ [])
append-IsPrintable [] k h hk = (hk, tt)
append-IsPrintable (x ∷ ks) k h hk = (h.0, append-IsPrintable ks k h.1 hk)

pub set-IsPrintable :
    (ks : List Key) (i : ℕ) (k : Key)
    → All IsPrintable ks
    → IsPrintable k
    → All IsPrintable (set ks i k)
set-IsPrintable [] i k h hk = tt
set-IsPrintable (x ∷ ks) zero k h hk = (hk, h.1)
set-IsPrintable (x ∷ ks) (suc i) k h hk = (h.0, set-IsPrintable ks i k h.1 hk)

pub get-IsPrintable :
    (ks : List Key) (i : ℕ) (k : Key) → All IsPrintable ks → get_elem? ks i ≡ some k → IsPrintable k
get-IsPrintable [] i k h e = cc
get-IsPrintable (x ∷ ks) zero k h e = ground (arith, h.0)
get-IsPrintable (x ∷ ks) (suc i) k h e = get-IsPrintable ks i k h.1 e

first-set :
    (xs : List ℕ) (l v : ℕ) → 0 < l → Prelude.get_or (set xs l v) 0 0 ≡ Prelude.get_or xs 0 0
first-set [] l v h = refl
first-set (x ∷ xs) zero v h = absurd (omega arith)
first-set (x ∷ xs) (suc l) v h = refl

second-set :
    (xs : List ℕ) (l v : ℕ)
    → v < 2 ^ 16
    → Prelude.get_or xs 1 0 < 2 ^ 16
    → Prelude.get_or (set xs l v) 1 0 < 2 ^ 16
second-set [] l v hv h = h
second-set (x ∷ xs) zero v hv h = h
second-set (x ∷ []) (suc l) v hv h = h
second-set (x ∷ y ∷ xs) (suc zero) v hv h = hv
second-set (x ∷ y ∷ xs) (suc (suc l)) v hv h = h

pub set_level-IsPrintable :
    (k : Key) (level rune : ℕ) → 0 < level → IsPrintable k → IsPrintable (set_level k level rune)
set_level-IsPrintable k level rune h p = (
  omega (arith, first-set k.rune level (u16 rune) h, p.0),
  omega (arith, first-set k.rune level (u16 rune) h, p.1),
  second-set k.rune level (u16 rune) (omega arith) p.2,
)
