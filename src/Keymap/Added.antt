-- ===== src/Keymap/Added.antt =====
-- A line of the keymap keeps the array of keys within its bounds, up to 128 lines.
use wl.Prelude.{
  ℕ, zero, suc, ◌^◌, ◌≤◌, ◌<◌, ◌≡◌, refl, ◌∙◌, ◌⊎◌, inl, inr, Bool, true, false, ◌||◌, ℕ_discrete,
  Bool-cases, lt→ltb, Option, none, some, List, [], ◌∷◌, ◌++◌, ◌==◌, length, length-append,
  length-set, get_elem?, set, arith, Option-cases,
}
use wl.Libc.Search.{bsearch, bsearch_in_range}
use wl.Keymap.Runes.{u16cmp}
use wl.Keymap.Table.{
  Key, Keys, Added, added, new_key, has_rune, keycode_line, enter, scan_of, set_level, u16, shift,
  add_line,
}
use wl.Keymap.Capacity.{
  IsGood, enter_cases, append-IsPrintable, set-IsPrintable, get-IsPrintable, set_level-IsPrintable,
}

-- The array has room for one key more.
abbrev IsAdded : ℕ → Added → Type 0
IsAdded n r = (t' : Keys) × (out : List ℕ) × (r ≡ added t' out) × IsGood (suc n) t'

more : (n : ℕ) (t : Keys) → IsGood n t → IsGood (suc n) t
more n t g = record { table = g.table; few = omega (arith, g.few); printable = g.printable }

enter-IsAdded :
    (room : ℕ → Bool) (t : Keys) (n scan rune : ℕ)
    → room 128 ≡ true
    → n < 128
    → 0 < rune
    → rune < 2 ^ 16
    → IsGood n t
    → IsAdded n (enter room t scan rune)
enter-IsAdded room t n scan rune mem lt lo hi g = elim (Bool-cases (has_rune t.keys rune)) [
  | inl there ↦ (t, [], enter_cases room t scan rune g.table mem ∙ rw there, more n t g)
  | inr new ↦
      let small : length t.keys < 128 = omega (arith, g.few) in
      (
        record { cap = 128; keys = t.keys ++ new_key scan rune ∷ [] },
        keycode_line rune,
        enter_cases room t scan rune g.table mem ∙ rw (new, lt→ltb (length t.keys) 128 small),
        record {
          table = inr (
            omega (arith, length-append t.keys (new_key scan rune ∷ [])),
            omega (arith, length-append t.keys (new_key scan rune ∷ [])),
            refl,
          );
          few = omega (arith, length-append t.keys (new_key scan rune ∷ []), g.few);
          printable =
              append-IsPrintable t.keys (new_key scan rune) g.printable
                (omega arith, omega arith, omega arith);
        },
      )
]

stored :
    (t : Keys) (n i level rune : ℕ) (k : Key)
    → 0 < level
    → get_elem? t.keys i ≡ some k
    → IsGood n t
    → IsGood (suc n) (record t { keys = set t.keys i (set_level k level rune) })
stored t n i level rune k lv e g =
    let same = length-set t.keys i (set_level k level rune) in
    record {
      table = ground (arith, same, g.table);
      few = omega (arith, same, g.few);
      printable =
          set-IsPrintable t.keys i (set_level k level rune) g.printable
            (set_level-IsPrintable k level rune lv (get-IsPrintable t.keys i k g.printable e));
    }

get_within : (ks : List Key) (i : ℕ) → i < length ks → (k : Key) × (get_elem? ks i ≡ some k)
get_within [] i h = absurd (omega arith)
get_within (k ∷ ks) zero h = (k, refl)
get_within (k ∷ ks) (suc i) h = get_within ks i (omega arith)

shift-IsAdded :
    (t : Keys) (n level scan rune : ℕ)
    → 0 < level
    → level < 10
    → IsGood n t
    → IsAdded n (shift t level scan rune)
shift-IsAdded t n level scan rune lo hi g = found (Option-cases search)
  where
    search : Option ℕ
    search = bsearch (λ i. u16cmp (u16 scan) (scan_of t.keys i)) (length t.keys) 0 (length t.keys)

    at :
        (i : ℕ)
        → search ≡ some i
        → (k : Key) × (get_elem? t.keys i ≡ some k)
        → IsAdded n (shift t level scan rune)
    at i e (k, e') = (
      record t { keys = set t.keys i (set_level k level rune) },
      [],
      unfold shift in ground (arith, e, e'),
      stored t n i level rune k lo e' g,
    )

    found : (search ≡ none) ⊎ ((i : ℕ) × (search ≡ some i)) → IsAdded n (shift t level scan rune)
    found (inl e) = (t, [], unfold shift in ground (arith, e), more n t g)
    found (inr (i, e)) = at i e (
        get_within t.keys i
          (omega (arith, (bsearch_in_range _ (length t.keys) 0 (length t.keys) i e).1)))

abbrev starts_key : ℕ → Bool
starts_key level = level == 2 || level == 5 || level == 6 || level == 0

not_zero : (level : ℕ) → starts_key level ≡ false → 0 < level
not_zero level h = ground (arith, h)

module _ (room : ℕ → Bool) (t : Keys) (level scan rune : ℕ) (lo : 0 < rune)
    (hi : rune ≤ 0x10ffff) where
  add_enter : starts_key level ≡ true → add_line room t level scan rune ≡ enter room t scan rune
  unfolding add_line
  add_enter h = ground (arith, h)

  add_shift : starts_key level ≡ false → add_line room t level scan rune ≡ shift t level scan rune
  unfolding add_line
  add_shift h = ground (arith, h)

-- A line with a level below 10 and a rune of 16 bits.
pub add_line-IsAdded :
    (room : ℕ → Bool) (t : Keys) (n level scan rune : ℕ)
    → room 128 ≡ true
    → n < 128
    → level < 10
    → rune < 2 ^ 16
    → IsGood n t
    → IsAdded n (add_line room t level scan rune)
add_line-IsAdded room t n level scan rune mem lt lv hi g = elim (ℕ_discrete rune 0) [
  | yes z ↦ (t, [], unfold add_line in ground arith, more n t g)
  | no nz ↦ elim (Bool-cases (starts_key level)) [
    | inl base ↦
        rw (add_enter room t level scan rune (omega arith) (omega arith) base)
          (enter-IsAdded room t n scan rune mem lt (omega arith) hi g)
    | inr other ↦
        rw (add_shift room t level scan rune (omega arith) (omega arith) other)
          (shift-IsAdded t n level scan rune (not_zero level other) lv g)
  ]
]
