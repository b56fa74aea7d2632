-- ===== src/Keymap/Lookup.antt =====
-- The binary search of `runetoxkb` against a walk through its table.
use wl.Prelude.{
  ℕ, zero, suc, ◌%◌, ◌^◌, ◌<◌, ◌≡◌, refl, sym, Bool, true, ◌&&◌, Option, List, [], ◌∷◌, ltb, ◌==◌,
  if◌then◌else◌, length, arith,
}
use wl.Libc.Search.{Searched, hit, miss, bsearch-Searched}
use wl.Keymap.Tables.{xkbextra}
use wl.Keymap.Runes.{u16cmp, found_name, entry_rune, entry_name, extra_offset}

-- The offset that the table gives a rune beyond ASCII, entry by entry.
unfoldable pub lookup_rune : List (ℕ × ℕ) → ℕ → ℕ
lookup_rune [] r = 0
lookup_rune ((r', n) ∷ es) r = if r' == r then n else lookup_rune es r

-- Neighbours rise in the first n entries.
rising : List (ℕ × ℕ) → Bool
rising [] = true
rising ((r, n) ∷ []) = true
rising ((r, n) ∷ (r', n') ∷ es) = ltb r r' && rising ((r', n') ∷ es)

xkbextra-rising : rising xkbextra ≡ true
unfolding rising xkbextra
xkbextra-rising = refl

rising_tail : (r n : ℕ) (es : List (ℕ × ℕ)) → rising ((r, n) ∷ es) ≡ true → rising es ≡ true
unfolding rising
rising_tail r n [] h = refl
rising_tail r n ((r', n') ∷ es) h = ground (arith, h)

rising_next :
    (r n : ℕ) (es : List (ℕ × ℕ)) (j : ℕ)
    → rising ((r, n) ∷ es) ≡ true
    → j < length es
    → r < entry_rune es j
unfolding rising
rising_next r n [] j h lt = absurd (omega arith)
rising_next r n ((r', n') ∷ es) zero h lt = ground (arith, h)
rising_next r n ((r', n') ∷ es) (suc j) h lt =
    let step : r < r' = ground (arith, h) in
    omega (arith, rising_next r' n' es j (rising_tail r n ((r', n') ∷ es) h) (omega arith))

rising-Rises :
    (es : List (ℕ × ℕ)) (i j : ℕ)
    → rising es ≡ true
    → i < j
    → j < length es
    → entry_rune es i < entry_rune es j
rising-Rises [] i j h p q = absurd (omega arith)
rising-Rises ((r, n) ∷ es) i zero h p q = absurd (omega arith)
rising-Rises ((r, n) ∷ es) zero (suc j) h p q = rising_next r n es j h (omega arith)
rising-Rises ((r, n) ∷ es) (suc i) (suc j) h p q =
    rising-Rises es i j (rising_tail r n es h) (omega arith) (omega arith)

lookup_hit :
    (es : List (ℕ × ℕ)) (r i : ℕ)
    → rising es ≡ true
    → i < length es
    → entry_rune es i ≡ r
    → lookup_rune es r ≡ entry_name es i
unfolding lookup_rune
lookup_hit [] r i h lt e = absurd (omega arith)
lookup_hit ((r', n) ∷ es) r zero h lt e = ground (arith, e)
lookup_hit ((r', n) ∷ es) r (suc i) h lt e = ground (
  arith,
  rising_next r' n es i h (omega arith),
  lookup_hit es r i (rising_tail r' n es h) (omega arith) e,
)

lookup_miss :
    (es : List (ℕ × ℕ)) (r : ℕ)
    → ((i : ℕ) → i < length es → entry_rune es i ≡ r → ⊥)
    → lookup_rune es r ≡ 0
unfolding lookup_rune
lookup_miss [] r h = refl
lookup_miss ((r', n) ∷ es) r h =
    ground (arith, h 0, lookup_miss es r (λ i lt. h (suc i) (omega arith)))

Searched-name :
    (key : ℕ) {r : Option ℕ}
    → Searched (entry_rune xkbextra) key 0 (length xkbextra) r
    → found_name r ≡ lookup_rune xkbextra key
Searched-name key (hit i lo hi e) = sym (lookup_hit xkbextra key i xkbextra-rising (omega arith) e)
Searched-name key (miss none_) =
    sym (lookup_miss xkbextra key (λ i lt e. none_ i (omega arith) (omega arith) e))

-- The binary search finds what a walk through the table finds, for the lower 16 bits of the rune.
pub extra_offset_lem : (r : ℕ) → extra_offset r ≡ lookup_rune xkbextra (r % 2 ^ 16)
unfolding extra_offset
extra_offset_lem r =
    let key : ℕ = r % 2 ^ 16 in
    Searched-name key (
      bsearch-Searched (entry_rune xkbextra) key (λ i. u16cmp key (entry_rune xkbextra i))
        (λ i. unfold u16cmp in refl) (length xkbextra) 0 (length xkbextra) (omega arith)
        (λ i j lo p q. rising-Rises xkbextra i j xkbextra-rising p (omega arith)))
