-- ===== src/Keymap/Names.antt =====
-- What `runetoxkb` names, and the modifiers of `keymapmod`.
use Prim.Native.String.{String}
use wl.Prelude.{
  ℕ, zero, suc, ◌+◌, ◌-◌, ◌*◌, ◌/◌, ◌%◌, ◌^◌, ◌≤◌, ◌<◌, ◌≡◌, refl, sym, ap, ◌∙◌, ◌⊎◌, inl, inr,
  Bool, true, false, ◌&&◌, ◌||◌, Option, none, some, List, [], ◌∷◌, ◌++◌, ltb, leb, ◌==◌,
  if◌then◌else◌, length, arith, length-append, lt→ltb, dec_lt, ℕ_discrete,
}
use wl.Prelude
use native.Mathlib.Nat.{pow-suc}
use wl.Prelude.Bits.{tested_below, tested_below_lem}
use wl.Libc.{codes}
use wl.Keymap.Tables.{names, xkbnames, xkbascii, xkbextra}
use wl.Keymap.Runes.{hex, hex_digit, hex4, until_nul, string_at, offset_of, runetoxkb}
use wl.Keymap.Lookup.{lookup_rune, extra_offset_lem}

-- The name that starts at an offset, by a walk over the names from position p.
unfoldable pub name_from : ℕ → List String → ℕ → Option (List ℕ)
name_from p [] off = none
name_from p (n ∷ ns) off =
    if off == p then some (codes n) else name_from (p + length (codes n) + 1) ns off

same_bytes : List ℕ → List ℕ → Bool
same_bytes [] [] = true
same_bytes (a ∷ s) (b ∷ t) = a == b && same_bytes s t
same_bytes _ _ = false

same_bytes_sound : (s t : List ℕ) → same_bytes s t ≡ true → s ≡ t
unfolding same_bytes
same_bytes_sound [] [] h = refl
same_bytes_sound [] (b ∷ t) h = cc
same_bytes_sound (a ∷ s) [] h = cc
same_bytes_sound (a ∷ s) (b ∷ t) h = ground (arith, same_bytes_sound s t)

-- The text that `string_at` reads at an offset is a whole name.
is_named : List ℕ → Option (List ℕ) → Bool
is_named t none = false
is_named t (some s) = same_bytes t s

is_named_sound : (t : List ℕ) (o : Option (List ℕ)) → is_named t o ≡ true → o ≡ some t
unfolding is_named
is_named_sound t none h = cc
is_named_sound t (some s) h = ap some (sym (same_bytes_sound t s h))

starts_name : ℕ → Bool
starts_name off = is_named (string_at off) (name_from 1 names off)

starts_name_sound :
    (off : ℕ) → starts_name off ≡ true → name_from 1 names off ≡ some (string_at off)
unfolding starts_name
starts_name_sound off h = is_named_sound (string_at off) (name_from 1 names off) h

-- Every offset in both tables is 0 or the start of a name.
abbrev offset_ok : ℕ → Bool
offset_ok n = n == 0 || starts_name n

ascii_names : tested_below (λ r. offset_ok (Prelude.get_or xkbascii r 0)) 128 ≡ true
unfolding tested_below starts_name is_named same_bytes name_from names string_at until_nul xkbnames
    xkbascii
ascii_names = refl

all_named : List (ℕ × ℕ) → Bool
all_named [] = true
all_named ((r, n) ∷ es) = starts_name n && all_named es

extra_names : all_named xkbextra ≡ true
unfolding all_named starts_name is_named same_bytes name_from names string_at until_nul xkbnames
    xkbextra
extra_names = refl

-- The offset by the two tables, for the lower 16 bits of a rune beyond ASCII.
abbrev pub table_offset : ℕ → ℕ
table_offset r =
    if ltb r 128 then Prelude.get_or xkbascii r 0 else lookup_rune xkbextra (r % 2 ^ 16)

lookup_named :
    (es : List (ℕ × ℕ)) (r : ℕ)
    → all_named es ≡ true
    → (lookup_rune es r ≡ 0) ⊎ (starts_name (lookup_rune es r) ≡ true)
unfolding all_named lookup_rune
lookup_named [] r h = inl refl
lookup_named ((r', n) ∷ es) r h = ground (arith, lookup_named es r)

one_more : (b : Bool) (m : List ℕ) (d : ℕ) → length ((if b then [] else m) ++ d ∷ []) ≤ length m + 1
one_more true m d = omega arith
one_more false m d = omega (arith, length-append m (d ∷ []))

-- A rune of 21 bits has at most 6 digits, so `snprintf` cuts nothing off.
length-hex : (f least k n : ℕ) → n < 16 ^ k → 0 < k → least ≤ k → length (hex f least n) ≤ k
unfolding hex
length-hex zero least k n h some_ le = omega arith
length-hex (suc f) least zero n h some_ le = absurd (omega arith)
length-hex (suc f) least (suc zero) n h some_ le = ground arith
length-hex (suc f) least (suc (suc k)) n h some_ le = omega (
  arith,
  one_more (ltb n 16 && leb least 1) (hex f (least - 1) (n / 16)) (hex_digit (n % 16)),
  length-hex f (least - 1) (suc k) (n / 16) (omega (arith, pow-suc 16 (suc k))) (omega arith)
      (omega arith),
)

take-whole : (k : ℕ) (s : List ℕ) → length s ≤ k → Prelude.take k s ≡ s
take-whole zero [] h = refl
take-whole zero (c ∷ s) h = absurd (omega arith)
take-whole (suc k) [] h = refl
take-whole (suc k) (c ∷ s) h = ap (◌∷◌ c) (take-whole k s (omega arith))

offset_lem : (r : ℕ) → offset_of r ≡ table_offset r
unfolding offset_of
offset_lem r = ground (arith, extra_offset_lem r)

named_cases :
    (n : ℕ)
    → (n ≡ 0) ⊎ (starts_name n ≡ true)
    → (n ≡ 0) ⊎ (name_from 1 names n ≡ some (string_at n))
named_cases n (inl e) = inl e
named_cases n (inr e) = inr (starts_name_sound n e)

either : (n : ℕ) → offset_ok n ≡ true → (n ≡ 0) ⊎ (starts_name n ≡ true)
either n h = ground (arith, h)

ltb_no : (a b : ℕ) → (a < b → ⊥) → ltb a b ≡ false
ltb_no a b h = ground arith

offset_named :
    (r : ℕ)
    → (table_offset r ≡ 0)
      ⊎ (name_from 1 names (table_offset r) ≡ some (string_at (table_offset r)))
offset_named r = elim (dec_lt r 128) [
  | yes h ↦ rw (lt→ltb r 128 h) (
      named_cases _ (
        either _
          (tested_below_lem (λ r. offset_ok (Prelude.get_or xkbascii r 0)) 128 r h ascii_names)))
  | no h ↦ rw (ltb_no r 128 h) (named_cases _ (lookup_named xkbextra (r % 2 ^ 16) extra_names))
]

no_offset : (r : ℕ) → 0 < r → r ≤ 0x10ffff → offset_of r ≡ 0 → runetoxkb r ≡ some (b'U' ∷ hex4 r)
unfolding runetoxkb
no_offset r lo hi e = ground (
  arith,
  e,
  take-whole 7 (b'U' ∷ hex4 r)
      (omega (arith, length-hex 16 4 6 r (omega arith) (omega arith) (omega arith))),
)

with_offset :
    (r : ℕ)
    → 0 < r
    → r ≤ 0x10ffff
    → (table_offset r ≡ 0 → ⊥)
    → runetoxkb r ≡ some (string_at (table_offset r))
unfolding runetoxkb
with_offset r lo hi ne = rw (offset_lem, runetoxkb) (ground arith)

-- For a rune from 1 to 0x10ffff `runetoxkb` returns: where its table has no offset for it, `U` and
-- its value in upper-case hexadecimal with at least four digits; and otherwise the whole XKB name
-- that starts at that offset, never a piece of one. Beyond ASCII the table is read for the lower 16
-- bits of the rune.
pub runetoxkb-names :
    (r : ℕ)
    → 0 < r
    → r ≤ 0x10ffff
    → ((table_offset r ≡ 0) × (runetoxkb r ≡ some (b'U' ∷ hex4 r)))
      ⊎ ((s : List ℕ) × (name_from 1 names (table_offset r) ≡ some s) × (runetoxkb r ≡ some s))
runetoxkb-names r lo hi = elim (offset_named r) [
  | inl e ↦ inl (e, no_offset r lo hi (offset_lem r ∙ e))
  | inr e ↦ elim (ℕ_discrete (table_offset r) 0) [
    | yes z ↦ inl (z, no_offset r lo hi (offset_lem r ∙ z))
    | no nz ↦ inr (string_at (table_offset r), e, with_offset r lo hi nz)
  ]
]
