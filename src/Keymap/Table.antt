-- ===== src/Keymap/Table.antt =====
-- The keys that `writekeymap` collects from the lines of the kernel's keymap: `struct key`, the array
-- that grows by realloc, and the body of the loop.
use wl.Prelude.{
  ℕ, zero, suc, ◌+◌, ◌-◌, ◌*◌, ◌%◌, ◌^◌, bit_and, Bool, true, false, ◌&&◌, ◌||◌, Option, none, some,
  List, [], ◌∷◌, ◌++◌, ltb, leb, ◌==◌, if◌then◌else◌, length, get_elem?, set, replicate,
}
use wl.Prelude
use wl.Libc.{codes}
use wl.Libc.Search.{bsearch}
use wl.Keymap.Runes.{u16cmp, hex4}

-- Every field is a uint_least16_t of 16 bits; `rune` has ten entries.
pub record Key : Type 0 where
  pub scan : ℕ
  pub rune : List ℕ

-- `keys` is the part of the array in use, `cap` the number of elements that realloc was asked for.
pub record Keys : Type 0 where
  pub cap : ℕ
  pub keys : List Key

abbrev pub no_keys : Keys
no_keys = record { cap = 0; keys = [] }

abbrev pub rune_at : Key → ℕ → ℕ
rune_at k level = Prelude.get_or k.rune level 0

-- The new table and what is printed, a write outside the array, or realloc without memory.
pub data Added : Type 0 where
  added : Keys → List ℕ → Added
  overrun no_memory : Added

abbrev pub u16 : ℕ → ℕ
u16 n = n % 2 ^ 16

abbrev pub new_key : ℕ → ℕ → Key
new_key scan rune = record { scan = u16 scan; rune = u16 rune ∷ replicate 9 0 }

-- The loop that looks for the rune at level 0; the stored 16 bits are compared to the whole rune.
unfoldable pub has_rune : List Key → ℕ → Bool
has_rune [] rune = false
has_rune (k ∷ ks) rune = rune_at k 0 == rune || has_rune ks rune

-- `keyslen - 1` in a size_t.
abbrev less_one : ℕ → ℕ
less_one n = (n + 2 ^ 64 - 1) % 2 ^ 64

-- `(keyslen & keyslen - 1) == 0 && keyslen - 1 > 127`
unfoldable pub must_grow : ℕ → Bool
must_grow n = bit_and n (less_one n) == 0 && ltb 127 (less_one n)

abbrev pub grown_cap : ℕ → ℕ
grown_cap n = if n == 0 then 128 else n * 2

-- `\t<U+%.4lX> = 0x%.4lX;\n`
unfoldable pub keycode_line : ℕ → List ℕ
keycode_line rune =
    codes "\t<U+" ++ (hex4 rune ++ (codes "> = 0x" ++ (hex4 (rune + 8) ++ codes ";\n")))

-- The write to keys[keyslen].
unfoldable pub push : Keys → Key → ℕ → Added
push t k rune =
    if ltb (length t.keys) t.cap
    then added (record t { keys = t.keys ++ k ∷ [] }) (keycode_line rune)
    else overrun

-- Levels 0, 2, 5 and 6. `room n` says whether realloc finds room for n keys.
unfoldable pub enter : (ℕ → Bool) → Keys → ℕ → ℕ → Added
enter room t scan rune =
    if has_rune t.keys rune
    then added t []
    else if must_grow (length t.keys)
    then if room (grown_cap (length t.keys))
      then push (record t { cap = grown_cap (length t.keys) }) (new_key scan rune) rune
      else no_memory
    else push t (new_key scan rune) rune

abbrev pub scan_of : List Key → ℕ → ℕ
scan_of [] i = 0
scan_of (k ∷ ks) zero = k.scan
scan_of (k ∷ ks) (suc i) = scan_of ks i

abbrev pub set_level : Key → ℕ → ℕ → Key
set_level k level rune = record k { rune = set k.rune level (u16 rune) }

-- `k->rune[level] = rune` for the key that bsearch finds by its scan code.
unfoldable pub shift : Keys → ℕ → ℕ → ℕ → Added
shift t level scan rune =
    elim (bsearch (λ i. u16cmp (u16 scan) (scan_of t.keys i)) (length t.keys) 0 (length t.keys)) [
      | none ↦ added t []
      | some i ↦ elim (get_elem? t.keys i) [
        | none ↦ overrun
        | some k ↦
            if ltb level 10
            then added (record t { keys = set t.keys i (set_level k level rune) }) []
            else overrun
      ]
    ]

-- The body of the loop, once the line is read.
unfoldable pub add_line : (ℕ → Bool) → Keys → ℕ → ℕ → ℕ → Added
add_line room t level scan rune =
    if rune == 0 || ltb 0x10ffff rune
    then added t []
    else if level == 2 || level == 5 || level == 6 || level == 0
    then enter room t scan rune
    else shift t level scan rune
