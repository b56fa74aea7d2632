-- ===== src/Keymap/Runes.antt =====
-- `u16cmp`, `runetoxkb` and `keymapmod` of keymap.c.
use wl.Prelude.{
  ℕ, zero, suc, ◌+◌, ◌-◌, ◌*◌, ◌/◌, ◌%◌, ◌^◌, Bool, true, false, ◌&&◌, ◌||◌, Option, none, some,
  List, [], ◌∷◌, ◌++◌, ltb, leb, ◌==◌, if◌then◌else◌, length, get_elem?, take, drop,
}
use wl.Prelude
use wl.Libc.Search.{Sign, below, same, above, bsearch}
use wl.Keymap.Tables.{xkbnames, xkbascii, xkbextra}

-- The return values -1, 0 and 1 are `below`, `same` and `above`.
unfoldable pub u16cmp : ℕ → ℕ → Sign
u16cmp ra rb = if ltb ra rb then below else if ltb rb ra then above else same

-- `%.*lX` of an unsigned long, with `least` digits at the least.
abbrev pub hex_digit : ℕ → ℕ
hex_digit d = if ltb d 10 then 48 + d else 55 + d

unfoldable pub hex : ℕ → ℕ → ℕ → List ℕ
hex zero least n = []
hex (suc f) least n =
    let more = hex f (least - 1) (n / 16) in
    (if ltb n 16 && leb least 1 then [] else more) ++ hex_digit (n % 16) ∷ []

abbrev pub hex4 : ℕ → List ℕ
hex4 n = hex 16 4 n

-- The C string that starts at an offset.
unfoldable pub until_nul : List ℕ → List ℕ
until_nul [] = []
until_nul (c ∷ s) = if c == 0 then [] else c ∷ until_nul s

unfoldable pub string_at : ℕ → List ℕ
string_at i = until_nul (drop i xkbnames)

abbrev pub entry_rune : List (ℕ × ℕ) → ℕ → ℕ
entry_rune [] i = 0
entry_rune ((r, n) ∷ es) zero = r
entry_rune ((r, n) ∷ es) (suc i) = entry_rune es i

abbrev pub entry_name : List (ℕ × ℕ) → ℕ → ℕ
entry_name [] i = 0
entry_name ((r, n) ∷ es) zero = n
entry_name ((r, n) ∷ es) (suc i) = entry_name es i

abbrev pub found_name : Option ℕ → ℕ
found_name none = 0
found_name (some i) = entry_name xkbextra i

-- `k ? k[1] : 0` for the entry that bsearch finds; the key is cast to 16 bits.
unfoldable pub extra_offset : ℕ → ℕ
extra_offset r =
    let key : ℕ = r % 2 ^ 16 in
    found_name
      (bsearch (λ i. u16cmp key (entry_rune xkbextra i)) (length xkbextra) 0 (length xkbextra))

unfoldable pub offset_of : ℕ → ℕ
offset_of r = if ltb r 128 then Prelude.get_or xkbascii r 0 else extra_offset r

-- `none` is the failed assertion. `snprintf` keeps 7 bytes of the name it builds.
unfoldable pub runetoxkb : ℕ → Option (List ℕ)
runetoxkb r =
    if r == 0 || ltb 0x10ffff r
    then none
    else if offset_of r == 0
    then some (take 7 (b'U' ∷ hex4 r))
    else some (string_at (offset_of r))

unfoldable pub keymapmod : ℕ → ℕ
keymapmod key =
    if key == 0xF015
    then 2 ^ 3
    else if key == 0xF016
    then 2 ^ 0
    else if key == 0xF017
    then 2 ^ 2
    else if key == 0xF864
    then 2 ^ 1
    else if key == 0xF867
    then 2 ^ 3
    else if key == 0xF868
    then 2 ^ 6
    else 0
