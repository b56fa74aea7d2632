-- ===== src/Keymap/Tests.antt =====
-- Runs of keymap.c.
use wl.Prelude.{ℕ, ◌≡◌, refl, ◌⊎◌, inr, some, Bool, replicate, true, List, [], ◌∷◌, All, arith}
use wl.Libc.{codes, strtoul, skip_spaces, is_space, read_digits, is_digit, magnitude}
use wl.Keymap.Table.{Keys, new_key, enter}
use wl.Keymap.Capacity.{Enters, enter-Enters}
use wl.Keymap.Write.{Line, text, line_numbers, writekeymap, success}
use wl.Keymap.Complete.{IsFit, writekeymap-success}
use wl.Keymap.Names.{runetoxkb-names, table_offset, name_from}
use wl.Keymap.Text.{keymapmod-mask_of, Modifier, IsReal, declared, xkbmods, mask_of}
use wl.Libc.Search.{bsearch}
use wl.Keymap.Tables.{names, xkbnames, xkbascii, xkbextra}
use wl.Keymap.Runes.{
  runetoxkb, keymapmod, offset_of, extra_offset, string_at, until_nul, hex, hex4, u16cmp,
}

name_of_a : runetoxkb b'a' ≡ some (codes "a")
unfolding runetoxkb offset_of extra_offset string_at until_nul hex bsearch u16cmp xkbnames xkbascii
    xkbextra
name_of_a = refl

name_of_mod4 : runetoxkb 0xF868 ≡ some (codes "Super_L")
unfolding runetoxkb offset_of extra_offset string_at until_nul hex bsearch u16cmp xkbnames xkbascii
    xkbextra
name_of_mod4 = refl

name_of_tilde : runetoxkb b'~' ≡ some (codes "asciitilde")
unfolding runetoxkb offset_of extra_offset string_at until_nul hex bsearch u16cmp xkbnames xkbascii
    xkbextra
name_of_tilde = refl

name_of_e_acute : runetoxkb 0xe9 ≡ some (codes "U00E9")
unfolding runetoxkb offset_of extra_offset string_at until_nul hex bsearch u16cmp xkbnames xkbascii
    xkbextra
name_of_e_acute = refl

name_of_largest : runetoxkb 0x10fffe ≡ some (codes "U10FFFE")
unfolding runetoxkb offset_of extra_offset string_at until_nul hex bsearch u16cmp xkbnames xkbascii
    xkbextra
name_of_largest = refl

abbrev plenty : ℕ → Bool
plenty n = true

abbrev one_line : List Line
one_line = text (codes "0 30 97\n") ∷ []

one_line-IsFit : All IsFit one_line
unfolding line_numbers strtoul skip_spaces is_space read_digits is_digit magnitude
one_line-IsFit = ((omega arith, omega arith), tt)

writekeymap-success_example : (out : List ℕ) × (writekeymap plenty true one_line ≡ success out)
writekeymap-success_example = writekeymap-success plenty one_line refl (omega arith) one_line-IsFit

-- The array with 128 keys, none of them for the rune 97.
abbrev full_table : Keys
full_table = record { cap = 128; keys = replicate 128 (new_key 1 98) }

enter-Enters_example : Enters full_table 30 97 (enter plenty full_table 30 97)
enter-Enters_example =
    enter-Enters plenty full_table 30 97 (inr (omega arith, omega arith, refl)) refl

runetoxkb-names_example :
    ((table_offset 97 ≡ 0) × (runetoxkb 97 ≡ some (b'U' ∷ hex4 97)))
    ⊎ ((s : List ℕ) × (name_from 1 names (table_offset 97) ≡ some s) × (runetoxkb 97 ≡ some s))
runetoxkb-names_example = runetoxkb-names 97 (omega arith) (omega arith)

keymapmod-mask_of_example :
    (ms : List Modifier) × All IsReal ms
    × (xkbmods ≡ declared ms)
    × (keymapmod 0xF868 ≡ mask_of ms 0xF868)
keymapmod-mask_of_example = keymapmod-mask_of 0xF868
