-- ===== src/Keymap/Write.antt =====
-- `writekeymap` of keymap.c. What it prints is the list of the bytes, in order.
use wl.Prelude.{ℕ, Bool, not, ◌&&◌, Option, none, some, List, [], ◌∷◌, ◌++◌, ◌==◌, if◌then◌else◌}
use wl.Libc.{codes, strtoul}
use wl.Keymap.Runes.{hex4, runetoxkb}
use wl.Keymap.Text.{xkbtypes, xkbcompat, xkbmods}
use wl.Keymap.Table.{Key, Keys, no_keys, rune_at, added, overrun, no_memory, add_line}

-- What `nextline` returns: a line (1) or a failure (-1); after the last of a list it returns 0.
pub data Line : Type 0 where
  text : List ℕ → Line
  failure : Line

-- A return with 0 or with -1, and what was printed; or a write outside the array of keys, or the
-- failed assertion of `runetoxkb`.
pub data Written : Type 0 where
  success failed : List ℕ → Written
  crash : Written

-- The three numbers of a line.
unfoldable pub line_numbers : List ℕ → ℕ × ℕ × ℕ
line_numbers s =
    let (level, s1) = strtoul s in
    let (scan, s2) = strtoul s1 in let (rune, s3) = strtoul s2 in (level, scan, rune)

pub data Read : Type 0 where
  all_read : Keys → List ℕ → Read
  stopped : List ℕ → Read
  crashed : Read

-- The first loop.
unfoldable pub read_lines : (ℕ → Bool) → List Line → Keys → List ℕ → Read
read_lines room [] t out = all_read t out
read_lines room (failure ∷ ls) t out = stopped out
read_lines room (text s ∷ ls) t out =
    let (level, scan, rune) = line_numbers s in
    elim (add_line room t level scan rune) [
      | added t' more ↦ read_lines room ls t' (out ++ more)
      | overrun ↦ crashed
      | no_memory ↦ stopped out
    ]

-- `\tkey <U+%.4X> {[%s`, then `, %s` for another rune under shift, and `]};\n`
unfoldable pub symbol_line : Key → Option (List ℕ)
symbol_line k = elim (runetoxkb (rune_at k 0)) [
  | none ↦ none
  | some base ↦
      let start = codes "\tkey <U+" ++ (hex4 (rune_at k 0) ++ (codes "> {[" ++ base)) in
      if not (rune_at k 1 == 0) && not (rune_at k 1 == rune_at k 0)
      then elim (runetoxkb (rune_at k 1)) [
        | none ↦ none
        | some shifted ↦ some (start ++ (codes ", " ++ (shifted ++ codes "]};\n")))
      ]
      else some (start ++ codes "]};\n")
]

-- The second loop; `none` is a failed assertion.
unfoldable pub symbol_lines : List Key → Option (List ℕ)
symbol_lines [] = some []
symbol_lines (k ∷ ks) = elim (symbol_line k) [
  | none ↦ none
  | some l ↦ elim (symbol_lines ks) [ none ↦ none | some more ↦ some (l ++ more) ]
]

-- `sound` says that no write to the file failed.
unfoldable pub finish : Bool → Keys → List ℕ → Written
finish sound t out = elim (symbol_lines t.keys) [
  | none ↦ crash
  | some symbols ↦
      let whole =
        out
        ++ (codes "};\n"
            ++ (xkbtypes
                ++ (xkbcompat
                    ++ (codes "xkb_symbols \"plan9\" {\n"
                        ++ (symbols
                            ++ (xkbmods ++ (codes "};\n" ++ (codes "};\n" ++ 0 ∷ [])))))))) in
      if sound then success whole else failed whole
]

unfoldable pub writekeymap : (ℕ → Bool) → Bool → List Line → Written
writekeymap room sound lines =
    elim (read_lines room lines no_keys
      (codes "xkb_keymap {\n" ++ codes "xkb_keycodes \"plan9\" {\n")) [
        | all_read t out ↦ finish sound t out
        | stopped out ↦ failed out
        | crashed ↦ crash
      ]
