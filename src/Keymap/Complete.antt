-- ===== src/Keymap/Complete.antt =====
-- `writekeymap` runs to its end on every keymap of at most 128 lines.
use wl.Prelude.{
  ℕ, suc, ◌+◌, ◌^◌, ◌≤◌, ◌<◌, ◌≡◌, refl, ◌⊎◌, inl, inr, Bool, true, Option, none, some, List, [],
  ◌∷◌, ◌++◌, length, All, arith, ℕ_discrete,
}
use wl.Libc.{codes}
use wl.Keymap.Runes.{runetoxkb, hex4}
use wl.Keymap.Names.{runetoxkb-names, table_offset, name_from}
use wl.Keymap.Tables.{names}
use wl.Keymap.Table.{Key, Keys, no_keys, rune_at, added, add_line}
use wl.Keymap.Capacity.{IsPrintable, IsGood}
use wl.Keymap.Added.{add_line-IsAdded}
use wl.Keymap.Write.{
  Line, text, failure, Written, success, failed, crash, line_numbers, all_read, read_lines,
  symbol_line, symbol_lines, finish, writekeymap,
}

-- A line that was read, with a level below 10 and a rune of 16 bits.
abbrev pub IsFit : Line → Type 0
IsFit (text s) = ((line_numbers s).0 < 10) × ((line_numbers s).2 < 2 ^ 16)
IsFit failure = ⊥

abbrev Ends : Option (List ℕ) → Type 0
Ends none = ⊥
Ends (some s) = Unit {0}

Ends-some : (o : Option (List ℕ)) → Ends o → (s : List ℕ) × (o ≡ some s)
Ends-some none h = absurd h
Ends-some (some s) h = (s, refl)

named : (r : ℕ) → 0 < r → r < 2 ^ 16 → (s : List ℕ) × (runetoxkb r ≡ some s)
named r lo hi = either (runetoxkb-names r lo (omega arith))
  where
    either :
        ((table_offset r ≡ 0) × (runetoxkb r ≡ some (b'U' ∷ hex4 r)))
          ⊎ ((s : List ℕ) × (name_from 1 names (table_offset r) ≡ some s) × (runetoxkb r ≡ some s))
        → (s : List ℕ) × (runetoxkb r ≡ some s)
    either (inl (z, e)) = (b'U' ∷ hex4 r, e)
    either (inr (s, e, e')) = (s, e')

symbol_line_one :
    (k : Key) (base : List ℕ)
    → rune_at k 1 ≡ 0
    → runetoxkb (rune_at k 0) ≡ some base
    → Ends (symbol_line k)
unfolding symbol_line
symbol_line_one k base z e = ground (arith, e, z)

symbol_line_two :
    (k : Key) (base shifted : List ℕ)
    → runetoxkb (rune_at k 0) ≡ some base
    → runetoxkb (rune_at k 1) ≡ some shifted
    → Ends (symbol_line k)
unfolding symbol_line
symbol_line_two k base shifted e e' = ground (arith, e, e')

symbol_line-Ends :
    (k : Key) (base : List ℕ)
    → IsPrintable k
    → runetoxkb (rune_at k 0) ≡ some base
    → Ends (symbol_line k)
symbol_line-Ends k base p e = elim (ℕ_discrete (rune_at k 1) 0) [
  | yes z ↦ symbol_line_one k base z e
  | no nz ↦
      let (shifted, e') = named (rune_at k 1) (omega arith) p.2 in
      symbol_line_two k base shifted e e'
]

symbol_line_total : (k : Key) → IsPrintable k → (s : List ℕ) × (symbol_line k ≡ some s)
symbol_line_total k p =
    let (base, e) = named (rune_at k 0) p.0 p.1 in
    Ends-some (symbol_line k) (symbol_line-Ends k base p e)

lines_step :
    (k : Key) (ks : List Key) (l more : List ℕ)
    → symbol_line k ≡ some l
    → symbol_lines ks ≡ some more
    → symbol_lines (k ∷ ks) ≡ some (l ++ more)
unfolding symbol_lines
lines_step k ks l more e e' = ground (arith, e, e')

symbol_lines_total :
    (ks : List Key) → All IsPrintable ks → (s : List ℕ) × (symbol_lines ks ≡ some s)
unfolding symbol_lines
symbol_lines_total [] h = ([], refl)
symbol_lines_total (k ∷ ks) h =
    let (l, e) = symbol_line_total k h.0 in
    let (more, e') = symbol_lines_total ks h.1 in (l ++ more, lines_step k ks l more e e')

read_step :
    (room : ℕ → Bool) (s : List ℕ) (ls : List Line) (t t' : Keys) (out more : List ℕ)
    → add_line room t (line_numbers s).0 (line_numbers s).1 (line_numbers s).2 ≡ added t' more
    → read_lines room (text s ∷ ls) t out ≡ read_lines room ls t' (out ++ more)
unfolding read_lines
read_step room s ls t t' out more e = ground (arith, e)

read_lines_total :
    (room : ℕ → Bool) (ls : List Line) (n : ℕ) (t : Keys) (out : List ℕ)
    → room 128 ≡ true
    → n + length ls ≤ 128
    → All IsFit ls
    → IsGood n t
    → (t' : Keys) × (out' : List ℕ) × (read_lines room ls t out ≡ all_read t' out')
      × All IsPrintable t'.keys
read_lines_total room [] n t out mem few fit g = (t, out, unfold read_lines in refl, g.printable)
read_lines_total room (failure ∷ ls) n t out mem few fit g = absurd fit.0
read_lines_total room (text s ∷ ls) n t out mem few fit g =
    let (level, scan, rune) = line_numbers s in
    let (t', more, e, g') =
      add_line-IsAdded room t n level scan rune mem (omega arith) fit.0.0 fit.0.1 g in
    rw (read_step room s ls t t' out more e)
      (read_lines_total room ls (suc n) t' (out ++ more) mem (omega arith) fit.1 g')

no_keys-IsGood : IsGood 0 no_keys
no_keys-IsGood = record { table = inl (refl, refl); few = omega arith; printable = tt }

abbrev Succeeds : Written → Type 0
Succeeds (success out) = Unit {0}
Succeeds (failed out) = ⊥
Succeeds crash = ⊥

succeeds : (w : Written) → Succeeds w → (out : List ℕ) × (w ≡ success out)
succeeds (success out) h = (out, refl)
succeeds (failed out) h = absurd h
succeeds crash h = absurd h

written :
    (room : ℕ → Bool) (ls : List Line) (t : Keys) (out symbols : List ℕ)
    → read_lines room ls no_keys (codes "xkb_keymap {\n" ++ codes "xkb_keycodes \"plan9\" {\n")
      ≡ all_read t out
    → symbol_lines t.keys ≡ some symbols
    → Succeeds (writekeymap room true ls)
unfolding writekeymap finish
written room ls t out symbols e e' = ground (arith, e, e')

-- With memory for 128 keys and no failed write, on at most 128 lines whose levels are below 10 and
-- whose runes have 16 bits, `writekeymap` returns 0: it neither writes past its array nor fails an
-- assertion.
pub writekeymap-success :
    (room : ℕ → Bool) (ls : List Line)
    → room 128 ≡ true
    → length ls ≤ 128
    → All IsFit ls
    → (out : List ℕ) × (writekeymap room true ls ≡ success out)
writekeymap-success room ls mem few fit =
    let (t, out, e, p) =
      read_lines_total room ls 0 no_keys
        (codes "xkb_keymap {\n" ++ codes "xkb_keycodes \"plan9\" {\n") mem (omega arith) fit
        no_keys-IsGood in
    let (symbols, e') = symbol_lines_total t.keys p in
    succeeds (writekeymap room true ls) (written room ls t out symbols e e')
