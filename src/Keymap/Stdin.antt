-- ===== src/Keymap/Stdin.antt =====
-- `nextline` and `main` of kbmaptoxkb.c: the lines of the standard input.
use wl.Prelude.{
  ℕ, zero, suc, ◌≡◌, ◌<◌, refl, ap, Bool, false, Option, none, some, List, [], ◌∷◌, ◌++◌, ◌==◌,
  length, if◌then◌else◌, All, map, arith, ◌∙◌, ◌≤◌, length-append,
}
use wl.Keymap.Write.{Line, text, failure, Written, success, failed, crash, writekeymap}

-- getline: the bytes to the first newline, which is among them, or all; and what is left.
abbrev pub first_line : List ℕ → List ℕ × List ℕ
first_line [] = ([], [])
first_line (c ∷ s) =
    if c == b'\n' then (c ∷ [], s) else let (l, rest) = first_line s in (c ∷ l, rest)

abbrev pub strip_newline : List ℕ → List ℕ
strip_newline [] = []
strip_newline (c ∷ []) = if c == b'\n' then [] else c ∷ []
strip_newline (c ∷ d ∷ s) = c ∷ strip_newline (d ∷ s)

-- `none` is a return of 0. `fails` says that reading fails behind the bytes that are there.
abbrev pub nextline : Bool → List ℕ → Option Line × List ℕ
nextline fails [] = (if fails then some failure else none, [])
nextline fails (c ∷ s) = let (l, rest) = first_line (c ∷ s) in (some (text (strip_newline l)), rest)

abbrev pub with_rest : Option Line → Option (List Line) → Option (List Line)
with_rest none more = some []
with_rest (some failure) more = some (failure ∷ [])
with_rest (some (text s)) more = elim more [ none ↦ none | some ls ↦ some (text s ∷ ls) ]

-- What `nextline` returns until it returns 0 or -1; `none` is no more fuel.
unfoldable pub next_lines : ℕ → Bool → List ℕ → Option (List Line)
next_lines zero fails input = none
next_lines (suc fuel) fails input =
    let (l, rest) = nextline fails input in with_rest l (next_lines fuel fails rest)

-- `main` of kbmaptoxkb.c: what is written, and below the exit status.
unfoldable pub kbmaptoxkb : (ℕ → Bool) → Bool → Bool → List ℕ → Option Written
unfolding next_lines
kbmaptoxkb memory sound fails input = elim (next_lines (suc (length input)) fails input) [
  | none ↦ none
  | some ls ↦ some (writekeymap memory sound ls)
]

abbrev pub exit_status : Written → Option ℕ
exit_status (success out) = some 1
exit_status (failed out) = some 0
exit_status crash = none

-- A file of lines.
abbrev pub file : List (List ℕ) → List ℕ
file [] = []
file (s ∷ ss) = (s ++ b'\n' ∷ []) ++ file ss

abbrev pub IsText : List ℕ → Type 0
IsText s = All (λ c. (c == b'\n') ≡ false) s

first_line-line :
    (s rest : List ℕ) → IsText s → first_line ((s ++ b'\n' ∷ []) ++ rest) ≡ (s ++ b'\n' ∷ [], rest)
first_line-line [] rest h = refl
first_line-line (c ∷ s) rest (e, h) = rw (e, first_line-line s rest h) refl

strip_newline-line : (s : List ℕ) → strip_newline (s ++ b'\n' ∷ []) ≡ s
strip_newline-line [] = refl
strip_newline-line (c ∷ []) = refl
strip_newline-line (c ∷ d ∷ s) = ap (λ l. c ∷ l) (strip_newline-line (d ∷ s))

nextline-line :
    (s rest : List ℕ)
    → IsText s
    → nextline false ((s ++ b'\n' ∷ []) ++ rest) ≡ (some (text s), rest)
nextline-line [] rest h = refl
nextline-line (c ∷ s) rest h = rw (first_line-line (c ∷ s) rest h, strip_newline-line (c ∷ s)) refl

next_lines-file :
    (fuel : ℕ) (ss : List (List ℕ))
    → All IsText ss
    → length ss < fuel
    → next_lines fuel false (file ss) ≡ some (map text ss)
unfolding next_lines
next_lines-file zero ss h few = absurd (omega arith)
next_lines-file (suc fuel) [] h few = refl
next_lines-file (suc fuel) (s ∷ ss) (h, hs) few =
    ap (λ (n : Option Line × List ℕ). with_rest n.0 (next_lines fuel false n.1))
      (nextline-line s (file ss) h)
    ∙ ap (with_rest (some (text s))) (next_lines-file fuel ss hs (omega arith))

length-file : (ss : List (List ℕ)) → length ss ≤ length (file ss)
length-file [] = omega arith
length-file (s ∷ ss) =
    omega (
      arith,
      length-file ss,
      length-append (s ++ b'\n' ∷ []) (file ss),
      length-append s (b'\n' ∷ []),
    )

-- Fuel for each byte is enough, and the lines are those of the file.
pub kbmaptoxkb-writekeymap :
    (memory : ℕ → Bool) (sound : Bool) (ss : List (List ℕ))
    → All IsText ss
    → kbmaptoxkb memory sound false (file ss) ≡ some (writekeymap memory sound (map text ss))
unfolding kbmaptoxkb
kbmaptoxkb-writekeymap memory sound ss h =
    rw (next_lines-file (suc (length (file ss))) ss h (omega (arith, length-file ss)), kbmaptoxkb)
      refl
