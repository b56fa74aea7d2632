-- ===== src/Compositor/Control.antt =====
-- `wctlread` of wl9.c, from the numbers of the message on: what a window's wctl file tells of its
-- place, and whether it is current and hidden.
pub mod Report
use wl.Prelude.{
  ℕ, ◌+◌, Bool, true, false, not, ◌&&◌, ◌||◌, Option, none, some, List, [], ◌∷◌, ◌++◌, ◌==◌,
  if◌then◌else◌,
}
use wl.Prelude.Int.{ℤ, to_int, pos, pos_part, neg_part, ◌+ℤ◌, ◌-ℤ◌}
use wl.Libc.{codes, strtol}

-- The window's place, and its flags.
pub record Control : Type 0 where
  pub x0 : ℤ
  pub y0 : ℤ
  pub x1 : ℤ
  pub y1 : ℤ
  pub current : Bool
  pub hidden : Bool

-- BORDER
abbrev pub border : ℤ
border = pos 4

-- strtok_r by blanks: the next word and what follows the blank behind it; NULL where there is none.
abbrev pub skip_blanks : List ℕ → List ℕ
skip_blanks [] = []
skip_blanks (c ∷ s) = if c == b' ' then skip_blanks s else c ∷ s

abbrev pub word_at : List ℕ → List ℕ × List ℕ
word_at [] = ([], [])
word_at (c ∷ s) =
    let (word, rest) = word_at s in
    if c == 0 then ([], c ∷ s) else if c == b' ' then ([], s) else (c ∷ word, rest)

unfoldable pub next_word : List ℕ → Option (List ℕ × List ℕ)
next_word s =
    let (word, rest) = word_at (skip_blanks s) in
    elim word [ [] ↦ none | c ∷ cs ↦ some (c ∷ cs, rest) ]

abbrev pub same_word : List ℕ → List ℕ → Bool
same_word [] [] = true
same_word [] (d ∷ t) = false
same_word (c ∷ s) [] = false
same_word (c ∷ s) (d ∷ t) = c == d && same_word s t

-- The two words behind the numbers; `none` is a NULL that is read.
unfoldable pub read_flags : List ℕ → Option (Bool × Bool)
read_flags s = elim (next_word s) [
  | none ↦ none
  | some (current, rest) ↦ elim (next_word rest) [
    | none ↦ none
    | some (hidden, end) ↦
        some (same_word current (codes "current"), same_word hidden (codes "hidden"))
  ]
]

-- The places are ints.
unfoldable pub read_control : List ℕ → Option Control
read_control s =
    let (x0, s1) = strtol s in
    let (y0, s2) = strtol s1 in
    let (x1, s3) = strtol s2 in
    let (y1, s4) = strtol s3 in
    elim (read_flags s4) [
      | none ↦ none
      | some (current, hidden) ↦ some (record {
        x0 = to_int (x0 +ℤ border);
        y0 = to_int (y0 +ℤ border);
        x1 = to_int (x1 -ℤ border);
        y1 = to_int (y1 -ℤ border);
        current = current;
        hidden = hidden;
      })
    ]

abbrev pub same_int : ℤ → ℤ → Bool
same_int a b = pos_part a + neg_part b == pos_part b + neg_part a

abbrev pub moved : Control → Control → Bool
moved w n =
    not (same_int n.x0 w.x0)
    || not (same_int n.y0 w.y0)
    || not (same_int n.x1 w.x1)
    || not (same_int n.y1 w.y1)

abbrev pub resized : Control → Control → Bool
resized w n =
    not (same_int (n.x1 -ℤ n.x0) (w.x1 -ℤ w.x0)) || not (same_int (n.y1 -ℤ n.y0) (w.y1 -ℤ w.y0))

-- What is done: the image is named anew, the buffer is drawn, the keyboard gets or loses the focus
-- (with the offer of the selection, and the mouse's focus), and the client is told a size.
pub data Effect : Type 0 where
  name_image redraw get_focus lose_focus : Effect
  configure : ℤ → ℤ → Bool → Effect

abbrev pub place : Control → Control → Control
place w n = record w { x0 = n.x0; y0 = n.y0; x1 = n.x1; y1 = n.y1 }

abbrev pub same_flag : Bool → Bool → Bool
same_flag true b = b
same_flag false b = not b

-- From `if (w->current != ...)` on, `needconfig` being what is known before.
unfoldable pub set_flags : Bool → Control → Control → List Effect → Control × List Effect
set_flags needconfig n w done =
    let focus = if n.current then get_focus ∷ [] else lose_focus ∷ [] in
    let changed = not (same_flag w.current n.current) in
    let w' = record w { current = n.current; hidden = n.hidden } in
    let told = configure (n.x1 -ℤ n.x0) (n.y1 -ℤ n.y0) n.current ∷ [] in
    (w', (done ++ (if changed then focus else [])) ++ (if needconfig || changed then told else []))

-- `names` says whether the name is read, an image number found and the message written; `buffer`
-- whether the surface has a buffer in shared memory. Without them `wctlread` returns early.
unfoldable pub update : Bool → Bool → Control → Control → Control × List Effect
update names buffer n w =
    if not (moved w n)
    then set_flags false n w []
    else if not names
    then (place w n, [])
    else if resized w n
    then set_flags true n (place w n) (name_image ∷ [])
    else if buffer
    then set_flags false n (place w n) (name_image ∷ redraw ∷ [])
    else (place w n, name_image ∷ [])
