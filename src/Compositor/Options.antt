-- ===== src/Compositor/Options.antt =====
-- `fdpair`, `splitpath` and `kbmapline` of wl9.c.
pub mod Paths
use wl.Prelude.{
  ℕ, zero, suc, ◌+◌, ◌-◌, ◌*◌, ◌^◌, Bool, true, false, not, ◌&&◌, ◌||◌, Option, none, some, List,
  [], ◌∷◌, ◌++◌, length, take, ltb, leb, ◌==◌, if◌then◌else◌, get_elem?,
}
use wl.Prelude.Int.{ℤ, pos, negsuc}
use wl.Libc.{strtol}

-- `fd < 0 || fd > INT_MAX` leaves these; where strtol reports ERANGE its value is none of them.
abbrev pub fd_of : ℤ → Option ℕ
fd_of (pos n) = if ltb n (2 ^ 31) then some n else none
fd_of (negsuc n) = none

-- The string ends here.
abbrev pub at_end : List ℕ → Bool
at_end [] = true
at_end (c ∷ s) = c == 0

abbrev pub second_fd : ℕ → ℤ × List ℕ → Option (ℕ × Option ℕ)
second_fd rfd (v, rest) = elim (fd_of v) [
  | none ↦ none
  | some wfd ↦ if at_end rest then some (rfd, some wfd) else none
]

-- `rfd`, and `wfd` where it is asked for; `none` is a call of `usage`, which exits.
unfoldable pub fdpair : Bool → List ℕ → Option (ℕ × Option ℕ)
fdpair has_wfd s =
    let (v, rest) = strtol s in
    elim (fd_of v) [
      | none ↦ none
      | some fd ↦ elim rest [
        | [] ↦ some (fd, if has_wfd then some fd else none)
        | c ∷ rest' ↦
            if has_wfd && c == b','
            then second_fd fd (strtol rest')
            else if c == 0
            then some (fd, if has_wfd then some fd else none)
            else none
      ]
    ]

-- The string of a name: the slash behind it becomes a NUL byte.
abbrev pub until_slash : List ℕ → List ℕ
until_slash [] = []
until_slash (c ∷ s) = if c == b'/' || c == 0 then [] else c ∷ until_slash s

pub data Split : Type 0 where
  split : List (List ℕ) → Split
  not_absolute too_many : Split

abbrev pub add_name : List ℕ → Split → Split
add_name n (split ns) = split (n ∷ ns)
add_name n not_absolute = not_absolute
add_name n too_many = too_many

-- The loop, with `nwname` names found before.
unfoldable pub split_loop : ℕ → ℕ → List ℕ → Split
split_loop max nwname [] = split []
split_loop max nwname (c ∷ s) =
    let next = add_name (until_slash s) (split_loop max (nwname + 1) s) in
    let same = split_loop max nwname s in
    if c == 0
    then split []
    else if leb max (nwname + 1)
    then too_many
    else if c == b'/'
    then next
    else same

unfoldable pub splitpath : ℕ → List ℕ → Split
splitpath max [] = not_absolute
splitpath max (c ∷ s) = if c == b'/' then split_loop max 0 (c ∷ s) else not_absolute

-- `kbmapline` on what was read at the offset: a line without its newline (1), the end (0), or -1;
-- and the offset after.
pub data Next : Type 0 where
  line : List ℕ → Next
  end_of_map bad_line : Next

abbrev pub last_byte : List ℕ → ℕ
last_byte [] = 0
last_byte (c ∷ []) = c
last_byte (c ∷ d ∷ s) = last_byte (d ∷ s)

-- `none` is a failed read.
unfoldable pub kbmapline : Option (List ℕ) → ℕ → Next × ℕ
kbmapline none off = (bad_line, off)
kbmapline (some content) off =
    if length content == 0
    then (end_of_map, off)
    else if not (length content == 36) || not (last_byte content == b'\n')
    then (bad_line, off)
    else (line (take 35 content), (off + 36))
