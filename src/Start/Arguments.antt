-- ===== src/Start/Arguments.antt =====
-- The options of wl9.c's `main`, as the macros ARGBEGIN and EARGF of arg.h take them. A string is the
-- list of its bytes with its NUL byte.
pub mod Given
mod Tests
use wl.Prelude.{
  ℕ, Bool, true, false, not, ◌&&◌, Option, none, some, List, [], ◌∷◌, ◌==◌, if◌then◌else◌, drop,
}
use wl.Prelude
use wl.Compositor.Options.{fdpair}

-- termaux.rfd and wfd and draw.datafd, -1 being `none`.
pub record Opts : Type 0 where
  pub rfd : Option ℕ
  pub wfd : Option ℕ
  pub datafd : Option ℕ

abbrev pub char_at : List ℕ → ℕ → ℕ
char_at s n = Prelude.get_or s n 0

-- `none` is a call of `usage`, which exits.
unfoldable pub set_option : ℕ → List ℕ → Opts → Option Opts
set_option c value o =
    if c == b't'
    then elim (fdpair true value) [
      | none ↦ none
      | some (r, w) ↦ some (record o { rfd = some r; wfd = w })
    ]
    else if c == b'd'
    then elim (fdpair false value) [
      | none ↦ none
      | some (r, w) ↦ some (record o { datafd = some r })
    ]
    else none

-- No option; "--"; "-"; an option's letter with its value behind it, or in the next word.
pub data Word : Type 0 where
  operand stop blank : Word
  joined : ℕ → List ℕ → Word
  apart : ℕ → Word

unfoldable pub word_of : List ℕ → Word
word_of s =
    if not (char_at s 0 == b'-')
    then operand
    else if char_at s 1 == b'-' && char_at s 2 == 0
    then stop
    else if char_at s 1 == 0
    then blank
    else if char_at s 2 == 0
    then apart (char_at s 1)
    else joined (char_at s 1) (drop 2 s)

abbrev pub go_on :
    Option Opts → (Opts → Option (Opts × List (List ℕ))) → Option (Opts × List (List ℕ))
go_on none next = none
go_on (some o) next = next o

-- The words behind the program's name: the options, and argv as it is left. Every option takes a
-- value.
unfoldable pub parse : List (List ℕ) → Opts → Option (Opts × List (List ℕ))
parse [] o = some (o, [])
parse (s ∷ []) o = elim (word_of s) [
  | operand ↦ some (o, s ∷ [])
  | stop ↦ some (o, [])
  | blank ↦ some (o, [])
  | joined c value ↦ go_on (set_option c value o) λ o'. some (o', [])
  | apart c ↦ none
]
parse (s ∷ v ∷ rest) o = elim (word_of s) [
  | operand ↦ some (o, s ∷ v ∷ rest)
  | stop ↦ some (o, v ∷ rest)
  | blank ↦ parse (v ∷ rest) o
  | joined c value ↦ go_on (set_option c value o) (parse (v ∷ rest))
  | apart c ↦ go_on (set_option c v o) (parse rest)
]
