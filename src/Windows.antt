-- ===== src/Windows.antt =====
-- `struct window` of wl9.c with its file numbers and tags, and the table `files` of `winnew` with the
-- loops over it.
pub mod Open
pub mod Kept
pub mod Owned
pub mod Loops
pub mod Turns
pub mod Walked
pub mod Flushed
pub mod After
pub mod Numbers
pub mod Undone
pub mod Opens
pub mod Promised
pub mod Settled
pub mod Life
pub mod Gone
pub mod Unfocused
pub mod Stored
pub mod Destroyed
pub mod Drawing
pub mod Commit
pub mod Reading
pub mod Reach
pub mod Requests
pub mod Served
mod Tests
use wl.Prelude.{ℕ, ◌-◌, ◌^◌, Bool, true, false, Option, none, some, List, [], ◌∷◌}
use wl.Prelude
use wl.Libc.{codes}
use wl.Fs.State.{Aux}
use wl.Compositor.Control.{Control}

-- `id` stands for the pointer, `surface` for the window's surface, `toplevel` says whether it is not
-- NULL and `listening` whether surface_destroy is linked; a file number or image of -1 is `none`.
pub record Window : Type 0 where
  pub id : ℕ
  pub surface : ℕ
  pub client : ℕ
  pub toplevel : Bool
  pub listening : Bool
  pub initial_commit : Bool
  pub wsys : Option ℕ
  pub wctl : Option ℕ
  pub winname : Option ℕ
  pub label : Option ℕ
  pub mouse : Option ℕ
  pub kbd : Option ℕ
  pub wctltag : ℕ
  pub mousetag : ℕ
  pub kbdtag : ℕ
  pub image : Option ℕ
  pub name : List ℕ
  pub control : Control

-- The `term` and `child` of wl9.c: the file numbers of the root and of $wsys, and the client that was
-- started and has no window yet.
pub record Term : Type 0 where
  pub root : ℕ
  pub wsys : ℕ
  pub child : Option ℕ

-- The functions that are called back.
abbrev pub wctlread_fn : ℕ
wctlread_fn = 1

abbrev pub mouseread_fn : ℕ
mouseread_fn = 2

abbrev pub kbdread_fn : ℕ
kbdread_fn = 3

abbrev pub snarfget_fn : ℕ
snarfget_fn = 4

-- An element of `files`; `fid` is what its pointer points to.
pub record File : Type 0 where
  pub name : List ℕ
  pub fid : Option ℕ
  pub mode : ℕ
  pub readcb : Option ℕ
  pub readsz : ℕ
  pub tag : ℕ
  pub clunk : Bool
  pub flush : Bool

abbrev pub file : List ℕ → Option ℕ → ℕ → Option ℕ → ℕ → File
file name fid mode readcb readsz = record {
  name = name;
  fid = fid;
  mode = mode;
  readcb = readcb;
  readsz = readsz;
  tag = 0;
  clunk = false;
  flush = false;
}

-- C9read, C9write and C9rdwr are 0, 1 and 2.
unfoldable pub files : Window → List File
files w =
    file (codes "winname") w.winname 0 none 0
    ∷ file (codes "label") w.label 1 none 0
    ∷ file (codes "wctl") w.wctl 2 none 72
    ∷ file (codes "mouse") w.mouse 0 (some mouseread_fn) 49
    ∷ file (codes "kbd") w.kbd 0 (some kbdread_fn) 256
    ∷ []

-- A file number as the c9 library takes it, an unsigned number of 32 bits.
abbrev pub fid_number : Option ℕ → ℕ
fid_number none = 2 ^ 32 - 1
fid_number (some fid) = fid

-- `exit(1)`, a failed assertion, a wait that does not end, and a `numget` that does not end.
pub data Halt : Type 0 where
  exited crashed stuck : Halt
  starved : Aux → Halt

-- One turn of a loop over `files`: on, to `error`, or no further.
pub data Turn : Type 0 where
  went : File → Aux → Turn
  broke : File → Aux → Turn
  halted : Halt → Turn

pub data Run : Type 0 where
  ran : List File → Aux → Run
  broke : List File → Aux → Run
  halted : Halt → Run

abbrev pub with_file : File → Run → Run
with_file f (ran fs a) = ran (f ∷ fs) a
with_file f (Run.broke fs a) = Run.broke (f ∷ fs) a
with_file f (Run.halted h) = Run.halted h

-- `for (f = files; f < files + LEN(files); f++)`, left by `goto error`.
unfoldable pub each : (File → Aux → Turn) → List File → Aux → Run
each turn [] a = ran [] a
each turn (f ∷ fs) a = elim (turn f a) [
  | went f' a' ↦ with_file f' (each turn fs a')
  | Turn.broke f' a' ↦ Run.broke (f' ∷ fs) a'
  | Turn.halted h ↦ Run.halted h
]

-- A loop that follows another, unless that was left.
abbrev pub then_each : (File → Aux → Turn) → Run → Run
then_each turn (ran fs a) = each turn fs a
then_each turn (Run.broke fs a) = Run.broke fs a
then_each turn (Run.halted h) = Run.halted h

abbrev pub stored_tag : ℕ → Option ℕ → ℕ
stored_tag old none = old
stored_tag old (some t) = t

-- What the program knows of the window's files after the loops.
abbrev pub no_file : File
no_file = file [] none 0 none 0

abbrev pub file_at : List File → ℕ → File
file_at fs n = Prelude.get_or fs n no_file

abbrev pub store : List File → Window → Window
store fs w = record w {
  winname = (file_at fs 0).fid;
  label = (file_at fs 1).fid;
  wctl = (file_at fs 2).fid;
  mouse = (file_at fs 3).fid;
  kbd = (file_at fs 4).fid;
}

-- A return of a handler, or none.
pub data Ended : Type 0 where
  ended : Window → Aux → Ended
  halted : Halt → Ended
