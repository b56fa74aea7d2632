-- ===== src/Start/Main.antt =====
-- `main` of wl9.c with `launch` and `fsready`: from the options to the loop, and a turn of the loop.
pub mod Watches
pub mod Begins
mod Tests
use wl.Prelude.{
  ◌+◌, ℕ, Bool, true, false, not, ◌&&◌, Option, none, some, List, [], ◌∷◌, ◌==◌, if◌then◌else◌,
  length,
}
use wl.Prelude.Int.{pos}
use wl.Fs.State.{Reply, Aux, Request, Sent}
use wl.Fs.Output.{Output, Pushed, pushed}
use wl.Fs.Wait.{Drained, all_read, fsread_r, fswrite_t}
use wl.Fs.Dispatch.{Dispatched, dispatched, fsdispatch}
use wl.Globals.{Interface, seat, data_manager, wm_base, output, decoration_manager}
use wl.Windows.{Halt}
use wl.Start.{Started, ok, err, Draw, Connection, connect}
use wl.Start.Kbmap.{keymapinit}
use wl.Start.Arguments.{Opts, parse}

-- What the system and libwayland answer: the file number of /dev/virtio-ports/term, and whether
-- the display, its event source, its socket, its shared memory and its globals are made; for
-- `launch`, whether socketpair and fcntl succeed, the client, and whether the program is started.
pub record Answers : Type 0 where
  pub terminal : Option ℕ
  pub display : Bool
  pub source : Bool
  pub socket : Bool
  pub shm : Bool
  pub global : Interface → Bool
  pub pair : Bool
  pub cloexec : Bool
  pub client : Option ℕ
  pub spawned : Bool

-- The globals, with their versions.
abbrev pub globals : List (Interface × ℕ)
globals =
    (Interface.compositor, 5)
    ∷ (seat, 5)
    ∷ (data_manager, 3)
    ∷ (wm_base, 3)
    ∷ (output, 4)
    ∷ (decoration_manager, 1)
    ∷ []

abbrev pub create_globals : (Interface → Bool) → List (Interface × ℕ) → Bool
create_globals made [] = true
create_globals made ((i, version) ∷ gs) = made i && create_globals made gs

-- From wl_display_create to the globals; `false` is a return of 1.
abbrev pub open_display : Answers → Bool
open_display x = x.display && x.source && x.socket && x.shm && create_globals x.global globals

-- The child; `none` is an exit.
unfoldable pub launch : Answers → Option ℕ
launch x = if x.pair && x.cloexec && x.spawned then x.client else none

abbrev pub open_term : Option ℕ → Opts → Option Opts
open_term terminal o = elim o.rfd [
  | some rfd ↦ some o
  | none ↦ elim terminal [
    | none ↦ none
    | some fd ↦ some (record o { rfd = some fd; wfd = some fd })
  ]
]

-- `draw` before `drawinit`.
abbrev pub new_draw : Option ℕ → Draw
new_draw datafd = record {
  ctlfid = 0;
  datafid = 0;
  datafd = datafd;
  x0 = pos 0;
  y0 = pos 0;
  x1 = pos 0;
  y1 = pos 0;
  buflen = 0;
  imgid = record { ent = [] };
}

-- The loop begins, with the keymap and the child; or `main` returns 1 or exits with 1; or none.
pub data Entered : Type 0 where
  begun : Opts → Connection → List ℕ → Option ℕ → Aux → Entered
  left : Entered
  halted : Halt → Entered

-- From the display to the loop, argv being what is left of it.
abbrev pub begin_display : Answers → List (List ℕ) → Opts → Connection → List ℕ → Aux → Entered
begin_display x argv o c keymap a =
    if open_display x
    then elim argv [
      | [] ↦ begun o c keymap none a
      | s ∷ ss ↦ elim (launch x) [ none ↦ left | some child ↦ begun o c keymap (some child) a ]
    ]
    else left

module _ (send : Request → Aux → Sent) (wide : ℕ → ℕ) (room : Aux → Bool) (why : List ℕ)
    (iounit : Reply → ℕ) (memory : ℕ → Bool) (sound tmp dup : Bool) (fuel : ℕ) (x : Answers) where
  abbrev pub with_keymap :
      List (List ℕ) → Opts → Connection → Option (Started (List ℕ)) → Option Entered
  with_keymap argv o c none = none
  with_keymap argv o c (some (ok keymap a)) = some (begin_display x argv o c keymap a)
  with_keymap argv o c (some (err a)) = some left
  with_keymap argv o c (some (Started.halted h)) = some (Entered.halted h)

  abbrev pub with_connection : List (List ℕ) → Opts → Started Connection → Option Entered
  with_connection argv o (ok c a) =
      with_keymap argv o c (keymapinit send memory sound wide room why fuel tmp dup c.root a)
  with_connection argv o (err a) = some left
  with_connection argv o (Started.halted h) = some (Entered.halted h)

  abbrev pub with_term : List (List ℕ) → Aux → Option Opts → Option Entered
  with_term argv a none = some left
  with_term argv a (some o) =
      with_connection argv o (connect send wide room why iounit (new_draw o.datafd) a)

  abbrev pub with_args : Aux → Option (Opts × List (List ℕ)) → Option Entered
  with_args a none = some left
  with_args a (some (o, argv)) = with_term argv a (open_term x.terminal o)

  -- `main` on the words behind the program's name, up to its loop; `none` is no more fuel in
  -- `keymapinit`.
  unfoldable pub begin_main : List (List ℕ) → Aux → Option Entered
  begin_main args a = with_args a (parse args (record { rfd = none; wfd = none; datafd = none }))

-- A turn of the loop: `source` is what the terminal's descriptor is watched for, `eventmask` that of
-- `term`.
pub record Watch : Type 0 where
  pub aux : Aux
  pub source : ℕ
  pub eventmask : ℕ

pub data Turned : Type 0 where
  turned : Watch → Turned
  exited : Turned
  starved : Aux → Turned
  out_of_fuel : Turned

-- WL_EVENT_READABLE is 1, WL_EVENT_WRITABLE 2.
abbrev pub wanted_for : List ℕ → ℕ
wanted_for [] = 1
wanted_for (b ∷ bs) = 3

abbrev pub wanted_mask : Output → ℕ
wanted_mask o = wanted_for o.pending

abbrev pub read_ready : Bool → Aux → Drained
read_ready true a = fsread_r a
read_ready false a = all_read a

abbrev pub written_ready : Bool → Aux → Pushed → Drained
written_ready readable a (pushed o) = read_ready readable (record a { out = o })
written_ready readable a Pushed.exited = Drained.exited
written_ready readable a (Pushed.starved o) = Drained.starved (record a { out = o })

unfoldable pub fsready : Bool → Bool → Aux → Drained
fsready true readable a = written_ready readable a (fswrite_t a)
fsready false readable a = read_ready readable a

abbrev pub update_source : Watch → Aux → Watch
update_source l a =
    let mask = wanted_mask a.out in
    record l { aux = a; source = if not (mask == l.eventmask) then mask else l.source }

module _ (call : ℕ → ℕ → Reply → Aux → Aux) where
  abbrev pub finish_turn : Watch → Dispatched → Turned
  finish_turn l (dispatched log a) = turned (update_source l a)
  finish_turn l Dispatched.exited = exited
  finish_turn l (Dispatched.starved a) = starved a
  finish_turn l Dispatched.out_of_fuel = out_of_fuel

  -- `before` and `after` are what the handlers of other events do. There is fuel for each queued reply and each event.
  abbrev pub dispatch_ready : Watch → (Aux → Aux) → Drained → Turned
  dispatch_ready l after (all_read a) =
      finish_turn l (fsdispatch call (length (after a).queue + length (after a).events) (after a))
  dispatch_ready l after Drained.exited = exited
  dispatch_ready l after (Drained.starved a) = starved a

  unfoldable pub turn_main : (Aux → Aux) → Option (Bool × Bool) → (Aux → Aux) → Watch → Turned
  unfolding fsready
  turn_main before none after l = dispatch_ready l after (all_read (before l.aux))
  turn_main before (some (writable, readable)) after l =
      dispatch_ready l after (fsready writable readable (before l.aux))
