-- ===== src/Start.antt =====
-- `termenv` and `drawinit` of wl9.c, and `main` up to the call of `drawinit`, which set up the
-- connection: what is walked to, opened and read of the terminal's files. A call of realloc or malloc
-- finds memory where `room` says so, `why` is what strerror tells where it does not, and `iounit` is
-- what an Ropen says of the size of a message's data.
pub mod Place
pub mod Numbers
pub mod Connected
pub mod Kbmap
pub mod Arguments
pub mod Main
pub mod Served
mod Tests
use wl.Prelude.{
  ℕ, zero, ◌+◌, Bool, true, false, Option, none, some, List, [], ◌∷◌, ◌++◌, length, drop, ltb, ◌==◌,
  if◌then◌else◌, set,
}
use wl.Prelude.Int.{ℤ, pos, to_int}
use wl.Libc.{codes, strtol}
use wl.Util.NumTab.{NumTab, Got, got, numget}
use wl.Fs.State.{Reply, Aux, ropen, Request, Sent}
use wl.Fs.Wait.{Waited, answer, refused, fswait}
use wl.Fs.Requests.{Outcome, done, failed, fsinit, fsattach, fswalk, fsopen, fsread, fsclunk}
use wl.Compositor.Control.{skip_blanks}
use wl.Compositor.Options.{Split, split, splitpath}
use wl.Windows.{Halt}

-- What a step of the start returns; -1, NULL or 1; or none.
pub data Started (A : Type 0) : Type 0 where
  ok : A → Aux → Started A
  err : Aux → Started A
  halted : Halt → Started A

-- The `draw` of wl9.c; `datafd` is `none` where it is -1.
pub record Draw : Type 0 where
  pub ctlfid : ℕ
  pub datafid : ℕ
  pub datafd : Option ℕ
  pub x0 : ℤ
  pub y0 : ℤ
  pub x1 : ℤ
  pub y1 : ℤ
  pub buflen : ℕ
  pub imgid : NumTab

-- A string ends at its NUL byte.
abbrev pub c_string : List ℕ → List ℕ
c_string [] = []
c_string (c ∷ s) = if c == 0 then [] else c ∷ c_string s

abbrev pub atoi : List ℕ → ℤ
atoi s = to_int (strtol s).0

-- What `drawinit` makes of the data read from /dev/draw/new: they are too short; or the write of
-- data[96] is past their end; or the connection's name and the screen's place.
pub data Screen : Type 0 where
  too_short overrun : Screen
  screen : List ℕ → ℤ → ℤ → ℤ → ℤ → Screen

unfoldable pub read_screen : List ℕ → Screen
read_screen content =
    if ltb (length content) 96
    then too_short
    else if ltb (length content) 97
    then overrun
    else let s = set content 11 0 in
      let t = set s 96 0 in
      screen (c_string (skip_blanks s)) (atoi (drop 48 t)) (atoi (drop 60 t)) (atoi (drop 72 t))
        (atoi (drop 84 t))

abbrev pub content_of : Option Reply → List ℕ
content_of none = []
content_of (some r) = r.content

-- A request's end, for a failure and for success.
abbrev pub try : {A B : Type 0} → Outcome A → (Aux → Started B) → (A → Aux → Started B) → Started B
try (done x tagp a) bad next = next x a
try (failed tagp a) bad next = bad a
try Outcome.exited bad next = Started.halted Halt.exited
try (Outcome.starved a) bad next = Started.halted (Halt.starved a)
try Outcome.stuck bad next = Started.halted Halt.stuck

-- A request whose tag was asked for, and the wait for its reply.
abbrev pub try_tag : {A B : Type 0} → Outcome A → (ℕ → Aux → Started B) → Started B
try_tag (done x none a) next = next 0 a
try_tag (done x (some t) a) next = next t a
try_tag (failed tagp a) next = err a
try_tag Outcome.exited next = Started.halted Halt.exited
try_tag (Outcome.starved a) next = Started.halted (Halt.starved a)
try_tag Outcome.stuck next = Started.halted Halt.stuck

abbrev pub waited : {B : Type 0} → Waited → (Reply → Aux → Started B) → Started B
waited (answer r a) next = next r a
waited (refused a) next = err a
waited Waited.exited next = Started.halted Halt.exited
waited (Waited.starved a) next = Started.halted (Halt.starved a)

abbrev pub then_do : {A B : Type 0} → Started A → (A → Aux → Started B) → Started B
then_do (ok x a) next = next x a
then_do (err a) next = err a
then_do (Started.halted h) next = Started.halted h

-- `main`'s `term`, before `event` is set.
pub record Connection : Type 0 where
  pub root : ℕ
  pub wsys : ℕ
  pub snarf : ℕ
  pub draw : Draw

module _ (send : Request → Aux → Sent) (wide : ℕ → ℕ) (room : Aux → Bool) (why : List ℕ) where
  abbrev pub walk_to : ℕ → List (List ℕ) → Aux → Outcome ℕ
  walk_to fid path a = fswalk send wide (room a) why false fid path a

  -- A failure behind which the file is clunked.
  abbrev pub clunk_err : {B : Type 0} → ℕ → Aux → Started B
  clunk_err fid a = try (fsclunk send fid a) err λ n a'. err a'

  abbrev pub value_of : Option Reply → Aux → Started (List ℕ)
  value_of r a = if room a then ok (content_of r ++ 0 ∷ []) a else err a

  unfoldable pub termenv : ℕ → List ℕ → Aux → Started (List ℕ)
  termenv root var a = try (walk_to root (codes "env" ∷ var ∷ []) a) err λ fid a1.
      try (fsopen send false fid 0 a1) (clunk_err fid)
        λ n a2. try (fsread send false fid 0 128 a2) (clunk_err fid) value_of

  module _ (iounit : Reply → ℕ) where
    abbrev pub with_buf : Draw → Aux → Started Draw
    with_buf d a = if room a then ok d a else err a

    -- The data file is opened, from `fswalk` on.
    abbrev pub open_data : Draw → ℕ → List ℕ → Aux → Started Draw
    open_data d root conn a =
        try (walk_to root (codes "dev" ∷ codes "draw" ∷ conn ∷ codes "data" ∷ []) a) err λ fid a1.
          try_tag (fsopen send true fid 1 a1) λ t a2. waited (fswait t ropen a2) λ r a3.
            with_buf
              (record d { datafid = fid; buflen = if iounit r == 0 then d.buflen else iounit r }) a3

    abbrev pub place_screen : Draw → ℕ → Screen → Aux → Started Draw
    place_screen d root too_short a = err a
    place_screen d root overrun a = Started.halted Halt.crashed
    place_screen d root (screen conn x0 y0 x1 y1) a =
        open_data (record d { x0 = x0; y0 = y0; x1 = x1; y1 = y1 }) root conn a

    abbrev pub open_screen : Draw → ℕ → Aux → Started Draw
    open_screen d root a =
        try (walk_to d.datafid (codes "dev" ∷ codes "draw" ∷ codes "new" ∷ []) a) err λ fid a1.
          try (fsopen send false fid 0 a1) err λ n a2.
            try (fsread send false fid 0 144 a2) err
              λ r a3. place_screen (record d { ctlfid = fid }) root (read_screen (content_of r)) a3

    abbrev pub numbered : Draw → ℕ → Got → Aux → Started Draw
    numbered d root (got num tab) a =
        let d' = record d { imgid = tab; buflen = 32768 } in
        if num == 0
        then elim d.datafd [ none ↦ open_screen d' root a | some fd ↦ with_buf d' a ]
        else err a
    numbered d root Got.failed a = err a
    numbered d root Got.stuck a = Started.halted Halt.stuck

    unfoldable pub drawinit : Draw → ℕ → Aux → Started Draw
    unfolding read_screen
    drawinit d root a = numbered d root (numget wide (room a) d.imgid) a

    abbrev pub walk_split : ℕ → Split → Aux → Started ℕ
    walk_split root (split names) a = try (walk_to root names a) err ok
    walk_split root s a = err a

    -- `main` from `fsattach` to `drawinit`; C9maxpathel is 16.
    abbrev pub attach_root : Draw → Aux → Started Connection
    attach_root d a = try (fsattach send wide (room a) [] a) err λ root a1.
        then_do (termenv root (codes "wsys") a1) λ wsys a2.
          then_do (walk_split root (splitpath 16 (c_string wsys)) a2) λ fid a3.
            try (walk_to root (codes "dev" ∷ codes "snarf" ∷ []) a3) err λ snarf a4.
              try (fsopen send false snarf 0 a4) err λ n a5.
                then_do (drawinit d root a5)
                  λ d' a6. ok (record { root = root; wsys = fid; snarf = snarf; draw = d' }) a6

    -- The result of `fsinit` is not looked at.
    unfoldable pub connect : Draw → Aux → Started Connection
    unfolding termenv drawinit
    connect d a = try (fsinit send a) (attach_root d) λ n a1. attach_root d a1
