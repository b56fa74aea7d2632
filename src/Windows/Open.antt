-- ===== src/Windows/Open.antt =====
-- `winnew` of wl9.c, which opens a window's files on the 9P connection. `wctl` is `wctlread`, which
-- gets the first message of the wctl file; a call of realloc finds memory where `room` says so, and
-- `why` is what strerror tells where it does not.
use wl.Prelude.{
  ℕ, ◌-◌, Bool, true, false, Option, none, some, List, [], ◌∷◌, ◌++◌, length, replicate, ◌==◌,
  if◌then◌else◌,
}
use wl.Libc.{codes}
use wl.Libc.Decimal.{decimal}
use wl.Fs.State.{Reply, Aux, rwalk, ropen, rread, rerror, Request, Sent}
use wl.Fs.Wait.{Waited, answer, refused, fswait}
use wl.Fs.Tags.{fsasync}
use wl.Fs.Dispatch.{Flushed, flushed, unflushed, fsflush}
use wl.Fs.Requests.{Outcome, done, failed, put_fid, fsattach, fswalk, fsopen, fsread, fsclunk}
use wl.Windows.{
  Window, Term, File, files, fid_number, Halt, Turn, went, Run, ran, each, then_each, stored_tag,
  file_at, store, Ended, ended,
}

-- 0, with the window; -1; or none.
pub data Opened : Type 0 where
  opened unopened : Window → Term → Aux → Opened
  halted : Halt → Opened

-- The first loop: the walk's request is sent.
abbrev pub walked : File → Outcome ℕ → Turn
walked f (done fid tagp a) =
    went (record f { fid = some fid; tag = stored_tag f.tag tagp; clunk = false }) a
walked f (failed tagp a) =
    Turn.broke (record f { fid = none; tag = stored_tag f.tag tagp; clunk = false }) a
walked f Outcome.exited = Turn.halted Halt.exited
walked f (Outcome.starved a) = Turn.halted (Halt.starved a)
walked f Outcome.stuck = Turn.halted Halt.stuck

-- A request whose tag is stored in the file.
abbrev pub tagged_file : {A : Type 0} → File → Outcome A → (File → Aux → Turn) → Turn
tagged_file f (done x tagp a) next = next (record f { tag = stored_tag f.tag tagp }) a
tagged_file f (failed tagp a) next = Turn.broke (record f { tag = stored_tag f.tag tagp }) a
tagged_file f Outcome.exited next = Turn.halted Halt.exited
tagged_file f (Outcome.starved a) next = Turn.halted (Halt.starved a)
tagged_file f Outcome.stuck next = Turn.halted Halt.stuck

-- A call of `fswait` in a loop.
abbrev pub answered_file : File → Waited → (Reply → Aux → Turn) → Turn
answered_file f (answer r a) next = next r a
answered_file f (refused a) next = Turn.broke f a
answered_file f Waited.exited next = Turn.halted Halt.exited
answered_file f (Waited.starved a) next = Turn.halted (Halt.starved a)

-- `fsasync`, where the file has a callback.
abbrev pub call_back : ℕ → File → Aux → Turn
call_back w f a = elim f.readcb [
  | none ↦ went f a
  | some fn ↦ elim (fsasync f.tag fn w a) [ none ↦ Turn.halted Halt.crashed | some a' ↦ went f a' ]
]

-- `snprintf(aname, sizeof aname, "%11d new", term.wsys)`
unfoldable pub attach_name : ℕ → List ℕ
attach_name n = let s = decimal 10 n in (replicate (11 - length s) b' ' ++ s) ++ codes " new"

abbrev pub is_child : ℕ → Option ℕ → Bool
is_child client none = false
is_child client (some c) = client == c

-- `numput`, which refuses -1.
abbrev pub put_file : Option ℕ → Aux → Aux
put_file none a = a
put_file (some fid) a = put_fid fid a

pub data Undone : Type 0 where
  undone : List File → Aux → Undone
  halted : Halt → Undone

abbrev pub with_undone : File → Undone → Undone
with_undone f (undone fs a) = undone (f ∷ fs) a
with_undone f (Undone.halted h) = Undone.halted h

-- What follows a call whose result is not looked at.
module _ {R : Type 0} (halt : Halt → R) where
  abbrev pub after : {A : Type 0} → Outcome A → (Aux → R) → R
  after (done x tagp a) next = next a
  after (failed tagp a) next = next a
  after Outcome.exited next = halt Halt.exited
  after (Outcome.starved a) next = halt (Halt.starved a)
  after Outcome.stuck next = halt Halt.stuck

  abbrev pub after_flush : Flushed → (Aux → R) → R
  after_flush (flushed a) next = next a
  after_flush (unflushed a) next = next a
  after_flush Flushed.exited next = halt Halt.exited
  after_flush (Flushed.starved a) next = halt (Halt.starved a)

module _ (send : Request → Aux → Sent) where
  unfoldable pub open_turn : File → Aux → Turn
  open_turn f a = answered_file f (fswait f.tag rwalk a) λ r a'.
      tagged_file (record f { clunk = true }) (fsopen send true (fid_number f.fid) f.mode a')
        λ f' a''. went f' a''

  unfoldable pub read_turn : ℕ → File → Aux → Turn
  read_turn w f a = answered_file f (fswait f.tag ropen a) λ r a'.
      let f' = record f { flush = false } in
      if r.kind == rerror
      then Turn.broke f' a'
      else if f.readsz == 0
      then went f' a'
      else tagged_file f' (fsread send true (fid_number f.fid) 0 f.readsz a') (call_back w)

  -- The loop behind `error`.
  abbrev pub clunk_file : File → Aux → (Aux → Undone) → Undone
  clunk_file f a next =
      if f.clunk then after Undone.halted (fsclunk send (fid_number f.fid) a) next else next a

  abbrev pub flush_file : File → Aux → (Aux → Undone) → Undone
  flush_file f a next =
      if f.flush then after_flush Undone.halted (fsflush send f.tag a) next else next a

  unfoldable pub undo : List File → Aux → Undone
  undo [] a = undone [] a
  undo (f ∷ fs) a =
      flush_file f (put_file f.fid a)
        λ a'. clunk_file f a' λ a''. with_undone (record f { fid = none }) (undo fs a'')

  abbrev pub closed : Window → Term → Undone → Opened
  closed w term (undone fs a) = unopened (store fs (record w { wsys = none })) term a
  closed w term (Undone.halted h) = Opened.halted h

  -- `error:`
  unfoldable pub fail : List File → Window → Term → Aux → Opened
  unfolding undo
  fail fs w term a =
      after Opened.halted (fsclunk send (fid_number w.wsys) a) λ a'. closed w term (undo fs a')

  module _ (wide : ℕ → ℕ) (room : Aux → Bool) (why : List ℕ) where
    unfoldable pub walk_turn : ℕ → File → Aux → Turn
    walk_turn wsys f a = walked f (fswalk send wide (room a) why true wsys (f.name ∷ []) a)

    -- The three loops, from the file number of wsys.
    unfoldable pub open_files : ℕ → ℕ → List File → Aux → Run
    unfolding walk_turn open_turn read_turn
    open_files w wsys fs a =
        then_each (read_turn w) (then_each open_turn (each (walk_turn wsys) fs a))

    module _ (wctl : Reply → Window → Aux → Ended) where
      abbrev pub told : List File → Term → Ended → Opened
      told fs term (ended w a) =
          opened (record w { mousetag = (file_at fs 3).tag; kbdtag = (file_at fs 4).tag }) term a
      told fs term (Ended.halted h) = Opened.halted h

      abbrev pub first_wctl : List File → Window → Term → Waited → Opened
      first_wctl fs w term (answer r a) = told fs term (wctl r (store fs w) a)
      first_wctl fs w term (refused a) = fail fs w term a
      first_wctl fs w term Waited.exited = Opened.halted Halt.exited
      first_wctl fs w term (Waited.starved a) = Opened.halted (Halt.starved a)

      abbrev pub concluded : Window → Term → Run → Opened
      concluded w term (ran fs a) = first_wctl fs w term (fswait (file_at fs 2).tag rread a)
      concluded w term (Run.broke fs a) = fail fs w term a
      concluded w term (Run.halted h) = Opened.halted h

      abbrev pub rooted : Window → Term → Outcome ℕ → Opened
      rooted w term (done fid tagp a) =
          let w' = record w { wsys = some fid; image = none } in
          concluded w' term (open_files w.id fid (files w') a)
      rooted w term (failed tagp a) = unopened (record w { wsys = none }) term a
      rooted w term Outcome.exited = Opened.halted Halt.exited
      rooted w term (Outcome.starved a) = Opened.halted (Halt.starved a)
      rooted w term Outcome.stuck = Opened.halted Halt.stuck

      abbrev pub adopted : Term → Outcome ℕ → Term
      adopted term (done fid tagp a) = record term { child = none }
      adopted term o = term

      -- The started client's first window is the one that wl9 runs in; others are made anew.
      unfoldable pub winnew : Window → Term → Aux → Opened
      unfolding fail open_files attach_name
      winnew w term a =
          let walk = fswalk send wide (room a) why false term.root (codes "dev" ∷ []) a in
          let attach = fsattach send wide (room a) (attach_name term.wsys) a in
          if is_child w.client term.child
          then rooted w (adopted term walk) walk
          else rooted w term attach
