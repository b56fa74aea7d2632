-- ===== src/Fs/Requests.antt =====
-- `fsinit`, `fsattach`, `fswalk`, `fsopen`, `fsread`, `fswrite` and `fsclunk` of fs.c. `send` is the
-- c9 library's function for each request; a file number is a value of `fid`.
pub mod Fids
pub mod Replies
use wl.Prelude.{
  ℕ, zero, Bool, true, false, Option, none, some, List, [], ◌∷◌, length, if◌then◌else◌,
}
use wl.Util.NumTab.{NumTab, Got, got, numget}
use wl.Fs.Output.{Output, bufsize}
use wl.Fs.State.{
  Reply, Aux, put, copy_error, rversion, rattach, rwalk, ropen, rread, rwrite, rclunk, Request,
  tversion, tattach, twalk, topen, tread, twrite, tclunk, Sent, sent, unsent,
}
use wl.Fs.Wait.{Waited, answer, refused, fswait}

-- What is returned and what is stored in `*tagp`, or -1 with what is stored; `exit(1)`; a wait that
-- does not end; a `numget` that does not end.
pub data Outcome (A : Type 0) : Type 0 where
  done : A → Option ℕ → Aux → Outcome A
  failed : Option ℕ → Aux → Outcome A
  exited : Outcome A
  starved : Aux → Outcome A
  stuck : Outcome A

-- NOTAG is stored where tagp is not NULL.
abbrev pub notag : Bool → Option ℕ
notag async = if async then some 0xffff else none

-- The end of a request whose tag was not asked for.
abbrev pub settle : {A : Type 0} → (Reply → A) → (Aux → Aux) → Waited → Outcome A
settle f undo (answer r a) = done (f r) none a
settle f undo (refused a) = failed none (undo a)
settle f undo Waited.exited = exited
settle f undo (Waited.starved a) = starved a

abbrev pub put_fid : ℕ → Aux → Aux
put_fid fid a = record a { fid = put a.fid fid }

module _ (send : Request → Aux → Sent) where
  -- The common course of `fsopen`, `fsread`, `fswrite` and, with tagp NULL, of `fsversion` and
  -- `fsclunk`.
  abbrev pub request : {A : Type 0} → Request → ℕ → Bool → A → (Reply → A) → Aux → Outcome A
  request q kind async now f a = elim (send q a) [
    | unsent a' ↦ failed (notag async) a'
    | sent t a' ↦ if async then done now (some t) a' else settle f (λ a''. a'') (fswait t kind a')
  ]

  unfoldable pub fsversion : ℕ → Aux → Outcome ℕ
  fsversion msize a = request (tversion msize) rversion false 0 (λ r. 0) a

  -- tag and fid are not set: the program's are zeroed, being static.
  unfoldable pub fsinit : Aux → Outcome ℕ
  unfolding fsversion
  fsinit a =
      fsversion bufsize
        (record a { out = record a.out { wpos = 0; pending = [] }; queue = []; cb = [] })

  unfoldable pub fsopen : Bool → ℕ → ℕ → Aux → Outcome ℕ
  fsopen async fid mode a = request (topen fid mode) ropen async 0 (λ r. 0) a

  unfoldable pub fsread : Bool → ℕ → ℕ → ℕ → Aux → Outcome (Option Reply)
  fsread async fid off len a = request (tread fid off len) rread async none (λ r. some r) a

  unfoldable pub fswrite : Bool → ℕ → ℕ → List ℕ → Aux → Outcome ℕ
  fswrite async fid off buf a = request (twrite fid off buf) rwrite async 0 (λ r. 0) a

  unfoldable pub fsclunk : ℕ → Aux → Outcome ℕ
  fsclunk fid a = request (tclunk fid) rclunk false 0 (λ r. 0) a

  abbrev pub attach_fid : List ℕ → ℕ → Aux → Outcome ℕ
  attach_fid aname fid a = elim (send (tattach fid aname) a) [
    | unsent a' ↦ failed none a'
    | sent t a' ↦ settle (λ r. fid) (put_fid fid) (fswait t rattach a')
  ]

  abbrev pub walk_fid : Bool → ℕ → List (List ℕ) → ℕ → Aux → Outcome ℕ
  walk_fid async fid path newfid a = elim (send (twalk fid newfid path) a) [
    | unsent a' ↦ failed (notag async) (put_fid newfid a')
    | sent t a' ↦
        if async
        then done newfid (some t) a'
        else settle (λ r. newfid) (put_fid newfid) (fswait t rwalk a')
  ]

  module _ (wide : ℕ → ℕ) where
    -- `room` says whether `numget` finds memory.
    unfoldable pub fsattach : Bool → List ℕ → Aux → Outcome ℕ
    fsattach room aname a = elim (numget wide room a.fid) [
      | got fid tab ↦ attach_fid aname fid (record a { fid = tab })
      | Got.failed ↦ failed none a
      | Got.stuck ↦ Outcome.stuck
    ]

    -- `why` is strerror(errno) where `numget` fails.
    unfoldable pub fswalk : Bool → List ℕ → Bool → ℕ → List (List ℕ) → Aux → Outcome ℕ
    fswalk room why async fid path a = elim (numget wide room a.fid) [
      | got newfid tab ↦ walk_fid async fid path newfid (record a { fid = tab })
      | Got.failed ↦ failed (notag async) (copy_error why a)
      | Got.stuck ↦ Outcome.stuck
    ]
