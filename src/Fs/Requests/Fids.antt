-- ===== src/Fs/Requests/Fids.antt =====
-- What `fswalk` and `fsattach` do to the table of file numbers.
use wl.Prelude.{
  ℕ, ◌≡◌, ◌↔◌, ◌⊎◌, inl, inr, refl, sym, subst, Bool, true, false, none, some, List, ℕ_discrete,
  if◌then◌else◌,
}
use wl.Util.NumTab.{NumTab, Got, got, numget, numput}
use wl.Util.NumTab.Numbers.{IsTaken, IsNumTab, ShiftsMod64}
use wl.Util.NumTab.Alloc.{Answers, Allocates, numget-Answers, Releases, numput-Releases}
use wl.Fs.State.{Aux, put, copy_error, rattach, rwalk, Request, tattach, twalk, Sent, sent, unsent}
use wl.Fs.Wait.{Waited, answer, refused, fswait}
use wl.Fs.Wait.Answer.{Waits, fswait-Waits}
use wl.Fs.Requests.{
  Outcome, done, failed, exited, starved, stuck, notag, settle, put_fid, attach_fid, fsattach,
  walk_fid, fswalk,
}

-- The same numbers are in use.
pub record Restored (tab tab' : NumTab) : Type 0 where
  pub valid : IsNumTab tab'
  pub same : (i : ℕ) → IsTaken tab' i ↔ IsTaken tab i

-- Taking the lowest free number and giving it back.
put_back : (tab tab' : NumTab) (num : ℕ) → Allocates tab num tab' → Restored tab (put tab' num)
put_back tab tab' num al = back (numput-Releases tab' num al.valid)
  where
    both : (tab'' : NumTab) → Releases tab' num tab'' → (i : ℕ) → IsTaken tab'' i ↔ IsTaken tab i
    both tab'' r i = elim (ℕ_discrete i num) [
      | yes e ↦ rw e (λ u. absurd (r.released u), λ u. absurd (al.fresh u))
      | no ne ↦ (
        λ u. (al.others i ne).0 ((r.others i ne).0 u),
        λ u. (r.others i ne).1 ((al.others i ne).1 u),
      )
    ]

    back :
        (IsTaken tab' num
            × ((tab'' : NumTab) × (numput tab' num ≡ some tab'') × Releases tab' num tab''))
          ⊎ ((¬ IsTaken tab' num) × (numput tab' num ≡ none))
        → Restored tab (put tab' num)
    back (inl (used, (tab'', e, r))) = rw (e, put) (record { valid = r.valid; same = both tab'' r })
    back (inr (free, e)) = absurd (free al.taken)

abbrev pub SentKeeps : Aux → Sent → Type 0
SentKeeps a (sent t a') = (a'.fid ≡ a.fid) × IsNumTab a'.tag
SentKeeps a (unsent a') = (a'.fid ≡ a.fid) × IsNumTab a'.tag

-- A request leaves the table of file numbers alone, and keeps that of tags sound.
abbrev pub KeepsFids : (Request → Aux → Sent) → Type 0
KeepsFids send = (q : Request) (a : Aux) → IsNumTab a.tag → SentKeeps a (send q a)

-- The file number returned is the lowest that was not in use, and is in use now; -1 leaves the same
-- numbers in use.
abbrev pub Walks : Aux → Outcome ℕ → Type 0
Walks a (done fid tagp a') = Allocates a.fid fid a'.fid
Walks a (failed tagp a') = Restored a.fid a'.fid
Walks a exited = Unit
Walks a (starved a') = Unit
Walks a stuck = ⊥

settled :
    (a a' : Aux) (fid t kind : ℕ) (w : Waited)
    → Allocates a.fid fid a'.fid
    → Waits t kind a' w
    → Walks a (settle (λ r. fid) (put_fid fid) w)
settled a a' fid t kind (answer r a'') al (k, right, ok, free) =
    subst (λ tab. Allocates a.fid fid tab) (sym k.fid) al
settled a a' fid t kind (refused a'') al (r, k, bad, text, free) =
    subst (λ tab. Restored a.fid (put tab fid)) (sym k.fid) (put_back a.fid a'.fid fid al)
settled a a' fid t kind Waited.exited al k = tt
settled a a' fid t kind (Waited.starved a'') al k = tt

module _ (send : Request → Aux → Sent) where
  -- The file number that is lost.
  abbrev pub Loses : List ℕ → Aux → Aux → Type 0
  Loses aname a a' =
      (fid : ℕ) × (tab : NumTab) × (send (tattach fid aname) (record a { fid = tab }) ≡ unsent a')
      × Allocates a.fid fid a'.fid

  abbrev pub Attaches : List ℕ → Aux → Outcome ℕ → Type 0
  Attaches aname a (done fid tagp a') = Allocates a.fid fid a'.fid
  Attaches aname a (failed tagp a') = Restored a.fid a'.fid ⊎ Loses aname a a'
  Attaches aname a exited = Unit
  Attaches aname a (starved a') = Unit
  Attaches aname a stuck = ⊥

module _ (send : Request → Aux → Sent) (law : KeepsFids send) where
  walk_fid-Walks :
      (async : Bool) (fid : ℕ) (path : List (List ℕ)) (newfid : ℕ) (a : Aux) (tab : NumTab)
      → IsNumTab a.tag
      → Allocates a.fid newfid tab
      → Walks a (walk_fid send async fid path newfid (record a { fid = tab }))
  walk_fid-Walks async fid path newfid a tab valid al =
      step async (send (twalk fid newfid path) (record a { fid = tab }))
        (law (twalk fid newfid path) (record a { fid = tab }) valid)
    where
      step :
          (async : Bool) (s : Sent)
          → SentKeeps (record a { fid = tab }) s
          → Walks a (elim s [
            | unsent a' ↦ failed (notag async) (put_fid newfid a')
            | sent t a' ↦
                if async
                then done newfid (some t) a'
                else settle (λ r. newfid) (put_fid newfid) (fswait t rwalk a')
          ])
      step async (unsent a') (e, valid') =
          subst (λ tab'. Restored a.fid (put tab' newfid)) (sym e) (put_back a.fid tab newfid al)
      step true (sent t a') (e, valid') = subst (λ tab'. Allocates a.fid newfid tab') (sym e) al
      step false (sent t a') (e, valid') =
          settled a a' newfid t rwalk (fswait t rwalk a')
            (subst (λ tab'. Allocates a.fid newfid tab') (sym e) al)
            (fswait-Waits t rwalk a' valid')

  -- For requests that leave the table of file numbers alone and keep that of tags sound, on sound
  -- tables, where `1ul << n` counts n modulo 64: where `fswalk` returns a file number, at once or
  -- after the reply, it is the lowest one that was not in use, and the only one that is in use
  -- now and was not; where it returns -1, from any of its errors, the same numbers are in use as
  -- before.
  pub fswalk-Walks :
      (wide : ℕ → ℕ) (room : Bool) (why : List ℕ) (async : Bool) (fid : ℕ) (path : List (List ℕ))
      (a : Aux)
      → ShiftsMod64 wide
      → IsNumTab a.fid
      → IsNumTab a.tag
      → Walks a (fswalk send wide room why async fid path a)
  unfolding fswalk
  fswalk-Walks wide room why async fid path a shifts fids tags =
      step (numget wide room a.fid) (numget-Answers wide shifts room a.fid fids)
    where
      step :
          (g : Got)
          → Answers room a.fid g
          → Walks a (elim g [
            | got newfid tab ↦ walk_fid send async fid path newfid (record a { fid = tab })
            | Got.failed ↦ failed (notag async) (copy_error why a)
            | Got.stuck ↦ Outcome.stuck
          ])
      step g (inl (num, tab, e, al)) = rw e (walk_fid-Walks async fid path num a tab tags al)
      step g (inr (e, none_, full)) = rw e (record { valid = fids; same = λ i. (λ u. u, λ u. u) })

  restored : (aname : List ℕ) (a : Aux) (o : Outcome ℕ) → Walks a o → Attaches send aname a o
  restored aname a (done fid tagp a') w = w
  restored aname a (failed tagp a') w = inl w
  restored aname a exited w = tt
  restored aname a (starved a') w = tt
  restored aname a stuck w = w

  attach_fid-Attaches :
      (aname : List ℕ) (fid : ℕ) (a : Aux) (tab : NumTab)
      → IsNumTab a.tag
      → Allocates a.fid fid tab
      → Attaches send aname a (attach_fid send aname fid (record a { fid = tab }))
  attach_fid-Attaches aname fid a tab valid al =
      step (send (tattach fid aname) (record a { fid = tab })) refl
        (law (tattach fid aname) (record a { fid = tab }) valid)
    where
      step :
          (s : Sent)
          → send (tattach fid aname) (record a { fid = tab }) ≡ s
          → SentKeeps (record a { fid = tab }) s
          → Attaches send aname a (elim s [
            | unsent a' ↦ failed none a'
            | sent t a' ↦ settle (λ r. fid) (put_fid fid) (fswait t rattach a')
          ])
      step (unsent a') q (e, valid') =
          inr (fid, tab, q, subst (λ tab'. Allocates a.fid fid tab') (sym e) al)
      step (sent t a') q (e, valid') = restored aname a _ (
          settled a a' fid t rattach (fswait t rattach a')
            (subst (λ tab'. Allocates a.fid fid tab') (sym e) al)
            (fswait-Waits t rattach a' valid'))

  -- For requests that leave the table of file numbers alone and keep that of tags sound, on sound
  -- tables, where `1ul << n` counts n modulo 64: `fsattach` that returns a file number returns
  -- the lowest that was not in use and takes it; where it returns -1 the same numbers are in use
  -- as before, unless it was c9attach that failed: then the number that was taken stays in use.
  pub fsattach-Attaches :
      (wide : ℕ → ℕ) (room : Bool) (aname : List ℕ) (a : Aux)
      → ShiftsMod64 wide
      → IsNumTab a.fid
      → IsNumTab a.tag
      → Attaches send aname a (fsattach send wide room aname a)
  unfolding fsattach
  fsattach-Attaches wide room aname a shifts fids tags =
      step (numget wide room a.fid) (numget-Answers wide shifts room a.fid fids)
    where
      step :
          (g : Got)
          → Answers room a.fid g
          → Attaches send aname a (elim g [
            | got fid tab ↦ attach_fid send aname fid (record a { fid = tab })
            | Got.failed ↦ failed none a
            | Got.stuck ↦ Outcome.stuck
          ])
      step g (inl (num, tab, e, al)) = rw e (attach_fid-Attaches aname num a tab tags al)
      step g (inr (e, none_, full)) =
          rw e (inl (record { valid = fids; same = λ i. (λ u. u, λ u. u) }))
