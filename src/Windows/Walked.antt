-- ===== src/Windows/Walked.antt =====
-- What the calls of `fswalk` and `fsattach` in `winnew` leave: the callbacks, and, after the loop, the
-- numbers that the files got.
use wl.Prelude.{ℕ, ◌≡◌, refl, ◌∙◌, Bool, true, false, none, some, List, if◌then◌else◌}
use wl.Util.NumTab.{NumTab, Got, got, numget}
use wl.Util.NumTab.Numbers.{IsNumTab}
use wl.Fs.State.{
  Reply, Aux, copy_error, rattach, rwalk, Request, tattach, twalk, Sent, sent, unsent,
}
use wl.Fs.Wait.{Waited, answer, refused, fswait}
use wl.Fs.Tags.Fresh.{callback_of}
use wl.Fs.Requests.{
  Outcome, done, failed, notag, settle, put_fid, attach_fid, fsattach, walk_fid, fswalk,
}
use wl.Windows.Kept.{Kept, KeptSent, KeepsTables, KeptWait, fswait-Kept}

-- The callbacks are the same, and the table of tags is sound.
pub record KeptTags (a a' : Aux) : Type 0 where
  pub callbacks : (i : ℕ) → callback_of a' i ≡ callback_of a i
  pub tags : IsNumTab a'.tag

abbrev pub TagsOutcome : {A : Type 0} → Aux → Outcome A → Type 0
TagsOutcome a (done x tagp a') = KeptTags a a'
TagsOutcome a (failed tagp a') = KeptTags a a'
TagsOutcome a Outcome.exited = Unit
TagsOutcome a (Outcome.starved a') = Unit
TagsOutcome a Outcome.stuck = Unit

after_tags : (a b c : Aux) → KeptTags a b → Kept b c → KeptTags a c
after_tags a b c k l = record { callbacks = λ i. l.callbacks i ∙ k.callbacks i; tags = l.tags }

settle_tags :
    {A : Type 0}
    → (f : Reply → A) (fid : ℕ) (a b : Aux) (w : Waited) → KeptTags a b
    → KeptWait b w
    → TagsOutcome a (settle f (put_fid fid) w)
settle_tags f fid a b (answer r c) k l = after_tags a b c k l
settle_tags f fid a b (refused c) k l =
    let m = after_tags a b c k l in record { callbacks = m.callbacks; tags = m.tags }
settle_tags f fid a b Waited.exited k l = tt
settle_tags f fid a b (Waited.starved c) k l = tt

module _ (send : Request → Aux → Sent) (law : KeepsTables send) where
  walk_fid-tags :
      (async : Bool) (fid : ℕ) (path : List (List ℕ)) (newfid : ℕ) (a : Aux) (tab : NumTab)
      → IsNumTab a.tag
      → TagsOutcome a (walk_fid send async fid path newfid (record a { fid = tab }))
  walk_fid-tags async fid path newfid a tab h =
      step async (send (twalk fid newfid path) (record a { fid = tab }))
        (law (twalk fid newfid path) (record a { fid = tab }) h)
    where
      step :
          (async : Bool) (s : Sent)
          → KeptSent (record a { fid = tab }) s
          → TagsOutcome a (elim s [
            | unsent a' ↦ failed (notag async) (put_fid newfid a')
            | sent t a' ↦
                if async
                then done newfid (some t) a'
                else settle (λ r. newfid) (put_fid newfid) (fswait t rwalk a')
          ])
      step async (unsent b) k = record { callbacks = k.callbacks; tags = k.tags }
      step true (sent t b) k = record { callbacks = k.callbacks; tags = k.tags }
      step false (sent t b) k =
          settle_tags (λ r. newfid) newfid a b (fswait t rwalk b)
            (record { callbacks = k.callbacks; tags = k.tags }) (fswait-Kept t rwalk b k.tags)

  pub fswalk-tags :
      (wide : ℕ → ℕ) (room : Bool) (why : List ℕ) (async : Bool) (fid : ℕ) (path : List (List ℕ))
      (a : Aux)
      → IsNumTab a.tag
      → TagsOutcome a (fswalk send wide room why async fid path a)
  unfolding fswalk
  fswalk-tags wide room why async fid path a h = step (numget wide room a.fid)
    where
      step :
          (g : Got)
          → TagsOutcome a (elim g [
            | got newfid tab ↦ walk_fid send async fid path newfid (record a { fid = tab })
            | Got.failed ↦ failed (notag async) (copy_error why a)
            | Got.stuck ↦ Outcome.stuck
          ])
      step (got newfid tab) = walk_fid-tags async fid path newfid a tab h
      step Got.failed = record { callbacks = λ i. refl; tags = h }
      step Got.stuck = tt

  attach_fid-tags :
      (aname : List ℕ) (fid : ℕ) (a : Aux) (tab : NumTab)
      → IsNumTab a.tag
      → TagsOutcome a (attach_fid send aname fid (record a { fid = tab }))
  attach_fid-tags aname fid a tab h =
      step (send (tattach fid aname) (record a { fid = tab }))
        (law (tattach fid aname) (record a { fid = tab }) h)
    where
      step :
          (s : Sent)
          → KeptSent (record a { fid = tab }) s
          → TagsOutcome a (elim s [
            | unsent a' ↦ failed none a'
            | sent t a' ↦ settle (λ r. fid) (put_fid fid) (fswait t rattach a')
          ])
      step (unsent b) k = record { callbacks = k.callbacks; tags = k.tags }
      step (sent t b) k =
          settle_tags (λ r. fid) fid a b (fswait t rattach b)
            (record { callbacks = k.callbacks; tags = k.tags }) (fswait-Kept t rattach b k.tags)

  pub fsattach-tags :
      (wide : ℕ → ℕ) (room : Bool) (aname : List ℕ) (a : Aux)
      → IsNumTab a.tag
      → TagsOutcome a (fsattach send wide room aname a)
  unfolding fsattach
  fsattach-tags wide room aname a h = step (numget wide room a.fid)
    where
      step :
          (g : Got)
          → TagsOutcome a (elim g [
            | got fid tab ↦ attach_fid send aname fid (record a { fid = tab })
            | Got.failed ↦ failed none a
            | Got.stuck ↦ Outcome.stuck
          ])
      step (got fid tab) = attach_fid-tags aname fid a tab h
      step Got.failed = record { callbacks = λ i. refl; tags = h }
      step Got.stuck = tt
