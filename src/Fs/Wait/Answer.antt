-- ===== src/Fs/Wait/Answer.antt =====
-- What `fswait` returns, and what it leaves.
use wl.Prelude.{ℕ, ◌≡◌, ◌≢◌, refl, subst, inl, inr, true, ◌==◌, arith, take, Bool-cases}
use wl.Util.NumTab.Numbers.{IsTaken, IsNumTab}
use wl.Fs.Output.{Output, Pushed, pushed, write9p}
use wl.Fs.State.{Reply, Aux, rerror, put, freetag, copy_error}
use wl.Fs.Wait.Queue.{Takes, retake, Finds, look_for-Finds}
use wl.Fs.Wait.Freed.{put_lem}
use wl.Fs.Wait.{Found, found, look_for, Waited, answer, refused, conclude, fswait}

-- The reply is the one that `Takes` describes, it is an Rerror where it is refused and has the type
-- asked for where it is an answer, and its tag is free again.
abbrev pub Waits : ℕ → ℕ → Aux → Waited → Type 0
Waits t kind a (answer r a') =
    Takes t a r a' × (r.kind ≡ kind) × (r.kind ≢ rerror) × (¬ IsTaken a'.tag t)
Waits t kind a (refused a') =
    (r : Reply) × Takes t a r a'
    × (r.kind ≡ rerror)
    × (a'.err ≡ take 127 r.text)
    × (¬ IsTaken a'.tag t)
Waits t kind a Waited.exited = Unit
Waits t kind a (Waited.starved a') = Unit

conclude-Waits : (t kind : ℕ) (a : Aux) (f : Found) → Finds t a f → Waits t kind a (conclude kind f)
unfolding conclude
conclude-Waits t kind a (found r a') k = elim (Bool-cases (r.kind == rerror)) [
  | inl e ↦ rw e (
    r,
    retake t a a r a' (copy_error r.text (freetag r.tag a')) refl refl refl refl refl refl refl refl
        valid k,
    ground (arith, e),
    refl,
    free,
  )
  | inr ne ↦ elim (Bool-cases (r.kind == kind)) [
    | inl e ↦
        rw (ne, e)
          (
            retake t a a r a' (freetag r.tag a') refl refl refl refl refl refl refl refl valid k,
            ground (arith, e),
            ground (arith, ne),
            free,
          )
    | inr other ↦ rw (ne, other) tt
  ]
]
  where
    valid : IsNumTab (put a'.tag r.tag)
    valid = (put_lem a'.tag r.tag k.tags).0

    free : ¬ IsTaken (put a'.tag r.tag) t
    free = subst (λ n. ¬ IsTaken (put a'.tag r.tag) n) k.wanted (put_lem a'.tag r.tag k.tags).1
conclude-Waits t kind a Found.exited k = tt
conclude-Waits t kind a (Found.starved a') k = tt

-- On a sound table of tags, whatever events come: where `fswait` returns a reply, it is the first
-- in the queue with the tag or else, where none there has it, the first with it to arrive, and it has the type asked for;
-- it returns NULL for an Rerror only, with the text copied to err; the other replies stay queued
-- in their order, those that arrived meanwhile in front; the tag is free again; fids and
-- callbacks are as before.
pub fswait-Waits : (t kind : ℕ) (a : Aux) → IsNumTab a.tag → Waits t kind a (fswait t kind a)
unfolding fswait
fswait-Waits t kind a h = step (write9p true a.out)
  where
    moved : (o : Output) (w : Waited) → Waits t kind (record a { out = o }) w → Waits t kind a w
    moved o (answer r a') (k, kind_, ok, free) = (
      retake t (record a { out = o }) a r a' a' refl refl refl refl refl refl refl refl k.tags k,
      kind_,
      ok,
      free,
    )
    moved o (refused a') (r, k, kind_, text, free) = (
      r,
      retake t (record a { out = o }) a r a' a' refl refl refl refl refl refl refl refl k.tags k,
      kind_,
      text,
      free,
    )
    moved o Waited.exited k = tt
    moved o (Waited.starved a') k = tt

    step :
        (p : Pushed)
        → Waits t kind a (elim p [
          | pushed o ↦ conclude kind (look_for t (record a { out = o }))
          | Pushed.exited ↦ Waited.exited
          | Pushed.starved o ↦ Waited.starved (record a { out = o })
        ])
    step (pushed o) = moved o (conclude kind (look_for t (record a { out = o }))) (
        conclude-Waits t kind (record a { out = o }) (look_for t (record a { out = o }))
          (look_for-Finds t (record a { out = o }) h))
    step Pushed.exited = tt
    step (Pushed.starved o) = tt
