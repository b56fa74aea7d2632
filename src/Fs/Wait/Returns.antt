-- ===== src/Fs/Wait/Returns.antt =====
-- When `fswait` returns.
use wl.Prelude.{
  ℕ, ◌≤◌, length, ◌≡◌, ◌≢◌, refl, inl, inr, true, false, Option, none, some, List, [], ◌∷◌, ◌==◌,
  if◌then◌else◌, arith, Bool-cases, Option-cases,
}
use wl.Fs.Output.{Output, pushed, write9p}
use wl.Fs.Output.Order.{taken, write9p-sends}
use wl.Fs.State.{Reply, Event, replied, drained, failed, Aux, rerror, freetag}
use wl.Fs.Wait.{Found, found, unqueue, wait_loop, look_for, answer, conclude, fswait}

-- The reply that a wait for the tag gets: a queued one, or the first to come before a failure.
abbrev pub arriving : ℕ → List Event → Option Reply
arriving t [] = none
arriving t (replied freed false r ∷ events) = none
arriving t (replied freed true r ∷ events) = if r.tag == t then some r else arriving t events
arriving t (drained false ∷ events) = none
arriving t (drained true ∷ events) = arriving t events
arriving t (failed s ∷ events) = none

abbrev pub expected : ℕ → List Reply → List Event → Option Reply
expected t queue events = elim (unqueue t queue) [
  | some (r, rest) ↦ some r
  | none ↦ arriving t events
]

abbrev IsFound : Reply → Found → Type 0
IsFound r (found r' a) = r' ≡ r
IsFound r Found.exited = ⊥
IsFound r (Found.starved a) = ⊥

wait_loop-IsFound :
    (t : ℕ) (events : List Event) (a : Aux) (r : Reply)
    → arriving t events ≡ some r
    → IsFound r (wait_loop t events a)
unfolding wait_loop
wait_loop-IsFound t [] a r e = absurd (ground (arith, e))
wait_loop-IsFound t (replied freed false r' ∷ events) a r e = absurd (ground (arith, e))
wait_loop-IsFound t (replied freed true r' ∷ events) a r e = elim (Bool-cases (r'.tag == t)) [
  | inl here ↦ rw here (ground (arith, here, e))
  | inr other ↦ rw other (wait_loop-IsFound t events _ r (ground (arith, other, e)))
]
wait_loop-IsFound t (drained false ∷ events) a r e = absurd (ground (arith, e))
wait_loop-IsFound t (drained true ∷ events) a r e = wait_loop-IsFound t events _ r e
wait_loop-IsFound t (failed s ∷ events) a r e = absurd (ground (arith, e))

look_for-IsFound :
    (t : ℕ) (a : Aux) (r : Reply) → expected t a.queue a.events ≡ some r → IsFound r (look_for t a)
unfolding look_for
look_for-IsFound t a r e = elim (Option-cases (unqueue t a.queue)) [
  | inl gone ↦ rw (gone, look_for) (wait_loop-IsFound t a.events _ r (ground (arith, gone, e)))
  | inr ((r', rest), here) ↦ rw (here, look_for) (ground (arith, here, e))
]

found_lem : (f : Found) (r : Reply) → IsFound r f → (a : Aux) × (f ≡ found r a)
found_lem (found r' a) r h = (a, rw h refl)
found_lem Found.exited r h = absurd h
found_lem (Found.starved a) r h = absurd h

fswait_step :
    (t kind : ℕ) (a : Aux) (o : Output) (r : Reply) (a' : Aux)
    → write9p true a.out ≡ pushed o
    → look_for t (record a { out = o }) ≡ found r a'
    → r.kind ≡ kind
    → r.kind ≢ rerror
    → fswait t kind a ≡ answer r (freetag r.tag a')
unfolding conclude fswait
fswait_step t kind a o r a' e e' right ok = rw (e, fswait) (rw e' (ground (arith, right, ok)))

-- Where write takes what waits to be written, and a reply with the tag is queued or comes before a
-- failure, and it has the type asked for, `fswait` returns it.
pub fswait-returns :
    (t kind : ℕ) (a : Aux) (r : Reply)
    → length a.out.pending ≤ taken a.out.answers
    → expected t a.queue a.events ≡ some r
    → r.kind ≡ kind
    → r.kind ≢ rerror
    → (a' : Aux) × (fswait t kind a ≡ answer r a')
fswait-returns t kind a r enough e right ok =
    let (o, written, sent_, empty) = write9p-sends a.out enough in
    let (a', there) =
      found_lem (look_for t (record a { out = o })) r
        (look_for-IsFound t (record a { out = o }) r e) in
    (freetag r.tag a', fswait_step t kind a o r a' written there right ok)
