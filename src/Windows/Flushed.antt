-- ===== src/Windows/Flushed.antt =====
-- What `fsflush` leaves of the callbacks and of the file numbers.
use wl.Prelude.{
  sym, ℕ, zero, suc, ◌≡◌, ◌≢◌, inl, inr, refl, ap, subst, ◌∙◌, true, false, none, some, List, [],
  ◌∷◌, length, ltb, if◌then◌else◌, set, arith, Bool-cases, ℕ_discrete,
}
use wl.Prelude
use wl.Util.NumTab.Numbers.{IsNumTab}
use wl.Fs.State.{Callback, no_callback, Aux, rflush, Request, tflush, Sent, sent, unsent, freetag}
use wl.Fs.Wait.{Waited, answer, refused, fswait}
use wl.Fs.Wait.Freed.{put_lem}
use wl.Fs.Tags.Fresh.{callback_of}
use wl.Fs.Dispatch.{Flushed, flushed, unflushed, clear, clear_callback, forget, fsflush}
use wl.Windows.Kept.{Kept, KeptSent, KeepsTables, KeptWait, fswait-Kept, Kept-trans}
use wl.Windows.Loops.{Calls}
use wl.Windows.Turns.{Kept-Calls, set_here}
use wl.Fs.Dispatch.Order.{set_at}

-- No callback is added, and the one of the tag t is gone.
pub record Drops (t : ℕ) (a a' : Aux) : Type 0 where
  pub fid : a'.fid ≡ a.fid
  pub tags : IsNumTab a'.tag
  pub calls : (v : Callback) (i : ℕ) → Calls a' v i → Calls a v i × (i ≢ t)

module _ (send : Request → Aux → Sent) where
  abbrev pub FlushDrops : ℕ → Aux → Flushed → Type 0
  FlushDrops t a (flushed a') = Drops t a a'
  FlushDrops t a (unflushed a') = Kept a a' × (send (tflush t) a ≡ unsent a')
  FlushDrops t a Flushed.exited = Unit
  FlushDrops t a (Flushed.starved a') = Unit

beyond :
    (cb : List Callback) (t : ℕ)
    → ltb t (length cb) ≡ false
    → (Prelude.get_or cb t no_callback).fn ≡ none
beyond [] t h = refl
beyond (c ∷ cb) zero h = absurd (ground (arith, h))
beyond (c ∷ cb) (suc t) h = beyond cb t (ground (arith, h))

pub cleared-Calls :
    (t : ℕ) (a : Aux) (v : Callback) (i : ℕ)
    → Calls (clear_callback t a) v i
    → Calls a v i × (i ≢ t)
cleared-Calls t a v i = elim (Bool-cases (ltb t (length a.cb))) [
  | inl place ↦ rw place (inside place)
  | inr no_place ↦ rw no_place (λ c. (
    c,
    λ e. c.0 (
        ap (λ (k : Callback). k.fn) (sym c.1)
        ∙ (ap (λ j. (callback_of a j).fn) e ∙ beyond a.cb t no_place)),
  ))
]
  where
    inside :
        ltb t (length a.cb) ≡ true
        → Calls (record a { cb = set a.cb t (clear (Prelude.get_or a.cb t no_callback)) }) v i
        → Calls a v i × (i ≢ t)
    inside place c = elim (ℕ_discrete i t) [
      | yes e ↦ absurd (
          c.0 (
            ap (λ (k : Callback). k.fn)
              (sym c.1
                ∙ (ap
                      (λ j.
                        Prelude.get_or (set a.cb t (clear (Prelude.get_or a.cb t no_callback))) j
                          no_callback)
                      e
                    ∙ set_here a.cb t (clear (Prelude.get_or a.cb t no_callback)) place))))
      | no ne ↦ (
        subst (λ (k : Callback). (v.fn ≢ none) × (k ≡ v))
            (set_at a.cb t i (clear (Prelude.get_or a.cb t no_callback)) ne) c,
        ne,
      )
    ]

forget-Drops : (t : ℕ) (a : Aux) → IsNumTab a.tag → Drops t a (forget t a)
forget-Drops t a h = elim (Bool-cases (ltb t (length a.cb))) [
  | inl place ↦ record { fid = rw place refl; tags = rw place (put_lem a.tag t h).0; calls = calls }
  | inr no_place ↦ record {
    fid = rw no_place refl;
    tags = rw no_place (put_lem a.tag t h).0;
    calls = calls;
  }
]
  where
    calls : (v : Callback) (i : ℕ) → Calls (forget t a) v i → Calls a v i × (i ≢ t)
    calls v i c = cleared-Calls t (freetag t a) v i c

Drops-after : (t : ℕ) (a b c : Aux) → Kept a b → Drops t b c → Drops t a c
Drops-after t a b c k d = record {
  fid = d.fid ∙ k.fid;
  tags = d.tags;
  calls = λ v i u. (Kept-Calls a b k v i (d.calls v i u).0, (d.calls v i u).1);
}

pub fsflush-Drops :
    (send : Request → Aux → Sent)
    → KeepsTables send
    → (t : ℕ) (a : Aux) → IsNumTab a.tag
    → FlushDrops send t a (fsflush send t a)
unfolding fsflush
fsflush-Drops send law t a h = step (send (tflush t) a) refl (law (tflush t) a h)
  where
    waited :
        (b : Aux) (w : Waited)
        → Kept a b
        → KeptWait b w
        → FlushDrops send t a (elim w [
          | answer r a'' ↦ flushed (forget t a'')
          | refused a'' ↦ Flushed.exited
          | Waited.exited ↦ Flushed.exited
          | Waited.starved a'' ↦ Flushed.starved a''
        ])
    waited b (answer r c) k l =
        Drops-after t a c (forget t c) (Kept-trans a b c k l) (forget-Drops t c l.tags)
    waited b (refused c) k l = tt
    waited b Waited.exited k l = tt
    waited b (Waited.starved c) k l = tt

    step :
        (s : Sent)
        → send (tflush t) a ≡ s
        → KeptSent a s
        → FlushDrops send t a (elim s [
          | unsent a' ↦ unflushed a'
          | sent t' a' ↦ elim (fswait t' rflush a') [
            | answer r a'' ↦ flushed (forget t a'')
            | refused a'' ↦ Flushed.exited
            | Waited.exited ↦ Flushed.exited
            | Waited.starved a'' ↦ Flushed.starved a''
          ]
        ])
    step (unsent b) q k = (k, q)
    step (sent t' b) q k = waited b (fswait t' rflush b) k (fswait-Kept t' rflush b k.tags)
