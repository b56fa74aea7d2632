-- ===== src/Windows/Kept.antt =====
-- What the requests of fs.c leave alone of the connection's tables.
use wl.Prelude.{ℕ, ◌≡◌, refl, ◌∙◌, ap, Bool, true, false, Option, none, some, List, if◌then◌else◌}
use wl.Prelude
use wl.Util.NumTab.Numbers.{IsNumTab}
use wl.Fs.State.{
  Reply, no_callback, Aux, Request, Sent, sent, unsent, tclunk, topen, tread, twrite, rclunk, ropen,
  rread, rwrite,
}
use wl.Fs.Wait.{Waited, answer, refused, fswait}
use wl.Fs.Wait.Answer.{Waits, fswait-Waits}
use wl.Fs.Tags.Fresh.{callback_of}
use wl.Fs.Requests.{Outcome, done, failed, notag, settle, request, fsopen, fsread, fswrite, fsclunk}
use wl.Fs.Requests.Fids.{KeepsFids, SentKeeps}

-- The same file numbers are in use, the callbacks are the same, and the table of tags is sound.
pub record Kept (a a' : Aux) : Type 0 where
  pub fid : a'.fid ≡ a.fid
  pub callbacks : (i : ℕ) → callback_of a' i ≡ callback_of a i
  pub tags : IsNumTab a'.tag

pub Kept-refl : (a : Aux) → IsNumTab a.tag → Kept a a
Kept-refl a h = record { fid = refl; callbacks = λ i. refl; tags = h }

pub Kept-trans : (a b c : Aux) → Kept a b → Kept b c → Kept a c
Kept-trans a b c k l = record {
  fid = l.fid ∙ k.fid;
  callbacks = λ i. l.callbacks i ∙ k.callbacks i;
  tags = l.tags;
}

abbrev pub KeptSent : Aux → Sent → Type 0
KeptSent a (sent t a') = Kept a a'
KeptSent a (unsent a') = Kept a a'

-- A request leaves the file numbers and the callbacks alone, and keeps the table of tags sound.
abbrev pub KeepsTables : (Request → Aux → Sent) → Type 0
KeepsTables send = (q : Request) (a : Aux) → IsNumTab a.tag → KeptSent a (send q a)

abbrev pub KeptWait : Aux → Waited → Type 0
KeptWait a (answer r a') = Kept a a'
KeptWait a (refused a') = Kept a a'
KeptWait a Waited.exited = Unit
KeptWait a (Waited.starved a') = Unit

abbrev pub KeptOutcome : {A : Type 0} → Aux → Outcome A → Type 0
KeptOutcome a (done x tagp a') = Kept a a'
KeptOutcome a (failed tagp a') = Kept a a'
KeptOutcome a Outcome.exited = Unit
KeptOutcome a (Outcome.starved a') = Unit
KeptOutcome a Outcome.stuck = ⊥

same_callbacks : (a a' : Aux) → a'.cb ≡ a.cb → (i : ℕ) → callback_of a' i ≡ callback_of a i
same_callbacks a a' e i = ap (λ cb. Prelude.get_or cb i no_callback) e

pub fswait-Kept : (t kind : ℕ) (a : Aux) → IsNumTab a.tag → KeptWait a (fswait t kind a)
fswait-Kept t kind a h = step (fswait t kind a) (fswait-Waits t kind a h)
  where
    step : (w : Waited) → Waits t kind a w → KeptWait a w
    step (answer r a') (k, right, ok, free) = record {
      fid = k.fid;
      callbacks = same_callbacks a a' k.cb;
      tags = k.tags;
    }
    step (refused a') (r, k, bad, text, free) = record {
      fid = k.fid;
      callbacks = same_callbacks a a' k.cb;
      tags = k.tags;
    }
    step Waited.exited k = tt
    step (Waited.starved a') k = tt

settle-Kept :
    {A : Type 0}
    → (f : Reply → A) (a : Aux) (w : Waited) → KeptWait a w
    → KeptOutcome a (settle f (λ a'. a') w)
settle-Kept f a (answer r a') k = k
settle-Kept f a (refused a') k = k
settle-Kept f a Waited.exited k = tt
settle-Kept f a (Waited.starved a') k = tt

module _ (send : Request → Aux → Sent) (law : KeepsTables send) where
  pub KeepsTables-KeepsFids : KeepsFids send
  KeepsTables-KeepsFids q a h = step (send q a) (law q a h)
    where
      step : (s : Sent) → KeptSent a s → SentKeeps a s
      step (sent t a') k = (k.fid, k.tags)
      step (unsent a') k = (k.fid, k.tags)

  outcome_trans :
      {A : Type 0} → (a b : Aux) (o : Outcome A) → Kept a b → KeptOutcome b o → KeptOutcome a o
  outcome_trans a b (done x tagp a') k l = Kept-trans a b a' k l
  outcome_trans a b (failed tagp a') k l = Kept-trans a b a' k l
  outcome_trans a b Outcome.exited k l = tt
  outcome_trans a b (Outcome.starved a') k l = tt
  outcome_trans a b Outcome.stuck k l = l

  pub request-Kept :
      {A : Type 0}
      → (q : Request) (kind : ℕ) (async : Bool) (now : A) (f : Reply → A) (a : Aux) → IsNumTab a.tag
      → KeptOutcome a (request send q kind async now f a)
  request-Kept {A} q kind async now f a h = step async (send q a) (law q a h)
    where
      step :
          (async : Bool) (s : Sent)
          → KeptSent a s
          → KeptOutcome a (elim s [
            | unsent a' ↦ failed (notag async) a'
            | sent t a' ↦
                if async then done now (some t) a' else settle f (λ a''. a'') (fswait t kind a')
          ])
      step async (unsent a') k = k
      step true (sent t a') k = k
      step false (sent t a') k =
          outcome_trans a a' (settle f (λ a''. a'') (fswait t kind a')) k
            (settle-Kept f a' (fswait t kind a') (fswait-Kept t kind a' k.tags))

  pub fsclunk-Kept : (fid : ℕ) (a : Aux) → IsNumTab a.tag → KeptOutcome a (fsclunk send fid a)
  unfolding fsclunk
  fsclunk-Kept fid a h = request-Kept (tclunk fid) rclunk false 0 (λ r. 0) a h

  pub fsopen-Kept :
      (async : Bool) (fid mode : ℕ) (a : Aux)
      → IsNumTab a.tag
      → KeptOutcome a (fsopen send async fid mode a)
  unfolding fsopen
  fsopen-Kept async fid mode a h = request-Kept (topen fid mode) ropen async 0 (λ r. 0) a h

  pub fsread-Kept :
      (async : Bool) (fid off len : ℕ) (a : Aux)
      → IsNumTab a.tag
      → KeptOutcome a (fsread send async fid off len a)
  unfolding fsread
  fsread-Kept async fid off len a h =
      request-Kept (tread fid off len) rread async none (λ r. some r) a h

  pub fswrite-Kept :
      (async : Bool) (fid off : ℕ) (buf : List ℕ) (a : Aux)
      → IsNumTab a.tag
      → KeptOutcome a (fswrite send async fid off buf a)
  unfolding fswrite
  fswrite-Kept async fid off buf a h = request-Kept (twrite fid off buf) rwrite async 0 (λ r. 0) a h
