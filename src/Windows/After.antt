-- ===== src/Windows/After.antt =====
-- Calls whose results are not looked at, one after the other.
use wl.Prelude.{ℕ, ◌≡◌, ◌≢◌, ◌∙◌, List, [], ◌∷◌, refl}
use wl.Util.NumTab.Numbers.{IsNumTab}
use wl.Fs.State.{Callback, Aux, Request, Sent, unsent, tflush}
use wl.Fs.Dispatch.{Flushed, flushed, unflushed}
use wl.Fs.Requests.{Outcome, done, failed}
use wl.Windows.{Halt}
use wl.Windows.Kept.{Kept, KeptOutcome}
use wl.Windows.Loops.{Calls, Stops}
use wl.Windows.Flushed.{Drops, FlushDrops}
use wl.Windows.Turns.{Kept-Calls}
use wl.Windows.Open.{after, after_flush}

module _ {R : Type 0} (halt : Halt → R) (P : R → Type 0)
    (halts : (h : Halt) → Stops h → P (halt h)) where
  pub after_lem :
      {A : Type 0}
      → (a : Aux) (o : Outcome A) (next : Aux → R) → KeptOutcome a o
      → ((b : Aux) → Kept a b → P (next b))
      → P (after halt o next)
  after_lem a (done x tagp b) next k more = more b k
  after_lem a (failed tagp b) next k more = more b k
  after_lem a Outcome.exited next k more = halts Halt.exited tt
  after_lem a (Outcome.starved b) next k more = halts (Halt.starved b) tt
  after_lem a Outcome.stuck next k more = absurd k

  module _ (send : Request → Aux → Sent) where
    pub after_flush_lem :
        (t : ℕ) (a : Aux) (o : Flushed) (next : Aux → R)
        → FlushDrops send t a o
        → ((b : Aux) → Drops t a b → P (next b))
        → ((b : Aux) → Kept a b → send (tflush t) a ≡ unsent b → P (next b))
        → P (after_flush halt o next)
    after_flush_lem t a (flushed b) next k more less = more b k
    after_flush_lem t a (unflushed b) next (k, q) more less = less b k q
    after_flush_lem t a Flushed.exited next k more less = halts Halt.exited tt
    after_flush_lem t a (Flushed.starved b) next k more less = halts (Halt.starved b) tt

abbrev pub NotIn : ℕ → List ℕ → Type 0
NotIn i [] = Unit
NotIn i (t ∷ ts) = (i ≢ t) × NotIn i ts

-- The callbacks of the tags ts are gone, and none is added; the file numbers in use are the same.
pub record Quits (ts : List ℕ) (a a' : Aux) : Type 0 where
  pub fid : a'.fid ≡ a.fid
  pub tags : IsNumTab a'.tag
  pub calls : (v : Callback) (i : ℕ) → Calls a' v i → Calls a v i × NotIn i ts

pub Quits-none : (a : Aux) → IsNumTab a.tag → Quits [] a a
Quits-none a h = record { fid = refl; tags = h; calls = λ v i c. (c, tt) }

pub Quits-Kept : (ts : List ℕ) (a b c : Aux) → Quits ts a b → Kept b c → Quits ts a c
Quits-Kept ts a b c q k = record {
  fid = k.fid ∙ q.fid;
  tags = k.tags;
  calls = λ v i u. q.calls v i (Kept-Calls b c k v i u);
}

pub Quits-Drops :
    (t : ℕ) (ts : List ℕ) (a b c : Aux) → Quits ts a b → Drops t b c → Quits (t ∷ ts) a c
Quits-Drops t ts a b c q d = record {
  fid = d.fid ∙ q.fid;
  tags = d.tags;
  calls = λ v i u.
      let (u', ne) = d.calls v i u in let (u'', away) = q.calls v i u' in (u'', (ne, away));
}
