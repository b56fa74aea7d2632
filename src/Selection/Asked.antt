-- ===== src/Selection/Asked.antt =====
-- What `offer_receive` and `snarfget` leave of the connection: its tables, and its callbacks but for
-- the one that they set.
use wl.Prelude.{
  ℕ, sym, subst, ◌∙◌, inl, inr, Bool, true, false, Option, none, some, List, if◌then◌else◌,
  get_elem?,
}
use wl.Util.NumTab.Numbers.{IsNumTab}
use wl.Fs.State.{Reply, Aux, Request, Sent}
use wl.Fs.Tags.{fsasync}
use wl.Fs.Requests.{Outcome, done, failed, fsread}
use wl.Compositor.Snarf.{snarfget}
use wl.Windows.{Halt, stored_tag}
use wl.Windows.Kept.{Kept-refl, KeepsTables, KeptOutcome, fsread-Kept}
use wl.Windows.Turns.{Kept-Calls, Asyncs, fsasync-Asyncs}
use wl.Windows.Reading.Attached.{Asks, Kept-Asks}
use wl.Selection.{
  Receiver, Desk, Left, left, close, remove_at, replace_at, asked, offer_receive, receive_on,
  receive_reply,
}

-- A callback of fn for some tag with the argument g is all that is added.
abbrev pub LeavesAsks : ℕ → ℕ → Aux → Left → Type 0
LeavesAsks g fn a (left k b) = (t : ℕ) × Asks g fn t a b
LeavesAsks g fn a (Left.halted h) = Unit

module _ (send : Request → Aux → Sent) (law : KeepsTables send) (fn g : ℕ) where
  unasked : (a : Aux) → IsNumTab a.tag → (t : ℕ) × Asks g fn t a a
  unasked a h = (0, Kept-Asks g fn 0 a a (Kept-refl a h))

  asked-LeavesAsks :
      (k' k : Desk) (a : Aux) (o : Outcome (Option Reply))
      → KeptOutcome a o
      → LeavesAsks g fn a (asked send fn g k' k o)
  asked-LeavesAsks k' k a (done x tagp b) kept =
      step (stored_tag 0 tagp) (fsasync (stored_tag 0 tagp) fn g b)
        (fsasync-Asyncs (stored_tag 0 tagp) fn g b)
    where
      step :
          (t : ℕ) (o : Option Aux)
          → Asyncs t fn g b o
          → LeavesAsks g fn a (elim o [ none ↦ Left.halted Halt.crashed | some a' ↦ left k' a' ])
      step t none l = tt
      step t (some c) (fid, tag, calls, new) = (
        t,
        record {
          table = fid ∙ kept.fid;
          tags = subst IsNumTab (sym tag) kept.tags;
          calls = λ v i u. elim (calls v i u) [
            | inl u' ↦ inl (Kept-Calls a b kept v i u')
            | inr e ↦ inr e
          ];
        },
      )
  asked-LeavesAsks k' k a (failed tagp b) kept = (0, Kept-Asks g fn 0 a b kept)
  asked-LeavesAsks k' k a Outcome.exited kept = tt
  asked-LeavesAsks k' k a (Outcome.starved b) kept = tt
  asked-LeavesAsks k' k a Outcome.stuck kept = tt

  pub offer_receive-LeavesAsks :
      (memory : Bool) (answers : List (Option ℕ)) (snarf fd : ℕ) (k : Desk) (a : Aux)
      → IsNumTab a.tag
      → LeavesAsks g fn a (offer_receive send memory answers snarf fd fn g k a)
  unfolding offer_receive
  offer_receive-LeavesAsks false answers snarf fd k a h = unasked a h
  offer_receive-LeavesAsks true answers snarf fd k a h =
      asked-LeavesAsks _ _ a (fsread send true snarf 0 1024 a)
        (fsread-Kept send law true snarf 0 1024 a h)

  receive_on-LeavesAsks :
      (snarf n : ℕ) (r : Reply) (v : Receiver) (k : Desk) (a : Aux)
      → IsNumTab a.tag
      → LeavesAsks g fn a (receive_on send snarf fn g n r v k a)
  receive_on-LeavesAsks snarf n r v k a h = step (snarfget true r v.get).open_
    where
      step :
          (b : Bool)
          → LeavesAsks g fn a (
              if b
              then asked send fn g
                  (record k {
                    receivers = replace_at n (record v { get = snarfget true r v.get }) k.receivers;
                  })
                  (close v.fd (record k { receivers = remove_at n k.receivers }))
                  (fsread send true snarf (snarfget true r v.get).offset 1024 a)
              else left (close v.fd (record k { receivers = remove_at n k.receivers })) a)
      step true =
          asked-LeavesAsks _ _ a (fsread send true snarf (snarfget true r v.get).offset 1024 a)
            (fsread-Kept send law true snarf (snarfget true r v.get).offset 1024 a h)
      step false = unasked a h

  pub receive_reply-LeavesAsks :
      (snarf n : ℕ) (r : Reply) (k : Desk) (a : Aux)
      → IsNumTab a.tag
      → LeavesAsks g fn a (receive_reply send snarf fn g n r k a)
  unfolding receive_reply
  receive_reply-LeavesAsks snarf n r k a h = step (get_elem? k.receivers n)
    where
      step :
          (o : Option Receiver)
          → LeavesAsks g fn a
              (elim o [ none ↦ left k a | some v ↦ receive_on send snarf fn g n r v k a ])
      step none = unasked a h
      step (some v) = receive_on-LeavesAsks snarf n r v k a h
