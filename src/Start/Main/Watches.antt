-- ===== src/Start/Main/Watches.antt =====
-- What a turn of the main loop leaves.
use wl.Prelude.{
  ◌⊎◌, inl, inr, ℕ, ◌≡◌, refl, Bool, Option, none, some, List, [], ◌∷◌, not, ◌==◌, if◌then◌else◌,
  arith,
}
use wl.Fs.Output.{Output}
use wl.Fs.State.{Reply, Aux}
use wl.Fs.Wait.{Drained, all_read}
use wl.Fs.Dispatch.{Dispatched, dispatched}
use wl.Fs.Dispatch.Order.{Dispatches, Hears, waiting, fsdispatch-Dispatches}
use wl.Start.Main.{
  Watch, Turned, turned, wanted_mask, wanted_for, fsready, finish_turn, dispatch_ready, turn_main,
}

-- WL_EVENT_WRITABLE counts 2 exactly where bytes wait behind wpos.
abbrev pub IsMask : ℕ → Output → Type 0
IsMask mask o = ((o.pending ≡ []) × (mask ≡ 1)) ⊎ ((¬ (o.pending ≡ [])) × (mask ≡ 3))

-- The terminal is watched for reading, and for writing where bytes are left to write; no reply is
-- left in the queue; and `eventmask` is still 0.
abbrev pub Watches : Turned → Type 0
Watches (turned l) = IsMask l.source l.aux.out × (l.aux.queue ≡ []) × (l.eventmask ≡ 0)
Watches Turned.exited = Unit
Watches (Turned.starved a) = Unit
Watches Turned.out_of_fuel = ⊥

wanted-IsMask : (o : Output) (source : ℕ) → source ≡ wanted_mask o → IsMask source o
wanted-IsMask o source e = step o.pending e
  where
    step :
        (bytes : List ℕ)
        → source ≡ wanted_for bytes
        → ((bytes ≡ []) × (source ≡ 1)) ⊎ ((¬ (bytes ≡ [])) × (source ≡ 3))
    step [] q = inl (refl, q)
    step (b ∷ bs) q = inr ((λ k. absurd (ground (arith, k))), q)

updated :
    (bytes : List ℕ) (mask source : ℕ)
    → mask ≡ 0
    → (if not (wanted_for bytes == mask) then wanted_for bytes else source) ≡ wanted_for bytes
updated [] mask source e = rw e refl
updated (b ∷ bs) mask source e = rw e refl

module _ (call : ℕ → ℕ → Reply → Aux → Aux) (law : Hears call) (l : Watch)
    (unset : l.eventmask ≡ 0) where
  finish_turn-Watches :
      (a : Aux) (d : Dispatched) → Dispatches call [] a d → Watches (finish_turn call l d)
  finish_turn-Watches a (dispatched log a') (more, end_, o, l', k, w, at, empty) =
      (wanted-IsMask a'.out _ (updated a'.out.pending l.eventmask l.source unset), empty, unset)
  finish_turn-Watches a Dispatched.exited k = tt
  finish_turn-Watches a (Dispatched.starved a') k = tt
  finish_turn-Watches a Dispatched.out_of_fuel k = k

  dispatch_ready-Watches :
      (after : Aux → Aux) (d : Drained) → Watches (dispatch_ready call l after d)
  dispatch_ready-Watches after (all_read a) =
      finish_turn-Watches (after a) _
        (fsdispatch-Dispatches call law (waiting (after a)) (after a) (omega arith))
  dispatch_ready-Watches after Drained.exited = tt
  dispatch_ready-Watches after (Drained.starved a) = tt

  -- Where `eventmask` is 0, as at first, and the callbacks queue at most as many replies as they hear events while they wait for others: after a turn of the main loop, whatever was ready and
  -- whatever the handlers did, the terminal's descriptor is watched for reading, and for writing too
  -- where bytes are left to write and not otherwise, the queue of replies is empty, and `eventmask`
  -- is 0 again; or the turn ends in an exit or in a call that does not come back.
  pub turn_main-Watches :
      (before after : Aux → Aux) (ready : Option (Bool × Bool))
      → Watches (turn_main call before ready after l)
  unfolding turn_main
  turn_main-Watches before after none = dispatch_ready-Watches after (all_read (before l.aux))
  turn_main-Watches before after (some (writable, readable)) =
      dispatch_ready-Watches after (fsready writable readable (before l.aux))
