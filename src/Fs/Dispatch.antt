-- ===== src/Fs/Dispatch.antt =====
-- `fsdispatch` and `fsflush` of fs.c. `call fn arg r a` is what the program's callback fn does to the
-- client's state.
pub mod Order
use wl.Prelude.{
  ℕ, zero, suc, ◌-◌, Bool, true, false, Option, none, some, List, [], ◌∷◌, ◌++◌, length, ltb, ◌==◌,
  if◌then◌else◌, set,
}
use wl.Prelude
use wl.Fs.Output.{Pushed, pushed, write9p}
use wl.Fs.State.{
  Reply, Callback, no_callback, Aux, freetag, rflush, Request, tflush, Sent, sent, unsent,
}
use wl.Fs.Wait.{Waited, answer, refused, unqueue, fswait}

-- A return, with the replies that were dispatched, in order, and the callbacks that were called for
-- them; `exit(1)`; no further answer of write; or no more fuel.
pub data Dispatched : Type 0 where
  dispatched : List (Reply × Option Callback) → Aux → Dispatched
  exited : Dispatched
  starved : Aux → Dispatched
  out_of_fuel : Dispatched

-- `fn` is set to NULL, `aux` is left.
abbrev pub clear : Callback → Callback
clear c = record c { fn = none }

abbrev pub clear_callback : ℕ → Aux → Aux
clear_callback t a =
    if ltb t (length a.cb)
    then record a { cb = set a.cb t (clear (Prelude.get_or a.cb t no_callback)) }
    else a

abbrev pub callback_at : ℕ → Aux → Callback
callback_at t a = if ltb t (length a.cb) then Prelude.get_or a.cb t no_callback else no_callback

-- The callback that is called, if any.
abbrev pub called : Callback → Option Callback
called c = elim c.fn [ none ↦ none | some fn ↦ some c ]

abbrev pub finish_dispatch : List (Reply × Option Callback) → Aux → Dispatched
finish_dispatch log a = elim (write9p false a.out) [
  | pushed o ↦ dispatched log (record a { out = o })
  | Pushed.exited ↦ Dispatched.exited
  | Pushed.starved o ↦ Dispatched.starved (record a { out = o })
]

module _ (call : ℕ → ℕ → Reply → Aux → Aux) where
  abbrev pub run_callback : Callback → Reply → Aux → Aux
  run_callback c r a = elim c.fn [ none ↦ a | some fn ↦ call fn c.arg r a ]

  -- One turn of the loop, r being taken from the queue.
  abbrev pub turn : Reply → Aux → Aux
  turn r a = freetag r.tag (run_callback (callback_at r.tag a) r (clear_callback r.tag a))

  unfoldable pub dispatch_loop : ℕ → List (Reply × Option Callback) → Aux → Dispatched
  dispatch_loop zero log a = elim a.queue [ [] ↦ finish_dispatch log a | r ∷ rest ↦ out_of_fuel ]
  dispatch_loop (suc fuel) log a = elim a.queue [
    | [] ↦ finish_dispatch log a
    | r ∷ rest ↦
        dispatch_loop fuel (log ++ (r, called (callback_at r.tag a)) ∷ [])
          (turn r (record a { queue = rest }))
  ]

  unfoldable pub fsdispatch : ℕ → Aux → Dispatched
  fsdispatch fuel a = dispatch_loop fuel [] a

-- 0, -1, `exit(1)` (also for an Rerror), or a wait that does not end.
pub data Flushed : Type 0 where
  flushed unflushed : Aux → Flushed
  exited : Flushed
  starved : Aux → Flushed

-- The reply with the tag is dropped, if it is queued.
unfoldable pub drop_reply : ℕ → List Reply → List Reply
drop_reply t rs = elim (unqueue t rs) [ none ↦ rs | some (r, rest) ↦ rest ]

abbrev pub forget : ℕ → Aux → Aux
forget t a = let a' = clear_callback t (freetag t a) in record a' { queue = drop_reply t a'.queue }

module _ (send : Request → Aux → Sent) where
  unfoldable pub fsflush : ℕ → Aux → Flushed
  fsflush oldtag a = elim (send (tflush oldtag) a) [
    | unsent a' ↦ unflushed a'
    | sent t a' ↦ elim (fswait t rflush a') [
      | answer r a'' ↦ flushed (forget oldtag a'')
      | refused a'' ↦ Flushed.exited
      | Waited.exited ↦ Flushed.exited
      | Waited.starved a'' ↦ Flushed.starved a''
    ]
  ]
