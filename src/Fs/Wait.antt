-- ===== src/Fs/Wait.antt =====
-- `fswait` and `fsreadR` of fs.c. What poll answers is part of the events.
pub mod Freed
pub mod Search
pub mod Queue
pub mod Answer
pub mod Returns
use wl.Prelude.{ℕ, Bool, true, false, Option, none, some, List, [], ◌∷◌, ◌==◌, if◌then◌else◌}
use wl.Fs.Output.{Output, Pushed, pushed, write9p}
use wl.Fs.State.{
  Reply, Event, replied, drained, failed, Aux, rerror, freetag, freetags, queue_reply, copy_error,
}

-- The reply with the tag, taken from the queue; `exit(1)`; or no further event.
pub data Found : Type 0 where
  found : Reply → Aux → Found
  exited : Found
  starved : Aux → Found

-- The search of the queue: the reply with the tag, and the queue without it.
unfoldable pub unqueue : ℕ → List Reply → Option (Reply × List Reply)
unqueue t [] = none
unqueue t (r ∷ rs) = elim (unqueue t rs) [
  | none ↦ if r.tag == t then some (r, rs) else none
  | some (r', rs') ↦ if r.tag == t then some (r, rs) else some (r', r ∷ rs')
]

-- The `for (;;)`; `poll` that does not answer 1 is an `exit(1)`.
unfoldable pub wait_loop : ℕ → List Event → Aux → Found
wait_loop t [] a = Found.starved (record a { events = [] })
wait_loop t (replied freed false r ∷ events) a = Found.exited
wait_loop t (replied freed true r ∷ events) a =
    let a' = freetags freed a in
    let next = wait_loop t events (record a' { queue = r ∷ a'.queue }) in
    if r.tag == t then found r (record a' { events = events }) else next
wait_loop t (drained false ∷ events) a = Found.exited
wait_loop t (drained true ∷ events) a = wait_loop t events (record a { ready = true })
wait_loop t (failed s ∷ events) a = Found.exited

unfoldable pub look_for : ℕ → Aux → Found
look_for t a = elim (unqueue t a.queue) [
  | some (r, rest) ↦ found r (record a { queue = rest })
  | none ↦ wait_loop t a.events (record a { ready = true })
]

-- The reply; NULL after an Rerror; `exit(1)`; or a wait that the events do not end.
pub data Waited : Type 0 where
  answer : Reply → Aux → Waited
  refused : Aux → Waited
  exited : Waited
  starved : Aux → Waited

unfoldable pub conclude : ℕ → Found → Waited
conclude kind (found r a) =
    let a' = freetag r.tag a in
    if r.kind == rerror
    then refused (copy_error r.text a')
    else if r.kind == kind
    then answer r a'
    else Waited.exited
conclude kind Found.exited = Waited.exited
conclude kind (Found.starved a) = Waited.starved a

unfoldable pub fswait : ℕ → ℕ → Aux → Waited
fswait t kind a = elim (write9p true a.out) [
  | pushed o ↦ conclude kind (look_for t (record a { out = o }))
  | Pushed.exited ↦ Waited.exited
  | Pushed.starved o ↦ Waited.starved (record a { out = o })
]

pub data Drained : Type 0 where
  all_read : Aux → Drained
  exited : Drained
  starved : Aux → Drained

-- The loop of `fsreadR`, until c9proc finds too little to read.
unfoldable pub read_all : List Event → Aux → Drained
read_all [] a = Drained.starved (record a { events = [] })
read_all (replied freed false r ∷ events) a = Drained.exited
read_all (replied freed true r ∷ events) a =
    let a' = freetags freed a in read_all events (record a' { queue = r ∷ a'.queue })
read_all (drained poll ∷ events) a = all_read (record a { ready = false; events = events })
read_all (failed s ∷ events) a = Drained.exited

unfoldable pub fsread_r : Aux → Drained
fsread_r a = read_all a.events (record a { ready = true })

-- `fswriteT`
unfoldable pub fswrite_t : Aux → Pushed
fswrite_t a = write9p false a.out
