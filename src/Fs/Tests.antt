-- ===== src/Fs/Tests.antt =====
-- Runs of fs.c, and its theorems at concrete inputs.
use wl.Prelude.{
  List, length, ap, ◌≤◌, ◌+◌, ℕ, ◌-◌, ◌%◌, ◌^◌, ◌≡◌, refl, true, false, some, [], ◌∷◌, arith,
}
use wl.Libc.{codes}
use wl.Util.NumTab.Numbers.{IsNumTab}
use wl.Fs.Output.{Output, wrote, again, begin}
use wl.Fs.Output.Order.{Placed, begin-Placed}
use wl.Fs.Input.{Input, gave, read9p}
use wl.Fs.Input.Order.{Reads, read9p-Reads}
use wl.Fs.State.{Reply, replied, drained, failed, Event, Aux, rread, rwalk, Request, Sent, sent}
use wl.Fs.Wait.{answer, unqueue, fswait}
use wl.Fs.Wait.Answer.{Waits, fswait-Waits}
use wl.Fs.Wait.Returns.{expected, fswait-returns}
use wl.Fs.Dispatch.{fsdispatch, fsflush}
use wl.Fs.Dispatch.Order.{
  Dispatches, Hears, waiting, fsdispatch-Dispatches, Forgets, fsflush-Forgets,
}
use wl.Fs.Requests.{fswalk}
use wl.Fs.Requests.Fids.{Walks, fswalk-Walks}

-- Shifts as on x86-64.
abbrev shift_mod : ℕ → ℕ
shift_mod n = 2 ^ (n % 64)

abbrev two_bytes : Output
two_bytes = record {
  wpos = 3;
  pending = 7 ∷ 8 ∷ [];
  sent = 6 ∷ [];
  answers = again ∷ wrote 1 ∷ wrote 1 ∷ [];
}

-- No place is left in the buffer.
abbrev full_buffer : Output
full_buffer = record {
  wpos = 32767;
  pending = 7 ∷ [];
  sent = 6 ∷ [];
  answers = again ∷ wrote 1 ∷ [];
}

begin-Placed_example : Placed (1 ∷ 2 ∷ []) full_buffer (begin (1 ∷ 2 ∷ []) full_buffer)
begin-Placed_example = begin-Placed (1 ∷ 2 ∷ []) full_buffer (omega arith) (omega arith)

abbrev one_held : Input
one_held = record {
  rpos = 32766;
  held = 5 ∷ [];
  ready = true;
  received = 4 ∷ 5 ∷ [];
  asked = [];
  answers = gave (6 ∷ 7 ∷ []) ∷ [];
}

read9p-Reads_example : Reads 3 (4 ∷ []) (read9p 3 one_held)
read9p-Reads_example =
    read9p-Reads 3 (4 ∷ []) one_held (omega arith)
      (record { inside = omega arith; order = refl; asks = tt })

abbrev reply_to : ℕ → ℕ → Reply
reply_to t kind = record { kind = kind; tag = t; text = codes "no"; content = [] }

-- Tags 0 to 2 are in use, and no file number.
abbrev client : Aux
client = record {
  out = record { wpos = 0; pending = 1 ∷ []; sent = []; answers = again ∷ wrote 1 ∷ [] };
  tag = record { ent = (2 ^ 64 - 8) ∷ [] };
  fid = record { ent = [] };
  queue = reply_to 1 rread ∷ [];
  ready = false;
  cb = record { fn = some 5; arg = 0 } ∷ record { fn = some 6; arg = 1 } ∷ [];
  err = [];
  events =
      drained true ∷ replied [] true (reply_to 2 rread) ∷ replied [] true (reply_to 0 rwalk) ∷ [];
}

client-IsNumTab : IsNumTab client.tag
client-IsNumTab = (omega arith, tt)

expects : expected 0 client.queue client.events ≡ some (reply_to 0 rwalk)
unfolding unqueue
expects = refl

fswait-Waits_example : Waits 0 rwalk client (fswait 0 rwalk client)
fswait-Waits_example = fswait-Waits 0 rwalk client client-IsNumTab

fswait-returns_example : (a' : Aux) × (fswait 0 rwalk client ≡ answer (reply_to 0 rwalk) a')
fswait-returns_example =
    fswait-returns 0 rwalk client (reply_to 0 rwalk) (omega arith) expects refl
      (λ e. omega (arith, e))

-- A callback that writes an error.
abbrev call : ℕ → ℕ → Reply → Aux → Aux
call fn arg r a = record a { err = r.text }

-- A callback that waits for one event, and queues the reply of it.
abbrev hear : List Event → Aux → Aux
hear [] a = a
hear (replied freed memory r ∷ events) a = record a { queue = r ∷ a.queue; events = events }
hear (drained poll ∷ events) a = record a { events = events }
hear (failed s ∷ events) a = record a { events = events }

abbrev wait_once : ℕ → ℕ → Reply → Aux → Aux
wait_once fn arg r a = hear a.events a

wait_once-Hears : Hears wait_once
wait_once-Hears fn arg r a = step a.events refl
  where
    step :
        (events : List Event)
        → a.events ≡ events
        → waiting (hear events a) ≤ length a.queue + length events
    step [] e = omega (arith, ap length e)
    step (replied freed memory r' ∷ events) e = omega arith
    step (drained poll ∷ events) e = omega arith
    step (failed s ∷ events) e = omega arith

fsdispatch-Dispatches_example :
    Dispatches wait_once [] client (fsdispatch wait_once (waiting client) client)
fsdispatch-Dispatches_example =
    fsdispatch-Dispatches wait_once wait_once-Hears (waiting client) client (omega arith)

-- Every request gets tag 0.
abbrev send : Request → Aux → Sent
send q a = sent 0 a

fsflush-Forgets_example : Forgets send 2 client (fsflush send 2 client)
fsflush-Forgets_example = fsflush-Forgets send 2 client (λ q a h. h) client-IsNumTab

fswalk-Walks_example :
    Walks client (fswalk send shift_mod true [] false 0 (codes "wctl" ∷ []) client)
fswalk-Walks_example =
    fswalk-Walks send (λ q a h. (refl, h)) shift_mod true [] false 0 (codes "wctl" ∷ []) client
      (λ n h. refl) tt client-IsNumTab
