-- ===== src/Selection.antt =====
-- The requests and handlers of wl9.c that copy between a client's selection and /dev/snarf:
-- `set_selection` with `snarfput`, and `offer_receive` with `snarfget`. What malloc, pipe, read and
-- write answer are arguments; what is written and read is in Compositor/Snarf.antt.
pub mod Counts
pub mod Closed
pub mod Runs
pub mod Asked
mod Tests
use wl.Prelude.{
  ℕ, zero, suc, ◌+◌, Bool, true, false, Option, none, some, List, [], ◌∷◌, ◌==◌, if◌then◌else◌,
  length, get_elem?, take,
}
use wl.Libc.{codes}
use wl.Fs.State.{Reply, Aux, Request, Sent}
use wl.Fs.Tags.{fsasync}
use wl.Fs.Requests.{Outcome, done, failed, fswalk, fsopen, fsread, fswrite, fsclunk}
use wl.Compositor.Snarf.{Put, put_len, snarfput, Get, snarfget}
use wl.Windows.{Halt, stored_tag}
use wl.Windows.Open.{after}

-- `struct snarfput`, with the descriptor that its event source watches, where
-- wl_event_loop_add_fd made one.
pub record Copy : Type 0 where
  pub fd : ℕ
  pub snarf : ℕ
  pub source : ℕ
  pub watched : Bool
  pub put : Put

-- `struct snarfget`, with what write will answer for its descriptor.
pub record Receiver : Type 0 where
  pub fd : ℕ
  pub get : Get

-- The descriptors that are open for copies, the copies that go on, and the sources that were told to
-- send and that they are cancelled.
pub record Desk : Type 0 where
  pub opened : List ℕ
  pub copies : List Copy
  pub receivers : List Receiver
  pub sends : List (ℕ × ℕ)
  pub cancelled : List ℕ

pub data Left : Type 0 where
  left : Desk → Aux → Left
  halted : Halt → Left

-- `close`
abbrev pub without : ℕ → List ℕ → List ℕ
without fd [] = []
without fd (x ∷ xs) = if x == fd then xs else x ∷ without fd xs

abbrev pub close : ℕ → Desk → Desk
close fd k = record k { opened = without fd k.opened }

module _ {A : Type 0} where
  abbrev pub remove_at : ℕ → List A → List A
  remove_at n [] = []
  remove_at zero (x ∷ xs) = xs
  remove_at (suc n) (x ∷ xs) = x ∷ remove_at n xs

  abbrev pub replace_at : ℕ → A → List A → List A
  replace_at n y [] = []
  replace_at zero y (x ∷ xs) = y ∷ xs
  replace_at (suc n) y (x ∷ xs) = x ∷ replace_at n y xs

abbrev pub new_put : Put
new_put = record { offset = 0; writes = []; open_ = true }

abbrev pub new_get : List (Option ℕ) → Get
new_get answers = record {
  offset = 0;
  written = [];
  asked = 0 ∷ [];
  answers = answers;
  open_ = true;
}

-- The source is told to send to the pipe, whose writing end is then closed.
abbrev pub ask_source : ℕ → ℕ → ℕ → Desk → Desk
ask_source source rd wr k =
    close wr (record k { opened = wr ∷ rd ∷ k.opened; sends = (source, wr) ∷ k.sends })

module _ (send : Request → Aux → Sent) where
  module _ (wide : ℕ → ℕ) (room : Aux → Bool) (why : List ℕ) where
    abbrev pub open_snarf : Bool → ℕ → ℕ → Desk → Outcome ℕ → Left
    open_snarf watched source rd k (done fid tagp a) = elim (fsopen send false fid 1 a) [
      | done x tagp' a' ↦
          left
            (record k {
              copies =
                  record { fd = rd; snarf = fid; source = source; watched = watched; put = new_put }
                  ∷ k.copies;
            })
            a'
      | failed tagp' a' ↦ after Left.halted (fsclunk send fid a') λ a''. left (close rd k) a''
      | Outcome.exited ↦ Left.halted Halt.exited
      | Outcome.starved a' ↦ Left.halted (Halt.starved a')
      | Outcome.stuck ↦ Left.halted Halt.stuck
    ]
    open_snarf watched source rd k (failed tagp a) = left (close rd k) a
    open_snarf watched source rd k Outcome.exited = Left.halted Halt.exited
    open_snarf watched source rd k (Outcome.starved a) = Left.halted (Halt.starved a)
    open_snarf watched source rd k Outcome.stuck = Left.halted Halt.stuck

    -- `memory` and `pipe` are what malloc and pipe answer, `watched` is whether
    -- wl_event_loop_add_fd makes an event source. The source is sent to without a look at whether
    -- it is NULL.
    unfoldable pub set_selection : Bool → Option (ℕ × ℕ) → Bool → ℕ → Option ℕ → Desk → Aux → Left
    set_selection false pipe watched root source k a = left k a
    set_selection true none watched root source k a = left k a
    set_selection true (some (rd, wr)) watched root none k a = Left.halted Halt.crashed
    set_selection true (some (rd, wr)) watched root (some source) k a =
        open_snarf watched source rd (ask_source source rd wr k)
          (fswalk send wide (room a) why false root (codes "dev" ∷ codes "snarf" ∷ []) a)

  -- The event source of copy n, if it has one, is ready to read `content`, nothing at the end or for an error.
  abbrev pub copy_on : ℕ → ℕ → List ℕ → Copy → Desk → Aux → Left
  copy_on msize n content c k a = elim (take (put_len msize) content) [
    | [] ↦ after Left.halted (fsclunk send c.snarf a) λ a'.
        left
          (close c.fd
            (record k { copies = remove_at n k.copies; cancelled = c.source ∷ k.cancelled }))
          a'
    | b ∷ bytes ↦ after Left.halted (fswrite send false c.snarf c.put.offset (b ∷ bytes) a) λ a'.
        left
          (record k {
            copies = replace_at n (record c { put = snarfput msize content c.put }) k.copies;
          })
          a'
  ]

  unfoldable pub copy_ready : ℕ → ℕ → List ℕ → Desk → Aux → Left
  copy_ready msize n content k a = elim (get_elem? k.copies n) [
    | none ↦ left k a
    | some c ↦ if c.watched then copy_on msize n content c k a else left k a
  ]

  -- The next read is asked for and its callback set, or the receiver ends.
  abbrev pub asked : ℕ → ℕ → Desk → Desk → Outcome (Option Reply) → Left
  asked fn arg k' k (done x tagp a) = elim (fsasync (stored_tag 0 tagp) fn arg a) [
    | none ↦ Left.halted Halt.crashed
    | some a' ↦ left k' a'
  ]
  asked fn arg k' k (failed tagp a) = left k a
  asked fn arg k' k Outcome.exited = Left.halted Halt.exited
  asked fn arg k' k (Outcome.starved a) = Left.halted (Halt.starved a)
  asked fn arg k' k Outcome.stuck = Left.halted Halt.stuck

  -- `fd` is the client's, `answers` is what write will answer for it; `fn` stands for snarfget and `arg` for the new struct.
  unfoldable pub offer_receive : Bool → List (Option ℕ) → ℕ → ℕ → ℕ → ℕ → Desk → Aux → Left
  offer_receive memory answers snarf fd fn arg k a =
      let k' = record k { opened = fd ∷ k.opened } in
      if memory
      then asked fn arg
          (record k' { receivers = record { fd = fd; get = new_get answers } ∷ k.receivers })
          (close fd k') (fsread send true snarf 0 1024 a)
      else left (close fd k') a

  -- A reply for receiver n.
  abbrev pub receive_on : ℕ → ℕ → ℕ → ℕ → Reply → Receiver → Desk → Aux → Left
  receive_on snarf fn arg n r v k a =
      let g = snarfget true r v.get in
      let ends = close v.fd (record k { receivers = remove_at n k.receivers }) in
      if g.open_
      then asked fn arg (record k { receivers = replace_at n (record v { get = g }) k.receivers })
          ends (fsread send true snarf g.offset 1024 a)
      else left ends a

  unfoldable pub receive_reply : ℕ → ℕ → ℕ → ℕ → Reply → Desk → Aux → Left
  receive_reply snarf fn arg n r k a = elim (get_elem? k.receivers n) [
    | none ↦ left k a
    | some v ↦ receive_on snarf fn arg n r v k a
  ]
