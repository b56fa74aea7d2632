-- ===== src/Selection/Runs.antt =====
-- Any sequence of the requests and events of the copies of the selection.
use wl.Prelude.{ℕ, Bool, true, false, Option, none, some, List, [], ◌∷◌, arith}
use wl.Fs.State.{Reply, Aux, Request, Sent}
use wl.Fs.Requests.{Outcome, done, failed, fsopen, fsclunk}
use wl.Windows.{Halt}
use wl.Windows.Open.{after}
use wl.Selection.{
  Desk, Left, left, close, new_put, ask_source, open_snarf, set_selection, copy_ready,
  offer_receive, receive_reply,
}
use wl.Selection.Closed.{
  IsDesk, KeepsDesk, Extra, Extra-close, ask_source-Extra, after-Keeps, copy_ready-Keeps,
  offer_receive-Keeps, receive_reply-Keeps,
}

-- A request of a client, or an event, each with what its calls of the system answer.
pub data Call : Type 0 where
  selected : Bool → Option (ℕ × ℕ) → Bool → ℕ → Option ℕ → Call
  copied : ℕ → ℕ → List ℕ → Call
  received : Bool → List (Option ℕ) → ℕ → ℕ → ℕ → ℕ → Call
  replied : ℕ → ℕ → ℕ → ℕ → Reply → Call

module _ (send : Request → Aux → Sent) where
  module _ (wide : ℕ → ℕ) (room : Aux → Bool) (why : List ℕ) where
    open_snarf-Keeps :
        (watched : Bool) (source rd : ℕ) (k : Desk) (o : Outcome ℕ)
        → Extra rd k
        → KeepsDesk (open_snarf send wide room why watched source rd k o)
    open_snarf-Keeps watched source rd k (done fid tagp a) h = step (fsopen send false fid 1 a)
      where
        more : Desk
        more = record k {
          copies =
              record { fd = rd; snarf = fid; source = source; watched = watched; put = new_put }
              ∷ k.copies;
        }

        step :
            (o : Outcome ℕ)
            → KeepsDesk (elim o [
              | done x tagp' a' ↦ left more a'
              | failed tagp' a' ↦
                  after Left.halted (fsclunk send fid a') λ a''. left (close rd k) a''
              | Outcome.exited ↦ Left.halted Halt.exited
              | Outcome.starved a' ↦ Left.halted (Halt.starved a')
              | Outcome.stuck ↦ Left.halted Halt.stuck
            ])
        step (done x tagp' a') = λ i. omega (arith, h i)
        step (failed tagp' a') = after-Keeps (fsclunk send fid a') _ λ a''. Extra-close rd k h
        step Outcome.exited = tt
        step (Outcome.starved a') = tt
        step Outcome.stuck = tt
    open_snarf-Keeps watched source rd k (failed tagp a) h = Extra-close rd k h
    open_snarf-Keeps watched source rd k Outcome.exited h = tt
    open_snarf-Keeps watched source rd k (Outcome.starved a) h = tt
    open_snarf-Keeps watched source rd k Outcome.stuck h = tt

    set_selection-Keeps :
        (memory : Bool) (pipe : Option (ℕ × ℕ)) (watched : Bool) (root : ℕ) (source : Option ℕ)
        (k : Desk) (a : Aux)
        → IsDesk k
        → KeepsDesk (set_selection send wide room why memory pipe watched root source k a)
    unfolding set_selection
    set_selection-Keeps false pipe watched root source k a h = h
    set_selection-Keeps true none watched root source k a h = h
    set_selection-Keeps true (some (rd, wr)) watched root none k a h = tt
    set_selection-Keeps true (some (rd, wr)) watched root (some source) k a h =
        open_snarf-Keeps watched source rd (ask_source source rd wr k) _
          (ask_source-Extra source rd wr k h)

    abbrev pub serve : Call → Desk → Aux → Left
    serve (selected memory pipe watched root source) k a =
        set_selection send wide room why memory pipe watched root source k a
    serve (copied msize n content) k a = copy_ready send msize n content k a
    serve (received memory answers snarf fd fn arg) k a =
        offer_receive send memory answers snarf fd fn arg k a
    serve (replied snarf fn arg n r) k a = receive_reply send snarf fn arg n r k a

    unfoldable pub serve_all : List Call → Desk → Aux → Left
    serve_all [] k a = left k a
    serve_all (c ∷ cs) k a = elim (serve c k a) [
      | left k' a' ↦ serve_all cs k' a'
      | Left.halted h ↦ Left.halted h
    ]

    serve-Keeps : (c : Call) (k : Desk) (a : Aux) → IsDesk k → KeepsDesk (serve c k a)
    serve-Keeps (selected memory pipe watched root source) k a h =
        set_selection-Keeps memory pipe watched root source k a h
    serve-Keeps (copied msize n content) k a h = copy_ready-Keeps send msize n content k a h
    serve-Keeps (received memory answers snarf fd fn arg) k a h =
        offer_receive-Keeps send memory answers snarf fd fn arg k a h
    serve-Keeps (replied snarf fn arg n r) k a h = receive_reply-Keeps send snarf fn arg n r k a h

    -- Where each descriptor is open as often as there are copies and receivers that use it, this
    -- stays so through any sequence of requests to set and to receive the selection and of the events
    -- of their copies, where it ends without a crash, with memory or not, with an event source or
    -- not, whatever pipe, read, write and the requests of fs.c answer.
    pub serve_all-IsDesk :
        (cs : List Call) (k : Desk) (a : Aux) → IsDesk k → KeepsDesk (serve_all cs k a)
    unfolding serve_all
    serve_all-IsDesk [] k a h = h
    serve_all-IsDesk (c ∷ cs) k a h =
        step (λ k' a' h'. serve_all-IsDesk cs k' a' h') (serve c k a) (serve-Keeps c k a h)
      where
        step :
            ((k' : Desk) (a' : Aux) → IsDesk k' → KeepsDesk (serve_all cs k' a'))
            → (l : Left) → KeepsDesk l
            → KeepsDesk (elim l [ left k' a' ↦ serve_all cs k' a' | Left.halted x ↦ Left.halted x ])
        step rest (left k' a') h' = rest k' a' h'
        step rest (Left.halted x) h' = tt
