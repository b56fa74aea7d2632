-- ===== src/Selection/Closed.antt =====
-- The descriptors of the copies: one for each that goes on, and no other.
use wl.Prelude.{
  ℕ, ◌+◌, ◌≡◌, refl, Bool, true, false, Option, none, some, List, [], ◌∷◌, if◌then◌else◌, get_elem?,
  take, arith, map, inl, inr, Option-cases,
}
use wl.Fs.State.{Reply, Aux, Request, Sent}
use wl.Fs.Tags.{fsasync}
use wl.Fs.Requests.{Outcome, done, failed, fsread, fswrite, fsclunk}
use wl.Compositor.Snarf.{put_len, snarfput, snarfget}
use wl.Windows.{Halt, stored_tag}
use wl.Windows.Open.{after}
use wl.Selection.{
  Copy, Receiver, Desk, Left, left, close, remove_at, replace_at, new_get, ask_source, copy_on,
  copy_ready, asked, offer_receive, receive_on, receive_reply,
}
use wl.Selection.Counts.{one_if, count, count-without, count-remove_at, count-replace_at}

abbrev pub copy_fds : List Copy → List ℕ
copy_fds cs = map (λ (c : Copy). c.fd) cs

abbrev pub receiver_fds : List Receiver → List ℕ
receiver_fds vs = map (λ (v : Receiver). v.fd) vs

-- Each descriptor is open as often as there are copies and receivers that use it.
abbrev pub IsDesk : Desk → Type 0
IsDesk k =
    (i : ℕ) → count i k.opened ≡ count i (copy_fds k.copies) + count i (receiver_fds k.receivers)

abbrev pub KeepsDesk : Left → Type 0
KeepsDesk (left k a) = IsDesk k
KeepsDesk (Left.halted h) = Unit

-- A descriptor too many, which is to be closed.
abbrev pub Extra : ℕ → Desk → Type 0
Extra fd k =
    (i : ℕ)
    → count i k.opened
      ≡ one_if i fd + (count i (copy_fds k.copies) + count i (receiver_fds k.receivers))

one_here : (fd : ℕ) → one_if fd fd ≡ 1
one_here fd = ground arith

pub Extra-close : (fd : ℕ) (k : Desk) → Extra fd k → IsDesk (close fd k)
Extra-close fd k h i =
    omega (arith, count-without i fd k.opened (omega (arith, h fd, one_here fd)), h i)

pub ask_source-Extra :
    (source rd wr : ℕ) (k : Desk) → IsDesk k → Extra rd (ask_source source rd wr k)
ask_source-Extra source rd wr k h i =
    omega (arith, count-without i wr (wr ∷ rd ∷ k.opened) (omega (arith, one_here wr)), h i)

pub after-Keeps :
    {A : Type 0}
    → (o : Outcome A) (next : Aux → Left) → ((a : Aux) → KeepsDesk (next a))
    → KeepsDesk (after Left.halted o next)
after-Keeps (done x tagp a) next h = h a
after-Keeps (failed tagp a) next h = h a
after-Keeps Outcome.exited next h = tt
after-Keeps (Outcome.starved a) next h = tt
after-Keeps Outcome.stuck next h = tt

removed_copy :
    (n : ℕ) (c : Copy) (k : Desk)
    → get_elem? k.copies n ≡ some c
    → IsDesk k
    → Extra c.fd (record k { copies = remove_at n k.copies })
removed_copy n c k e h i = omega (arith, count-remove_at (λ (c : Copy). c.fd) i n k.copies c e, h i)

removed_receiver :
    (n : ℕ) (v : Receiver) (k : Desk)
    → get_elem? k.receivers n ≡ some v
    → IsDesk k
    → Extra v.fd (record k { receivers = remove_at n k.receivers })
removed_receiver n v k e h i =
    omega (arith, count-remove_at (λ (v : Receiver). v.fd) i n k.receivers v e, h i)

module _ (send : Request → Aux → Sent) where
  asked-Keeps :
      (fn arg : ℕ) (k' k : Desk) (o : Outcome (Option Reply))
      → IsDesk k'
      → IsDesk k
      → KeepsDesk (asked send fn arg k' k o)
  asked-Keeps fn arg k' k (done x tagp a) h' h = step (fsasync (stored_tag 0 tagp) fn arg a)
    where
      step :
          (o : Option Aux)
          → KeepsDesk (elim o [ none ↦ Left.halted Halt.crashed | some a' ↦ left k' a' ])
      step none = tt
      step (some a') = h'
  asked-Keeps fn arg k' k (failed tagp a) h' h = h
  asked-Keeps fn arg k' k Outcome.exited h' h = tt
  asked-Keeps fn arg k' k (Outcome.starved a) h' h = tt
  asked-Keeps fn arg k' k Outcome.stuck h' h = tt

  copy_on-Keeps :
      (msize n : ℕ) (content : List ℕ) (c : Copy) (k : Desk) (a : Aux)
      → get_elem? k.copies n ≡ some c
      → IsDesk k
      → KeepsDesk (copy_on send msize n content c k a)
  copy_on-Keeps msize n content c k a e h = step (take (put_len msize) content)
    where
      ended : Desk
      ended = record k { copies = remove_at n k.copies; cancelled = c.source ∷ k.cancelled }

      replaced :
          (i : ℕ)
          → count i k.opened
            ≡ count i
                (copy_fds (replace_at n (record c { put = snarfput msize content c.put }) k.copies))
              + count i (receiver_fds k.receivers)
      replaced i = omega (
        arith,
        count-replace_at (λ (c : Copy). c.fd) i n k.copies c
            (record c { put = snarfput msize content c.put }) e refl,
        h i,
      )

      step :
          (bytes : List ℕ)
          → KeepsDesk (elim bytes [
            | [] ↦ after Left.halted (fsclunk send c.snarf a) λ a'.
                left
                  (close c.fd (record k {
                    copies = remove_at n k.copies;
                    cancelled = c.source ∷ k.cancelled;
                  }))
                  a'
            | b ∷ bs ↦ after Left.halted (fswrite send false c.snarf c.put.offset (b ∷ bs) a) λ a'.
                left
                  (record k {
                    copies =
                        replace_at n (record c { put = snarfput msize content c.put }) k.copies;
                  })
                  a'
          ])
      step [] =
          after-Keeps (fsclunk send c.snarf a) _
            λ a'. Extra-close c.fd ended (removed_copy n c k e h)
      step (b ∷ bs) =
          after-Keeps (fswrite send false c.snarf c.put.offset (b ∷ bs) a) _ λ a'. replaced

  pub copy_ready-Keeps :
      (msize n : ℕ) (content : List ℕ) (k : Desk) (a : Aux)
      → IsDesk k
      → KeepsDesk (copy_ready send msize n content k a)
  unfolding copy_ready
  copy_ready-Keeps msize n content k a h = elim (Option-cases (get_elem? k.copies n)) [
    | inl e ↦ rw (e, copy_ready) h
    | inr (c, e) ↦ rw (e, copy_ready) (step c c.watched (copy_on-Keeps msize n content c k a e h))
  ]
    where
      step :
          (c : Copy) (watched : Bool)
          → KeepsDesk (copy_on send msize n content c k a)
          → KeepsDesk (if watched then copy_on send msize n content c k a else left k a)
      step c true l = l
      step c false l = h

  pub offer_receive-Keeps :
      (memory : Bool) (answers : List (Option ℕ)) (snarf fd fn arg : ℕ) (k : Desk) (a : Aux)
      → IsDesk k
      → KeepsDesk (offer_receive send memory answers snarf fd fn arg k a)
  unfolding offer_receive
  offer_receive-Keeps memory answers snarf fd fn arg k a h = step memory
    where
      more : Desk
      more = record k { opened = fd ∷ k.opened }

      closed : IsDesk (close fd more)
      closed = Extra-close fd more (λ i. omega (arith, h i))

      step :
          (b : Bool)
          → KeepsDesk (
              if b
              then asked send fn arg
                  (record more {
                    receivers = record { fd = fd; get = new_get answers } ∷ k.receivers;
                  })
                  (close fd more)
                  (fsread send true snarf 0 1024 a)
              else left (close fd more) a)
      step true = asked-Keeps fn arg _ _ _ (λ i. omega (arith, h i)) closed
      step false = closed

  receive_on-Keeps :
      (snarf fn arg n : ℕ) (r : Reply) (v : Receiver) (k : Desk) (a : Aux)
      → get_elem? k.receivers n ≡ some v
      → IsDesk k
      → KeepsDesk (receive_on send snarf fn arg n r v k a)
  receive_on-Keeps snarf fn arg n r v k a e h = step (snarfget true r v.get).open_
    where
      ends : Desk
      ends = close v.fd (record k { receivers = remove_at n k.receivers })

      goes_on : Desk
      goes_on = record k {
        receivers = replace_at n (record v { get = snarfget true r v.get }) k.receivers;
      }

      closed : IsDesk ends
      closed =
          Extra-close v.fd (record k { receivers = remove_at n k.receivers })
            (removed_receiver n v k e h)

      replaced : IsDesk goes_on
      replaced i = omega (
        arith,
        count-replace_at (λ (v : Receiver). v.fd) i n k.receivers v
            (record v { get = snarfget true r v.get }) e refl,
        h i,
      )

      step :
          (b : Bool)
          → KeepsDesk (
              if b
              then asked send fn arg goes_on ends
                  (fsread send true snarf (snarfget true r v.get).offset 1024 a)
              else left ends a)
      step true =
          asked-Keeps fn arg goes_on ends
            (fsread send true snarf (snarfget true r v.get).offset 1024 a) replaced closed
      step false = closed

  pub receive_reply-Keeps :
      (snarf fn arg n : ℕ) (r : Reply) (k : Desk) (a : Aux)
      → IsDesk k
      → KeepsDesk (receive_reply send snarf fn arg n r k a)
  unfolding receive_reply
  receive_reply-Keeps snarf fn arg n r k a h = elim (Option-cases (get_elem? k.receivers n)) [
    | inl e ↦ rw (e, receive_reply) h
    | inr (v, e) ↦ rw (e, receive_reply) (receive_on-Keeps snarf fn arg n r v k a e h)
  ]
