-- ===== src/Selection/Tests.antt =====
-- Runs of the copies of the selection, and the theorem on them at concrete inputs.
use wl.Prelude.{ℕ, ◌≡◌, refl, true, Option, none, some, List, [], ◌∷◌, take, map}
use wl.Util.NumTab.{numget, numput}
use wl.Fs.Output.{write9p, push_loop}
use wl.Fs.State.{Reply, Event, rwalk, ropen, rread, rwrite, rclunk}
use wl.Fs.Wait.{fswait, conclude, look_for, unqueue, wait_loop}
use wl.Fs.Tags.{newtag, fsasync}
use wl.Fs.Requests.{fswalk, fsopen, fsread, fswrite, fsclunk}
use wl.Compositor.Snarf.{put_len, snarfput, snarfget, write_all}
use wl.Windows.Served.{shift_mod, send_tagged, reply, connection}
use wl.Windows.{Halt}
use wl.Selection.{
  Receiver, Desk, Left, left, set_selection, copy_ready, offer_receive, receive_reply,
}
use wl.Selection.Closed.{KeepsDesk}
use wl.Selection.Runs.{Call, selected, copied, received, replied, serve_all, serve_all-IsDesk}

abbrev empty_desk : Desk
empty_desk = record { opened = []; copies = []; receivers = []; sends = []; cancelled = [] }

abbrev end_of_snarf : Reply
end_of_snarf = record { kind = rread; tag = 0; text = []; content = [] }

-- A client gives a selection of two bytes, another receives one.
abbrev calls : List Call
calls =
    selected true (some (20, 21)) true 0 (some 5)
    ∷ copied 8192 0 (104 ∷ 105 ∷ [])
    ∷ received true (some 1 ∷ some 2 ∷ []) 1 30 4 9
    ∷ copied 8192 0 []
    ∷ replied 1 4 9 0 (record end_of_snarf { content = 97 ∷ 98 ∷ 99 ∷ [] })
    ∷ replied 1 4 9 0 end_of_snarf
    ∷ []

abbrev answers : List Event
answers = reply rwalk 0 ∷ reply ropen 0 ∷ reply rwrite 0 ∷ reply rclunk 1 ∷ []

abbrev served : List Call → Left
served cs = serve_all send_tagged shift_mod (λ a. true) [] cs empty_desk (connection answers)

serve_all-IsDesk_example : KeepsDesk (served calls)
serve_all-IsDesk_example =
    serve_all-IsDesk send_tagged shift_mod (λ a. true) [] calls empty_desk (connection answers)
      (λ i. refl)

abbrev got_by : Left → Option (List (ℕ × List ℕ))
got_by (left k a) = some (map (λ (v : Receiver). (v.get.offset, v.get.written)) k.receivers)
got_by (Left.halted h) = none

abbrev left_open : Left → Option (List ℕ × List ℕ)
left_open (left k a) = some (k.opened, k.cancelled)
left_open (Left.halted h) = none

serves : left_open (served calls) ≡ some ([], 5 ∷ [])
unfolding serve_all set_selection copy_ready offer_receive receive_reply newtag numget numput fswait
    write9p push_loop conclude look_for unqueue wait_loop fswalk fsopen fsread fsasync fswrite
    fsclunk put_len snarfput snarfget write_all
serves = refl

serves_half : left_open (served (take 3 calls)) ≡ some (30 ∷ 20 ∷ [], [])
unfolding serve_all set_selection copy_ready offer_receive receive_reply newtag numget numput fswait
    write9p push_loop conclude look_for unqueue wait_loop fswalk fsopen fsread fsasync fswrite
    fsclunk put_len snarfput snarfget write_all
serves_half = refl

-- The data is written in two parts, and the next is asked for from behind it.
receives : got_by (served (take 5 calls)) ≡ some ((3, 97 ∷ 98 ∷ 99 ∷ []) ∷ [])
unfolding serve_all set_selection copy_ready offer_receive receive_reply newtag numget numput fswait
    write9p push_loop conclude look_for unqueue wait_loop fswalk fsopen fsread fsasync fswrite
    fsclunk put_len snarfput snarfget write_all
receives = refl

-- A client that takes the selection back, with no source, stops the program.
no_source : served (selected true (some (20, 21)) true 0 none ∷ []) ≡ Left.halted Halt.crashed
unfolding serve_all set_selection
no_source = refl
