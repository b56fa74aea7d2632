-- ===== src/Windows/Tests.antt =====
-- Runs of a window's life, and its theorems at concrete inputs.
use wl.Prelude.{ℕ, ◌≡◌, refl, Bool, true, false, Option, none, some, List, [], ◌∷◌, arith}
use wl.Prelude.Int.{◌+ℤ◌, ◌-ℤ◌}
use wl.Libc.{codes, is_digit, is_space, magnitude, read_digits, skip_spaces, strtol}
use wl.Util.NumTab.{numget, numput}
use wl.Fs.State.{Reply, Callback, Event, Aux, rattach, rwalk, ropen, rwrite, rclunk, rflush}
use wl.Fs.Output.{write9p, push_loop}
use wl.Fs.Tags.{newtag, fsasync}
use wl.Fs.Requests.{fsattach, fswalk, fsopen, fsread, fswrite, fsclunk}
use wl.Fs.Wait.{fswait, conclude, look_for, unqueue, wait_loop}
use wl.Compositor.Control.{read_control, next_word, read_flags, set_flags, update}
use wl.Compositor.Draw.{tile_size, tiles, tile_message}
use wl.Util.Bytes.{putle32}
use wl.Windows.{each, files, Window, Term, Ended}
use wl.Fs.Dispatch.{fsflush, drop_reply}
use wl.Windows.Drawing.{Shared, draw_window, send_tiles}
use wl.Windows.Reading.{wctlread, name_message}
use wl.Windows.Reading.Handlers.{wctlread-KeepsWindow}
use wl.Windows.Opens.{window_fids}
use wl.Windows.Open.{
  Opened, opened, unopened, attach_name, winnew, fail, open_files, open_turn, read_turn, undo,
  walk_turn,
}
use wl.Windows.Promised.{Settles}
use wl.Windows.Settled.{winnew-Settles}
use wl.Windows.Life.{
  get_toplevel, new_window, World, Lived, lived, upd, close_window, toplevel_destroy,
  xdg_surface_destroy,
}
use wl.Windows.Stored.{here as at_here}
use wl.Windows.Served.{shift_mod, send_tagged, send_tagged-KeepsTables, reply, said, connection}
use wl.Windows.Reach.{Reach, here}
use wl.Compositor.Focus.{Group, mousefocus, kbdfocus, leave_all, enter_all, enter_loop}
use wl.Compositor.Surface.{Surface, new_state}

abbrev wctl_message : List ℕ
wctl_message = codes "          4           4         204         104     current     visible "

-- The replies to what `winnew` and `wctlread` send, in order.
abbrev opening : List Event
opening =
    reply rattach 0
    ∷ reply rwalk 0
    ∷ reply rwalk 1
    ∷ reply rwalk 2
    ∷ reply rwalk 3
    ∷ reply rwalk 4
    ∷ reply ropen 0
    ∷ reply ropen 1
    ∷ reply ropen 2
    ∷ reply ropen 3
    ∷ reply ropen 4
    ∷ said 0 wctl_message
    ∷ said 3 (codes "window.7")
    ∷ reply rwrite 3
    ∷ []

abbrev term : Term
term = record { root = 0; wsys = 1; child = none }

abbrev shared : Shared
shared = record { stride = 8; bytes = [] }

abbrev wctl : Reply → Window → Aux → Ended
wctl r w a =
    (wctlread send_tagged shift_mod true 1 9 8192 (some shared) (record { ent = [] }) r w a).result

abbrev open_run : List Event → Opened
open_run events =
    winnew send_tagged shift_mod (λ a. true) [] wctl (new_window 5 6 7) term (connection events)

abbrev opened_fids : Opened → Option (List (Option ℕ) × List ℕ)
opened_fids (opened w t a) = some (w.wsys ∷ window_fids w, w.wctltag ∷ w.mousetag ∷ w.kbdtag ∷ [])
opened_fids (unopened w t a) = none
opened_fids (Opened.halted h) = none

opens :
    opened_fids (open_run opening)
    ≡ some (some 2 ∷ some 3 ∷ some 4 ∷ some 5 ∷ some 6 ∷ some 7 ∷ [], 0 ∷ 1 ∷ 2 ∷ [])
unfolding winnew wctlread newtag fsattach numget fswait write9p push_loop conclude look_for unqueue
    wait_loop each files fswalk numput fsopen fsread fsasync read_control next_word read_flags
    set_flags update fsclunk fswrite is_digit is_space magnitude read_digits skip_spaces strtol ◌+ℤ◌
    ◌-ℤ◌ putle32 attach_name fail open_files open_turn read_turn undo walk_turn name_message
    draw_window send_tiles tile_size tiles tile_message wl.Prelude.Int.to_int
opens = refl

winnew-Settles_example : Settles (new_window 5 6 7) (connection opening) (open_run opening)
winnew-Settles_example =
    winnew-Settles send_tagged send_tagged-KeepsTables shift_mod (λ n h. refl) (λ a. true) [] wctl
      (wctlread-KeepsWindow send_tagged send_tagged-KeepsTables shift_mod (λ n h. refl) true 1 9
        8192 (some shared) (record { ent = [] }) tt)
      (new_window 5 6 7) term (connection opening) refl (omega arith, tt) tt

-- A window that is open, with its three callbacks, which hold the tags 0, 1 and 2.
abbrev open_window : Window
open_window = record (new_window 5 6 7) {
  toplevel = true;
  wsys = some 2;
  winname = some 3;
  label = some 4;
  wctl = some 5;
  mouse = some 6;
  kbd = some 7;
  wctltag = 0;
  mousetag = 1;
  kbdtag = 2;
}

abbrev for_window : ℕ → Callback
for_window fn = record { fn = some fn; arg = 5 }

-- The callbacks are set; and a clunk of each file, two flushes, and so on, are answered with tag 3.
abbrev attached : Aux
attached =
    record (connection (
      reply rclunk 3
      ∷ reply rclunk 3
      ∷ reply rflush 3
      ∷ reply rclunk 0
      ∷ reply rclunk 0
      ∷ reply rclunk 0
      ∷ reply rflush 0
      ∷ reply rclunk 0
      ∷ reply rflush 0
      ∷ reply rwrite 0
      ∷ [])) {
        tag = record { ent = 0xfffffffffffffff8 ∷ [] };
        fid = record { ent = 0xffffffffffffff00 ∷ [] };
        cb = for_window 1 ∷ for_window 2 ∷ for_window 3 ∷ [];
      }

-- The window has the focus of the mouse, with one pointer, and of the keyboard.
abbrev focus_group : Group
focus_group = record {
  focus = some (record { id = 5; client = 7; surface = 6 });
  active = record { id = 8; client = 7; version = 5 } ∷ [];
  inactive = [];
  serial = 0;
  notes = [];
}

abbrev surface : Surface
surface = record { role = some 5; pending = new_state; state = new_state; released = [] }

abbrev world : World
world = record {
  aux = attached;
  mouse = focus_group;
  kbd = focus_group;
  datafid = 1;
  windows = upd 5 (some open_window) (λ i. none);
  surfaces = upd 6 surface (λ i. surface);
  strays = [];
}

abbrev is_freed : Lived → Bool
is_freed (lived wd) = true
is_freed (Lived.halted h) = false

abbrev strays_of : Lived → List ℕ
strays_of (lived wd) = wd.strays
strays_of (Lived.halted h) = []

-- After a second get_toplevel the first toplevel is left when the window is freed, with it as its data.
second_toplevel : strays_of (xdg_surface_destroy send_tagged 5 (get_toplevel true 5 world)) ≡ 5 ∷ []
unfolding get_toplevel xdg_surface_destroy toplevel_destroy close_window newtag numget numput fswait
    write9p push_loop conclude look_for unqueue wait_loop fsclunk fswrite fsflush drop_reply putle32
    mousefocus kbdfocus leave_all enter_all enter_loop
second_toplevel = refl

-- The run comes to its end.
frees : is_freed (xdg_surface_destroy send_tagged 5 world) ≡ true
unfolding xdg_surface_destroy toplevel_destroy close_window newtag numget numput fswait write9p
    push_loop conclude look_for unqueue wait_loop fsclunk fswrite fsflush drop_reply putle32
    mousefocus kbdfocus leave_all enter_all enter_loop
frees = refl

abbrev world_or : World → Lived → World
world_or wd (lived wd') = wd'
world_or wd (Lived.halted h) = wd

abbrev gone_world : World
gone_world = world_or world (xdg_surface_destroy send_tagged 5 world)
