-- ===== src/Windows/Commit/Tests.antt =====
-- Runs of `toplevel_commit`, and its theorem at a concrete input.
use wl.Prelude.{ℕ, ◌≡◌, refl, true, false, Option, none, some, [], ◌∷◌}
use wl.Prelude.Int.{pos, ◌-ℤ◌}
use wl.Fs.State.{Aux, rwrite}
use wl.Fs.Output.{write9p, push_loop}
use wl.Fs.Tags.{newtag}
use wl.Fs.Wait.{fswait, conclude, look_for, unqueue, wait_loop}
use wl.Fs.Requests.{fswrite}
use wl.Util.NumTab.{numget, numput}
use wl.Util.Bytes.{putle32}
use wl.Compositor.Surface.{Surface, new_state}
use wl.Compositor.Draw.{Area, tile_size, tiles, tile_message, drawn}
use wl.Windows.{Window, Term, Halt, ended}
use wl.Windows.Drawing.{Shared, send_tiles}
use wl.Windows.Life.{new_window}
use wl.Windows.Served.{shift_mod, send_tagged, reply, connection}
use wl.Windows.Commit.{Shown, shown, draw_damage, toplevel_commit}

-- A window that is open, at 4 4 to 104 54.
abbrev window : Window
window = record (new_window 5 6 7) {
  initial_commit = false;
  image = some 1;
  control = record {
    x0 = pos 4;
    y0 = pos 4;
    x1 = pos 104;
    y1 = pos 54;
    current = false;
    hidden = false;
  };
}

-- What is damaged is partly outside the window, and two callbacks wait.
abbrev surface : Surface
surface = record {
  role = some 5;
  pending = record new_state {
    damage = record { x0 = pos 90; y0 = pos 48; x1 = pos 200; y1 = pos 60 };
  };
  state = record new_state { callbacks = 21 ∷ 22 ∷ [] };
  released = [];
}

abbrev area : Area
area = record { x0 = 90; y0 = 48; x1 = 200; y1 = 60 }

abbrev shared : Shared
shared = record { stride = 400; bytes = [] }

abbrev term : Term
term = record { root = 0; wsys = 1; child = none }

abbrev calm : Aux
calm = connection (reply rwrite 0 ∷ [])

abbrev commit_run : Window → Surface → Shown
commit_run w s =
    toplevel_commit send_tagged 9 50 8192 shift_mod (λ a. true) [] (λ r w' a. ended w' a) none
      (some shared) w term s calm

abbrev told_by : Shown → Option (Surface × Option ℕ)
told_by (shown w t s told entered a) = some (s, entered)
told_by (Shown.halted h) = none
told_by Shown.wrapped = none

commits : told_by (commit_run window surface) ≡ some ((drawn surface).0, none)
unfolding toplevel_commit draw_damage ◌-ℤ◌ tile_size tiles tile_message putle32 send_tiles fswrite
    newtag numget numput fswait write9p push_loop conclude look_for unqueue wait_loop drawn
commits = refl

-- The window that winnew could not open has no place: 4 * d.dx is 0.
no_place :
    commit_run
      (record window { control = (new_window 5 6 7).control })
      (record surface {
        pending = record new_state {
          damage = record { x0 = pos 0; y0 = pos 0; x1 = pos 10; y1 = pos 10 };
        };
      })
    ≡ Shown.halted Halt.crashed
unfolding toplevel_commit draw_damage ◌-ℤ◌ tile_size
no_place = refl
