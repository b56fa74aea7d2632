-- ===== src/Windows/Commit/Later.antt =====
-- A commit of a window that is open, with damage inside it.
use wl.Prelude.{ℕ, ◌+◌, ◌-◌, ◌*◌, ◌≤◌, ◌≡◌, none, List, []}
use wl.Prelude.Int.{pos_part, ◌-ℤ◌}
use wl.Fs.State.{Aux, Request, Sent}
use wl.Compositor.Surface.{Surface, no_box}
use wl.Compositor.Draw.{Area, Tile, messages}
use wl.Compositor.Draw.Tiles.{Stacked}
use wl.Windows.{Window, Term, Ended, ended}
use wl.Windows.Kept.{Kept}
use wl.Windows.Loops.{Stops}
use wl.Windows.Drawing.{Shared, word32, send_tiles}
use wl.Windows.Commit.{Shown, shown, image_of}

-- The damage of the surface is gone, the callbacks that waited for it are told and gone, and
-- nothing else changes.
abbrev pub Draws : Window → Term → Surface → Aux → Shown → Type 0
Draws w term s a (shown w' term' s' told entered a') =
    (w' ≡ w)
    × (term' ≡ term)
    × (told ≡ s.state.callbacks)
    × (s' ≡ record s {
      pending = record s.pending { damage = no_box };
      state = record s.state { callbacks = [] };
    })
    × (entered ≡ none)
    × Kept a a'
Draws w term s a (Shown.halted h) = Stops h
Draws w term s a Shown.wrapped = ⊥

-- Both are stopped, in the same way, or the one leaves the window and fs.c as the other does.
abbrev pub Ends : Shown → Ended → Type 0
Ends (shown w term s told entered a) (ended w' a') = (w ≡ w') × (a ≡ a')
Ends (shown w term s told entered a) (Ended.halted h) = ⊥
Ends (Shown.halted h) (ended w a) = ⊥
Ends (Shown.halted h) (Ended.halted h') = h ≡ h'
Ends Shown.wrapped e = ⊥

abbrev width : Window → ℕ
width w = pos_part (w.control.x1 -ℤ w.control.x0)

abbrev height : Window → ℕ
height w = pos_part (w.control.y1 -ℤ w.control.y0)

-- Messages for tiles that are the damaged area d, each row once, are written to /dev/draw, as far
-- as this comes to an end, and the surface is settled.
abbrev pub DrawsTiles :
    (Request → Aux → Sent) → ℕ → ℕ → Shared → Area → Window → Term → Surface → Aux → Shown → Type 0
DrawsTiles send datafid buflen b d w term s a out =
    (dy : ℕ) × (ts : List Tile) × Stacked b.stride d dy d.y0 ts
    × (4 * (d.x1 - d.x0) * dy + 22 ≤ buflen)
    × Ends out (
        send_tiles send datafid w 0xffff
          (messages (image_of w) (word32 w.control.x0) (word32 w.control.y0) b.stride b.bytes ts) a)
    × Draws w term s a out
