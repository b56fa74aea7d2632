-- ===== src/Windows/Reading/Redrawn.antt =====
-- What drawing a window leaves: the window and its file numbers are as before.
use wl.Prelude.{ℕ, ◌-◌, ◌≡◌, refl, true, Option, none, some, List, [], ◌∷◌}
use wl.Prelude.Int.{pos_part, ◌-ℤ◌}
use wl.Util.NumTab.Numbers.{IsNumTab}
use wl.Fs.State.{Aux, rwrite, Request, Sent}
use wl.Fs.Wait.{Waited, answer, refused, fswait}
use wl.Fs.Requests.{Outcome, done, failed, fswrite}
use wl.Compositor.Draw.{Area, Tile, tile_size, tiles}
use wl.Windows.{Window, Halt, Ended, ended, stored_tag}
use wl.Windows.Kept.{
  Kept, Kept-trans, KeepsTables, KeptWait, KeptOutcome, fswait-Kept, fswrite-Kept,
}
use wl.Windows.Loops.{NotStuck, Stops, Stops-NotStuck}
use wl.Windows.Opens.{window_fids}
use wl.Windows.Drawing.{Shared, last_write, send_tiles, draw_sized, draw_all, draw_window}

-- The window is as before.
abbrev pub SameWindow : Window → Aux → Ended → Type 0
SameWindow w a (ended w' a') = (w' ≡ w) × Kept a a'
SameWindow w a (Ended.halted h) = NotStuck h

-- The window is as before, and neither a crash nor a pointer to nothing.
abbrev pub Writes : Window → Aux → Ended → Type 0
Writes w a (ended w' a') = (w' ≡ w) × Kept a a'
Writes w a (Ended.halted h) = Stops h

Writes-SameWindow : (w : Window) (a : Aux) (e : Ended) → Writes w a e → SameWindow w a e
Writes-SameWindow w a (ended w' a') k = k
Writes-SameWindow w a (Ended.halted h) k = Stops-NotStuck h k

-- What the handlers do not touch.
pub record Keeps (w w' : Window) : Type 0 where
  pub id : w'.id ≡ w.id
  pub wsys : w'.wsys ≡ w.wsys
  pub files : window_fids w' ≡ window_fids w
  pub wctltag : w'.wctltag ≡ w.wctltag
  pub others : (w'.mousetag ≡ w.mousetag) × (w'.kbdtag ≡ w.kbdtag) × (w'.surface ≡ w.surface)

abbrev pub Continued : Window → Aux → Ended → Type 0
Continued w a (ended w' a') = Keeps w w' × Kept a a'
Continued w a (Ended.halted h) = NotStuck h

last_write-Writes :
    (send : Request → Aux → Sent) (datafid : ℕ) (w : Window) (a : Aux) (o : Waited)
    → KeptWait a o
    → Writes w a (last_write send datafid w o)
last_write-Writes send datafid w a (answer r b) k = (refl, k)
last_write-Writes send datafid w a (refused b) k = (refl, k)
last_write-Writes send datafid w a Waited.exited k = tt
last_write-Writes send datafid w a (Waited.starved b) k = tt

written_after : (w : Window) (a b : Aux) (e : Ended) → Kept a b → Writes w b e → Writes w a e
written_after w a b (ended w' c) k (same, l) = (same, Kept-trans a b c k l)
written_after w a b (Ended.halted h) k l = l

module _ (send : Request → Aux → Sent) (law : KeepsTables send) (datafid : ℕ) where
  pub send_tiles-Writes :
      (w : Window) (tag : ℕ) (ms : List (List ℕ)) (a : Aux)
      → IsNumTab a.tag
      → Writes w a (send_tiles send datafid w tag ms a)
  unfolding send_tiles
  send_tiles-Writes w tag [] a h =
      last_write-Writes send datafid w a (fswait tag rwrite a) (fswait-Kept tag rwrite a h)
  send_tiles-Writes w tag (m ∷ ms) a h =
      step (λ t b hb. send_tiles-Writes w t ms b hb) (fswrite send true datafid 0 m a)
        (fswrite-Kept send law true datafid 0 m a h)
    where
      step :
          ((t : ℕ) (b : Aux) → IsNumTab b.tag → Writes w b (send_tiles send datafid w t ms b))
          → (o : Outcome ℕ) → KeptOutcome a o
          → Writes w a (elim o [
            | done x tagp a' ↦ send_tiles send datafid w (stored_tag tag tagp) ms a'
            | failed tagp a' ↦ last_write send datafid w (fswait (stored_tag tag tagp) rwrite a')
            | Outcome.exited ↦ Ended.halted Halt.exited
            | Outcome.starved a' ↦ Ended.halted (Halt.starved a')
            | Outcome.stuck ↦ Ended.halted Halt.stuck
          ])
      step more (done x tagp b) k = written_after w a b _ k (more (stored_tag tag tagp) b k.tags)
      step more (failed tagp b) k = written_after w a b _ k (
          last_write-Writes send datafid w b (fswait (stored_tag tag tagp) rwrite b)
            (fswait-Kept (stored_tag tag tagp) rwrite b k.tags))
      step more Outcome.exited k = tt
      step more (Outcome.starved b) k = tt
      step more Outcome.stuck k = k

  draw_sized_same :
      (fuel : ℕ) (d : Area) (s : Shared) (image : ℕ) (w : Window) (a : Aux) (size : Option (ℕ × ℕ))
      → IsNumTab a.tag
      → SameWindow w a (draw_sized send datafid fuel d s image w a size)
  draw_sized_same fuel d s image w a none h = tt
  draw_sized_same fuel d s image w a (some (dx, dy)) h = all (tiles s.stride d dx dy fuel 0 0 0)
    where
      all : (ts : Option (List Tile)) → SameWindow w a (draw_all send datafid s image w a ts)
      all none = tt
      all (some ts) = Writes-SameWindow w a _ (send_tiles-Writes w 0xffff _ a h)

  pub draw_window_same :
      (fuel buflen : ℕ) (s : Shared) (image : ℕ) (w : Window) (a : Aux)
      → IsNumTab a.tag
      → SameWindow w a (draw_window send datafid fuel buflen s image w a)
  unfolding draw_window
  draw_window_same fuel buflen s image w a h =
      draw_sized_same fuel _ s image w a
        (tile_size (buflen - 22) (pos_part (w.control.x1 -ℤ w.control.x0))) h
