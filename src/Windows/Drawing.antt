-- ===== src/Windows/Drawing.antt =====
-- The writes of `drawcopy` in wl9.c to /dev/draw, and the wait for the last of them.
use wl.Prelude.{ℕ, ◌+◌, ◌-◌, ◌%◌, ◌^◌, true, Option, none, some, List, [], ◌∷◌}
use wl.Prelude.Int.{ℤ, pos_part, neg_part, ◌-ℤ◌}
use wl.Fs.State.{Aux, rwrite, Request, Sent}
use wl.Fs.Wait.{Waited, answer, refused, fswait}
use wl.Fs.Requests.{Outcome, done, failed, fswrite}
use wl.Compositor.Draw.{Area, Tile, tile_size, tiles, messages}
use wl.Windows.{Window, Halt, Ended, ended, stored_tag}

-- A buffer in shared memory: its stride and its bytes.
pub record Shared : Type 0 where
  pub stride : ℕ
  pub bytes : List ℕ

-- An int as 32 bits.
abbrev pub word32 : ℤ → ℕ
word32 z = (pos_part z + (2 ^ 32 - neg_part z)) % 2 ^ 32

module _ (send : Request → Aux → Sent) (datafid : ℕ) where
  abbrev pub last_write : Window → Waited → Ended
  last_write w (answer r a) = ended w a
  last_write w (refused a) = ended w a
  last_write w Waited.exited = Ended.halted Halt.exited
  last_write w (Waited.starved a) = Ended.halted (Halt.starved a)

  -- The loop that sends the messages; after a failed fswrite, which stores NOTAG, it is left, and
  -- the wait is for NOTAG.
  unfoldable pub send_tiles : Window → ℕ → List (List ℕ) → Aux → Ended
  send_tiles w tag [] a = last_write w (fswait tag rwrite a)
  send_tiles w tag (m ∷ ms) a = elim (fswrite send true datafid 0 m a) [
    | done x tagp a' ↦ send_tiles w (stored_tag tag tagp) ms a'
    | failed tagp a' ↦ last_write w (fswait (stored_tag tag tagp) rwrite a')
    | Outcome.exited ↦ Ended.halted Halt.exited
    | Outcome.starved a' ↦ Ended.halted (Halt.starved a')
    | Outcome.stuck ↦ Ended.halted Halt.stuck
  ]

  -- `crashed` stands for a loop over the tiles that the fuel does not end, too.
  abbrev pub draw_all : Shared → ℕ → Window → Aux → Option (List Tile) → Ended
  draw_all shared image w a none = Ended.halted Halt.crashed
  draw_all shared image w a (some ts) =
      let c = w.control in
      send_tiles w 0xffff (messages image (word32 c.x0) (word32 c.y0) shared.stride shared.bytes ts)
        a

  -- `none` is a division by zero.
  abbrev pub draw_sized : ℕ → Area → Shared → ℕ → Window → Aux → Option (ℕ × ℕ) → Ended
  draw_sized fuel d shared image w a none = Ended.halted Halt.crashed
  draw_sized fuel d shared image w a (some (dx, dy)) =
      draw_all shared image w a (tiles shared.stride d dx dy fuel 0 0 0)

  -- The whole window is drawn, as `wctlread` asks for it: the width and height are not negative.
  unfoldable pub draw_window : ℕ → ℕ → Shared → ℕ → Window → Aux → Ended
  unfolding send_tiles
  draw_window fuel buflen shared image w a =
      let c = w.control in
      let width = pos_part (c.x1 -ℤ c.x0) in
      let d : Area = record { x0 = 0; y0 = 0; x1 = width; y1 = pos_part (c.y1 -ℤ c.y0) } in
      draw_sized fuel d shared image w a (tile_size (buflen - 22) width)
