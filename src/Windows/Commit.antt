-- ===== src/Windows/Commit.antt =====
-- `toplevel_commit` of wl9.c: the first commit, which opens the window, and the drawing of the damage.
-- `output` is what wl_resource_find_for_client finds among the outputs, `shared` what
-- wl_shm_buffer_get gives for the pending buffer. Damage is taken to lie right of and below 0.
pub mod Later
mod Tests
use wl.Prelude.{
  ℕ, ◌+◌, ◌-◌, ◌*◌, ◌^◌, Bool, true, false, Option, none, some, List, [], ltb, if◌then◌else◌,
}
use wl.Prelude.Int.{ℤ, negsuc, pos_part, ◌-ℤ◌}
use wl.Fs.State.{Reply, Aux, Request, Sent}
use wl.Compositor.Surface.{Box, Surface, eq_ℤ}
use wl.Compositor.Draw.{Area, tile_size, tiles, drawn, clip}
use wl.Windows.{Window, Term, Halt, Ended, ended}
use wl.Windows.Open.{Opened, opened, unopened, winnew}
use wl.Windows.Drawing.{Shared, draw_all}

-- A return: the window, the surface, the callbacks that are told that the frame is done, and the
-- output that the surface is told to have entered; or none; or a damage that begins right of the
-- window, so that its width, as a size_t, wraps around, which is not followed further.
pub data Shown : Type 0 where
  shown : Window → Term → Surface → List ℕ → Option ℕ → Aux → Shown
  halted : Halt → Shown
  wrapped : Shown

-- The damage, where there is some.
abbrev pub area_of : Box → Option Area
area_of d =
    if eq_ℤ d.x0 (negsuc 0)
    then none
    else some
        (record { x0 = pos_part d.x0; y0 = pos_part d.y0; x1 = pos_part d.x1; y1 = pos_part d.y1 })

-- An image number as 32 bits.
abbrev pub image_of : Window → ℕ
image_of w = elim w.image [ none ↦ 2 ^ 32 - 1 | some image ↦ image ]

abbrev pub after_draw : Term → Surface → Option ℕ → Ended → Shown
after_draw term s entered (ended w a) = let (s', told) = drawn s in shown w term s' told entered a
after_draw term s entered (Ended.halted h) = Shown.halted h

module _ (send : Request → Aux → Sent) (datafid fuel buflen : ℕ) where
  -- `none` is a division by zero.
  abbrev pub draw_area : Shared → Area → Window → Aux → Option (ℕ × ℕ) → Ended
  draw_area b d w a none = Ended.halted Halt.crashed
  draw_area b d w a (some (dx, dy)) =
      draw_all send datafid b (image_of w) w a
        (tiles b.stride d dx dy fuel d.x0 d.y0 (d.x0 * 4 + d.y0 * b.stride))

  abbrev pub draw_clipped : Shared → Area → Window → Term → Surface → Option ℕ → Aux → Shown
  draw_clipped b d w term s entered a =
      if ltb d.x1 d.x0
      then wrapped
      else after_draw term s entered (draw_area b d w a (tile_size (buflen - 22) (d.x1 - d.x0)))

  unfoldable pub draw_damage : Option Shared → Window → Term → Surface → Option ℕ → Aux → Shown
  draw_damage none w term s entered a = shown w term s [] entered a
  draw_damage (some b) w term s entered a = elim (area_of s.pending.damage) [
    | none ↦ shown w term s [] entered a
    | some d ↦
        let c = w.control in
        draw_clipped b (clip d (pos_part (c.x1 -ℤ c.x0)) (pos_part (c.y1 -ℤ c.y0))) w term s entered
          a
  ]

  module _ (wide : ℕ → ℕ) (room : Aux → Bool) (why : List ℕ)
      (wctl : Reply → Window → Aux → Ended) where
    -- The result of `winnew` is not looked at.
    abbrev pub first_commit : Option ℕ → Option Shared → Surface → Opened → Shown
    first_commit output shared s (opened w term a) =
        draw_damage shared (record w { initial_commit = false }) term s output a
    first_commit output shared s (unopened w term a) =
        draw_damage shared (record w { initial_commit = false }) term s output a
    first_commit output shared s (Opened.halted h) = Shown.halted h

    unfoldable pub toplevel_commit :
        Option ℕ → Option Shared → Window → Term → Surface → Aux → Shown
    unfolding draw_damage
    toplevel_commit output shared w term s a =
        if w.initial_commit
        then first_commit output shared s (winnew send wide room why wctl w term a)
        else draw_damage shared w term s none a
