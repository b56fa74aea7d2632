-- ===== src/Compositor/Draw/Tiles.antt =====
-- The tiles of a damaged area that is not too wide.
use wl.Prelude.{
  ℕ, zero, suc, ◌+◌, ◌-◌, ◌*◌, ◌/◌, ◌<◌, ◌≤◌, ◌≡◌, refl, ap₂, ◌∙◌, true, false, none, some, List,
  [], ◌∷◌, ltb, ◌==◌, arith, dec_lt,
}
use native.Mathlib.Nat.{le-div_iff_mul-le, div-mul-le_self, mul_comm}
use wl.Compositor.Draw.{Area, Tile, tile_size, at_most, tiles, clip, commit_tiles}

-- The tiles lie below each other from row y to row `end`, as wide as the area; the pixels of each
-- begin where those of its first row do, and it has at most dy rows.
abbrev pub Stacked : ℕ → Area → ℕ → ℕ → List Tile → Type 0
Stacked stride d dy y [] = y ≡ d.y1
Stacked stride d dy y (t ∷ ts) =
    (t.x0 ≡ d.x0)
    × (t.x1 ≡ d.x1)
    × (t.y0 ≡ y)
    × (t.img ≡ d.x0 * 4 + y * stride)
    × (y < t.y1)
    × (t.y1 ≤ y + dy)
    × Stacked stride d dy t.y1 ts

at_most_lem : (a b : ℕ) → at_most a b ≤ b
at_most_lem a b = ground arith

module _ (stride : ℕ) (d : Area) (dy : ℕ) (some_rows : 0 < dy) (wide : d.x0 < d.x1) where
  last_tile :
      (fuel y img : ℕ)
      → y < d.y1
      → d.y1 ≤ y + dy
      → tiles stride d (d.x1 - d.x0) dy (suc fuel) d.x0 y img
        ≡ some (record { x0 = d.x0; y0 = y; x1 = d.x1; y1 = d.y1; img = img } ∷ [])
  unfolding tiles
  last_tile fuel y img h k = ground arith

  next_tile :
      (fuel y img : ℕ) (ts : List Tile)
      → y + dy < d.y1
      → tiles stride d (d.x1 - d.x0) dy fuel d.x0 (y + dy) (img + dy * stride) ≡ some ts
      → tiles stride d (d.x1 - d.x0) dy (suc fuel) d.x0 y img
        ≡ some (record { x0 = d.x0; y0 = y; x1 = d.x1; y1 = y + dy; img = img } ∷ ts)
  unfolding tiles
  next_tile fuel y img ts h e =
      let right : at_most (d.x0 + (d.x1 - d.x0)) d.x1 ≡ d.x1 = ground arith in
      let bottom : at_most (y + dy) d.y1 ≡ y + dy = ground arith in
      let all : ltb d.x1 d.x1 ≡ false = ground arith in
      let below : ltb y (y + dy) ≡ true = ground arith in
      let height : y + dy - y ≡ dy = omega arith in
      let more : ((y + dy) == d.y1) ≡ false = ground arith in
      rw (right, bottom)
        (rw (all, below)
          (rw (height, more)
            (rw e (
              ap₂ (λ (a b : ℕ). some (record { x0 = d.x0; y0 = y; x1 = a; y1 = b; img = img } ∷ ts))
                right bottom))))

  stacked :
      (fuel y img : ℕ)
      → y < d.y1
      → d.y1 ≤ y + fuel
      → img ≡ d.x0 * 4 + y * stride
      → (ts : List Tile) × (tiles stride d (d.x1 - d.x0) dy fuel d.x0 y img ≡ some ts)
        × Stacked stride d dy y ts
  stacked zero y img h enough at = absurd (omega arith)
  stacked (suc fuel) y img h enough at = elim (dec_lt (y + dy) d.y1) [
    | no done_ ↦ (
      record { x0 = d.x0; y0 = y; x1 = d.x1; y1 = d.y1; img = img } ∷ [],
      last_tile fuel y img h (omega arith),
      (refl, refl, refl, at, h, omega arith, refl),
    )
    | yes more ↦
        let (ts, e, k) =
          stacked fuel (y + dy) (img + dy * stride) more (omega arith) (moved_on at) in
        (
          record { x0 = d.x0; y0 = y; x1 = d.x1; y1 = y + dy; img = img } ∷ ts,
          next_tile fuel y img ts more e,
          (refl, refl, refl, at, omega arith, omega arith, k),
        )
  ]
    where
      moved_on : img ≡ d.x0 * 4 + y * stride → img + dy * stride ≡ d.x0 * 4 + (y + dy) * stride
      moved_on at = grind arith

-- The pixels of a tile that is as wide as the area are no more than there is room for.
tile_size_lem :
    (n width : ℕ)
    → 0 < width
    → 4 * width ≤ n
    → (dy : ℕ) × (tile_size n width ≡ some (width, dy)) × (0 < dy) × (4 * width * dy ≤ n)
unfolding tile_size
tile_size_lem n width h fits = (
  n / (4 * width),
  ground arith,
  (le-div_iff_mul-le (omega arith)).1 (omega arith),
  omega (arith, div-mul-le_self n (4 * width), mul_comm (n / (4 * width)) (4 * width)),
)

sized :
    (fuel buflen stride : ℕ) (damage : Area) (width height dy : ℕ)
    → tile_size (buflen - 22) ((clip damage width height).x1 - (clip damage width height).x0)
      ≡ some ((clip damage width height).x1 - (clip damage width height).x0, dy)
    → commit_tiles fuel buflen stride damage width height
      ≡ tiles stride
          (clip damage width height)
          ((clip damage width height).x1 - (clip damage width height).x0)
          dy
          fuel
          damage.x0
          damage.y0
          (damage.x0 * 4 + damage.y0 * stride)
unfolding commit_tiles
sized fuel buflen stride damage width height dy e = rw (e, commit_tiles) refl

-- The damage, clipped to the window, is not empty and not wider than a message has room for: with
-- fuel for each row, `drawcopy` ends, and it writes tiles that together are the damaged area, each
-- row once and from the row of the buffer that belongs there, and every one of them with its head
-- of 22 bytes fits into the buffer for messages.
pub commit_tiles-Stacked :
    (fuel buflen stride : ℕ) (damage : Area) (width height : ℕ)
    → damage.x0 < (clip damage width height).x1
    → damage.y0 < (clip damage width height).y1
    → 4 * ((clip damage width height).x1 - damage.x0) + 22 ≤ buflen
    → height ≤ fuel
    → (dy : ℕ) × (ts : List Tile) × (commit_tiles fuel buflen stride damage width height ≡ some ts)
      × Stacked stride (clip damage width height) dy damage.y0 ts
      × (4 * ((clip damage width height).x1 - damage.x0) * dy + 22 ≤ buflen)
commit_tiles-Stacked fuel buflen stride damage width height wide some_rows fits enough =
    let d = clip damage width height in
    let (dy, e, positive, room) =
      tile_size_lem (buflen - 22) (d.x1 - d.x0) (omega arith) (omega arith) in
    let (ts, e', k) =
      stacked stride d dy positive wide fuel d.y0 (d.x0 * 4 + d.y0 * stride) some_rows
        (omega (arith, at_most_lem damage.y1 height)) refl in
    (dy, ts, sized fuel buflen stride damage width height dy e ∙ e', k, omega arith)

module _ (stride : ℕ) (d : Area) (dx dy : ℕ) (wide : d.x1 ≤ d.x0 + dx) where
  below_turn :
      (fuel y img : ℕ)
      → d.y1 < y
      → tiles stride d dx dy fuel d.x0 y (img + (y - y) * stride) ≡ none
      → tiles stride d dx dy (suc fuel) d.x0 y img ≡ none
  unfolding tiles
  below_turn fuel y img below more = ground (arith, below, wide, more)

  -- The loop of `drawcopy` does not end where the area begins below its end, as damage below the
  -- window does once it is clipped.
  pub tiles-below : (fuel y img : ℕ) → d.y1 < y → tiles stride d dx dy fuel d.x0 y img ≡ none
  unfolding tiles
  tiles-below zero y img below = refl
  tiles-below (suc fuel) y img below =
      below_turn fuel y img below (tiles-below fuel y (img + (y - y) * stride) below)
