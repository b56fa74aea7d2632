-- ===== src/Compositor/Draw.antt =====
-- `drawcopy` and `toplevel_commit` of wl9.c, and the choice of tiles that `wctlread` makes in the same
-- way. Coordinates are numbers: a damaged place with a negative coordinate lies before the buffer,
-- where the program reads too. A buffer is the list of its bytes.
pub mod Tiles
use wl.Prelude.{
  ℕ, zero, suc, ◌+◌, ◌-◌, ◌*◌, ◌/◌, Bool, true, false, not, Option, none, some, List, [], ◌∷◌, ◌++◌,
  length, take, drop, ltb, ◌==◌, if◌then◌else◌,
}
use wl.Util.Bytes.{putle32}
use wl.Compositor.Surface.{Surface, no_box}

-- The damaged box.
pub record Area : Type 0 where
  pub x0 : ℕ
  pub y0 : ℕ
  pub x1 : ℕ
  pub y1 : ℕ

-- One write to /dev/draw: the box, and where its pixels begin in the buffer.
pub record Tile : Type 0 where
  pub x0 : ℕ
  pub y0 : ℕ
  pub x1 : ℕ
  pub y1 : ℕ
  pub img : ℕ

-- `dx` and `dy` for an area of the width: `none` is a division by zero. `n` is the room for pixels.
unfoldable pub tile_size : ℕ → ℕ → Option (ℕ × ℕ)
tile_size n width =
    if ltb n (4 * width)
    then some ((4 * width + n - 1) / n, 1)
    else if width == 0
    then none
    else some (width, n / (4 * width))

abbrev pub at_most : ℕ → ℕ → ℕ
at_most a b = if ltb b a then b else a

module _ (stride : ℕ) (d : Area) (dx dy : ℕ) where
  abbrev pub tile_at : ℕ → ℕ → ℕ → Tile
  tile_at x y img = record {
    x0 = x;
    y0 = y;
    x1 = at_most (x + dx) d.x1;
    y1 = at_most (y + dy) d.y1;
    img = img;
  }

  -- The loop: the tiles in order, `none` being the end of the fuel. After `for (; y < y1; ++y)` y is
  -- y1, and img is as many rows further on.
  unfoldable pub tiles : ℕ → ℕ → ℕ → ℕ → Option (List Tile)
  tiles zero x y img = none
  tiles (suc fuel) x y img =
      let t = tile_at x y img in
      let y' = if ltb y t.y1 then t.y1 else y in
      let img' = img + (y' - y) * stride in
      let x'' = if ltb t.x1 d.x1 then t.x1 else d.x0 in
      let y'' = if ltb t.x1 d.x1 then y' - 1 else y' in
      let more = tiles fuel x'' y'' img' in
      if y'' == d.y1 then some (t ∷ []) else elim more [ none ↦ none | some ts ↦ some (t ∷ ts) ]

-- The rows of the tile.
abbrev pub rows : ℕ → ℕ → ℕ → ℕ → List ℕ → List ℕ
rows zero n img stride buffer = []
rows (suc k) n img stride buffer = take n (drop img buffer) ++ rows k n (img + stride) stride buffer

-- What is written for a tile: 'y', the image, the box on the screen, the pixels, and 'v' at the
-- end.
unfoldable pub tile_message : ℕ → ℕ → ℕ → ℕ → List ℕ → Bool → Tile → List ℕ
tile_message image wx wy stride buffer last t =
    b'y' ∷ putle32 image
    ++ (putle32 (wx + t.x0)
        ++ (putle32 (wy + t.y0)
            ++ (putle32 (wx + t.x1)
                ++ (putle32 (wy + t.y1)
                    ++ (rows (t.y1 - t.y0) (4 * (t.x1 - t.x0)) t.img stride buffer
                        ++ (if last then b'v' ∷ [] else []))))))

abbrev pub messages : ℕ → ℕ → ℕ → ℕ → List ℕ → List Tile → List (List ℕ)
messages image wx wy stride buffer [] = []
messages image wx wy stride buffer (t ∷ []) = tile_message image wx wy stride buffer true t ∷ []
messages image wx wy stride buffer (t ∷ u ∷ ts) =
    tile_message image wx wy stride buffer false t ∷ messages image wx wy stride buffer (u ∷ ts)

-- What `drawcopy` does to the surface once all is written: no damage is left, and the callbacks,
-- which are told that the frame is done, are destroyed.
unfoldable pub drawn : Surface → Surface × List ℕ
drawn s = (
  record s {
    pending = record s.pending { damage = no_box };
    state = record s.state { callbacks = [] };
  },
  s.state.callbacks,
)

-- The clipping in `toplevel_commit` of the damage to the window's width and height.
abbrev pub clip : Area → ℕ → ℕ → Area
clip d width height = record d { x1 = at_most d.x1 width; y1 = at_most d.y1 height }

-- The tiles for a commit, with a buffer for the messages of `buflen` bytes.
unfoldable pub commit_tiles : ℕ → ℕ → ℕ → Area → ℕ → ℕ → Option (List Tile)
commit_tiles fuel buflen stride damage width height =
    let d = clip damage width height in
    elim (tile_size (buflen - 22) (d.x1 - d.x0)) [
      | none ↦ none
      | some (dx, dy) ↦ tiles stride d dx dy fuel d.x0 d.y0 (d.x0 * 4 + d.y0 * stride)
    ]
