-- ===== src/Compositor/Surface.antt =====
-- wl_surface in wl9.c: `create_surface`, `attach`, `damage`, `frame`, `commit`,
-- `surface_buffer_destroyed` and `destroy_surface`. A buffer is a number; the destroy listener of a
-- `struct surface_state` is linked to at most one buffer.
pub mod Listeners
pub mod Damage
use wl.Prelude.{
  ℕ, ◌+◌, Bool, true, false, not, Option, none, some, List, [], ◌∷◌, ◌++◌, ◌==◌, if◌then◌else◌,
  ◌||◌,
}
use wl.Prelude.Int.{ℤ, to_int, pos, negsuc, pos_part, neg_part, ◌+ℤ◌, ltb_ℤ}

pub record Box : Type 0 where
  pub x0 : ℤ
  pub y0 : ℤ
  pub x1 : ℤ
  pub y1 : ℤ

abbrev pub no_box : Box
no_box = record { x0 = negsuc 0; y0 = negsuc 0; x1 = negsuc 0; y1 = negsuc 0 }

-- `listening` is the buffer to whose destruction `buffer_destroy` is linked.
pub record SurfaceState : Type 0 where
  pub buffer : Option ℕ
  pub listening : Option ℕ
  pub callbacks : List ℕ
  pub damage : Box

-- `released` are the buffers that were given back to the client, the last one first; `role` is
-- the window that `commit` is set for.
pub record Surface : Type 0 where
  pub role : Option ℕ
  pub pending : SurfaceState
  pub state : SurfaceState
  pub released : List ℕ

abbrev pub new_state : SurfaceState
new_state = record { buffer = none; listening = none; callbacks = []; damage = no_box }

-- `none` where calloc or wl_resource_create fails.
unfoldable pub create_surface : Bool → Bool → Option Surface
create_surface room made =
    if room
    then if made
      then some (record { role = none; pending = new_state; state = new_state; released = [] })
      else none
    else none

-- wl_list_remove, and wl_resource_add_destroy_listener.
abbrev pub unlisten : SurfaceState → SurfaceState
unlisten s = record s { listening = none }

abbrev pub listen : ℕ → SurfaceState → SurfaceState
listen b s = record s { listening = some b }

abbrev pub has_buffer : SurfaceState → Bool
has_buffer s = elim s.buffer [ none ↦ false | some b ↦ true ]

abbrev pub set_buffer : Option ℕ → SurfaceState → SurfaceState
set_buffer none s = record s { buffer = none }
set_buffer (some b) s = listen b (record s { buffer = some b })

unfoldable pub attach : Option ℕ → Surface → Surface
attach b s = record s {
  pending = set_buffer b (if has_buffer s.pending then unlisten s.pending else s.pending);
}

abbrev pub eq_ℤ : ℤ → ℤ → Bool
eq_ℤ a b = pos_part a + neg_part b == pos_part b + neg_part a

-- `d->x0 == -1 || x0 < d->x0`, and with the other order.
abbrev pub lower : ℤ → ℤ → ℤ
lower old new = if eq_ℤ old (negsuc 0) || ltb_ℤ new old then new else old

abbrev pub higher : ℤ → ℤ → ℤ
higher old new = if eq_ℤ old (negsuc 0) || ltb_ℤ old new then new else old

abbrev pub grow_box : Box → ℤ → ℤ → ℤ → ℤ → Box
grow_box d x0 y0 x1 y1 = record {
  x0 = lower d.x0 x0;
  y0 = lower d.y0 y0;
  x1 = higher d.x1 x1;
  y1 = higher d.y1 y1;
}

-- The sums are ints, which wrap around.
unfoldable pub damage : ℤ → ℤ → ℤ → ℤ → Surface → Surface
damage x0 y0 w h s = record s {
  pending = record s.pending {
    damage = grow_box s.pending.damage x0 y0 (to_int (x0 +ℤ w)) (to_int (y0 +ℤ h));
  };
}

-- `none` where wl_resource_create fails.
unfoldable pub frame : Option ℕ → Surface → Surface
frame none s = s
frame (some cb) s = record s {
  pending = record s.pending { callbacks = s.pending.callbacks ++ cb ∷ [] };
}

abbrev pub same_buffer : Option ℕ → Option ℕ → Bool
same_buffer none none = true
same_buffer none (some b) = false
same_buffer (some a) none = false
same_buffer (some a) (some b) = a == b

-- The callbacks move to the front of those of the state.
abbrev pub take_callbacks : Surface → Surface
take_callbacks s = record s {
  pending = record s.pending { callbacks = [] };
  state = record s.state { callbacks = s.pending.callbacks ++ s.state.callbacks };
}

-- The buffer is released, if there is one, and its listener removed.
abbrev pub release_buffer : Surface → Surface
release_buffer s = elim s.state.buffer [
  | none ↦ s
  | some b ↦ record s { state = unlisten s.state; released = b ∷ s.released }
]

abbrev pub take_buffer : Surface → Surface
take_buffer s =
    if same_buffer s.state.buffer s.pending.buffer
    then s
    else let s' = release_buffer s in record s' { state = set_buffer s'.pending.buffer s'.state }

-- `run` is what the role's `commit` does.
unfoldable pub commit : (ℕ → Surface → Surface) → Surface → Surface
commit run s =
    let s' = take_callbacks s in take_buffer (elim s'.role [ none ↦ s' | some w ↦ run w s' ])

-- The destruction of a buffer, which calls the listeners that are linked to it, and unlinks them.
abbrev pub state_buffer_destroyed : ℕ → SurfaceState → SurfaceState
state_buffer_destroyed b s =
    if same_buffer s.listening (some b) then record s { buffer = none; listening = none } else s

unfoldable pub buffer_destroyed : ℕ → Surface → Surface
buffer_destroyed b s = record s {
  pending = state_buffer_destroyed b s.pending;
  state = state_buffer_destroyed b s.state;
}

-- The listeners that are still linked when the surface is freed.
unfoldable pub destroy_surface : Surface → Option ℕ × Option ℕ
destroy_surface s = (
  (if has_buffer s.state then unlisten s.state else s.state).listening,
  (if has_buffer s.pending then unlisten s.pending else s.pending).listening,
)
