-- ===== src/Compositor/Focus.antt =====
-- `mousefocus`, `kbdfocus`, `get_pointer`, `get_keyboard` and `unlink_resource` of wl9.c: which
-- pointers and keyboards of the clients are told about the window under focus.
pub mod Groups
pub mod Members
use wl.Prelude.{
  ℕ, suc, ◌+◌, ◌*◌, ◌%◌, ◌^◌, Bool, true, false, not, ◌&&◌, Option, none, some, List, [], ◌∷◌, ◌++◌,
  map, ◌==◌, if◌then◌else◌,
}
use wl.Prelude.Int.{ℤ}

-- A wl_pointer or wl_keyboard.
pub record Resource : Type 0 where
  pub id : ℕ
  pub client : ℕ
  pub version : ℕ

-- What focus needs of a window: its identity, its client and its wl_surface.
pub record Window : Type 0 where
  pub id : ℕ
  pub client : ℕ
  pub surface : ℕ

-- What is sent to a resource, the first number: a leave, an enter with a place (of a pointer), an
-- enter with the keys that are down (of a keyboard), the modifiers, a key with its state, the
-- keymap, and what else a pointer is told. Serials and times are kept to 32 bits.
pub data Note : Type 0 where
  leave : ℕ → ℕ → ℕ → Note
  enter_pointer : ℕ → ℕ → ℕ → ℕ → ℕ → Note
  enter_keyboard : ℕ → ℕ → ℕ → List ℕ → Note
  keymap : ℕ → Note
  modifiers : ℕ → ℕ → ℕ → Note
  key : ℕ → ℕ → ℕ → ℕ → ℕ → Note
  motion : ℕ → ℕ → ℕ → ℕ → Note
  button : ℕ → ℕ → ℕ → ℕ → ℕ → Note
  axis_value120 axis_discrete : ℕ → ℤ → Note
  axis : ℕ → ℕ → ℤ → Note
  frame : ℕ → Note

-- `mouse` or `kbd`. The lists begin at their heads' next.
pub record Group : Type 0 where
  pub focus : Option Window
  pub active : List Resource
  pub inactive : List Resource
  pub serial : ℕ
  pub notes : List Note

-- wl_display_next_serial
abbrev pub next_serial : Group → Group
next_serial g = record g { serial = (g.serial + 1) % 2 ^ 32 }

-- wl_pointer_send_leave or wl_keyboard_send_leave to every active resource, which are then put in
-- front of the inactive ones.
unfoldable pub leave_all : Group → Group
leave_all g = elim g.focus [
  | none ↦ g
  | some w ↦ record g {
    active = [];
    inactive = g.active ++ g.inactive;
    notes = g.notes ++ map (λ (r : Resource). leave r.id g.serial w.surface) g.active;
  }
]

-- The loop over the inactive resources: each of the client goes to the front of the active ones.
unfoldable pub enter_loop :
    ℕ
    → (Resource → Note)
    → List Resource
    → List Resource
    → List Note
    → List Resource × List Resource × List Note
enter_loop client say [] active notes = (active, [], notes)
enter_loop client say (r ∷ rs) active notes =
    let (active', inactive', notes') =
      enter_loop client say rs (r ∷ active) (notes ++ say r ∷ []) in
    let (active'', inactive'', notes'') = enter_loop client say rs active notes in
    if r.client == client then (active', inactive', notes') else (active'', r ∷ inactive'', notes'')

unfoldable pub enter_all : (Window → ℕ → Resource → Note) → Option Window → Group → Group
enter_all say none g = g
enter_all say (some w) g =
    let (active, inactive, notes) =
      enter_loop w.client (say w g.serial) g.inactive g.active g.notes in
    record g { active = active; inactive = inactive; notes = notes }

abbrev pub set_focus : Option Window → Group → Group
set_focus w g = record g { focus = w }

-- x and y are ints, `x << 8` is kept to 32 bits.
abbrev pub say_pointer : ℕ → ℕ → Window → ℕ → Resource → Note
say_pointer x y w serial r =
    enter_pointer r.id serial w.surface (x * 2 ^ 8 % 2 ^ 32) (y * 2 ^ 8 % 2 ^ 32)

abbrev pub say_keyboard : Window → ℕ → Resource → Note
say_keyboard w serial r = enter_keyboard r.id serial w.surface []

unfoldable pub mousefocus : Option Window → ℕ → ℕ → Group → Group
unfolding leave_all enter_all
mousefocus w x y g = set_focus w (enter_all (say_pointer x y) w (leave_all (next_serial g)))

abbrev pub same_window : Option Window → Option Window → Bool
same_window none none = true
same_window none (some w) = false
same_window (some w) none = false
same_window (some w) (some v) = w.id == v.id

unfoldable pub kbdfocus : Option Window → Group → Group
unfolding leave_all enter_all
kbdfocus w g =
    if same_window g.focus w
    then g
    else set_focus w (enter_all say_keyboard w (leave_all (next_serial g)))

-- `w && client == wl_resource_get_client(w->xdgsurface)`
abbrev pub is_active : ℕ → Option Window → Bool
is_active client none = false
is_active client (some w) = client == w.client

abbrev pub link : Resource → Group → Group
link r g =
    if is_active r.client g.focus
    then record g { active = r ∷ g.active }
    else record g { inactive = r ∷ g.inactive }

-- `made` is the new resource, or NULL.
unfoldable pub get_pointer : Option Resource → Group → Group
get_pointer none g = g
get_pointer (some r) g = link r g

unfoldable pub get_keyboard : Option Resource → Group → Group
get_keyboard none g = g
get_keyboard (some r) g = link r (record g { notes = g.notes ++ keymap r.id ∷ [] })

abbrev pub without : ℕ → List Resource → List Resource
without i [] = []
without i (r ∷ rs) = if r.id == i then without i rs else r ∷ without i rs

-- `unlink_resource`, when a resource is destroyed.
unfoldable pub unlink_resource : ℕ → Group → Group
unlink_resource i g = record g { active = without i g.active; inactive = without i g.inactive }
