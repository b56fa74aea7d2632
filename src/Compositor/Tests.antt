-- ===== src/Compositor/Tests.antt =====
-- Runs of wl9.c, and its theorems at concrete inputs.
use wl.Prelude.{
  ℕ, ◌+◌, ◌-◌, ◌*◌, ◌%◌, ◌^◌, ◌≤◌, ◌≡◌, ◌≢◌, refl, inl, true, false, none, some, List, [], ◌∷◌,
  ◌++◌, arith, length, All, bit_or,
}
use wl.Prelude.Int.{pos}
use wl.Libc.{codes}
use wl.Keymap.Runes.{keymapmod}
use wl.Fs.State.{Reply, rread}
use wl.Compositor.Focus.{
  Resource, Window, Group, mousefocus, say_pointer, get_pointer, get_keyboard, unlink_resource,
}
use wl.Compositor.Focus.Groups.{IsGroup, moved_to, mousefocus-moves}
use wl.Compositor.Focus.Members.{MadeJoins, Leaves, get-IsGroup}
use wl.Compositor.Surface.{
  create_surface, Surface, new_state, no_box, attach, damage, frame, commit, buffer_destroyed,
  destroy_surface,
}
use wl.Compositor.Surface.Listeners.{IsSurface, Created, surface-IsSurface}
use wl.Compositor.Surface.Damage.{Rect, Covers, damage_all, damage-Covers}
use wl.Compositor.Keyboard.{Keyboard, kbdevent, kbd_loop, all_mods}
use wl.Compositor.Keyboard.Messages.{encodings}
use wl.Compositor.Keyboard.Press.{told, kbdevent_press, kbdevent_release}
use wl.Compositor.Keyboard.Total.{kbd_loop-total}
use wl.Compositor.Pointer.{Mouse, mouse_event}
use wl.Compositor.Pointer.Buttons.{HasFocus, mouse_event-HasFocus}
use wl.Compositor.Draw.{Area, Tile, clip, commit_tiles, tile_size}
use wl.Compositor.Draw.Tiles.{Stacked, commit_tiles-Stacked}
use wl.Compositor.Options.{splitpath, split}
use wl.Compositor.Options.Paths.{joined, splitpath-joined}
use wl.Compositor.Snarf.{Get}
use wl.Compositor.Snarf.Transfer.{contents, get_all, get_all-contents}
use wl.Compositor.Control.{Control, read_control, update}
use wl.Compositor.Control.Report.{
  field, flag_words, inside, drawing, focusing, telling, read_control-inside, update-settles,
}

-- Two clients with a resource each, and a window of the first under focus.
abbrev mine : Resource
mine = record { id = 1; client = 10; version = 5 }

abbrev theirs : Resource
theirs = record { id = 2; client = 20; version = 8 }

abbrev my_window : Window
my_window = record { id = 100; client = 10; surface = 1000 }

abbrev their_window : Window
their_window = record { id = 200; client = 20; surface = 2000 }

abbrev group : Group
group = record {
  focus = some my_window;
  active = mine ∷ [];
  inactive = theirs ∷ [];
  serial = 7;
  notes = [];
}

group-IsGroup : IsGroup group
group-IsGroup = record { active = (refl, tt); inactive = (refl, tt) }

mousefocus-moves_example :
    (mousefocus (some their_window) 3 4 group
      ≡ moved_to (say_pointer 3 4) (some their_window) group)
    × IsGroup (mousefocus (some their_window) 3 4 group)
mousefocus-moves_example = mousefocus-moves (some their_window) 3 4 group group-IsGroup

get-IsGroup_example :
    (IsGroup (get_pointer (some mine) group)
      × MadeJoins (some mine) group (get_pointer (some mine) group))
    × (IsGroup (get_keyboard (some mine) group)
        × MadeJoins (some mine) group (get_keyboard (some mine) group))
    × (IsGroup (unlink_resource 1 group)
        × Leaves 1 group.active (unlink_resource 1 group).active
        × Leaves 1 group.inactive (unlink_resource 1 group).inactive)
get-IsGroup_example = get-IsGroup (some mine) 1 group group-IsGroup

abbrev surface : Surface
surface = record {
  role = some 1;
  pending = record new_state { buffer = some 4; listening = some 4 };
  state = record new_state { buffer = some 3; listening = some 3; callbacks = 8 ∷ [] };
  released = [];
}

abbrev run_role : ℕ → Surface → Surface
run_role w s = record s { pending = record s.pending { damage = no_box } }

surface-IsSurface_example :
    IsSurface (attach (some 5) surface)
    × IsSurface (damage (pos 0) (pos 0) (pos 9) (pos 9) surface)
    × IsSurface (frame (some 6) surface)
    × IsSurface (commit run_role surface)
    × IsSurface (buffer_destroyed 4 surface)
    × ((buffer_destroyed 4 surface).pending.buffer ≢ some 4)
    × ((buffer_destroyed 4 surface).state.buffer ≢ some 4)
    × (destroy_surface surface ≡ (none, none))
    × Created (create_surface true true)
surface-IsSurface_example =
    surface-IsSurface run_role surface (some 5) 4 (pos 0) (pos 0) (pos 9) (pos 9) (some 6) true true
      (λ w s h. record { pending = h.pending; state = h.state })
      (record { pending = refl; state = refl })

commit_releases : (commit run_role surface).released ≡ 3 ∷ []
unfolding commit
commit_releases = refl

abbrev rects : List Rect
rects =
    record { x = 5; y = 6; width = 2; height = 2 }
    ∷ record { x = 1; y = 9; width = 3; height = 4 }
    ∷ []

damage-Covers_example : All (Covers (damage_all rects surface).pending.damage) rects
damage-Covers_example =
    damage-Covers rects surface ((omega arith, omega arith), ((omega arith, omega arith), tt)) refl

-- The key a is down.
abbrev keyboard : Keyboard
keyboard = record { group = group; mods = 0; keys = 97 ∷ [] }

kbdevent_press_example :
    kbdevent true true
      (some 12)
      my_window
      (b'k' ∷ encodings ((97 ∷ []) ++ 0x20ac ∷ []) ++ 0 ∷ (1 ∷ []))
      keyboard
    ≡ (
      told
          (some 12)
          true
          0x20ac
          (bit_or (all_mods (97 ∷ []) 0) (keymapmod 0x20ac))
          ((97 ∷ []) ++ 0x20ac ∷ [])
          keyboard,
      some (1 ∷ []),
    )
kbdevent_press_example =
    kbdevent_press (some 12) my_window (97 ∷ []) (1 ∷ []) 0x20ac keyboard
      (
        ((omega arith, inl (omega arith)), omega arith),
        (((omega arith, inl (omega arith)), omega arith), tt),
      )
      refl refl

kbdevent_release_example :
    kbdevent true true (some 12) my_window (b'K' ∷ encodings ([] ++ []) ++ 0 ∷ []) keyboard
    ≡ (told (some 12) false 97 (all_mods ([] ++ []) 0) ([] ++ []) keyboard, some [])
kbdevent_release_example =
    kbdevent_release (some 12) my_window [] [] [] 97 keyboard tt refl refl refl

kbd_loop-total_example :
    (k' : Keyboard) × (kbd_loop 4 true true
        (λ i. none)
        my_window
        (b'c' ∷ 0 ∷ b'k' ∷ 97 ∷ [])
        keyboard
      ≡ some k')
kbd_loop-total_example =
    kbd_loop-total 4 true true (λ i. none) my_window (b'c' ∷ 0 ∷ b'k' ∷ 97 ∷ []) keyboard
      (omega arith)

abbrev mouse : Mouse
mouse = record { group = group; x0 = 10; y0 = 10; mousex = 0; mousey = 0; button = 1 }

mouse_event-HasFocus_example :
    HasFocus their_window (mouse_event their_window 3 4 2 99 mouse).group
    × ((mouse_event their_window 3 4 2 99 mouse).mousex ≡ 3 % 2 ^ 32)
    × ((mouse_event their_window 3 4 2 99 mouse).button ≡ 2 % 2 ^ 32)
mouse_event-HasFocus_example = mouse_event-HasFocus their_window 3 4 2 99 mouse group-IsGroup

abbrev area : Area
area = record { x0 = 10; y0 = 20; x1 = 1000; y1 = 100 }

commit_tiles-Stacked_example :
    (dy : ℕ) × (ts : List Tile) × (commit_tiles 90 32768 4096 area 800 90 ≡ some ts)
    × Stacked 4096 (clip area 800 90) dy area.y0 ts
    × (4 * ((clip area 800 90).x1 - area.x0) * dy + 22 ≤ 32768)
commit_tiles-Stacked_example =
    commit_tiles-Stacked 90 32768 4096 area 800 90 (omega arith) (omega arith) (omega arith)
      (omega arith)

-- An area without width is a division by zero.
no_width : commit_tiles 5 32768 4096 (record { x0 = 1; y0 = 1; x1 = 1; y1 = 2 }) 800 90 ≡ none
unfolding commit_tiles tile_size
no_width = refl

splitpath-joined_example :
    splitpath 16 (joined (codes "mnt" ∷ codes "wsys" ∷ []))
    ≡ split (codes "mnt" ∷ codes "wsys" ∷ [])
splitpath-joined_example = splitpath-joined 16 (codes "mnt") (codes "wsys" ∷ []) (omega arith) both
  where
    both : All (All (λ c. (c ≢ b'/') × (c ≢ 0))) (codes "mnt" ∷ codes "wsys" ∷ [])
    both = ground arith

abbrev replies : List Reply
replies =
    record { kind = rread; tag = 1; text = []; content = codes "snarf" }
    ∷ record { kind = rread; tag = 2; text = []; content = codes "ed" }
    ∷ []

abbrev get : Get
get = record {
  offset = 0;
  written = [];
  asked = 0 ∷ [];
  answers = some 5 ∷ some 2 ∷ [];
  open_ = true;
}

get_all-contents_example :
    ((get_all replies get).written ≡ get.written ++ contents replies)
    × ((get_all replies get).offset ≡ (get.offset + length (contents replies)) % 2 ^ 64)
    × ((get_all replies get).open_ ≡ get.open_)
    × (length (get_all replies get).asked ≡ length get.asked + length replies)
get_all-contents_example =
    get_all-contents replies [] get
      ((λ e. omega (arith, e), omega arith), ((λ e. omega (arith, e), omega arith), tt)) refl
      (omega arith)

read_control-inside_example :
    read_control
      (field 9 11 10 (field 9 11 20 (field 8 11 300 (field 8 11 400 (flag_words true false)))))
    ≡ some (inside 10 20 300 400 true false)
read_control-inside_example =
    read_control-inside 9 9 8 8 10 20 300 400 true false (omega arith) (omega arith) (omega arith)
      (omega arith)

abbrev before : Control
before = inside 0 0 100 100 false true

abbrev after : Control
after = inside 10 20 300 400 true false

update-settles_example :
    ((update true true after before).0 ≡ after)
    × ((update true true after before).1
        ≡ (drawing after before ++ focusing after before) ++ telling after before)
update-settles_example = update-settles after before
