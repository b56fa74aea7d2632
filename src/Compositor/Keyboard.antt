-- ===== src/Compositor/Keyboard.antt =====
-- `kbdevent` and `kbdread` of wl9.c: the messages of a window's kbd file.
pub mod Messages
pub mod Press
pub mod Total
use wl.Prelude.{
  ℕ, zero, suc, ◌+◌, ◌-◌, ◌*◌, ◌/◌, ◌%◌, ◌^◌, bit_or, Bool, true, false, not, ◌&&◌, ◌||◌, Option,
  none, some, List, [], ◌∷◌, ◌++◌, map, length, drop, ltb, ◌==◌, if◌then◌else◌,
}
use wl.Util.Utf8.{char, invalid, fault, utf8dec}
use wl.Keymap.Runes.{keymapmod}
use wl.Compositor.Focus.{
  Resource, Window, Note, enter_keyboard, modifiers, key, Group, next_serial, same_window, kbdfocus,
  set_focus,
}

-- The group of `kbd`, the modifiers told last, and the keys of the window that the message is for.
pub record Keyboard : Type 0 where
  pub group : Group
  pub mods : ℕ
  pub keys : List ℕ

-- The bytes before the first NUL, and those behind it.
abbrev pub split_nul : List ℕ → Option (List ℕ × List ℕ)
split_nul [] = none
split_nul (b ∷ s) =
    if b == 0
    then some ([], s)
    else elim (split_nul s) [ none ↦ none | some (text, rest) ↦ some (b ∷ text, rest) ]

-- The loop over the characters, each of one byte at least: none is an error.
unfoldable pub decode_keys : ℕ → List ℕ → Option (List ℕ)
decode_keys fuel [] = some []
decode_keys zero (b ∷ s) = none
decode_keys (suc fuel) (b ∷ s) = elim (utf8dec (b ∷ s) (length (b ∷ s))) [
  | char c l ↦ elim (decode_keys fuel (drop l (b ∷ s))) [ none ↦ none | some cs ↦ some (c ∷ cs) ]
  | invalid ↦ none
  | fault ↦ none
]

-- All but the last key, and the last.
abbrev pub split_last : List ℕ → Option (List ℕ × ℕ)
split_last [] = none
split_last (k ∷ ks) = elim (split_last ks) [
  | none ↦ some ([], k)
  | some (before, last) ↦ some (k ∷ before, last)
]

abbrev pub all_mods : List ℕ → ℕ → ℕ
all_mods [] mods = mods
all_mods (k ∷ ks) mods = all_mods ks (bit_or mods (keymapmod k))

abbrev pub has_key : List ℕ → ℕ → Bool
has_key [] k = false
has_key (x ∷ xs) k = x == k || has_key xs k

-- The loop over the old keys: how many are not found, and the event's key. On a press the loop
-- stops at the first.
unfoldable pub compare_keys : Bool → List ℕ → List ℕ → ℕ → ℕ → ℕ × ℕ
compare_keys pressed keys [] notfound eventkey = (notfound, eventkey)
compare_keys pressed keys (old ∷ olds) notfound eventkey =
    let found = compare_keys pressed keys olds notfound eventkey in
    let lost = compare_keys pressed keys olds (notfound + 1) old in
    if has_key keys old then found else if pressed then (notfound + 1, eventkey) else lost

-- `keys.size != w->keys.size - !state * sizeof *key`, where the difference may wrap around.
abbrev pub other_size : Bool → List ℕ → List ℕ → Bool
other_size pressed keys olds = not (length keys + (if pressed then 0 else 1) == length olds)

-- `needenter` and `eventkey`, for the window that has focus.
abbrev pub needs_enter : Bool → List ℕ → List ℕ → ℕ → Bool × ℕ
needs_enter pressed keys olds eventkey =
    let (notfound, eventkey') = compare_keys pressed keys olds 0 eventkey in
    if other_size pressed keys olds
    then (true, eventkey)
    else (not (notfound == (if pressed then 0 else 1)), eventkey')

-- `ts.tv_sec * 1000ul + ts.tv_sec / 1000000ul` in a uint32_t, `none` where clock_gettime fails.
abbrev pub event_time : Option ℕ → ℕ
event_time none = 0
event_time (some sec) = (sec * 1000 + sec / 1000000) % 2 ^ 32

abbrev pub tell : (Resource → List Note) → List Resource → List Note
tell say [] = []
tell say (r ∷ rs) = say r ++ tell say rs

abbrev pub say_enter : ℕ → Window → List ℕ → ℕ → Resource → List Note
say_enter serial w keys mods r =
    enter_keyboard r.id serial w.surface keys ∷ modifiers r.id serial mods ∷ []

abbrev pub say_key : ℕ → ℕ → ℕ → ℕ → ℕ → ℕ → Resource → List Note
say_key serial time eventkey state mods old_mods r =
    key r.id serial time eventkey state
    ∷ (if mods == old_mods then [] else modifiers r.id serial mods ∷ [])

abbrev pub add_notes : List Note → Group → Group
add_notes ns g = record g { notes = g.notes ++ ns }

-- From `serial = wl_display_next_serial(dpy)` on. `keys` are the keys without the one pressed.
abbrev pub send_event : Option ℕ → Window → Bool → List ℕ → Bool → ℕ → ℕ → Keyboard → Keyboard
send_event clock w pressed keys needenter eventkey mods k =
    let g = next_serial k.group in
    let g1 =
      if needenter
      then set_focus (some w) (add_notes (tell (say_enter g.serial w keys mods) g.active) g)
      else g in
    let mods1 = if pressed then bit_or mods (keymapmod eventkey) else mods in
    let mods2 = if not needenter || pressed then mods1 else mods in
    let g2 =
      if not needenter || pressed
      then add_notes
          (tell
            (say_key g.serial (event_time clock) eventkey (if pressed then 1 else 0) mods1 k.mods)
            g1.active)
          g1
      else g1 in
    record { group = g2; mods = mods2; keys = if pressed then keys ++ eventkey ∷ [] else keys }

-- From `mods = 0` on.
abbrev pub handle_keys : Option ℕ → Window → Bool → List ℕ → ℕ → Keyboard → Keyboard
handle_keys clock w pressed keys eventkey k =
    let (needenter, eventkey') = needs_enter pressed keys k.keys eventkey in
    if same_window k.group.focus (some w)
    then send_event clock w pressed keys needenter eventkey' (all_mods keys 0) k
    else send_event clock w pressed keys true eventkey (all_mods keys 0)
        (record k { group = kbdfocus (some w) k.group })

-- What becomes of the state, and the bytes behind the event, NULL being `none`.
abbrev pub Handled : Type 0
Handled = Keyboard × Option (List ℕ)

-- `copies` says whether wl_array_copy finds memory: without it the keys stay.
abbrev pub keep_keys : Bool → Keyboard → List ℕ → Keyboard → Handled
keep_keys copies before rest k =
    if copies then (k, some rest) else (record k { keys = before.keys }, none)

abbrev pub handle_press : Bool → Option ℕ → Window → List ℕ → List ℕ → Keyboard → Handled
handle_press copies clock w keys rest k = elim (split_last keys) [
  | none ↦ (k, none)
  | some (before, last) ↦ keep_keys copies k rest (handle_keys clock w true before last k)
]

-- `room` says whether wl_array_add finds memory.
abbrev pub handle_text :
    Bool → Bool → Option ℕ → Window → Bool → List ℕ → List ℕ → Keyboard → Handled
handle_text room copies clock w pressed text rest k = elim (decode_keys (length text) text) [
  | none ↦ (k, none)
  | some keys ↦
      if not room && not (length keys == 0)
      then (k, none)
      else if pressed
      then handle_press copies clock w keys rest k
      else keep_keys copies k rest (handle_keys clock w false keys 0 k)
]

unfoldable pub kbdevent : Bool → Bool → Option ℕ → Window → List ℕ → Keyboard → Handled
kbdevent room copies clock w bytes k = elim (split_nul bytes) [
  | none ↦ (k, none)
  | some ([], rest) ↦ (k, some rest)
  | some (b ∷ text, rest) ↦
      if b == b'k'
      then handle_text room copies clock w true text rest k
      else if b == b'K'
      then handle_text room copies clock w false text rest k
      else (k, some rest)
]

-- The loop of `kbdread`, by the bytes left; `clock` answers for each event in turn, and `none` is
-- the end of the fuel.
unfoldable pub kbd_loop :
    ℕ → Bool → Bool → (ℕ → Option ℕ) → Window → List ℕ → Keyboard → Option Keyboard
kbd_loop fuel room copies clock w [] k = some k
kbd_loop zero room copies clock w (b ∷ s) k = none
kbd_loop (suc fuel) room copies clock w (b ∷ s) k =
    let (k', left) = kbdevent room copies (clock fuel) w (b ∷ s) k in
    elim left [ none ↦ some k' | some rest ↦ kbd_loop fuel room copies clock w rest k' ]
