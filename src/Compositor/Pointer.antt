-- ===== src/Compositor/Pointer.antt =====
-- `mouseaxis` and `mouseread` of wl9.c: the messages of a window's mouse file.
pub mod Buttons
use wl.Prelude.{
  ℕ, zero, suc, ◌+◌, ◌-◌, ◌*◌, ◌/◌, ◌%◌, ◌^◌, bit_and, bit_xor, Bool, true, false, not, ◌&&◌, ◌||◌,
  Option, none, some, List, [], ◌∷◌, ◌++◌, length, take, ltb, leb, ◌==◌, if◌then◌else◌,
}
use wl.Prelude.Int.{ℤ, pos, negsuc}
use wl.Libc.{strtoul}
use wl.Compositor.Focus.{
  Resource, Window, Note, motion, button, axis_value120, axis_discrete, axis, frame, Group,
  next_serial, same_window, mousefocus,
}

-- The window's x0, y0, mousex, mousey and button, each an int, here modulo 2^32; `x0` and `y0` in
-- the 64 bits that they have where they are subtracted.
pub record Mouse : Type 0 where
  pub group : Group
  pub x0 : ℕ
  pub y0 : ℕ
  pub mousex : ℕ
  pub mousey : ℕ
  pub button : ℕ

-- val is -1 or 1: what is sent with it is 120, 1 and 15 * 256 times it.
abbrev pub scaled : Bool → ℕ → ℤ
scaled up n = if up then negsuc (n - 1) else pos n

abbrev pub mouseaxis : ℕ → Bool → Resource → List Note
mouseaxis time up r =
    (if leb 8 r.version
      then axis_value120 r.id (scaled up 120) ∷ []
      else if leb 5 r.version
      then axis_discrete r.id (scaled up 1) ∷ []
      else [])
    ++ axis r.id time (scaled up (15 * 2 ^ 8)) ∷ []

abbrev pub bit_set : ℕ → ℕ → Bool
bit_set n i = not (bit_and n (2 ^ i) == 0)

-- The codes for the bits 0, 1 and 2 are 0x110, 0x112 and 0x111.
abbrev pub button_code : ℕ → ℕ
button_code i = if i == 0 then 0x110 else if i == 1 then 0x112 else 0x111

-- One turn of the inner loop: the serial, and what is sent.
abbrev pub say_button : ℕ → ℕ → ℕ → ℕ → Resource → ℕ → ℕ × List Note
say_button time pressed changed serial r i =
    if not (bit_set changed i)
    then (serial, [])
    else let serial' = (serial + 1) % 2 ^ 32 in
      (serial', button r.id serial' time (button_code i) (if bit_set pressed i then 1 else 0) ∷ [])

abbrev pub say_buttons : ℕ → ℕ → ℕ → ℕ → Resource → ℕ × List Note
say_buttons time pressed changed serial r =
    let (s0, n0) = say_button time pressed changed serial r 0 in
    let (s1, n1) = say_button time pressed changed s0 r 1 in
    let (s2, n2) = say_button time pressed changed s1 r 2 in (s2, n0 ++ (n1 ++ n2))

abbrev pub say_axis : ℕ → ℕ → Resource → List Note
say_axis time pressed r =
    if bit_set pressed 3
    then mouseaxis time true r
    else if bit_set pressed 4
    then mouseaxis time false r
    else []

abbrev pub say_frame : Resource → List Note
say_frame r = if leb 5 r.version then frame r.id ∷ [] else []

-- The loop over the active pointers.
unfoldable pub tell_buttons : ℕ → ℕ → ℕ → ℕ → List Resource → ℕ × List Note
tell_buttons time pressed changed serial [] = (serial, [])
tell_buttons time pressed changed serial (r ∷ rs) =
    let (s1, n1) = say_buttons time pressed changed serial r in
    let (s2, n2) = tell_buttons time pressed changed s1 rs in
    (s2, n1 ++ (say_axis time pressed r ++ (say_frame r ++ n2)))

abbrev pub tell_motion : ℕ → ℕ → ℕ → List Resource → List Note
tell_motion time x y [] = []
tell_motion time x y (r ∷ rs) =
    motion r.id time (x * 2 ^ 8 % 2 ^ 32) (y * 2 ^ 8 % 2 ^ 32) ∷ tell_motion time x y rs

-- An int as an unsigned long.
abbrev pub extended : ℕ → ℕ
extended n = if ltb n (2 ^ 31) then n else n + (2 ^ 64 - 2 ^ 32)

abbrev pub say_notes : List Note → Group → Group
say_notes ns g = record g { notes = g.notes ++ ns }

-- From `if (mouse.focus != w)` on.
unfoldable pub mouse_event : Window → ℕ → ℕ → ℕ → ℕ → Mouse → Mouse
unfolding tell_buttons
mouse_event w x y b t m =
    let g =
      if not (same_window m.group.focus (some w))
      then mousefocus (some w) (x % 2 ^ 32) (y % 2 ^ 32) m.group
      else if not (x == extended m.mousex) || not (y == extended m.mousey)
      then say_notes (tell_motion (t % 2 ^ 32) x y m.group.active) m.group
      else m.group in
    let pressed = bit_and b (2 ^ 64 - 1 - extended m.button) in
    let changed = bit_xor b (extended m.button) in
    let (serial, notes) = tell_buttons (t % 2 ^ 32) pressed changed g.serial g.active in
    record {
      group = record g { serial = serial; notes = g.notes ++ notes };
      x0 = m.x0;
      y0 = m.y0;
      mousex = x % 2 ^ 32;
      mousey = y % 2 ^ 32;
      button = b % 2 ^ 32;
    }

-- The numbers of the message behind its m: x, y, the buttons and the time.
abbrev pub mouse_numbers : List ℕ → ℕ × ℕ × ℕ × ℕ
mouse_numbers s =
    let (x, s1) = strtoul s in
    let (y, s2) = strtoul s1 in let (b, s3) = strtoul s2 in let (t, s4) = strtoul s3 in (x, y, b, t)

abbrev pub minus : ℕ → ℕ → ℕ
minus a b = (a + (2 ^ 64 - extended b)) % 2 ^ 64

-- `mouseread` once the next read is under way: the message has 49 bytes, of which the last is made
-- a NUL byte.
unfoldable pub mouse_message : Window → List ℕ → Mouse → Mouse
unfolding mouse_event
mouse_message w message m = if not (length message == 49) then m else elim message [
  | [] ↦ m
  | c ∷ s ↦
      if not (c == b'm')
      then m
      else let (x, y, b, t) = mouse_numbers (take 47 s) in
        mouse_event w (minus x m.x0) (minus y m.y0) b t m
]
