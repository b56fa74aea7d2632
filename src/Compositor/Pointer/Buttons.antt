-- ===== src/Compositor/Pointer/Buttons.antt =====
-- After a message of its mouse file a window has the focus of the pointers.
use wl.Prelude.{
  ℕ, ◌+◌, ◌%◌, ◌^◌, ◌≡◌, refl, ◌⊎◌, inl, inr, Bool, true, false, not, ◌||◌, some, List, [], ◌==◌,
  if◌then◌else◌, arith, Bool-cases,
}
use wl.Compositor.Focus.{Note, Window, Group, same_window, mousefocus}
use wl.Compositor.Focus.Groups.{IsGroup, mousefocus-moves}
use wl.Compositor.Pointer.{Mouse, extended, say_notes, tell_motion, mouse_event}

-- The window has the focus of a sound group.
abbrev pub HasFocus : Window → Group → Type 0
HasFocus w g = IsGroup g × (same_window g.focus (some w) ≡ true)

focused : (w : Window) (x y : ℕ) (g : Group) → IsGroup g → HasFocus w (mousefocus (some w) x y g)
focused w x y g h = let (e, valid) = mousefocus-moves (some w) x y g h in (valid, rw e (same w.id))
  where
    same : (n : ℕ) → (n == n) ≡ true
    same n = ground arith

-- On a group whose active pointers are those of the client under focus, whatever a message says,
-- after it the window has the focus, and the active pointers are those of its client; the column
-- and the buttons kept are those of the message, in 32 bits.
pub mouse_event-HasFocus :
    (w : Window) (x y b t : ℕ) (m : Mouse)
    → IsGroup m.group
    → HasFocus w (mouse_event w x y b t m).group
      × ((mouse_event w x y b t m).mousex ≡ x % 2 ^ 32)
      × ((mouse_event w x y b t m).button ≡ b % 2 ^ 32)
unfolding mouse_event
mouse_event-HasFocus w x y b t m h =
    (kept (step (Bool-cases (same_window m.group.focus (some w)))), refl, refl)
  where
    moving : Group
    moving =
        if not (x == extended m.mousex) || not (y == extended m.mousey)
        then say_notes (tell_motion (t % 2 ^ 32) x y m.group.active) m.group
        else m.group

    before : Group
    before =
        if not (same_window m.group.focus (some w))
        then mousefocus (some w) (x % 2 ^ 32) (y % 2 ^ 32) m.group
        else moving

    stays : same_window m.group.focus (some w) ≡ true → HasFocus w moving
    stays e = elim (Bool-cases (not (x == extended m.mousex) || not (y == extended m.mousey))) [
      | inl q ↦ rw q (record { active = h.active; inactive = h.inactive }, e)
      | inr q ↦ rw q (h, e)
    ]

    step :
        (same_window m.group.focus (some w) ≡ true) ⊎ (same_window m.group.focus (some w) ≡ false)
        → HasFocus w before
    step (inl e) = rw e (stays e)
    step (inr e) = rw e (focused w (x % 2 ^ 32) (y % 2 ^ 32) m.group h)

    kept : HasFocus w before → HasFocus w (mouse_event w x y b t m).group
    kept (valid, e) = (record { active = valid.active; inactive = valid.inactive }, e)

abbrev turn_of : Bool → ℕ → List Note → ℕ × List Note
turn_of same serial notes = if same then (serial, []) else ((serial + 1) % 2 ^ 32, notes)
