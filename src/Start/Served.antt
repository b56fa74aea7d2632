-- ===== src/Start/Served.antt =====
-- What a 9P server answers in the runs of the start: $wsys is /mnt/wsys, the screen 1920 by 1080, and
-- /dev/kbmap has two lines.
use wl.Prelude.{
  ℕ, ◌≡◌, refl, Bool, true, false, List, [], ◌∷◌, ◌++◌, ◌==◌, if◌then◌else◌, inl, inr, Bool-cases,
  arith,
}
use wl.Libc.{codes}
use wl.Keymap.Stdin.{IsText}
use wl.Fs.State.{Event, rversion, rattach, rwalk, ropen, rclunk}
use wl.Windows.Served.{reply, said}
use wl.Start.Place.{column}

abbrev key_0 : List ℕ
key_0 = codes "          0          30          97"

abbrev key_1 : List ℕ
key_1 = codes "          1          30          65"

abbrev pub two_keys : List (List ℕ)
two_keys = key_0 ∷ key_1 ∷ []

abbrev plain : List ℕ → Bool
plain [] = true
plain (c ∷ s) = if c == b'\n' then false else plain s

plain-IsText : (s : List ℕ) → plain s ≡ true → IsText s
plain-IsText [] e = tt
plain-IsText (c ∷ s) e = elim (Bool-cases (c == b'\n')) [
  | inl newline ↦ absurd (ground (arith, newline, e))
  | inr other ↦ (other, plain-IsText s (ground (arith, other, e)))
]

pub two_texts : IsText key_0 × IsText key_1
two_texts = (plain-IsText key_0 refl, plain-IsText key_1 refl)

-- /dev/draw/new, with three fields that are not looked at.
abbrev pub new_screen : List ℕ
new_screen =
    column 10 7
    ++ (codes "          0    x8r8g8b8           0 "
        ++ (column 10 0 ++ (column 10 0 ++ (column 7 1920 ++ (column 7 1080 ++ 32 ∷ [])))))

-- The replies to what `connect` sends, in order.
abbrev pub starting : List Event
starting =
    reply rversion 0
    ∷ reply rattach 0
    ∷ reply rwalk 0
    ∷ reply ropen 0
    ∷ said 0 (codes "/mnt/wsys")
    ∷ reply rwalk 0
    ∷ reply rwalk 0
    ∷ reply ropen 0
    ∷ reply rwalk 0
    ∷ reply ropen 0
    ∷ said 0 new_screen
    ∷ reply rwalk 0
    ∷ reply ropen 0
    ∷ []

-- The replies to what `keymapinit` sends.
abbrev pub keys_read : List Event
keys_read =
    reply rwalk 0
    ∷ reply ropen 0
    ∷ said 0 (key_0 ++ b'\n' ∷ [])
    ∷ said 0 (key_1 ++ b'\n' ∷ [])
    ∷ said 0 []
    ∷ reply rclunk 0
    ∷ []
