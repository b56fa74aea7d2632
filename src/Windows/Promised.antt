-- ===== src/Windows/Promised.antt =====
-- What `winnew` promises of a window, and what it needs of the handler that reads the first message.
use wl.Prelude.{ℕ, ◌≡◌, ◌⊎◌, Option, none, some, List, [], ◌∷◌}
use wl.Util.NumTab.Numbers.{IsNumTab}
use wl.Fs.State.{Callback, Reply, Aux}
use wl.Fs.Requests.Fids.{Restored}
use wl.Windows.{wctlread_fn, mouseread_fn, kbdread_fn, Window, Ended, ended}
use wl.Windows.Owned.{Owns}
use wl.Windows.Loops.{Calls, calling, NotStuck}
use wl.Windows.Numbers.{AllSome}
use wl.Windows.Opens.{window_fids}
use wl.Windows.Open.{Opened, opened, unopened}

abbrev pub no_fids : List (Option ℕ)
no_fids = none ∷ none ∷ none ∷ none ∷ none ∷ []

-- The function that handles a tag of the window.
abbrev pub ForTag : Window → Option ℕ → ℕ → Type 0
ForTag w fn i =
    ((fn ≡ some wctlread_fn) × (i ≡ w.wctltag))
    ⊎ (((fn ≡ some mouseread_fn) × (i ≡ w.mousetag)) ⊎ ((fn ≡ some kbdread_fn) × (i ≡ w.kbdtag)))

-- The window is called back for its three tags only, by the function that handles each.
abbrev pub IsAttached : Window → Aux → Type 0
IsAttached w a = (c : Callback) (i : ℕ) → c.arg ≡ w.id → Calls a c i → ForTag w c.fn i

-- A handler that leaves the window's file numbers alone, and those in use, and sets a callback only
-- for the window and its wctltag.
pub record WindowKept (w : Window) (a : Aux) (w' : Window) (a' : Aux) : Type 0 where
  pub id : w'.id ≡ w.id
  pub wsys : w'.wsys ≡ w.wsys
  pub files : window_fids w' ≡ window_fids w
  pub table : a'.fid ≡ a.fid
  pub tags : IsNumTab a'.tag
  pub calls :
      (v : Callback) (i : ℕ)
      → Calls a' v i
      → Calls a v i ⊎ ((v ≡ calling wctlread_fn w.id) × (i ≡ w'.wctltag))
  pub others : (w'.mousetag ≡ w.mousetag) × (w'.kbdtag ≡ w.kbdtag) × (w'.surface ≡ w.surface)

abbrev pub EndedKeeps : Window → Aux → Ended → Type 0
EndedKeeps w a (ended w' a') = WindowKept w a w' a'
EndedKeeps w a (Ended.halted h) = NotStuck h

abbrev pub KeepsWindow : (Reply → Window → Aux → Ended) → Type 0
KeepsWindow wctl = (r : Reply) (w : Window) (a : Aux) → IsNumTab a.tag → EndedKeeps w a (wctl r w a)

-- All six have numbers, or none has and at most one number is lost.
abbrev pub Settles : Window → Aux → Opened → Type 0
Settles w a (opened w' term a') =
    Owns a.fid (w'.wsys ∷ window_fids w') a'.fid
    × AllSome (w'.wsys ∷ window_fids w')
    × IsNumTab a'.tag
    × (w'.id ≡ w.id)
    × (w'.surface ≡ w.surface)
    × ((v : Callback) (i : ℕ) → Calls a' v i → Calls a v i ⊎ ((v.arg ≡ w.id) × ForTag w' v.fn i))
Settles w a (unopened w' term a') =
    (w'.wsys ≡ none)
    × (window_fids w' ≡ no_fids)
    × IsNumTab a'.tag
    × (Restored a.fid a'.fid ⊎ ((n : ℕ) × Owns a.fid (some n ∷ []) a'.fid))
Settles w a (Opened.halted h) = NotStuck h
