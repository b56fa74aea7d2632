-- ===== src/Windows/Reach/Safe.antt =====
-- A world in which nothing refers to a window that was freed.
use wl.Prelude.{
  [], ◌⊎◌, inl, inr, ℕ, ◌≡◌, ◌≢◌, refl, sym, ap, subst, ◌∙◌, Option, none, some, arith,
}
use wl.Util.NumTab.Numbers.{IsNumTab}
use wl.Fs.State.{Callback, Aux}
use wl.Compositor.Focus.Groups.{IsGroup}
use wl.Windows.{Window, snarfget_fn}
use wl.Windows.Loops.{Calls, Silent}
use wl.Windows.Gone.{Watches}
use wl.Windows.Destroyed.{Tied, Sound}
use wl.Windows.Life.{World}
use wl.Windows.Reach.{Alive}

-- The argument of the callback is a receiver's, which no window is; or it is a window.
abbrev pub Owned : (ℕ → Option Window) → Callback → Type 0
Owned windows c =
    ((c.fn ≡ some snarfget_fn) × (windows c.arg ≡ none)) ⊎ ((w : Window) × (windows c.arg ≡ some w))

-- Where windows go on at other numbers.
pub Owned-elsewhere :
    (windows windows' : ℕ → Option Window) (c : Callback)
    → windows' c.arg ≡ windows c.arg
    → Owned windows c
    → Owned windows' c
Owned-elsewhere windows windows' c e (inl (f, free)) = inl (f, e ∙ free)
Owned-elsewhere windows windows' c e (inr (w, at)) = inr (w, e ∙ at)

-- Every callback but snarfget has a window for its argument, and is the function for the window's
-- tag; a window that is not open, or whose toplevel is gone, is not called back; two windows have
-- two surfaces; every toplevel resource is a role; what is under focus is a window.
pub record IsSafe (wd : World) : Type 0 where
  pub ids : (i : ℕ) (w : Window) → wd.windows i ≡ some w → w.id ≡ i
  pub ties :
      (i : ℕ) (w : Window) → wd.windows i ≡ some w → Tied i (wd.surfaces w.surface).role w wd.aux
  pub owned : (c : Callback) (t : ℕ) → Calls wd.aux c t → Owned wd.windows c
  pub apart :
      (i j : ℕ) (w v : Window)
      → wd.windows i ≡ some w
      → wd.windows j ≡ some v
      → w.surface ≡ v.surface
      → i ≡ j
  pub no_strays : wd.strays ≡ []
  pub tags : IsNumTab wd.aux.tag
  pub fids : IsNumTab wd.aux.fid
  pub mouse : IsGroup wd.mouse
  pub kbd : IsGroup wd.kbd
  pub mouse_alive : Alive wd.windows wd.mouse.focus
  pub kbd_alive : Alive wd.windows wd.kbd.focus

pub IsSafe-Sound :
    (i : ℕ) (w : Window) (wd : World) → IsSafe wd → wd.windows i ≡ some w → Sound i w wd
IsSafe-Sound i w wd s e = record {
  there = e;
  itself = s.ids i w e;
  tied = s.ties i w e;
  tags = s.tags;
  mouse = s.mouse;
  kbd = s.kbd;
}

abbrev pub window_or : Window → Option Window → Window
window_or w none = w
window_or w (some v) = v

pub some_inj : (w v : Window) → some w ≡ some v → w ≡ v
some_inj w v e = ap (window_or w) e

pub none-some : (w : Window) (o : Option Window) → o ≡ none → o ≢ some w
none-some w o e e' = ground (arith, e, e')

Watches-less :
    (wsys : Option ℕ) (w : Window) (a a' : Aux)
    → ((c : Callback) (t : ℕ) → c.arg ≡ w.id → Calls a' c t → Calls a c t)
    → Watches wsys w a
    → Watches wsys w a'
Watches-less none w a a' less k = λ c t own u. k c t own (less c t own u)
Watches-less (some n) w a a' less k = λ c t own u. k c t own (less c t own u)

-- Callbacks of the window that go leave it tied.
pub Tied-less :
    (i : ℕ) (role : Option ℕ) (w : Window) (a a' : Aux)
    → w.id ≡ i
    → ((c : Callback) (t : ℕ) → c.arg ≡ i → Calls a' c t → Calls a c t)
    → Tied i role w a
    → Tied i role w a'
Tied-less i none w a a' id less k = λ c t own u. k c t own (less c t own u)
Tied-less i (some v) w a a' id less (own, k) =
    (own, Watches-less w.wsys w a a' (λ c t e u. less c t (e ∙ id) u) k)

-- A window that is not called back is tied, whatever its role is of its own.
Watches-Silent : (wsys : Option ℕ) (w : Window) (a : Aux) → Silent w.id a → Watches wsys w a
Watches-Silent none w a k = k
Watches-Silent (some n) w a k = λ c t own u. absurd (k c t own u)

pub Tied-Silent : (i : ℕ) (w : Window) (a : Aux) → w.id ≡ i → Silent i a → Tied i (some i) w a
Tied-Silent i w a id k = (refl, Watches-Silent w.wsys w a (subst (λ n. Silent n a) (sym id) k))

-- A role given to the window keeps it tied.
pub Tied-role :
    (i : ℕ) (role : Option ℕ) (w : Window) (a : Aux)
    → w.id ≡ i
    → Tied i role w a
    → Tied i (some i) w a
Tied-role i none w a id k = Tied-Silent i w a id k
Tied-role i (some v) w a id (own, k) = (refl, k)
