-- ===== src/Windows/Reach/Made.antt =====
-- Steps that make a window, or give its surface a role, leave the world safe.
use wl.Prelude.{
  inr, inl, ℕ, ◌≡◌, ◌≢◌, refl, sym, ap, subst, ◌∙◌, Bool, true, false, Option, none, some,
  ℕ_discrete, if◌then◌else◌,
}
use wl.Fs.State.{Callback, Aux}
use wl.Compositor.Focus
use wl.Compositor.Focus.{Group}
use wl.Compositor.Surface.{Surface}
use wl.Windows.{snarfget_fn, Window}
use wl.Windows.Loops.{Calls, Silent}
use wl.Windows.Gone.{Watches}
use wl.Windows.Reach.Changed.{changed-IsSafe}
use wl.Windows.Destroyed.{Tied}
use wl.Windows.Stored.{here, elsewhere}
use wl.Windows.Life.{
  displace, World, put_window, put_role, new_window, get_xdg_surface, get_toplevel,
}
use wl.Windows.Reach.{Alive}
use wl.Windows.Reach.Safe.{Owned-elsewhere, IsSafe, some_inj, none-some, Tied-role}

-- Only the window at i is new, or not what it was, and no callback is.
created-IsSafe :
    (i t client : ℕ) (wd : World)
    → IsSafe wd
    → wd.windows i ≡ none
    → (wd.surfaces t).role ≡ none
    → ((j : ℕ) (w : Window) → wd.windows j ≡ some w → w.surface ≢ t)
    → ((c : Callback) (n : ℕ) → Calls wd.aux c n → c.fn ≡ some snarfget_fn → c.arg ≢ i)
    → IsSafe (put_window i (some (new_window i t client)) wd)
created-IsSafe i t client wd s free role lone receivers = record {
  ids = λ j v e. elim (ℕ_discrete j i) [
    | yes same ↦ ap (λ (x : Window). x.id) (sym (is_new j v e same)) ∙ sym same
    | no ne ↦ s.ids j v (old j v e ne)
  ];
  ties = λ j v e. elim (ℕ_discrete j i) [
    | yes same ↦
        subst (λ r. Tied j r v wd.aux)
          (sym (ap (λ (x : Window). (wd.surfaces x.surface).role) (sym (is_new j v e same)) ∙ role))
          (subst (λ n. Silent n wd.aux) (sym same) silent)
    | no ne ↦ s.ties j v (old j v e ne)
  ];
  owned = λ c n k.
      Owned-elsewhere wd.windows (put_window i (some new) wd).windows c
        (elsewhere i c.arg (some new) wd.windows (λ same. silent c n same k)) (s.owned c n k);
  apart = λ j k v x e e' same. elim (ℕ_discrete j i) [
    | yes jn ↦ elim (ℕ_discrete k i) [
      | yes kn ↦ jn ∙ sym kn
      | no nk ↦ absurd (
          lone k x (old k x e' nk)
            (sym same ∙ ap (λ (y : Window). y.surface) (sym (is_new j v e jn))))
    ]
    | no nj ↦ elim (ℕ_discrete k i) [
      | yes kn ↦
          absurd (
            lone j v (old j v e nj)
              (same ∙ ap (λ (y : Window). y.surface) (sym (is_new k x e' kn))))
      | no nk ↦ s.apart j k v x (old j v e nj) (old k x e' nk) same
    ]
  ];
  no_strays = s.no_strays;
  tags = s.tags;
  fids = s.fids;
  mouse = s.mouse;
  kbd = s.kbd;
  mouse_alive = lives wd.mouse.focus s.mouse_alive;
  kbd_alive = lives wd.kbd.focus s.kbd_alive;
}
  where
    new : Window
    new = new_window i t client

    is_new :
        (j : ℕ) (v : Window)
        → (put_window i (some (new_window i t client)) wd).windows j ≡ some v
        → j ≡ i
        → new_window i t client ≡ v
    is_new j v e same = some_inj (new_window i t client) v (
        sym (here i (some (new_window i t client)) wd.windows)
        ∙ (ap (put_window i (some (new_window i t client)) wd).windows (sym same) ∙ e))

    old :
        (j : ℕ) (v : Window)
        → (put_window i (some (new_window i t client)) wd).windows j ≡ some v
        → j ≢ i
        → wd.windows j ≡ some v
    old j v e ne = sym (elsewhere i j (some (new_window i t client)) wd.windows ne) ∙ e

    silent : Silent i wd.aux
    silent c n own k = elim (s.owned c n k) [
      | inl (f, e) ↦ receivers c n k f own
      | inr (x, e) ↦ none-some x (wd.windows c.arg) (ap wd.windows own ∙ free) e
    ]

    lives :
        (f : Option Focus.Window)
        → Alive wd.windows f
        → Alive (put_window i (some (new_window i t client)) wd).windows f
    lives none k = tt
    lives (some v) (x, e) = (
      x,
      elsewhere i v.id (some (new_window i t client)) wd.windows
            (λ same. none-some x (wd.windows v.id) (ap wd.windows same ∙ free) e)
          ∙ e,
    )

pub get_xdg_surface-IsSafe :
    (room made : Bool) (i t client : ℕ) (wd : World)
    → IsSafe wd
    → wd.windows i ≡ none
    → (wd.surfaces t).role ≡ none
    → ((j : ℕ) (w : Window) → wd.windows j ≡ some w → w.surface ≢ t)
    → ((c : Callback) (n : ℕ) → Calls wd.aux c n → c.fn ≡ some snarfget_fn → c.arg ≢ i)
    → IsSafe (get_xdg_surface room made i t client wd)
unfolding get_xdg_surface
get_xdg_surface-IsSafe false made i t client wd s free role lone receivers = s
get_xdg_surface-IsSafe true false i t client wd s free role lone receivers = s
get_xdg_surface-IsSafe true true i t client wd s free role lone receivers =
    created-IsSafe i t client wd s free role lone receivers

-- The surface of the window at i gets it for its role.
put_role-IsSafe :
    (i : ℕ) (w : Window) (wd : World)
    → IsSafe wd
    → wd.windows i ≡ some w
    → IsSafe (put_role w.surface (some i) wd)
put_role-IsSafe i w wd s at = record {
  ids = s.ids;
  ties = λ j v e. elim (ℕ_discrete v.surface w.surface) [
    | yes same ↦
        let j_i = s.apart j i v w e at same in
        subst (λ r. Tied j r v wd.aux)
          (sym (
            ap (λ n. ((put_role w.surface (some i) wd).surfaces n).role) same
            ∙ (ap (λ (x : Surface). x.role)
                  (here w.surface (record (wd.surfaces w.surface) { role = some i }) wd.surfaces)
                ∙ ap (λ n. some n) (sym j_i))))
          (Tied-role j (wd.surfaces v.surface).role v wd.aux (s.ids j v e) (s.ties j v e))
    | no ne ↦
        subst (λ r. Tied j r v wd.aux)
          (sym (
            ap (λ (x : Surface). x.role)
              (elsewhere w.surface v.surface (record (wd.surfaces w.surface) { role = some i })
                wd.surfaces ne)))
          (s.ties j v e)
  ];
  owned = s.owned;
  apart = s.apart;
  no_strays = s.no_strays;
  tags = s.tags;
  fids = s.fids;
  mouse = s.mouse;
  kbd = s.kbd;
  mouse_alive = s.mouse_alive;
  kbd_alive = s.kbd_alive;
}

-- `toplevel` has nothing to do with the callbacks.
Watches-toplevel :
    (wsys : Option ℕ) (made : Bool) (w : Window) (a : Aux)
    → Watches wsys w a
    → Watches wsys (record w { toplevel = made }) a
Watches-toplevel none made w a k = k
Watches-toplevel (some n) made w a k = k

Tied-toplevel :
    (i : ℕ) (role : Option ℕ) (made : Bool) (w : Window) (a : Aux)
    → Tied i role w a
    → Tied i role (record w { toplevel = made }) a
Tied-toplevel i none made w a k = k
Tied-toplevel i (some v) made w a (own, k) = (own, Watches-toplevel w.wsys made w a k)

pub get_toplevel-IsSafe :
    (made : Bool) (i : ℕ) (w : Window) (wd : World)
    → IsSafe wd
    → wd.windows i ≡ some w
    → (wd.surfaces w.surface).role ≡ none
    → IsSafe (get_toplevel made i wd)
unfolding get_toplevel
get_toplevel-IsSafe made i w wd s at role = rw (at, get_toplevel) (given made)
  where
    set_ : (made : Bool) → IsSafe (put_window i (some (record w { toplevel = made })) wd)
    set_ made =
        changed-IsSafe i w (record w { toplevel = made }) wd wd.aux s at refl refl (λ c t ne k. k)
          (Tied-toplevel i (wd.surfaces w.surface).role made w wd.aux (s.ties i w at)) s.tags s.fids

    given :
        (made : Bool)
        → IsSafe (
            if made
            then put_role w.surface
                (some i)
                (record (put_window i (some (record w { toplevel = made })) wd) {
                  strays = displace (wd.surfaces w.surface).role wd.strays;
                })
            else put_window i (some (record w { toplevel = made })) wd)
    given false = set_ false
    given true =
        subst
          (λ r. IsSafe (
            put_role w.surface (some i)
              (record (put_window i (some (record w { toplevel = true })) wd) {
                strays = displace r wd.strays;
              })))
          (sym role)
          (put_role-IsSafe i (record w { toplevel = true })
            (put_window i (some (record w { toplevel = true })) wd) (set_ true)
            (here i (some (record w { toplevel = true })) wd.windows))
