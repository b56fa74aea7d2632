-- ===== src/Windows/Reach/Changed.antt =====
-- Steps that change one window and its callbacks leave the world safe.
use wl.Prelude.{inr, ℕ, ◌≡◌, ◌≢◌, refl, sym, ap, subst, ◌∙◌, Option, none, some, ℕ_discrete}
use wl.Util.NumTab.Numbers.{IsNumTab}
use wl.Fs.State.{Callback, Aux}
use wl.Compositor.Focus
use wl.Compositor.Focus.{Group}
use wl.Windows.{Window}
use wl.Windows.Loops.{Calls}
use wl.Windows.Destroyed.{Tied}
use wl.Windows.Stored.{here, elsewhere}
use wl.Windows.Life.{World, put_window}
use wl.Windows.Reach.{Alive}
use wl.Windows.Reach.Safe.{Owned-elsewhere, IsSafe, some_inj, Tied-less}

-- A window changes at a place, and callbacks are added for it alone.
module _ (i : ℕ) (w u : Window) (wd : World) (a : Aux) (s : IsSafe wd) (at : wd.windows i ≡ some w)
    (id : u.id ≡ w.id) (surface : u.surface ≡ w.surface)
    (others : (c : Callback) (t : ℕ) → c.arg ≢ i → Calls a c t → Calls wd.aux c t)
    (tied : Tied i (wd.surfaces w.surface).role u a) (tags : IsNumTab a.tag)
    (fids : IsNumTab a.fid) where
  abbrev changed : World
  changed = put_window i (some u) (record wd { aux = a })

  changed_at : (j : ℕ) (v : Window) → changed.windows j ≡ some v → j ≢ i → wd.windows j ≡ some v
  changed_at j v e ne = sym (elsewhere i j (some u) wd.windows ne) ∙ e

  changed_here : (v : Window) → changed.windows i ≡ some v → u ≡ v
  changed_here v e = some_inj u v (sym (here i (some u) wd.windows) ∙ e)

  -- Each window stands where one with its surface stood.
  stood :
      (j : ℕ) (v : Window)
      → changed.windows j ≡ some v
      → (x : Window) × (wd.windows j ≡ some x) × (x.surface ≡ v.surface)
  stood j v e = elim (ℕ_discrete j i) [
    | yes same ↦ (
      w,
      ap wd.windows same ∙ at,
      sym surface
          ∙ ap (λ (x : Window). x.surface) (changed_here v (ap changed.windows (sym same) ∙ e)),
    )
    | no ne ↦ (v, changed_at j v e ne, refl)
  ]

  lives : (f : Option Focus.Window) → Alive wd.windows f → Alive changed.windows f
  lives none k = tt
  lives (some v) (x, e) = elim (ℕ_discrete v.id i) [
    | yes same ↦ (u, ap changed.windows same ∙ here i (some u) wd.windows)
    | no ne ↦ (x, elsewhere i v.id (some u) wd.windows ne ∙ e)
  ]

  pub changed-IsSafe : IsSafe (put_window i (some u) (record wd { aux = a }))
  changed-IsSafe = record {
    ids = λ j v e. elim (ℕ_discrete j i) [
      | yes same ↦
          ap (λ (x : Window). x.id) (sym (changed_here v (ap changed.windows (sym same) ∙ e)))
          ∙ (id ∙ (s.ids i w at ∙ sym same))
      | no ne ↦ s.ids j v (changed_at j v e ne)
    ];
    ties = λ j v e. elim (ℕ_discrete j i) [
      | yes same ↦
          let u_v = changed_here v (ap changed.windows (sym same) ∙ e) in
          subst (λ n. Tied n (wd.surfaces v.surface).role v a) (sym same)
            (subst (λ (x : Window). Tied i (wd.surfaces x.surface).role x a) u_v
              (subst (λ n. Tied i (wd.surfaces n).role u a) (sym surface) tied))
      | no ne ↦
          Tied-less j (wd.surfaces v.surface).role v wd.aux a (s.ids j v (changed_at j v e ne))
            (λ c t own k. others c t (λ e'. ne (sym own ∙ e')) k) (s.ties j v (changed_at j v e ne))
    ];
    owned = λ c t k. elim (ℕ_discrete c.arg i) [
      | yes same ↦ inr (u, ap changed.windows same ∙ here i (some u) wd.windows)
      | no ne ↦
          Owned-elsewhere wd.windows changed.windows c (elsewhere i c.arg (some u) wd.windows ne)
            (s.owned c t (others c t ne k))
    ];
    apart = λ j k v x e e' same.
        let (v', f, g) = stood j v e in
        let (x', f', g') = stood k x e' in s.apart j k v' x' f f' (g ∙ (same ∙ sym g'));
    no_strays = s.no_strays;
    tags = tags;
    fids = fids;
    mouse = s.mouse;
    kbd = s.kbd;
    mouse_alive = lives wd.mouse.focus s.mouse_alive;
    kbd_alive = lives wd.kbd.focus s.kbd_alive;
  }
