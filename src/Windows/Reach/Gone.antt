-- ===== src/Windows/Reach/Gone.antt =====
-- Steps that end a window, or its toplevel, leave the world safe.
use wl.Prelude.{
  ℕ, ◌≡◌, ◌≢◌, ◌⊎◌, inl, inr, refl, sym, ap, subst, ◌∙◌, Option, none, some, ℕ_discrete, arith,
}
use wl.Util.NumTab.Numbers.{IsNumTab}
use wl.Compositor.Focus
use wl.Compositor.Focus.{Group}
use wl.Compositor.Focus.Groups.{IsGroup}
use wl.Windows.{Window}
use wl.Windows.Loops.{Silent}
use wl.Windows.Destroyed.{Tied, IsGone, TopGone}
use wl.Windows.Stored.{here, Elsewhere}
use wl.Windows.Unfocused.{Focuses}
use wl.Windows.Life.{World}
use wl.Windows.Reach.{Alive}
use wl.Windows.Reach.Safe.{Owned-elsewhere, IsSafe, some_inj, none-some, Tied-less}

-- The window at i has no role and is not called back any more, if it is there at all.
module _ (i : ℕ) (w : Window) (wd wd' : World) (s : IsSafe wd) (at : wd.windows i ≡ some w)
    (same : Elsewhere i w.surface wd wd')
    (left : (v : Window) → wd'.windows i ≡ some v → (v.id ≡ w.id) × (v.surface ≡ w.surface))
    (role : (wd'.surfaces w.surface).role ≡ none) (silent : Silent i wd'.aux) where
  -- Each window stands where one with its number and surface stood.
  stood :
      (j : ℕ) (v : Window)
      → wd'.windows j ≡ some v
      → (x : Window) × (wd.windows j ≡ some x) × (v.id ≡ x.id) × (v.surface ≡ x.surface)
  stood j v e = elim (ℕ_discrete j i) [
    | yes here ↦
        let (id, surface) = left v (ap wd'.windows (sym here) ∙ e) in
        (w, ap wd.windows here ∙ at, id, surface)
    | no ne ↦ (v, sym (same.windows j ne) ∙ e, refl, refl)
  ]

  pub ended-ties :
      (j : ℕ) (v : Window) → wd'.windows j ≡ some v → Tied j (wd'.surfaces v.surface).role v wd'.aux
  ended-ties j v e = elim (ℕ_discrete j i) [
    | yes here ↦
        let (id, surface) = left v (ap wd'.windows (sym here) ∙ e) in
        subst (λ r. Tied j r v wd'.aux) (sym (ap (λ n. (wd'.surfaces n).role) surface ∙ role))
          (subst (λ n. Silent n wd'.aux) (sym here) silent)
    | no ne ↦
        let old : wd.windows j ≡ some v = sym (same.windows j ne) ∙ e in
        subst (λ r. Tied j r v wd'.aux)
          (sym (same.roles v.surface (λ e'. ne (s.apart j i v w old at e'))))
          (Tied-less j (wd.surfaces v.surface).role v wd.aux wd'.aux (s.ids j v old)
            (λ c t own k. same.less c t k) (s.ties j v old))
  ]

  pub ended-IsSafe :
      IsGroup wd'.mouse
      → IsGroup wd'.kbd
      → Alive wd'.windows wd'.mouse.focus
      → Alive wd'.windows wd'.kbd.focus
      → IsSafe wd'
  ended-IsSafe mouse kbd mouse_alive kbd_alive = record {
    ids = λ j v e. let (x, f, id, surface) = stood j v e in id ∙ s.ids j x f;
    ties = ended-ties;
    owned = λ c t k. elim (ℕ_discrete c.arg i) [
      | yes here ↦ absurd (silent c t here k)
      | no ne ↦
          Owned-elsewhere wd.windows wd'.windows c (same.windows c.arg ne)
            (s.owned c t (same.less c t k))
    ];
    apart = λ j k v x e e' eq.
        let (v', f, id, g) = stood j v e in
        let (x', f', id', g') = stood k x e' in s.apart j k v' x' f f' (sym g ∙ (eq ∙ g'));
    no_strays = same.strays ∙ s.no_strays;
    tags = same.tags;
    fids = subst IsNumTab (sym same.fid) s.fids;
    mouse = mouse;
    kbd = kbd;
    mouse_alive = mouse_alive;
    kbd_alive = kbd_alive;
  }

-- The window is freed.
Alive-gone :
    (i s : ℕ) (wd wd' : World) (f f' : Option Focus.Window)
    → Elsewhere i s wd wd'
    → (f' ≡ none) ⊎ (f' ≡ f)
    → ¬ Focuses i f'
    → Alive wd.windows f
    → Alive wd'.windows f'
Alive-gone i s wd wd' f none same from away alive = tt
Alive-gone i s wd wd' f (some v) same (inl e) away alive = absurd (none_some_focus v e)
  where
    none_some_focus : (u : Focus.Window) → some u ≢ none
    none_some_focus u e' = ground (arith, e')
Alive-gone i s wd wd' f (some v) same (inr e) away alive =
    let (x, there) = subst (Alive wd.windows) (sym e) alive in (x, same.windows v.id away ∙ there)

pub gone-IsSafe :
    (i : ℕ) (w : Window) (wd wd' : World)
    → IsSafe wd
    → wd.windows i ≡ some w
    → IsGone i w.surface wd wd'
    → IsSafe wd'
gone-IsSafe i w wd wd' s at g =
    ended-IsSafe i w wd wd' s at g.others (λ v e. absurd (none-some v (wd'.windows i) g.freed e))
      g.role g.calls g.mouse g.kbd
      (Alive-gone i w.surface wd wd' wd.mouse.focus wd'.mouse.focus g.others g.mouse_from g.no_mouse
        s.mouse_alive)
      (Alive-gone i w.surface wd wd' wd.kbd.focus wd'.kbd.focus g.others g.kbd_from g.no_kbd
        s.kbd_alive)

Alive-there :
    (i s : ℕ) (wd wd' : World) (f : Option Focus.Window)
    → Elsewhere i s wd wd'
    → (u : Window) × (wd'.windows i ≡ some u)
    → Alive wd.windows f
    → Alive wd'.windows f
Alive-there i s wd wd' none same (u, there) alive = tt
Alive-there i s wd wd' (some v) same (u, there) (x, e) = elim (ℕ_discrete v.id i) [
  | yes here ↦ (u, ap wd'.windows here ∙ there)
  | no ne ↦ (x, same.windows v.id ne ∙ e)
]

pub toplevel_gone-IsSafe :
    (i : ℕ) (w : Window) (wd wd' : World)
    → IsSafe wd
    → wd.windows i ≡ some w
    → TopGone i w wd wd'
    → IsSafe wd'
toplevel_gone-IsSafe i w wd wd' s at g =
    let (u, there, id, surface, client) = g.there in
    ended-IsSafe i w wd wd' s at g.others
      (λ v e.
        let same = some_inj u v (sym there ∙ e) in
        (
          subst (λ (x : Window). x.id ≡ w.id) same id,
          subst (λ (x : Window). x.surface ≡ w.surface) same surface,
        ))
      g.role (subst (λ n. Silent n wd'.aux) (s.ids i w at) g.calls)
      (subst IsGroup (sym g.mouse) s.mouse) (subst IsGroup (sym g.kbd) s.kbd)
      (subst (λ (x : Group). Alive wd'.windows x.focus) (sym g.mouse)
        (Alive-there i w.surface wd wd' wd.mouse.focus g.others (u, there) s.mouse_alive))
      (subst (λ (x : Group). Alive wd'.windows x.focus) (sym g.kbd)
        (Alive-there i w.surface wd wd' wd.kbd.focus g.others (u, there) s.kbd_alive))
