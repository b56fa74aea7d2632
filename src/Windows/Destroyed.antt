-- ===== src/Windows/Destroyed.antt =====
-- `xdg_surface_destroy` leaves nothing that refers to the window.
use wl.Prelude.{◌⊎◌, ℕ, ◌≡◌, inl, inr, refl, sym, ap, subst, ◌∙◌, false, Option, none, some}
use wl.Util.NumTab.Numbers.{IsNumTab}
use wl.Fs.State.{Aux, Request, Sent}
use wl.Compositor.Focus.{Group}
use wl.Compositor.Focus.Groups.{IsGroup}
use wl.Compositor.Surface.{Surface}
use wl.Windows.{Window, Ended, ended}
use wl.Windows.Kept.{KeepsTables}
use wl.Windows.Loops.{Silent, Stops}
use wl.Windows.Gone.{SendsFlush, Watches, IsWatched, Closes, close_window-Closes}
use wl.Windows.Unfocused.{Focuses, unfocus_mouse, unfocus_kbd}
use wl.Windows.Stored.{here, elsewhere, Elsewhere, Elsewhere-trans, put_window-Elsewhere}
use wl.Windows.Life.{
  World, Lived, lived, put_window, put_role, on_window, close_window, closed_window,
  toplevel_destroy, destroy_role, focused, unfocus, freed, xdg_surface_destroy,
}

-- The role of the window's surface is its own toplevel, and the window is called back for its tags
-- only; or there is no role, and it is not called back.
abbrev pub Tied : ℕ → Option ℕ → Window → Aux → Type 0
Tied i none w a = Silent i a
Tied i (some v) w a = (v ≡ i) × IsWatched w a

pub record Sound (i : ℕ) (w : Window) (wd : World) : Type 0 where
  pub there : wd.windows i ≡ some w
  pub itself : w.id ≡ i
  pub tied : Tied i (wd.surfaces w.surface).role w wd.aux
  pub tags : IsNumTab wd.aux.tag
  pub mouse : IsGroup wd.mouse
  pub kbd : IsGroup wd.kbd

pub record IsGone (i s : ℕ) (wd wd' : World) : Type 0 where
  pub freed : wd'.windows i ≡ none
  pub others : Elsewhere i s wd wd'
  pub role : (wd'.surfaces s).role ≡ none
  pub calls : Silent i wd'.aux
  pub no_mouse : ¬ Focuses i wd'.mouse.focus
  pub no_kbd : ¬ Focuses i wd'.kbd.focus
  pub mouse : IsGroup wd'.mouse
  pub kbd : IsGroup wd'.kbd
  pub mouse_from : (wd'.mouse.focus ≡ none) ⊎ (wd'.mouse.focus ≡ wd.mouse.focus)
  pub kbd_from : (wd'.kbd.focus ≡ none) ⊎ (wd'.kbd.focus ≡ wd.kbd.focus)

abbrev pub Destroys : ℕ → ℕ → World → Lived → Type 0
Destroys i s wd (lived wd') = IsGone i s wd wd'
Destroys i s wd (Lived.halted h) = Stops h

-- What is left to do when the role is gone.
freed-IsGone :
    (i : ℕ) (w : Window) (wd mid : World)
    → w.id ≡ i
    → Elsewhere i w.surface wd mid
    → (mid.surfaces w.surface).role ≡ none
    → Silent i mid.aux
    → IsGroup wd.mouse
    → IsGroup wd.kbd
    → mid.mouse ≡ wd.mouse
    → mid.kbd ≡ wd.kbd
    → IsGone i w.surface wd (put_window i none (unfocus w mid))
freed-IsGone i w wd mid id others role calls mouse kbd same_mouse same_kbd =
    let m = unfocus_mouse (focused w) mid.mouse (subst IsGroup (sym same_mouse) mouse) in
    let k = unfocus_kbd (focused w) mid.kbd (subst IsGroup (sym same_kbd) kbd) in
    record {
      freed = here i none mid.windows;
      others = record {
        windows = λ j ne. elsewhere i j none mid.windows ne ∙ others.windows j ne;
        roles = others.roles;
        less = others.less;
        fid = others.fid;
        tags = others.tags;
        strays = others.strays;
      };
      role = role;
      calls = calls;
      no_mouse = subst (λ n. ¬ Focuses n (unfocus w mid).mouse.focus) id m.1;
      no_kbd = subst (λ n. ¬ Focuses n (unfocus w mid).kbd.focus) id k.1;
      mouse = m.0;
      kbd = k.0;
      mouse_from = elim m.2 [
        | inl e ↦ inl e
        | inr e ↦ inr (e ∙ ap (λ (g : Group). g.focus) same_mouse)
      ];
      kbd_from = elim k.2 [
        | inl e ↦ inl e
        | inr e ↦ inr (e ∙ ap (λ (g : Group). g.focus) same_kbd)
      ];
    }

found :
    (i : ℕ) (w : Window) (wd : World) (next : Window → Lived)
    → wd.windows i ≡ some w
    → on_window i wd next ≡ next w
found i w wd next e = rw (e, on_window) refl

Watches-unlinked :
    (wsys : Option ℕ) (w : Window) (a : Aux)
    → Watches wsys w a
    → Watches wsys (record w { listening = false }) a
Watches-unlinked none w a k = k
Watches-unlinked (some n) w a k = k

-- What `toplevel_destroy` leaves of the window w at i.
pub record TopGone (i : ℕ) (w : Window) (wd wd' : World) : Type 0 where
  pub there :
      (u : Window) × (wd'.windows i ≡ some u)
      × (u.id ≡ w.id)
      × (u.surface ≡ w.surface)
      × (u.client ≡ w.client)
  pub others : Elsewhere i w.surface wd wd'
  pub role : (wd'.surfaces w.surface).role ≡ none
  pub calls : Silent w.id wd'.aux
  pub mouse : wd'.mouse ≡ wd.mouse
  pub kbd : wd'.kbd ≡ wd.kbd

abbrev pub TopDestroys : ℕ → Window → World → Lived → Type 0
TopDestroys i w wd (lived wd') = TopGone i w wd wd'
TopDestroys i w wd (Lived.halted h) = Stops h

module _ (send : Request → Aux → Sent) (law : KeepsTables send) (sends : SendsFlush send) where
  closed-TopGone :
      (i : ℕ) (w : Window) (wd : World) (e : Ended)
      → Closes w wd.aux e
      → TopDestroys i w wd (closed_window send i wd e)
  closed-TopGone i w wd (Ended.halted h) k = k
  closed-TopGone i w wd (ended u a) (id, surface, client, d) = record {
    there = (u, here i (some u) wd.windows, id, surface, client);
    others = record {
      windows = λ j ne. elsewhere i j (some u) wd.windows ne;
      roles = λ t ne.
          ap (λ (s : Surface). s.role)
            (elsewhere u.surface t (record (wd.surfaces u.surface) { role = none }) wd.surfaces
              (λ e. ne (e ∙ surface)));
      less = d.calls;
      fid = d.fid;
      tags = d.tags;
      strays = refl;
    };
    role =
        subst (λ s. ((put_role u.surface none wd).surfaces s).role ≡ none) surface
          (ap (λ (s : Surface). s.role)
            (here u.surface (record (wd.surfaces u.surface) { role = none }) wd.surfaces));
    calls = d.gone;
    mouse = refl;
    kbd = refl;
  }

  pub toplevel_destroy-TopDestroys :
      (i : ℕ) (w : Window) (wd : World)
      → wd.windows i ≡ some w
      → IsNumTab wd.aux.tag
      → IsWatched w wd.aux
      → TopDestroys i w wd (toplevel_destroy send i wd)
  unfolding toplevel_destroy
  toplevel_destroy-TopDestroys i w wd e h watched =
      subst (TopDestroys i w wd)
        (sym
          (found i w wd (λ v. closed_window send i wd (close_window send wd.datafid v wd.aux)) e))
        (closed-TopGone i w wd (close_window send wd.datafid w wd.aux)
          (close_window-Closes send law sends wd.datafid w wd.aux h watched))

  -- On a world in which the window at i is called back for its own tags only, where the role of its
  -- surface is its toplevel, and not at all where there is no role, and the active resources are
  -- those of the clients under focus: where requests keep the tables and c9flush does not fail,
  -- `xdg_surface_destroy` frees the window and no other, and leaves nothing that refers to it:
  -- its surface has no role, no callback of the 9P connection has it for its argument, and
  -- neither the mouse nor the keyboard has it under focus. It does not read a window that is
  -- freed; and the file numbers in use are the same, those of the window among them.
  pub xdg_surface_destroy-Destroys :
      (i : ℕ) (w : Window) (wd : World)
      → Sound i w wd
      → Destroys i w.surface wd (xdg_surface_destroy send i wd)
  unfolding xdg_surface_destroy
  xdg_surface_destroy-Destroys i w wd s =
      subst (Destroys i w.surface wd)
        (sym (
          found i w wd
            (λ u. freed i u (
              destroy_role send u.surface
                (put_window i (some (record u { listening = false })) wd)))
            s.there))
        (step (wd.surfaces w.surface).role s.tied refl)
    where
      others : Elsewhere i w.surface wd (put_window i (some (record w { listening = false })) wd)
      others = put_window-Elsewhere i w.surface (some (record w { listening = false })) wd s.tags

      top :
          (l : Lived)
          → TopDestroys i
              (record w { listening = false })
              (put_window i (some (record w { listening = false })) wd)
              l
          → Destroys i w.surface wd (freed i w l)
      top (Lived.halted h) k = k
      top (lived mid) k =
          freed-IsGone i w wd mid s.itself
            (Elsewhere-trans i w.surface wd
              (put_window i (some (record w { listening = false })) wd) mid others k.others)
            k.role (subst (λ n. Silent n mid.aux) s.itself k.calls) s.mouse s.kbd k.mouse k.kbd

      step :
          (role : Option ℕ)
          → Tied i role w wd.aux
          → (wd.surfaces w.surface).role ≡ role
          → Destroys i w.surface wd (
              freed i w (elim role [
                | none ↦ lived (put_window i (some (record w { listening = false })) wd)
                | some v ↦
                    toplevel_destroy send v
                      (put_window i (some (record w { listening = false })) wd)
              ]))
      step none tied e =
          freed-IsGone i w wd (put_window i (some (record w { listening = false })) wd) s.itself
            others e tied s.mouse s.kbd refl refl
      step (some v) (own, watched) e = top _ (
          subst
            (λ n.
              TopDestroys i (record w { listening = false })
                (put_window i (some (record w { listening = false })) wd)
                (toplevel_destroy send n (put_window i (some (record w { listening = false })) wd)))
            (sym own)
            (toplevel_destroy-TopDestroys i (record w { listening = false })
              (put_window i (some (record w { listening = false })) wd)
              (here i (some (record w { listening = false })) wd.windows) s.tags
              (Watches-unlinked w.wsys w wd.aux watched)))
