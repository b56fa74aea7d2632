-- ===== src/Windows/Reach/Moved.antt =====
-- The steps that change the connection or the focus only.
use wl.Prelude.{
  ap, ◌∙◌, ◌⊎◌, inl, inr, ℕ, ◌≡◌, refl, sym, subst, Bool, true, false, Option, none, some,
  if◌then◌else◌,
}
use wl.Util.NumTab.Numbers.{IsNumTab}
use wl.Fs.State.{Callback, Aux}
use wl.Windows.{snarfget_fn}
use wl.Windows.Loops.{Calls, calling}
use wl.Compositor.Focus
use wl.Compositor.Focus.{Group, mousefocus, kbdfocus, say_pointer, say_keyboard, same_window}
use wl.Compositor.Focus.Groups.{mousefocus-moves, kbdfocus-moves, moved_to}
use wl.Windows.Kept.{Kept}
use wl.Windows.Turns.{Kept-Calls}
use wl.Windows.Life.{World}
use wl.Windows.Reach.{Alive}
use wl.Windows.Reach.Safe.{IsSafe, none-some, Tied-less}

-- Where requests keep the tables, the callbacks and the windows are as they were.
pub requested-IsSafe :
    (a : Aux) (wd : World) → IsSafe wd → Kept wd.aux a → IsSafe (record wd { aux = a })
requested-IsSafe a wd s k = record {
  ids = s.ids;
  ties = λ i w e.
      Tied-less i (wd.surfaces w.surface).role w wd.aux a (s.ids i w e)
        (λ c t own u. Kept-Calls wd.aux a k c t u) (s.ties i w e);
  owned = λ c t u. s.owned c t (Kept-Calls wd.aux a k c t u);
  apart = s.apart;
  no_strays = s.no_strays;
  tags = k.tags;
  fids = subst IsNumTab (sym k.fid) s.fids;
  mouse = s.mouse;
  kbd = s.kbd;
  mouse_alive = s.mouse_alive;
  kbd_alive = s.kbd_alive;
}

-- A callback of snarfget is added, for what is no window.
pub snarf-IsSafe :
    (g : ℕ) (a : Aux) (wd : World)
    → IsSafe wd
    → wd.windows g ≡ none
    → ((c : Callback) (i : ℕ) → Calls a c i → Calls wd.aux c i ⊎ (c ≡ calling snarfget_fn g))
    → a.fid ≡ wd.aux.fid
    → IsNumTab a.tag
    → IsSafe (record wd { aux = a })
snarf-IsSafe g a wd s free calls fid tags = record {
  ids = s.ids;
  ties = λ i w e.
      Tied-less i (wd.surfaces w.surface).role w wd.aux a (s.ids i w e)
        (λ c t own u. elim (calls c t u) [
          | inl u' ↦ u'
          | inr new ↦ absurd (
              none-some w (wd.windows i)
                (ap wd.windows (sym own ∙ ap (λ (d : Callback). d.arg) new) ∙ free) e)
        ])
        (s.ties i w e);
  owned = λ c t u. elim (calls c t u) [
    | inl u' ↦ s.owned c t u'
    | inr new ↦
        inl (ap (λ (d : Callback). d.fn) new, ap (λ (d : Callback). wd.windows d.arg) new ∙ free)
  ];
  apart = s.apart;
  no_strays = s.no_strays;
  tags = tags;
  fids = subst IsNumTab (sym fid) s.fids;
  mouse = s.mouse;
  kbd = s.kbd;
  mouse_alive = s.mouse_alive;
  kbd_alive = s.kbd_alive;
}

pub mouse_moved-IsSafe :
    (f : Option Focus.Window) (x y : ℕ) (wd : World)
    → IsSafe wd
    → Alive wd.windows f
    → IsSafe (record wd { mouse = mousefocus f x y wd.mouse })
mouse_moved-IsSafe f x y wd s alive =
    let (e, valid) = mousefocus-moves f x y wd.mouse s.mouse in
    record {
      ids = s.ids;
      ties = s.ties;
      owned = s.owned;
      apart = s.apart;
      no_strays = s.no_strays;
      tags = s.tags;
      fids = s.fids;
      mouse = valid;
      kbd = s.kbd;
      mouse_alive =
          subst (λ (g : Group). Alive wd.windows g.focus) (sym e)
            (subst (Alive wd.windows) (sym (focus_lem f)) alive);
      kbd_alive = s.kbd_alive;
    }
  where
    focus_lem : (f : Option Focus.Window) → (moved_to (say_pointer x y) f wd.mouse).focus ≡ f
    focus_lem none = refl
    focus_lem (some v) = refl

pub kbd_moved-IsSafe :
    (f : Option Focus.Window) (wd : World)
    → IsSafe wd
    → Alive wd.windows f
    → IsSafe (record wd { kbd = kbdfocus f wd.kbd })
kbd_moved-IsSafe f wd s alive =
    let (e, valid) = kbdfocus-moves f wd.kbd s.kbd in
    record {
      ids = s.ids;
      ties = s.ties;
      owned = s.owned;
      apart = s.apart;
      no_strays = s.no_strays;
      tags = s.tags;
      fids = s.fids;
      mouse = s.mouse;
      kbd = valid;
      mouse_alive = s.mouse_alive;
      kbd_alive =
          subst (λ (g : Group). Alive wd.windows g.focus) (sym e)
            (step (same_window wd.kbd.focus f) f alive);
    }
  where
    step :
        (same : Bool) (f : Option Focus.Window)
        → Alive wd.windows f
        → Alive wd.windows (if same then wd.kbd else moved_to say_keyboard f wd.kbd).focus
    step true f k = s.kbd_alive
    step false none k = k
    step false (some v) k = k
