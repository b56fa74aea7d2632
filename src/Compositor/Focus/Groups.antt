-- ===== src/Compositor/Focus/Groups.antt =====
-- The active resources are those of the client under focus.
use wl.Prelude.{
  ℕ, ◌+◌, ◌%◌, ◌^◌, ◌≡◌, refl, inl, inr, true, false, Option, none, some, List, [], ◌∷◌, ◌++◌, map,
  ◌==◌, if◌then◌else◌, All, arith, Bool-cases,
}
use mathlib.Core.List.{append_assoc, append-nil}
use wl.Compositor.Focus.{
  Resource, Window, Note, leave, Group, next_serial, leave_all, enter_loop, enter_all, set_focus,
  say_pointer, say_keyboard, mousefocus, same_window, kbdfocus, is_active,
}

-- Of the active resources, all belong to the client under focus; of the others, none does.
pub record IsGroup (g : Group) : Type 0 where
  pub active : All (λ (r : Resource). is_active r.client g.focus ≡ true) g.active
  pub inactive : All (λ (r : Resource). is_active r.client g.focus ≡ false) g.inactive

-- The resources of a client, the last first, and those of the others, in order.
abbrev pub of_client : ℕ → List Resource → List Resource
of_client c [] = []
of_client c (r ∷ rs) = if r.client == c then of_client c rs ++ r ∷ [] else of_client c rs

abbrev pub of_others : ℕ → List Resource → List Resource
of_others c [] = []
of_others c (r ∷ rs) = if r.client == c then of_others c rs else r ∷ of_others c rs

-- What is said to the resources of a client, in order.
abbrev pub said : ℕ → (Resource → Note) → List Resource → List Note
said c say [] = []
said c say (r ∷ rs) = if r.client == c then say r ∷ said c say rs else said c say rs

enter_loop_lem :
    (c : ℕ) (say : Resource → Note) (rs active : List Resource) (notes : List Note)
    → enter_loop c say rs active notes
      ≡ (of_client c rs ++ active, of_others c rs, notes ++ said c say rs)
unfolding enter_loop
enter_loop_lem c say [] active notes = rw (append-nil notes) refl
enter_loop_lem c say (r ∷ rs) active notes = elim (Bool-cases (r.client == c)) [
  | inl e ↦
      rw
        (
          e,
          enter_loop_lem c say rs (r ∷ active) (notes ++ say r ∷ []),
          append_assoc (of_client c rs) (r ∷ []) active,
          append_assoc notes (say r ∷ []) (said c say rs),
        )
        refl
  | inr e ↦ rw (e, enter_loop_lem c say rs active notes) refl
]

of_client-active :
    (c : ℕ) (rs : List Resource) (w : Window)
    → c ≡ w.client
    → All (λ (r : Resource). is_active r.client (some w) ≡ true) (of_client c rs)
of_client-active c [] w e = tt
of_client-active c (r ∷ rs) w e = elim (Bool-cases (r.client == c)) [
  | inl h ↦ rw h (snoc (of_client c rs) (of_client-active c rs w e) (ground (arith, h, e)))
  | inr h ↦ rw h (of_client-active c rs w e)
]
  where
    snoc :
        (xs : List Resource)
        → All (λ (q : Resource). is_active q.client (some w) ≡ true) xs
        → is_active r.client (some w) ≡ true
        → All (λ (q : Resource). is_active q.client (some w) ≡ true) (xs ++ r ∷ [])
    snoc [] h here = (here, tt)
    snoc (x ∷ xs) h here = (h.0, snoc xs h.1 here)

of_others-inactive :
    (c : ℕ) (rs : List Resource) (w : Window)
    → c ≡ w.client
    → All (λ (r : Resource). is_active r.client (some w) ≡ false) (of_others c rs)
of_others-inactive c [] w e = tt
of_others-inactive c (r ∷ rs) w e = elim (Bool-cases (r.client == c)) [
  | inl h ↦ rw h (of_others-inactive c rs w e)
  | inr h ↦ rw h (ground (arith, h, e), of_others-inactive c rs w e)
]

none-inactive : (rs : List Resource) → All (λ (r : Resource). is_active r.client none ≡ false) rs
none-inactive [] = tt
none-inactive (r ∷ rs) = (refl, none-inactive rs)

no_focus : (g : Group) → IsGroup g → g.focus ≡ none → g.active ≡ []
no_focus g h e = step g.active g.focus e h.active
  where
    step :
        (rs : List Resource) (f : Option Window)
        → f ≡ none
        → All (λ (r : Resource). is_active r.client f ≡ true) rs
        → rs ≡ []
    step [] f e k = refl
    step (r ∷ rs) none e k = absurd (ground (arith, k.0))
    step (r ∷ rs) (some w) e k = absurd (ground (arith, e))

-- The leaves: one for each active resource, about the surface that had focus.
abbrev pub leaves : ℕ → Option Window → List Resource → List Note
leaves serial none rs = []
leaves serial (some w) rs = map (λ (r : Resource). leave r.id serial w.surface) rs

abbrev pub bump : ℕ → ℕ
bump n = (n + 1) % 2 ^ 32

-- The group after the focus moved to w.
abbrev pub moved_to : (Window → ℕ → Resource → Note) → Option Window → Group → Group
moved_to say none g = record {
  focus = none;
  active = [];
  inactive = g.active ++ g.inactive;
  serial = bump g.serial;
  notes = g.notes ++ leaves (bump g.serial) g.focus g.active;
}
moved_to say (some w) g = record {
  focus = some w;
  active = of_client w.client (g.active ++ g.inactive);
  inactive = of_others w.client (g.active ++ g.inactive);
  serial = bump g.serial;
  notes =
      (g.notes ++ leaves (bump g.serial) g.focus g.active)
      ++ said w.client (say w (bump g.serial)) (g.active ++ g.inactive);
}

moved_to-IsGroup :
    (say : Window → ℕ → Resource → Note) (w : Option Window) (g : Group)
    → IsGroup (moved_to say w g)
moved_to-IsGroup say none g = record {
  active = tt;
  inactive = none-inactive (g.active ++ g.inactive);
}
moved_to-IsGroup say (some w) g = record {
  active = of_client-active w.client (g.active ++ g.inactive) w refl;
  inactive = of_others-inactive w.client (g.active ++ g.inactive) w refl;
}

-- What `leave_all` comes to, on a sound group.
left_lem :
    (g : Group)
    → IsGroup g
    → leave_all (next_serial g) ≡ record {
      focus = g.focus;
      active = [];
      inactive = g.active ++ g.inactive;
      serial = bump g.serial;
      notes = g.notes ++ leaves (bump g.serial) g.focus g.active;
    }
unfolding leave_all
left_lem g h = step g.focus refl
  where
    step :
        (f : Option Window)
        → g.focus ≡ f
        → leave_all (next_serial g) ≡ record {
          focus = g.focus;
          active = [];
          inactive = g.active ++ g.inactive;
          serial = bump g.serial;
          notes = g.notes ++ leaves (bump g.serial) g.focus g.active;
        }
    step none e = ground (arith, e, no_focus g h e, append-nil g.notes)
    step (some w) e = ground (arith, e)

moved_lem :
    (say : Window → ℕ → Resource → Note) (w : Option Window) (g : Group)
    → IsGroup g
    → set_focus w (enter_all say w (leave_all (next_serial g))) ≡ moved_to say w g
unfolding enter_all
moved_lem say none g h = rw (left_lem g h) refl
moved_lem say (some w) g h = rw (left_lem g h) (
    let e =
      enter_loop_lem w.client (say w (bump g.serial)) (g.active ++ g.inactive) []
        (g.notes ++ leaves (bump g.serial) g.focus g.active) in
    rw (e, append-nil (of_client w.client (g.active ++ g.inactive))) refl)

-- On a group whose active resources are those of the client under focus, `mousefocus` tells every
-- active pointer, and no other, that its surface is left; then every pointer of the client of the
-- new window, whether it was active or not, that it enters; and these are the active ones then.
pub mousefocus-moves :
    (w : Option Window) (x y : ℕ) (g : Group)
    → IsGroup g
    → (mousefocus w x y g ≡ moved_to (say_pointer x y) w g) × IsGroup (mousefocus w x y g)
unfolding mousefocus
mousefocus-moves w x y g h =
    let e = moved_lem (say_pointer x y) w g h in (e, rw e (moved_to-IsGroup (say_pointer x y) w g))

-- On a group whose active resources are those of the client under focus, `kbdfocus` on the window
-- that has focus does nothing; on another it does to the keyboards what `mousefocus` does to the
-- pointers.
pub kbdfocus-moves :
    (w : Option Window) (g : Group)
    → IsGroup g
    → (kbdfocus w g ≡ (if same_window g.focus w then g else moved_to say_keyboard w g))
      × IsGroup (kbdfocus w g)
unfolding kbdfocus
kbdfocus-moves w g h = elim (Bool-cases (same_window g.focus w)) [
  | inl same ↦ rw same (refl, h)
  | inr other ↦
      let e = moved_lem say_keyboard w g h in
      rw (other, e) (refl, moved_to-IsGroup say_keyboard w g)
]
