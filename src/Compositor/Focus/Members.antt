-- ===== src/Compositor/Focus/Members.antt =====
-- Pointers and keyboards come and go.
use wl.Prelude.{
  ℕ, ◌≡◌, refl, if◌then◌else◌, inl, inr, Option, none, some, List, [], ◌∷◌, ◌++◌, ◌==◌, All,
  Bool-cases,
}
use wl.Compositor.Focus.{
  Resource, Window, Note, keymap, Group, is_active, link, get_pointer, get_keyboard, without,
  unlink_resource,
}
use wl.Compositor.Focus.Groups.{IsGroup}

without-All : (P : Resource → Type 0) (i : ℕ) (rs : List Resource) → All P rs → All P (without i rs)
without-All P i [] h = tt
without-All P i (r ∷ rs) h = elim (Bool-cases (r.id == i)) [
  | inl e ↦ rw e (without-All P i rs h.1)
  | inr e ↦ rw e (h.0, without-All P i rs h.1)
]

link-IsGroup : (r : Resource) (g : Group) → IsGroup g → IsGroup (link r g)
link-IsGroup r g h = elim (Bool-cases (is_active r.client g.focus)) [
  | inl e ↦ rw e (record { active = (e, h.active); inactive = h.inactive })
  | inr e ↦ rw e (record { active = h.active; inactive = (e, h.inactive) })
]

-- The resource stands in front of the active ones where the window under focus is its client's, and
-- in front of the inactive ones otherwise.
abbrev pub Joins : Resource → Option Window → Group → Group → Type 0
Joins r none g g' = (g'.active ≡ g.active) × (g'.inactive ≡ r ∷ g.inactive)
Joins r (some w) g g' =
    if r.client == w.client
    then (g'.active ≡ r ∷ g.active) × (g'.inactive ≡ g.inactive)
    else (g'.active ≡ g.active) × (g'.inactive ≡ r ∷ g.inactive)

abbrev pub MadeJoins : Option Resource → Group → Group → Type 0
MadeJoins none g g' = g' ≡ g
MadeJoins (some r) g g' = Joins r g.focus g g' × (g'.focus ≡ g.focus)

link-Joins :
    (r : Resource) (g : Group) (ns : List Note)
    → Joins r g.focus g (link r (record g { notes = ns }))
      × ((link r (record g { notes = ns })).focus ≡ g.focus)
link-Joins r g ns = step g.focus
  where
    placed : Option Window → Group
    placed f =
        if is_active r.client f
        then record g { active = r ∷ g.active; notes = ns }
        else record g { inactive = r ∷ g.inactive; notes = ns }

    step : (f : Option Window) → Joins r f g (placed f) × ((placed f).focus ≡ g.focus)
    step none = ((refl, refl), refl)
    step (some w) = elim (Bool-cases (r.client == w.client)) [
      | inl e ↦ rw e ((refl, refl), refl)
      | inr e ↦ rw e ((refl, refl), refl)
    ]

get_pointer-Joins : (made : Option Resource) (g : Group) → MadeJoins made g (get_pointer made g)
unfolding get_pointer
get_pointer-Joins none g = refl
get_pointer-Joins (some r) g = link-Joins r g g.notes

get_keyboard-Joins : (made : Option Resource) (g : Group) → MadeJoins made g (get_keyboard made g)
unfolding get_keyboard
get_keyboard-Joins none g = refl
get_keyboard-Joins (some r) g = link-Joins r g (g.notes ++ keymap r.id ∷ [])

-- A resource with the number is in neither list, and the others stay.
abbrev pub Leaves : ℕ → List Resource → List Resource → Type 0
Leaves i [] rs' = rs' ≡ []
Leaves i (r ∷ rs) rs' =
    if r.id == i
    then Leaves i rs rs'
    else (rest : List Resource) × (rs' ≡ r ∷ rest) × Leaves i rs rest

without-Leaves : (i : ℕ) (rs : List Resource) → Leaves i rs (without i rs)
without-Leaves i [] = refl
without-Leaves i (r ∷ rs) = elim (Bool-cases (r.id == i)) [
  | inl e ↦ rw e (without-Leaves i rs)
  | inr e ↦ rw e (without i rs, refl, without-Leaves i rs)
]

-- A new pointer or keyboard is active when its client has focus and inactive otherwise, and no other is moved; the end of a resource takes it out of both lists and leaves the others; so that the active resources stay
-- those of the client under focus.
pub get-IsGroup :
    (made : Option Resource) (i : ℕ) (g : Group)
    → IsGroup g
    → (IsGroup (get_pointer made g) × MadeJoins made g (get_pointer made g))
      × (IsGroup (get_keyboard made g) × MadeJoins made g (get_keyboard made g))
      × (IsGroup (unlink_resource i g)
          × Leaves i g.active (unlink_resource i g).active
          × Leaves i g.inactive (unlink_resource i g).inactive)
unfolding get_pointer get_keyboard unlink_resource
get-IsGroup made i g h = (
  (pointer made, get_pointer-Joins made g),
  (keyboard made, get_keyboard-Joins made g),
  (gone, without-Leaves i g.active, without-Leaves i g.inactive),
)
  where
    gone : IsGroup (record g { active = without i g.active; inactive = without i g.inactive })
    gone = record {
      active = without-All _ i g.active h.active;
      inactive = without-All _ i g.inactive h.inactive;
    }

    pointer : (made : Option Resource) → IsGroup (get_pointer made g)
    pointer none = h
    pointer (some r) = link-IsGroup r g h

    keyboard : (made : Option Resource) → IsGroup (get_keyboard made g)
    keyboard none = h
    keyboard (some r) =
        link-IsGroup r (record g { notes = g.notes ++ keymap r.id ∷ [] })
          (record { active = h.active; inactive = h.inactive })
