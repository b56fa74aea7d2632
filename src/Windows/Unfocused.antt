-- ===== src/Windows/Unfocused.antt =====
-- What `xdg_surface_destroy` does to the groups of pointers and keyboards.
use wl.Prelude.{
  ℕ, ◌≡◌, ◌⊎◌, inl, inr, refl, ap, subst, ◌∙◌, false, Option, none, some, if◌then◌else◌, Bool-cases,
  arith,
}
use wl.Compositor.Focus
use wl.Compositor.Focus.{Group, same_window, mousefocus, kbdfocus, say_keyboard}
use wl.Compositor.Focus.Groups.{IsGroup, mousefocus-moves, kbdfocus-moves, moved_to}

-- The window under focus is the one at i.
abbrev pub Focuses : ℕ → Option Focus.Window → Type 0
Focuses i none = ⊥
Focuses i (some v) = v.id ≡ i

not_same :
    (f : Option Focus.Window) (v : Focus.Window) → same_window f (some v) ≡ false → ¬ Focuses v.id f
not_same none v e k = k
not_same (some u) v e k = ground (arith, e, k)

-- Where a group has the window under focus, it loses it.
pub unfocus_mouse :
    (v : Focus.Window) (g : Group)
    → IsGroup g
    → let g' = if same_window g.focus (some v) then mousefocus none 0 0 g else g in
      IsGroup g' × (¬ Focuses v.id g'.focus) × ((g'.focus ≡ none) ⊎ (g'.focus ≡ g.focus))
unfocus_mouse v g h = elim (Bool-cases (same_window g.focus (some v))) [
  | inl same ↦
      let (e, valid) = mousefocus-moves none 0 0 g h in
      let gone = ap (λ (g' : Group). g'.focus) e in
      rw same (valid, λ k. subst (Focuses v.id) gone k, inl gone)
  | inr other ↦ rw other (h, not_same g.focus v other, inr refl)
]

kbd_none :
    (g : Group)
    → (if same_window g.focus none then g else moved_to say_keyboard none g).focus ≡ none
kbd_none g = step g.focus refl
  where
    step :
        (f : Option Focus.Window)
        → g.focus ≡ f
        → (if same_window f none then g else moved_to say_keyboard none g).focus ≡ none
    step none e = e
    step (some u) e = refl

pub unfocus_kbd :
    (v : Focus.Window) (g : Group)
    → IsGroup g
    → let g' = if same_window g.focus (some v) then kbdfocus none g else g in
      IsGroup g' × (¬ Focuses v.id g'.focus) × ((g'.focus ≡ none) ⊎ (g'.focus ≡ g.focus))
unfocus_kbd v g h = elim (Bool-cases (same_window g.focus (some v))) [
  | inl same ↦
      let (e, valid) = kbdfocus-moves none g h in
      let gone = ap (λ (g' : Group). g'.focus) e ∙ kbd_none g in
      rw same (valid, λ k. subst (Focuses v.id) gone k, inl gone)
  | inr other ↦ rw other (h, not_same g.focus v other, inr refl)
]
