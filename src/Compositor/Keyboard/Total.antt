-- ===== src/Compositor/Keyboard/Total.antt =====
-- The loop of `kbdread` ends.
use wl.Prelude.{
  ℕ, zero, suc, ◌+◌, ◌<◌, ◌≤◌, ◌≡◌, refl, ◌⊎◌, inl, inr, Bool, true, false, not, ◌&&◌, Option, none,
  some, List, [], ◌∷◌, length, ◌==◌, if◌then◌else◌, arith, Bool-cases, Option-cases,
}
use wl.Compositor.Focus.{Window}
use wl.Compositor.Keyboard.{
  Keyboard, split_nul, decode_keys, split_last, handle_keys, Handled, keep_keys, handle_press,
  handle_text, kbdevent, kbd_loop,
}

-- NULL, or these bytes, are what is handed back.
abbrev Behind : List ℕ → Handled → Type 0
Behind rest (k, left) = (left ≡ none) ⊎ (left ≡ some rest)

keep-Behind :
    (copies : Bool) (before : Keyboard) (rest : List ℕ) (k : Keyboard)
    → Behind rest (keep_keys copies before rest k)
keep-Behind true before rest k = inr refl
keep-Behind false before rest k = inl refl

press-Behind :
    (copies : Bool) (clock : Option ℕ) (w : Window) (keys rest : List ℕ) (k : Keyboard)
    → Behind rest (handle_press copies clock w keys rest k)
press-Behind copies clock w keys rest k = elim (Option-cases (split_last keys)) [
  | inl e ↦ rw (e, handle_press) (inl refl)
  | inr ((before, last), e) ↦
      rw (e, handle_press) (keep-Behind copies k rest (handle_keys clock w true before last k))
]

text-Behind :
    (room copies : Bool) (clock : Option ℕ) (w : Window) (pressed : Bool) (text rest : List ℕ)
    (k : Keyboard)
    → Behind rest (handle_text room copies clock w pressed text rest k)
text-Behind room copies clock w pressed text rest k =
    elim (Option-cases (decode_keys (length text) text)) [
      | inl e ↦ rw (e, handle_text) (inl refl)
      | inr (keys, e) ↦
          rw (e, handle_text)
            (decoded keys pressed (Bool-cases (not room && not (length keys == 0))))
    ]
  where
    decoded :
        (keys : List ℕ) (pressed : Bool)
        → ((not room && not (length keys == 0)) ≡ true)
          ⊎ ((not room && not (length keys == 0)) ≡ false)
        → Behind rest (
            if not room && not (length keys == 0)
            then (k, none)
            else if pressed
            then handle_press copies clock w keys rest k
            else keep_keys copies k rest (handle_keys clock w false keys 0 k))
    decoded keys pressed (inl e) = rw e (inl refl)
    decoded keys true (inr e) = rw e (press-Behind copies clock w keys rest k)
    decoded keys false (inr e) =
        rw e (keep-Behind copies k rest (handle_keys clock w false keys 0 k))

split_nul_shorter :
    (s text rest : List ℕ) → split_nul s ≡ some (text, rest) → length text + length rest < length s
split_nul_shorter [] text rest e = absurd (ground (arith, e))
split_nul_shorter (zero ∷ s) text rest e = ground (arith, e)
split_nul_shorter (suc b ∷ s) text rest e = elim (Option-cases (split_nul s)) [
  | inl q ↦ absurd (ground (arith, e, q))
  | inr ((text', rest'), q) ↦ ground (arith, e, q, split_nul_shorter s text' rest' q)
]

abbrev Shorter : List ℕ → Handled → Type 0
Shorter s (k, none) = Unit
Shorter s (k, some rest) = length rest < length s

shorter_lem : (s rest : List ℕ) (h : Handled) → length rest < length s → Behind rest h → Shorter s h
shorter_lem s rest (k, none) lt b = tt
shorter_lem s rest (k, some rest') lt (inl e) = absurd (ground (arith, e))
shorter_lem s rest (k, some rest') lt (inr e) = ground (arith, e)

event-Shorter :
    (room copies : Bool) (clock : Option ℕ) (w : Window) (s : List ℕ) (k : Keyboard)
    → Shorter s (kbdevent room copies clock w s k)
unfolding kbdevent
event-Shorter room copies clock w s k = step (split_nul s) (split_nul_shorter s)
  where
    kinds :
        (b : ℕ) (text rest : List ℕ)
        → length rest < length s
        → Shorter s (
            if b == b'k'
            then handle_text room copies clock w true text rest k
            else if b == b'K'
            then handle_text room copies clock w false text rest k
            else (k, some rest))
    kinds b text rest lt = elim (Bool-cases (b == b'k')) [
      | inl e ↦ rw e (
          shorter_lem s rest (handle_text room copies clock w true text rest k) lt
            (text-Behind room copies clock w true text rest k))
      | inr e ↦ elim (Bool-cases (b == b'K')) [
        | inl e' ↦
            rw (e, e')
              (shorter_lem s rest (handle_text room copies clock w false text rest k) lt
                (text-Behind room copies clock w false text rest k))
        | inr e' ↦ rw (e, e') lt
      ]
    ]

    step :
        (o : Option (List ℕ × List ℕ))
        → ((text rest : List ℕ) → o ≡ some (text, rest) → length text + length rest < length s)
        → Shorter s (elim o [
          | none ↦ (k, none)
          | some ([], rest) ↦ (k, some rest)
          | some (b ∷ text, rest) ↦
              if b == b'k'
              then handle_text room copies clock w true text rest k
              else if b == b'K'
              then handle_text room copies clock w false text rest k
              else (k, some rest)
        ])
    step none f = tt
    step (some ([], rest)) f = omega (arith, f [] rest refl)
    step (some (b ∷ text, rest)) f = kinds b text rest (omega (arith, f (b ∷ text) rest refl))

abbrev Ends : Option Keyboard → Type 0
Ends none = ⊥
Ends (some k) = Unit

kbd_loop-Ends :
    (fuel : ℕ) (room copies : Bool) (clock : ℕ → Option ℕ) (w : Window) (s : List ℕ) (k : Keyboard)
    → length s ≤ fuel
    → Ends (kbd_loop fuel room copies clock w s k)
unfolding kbd_loop
kbd_loop-Ends fuel room copies clock w [] k h = tt
kbd_loop-Ends zero room copies clock w (b ∷ s) k h = absurd (omega arith)
kbd_loop-Ends (suc fuel) room copies clock w (b ∷ s) k h =
    step (kbdevent room copies (clock fuel) w (b ∷ s) k)
      (event-Shorter room copies (clock fuel) w (b ∷ s) k)
      (λ rest k' lt. kbd_loop-Ends fuel room copies clock w rest k' (omega (arith, h)))
  where
    step :
        (r : Handled)
        → Shorter (b ∷ s) r
        → ((rest : List ℕ) (k' : Keyboard)
            → length rest < length (b ∷ s)
            → Ends (kbd_loop fuel room copies clock w rest k'))
        → Ends (
            let (k', left) = r in
            elim left [ none ↦ some k' | some rest ↦ kbd_loop fuel room copies clock w rest k' ])
    step (k', none) lt more = tt
    step (k', some rest) lt more = more rest k' lt

ends_lem : (o : Option Keyboard) → Ends o → (k : Keyboard) × (o ≡ some k)
ends_lem none h = absurd h
ends_lem (some k) h = (k, refl)

-- Whatever bytes are read, with memory or not, the loop of `kbdread` comes to an end: fuel for each
-- byte is enough.
pub kbd_loop-total :
    (fuel : ℕ) (room copies : Bool) (clock : ℕ → Option ℕ) (w : Window) (s : List ℕ) (k : Keyboard)
    → length s ≤ fuel
    → (k' : Keyboard) × (kbd_loop fuel room copies clock w s k ≡ some k')
kbd_loop-total fuel room copies clock w s k h =
    ends_lem (kbd_loop fuel room copies clock w s k) (kbd_loop-Ends fuel room copies clock w s k h)
