-- ===== src/Compositor/Keyboard/Press.antt =====
-- A key that goes down or up in the window under focus is told to its keyboards, and no other.
use wl.Prelude.{
  ℕ, ◌+◌, ◌%◌, ◌^◌, ◌<◌, ◌≡◌, refl, sym, ap, ap₂, ◌∙◌, bit_or, Bool, true, false, not, Option, some,
  List, [], ◌∷◌, ◌++◌, length, ◌==◌, if◌then◌else◌, All, arith, length-append,
}
use wl.Keymap.Runes.{keymapmod}
use wl.Compositor.Focus.{Resource, Note, Window, next_serial, same_window}
use wl.Compositor.Keyboard.{
  Keyboard, decode_keys, split_last, all_mods, has_key, compare_keys, needs_enter, event_time, tell,
  say_key, add_notes, handle_keys, handle_press, handle_text, kbdevent,
}
use wl.Compositor.Keyboard.Messages.{
  IsKey, encodings, split_nul-append, encodings-no_nul, decode_keys-encodings,
}

split_last-snoc : (ks : List ℕ) (k : ℕ) → split_last (ks ++ k ∷ []) ≡ some (ks, k)
split_last-snoc [] k = refl
split_last-snoc (x ∷ ks) k = rw (split_last-snoc ks k) refl

compare_found :
    (pressed : Bool) (keys olds : List ℕ) (n e : ℕ)
    → All (λ k. has_key keys k ≡ true) olds
    → compare_keys pressed keys olds n e ≡ (n, e)
unfolding compare_keys
compare_found pressed keys [] n e h = refl
compare_found pressed keys (old ∷ olds) n e h = rw h.0 (compare_found pressed keys olds n e h.1)

has_key_weaken : (x k : ℕ) (ks : List ℕ) → has_key ks k ≡ true → has_key (x ∷ ks) k ≡ true
has_key_weaken x k ks h = ground (arith, h)

All-weaken :
    (x : ℕ) (ks olds : List ℕ)
    → All (λ k. has_key ks k ≡ true) olds
    → All (λ k. has_key (x ∷ ks) k ≡ true) olds
All-weaken x ks [] h = tt
All-weaken x ks (o ∷ olds) h = (has_key_weaken x o ks h.0, All-weaken x ks olds h.1)

has-All : (ks : List ℕ) → All (λ k. has_key ks k ≡ true) ks
has-All [] = tt
has-All (k ∷ ks) = (ground arith, All-weaken k ks ks (has-All ks))

abbrev pick_key : Bool → ℕ → Bool × ℕ
pick_key b e = if b then (true, 0) else (false, e)

abbrev pick : Bool → ℕ → Bool × ℕ
pick b e = if b then (true, e) else (false, e)

-- On a press whose other keys are those that were down.
needs_enter_press : (keys : List ℕ) (e : ℕ) → needs_enter true keys keys e ≡ (false, e)
needs_enter_press keys e = rw (compare_found true keys keys 0 e (has-All keys)) (same (length keys))
  where
    same : (n : ℕ) → pick (not (n + 0 == n)) e ≡ (false, e)
    same n = ground arith

-- What the keyboards in turn are told of an event: the key, and the modifiers if they changed.
abbrev pub key_events : ℕ → ℕ → ℕ → ℕ → ℕ → ℕ → List Resource → List Note
key_events serial time eventkey state mods old_mods [] = []
key_events serial time eventkey state mods old_mods (r ∷ rs) =
    Note.key r.id serial time eventkey state
    ∷ ((if not (old_mods == mods) then Note.modifiers r.id serial mods ∷ [] else [])
        ++ key_events serial time eventkey state mods old_mods rs)

not_same :
    (a b : ℕ) (xs : List Note) → (if not (b == a) then xs else []) ≡ (if a == b then [] else xs)
not_same a b xs = ground arith

key_events-tell :
    (serial time eventkey state mods old_mods : ℕ) (rs : List Resource)
    → tell (say_key serial time eventkey state mods old_mods) rs
      ≡ key_events serial time eventkey state mods old_mods rs
key_events-tell serial time eventkey state mods old_mods [] = refl
key_events-tell serial time eventkey state mods old_mods (r ∷ rs) =
    ap₂ (λ (xs ys : List Note). Note.key r.id serial time eventkey state ∷ (xs ++ ys))
      (sym (not_same mods old_mods (Note.modifiers r.id serial mods ∷ [])))
      (key_events-tell serial time eventkey state mods old_mods rs)

-- The state after a press, or a release: the next serial, and the event for every active keyboard.
abbrev pub told : Option ℕ → Bool → ℕ → ℕ → List ℕ → Keyboard → Keyboard
told clock pressed eventkey mods keys k =
    let serial = (k.group.serial + 1) % 2 ^ 32 in
    record {
      group = record k.group {
        serial = serial;
        notes =
            k.group.notes
            ++ key_events serial (event_time clock) eventkey (if pressed then 1 else 0) mods k.mods
                k.group.active;
      };
      mods = mods;
      keys = keys;
    }

-- The same in the code's words.
abbrev told_code : Option ℕ → Bool → ℕ → ℕ → List ℕ → Keyboard → Keyboard
told_code clock pressed eventkey mods keys k =
    let g = next_serial k.group in
    record {
      group =
          add_notes
            (tell
              (say_key g.serial (event_time clock) eventkey (if pressed then 1 else 0) mods k.mods)
              g.active)
            g;
      mods = mods;
      keys = keys;
    }

told_lem :
    (clock : Option ℕ) (pressed : Bool) (eventkey mods : ℕ) (keys : List ℕ) (k : Keyboard)
    → told_code clock pressed eventkey mods keys k ≡ told clock pressed eventkey mods keys k
told_lem clock pressed eventkey mods keys k =
    let serial = (k.group.serial + 1) % 2 ^ 32 in
    ap
      (λ (ns : List Note). record {
        group = record k.group { serial = serial; notes = k.group.notes ++ ns };
        mods = mods;
        keys = keys;
      })
      (key_events-tell serial (event_time clock) eventkey (if pressed then 1 else 0) mods k.mods
        k.group.active)

pressed_lem :
    (clock : Option ℕ) (w : Window) (ks : List ℕ) (key : ℕ) (k : Keyboard)
    → k.keys ≡ ks
    → same_window k.group.focus (some w) ≡ true
    → handle_keys clock w true ks key k
      ≡ told_code clock true key (bit_or (all_mods ks 0) (keymapmod key)) (ks ++ key ∷ []) k
pressed_lem clock w ks key k down focus =
    let e : needs_enter true ks k.keys key ≡ (false, key) = rw down (needs_enter_press ks key) in
    rw (e, focus) refl

-- A message of which the text is decoded.
texted :
    (clock : Option ℕ) (w : Window) (pressed : Bool) (text rest keys : List ℕ) (k : Keyboard)
    → All (λ b. 0 < b) text
    → decode_keys (length text) text ≡ some keys
    → kbdevent true true clock w ((if pressed then b'k' else b'K') ∷ text ++ 0 ∷ rest) k ≡ (
        if pressed
        then handle_press true clock w keys rest k
        else (handle_keys clock w false keys 0 k, some rest))
unfolding kbdevent
texted clock w true text rest keys k h e =
    rw (split_nul-append (b'k' ∷ text) rest (omega arith, h), kbdevent) (rw (e, handle_text) refl)
texted clock w false text rest keys k h e =
    rw (split_nul-append (b'K' ∷ text) rest (omega arith, h), kbdevent) (rw (e, handle_text) refl)

-- With memory, when the window w has focus, the keys ks are down there, and the message says that
-- the keys down are ks and then key, none of them NUL: every active keyboard is told that key is
-- pressed, and the modifiers if they are others than before, and nothing else is sent; ks and key
-- are then down.
pub kbdevent_press :
    (clock : Option ℕ) (w : Window) (ks rest : List ℕ) (key : ℕ) (k : Keyboard)
    → All IsKey (ks ++ key ∷ [])
    → k.keys ≡ ks
    → same_window k.group.focus (some w) ≡ true
    → kbdevent true true clock w (b'k' ∷ encodings (ks ++ key ∷ []) ++ 0 ∷ rest) k
      ≡ (told clock true key (bit_or (all_mods ks 0) (keymapmod key)) (ks ++ key ∷ []) k, some rest)
kbdevent_press clock w ks rest key k valid down focus =
    texted clock w true (encodings (ks ++ key ∷ [])) rest (ks ++ key ∷ []) k
      (encodings-no_nul (ks ++ key ∷ []) valid)
      (decode_keys-encodings (length (encodings (ks ++ key ∷ []))) (ks ++ key ∷ []) valid
        (omega arith))
    ∙ (rw (split_last-snoc ks key, handle_press)
        (ap (λ q. (q, some rest))
          (pressed_lem clock w ks key k down focus
            ∙ told_lem clock true key (bit_or (all_mods ks 0) (keymapmod key)) (ks ++ key ∷ []) k)))

-- On a release, when one key that was down is missing.
compare_release :
    (keys before after : List ℕ) (key e : ℕ)
    → All (λ k. has_key keys k ≡ true) before
    → All (λ k. has_key keys k ≡ true) after
    → has_key keys key ≡ false
    → compare_keys false keys (before ++ key ∷ after) 0 e ≡ (1, key)
unfolding compare_keys
compare_release keys [] after key e h h' gone = rw gone (compare_found false keys after 1 key h')
compare_release keys (b ∷ before) after key e h h' gone =
    rw h.0 (compare_release keys before after key e h.1 h' gone)

All-split : (P : ℕ → Type 0) (xs ys : List ℕ) → All P (xs ++ ys) → All P xs × All P ys
All-split P [] ys h = (tt, h)
All-split P (x ∷ xs) ys h = let (a, b) = All-split P xs ys h.1 in ((h.0, a), b)

needs_enter_release :
    (before after : List ℕ) (key : ℕ)
    → has_key (before ++ after) key ≡ false
    → needs_enter false (before ++ after) (before ++ key ∷ after) 0 ≡ (false, key)
needs_enter_release before after key gone =
    let (h, h') = All-split _ before after (has-All (before ++ after)) in
    rw (compare_release (before ++ after) before after key 0 h h' gone) (
      same (length (before ++ after)) (length (before ++ key ∷ after))
        (omega (arith, length-append before after, length-append before (key ∷ after))))
  where
    same : (m n : ℕ) → m + 1 ≡ n → pick_key (not (m + 1 == n)) key ≡ (false, key)
    same m n e = ground (arith, e)

released_lem :
    (clock : Option ℕ) (w : Window) (before after : List ℕ) (key : ℕ) (k : Keyboard)
    → has_key (before ++ after) key ≡ false
    → k.keys ≡ before ++ key ∷ after
    → same_window k.group.focus (some w) ≡ true
    → handle_keys clock w false (before ++ after) 0 k
      ≡ told_code clock false key (all_mods (before ++ after) 0) (before ++ after) k
released_lem clock w before after key k gone down focus =
    let e : needs_enter false (before ++ after) k.keys 0 ≡ (false, key) =
      rw down (needs_enter_release before after key gone) in
    rw (e, focus) refl

-- With memory, when the window w has focus and the message says that the keys down are those from
-- before but for key, in the same order, none of them NUL: every active keyboard is told that key
-- is released, and the modifiers if they are others than before, and nothing else is sent.
pub kbdevent_release :
    (clock : Option ℕ) (w : Window) (before after rest : List ℕ) (key : ℕ) (k : Keyboard)
    → All IsKey (before ++ after)
    → has_key (before ++ after) key ≡ false
    → k.keys ≡ before ++ key ∷ after
    → same_window k.group.focus (some w) ≡ true
    → kbdevent true true clock w (b'K' ∷ encodings (before ++ after) ++ 0 ∷ rest) k
      ≡ (told clock false key (all_mods (before ++ after) 0) (before ++ after) k, some rest)
kbdevent_release clock w before after rest key k valid gone down focus =
    texted clock w false (encodings (before ++ after)) rest (before ++ after) k
      (encodings-no_nul (before ++ after) valid)
      (decode_keys-encodings (length (encodings (before ++ after))) (before ++ after) valid
        (omega arith))
    ∙ ap (λ q. (q, some rest))
        (released_lem clock w before after key k gone down focus
          ∙ told_lem clock false key (all_mods (before ++ after) 0) (before ++ after) k)
