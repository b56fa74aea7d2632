-- ===== src/Compositor/Control/Report.antt =====
-- What `wctlread` reads, and when a client is told a size.
use wl.Prelude.{
  ℕ, suc, ◌-◌, ◌^◌, ◌<◌, ◌≡◌, refl, sym, inl, inr, Bool, true, false, not, ◌&&◌, ◌||◌, some, List,
  [], ◌∷◌, ◌++◌, if◌then◌else◌, arith, replicate, Bool-cases,
}
use wl.Prelude.Int.{ℤ, pos, ◌+ℤ◌, ◌-ℤ◌, to_int, eq_of_parts}
use wl.Libc.{codes, strtol, is_digit}
use wl.Libc.Decimal.{decimal, strtol-decimal}
use wl.Compositor.Control.{
  Control, same_int, border, next_word, read_flags, read_control, moved, resized, Effect,
  name_image, redraw, get_focus, lose_focus, configure, same_flag, set_flags, update,
}

-- A number, right-aligned and with a blank behind it.
abbrev pub field : ℕ → ℕ → ℕ → List ℕ → List ℕ
field pad digits n rest = replicate pad 32 ++ (decimal digits n ++ b' ' ∷ rest)

blank : is_digit b' ' ≡ false
unfolding is_digit
blank = refl

pub read_field :
    (pad digits n : ℕ) (rest : List ℕ)
    → 0 < digits
    → n < 10 ^ digits
    → n < 2 ^ 63
    → strtol (field pad digits n rest) ≡ (pos n, b' ' ∷ rest)
read_field pad digits n rest some_ h fits = strtol-decimal pad digits n b' ' rest some_ h fits blank

abbrev pub flag_words : Bool → Bool → List ℕ
flag_words current hidden =
    (if current then codes "current" else codes "notcurrent")
    ++ (b' ' ∷ ((if hidden then codes "hidden" else codes "visible") ++ (b' ' ∷ 0 ∷ [])))

read_words :
    (current hidden : Bool) → read_flags (b' ' ∷ flag_words current hidden) ≡ some (current, hidden)
unfolding read_flags next_word
read_words false false = refl
read_words false true = refl
read_words true false = refl
read_words true true = refl

-- The window inside the border.
abbrev pub inside : ℕ → ℕ → ℕ → ℕ → Bool → Bool → Control
inside a b c d current hidden = record {
  x0 = pos a +ℤ border;
  y0 = pos b +ℤ border;
  x1 = pos c -ℤ border;
  y1 = pos d -ℤ border;
  current = current;
  hidden = hidden;
}

abbrev IsSmall : ℕ → Type 0
IsSmall n = n < 2 ^ 31 - 4

to_int-plus : (a : ℕ) → IsSmall a → to_int (pos a +ℤ border) ≡ pos a +ℤ border
unfolding to_int ◌+ℤ◌
to_int-plus a h = ground (arith, h)

to_int-minus : (a : ℕ) → IsSmall a → to_int (pos a -ℤ border) ≡ pos a -ℤ border
unfolding to_int ◌-ℤ◌
to_int-minus a h = ground (arith, h)

four :
    (s s1 s2 s3 s4 : List ℕ) (a b c d : ℕ) (current hidden : Bool)
    → strtol s ≡ (pos a, s1)
    → strtol s1 ≡ (pos b, s2)
    → strtol s2 ≡ (pos c, s3)
    → strtol s3 ≡ (pos d, s4)
    → read_flags s4 ≡ some (current, hidden)
    → IsSmall a
    → IsSmall b
    → IsSmall c
    → IsSmall d
    → read_control s ≡ some (inside a b c d current hidden)
unfolding read_control
four s s1 s2 s3 s4 a b c d current hidden e e1 e2 e3 e4 ha hb hc hd = ground (
  arith,
  e,
  e1,
  e2,
  e3,
  e4,
  to_int-plus a ha,
  to_int-plus b hb,
  to_int-minus c hc,
  to_int-minus d hd,
)

-- A message of four numbers below 2^31 - 4, each right-aligned with a blank behind it, and of the
-- words for the two flags is read as the place inside a border of 4 and these flags.
pub read_control-inside :
    (p q r s a b c d : ℕ) (current hidden : Bool)
    → a < 2 ^ 31 - 4
    → b < 2 ^ 31 - 4
    → c < 2 ^ 31 - 4
    → d < 2 ^ 31 - 4
    → read_control
        (field p 11 a (field q 11 b (field r 11 c (field s 11 d (flag_words current hidden)))))
      ≡ some (inside a b c d current hidden)
read_control-inside p q r s a b c d current hidden ha hb hc hd =
    let end = flag_words current hidden in
    let s3 = field s 11 d end in
    let s2 = field r 11 c s3 in
    let s1 = field q 11 b s2 in
    four (field p 11 a s1) (b' ' ∷ s1) (b' ' ∷ s2) (b' ' ∷ s3) (b' ' ∷ end) a b c d current hidden
      (read_field p 11 a s1 (omega arith) (omega (arith, ha)) (omega (arith, ha)))
      (read_field (suc q) 11 b s2 (omega arith) (omega (arith, hb)) (omega (arith, hb)))
      (read_field (suc r) 11 c s3 (omega arith) (omega (arith, hc)) (omega (arith, hc)))
      (read_field (suc s) 11 d end (omega arith) (omega (arith, hd)) (omega (arith, hd)))
      (read_words current hidden) ha hb hc hd

-- The width or the height is another one.
abbrev pub size_differs : Control → Control → Bool
size_differs n w =
    not (same_int (n.x1 -ℤ n.x0) (w.x1 -ℤ w.x0) && same_int (n.y1 -ℤ n.y0) (w.y1 -ℤ w.y0))

-- The place is another one.
abbrev pub other_place : Control → Control → Bool
other_place n w =
    not (same_int n.x0 w.x0 && (same_int n.y0 w.y0 && (same_int n.x1 w.x1 && same_int n.y1 w.y1)))

size_differs-resized : (n w : Control) → size_differs n w ≡ resized w n
size_differs-resized n w = ground arith

other_place-moved : (n w : Control) → other_place n w ≡ moved w n
other_place-moved n w = ground arith

-- What is done with the screen.
abbrev pub drawing : Control → Control → List Effect
drawing n w =
    if not (other_place n w)
    then []
    else name_image ∷ (if size_differs n w then [] else redraw ∷ [])

abbrev pub changed : Bool → Bool → Bool
changed true true = false
changed true false = true
changed false true = true
changed false false = false

abbrev pub focusing : Control → Control → List Effect
focusing n w =
    if changed n.current w.current
    then (if n.current then get_focus ∷ [] else lose_focus ∷ [])
    else []

abbrev pub telling : Control → Control → List Effect
telling n w =
    if size_differs n w || changed n.current w.current
    then configure (n.x1 -ℤ n.x0) (n.y1 -ℤ n.y0) n.current ∷ []
    else []

changed_lem : (b c : Bool) → changed b c ≡ not (same_flag c b)
changed_lem true true = refl
changed_lem true false = refl
changed_lem false true = refl
changed_lem false false = refl

same_place : (a b : ℤ) → same_int a b ≡ true → a ≡ b
same_place a b e = eq_of_parts a b (ground (arith, e))

places :
    (n w : Control)
    → moved w n ≡ false
    → (n.x0 ≡ w.x0) × (n.y0 ≡ w.y0) × (n.x1 ≡ w.x1) × (n.y1 ≡ w.y1)
places n w m = (
  same_place n.x0 w.x0 (ground (arith, m)),
  same_place n.y0 w.y0 (ground (arith, m)),
  same_place n.x1 w.x1 (ground (arith, m)),
  same_place n.y1 w.y1 (ground (arith, m)),
)

still :
    (n w : Control) → moved w n ≡ false → record w { current = n.current; hidden = n.hidden } ≡ n
still n w m i =
    let (a, b, c, d) = places n w m in
    record {
      x0 = sym a i;
      y0 = sym b i;
      x1 = sym c i;
      y1 = sym d i;
      current = n.current;
      hidden = n.hidden;
    }

same_self : (a : ℤ) → same_int a a ≡ true
same_self a = ground arith

stays : (n w : Control) → moved w n ≡ false → resized w n ≡ false
stays n w m =
    let (a, b, c, d) = places n w m in
    rw (a, b, c, d) (rw (same_self (w.x1 -ℤ w.x0), same_self (w.y1 -ℤ w.y0)) refl)

-- Where the name and a buffer are there: after a message of the wctl file the window's place and
-- flags are those of the message, and the client is told its size exactly when the size or the
-- current flag changed; a window that only moved is drawn again.
pub update-settles :
    (n w : Control)
    → ((update true true n w).0 ≡ n)
      × ((update true true n w).1 ≡ (drawing n w ++ focusing n w) ++ telling n w)
unfolding update set_flags
update-settles n w =
    rw (size_differs-resized n w, other_place-moved n w, changed_lem n.current w.current)
      (elim (Bool-cases (moved w n)) [
        | inl m ↦ elim (Bool-cases (resized w n)) [
          | inl z ↦ rw (m, z) (refl, refl)
          | inr z ↦ rw (m, z) (refl, refl)
        ]
        | inr m ↦ rw (m, stays n w m) (still n w m, refl)
      ])
