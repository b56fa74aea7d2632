-- ===== src/Start/Place.antt =====
-- What `drawinit` reads from /dev/draw/new: twelve fields of twelve bytes, of which the first and the
-- fifth to eighth are looked at.
use wl.Prelude.{
  ℕ, zero, suc, ◌+◌, ◌/◌, ◌^◌, ◌<◌, ◌≤◌, ◌≡◌, refl, sym, ap, ◌∙◌, false, List, [], ◌∷◌, ◌++◌,
  length, drop, ltb, if◌then◌else◌, set, arith, replicate, All, length-append, dec_lt, lt→ltb,
}
use mathlib.Core.List.{append_assoc}
use wl.Prelude.Int.{ℤ, pos, to_int, to_int-pos}
use wl.Libc.{strtol}
use wl.Libc.Decimal.{decimal}
use wl.Compositor.Control.{skip_blanks}
use wl.Compositor.Control.Report.{read_field}
use wl.Start.{c_string, atoi, screen, read_screen}

abbrev IsText : ℕ → Type 0
IsText c = 33 ≤ c

All-append : (xs ys : List ℕ) → All IsText xs → All IsText ys → All IsText (xs ++ ys)
All-append [] ys h k = k
All-append (x ∷ xs) ys h k = (h.0, All-append xs ys h.1 k)

decimal-IsText : (f n : ℕ) → All IsText (decimal f n)
decimal-IsText zero n = tt
decimal-IsText (suc f) n =
    All-append (if ltb n 10 then [] else decimal f (n / 10)) _
      (elim (dec_lt n 10) [
        | yes small ↦ rw (lt→ltb n 10 small) tt
        | no large ↦ ground (arith, decimal-IsText f (n / 10))
      ])
      (omega arith, tt)

c_string-text : (xs rest : List ℕ) → All IsText xs → c_string (xs ++ 0 ∷ rest) ≡ xs
c_string-text [] rest h = refl
c_string-text (x ∷ xs) rest h = ground (arith, h.0, c_string-text xs rest h.1)

skip_padding :
    (pad : ℕ) (xs rest : List ℕ)
    → All IsText xs
    → c_string (skip_blanks (replicate pad 32 ++ (xs ++ 0 ∷ rest))) ≡ xs
skip_padding zero [] rest h = refl
skip_padding zero (x ∷ xs) rest h = ground (arith, h.0, c_string-text xs rest h.1)
skip_padding (suc pad) xs rest h = ground (arith, skip_padding pad xs rest h)

set-past : (xs ys : List ℕ) (v k n : ℕ) → k ≡ length xs + n → set (xs ++ ys) k v ≡ xs ++ set ys n v
set-past [] ys v k n e = ap (λ i. set ys i v) (omega arith)
set-past (x ∷ xs) ys v zero n e = absurd (omega arith)
set-past (x ∷ xs) ys v (suc k) n e = ap (λ l. x ∷ l) (set-past xs ys v k n (omega arith))

pub drop-past : (xs ys : List ℕ) (k n : ℕ) → k ≡ length xs + n → drop k (xs ++ ys) ≡ drop n ys
drop-past [] ys k n e = ap (λ i. drop i ys) (omega arith)
drop-past (x ∷ xs) ys zero n e = absurd (omega arith)
drop-past (x ∷ xs) ys (suc k) n e = drop-past xs ys k n (omega arith)

-- A field: a number that is right-aligned, and a blank.
abbrev pub column : ℕ → ℕ → List ℕ
column pad n = replicate pad 32 ++ (decimal 11 n ++ 32 ∷ [])

abbrev pub IsColumn : ℕ → ℕ → Type 0
IsColumn pad n = length (column pad n) ≡ 12

atoi-column : (pad n : ℕ) (rest : List ℕ) → n < 2 ^ 31 → atoi (column pad n ++ rest) ≡ pos n
atoi-column pad n rest h =
    ap (λ (r : ℤ × List ℕ). to_int r.0)
      (ap strtol (
          append_assoc (replicate pad 32) _ rest
          ∙ ap (λ l. replicate pad 32 ++ l) (append_assoc (decimal 11 n) (32 ∷ []) rest))
        ∙ read_field pad 11 n rest (omega arith) (omega (arith, h)) (omega (arith, h)))
    ∙ to_int-pos n h

abbrev places : List ℕ → List ℕ → List ℕ → List ℕ → List ℕ → List ℕ
places a b c d rest = a ++ (b ++ (c ++ (d ++ rest)))

set-places :
    (a b c d : List ℕ) (z : ℕ) (rest : List ℕ)
    → length a ≡ 12
    → length b ≡ 12
    → length c ≡ 12
    → length d ≡ 12
    → set (places a b c d (z ∷ rest)) 48 0 ≡ places a b c d (0 ∷ rest)
set-places a b c d z rest ha hb hc hd =
    set-past a _ 0 48 36 (omega arith)
    ∙ ap (λ l. a ++ l)
        (set-past b _ 0 36 24 (omega arith)
          ∙ ap (λ l. b ++ l)
              (set-past c _ 0 24 12 (omega arith)
                ∙ ap (λ l. c ++ l) (set-past d _ 0 12 0 (omega arith))))

-- The bytes before the place: a word behind blanks and before a byte, and what follows it.
abbrev head : ℕ → List ℕ → ℕ → List ℕ → List ℕ
head pad xs end mid = replicate pad 32 ++ (xs ++ end ∷ mid)

head_split :
    (pad : ℕ) (xs : List ℕ) (end : ℕ) (mid l : List ℕ)
    → head pad xs end mid ++ l ≡ replicate pad 32 ++ (xs ++ end ∷ (mid ++ l))
head_split pad xs end mid l =
    append_assoc (replicate pad 32) (xs ++ end ∷ mid) l
    ∙ ap (λ k. replicate pad 32 ++ k) (append_assoc xs (end ∷ mid) l)

head_lem :
    (pad : ℕ) (xs : List ℕ) (end : ℕ) (mid l : List ℕ)
    → head pad xs end [] ++ (mid ++ l) ≡ head pad xs end mid ++ l
head_lem pad xs end mid l = head_split pad xs end [] (mid ++ l) ∙ sym (head_split pad xs end mid l)

length-head :
    (pad : ℕ) (xs : List ℕ) (end : ℕ) (mid : List ℕ)
    → length (head pad xs end mid) ≡ length {A = ℕ} (replicate pad 32) + length xs + 1 + length mid
length-head pad xs end mid = omega (
  arith,
  length-append {A = ℕ} (replicate pad 32) (xs ++ end ∷ mid),
  length-append xs (end ∷ mid),
)

-- The name's field ends with the byte that becomes NUL.
set-head :
    (pad : ℕ) (xs mid l : List ℕ)
    → length (head pad xs 32 []) ≡ 12
    → set (head pad xs 32 mid ++ l) 11 0 ≡ head pad xs 0 mid ++ l
set-head pad xs mid l h =
    ap (λ k. set k 11 0) (head_split pad xs 32 mid l)
    ∙ set-past (replicate pad 32) (xs ++ 32 ∷ (mid ++ l)) 0 11 (length xs)
        (omega (arith, h, length-head pad xs 32 []))
    ∙ ap (λ k. replicate pad 32 ++ k) (set-past xs (32 ∷ (mid ++ l)) 0 (length xs) 0 (omega arith))
    ∙ sym (head_split pad xs 0 mid l)

module _ (pad : ℕ) (xs mid a b c d : List ℕ) (z : ℕ) (rest : List ℕ) (text : All IsText xs)
    (hx : length (head pad xs 32 []) ≡ 12) (hm : length mid ≡ 36) (ha : length a ≡ 12)
    (hb : length b ≡ 12) (hc : length c ≡ 12) (hd : length d ≡ 12) where
  abbrev content : List ℕ
  content = head pad xs 32 [] ++ (mid ++ places a b c d (z ∷ rest))

  abbrev named : List ℕ
  named = head pad xs 0 mid ++ places a b c d (z ∷ rest)

  abbrev ended : List ℕ
  ended = head pad xs 0 mid ++ places a b c d (0 ∷ rest)

  long : 97 ≤ length content
  long = omega (
    arith,
    hx,
    hm,
    length-append (head pad xs 32 []) (mid ++ places a b c d (z ∷ rest)),
    length-append mid (places a b c d (z ∷ rest)),
    length-append a (b ++ (c ++ (d ++ z ∷ rest))),
    length-append b (c ++ (d ++ z ∷ rest)),
    length-append c (d ++ z ∷ rest),
    length-append d (z ∷ rest),
  )

  before : length (head pad xs 0 mid) ≡ 48
  before = omega (arith, hx, hm, length-head pad xs 32 [], length-head pad xs 0 mid)

  name_set : set content 11 0 ≡ named
  name_set =
      ap (λ l. set l 11 0) (head_lem pad xs 32 mid (places a b c d (z ∷ rest)))
      ∙ set-head pad xs mid (places a b c d (z ∷ rest)) hx

  end_set : set named 96 0 ≡ ended
  end_set =
      set-past (head pad xs 0 mid) (places a b c d (z ∷ rest)) 0 96 48 (omega (arith, before))
      ∙ ap (λ l. head pad xs 0 mid ++ l) (set-places a b c d z rest ha hb hc hd)

  name_lem : c_string (skip_blanks named) ≡ xs
  name_lem =
      ap (λ l. c_string (skip_blanks l)) (head_split pad xs 0 mid (places a b c d (z ∷ rest)))
      ∙ skip_padding pad xs (mid ++ places a b c d (z ∷ rest)) text

  drop-ended : (k n : ℕ) → k ≡ 48 + n → drop k ended ≡ drop n (places a b c d (0 ∷ rest))
  drop-ended k n e =
      drop-past (head pad xs 0 mid) (places a b c d (0 ∷ rest)) k n (omega (arith, before, e))

  places_lem :
      read_screen content
      ≡ screen xs
          (atoi (places a b c d (0 ∷ rest)))
          (atoi (b ++ (c ++ (d ++ 0 ∷ rest))))
          (atoi (c ++ (d ++ 0 ∷ rest)))
          (atoi (d ++ 0 ∷ rest))
  unfolding read_screen
  places_lem =
      let short : ltb (length content) 96 ≡ false = ground (arith, long) in
      let fits : ltb (length content) 97 ≡ false = ground (arith, long) in
      let ends : set (set content 11 0) 96 0 ≡ ended = ap (λ l. set l 96 0) name_set ∙ end_set in
      rw (short, fits)
        λ i.
          screen ((ap (λ l. c_string (skip_blanks l)) name_set ∙ name_lem) i)
            (atoi ((ap (drop 48) ends ∙ drop-ended 48 0 (omega arith)) i))
            (atoi (
              (ap (drop 60) ends
                  ∙ drop-ended 60 12 (omega arith)
                  ∙ drop-past a _ 12 0 (omega (arith, ha)))
                i))
            (atoi (
              (ap (drop 72) ends
                  ∙ drop-ended 72 24 (omega arith)
                  ∙ drop-past a _ 24 12 (omega (arith, ha))
                  ∙ drop-past b _ 12 0 (omega (arith, hb)))
                i))
            (atoi (
              (ap (drop 84) ends
                  ∙ drop-ended 84 36 (omega arith)
                  ∙ drop-past a _ 36 24 (omega (arith, ha))
                  ∙ drop-past b _ 24 12 (omega (arith, hb))
                  ∙ drop-past c _ 12 0 (omega (arith, hc)))
                i))

-- Where the name's field ends at byte 12 and the place's fields are twelve bytes each, from byte 48 on
-- and with something behind them, and show ints, `drawinit` reads the numbers that they show: the digits of the first
-- as the name of the connection, and the place.
pub read_screen-columns :
    (p q r s t n a b c d : ℕ) (mid : List ℕ) (z : ℕ) (rest : List ℕ)
    → IsColumn p n
    → IsColumn q a
    → IsColumn r b
    → IsColumn s c
    → IsColumn t d
    → length mid ≡ 36
    → a < 2 ^ 31
    → b < 2 ^ 31
    → c < 2 ^ 31
    → d < 2 ^ 31
    → read_screen (
        column p n
        ++ (mid ++ places (column q a) (column r b) (column s c) (column t d) (z ∷ rest)))
      ≡ screen (decimal 11 n) (pos a) (pos b) (pos c) (pos d)
unfolding read_screen
read_screen-columns p q r s t n a b c d mid z rest hn ha hb hc hd hm la lb lc ld =
    places_lem p (decimal 11 n) mid (column q a) (column r b) (column s c) (column t d) z rest
      (decimal-IsText 11 n) hn hm ha hb hc hd
    ∙ λ i.
        screen (decimal 11 n)
          (atoi-column q a (column r b ++ (column s c ++ (column t d ++ 0 ∷ rest))) la i)
          (atoi-column r b (column s c ++ (column t d ++ 0 ∷ rest)) lb i)
          (atoi-column s c (column t d ++ 0 ∷ rest) lc i) (atoi-column t d (0 ∷ rest) ld i)
