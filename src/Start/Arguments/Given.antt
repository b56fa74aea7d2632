-- ===== src/Start/Arguments/Given.antt =====
-- Options that are written out are read back.
use wl.Prelude.{
  ℕ, ◌^◌, ◌<◌, ◌≡◌, refl, ap, ◌∙◌, Bool, true, false, none, some, List, [], ◌∷◌, ◌++◌, ◌==◌,
  if◌then◌else◌, arith, All, ◌≤◌,
}
use mathlib.Core.List.{append_assoc}
use wl.Prelude.Int.{pos}
use wl.Libc.{strtol, is_digit}
use wl.Libc.Decimal.{decimal, strtol-decimal, HasHead, HasHead-append, decimal_head}
use wl.Compositor.Options.{fdpair}
use wl.Start.Arguments.{Opts, char_at, set_option, joined, apart, word_of, parse}

-- -t with two descriptors or one, and -d with one; the value in the same word, or in the next.
pub data Given : Type 0 where
  term_pair : Bool → ℕ → ℕ → Given
  term_one data_one : Bool → ℕ → Given

abbrev letter : Given → ℕ
letter (term_pair same r w) = b't'
letter (term_one same r) = b't'
letter (data_one same r) = b'd'

abbrev value : Given → List ℕ
value (term_pair same r w) = decimal 10 r ++ b',' ∷ (decimal 10 w ++ 0 ∷ [])
value (term_one same r) = decimal 10 r ++ 0 ∷ []
value (data_one same r) = decimal 10 r ++ 0 ∷ []

abbrev same_arg : Given → Bool
same_arg (term_pair same r w) = same
same_arg (term_one same r) = same
same_arg (data_one same r) = same

abbrev pub words : Given → List (List ℕ)
words g =
    if same_arg g
    then (b'-' ∷ letter g ∷ value g) ∷ []
    else (b'-' ∷ letter g ∷ 0 ∷ []) ∷ value g ∷ []

abbrev pub all_words : List Given → List (List ℕ)
all_words [] = []
all_words (g ∷ gs) = words g ++ all_words gs

abbrev pub give : Given → Opts → Opts
give (term_pair same r w) o = record o { rfd = some r; wfd = some w }
give (term_one same r) o = record o { rfd = some r; wfd = some r }
give (data_one same r) o = record o { datafd = some r }

abbrev pub give_all : List Given → Opts → Opts
give_all [] o = o
give_all (g ∷ gs) o = give_all gs (give g o)

-- Descriptors are ints.
abbrev pub IsGiven : Given → Type 0
IsGiven (term_pair same r w) = (r < 2 ^ 31) × (w < 2 ^ 31)
IsGiven (term_one same r) = r < 2 ^ 31
IsGiven (data_one same r) = r < 2 ^ 31

pair_read :
    (s rest : List ℕ) (a b : ℕ)
    → strtol s ≡ (pos a, b',' ∷ rest)
    → strtol rest ≡ (pos b, 0 ∷ [])
    → a < 2 ^ 31
    → b < 2 ^ 31
    → fdpair true s ≡ some (a, some b)
unfolding fdpair
pair_read s rest a b e e' sa sb = ground (arith, e, e')

one_read :
    (has_wfd : Bool) (s : List ℕ) (a : ℕ)
    → strtol s ≡ (pos a, 0 ∷ [])
    → a < 2 ^ 31
    → fdpair has_wfd s ≡ some (a, if has_wfd then some a else none)
unfolding fdpair
one_read has_wfd s a e sa = ground (arith, e)

alone : (a : ℕ) → a < 2 ^ 31 → strtol (decimal 10 a ++ 0 ∷ []) ≡ (pos a, 0 ∷ [])
unfolding is_digit
alone a h = strtol-decimal 0 10 a 0 [] (omega arith) (omega (arith, h)) (omega (arith, h)) refl

set_option-give :
    (g : Given) (o : Opts) → IsGiven g → set_option (letter g) (value g) o ≡ some (give g o)
unfolding set_option is_digit
set_option-give (term_pair same r w) o (hr, hw) =
    rw
      (pair_read (value (term_pair same r w)) (decimal 10 w ++ 0 ∷ []) r w
        (strtol-decimal 0 10 r b',' (decimal 10 w ++ 0 ∷ []) (omega arith) (omega (arith, hr))
          (omega (arith, hr)) refl)
        (alone w hw) hr hw)
      refl
set_option-give (term_one same r) o h =
    rw (one_read true (decimal 10 r ++ 0 ∷ []) r (alone r h) h) refl
set_option-give (data_one same r) o h =
    rw (one_read false (decimal 10 r ++ 0 ∷ []) r (alone r h) h) refl

value_head : (g : Given) → IsGiven g → HasHead (value g)
value_head (term_pair same r w) (hr, hw) =
    HasHead-append (decimal 10 r) (b',' ∷ (decimal 10 w ++ 0 ∷ []))
      (decimal_head 10 r (omega arith) (omega (arith, hr)))
value_head (term_one same r) h =
    HasHead-append (decimal 10 r) (0 ∷ []) (decimal_head 10 r (omega arith) (omega (arith, h)))
value_head (data_one same r) h =
    HasHead-append (decimal 10 r) (0 ∷ []) (decimal_head 10 r (omega arith) (omega (arith, h)))

joined_word :
    (l d : ℕ) (s : List ℕ)
    → (l == b'-') ≡ false
    → (l == 0) ≡ false
    → 48 ≤ d
    → word_of (b'-' ∷ l ∷ d ∷ s) ≡ joined l (d ∷ s)
unfolding word_of
joined_word l d s dash nul h = ground (arith, dash, nul, h)

apart_word :
    (l : ℕ) → (l == b'-') ≡ false → (l == 0) ≡ false → word_of (b'-' ∷ l ∷ 0 ∷ []) ≡ apart l
unfolding word_of
apart_word l dash nul = ground (arith, dash, nul)

letter_lem : (g : Given) → ((letter g == b'-') ≡ false) × ((letter g == 0) ≡ false)
letter_lem (term_pair same r w) = (refl, refl)
letter_lem (term_one same r) = (refl, refl)
letter_lem (data_one same r) = (refl, refl)

word_of-joined :
    (g : Given) → IsGiven g → word_of (b'-' ∷ letter g ∷ value g) ≡ joined (letter g) (value g)
word_of-joined g h =
    let (d, s, e, lo, hi) = value_head g h in
    rw e (joined_word (letter g) d s (letter_lem g).0 (letter_lem g).1 lo)

parse_joined :
    (g : Given) (o : Opts) (rest : List (List ℕ))
    → IsGiven g
    → parse ((b'-' ∷ letter g ∷ value g) ∷ rest) o ≡ parse rest (give g o)
unfolding parse
parse_joined g o [] h = rw (word_of-joined g h, set_option-give g o h, parse) refl
parse_joined g o (v ∷ rest) h = rw (word_of-joined g h, set_option-give g o h, parse) refl

parse_apart :
    (g : Given) (o : Opts) (rest : List (List ℕ))
    → IsGiven g
    → parse ((b'-' ∷ letter g ∷ 0 ∷ []) ∷ value g ∷ rest) o ≡ parse rest (give g o)
unfolding parse
parse_apart g o rest h =
    rw (apart_word (letter g) (letter_lem g).0 (letter_lem g).1, set_option-give g o h, parse) refl

parse_given :
    (g : Given) (o : Opts) (rest : List (List ℕ))
    → IsGiven g
    → parse (words g ++ rest) o ≡ parse rest (give g o)
parse_given g o rest h = step (same_arg g)
  where
    step :
        (same : Bool)
        → parse
            ((if same
                then (b'-' ∷ letter g ∷ value g) ∷ []
                else (b'-' ∷ letter g ∷ 0 ∷ []) ∷ value g ∷ [])
              ++ rest)
            o
          ≡ parse rest (give g o)
    step true = parse_joined g o rest h
    step false = parse_apart g o rest h

-- A command behind "--", or one whose name does not begin with a dash.
pub data Command : Type 0 where
  dashed plain : List (List ℕ) → Command

abbrev pub command_words : Command → List (List ℕ)
command_words (dashed cmd) = (b'-' ∷ b'-' ∷ 0 ∷ []) ∷ cmd
command_words (plain cmd) = cmd

abbrev pub argv_of : Command → List (List ℕ)
argv_of (dashed cmd) = cmd
argv_of (plain cmd) = cmd

abbrev pub IsCommand : Command → Type 0
IsCommand (dashed cmd) = Unit
IsCommand (plain []) = Unit
IsCommand (plain (s ∷ ss)) = (char_at s 0 == b'-') ≡ false

parse_command :
    (c : Command) (o : Opts) → IsCommand c → parse (command_words c) o ≡ some (o, argv_of c)
unfolding parse word_of
parse_command (dashed []) o h = refl
parse_command (dashed (s ∷ ss)) o h = refl
parse_command (plain []) o h = refl
parse_command (plain (s ∷ [])) o h = rw (h, parse, word_of) refl
parse_command (plain (s ∷ v ∷ ss)) o h = rw (h, parse, word_of) refl

-- Options whose descriptors are ints, with the value in the option's word or in the next, and behind
-- them a command: main reads them all back, a later one over an earlier one, and is left with
-- the command's words.
pub parse-give_all :
    (gs : List Given) (c : Command) (o : Opts)
    → All IsGiven gs
    → IsCommand c
    → parse (all_words gs ++ command_words c) o ≡ some (give_all gs o, argv_of c)
parse-give_all [] c o h hc = parse_command c o hc
parse-give_all (g ∷ gs) c o (h, hs) hc =
    ap (λ ws. parse ws o) (append_assoc (words g) (all_words gs) (command_words c))
    ∙ parse_given g o (all_words gs ++ command_words c) h
    ∙ parse-give_all gs c (give g o) hs hc
