-- ===== src/Compositor/Snarf/Transfer.antt =====
-- What a client gets of /dev/snarf.
use wl.Prelude.{
  ℕ, ◌+◌, ◌%◌, ◌^◌, ◌<◌, ◌≡◌, ◌≢◌, refl, ap, ap₂, sym, ◌∙◌, true, false, Option, some, List, [],
  ◌∷◌, ◌++◌, length, take, drop, ◌==◌, arith, All, length-append,
}
use mathlib.Core.List.{append_assoc, append-nil}
use wl.Fs.State.{Reply, rerror}
use wl.Compositor.Snarf.{Get, write_all, ask_more, snarfget}

-- A reply with data.
abbrev pub IsData : Reply → Type 0
IsData r = (r.kind ≢ rerror) × (0 < length r.content)

abbrev pub contents : List Reply → List ℕ
contents [] = []
contents (r ∷ rs) = r.content ++ contents rs

-- write takes all that it is given, at once.
abbrev pub takes_all : List Reply → List (Option ℕ)
takes_all [] = []
takes_all (r ∷ rs) = some (length r.content) ∷ takes_all rs

unfoldable pub get_all : List Reply → Get → Get
get_all [] g = g
get_all (r ∷ rs) g = get_all rs (snarfget true r g)

take_all : (xs : List ℕ) → take (length xs) xs ≡ xs
take_all [] = refl
take_all (x ∷ xs) = ap (λ q. x ∷ q) (take_all xs)

drop_all : (xs : List ℕ) → drop (length xs) xs ≡ []
drop_all [] = refl
drop_all (x ∷ xs) = drop_all xs

one_write :
    (b : ℕ) (pos : List ℕ) (answers : List (Option ℕ)) (g : Get)
    → write_all (some (length (b ∷ pos)) ∷ answers) (b ∷ pos) g
      ≡ (true, record g { written = g.written ++ b ∷ pos; answers = answers })
unfolding write_all
one_write b pos answers g =
    ap₂
      (λ (left new : List ℕ). write_all answers left (record g { written = g.written ++ b ∷ new }))
      (drop_all pos) (take_all pos)

-- After one reply with data.
abbrev after : List ℕ → List (Option ℕ) → Get → Get
after content answers g = record g {
  offset = (g.offset + length content) % 2 ^ 64;
  written = g.written ++ content;
  asked = g.asked ++ (g.offset + length content) % 2 ^ 64 ∷ [];
  answers = answers;
}

snarfget_step :
    (r : Reply) (answers : List (Option ℕ)) (g : Get)
    → IsData r
    → g.answers ≡ some (length r.content) ∷ answers
    → snarfget true r g ≡ after r.content answers g
unfolding snarfget
snarfget_step r answers g data_ e = step r.content data_.1 e
  where
    not_error : (r.kind == rerror) ≡ false
    not_error = ground (arith, data_.0)

    step :
        (content : List ℕ)
        → 0 < length content
        → g.answers ≡ some (length content) ∷ answers
        → snarfget true (record r { content = content }) g ≡ after content answers g
    step [] h e = absurd (omega arith)
    step (b ∷ pos) h e = rw not_error (
        ap
          (λ (a : List (Option ℕ)).
            ask_more true (
              write_all a (b ∷ pos) (record g { offset = (g.offset + length (b ∷ pos)) % 2 ^ 64 })))
          e
        ∙ ap (ask_more true) (
            one_write b pos answers (record g { offset = (g.offset + length (b ∷ pos)) % 2 ^ 64 })))

-- Where every reply has data and write takes it whole, a client is written the data of the replies
-- in order, and after each the offset is the number of bytes before it.
pub get_all-contents :
    (rs : List Reply) (rest : List (Option ℕ)) (g : Get)
    → All IsData rs
    → g.answers ≡ takes_all rs ++ rest
    → g.offset < 2 ^ 64
    → ((get_all rs g).written ≡ g.written ++ contents rs)
      × ((get_all rs g).offset ≡ (g.offset + length (contents rs)) % 2 ^ 64)
      × ((get_all rs g).open_ ≡ g.open_)
      × (length (get_all rs g).asked ≡ length g.asked + length rs)
unfolding get_all
get_all-contents [] rest g h e small = (sym (append-nil g.written), omega arith, refl, omega arith)
get_all-contents (r ∷ rs) rest g h e small =
    let g' = after r.content (takes_all rs ++ rest) g in
    let step = snarfget_step r (takes_all rs ++ rest) g h.0 e in
    let (written, offset, still, asked) = get_all-contents rs rest g' h.1 refl (omega arith) in
    rw (step, get_all)
      (
        written ∙ append_assoc g.written r.content (contents rs),
        offset
            ∙ sum g.offset (length r.content) (length (contents rs))
                (length (r.content ++ contents rs)) (length-append r.content (contents rs)),
        still,
        asked ∙ omega (arith, length-append g.asked ((g.offset + length r.content) % 2 ^ 64 ∷ [])),
      )
  where
    sum : (a b c d : ℕ) → d ≡ b + c → ((a + b) % 2 ^ 64 + c) % 2 ^ 64 ≡ (a + d) % 2 ^ 64
    sum a b c d e = omega arith
