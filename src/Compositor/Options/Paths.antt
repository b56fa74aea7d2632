-- ===== src/Compositor/Options/Paths.antt =====
-- `splitpath` finds the components of a path, and `fdpair` the numbers of a pair.
use wl.Prelude.{
  ℕ, ◌+◌, ◌<◌, ◌≡◌, ◌≢◌, refl, ap₂, ◌∙◌, false, List, [], ◌∷◌, ◌++◌, length, All, arith,
}
use wl.Libc.{is_digit}
use wl.Compositor.Options.{until_slash, split, add_name, split_loop, splitpath}

-- No slash and no NUL byte.
abbrev pub IsName : List ℕ → Type 0
IsName = All (λ c. (c ≢ b'/') × (c ≢ 0))

abbrev pub joined : List (List ℕ) → List ℕ
joined [] = []
joined (n ∷ ns) = b'/' ∷ (n ++ joined ns)

until_slash-joined : (n : List ℕ) (ns : List (List ℕ)) → IsName n → until_slash (n ++ joined ns) ≡ n
until_slash-joined [] [] h = refl
until_slash-joined [] (m ∷ ns) h = refl
until_slash-joined (c ∷ n) ns h = ground (arith, until_slash-joined n ns h.1, h.0)

module _ (max k : ℕ) (small : k + 1 < max) where
  char_passed :
      (c : ℕ) (s : List ℕ) → c ≢ b'/' → c ≢ 0 → split_loop max k (c ∷ s) ≡ split_loop max k s
  unfolding split_loop
  char_passed c s ne nz = ground (arith, ne, nz)

  slash_passed :
      (s : List ℕ)
      → split_loop max k (b'/' ∷ s) ≡ add_name (until_slash s) (split_loop max (k + 1) s)
  unfolding split_loop
  slash_passed s = ground arith

  name_passed : (n rest : List ℕ) → IsName n → split_loop max k (n ++ rest) ≡ split_loop max k rest
  name_passed [] rest h = refl
  name_passed (c ∷ n) rest h = char_passed c (n ++ rest) h.0.0 h.0.1 ∙ name_passed n rest h.1

split_loop-joined :
    (max k : ℕ) (ns : List (List ℕ))
    → k + length ns + 1 < max
    → All IsName ns
    → split_loop max k (joined ns) ≡ split ns
split_loop-joined max k [] room h = unfold split_loop in refl
split_loop-joined max k (n ∷ ns) room h =
    slash_passed max k (omega arith) (n ++ joined ns)
    ∙ ap₂ add_name (until_slash-joined n ns h.0) (
        name_passed max (k + 1) (omega arith) n (joined ns) h.0
        ∙ split_loop-joined max (k + 1) ns (omega arith) h.1)

-- A path of one or more components, each behind a slash and without slashes or NUL bytes of its own,
-- is split into these components, where the array has room for two more entries than they are.
pub splitpath-joined :
    (max : ℕ) (n : List ℕ) (ns : List (List ℕ))
    → length ns + 2 < max
    → All IsName (n ∷ ns)
    → splitpath max (joined (n ∷ ns)) ≡ split (n ∷ ns)
unfolding splitpath
splitpath-joined max n ns room h = split_loop-joined max 0 (n ∷ ns) (omega arith) h

comma : is_digit b',' ≡ false
unfolding is_digit
comma = refl
