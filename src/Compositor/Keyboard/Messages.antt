-- ===== src/Compositor/Keyboard/Messages.antt =====
-- The text of a message, and the keys that it holds.
use wl.Prelude.{
  ℕ, zero, suc, ◌<◌, ◌≤◌, ◌≡◌, refl, some, List, [], ◌∷◌, ◌++◌, length, drop, All, arith,
  length-append,
}
use wl.Util.Utf8.{char, utf8dec}
use wl.Util.Utf8.Laws.{encoding, IsAccepted, utf8dec-encoding}
use wl.Compositor.Keyboard.{split_nul, decode_keys}

-- A key that a message can hold.
abbrev pub IsKey : ℕ → Type 0
IsKey c = IsAccepted c × (0 < c)

abbrev pub encodings : List ℕ → List ℕ
encodings [] = []
encodings (c ∷ cs) = encoding c ++ encodings cs

pub split_nul-append :
    (text rest : List ℕ) → All (λ b. 0 < b) text → split_nul (text ++ 0 ∷ rest) ≡ some (text, rest)
split_nul-append [] rest h = refl
split_nul-append (b ∷ text) rest h = ground (arith, split_nul-append text rest h.1, h.0)

encoding-no_nul : (c : ℕ) → 0 < c → All (λ b. 0 < b) (encoding c)
encoding-no_nul c h = ground arith

no_nul-append : (s t : List ℕ) → All (λ b. 0 < b) s → All (λ b. 0 < b) t → All (λ b. 0 < b) (s ++ t)
no_nul-append [] t h k = k
no_nul-append (b ∷ s) t h k = (h.0, no_nul-append s t h.1 k)

pub encodings-no_nul : (cs : List ℕ) → All IsKey cs → All (λ b. 0 < b) (encodings cs)
encodings-no_nul [] h = tt
encodings-no_nul (c ∷ cs) h =
    no_nul-append (encoding c) (encodings cs) (encoding-no_nul c h.0.1) (encodings-no_nul cs h.1)

drop-append : (xs ys : List ℕ) → drop (length xs) (xs ++ ys) ≡ ys
drop-append [] ys = refl
drop-append (x ∷ xs) ys = drop-append xs ys

encoding_some : (c : ℕ) → 0 < length (encoding c)
encoding_some c = ground arith

decode_step :
    (fuel c l : ℕ) (s cs : List ℕ)
    → 0 < length s
    → utf8dec s (length s) ≡ char c l
    → decode_keys fuel (drop l s) ≡ some cs
    → decode_keys (suc fuel) s ≡ some (c ∷ cs)
unfolding decode_keys
decode_step fuel c l [] cs h e e' = absurd (omega arith)
decode_step fuel c l (b ∷ s) cs h e e' = ground (arith, e, e')

pub decode_keys-encodings :
    (fuel : ℕ) (cs : List ℕ)
    → All IsKey cs
    → length (encodings cs) ≤ fuel
    → decode_keys fuel (encodings cs) ≡ some cs
decode_keys-encodings fuel [] h enough = unfold decode_keys in refl
decode_keys-encodings zero (c ∷ cs) h enough =
    absurd (omega (arith, encoding_some c, length-append (encoding c) (encodings cs)))
decode_keys-encodings (suc fuel) (c ∷ cs) h enough =
    let len = length-append (encoding c) (encodings cs) in
    decode_step fuel c (length (encoding c)) (encoding c ++ encodings cs) cs
      (omega (arith, encoding_some c, len))
      (utf8dec-encoding c (length (encoding c ++ encodings cs)) (encodings cs) h.0.0
        (omega (arith, len)))
      (rw (drop-append (encoding c) (encodings cs))
        (decode_keys-encodings fuel cs h.1 (omega (arith, encoding_some c, len))))
