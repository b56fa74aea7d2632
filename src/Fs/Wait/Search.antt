-- ===== src/Fs/Wait/Search.antt =====
-- The search of the queue.
use wl.Prelude.{
  ℕ, ◌≡◌, ◌≢◌, refl, ap, ◌⊎◌, inl, inr, true, false, Option, none, some, List, [], ◌∷◌, ◌++◌, ◌==◌,
  if◌then◌else◌, All, arith, Bool-cases,
}
use wl.Fs.State.{Reply}
use wl.Fs.Wait.{unqueue}

pub record Split (t : ℕ) (rs : List Reply) (r : Reply) (rest : List Reply) : Type 0 where
  pub front : List Reply
  pub back : List Reply
  pub all : rs ≡ front ++ r ∷ back
  pub left : rest ≡ front ++ back
  pub wanted : r.tag ≡ t
  pub first : All (λ (q : Reply). q.tag ≢ t) front

abbrev pub Splits : ℕ → List Reply → Option (Reply × List Reply) → Type 0
Splits t rs none = All (λ (q : Reply). q.tag ≢ t) rs
Splits t rs (some (r, rest)) = Split t rs r rest

deeper :
    (t : ℕ) (r r' : Reply) (rs rest : List Reply)
    → r.tag ≢ t
    → Split t rs r' rest
    → Split t (r ∷ rs) r' (r ∷ rest)
deeper t r r' rs rest ne s = record {
  front = r ∷ s.front;
  back = s.back;
  all = ap (λ q. r ∷ q) s.all;
  left = ap (λ q. r ∷ q) s.left;
  wanted = s.wanted;
  first = (ne, s.first);
}

pub unqueue-Splits : (t : ℕ) (rs : List Reply) → Splits t rs (unqueue t rs)
unfolding unqueue
unqueue-Splits t [] = tt
unqueue-Splits t (r ∷ rs) = step (unqueue t rs) (unqueue-Splits t rs) (Bool-cases (r.tag == t))
  where
    here : r.tag ≡ t → Split t (r ∷ rs) r rs
    here e = record { front = []; back = rs; all = refl; left = refl; wanted = e; first = tt }

    step :
        (o : Option (Reply × List Reply))
        → Splits t rs o
        → ((r.tag == t) ≡ true) ⊎ ((r.tag == t) ≡ false)
        → Splits t (r ∷ rs) (elim o [
          | none ↦ if r.tag == t then some (r, rs) else none
          | some (r', rs') ↦ if r.tag == t then some (r, rs) else some (r', r ∷ rs')
        ])
    step none s (inl e) = rw e (here (ground (arith, e)))
    step none s (inr e) = rw e (ground (arith, e), s)
    step (some (r', rs')) s (inl e) = rw e (here (ground (arith, e)))
    step (some (r', rs')) s (inr e) = rw e (deeper t r r' rs rs' (ground (arith, e)) s)
