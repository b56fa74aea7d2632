-- ===== src/Windows/Owned.antt =====
-- The file numbers that a window's files hold in the table of those in use.
use wl.Prelude.{
  ℕ, ◌≡◌, ◌↔◌, ◌⊎◌, inl, inr, refl, sym, subst, Option, none, some, List, [], ◌∷◌, map, ℕ_discrete,
}
use wl.Util.NumTab.{NumTab, numput}
use wl.Util.NumTab.Numbers.{IsTaken, IsNumTab}
use wl.Util.NumTab.Alloc.{Allocates, Releases, numput-Releases}
use wl.Fs.State.{put}
use wl.Fs.Requests.Fids.{Restored}
use wl.Windows.{File}

abbrev pub fids : List File → List (Option ℕ)
fids fs = map (λ (f : File). f.fid) fs

-- One of the files has the number i.
abbrev pub Holds : ℕ → List (Option ℕ) → Type 0
Holds i [] = ⊥
Holds i (none ∷ ns) = Holds i ns
Holds i (some n ∷ ns) = (i ≡ n) ⊎ Holds i ns

-- No two have the same.
abbrev pub IsDistinct : List (Option ℕ) → Type 0
IsDistinct [] = Unit
IsDistinct (none ∷ ns) = IsDistinct ns
IsDistinct (some n ∷ ns) = (¬ Holds n ns) × IsDistinct ns

-- In use are the numbers that were in use in `base`, and those of the files, which were not.
pub record Owns (base : NumTab) (ns : List (Option ℕ)) (tab : NumTab) : Type 0 where
  pub valid : IsNumTab tab
  pub distinct : IsDistinct ns
  pub fresh : (i : ℕ) → Holds i ns → ¬ IsTaken base i
  pub same : (i : ℕ) → IsTaken tab i ↔ (IsTaken base i ⊎ Holds i ns)

pub Owns-none : (base tab : NumTab) → Restored base tab → Owns base [] tab
Owns-none base tab r = record {
  valid = r.valid;
  distinct = tt;
  fresh = λ i u. absurd u;
  same =
      λ i. (λ u. inl ((r.same i).0 u), λ u. elim u [ inl k ↦ (r.same i).1 k | inr k ↦ absurd k ]);
}

-- A file without a number adds nothing.
pub Owns-skip :
    (base tab : NumTab) (ns : List (Option ℕ)) → Owns base ns tab → Owns base (none ∷ ns) tab
Owns-skip base tab ns o = record {
  valid = o.valid;
  distinct = o.distinct;
  fresh = o.fresh;
  same = o.same;
}

-- A file that took a number before the others did.
pub Owns-more :
    (base mid tab : NumTab) (n : ℕ) (ns : List (Option ℕ))
    → Allocates base n mid
    → Owns mid ns tab
    → Owns base (some n ∷ ns) tab
Owns-more base mid tab n ns al o = record {
  valid = o.valid;
  distinct = (λ u. o.fresh n u al.taken, o.distinct);
  fresh = fresh;
  same = λ i. (to i, from i);
}
  where
    fresh : (i : ℕ) → (i ≡ n) ⊎ Holds i ns → ¬ IsTaken base i
    fresh i (inl e) u = al.fresh (subst (IsTaken base) e u)
    fresh i (inr h) u = elim (ℕ_discrete i n) [
      | yes e ↦ al.fresh (subst (IsTaken base) e u)
      | no ne ↦ o.fresh i h ((al.others i ne).1 u)
    ]

    to : (i : ℕ) → IsTaken tab i → IsTaken base i ⊎ ((i ≡ n) ⊎ Holds i ns)
    to i u = elim (ℕ_discrete i n) [
      | yes e ↦ inr (inl e)
      | no ne ↦ elim ((o.same i).0 u) [ inl k ↦ inl ((al.others i ne).0 k) | inr k ↦ inr (inr k) ]
    ]

    from : (i : ℕ) → IsTaken base i ⊎ ((i ≡ n) ⊎ Holds i ns) → IsTaken tab i
    from i (inl u) = elim (ℕ_discrete i n) [
      | yes e ↦ absurd (al.fresh (subst (IsTaken base) e u))
      | no ne ↦ (o.same i).1 (inl ((al.others i ne).1 u))
    ]
    from i (inr (inl e)) = (o.same i).1 (inl (subst (IsTaken mid) (sym e) al.taken))
    from i (inr (inr h)) = (o.same i).1 (inr h)

-- The number of the first file is given back.
pub Owns-less :
    (base tab : NumTab) (n : ℕ) (ns : List (Option ℕ))
    → Owns base (some n ∷ ns) tab
    → Owns base ns (put tab n)
Owns-less base tab n ns o = either (numput-Releases tab n o.valid)
  where
    released : (tab' : NumTab) → Releases tab n tab' → Owns base ns tab'
    released tab' r = record {
      valid = r.valid;
      distinct = o.distinct.1;
      fresh = λ i h. o.fresh i (inr h);
      same = λ i. (to i, from i);
    }
      where
        to : (i : ℕ) → IsTaken tab' i → IsTaken base i ⊎ Holds i ns
        to i u = elim (ℕ_discrete i n) [
          | yes e ↦ absurd (r.released (subst (IsTaken tab') e u))
          | no ne ↦ elim ((o.same i).0 ((r.others i ne).0 u)) [
            | inl k ↦ inl k
            | inr k ↦ elim k [ inl e ↦ absurd (ne e) | inr h ↦ inr h ]
          ]
        ]

        from : (i : ℕ) → IsTaken base i ⊎ Holds i ns → IsTaken tab' i
        from i u = elim (ℕ_discrete i n) [
          | yes e ↦ elim u [
            | inl k ↦ absurd (o.fresh n (inl refl) (subst (IsTaken base) e k))
            | inr h ↦ absurd (o.distinct.0 (subst (λ j. Holds j ns) e h))
          ]
          | no ne ↦
              (r.others i ne).1 ((o.same i).1 (elim u [ inl k ↦ inl k | inr h ↦ inr (inr h) ]))
        ]

    either :
        (IsTaken tab n × ((tab' : NumTab) × (numput tab n ≡ some tab') × Releases tab n tab'))
          ⊎ ((¬ IsTaken tab n) × (numput tab n ≡ none))
        → Owns base ns (put tab n)
    either (inl (used, (tab', e, r))) = rw (e, put) (released tab' r)
    either (inr (free, e)) = absurd (free ((o.same n).1 (inr (inl refl))))
