-- ===== src/Compositor/Surface/Damage.antt =====
-- The damage of a surface is a box around everything that was damaged.
use wl.Prelude.{
  ℕ, ◌+◌, ◌^◌, ◌<◌, ◌≤◌, ◌≡◌, refl, ap, sym, subst, ◌∙◌, ◌⊎◌, inl, inr, List, [], ◌∷◌, ltb, arith,
  Bool-cases, All,
}
use wl.Prelude.Int.{to_int, pos, ◌+ℤ◌, pos_part, neg_part}
use wl.Compositor.Surface.{Box, no_box, Surface, lower, higher, grow_box, damage}

-- A rectangle in the first quadrant.
pub record Rect : Type 0 where
  pub x : ℕ
  pub y : ℕ
  pub width : ℕ
  pub height : ℕ

-- The right and lower edges are ints.
abbrev pub IsInt : Rect → Type 0
IsInt r = (r.x + r.width < 2 ^ 31) × (r.y + r.height < 2 ^ 31)

abbrev pub Covers : Box → Rect → Type 0
Covers d r =
    (a : ℕ) × (b : ℕ) × (e : ℕ) × (f : ℕ) × (d
      ≡ record { x0 = pos a; y0 = pos b; x1 = pos e; y1 = pos f })
    × (a ≤ r.x)
    × (b ≤ r.y)
    × (r.x + r.width ≤ e)
    × (r.y + r.height ≤ f)

-- The requests, the first one first.
unfoldable pub damage_all : List Rect → Surface → Surface
damage_all [] s = s
damage_all (r ∷ rs) s = damage_all rs (damage (pos r.x) (pos r.y) (pos r.width) (pos r.height) s)

-- Nothing, or a box in the first quadrant.
abbrev pub IsBox : Box → Type 0
IsBox d =
    (d ≡ no_box)
    ⊎ ((a : ℕ) × (b : ℕ) × (e : ℕ) × (f : ℕ) × (d
          ≡ record { x0 = pos a; y0 = pos b; x1 = pos e; y1 = pos f }))

abbrev box : ℕ → ℕ → ℕ → ℕ → Box
box a b e f = record { x0 = pos a; y0 = pos b; x1 = pos e; y1 = pos f }

sum_pos : (a b : ℕ) → a + b < 2 ^ 31 → to_int (pos a +ℤ pos b) ≡ pos (a + b)
unfolding ◌+ℤ◌ to_int
sum_pos a b h = ground (arith, h)

lower_pos : (a b : ℕ) → (c : ℕ) × (lower (pos a) (pos b) ≡ pos c) × (c ≤ a) × (c ≤ b)
lower_pos a b = elim (Bool-cases (ltb b a)) [
  | inl h ↦ (b, ground (arith, h), ground (arith, h), omega arith)
  | inr h ↦ (a, ground (arith, h), omega arith, ground (arith, h))
]

higher_pos : (a b : ℕ) → (c : ℕ) × (higher (pos a) (pos b) ≡ pos c) × (a ≤ c) × (b ≤ c)
higher_pos a b = elim (Bool-cases (ltb a b)) [
  | inl h ↦ (b, ground (arith, h), ground (arith, h), omega arith)
  | inr h ↦ (a, ground (arith, h), omega arith, ground (arith, h))
]

-- One request: the box covers it, and what the box covered before.
abbrev Grown : Box → Rect → Type 0
Grown d r =
    (d' : Box) × (grow_box d (pos r.x) (pos r.y) (pos (r.x + r.width)) (pos (r.y + r.height)) ≡ d')
    × IsBox d'
    × Covers d' r
    × ((q : Rect) → Covers d q → Covers d' q)

not_pos : (a b e f : ℕ) → no_box ≡ box a b e f → ⊥
not_pos a b e f q = absurd (omega (arith, ap (λ (d : Box). neg_part d.x0) q))

same_box :
    (a b e f a' b' e' f' : ℕ)
    → box a b e f ≡ box a' b' e' f'
    → (a ≡ a') × (b ≡ b') × (e ≡ e') × (f ≡ f')
same_box a b e f a' b' e' f' q = (
  ap (λ (d : Box). pos_part d.x0) q,
  ap (λ (d : Box). pos_part d.y0) q,
  ap (λ (d : Box). pos_part d.x1) q,
  ap (λ (d : Box). pos_part d.y1) q,
)

Grown-first : (r : Rect) → Grown no_box r
Grown-first r = (
  box r.x r.y (r.x + r.width) (r.y + r.height),
  refl,
  inr (r.x, r.y, r.x + r.width, r.y + r.height, refl),
  (
    r.x,
    r.y,
    r.x + r.width,
    r.y + r.height,
    refl,
    omega arith,
    omega arith,
    omega arith,
    omega arith,
  ),
  λ q (a, b, e, f, k, xa, xb, xe, xf). absurd (not_pos a b e f k),
)

Grown-more : (a b e f : ℕ) (r : Rect) → Grown (box a b e f) r
Grown-more a b e f r =
    let (a', ea, la, ma) = lower_pos a r.x in
    let (b', eb, lb, mb) = lower_pos b r.y in
    let (e', ee, le, me) = higher_pos e (r.x + r.width) in
    let (f', ef, lf, mf) = higher_pos f (r.y + r.height) in
    (
      box a' b' e' f',
      joined a b e f r a' b' e' f' ea eb ee ef,
      inr (a', b', e', f', refl),
      (a', b', e', f', refl, ma, mb, me, mf),
      λ q (a'', b'', e'', f'', k, xa, xb, xe, xf).
          let (ka, kb, ke, kf) = same_box a b e f a'' b'' e'' f'' k in
          (a', b', e', f', refl, omega arith, omega arith, omega arith, omega arith),
    )
  where
    joined :
        (a b e f : ℕ) (r : Rect) (a' b' e' f' : ℕ)
        → lower (pos a) (pos r.x) ≡ pos a'
        → lower (pos b) (pos r.y) ≡ pos b'
        → higher (pos e) (pos (r.x + r.width)) ≡ pos e'
        → higher (pos f) (pos (r.y + r.height)) ≡ pos f'
        → grow_box (box a b e f) (pos r.x) (pos r.y) (pos (r.x + r.width)) (pos (r.y + r.height))
          ≡ box a' b' e' f'
    joined a b e f r a' b' e' f' ea eb ee ef i = record {
      x0 = ea i;
      y0 = eb i;
      x1 = ee i;
      y1 = ef i;
    }

grown : (d : Box) (r : Rect) → IsBox d → Grown d r
grown d r (inl e) = rw e (Grown-first r)
grown d r (inr (a, b, e, f, k)) = rw k (Grown-more a b e f r)

damage_step :
    (r : Rect) (s : Surface)
    → IsInt r
    → (damage (pos r.x) (pos r.y) (pos r.width) (pos r.height) s).pending.damage
      ≡ grow_box s.pending.damage (pos r.x) (pos r.y) (pos (r.x + r.width)) (pos (r.y + r.height))
unfolding damage
damage_step r s (hx, hy) = rw (sum_pos r.x r.width hx, sum_pos r.y r.height hy) refl

-- What was covered stays so, whatever follows.
damage_all-keeps :
    (rs : List Rect) (s : Surface)
    → All IsInt rs
    → IsBox s.pending.damage
    → All (Covers (damage_all rs s).pending.damage) rs
      × ((q : Rect) → Covers s.pending.damage q → Covers (damage_all rs s).pending.damage q)
unfolding damage_all
damage_all-keeps [] s small h = (tt, λ q c. c)
damage_all-keeps (r ∷ rs) s (i, is) h =
    let s' = damage (pos r.x) (pos r.y) (pos r.width) (pos r.height) s in
    let (d', e, h', here, before) = grown s.pending.damage r h in
    let k = damage_step r s i ∙ e in
    let (later, kept) = damage_all-keeps rs s' is (subst IsBox (sym k) h') in
    (
      (kept r (subst (λ d. Covers d r) (sym k) here), later),
      λ q c. kept q (subst (λ d. Covers d q) (sym k) (before q c)),
    )

-- After any damage requests with coordinates that are not negative and edges that are ints, on a surface without damage,
-- the pending damage is a box that covers every one of them.
pub damage-Covers :
    (rs : List Rect) (s : Surface)
    → All IsInt rs
    → s.pending.damage ≡ no_box
    → All (Covers (damage_all rs s).pending.damage) rs
damage-Covers rs s small h = (damage_all-keeps rs s small (inl h)).0
