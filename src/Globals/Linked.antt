-- ===== src/Globals/Linked.antt =====
-- The lists of `output` and `datadev` as resources come and go.
use wl.Prelude.{
  ℕ, ◌≡◌, inl, inr, refl, sym, ap, ◌∙◌, subst, Bool, true, false, ◌||◌, Option, none, some, List,
  [], ◌∷◌, All, ◌==◌, if◌then◌else◌, Bool-cases, arith,
}
use wl.Globals.{
  Interface, Destructor, unlink, no_destructor, Object, Registry, find_object, without,
  without_object, unlink_from, destroy,
}
use wl.Globals.Typed.{
  is_output, is_device, destructor_of, IsObject, ids_where, IsDistinct, IsRegistry, IsTyped,
}

ids_where-without_object :
    (p : Interface → Bool) (i : ℕ) (os : List Object)
    → ids_where p (without_object i os) ≡ without i (ids_where p os)
ids_where-without_object p i [] = refl
ids_where-without_object p i (o ∷ os) =
    let rest = ids_where-without_object p i os in
    elim (Bool-cases (o.id == i)) [
      | inl e ↦ elim (Bool-cases (p o.interface)) [
        | inl q ↦ rw (e, q) (rw e rest)
        | inr q ↦ rw (e, q) rest
      ]
      | inr e ↦ elim (Bool-cases (p o.interface)) [
        | inl q ↦ rw (e, q) (rw e (ap (λ l. o.id ∷ l) rest))
        | inr q ↦ rw (e, q) rest
      ]
    ]

pub find_here :
    (i : ℕ) (o : Object) (os : List Object) → o.id == i ≡ true → find_object i (o ∷ os) ≡ some o
find_here i o os e = rw e refl

pub find_later :
    (i : ℕ) (o : Object) (os : List Object)
    → o.id == i ≡ false
    → find_object i (o ∷ os) ≡ find_object i os
find_later i o os e = rw e refl

object_or : Object → Option Object → Object
object_or d none = d
object_or d (some o) = o

pub some_object : (o r : Object) → some o ≡ some r → o ≡ r
unfolding object_or
some_object o r e = ap (object_or o) e

-- No resource has the number.
without_missing :
    (p : Interface → Bool) (i : ℕ) (os : List Object)
    → find_object i os ≡ none
    → without i (ids_where p os) ≡ ids_where p os
without_missing p i [] h = refl
without_missing p i (o ∷ os) h = elim (Bool-cases (o.id == i)) [
  | inl e ↦ absurd (ground (arith, sym (find_here i o os e) ∙ h))
  | inr e ↦
      let rest = without_missing p i os (sym (find_later i o os e) ∙ h) in
      elim (Bool-cases (p o.interface)) [
        | inl q ↦ rw q (rw e (ap (λ l. o.id ∷ l) rest))
        | inr q ↦ rw q rest
      ]
]

-- The one that has it is of another interface.
without_other :
    (p : Interface → Bool) (i : ℕ) (r : Object) (os : List Object)
    → IsDistinct os
    → find_object i os ≡ some r
    → p r.interface ≡ false
    → without i (ids_where p os) ≡ ids_where p os
without_other p i r [] d h no_ = refl
without_other p i r (o ∷ os) d h no_ = elim (Bool-cases (o.id == i)) [
  | inl e ↦
      let same = some_object o r (sym (find_here i o os e) ∙ h) in
      let missing : find_object i os ≡ none = ground (arith, e, d.0) in
      let here : p o.interface ≡ false = ap (λ (x : Object). p x.interface) same ∙ no_ in
      rw here (without_missing p i os missing)
  | inr e ↦
      let rest = without_other p i r os d.1 (sym (find_later i o os e) ∙ h) no_ in
      elim (Bool-cases (p o.interface)) [
        | inl q ↦ rw q (rw e (ap (λ l. o.id ∷ l) rest))
        | inr q ↦ rw q rest
      ]
]

find-without_object :
    (i j : ℕ) (os : List Object)
    → find_object j os ≡ none
    → find_object j (without_object i os) ≡ none
find-without_object i j [] h = refl
find-without_object i j (o ∷ os) h = elim (Bool-cases (o.id == j)) [
  | inl e ↦ absurd (ground (arith, sym (find_here j o os e) ∙ h))
  | inr e ↦
      let rest = find-without_object i j os (sym (find_later j o os e) ∙ h) in
      elim (Bool-cases (o.id == i)) [
        | inl q ↦ rw q rest
        | inr q ↦ rw q (find_later j o (without_object i os) e ∙ rest)
      ]
]

IsDistinct-without_object :
    (i : ℕ) (os : List Object) → IsDistinct os → IsDistinct (without_object i os)
IsDistinct-without_object i [] d = tt
IsDistinct-without_object i (o ∷ os) d = elim (Bool-cases (o.id == i)) [
  | inl e ↦ rw e (IsDistinct-without_object i os d.1)
  | inr e ↦ rw e (find-without_object i o.id os d.0, IsDistinct-without_object i os d.1)
]

All-without_object :
    (P : Object → Type 0) (i : ℕ) (os : List Object) → All P os → All P (without_object i os)
All-without_object P i [] h = tt
All-without_object P i (o ∷ os) h = elim (Bool-cases (o.id == i)) [
  | inl e ↦ rw e (All-without_object P i os h.1)
  | inr e ↦ rw e (h.0, All-without_object P i os h.1)
]

pub All-find :
    (P : Object → Type 0) (i : ℕ) (r : Object) (os : List Object)
    → All P os
    → find_object i os ≡ some r
    → P r
All-find P i r [] h e = absurd (ground (arith, e))
All-find P i r (o ∷ os) h e = elim (Bool-cases (o.id == i)) [
  | inl q ↦ subst P (some_object o r (sym (find_here i o os q) ∙ e)) h.0
  | inr q ↦ All-find P i r os h.1 (sym (find_later i o os q) ∙ e)
]

pub find_id : (i : ℕ) (r : Object) (os : List Object) → find_object i os ≡ some r → r.id ≡ i
find_id i r [] e = absurd (ground (arith, e))
find_id i r (o ∷ os) e = elim (Bool-cases (o.id == i)) [
  | inl q ↦
      ap (λ (x : Object). x.id) (sym (some_object o r (sym (find_here i o os q) ∙ e)))
      ∙ ground (arith, q)
  | inr q ↦ find_id i r os (sym (find_later i o os q) ∙ e)
]

is_unlink : Destructor → Bool
is_unlink unlink = true
is_unlink no_destructor = false

not_listed :
    (a b : Bool)
    → no_destructor ≡ (if a || b then unlink else no_destructor)
    → (a ≡ false) × (b ≡ false)
unfolding is_unlink
not_listed true b e = absurd (ground (arith, ap is_unlink e))
not_listed false true e = absurd (ground (arith, ap is_unlink e))
not_listed false false e = (refl, refl)

-- The end of a resource takes it out of the list that it stands in, and the lists are sound again.
pub destroy-IsTyped :
    (r : Object) (g : Registry)
    → IsRegistry g
    → find_object r.id g.objects ≡ some r
    → IsTyped (destroy r g)
unfolding destroy
destroy-IsTyped r g h live =
    (step r.destructor (All-find IsObject r.id r g.objects h.objects live).1, tt)
  where
    left : Registry
    left = record g { objects = without_object r.id g.objects }

    objects : All IsObject (without_object r.id g.objects)
    objects = All-without_object IsObject r.id g.objects h.objects

    distinct : IsDistinct (without_object r.id g.objects)
    distinct = IsDistinct-without_object r.id g.objects h.distinct

    unlisted :
        (p : Interface → Bool)
        → p r.interface ≡ false
        → ids_where p g.objects ≡ ids_where p (without_object r.id g.objects)
    unlisted p e =
        sym (without_other p r.id r g.objects h.distinct live e)
        ∙ sym (ids_where-without_object p r.id g.objects)

    step : (d : Destructor) → d ≡ destructor_of r.interface → IsRegistry (unlink_from d r.id left)
    step unlink e = record {
      objects = objects;
      distinct = distinct;
      outputs =
          ap (without r.id) h.outputs ∙ sym (ids_where-without_object is_output r.id g.objects);
      devices =
          ap (without r.id) h.devices ∙ sym (ids_where-without_object is_device r.id g.objects);
    }
    step no_destructor e =
        let (out, device) = not_listed (is_output r.interface) (is_device r.interface) e in
        record {
          objects = objects;
          distinct = distinct;
          outputs = h.outputs ∙ unlisted is_output out;
          devices = h.devices ∙ unlisted is_device device;
        }
