-- ===== src/Globals/Listed.antt =====
-- A resource that is found through a list lives, and is of the list's interface.
use wl.Prelude.{
  ℕ, ◌≡◌, ◌≢◌, sym, ap, ◌∙◌, subst, Bool, true, Option, none, some, List, [], ◌∷◌, All, ◌==◌,
  Bool-cases, inl, inr, arith,
}
use wl.Globals.{Interface, Object, find_object, find_for_client}
use wl.Globals.Typed.{ids_where, IsDistinct}
use wl.Globals.Linked.{find_here, find_later, some_object, find_id}

none_found : (o : Object) (x : Option Object) → x ≡ none → x ≢ some o
none_found o x e f = ground (arith, e, f)

-- A resource is found when one with another number, that is new, is there too.
pub find_past :
    (i : ℕ) (r o : Object) (os : List Object)
    → find_object o.id os ≡ none
    → find_object i os ≡ some r
    → find_object i (o ∷ os) ≡ some r
find_past i r o os new found = elim (Bool-cases (o.id == i)) [
  | inl e ↦
      let same : o.id ≡ i = ground (arith, e) in
      absurd (none_found r (find_object i os) (ap (λ j. find_object j os) (sym same) ∙ new) found)
  | inr e ↦ find_later i o os e ∙ found
]

abbrev pub Found : (Interface → Bool) → List Object → ℕ → Type 0
Found p os i = (r : Object) × (find_object i os ≡ some r) × (p r.interface ≡ true)

All-past :
    (p : Interface → Bool) (o : Object) (os : List Object) (is : List ℕ)
    → find_object o.id os ≡ none
    → All (Found p os) is
    → All (Found p (o ∷ os)) is
All-past p o os [] new h = tt
All-past p o os (i ∷ is) new ((r, e, q), h) =
    ((r, find_past i r o os new e, q), All-past p o os is new h)

pub ids_where-Found :
    (p : Interface → Bool) (os : List Object) → IsDistinct os → All (Found p os) (ids_where p os)
ids_where-Found p [] d = tt
ids_where-Found p (o ∷ os) d =
    let rest = All-past p o os (ids_where p os) d.0 (ids_where-Found p os d.1) in
    elim (Bool-cases (p o.interface)) [
      | inl q ↦ rw q ((o, find_here o.id o os (ground arith), q), rest)
      | inr q ↦ rw q rest
    ]

pub find_for_client-Found :
    (p : Interface → Bool) (c : ℕ) (is : List ℕ) (os : List Object) (r : Object)
    → All (Found p os) is
    → find_for_client c is os ≡ some r
    → (find_object r.id os ≡ some r) × (p r.interface ≡ true)
find_for_client-Found p c [] os r h e = absurd (ground (arith, e))
find_for_client-Found p c (i ∷ is) os r ((o, found, q), h) e = elim (Bool-cases (o.client == c)) [
  | inl mine ↦
      let same : o ≡ r = some_object o r (ground (arith, e, found, mine)) in
      subst (λ (x : Object). (find_object x.id os ≡ some x) × (p x.interface ≡ true)) same
        (ap (λ j. find_object j os) (find_id i o os found) ∙ found, q)
  | inr other ↦ find_for_client-Found p c is os r h (ground (arith, e, found, other))
]
