-- ===== src/Util/NumTab/Refines.antt =====
-- Sequences of `numget` and `numput` on one table, against an abstract set of numbers in use, in
-- which neither words nor bits are left.
use wl.Prelude.{
  ℕ, ◌*◌, ◌<◌, ◌≡◌, refl, ◌∙◌, sym, subst, ◌↔◌, ◌⊎◌, inl, inr, ◌≢◌, Bool, true, false, ◌&&◌, Option,
  none, some, List, [], ◌∷◌, ltb, ◌==◌, if◌then◌else◌, length, arith, dec_lt, ℕ_discrete,
}
use mathlib.Core.Path.{fun_ext}
use wl.Util.NumTab.{NumTab, got, failed, stuck, numget, numput}
use wl.Util.NumTab.Words.{free_bit}
use wl.Util.NumTab.Numbers.{IsTaken, IsNumTab, ShiftsMod64}
use wl.Util.NumTab.Alloc.{numget-Answers, numput-Releases}

pub data Call : Type 0 where
  -- with memory for another word, or without
  get_number : Bool → Call
  put_number : ℕ → Call

pub data Result : Type 0 where
  number : ℕ → Result
  done refused : Result

abbrev pub Used : Type 0
Used = ℕ → Bool

abbrev pub mark : ℕ → Bool → Used → Used
mark k b used i = if i == k then b else used i

-- What a call may answer on a set of numbers in use, and the set after it.
pub data Serves (used : Used) : Call → Result → Used → Type 0 where
  gives :
      {room : Bool} (k : ℕ)
      → used k ≡ false
      → ((i : ℕ) → i < k → used i ≡ true)
      → Serves used (get_number room) (number k) (mark k true used)
  no_room : Serves used (get_number false) refused used
  frees : (k : ℕ) → used k ≡ true → Serves used (put_number k) done (mark k false used)
  not_used : (k : ℕ) → used k ≡ false → Serves used (put_number k) refused used

pub data Serving : Used → List Call → List Result → Used → Type 0 where
  served : (used : Used) → Serving used [] [] used
  serve :
      {used used' used'' : Used} {c : Call} {r : Result} {cs : List Call} {rs : List Result}
      → Serves used c r used'
      → Serving used' cs rs used''
      → Serving used (c ∷ cs) (r ∷ rs) used''

-- The set that a table stands for.
abbrev pub used_of : NumTab → Used
used_of tab i = ltb i (64 * length tab.ent) && free_bit tab.ent i == 0

used_true : (tab : NumTab) (i : ℕ) → IsTaken tab i → used_of tab i ≡ true
used_true tab i h = ground (arith, h.0, h.1)

used_false : (tab : NumTab) (i : ℕ) → ¬ IsTaken tab i → used_of tab i ≡ false
used_false tab i h = elim (ℕ_discrete (free_bit tab.ent i) 0) [
  | yes e ↦ ground (arith, e, λ (lt : i < 64 * length tab.ent). h (lt, e))
  | no ne ↦ ground (arith, ne)
]

used_cases : (tab : NumTab) (i : ℕ) → IsTaken tab i ⊎ ¬ IsTaken tab i
used_cases tab i = elim (dec_lt i (64 * length tab.ent)) [
  | yes lt ↦ elim (ℕ_discrete (free_bit tab.ent i) 0) [
    | yes e ↦ inl (lt, e)
    | no ne ↦ inr (λ used. ne used.1)
  ]
  | no out ↦ inr (λ used. out used.0)
]

used_of-others :
    (tab tab' : NumTab) (k : ℕ) (b : Bool)
    → used_of tab' k ≡ b
    → ((i : ℕ) → i ≢ k → IsTaken tab' i ↔ IsTaken tab i)
    → used_of tab' ≡ mark k b (used_of tab)
used_of-others tab tab' k b e same = fun_ext λ i. elim (ℕ_discrete i k) [
  | yes at ↦ rw at (ground (arith, e))
  | no ne ↦ elim (used_cases tab i) [
    | inl used ↦ used_true tab' i ((same i ne).1 used) ∙ ground (arith, ne, used_true tab i used)
    | inr free ↦
        used_false tab' i (λ used. free ((same i ne).0 used))
        ∙ ground (arith, ne, used_false tab i free)
  ]
]

perform : (ℕ → ℕ) → Call → NumTab → Option (Result × NumTab)
perform wide (get_number room) tab = elim (numget wide room tab) [
  | got num tab' ↦ some (number num, tab')
  | failed ↦ some (refused, tab)
  | stuck ↦ none
]
perform wide (put_number num) tab = elim (numput tab num) [
  | some tab' ↦ some (done, tab')
  | none ↦ some (refused, tab)
]

-- The calls in turn, with their answers.
unfoldable pub run : (ℕ → ℕ) → List Call → NumTab → Option (List Result × NumTab)
unfolding perform
run wide [] tab = some ([], tab)
run wide (c ∷ cs) tab = elim (perform wide c tab) [
  | none ↦ none
  | some (r, tab') ↦ elim (run wide cs tab') [
    | none ↦ none
    | some (rs, tab'') ↦ some (r ∷ rs, tab'')
  ]
]

-- A call on a table: its answer, and a table that stands for the set after it.
Performs : (ℕ → ℕ) → Call → NumTab → Type 0
Performs wide c tab =
    (r : Result) × (tab' : NumTab) × (perform wide c tab ≡ some (r, tab'))
    × IsNumTab tab'
    × Serves (used_of tab) c r (used_of tab')

module _ (wide : ℕ → ℕ) (law : ShiftsMod64 wide) where
  perform-get : (room : Bool) (tab : NumTab) → IsNumTab tab → Performs wide (get_number room) tab
  unfolding perform Performs
  perform-get room tab h = elim (numget-Answers wide law room tab h) [
    | inl (k, tab', e, a) ↦ (
      number k,
      tab',
      rw (e, perform) refl,
      a.valid,
      subst (Serves (used_of tab) (get_number room) (number k))
          (sym (used_of-others tab tab' k true (used_true tab' k a.taken) a.others))
          (gives k (used_false tab k a.fresh) (λ i lt. used_true tab i (a.least i lt))),
    )
    | inr (e, memory, full) ↦ (
      refused,
      tab,
      rw (e, perform) refl,
      h,
      subst (λ b. Serves (used_of tab) (get_number b) refused (used_of tab)) (sym memory) no_room,
    )
  ]

  perform-put : (num : ℕ) (tab : NumTab) → IsNumTab tab → Performs wide (put_number num) tab
  unfolding perform Performs
  perform-put num tab h = elim (numput-Releases tab num h) [
    | inl (used, (tab', e, r)) ↦ (
      done,
      tab',
      rw (e, perform) refl,
      r.valid,
      subst (Serves (used_of tab) (put_number num) done)
          (sym (used_of-others tab tab' num false (used_false tab' num r.released) r.others))
          (frees num (used_true tab num used)),
    )
    | inr (free, e) ↦
        (refused, tab, rw (e, perform) refl, h, not_used num (used_false tab num free))
  ]

  perform_lem : (c : Call) (tab : NumTab) → IsNumTab tab → Performs wide c tab
  perform_lem (get_number room) tab h = perform-get room tab h
  perform_lem (put_number num) tab h = perform-put num tab h

  -- Where 1ul << n for n of 64 or more shifts modulo 64, any sequence of `numget` and `numput` on a
  -- table of 64-bit words runs to its end, and it answers as a set of the numbers in use does, in
  -- which `numget` takes the lowest number that is not there, or fails without memory, and `numput`
  -- removes its number, or fails where it is not there; the table after it, of 64-bit words again,
  -- stands for the set after it.
  pub run-Serving :
      (cs : List Call) (tab : NumTab)
      → IsNumTab tab
      → (rs : List Result) × (tab' : NumTab) × (run wide cs tab ≡ some (rs, tab'))
        × IsNumTab tab'
        × Serving (used_of tab) cs rs (used_of tab')
  unfolding run Performs
  run-Serving [] tab h = ([], tab, refl, h, served (used_of tab))
  run-Serving (c ∷ cs) tab h =
      let (r, mid, e, valid, step) = perform_lem c tab h in
      let (rs, tab', e', valid', steps) = run-Serving cs mid valid in
      (r ∷ rs, tab', rw (e, e', run) refl, valid', serve step steps)
