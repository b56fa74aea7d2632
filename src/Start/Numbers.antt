-- ===== src/Start/Numbers.antt =====
-- The file numbers that the start of the program takes.
use wl.Prelude.{ℕ, inl, inr, sym, subst, Option, none, some, List, [], ◌∷◌, ℕ_discrete}
use wl.Util.NumTab.{NumTab}
use wl.Util.NumTab.Numbers.{IsTaken, IsNumTab}
use wl.Util.NumTab.Alloc.{Allocates}
use wl.Fs.State.{Reply, Aux, Request, Sent}
use wl.Fs.Wait.{Waited, answer, refused}
use wl.Fs.Requests.{Outcome, done, failed}
use wl.Fs.Requests.Fids.{Walks, Attaches}
use wl.Windows.Kept.{Kept, KeptWait, KeptOutcome}
use wl.Windows.Loops.{NotStuck}
use wl.Windows.Owned.{Holds, IsDistinct}
use wl.Windows.Walked.{TagsOutcome}
use wl.Start.{Started, ok, err, try, try_tag, waited, then_do}

-- The tables are sound, and the numbers are in use and pairwise distinct.
pub record Holding (ns : List (Option ℕ)) (a : Aux) : Type 0 where
  pub tags : IsNumTab a.tag
  pub fids : IsNumTab a.fid
  pub distinct : IsDistinct ns
  pub used : (i : ℕ) → Holds i ns → IsTaken a.fid i

pub Holding-Kept : (ns : List (Option ℕ)) (a b : Aux) → Holding ns a → Kept a b → Holding ns b
Holding-Kept ns a b h k = record {
  tags = k.tags;
  fids = subst IsNumTab (sym k.fid) h.fids;
  distinct = h.distinct;
  used = λ i u. subst (λ tab. IsTaken tab i) (sym k.fid) (h.used i u);
}

still_taken : (tab tab' : NumTab) (n i : ℕ) → Allocates tab n tab' → IsTaken tab i → IsTaken tab' i
still_taken tab tab' n i al u = elim (ℕ_discrete i n) [
  | yes e ↦ subst (IsTaken tab') (sym e) al.taken
  | no ne ↦ (al.others i ne).1 u
]

pub Holding-new :
    (ns : List (Option ℕ)) (a b : Aux) (n : ℕ)
    → Holding ns a
    → Allocates a.fid n b.fid
    → IsNumTab b.tag
    → Holding (some n ∷ ns) b
Holding-new ns a b n h al tags = record {
  tags = tags;
  fids = al.valid;
  distinct = (λ u. al.fresh (h.used n u), h.distinct);
  used = λ i u. elim u [
    | inl e ↦ subst (IsTaken b.fid) (sym e) al.taken
    | inr held ↦ still_taken a.fid b.fid n i al (h.used i held)
  ];
}

pub Holding-rest : (n : ℕ) (ns : List (Option ℕ)) (a : Aux) → Holding (some n ∷ ns) a → Holding ns a
Holding-rest n ns a h = record {
  tags = h.tags;
  fids = h.fids;
  distinct = h.distinct.1;
  used = λ i u. h.used i (inr u);
}

-- What is returned, where it is; and `numget` ends.
abbrev pub Leads : {A : Type 0} → (A → Aux → Type 0) → Started A → Type 0
Leads P (ok x a) = P x a
Leads P (err a) = Unit
Leads P (Started.halted h) = NotStuck h

module _ {A B : Type 0} (P : B → Aux → Type 0) (ns : List (Option ℕ)) (a : Aux)
    (h : Holding ns a) where
  pub try-Leads :
      (o : Outcome A) (bad : Aux → Started B) (next : A → Aux → Started B)
      → KeptOutcome a o
      → ((b : Aux) → Holding ns b → Leads P (bad b))
      → ((x : A) (b : Aux) → Holding ns b → Leads P (next x b))
      → Leads P (try o bad next)
  try-Leads (done x tagp b) bad next k f g = g x b (Holding-Kept ns a b h k)
  try-Leads (failed tagp b) bad next k f g = f b (Holding-Kept ns a b h k)
  try-Leads Outcome.exited bad next k f g = tt
  try-Leads (Outcome.starved b) bad next k f g = tt
  try-Leads Outcome.stuck bad next k f g = k

  pub try_tag-Leads :
      (o : Outcome A) (next : ℕ → Aux → Started B)
      → KeptOutcome a o
      → ((t : ℕ) (b : Aux) → Holding ns b → Leads P (next t b))
      → Leads P (try_tag o next)
  try_tag-Leads (done x none b) next k g = g 0 b (Holding-Kept ns a b h k)
  try_tag-Leads (done x (some t) b) next k g = g t b (Holding-Kept ns a b h k)
  try_tag-Leads (failed tagp b) next k g = tt
  try_tag-Leads Outcome.exited next k g = tt
  try_tag-Leads (Outcome.starved b) next k g = tt
  try_tag-Leads Outcome.stuck next k g = k

module _ {B : Type 0} (P : B → Aux → Type 0) (ns : List (Option ℕ)) (a : Aux)
    (h : Holding ns a) where
  pub waited-Leads :
      (w : Waited) (next : Reply → Aux → Started B)
      → KeptWait a w
      → ((r : Reply) (b : Aux) → Holding ns b → Leads P (next r b))
      → Leads P (waited w next)
  waited-Leads (answer r b) next k g = g r b (Holding-Kept ns a b h k)
  waited-Leads (refused b) next k g = tt
  waited-Leads Waited.exited next k g = tt
  waited-Leads (Waited.starved b) next k g = tt

  pub walk-Leads :
      (o : Outcome ℕ) (next : ℕ → Aux → Started B)
      → Walks a o
      → TagsOutcome a o
      → ((n : ℕ) (b : Aux) → Holding (some n ∷ ns) b → Leads P (next n b))
      → Leads P (try o err next)
  walk-Leads (done n tagp b) next al k g = g n b (Holding-new ns a b n h al k.tags)
  walk-Leads (failed tagp b) next al k g = tt
  walk-Leads Outcome.exited next al k g = tt
  walk-Leads (Outcome.starved b) next al k g = tt
  walk-Leads Outcome.stuck next al k g = al

pub attach-Leads :
    {B : Type 0}
    → (P : B → Aux → Type 0) (send : Request → Aux → Sent) (ns : List (Option ℕ)) (a : Aux)
    → Holding ns a
    → (o : Outcome ℕ) (next : ℕ → Aux → Started B) → Attaches send [] a o
    → TagsOutcome a o
    → ((n : ℕ) (b : Aux) → Holding (some n ∷ ns) b → Leads P (next n b))
    → Leads P (try o err next)
attach-Leads P send ns a h (done n tagp b) next al k g = g n b (Holding-new ns a b n h al k.tags)
attach-Leads P send ns a h (failed tagp b) next al k g = tt
attach-Leads P send ns a h Outcome.exited next al k g = tt
attach-Leads P send ns a h (Outcome.starved b) next al k g = tt
attach-Leads P send ns a h Outcome.stuck next al k g = al

pub then_do-Leads :
    {A B : Type 0}
    → (Q : A → Aux → Type 0) (P : B → Aux → Type 0) → (s : Started A) (next : A → Aux → Started B)
    → Leads Q s
    → ((x : A) (b : Aux) → Q x b → Leads P (next x b))
    → Leads P (then_do s next)
then_do-Leads Q P (ok x b) next k g = g x b k
then_do-Leads Q P (err b) next k g = tt
then_do-Leads Q P (Started.halted x) next k g = k
