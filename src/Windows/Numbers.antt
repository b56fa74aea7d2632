-- ===== src/Windows/Numbers.antt =====
-- The file numbers of a window: what the first loop of `winnew` takes, and what the loop behind
-- `error` gives back.
use wl.Prelude.{
  ℕ, ◌≡◌, refl, sym, ap, ap₂, subst, ◌∙◌, Bool, true, Option, none, some, List, [], ◌∷◌, zero, suc,
}
use wl.Util.NumTab.{NumTab}
use wl.Util.NumTab.Numbers.{IsNumTab, ShiftsMod64}
use wl.Util.NumTab.Alloc.{Allocates}
use wl.Fs.State.{Aux, Request, Sent}
use wl.Fs.Requests.{Outcome, done, failed, fswalk}
use wl.Fs.Requests.Fids.{Restored, Walks, fswalk-Walks}
use wl.Windows.{File, Turn, went, Run, ran, with_file, each, file_at}
use wl.Windows.Kept.{KeepsTables, KeepsTables-KeepsFids}
use wl.Windows.Owned.{fids, Owns, Owns-none, Owns-skip, Owns-more}
use wl.Windows.Loops.{readcbs, NotStuck}
use wl.Windows.Walked.{KeptTags, TagsOutcome, fswalk-tags}
use wl.Windows.Open.{walked, walk_turn}

abbrev pub AllNone : List File → Type 0
AllNone [] = Unit
AllNone (f ∷ fs) = (f.fid ≡ none) × AllNone fs

-- None is -1.
abbrev pub AllSome : List (Option ℕ) → Type 0
AllSome [] = Unit
AllSome (m ∷ ms) = ((n : ℕ) × (m ≡ some n)) × AllSome ms

AllNone-Owns :
    (base tab : NumTab) (fs : List File) → AllNone fs → Restored base tab → Owns base (fids fs) tab
AllNone-Owns base tab [] h r = Owns-none base tab r
AllNone-Owns base tab (f ∷ fs) (e, h) r =
    subst (λ n. Owns base (n ∷ fids fs) tab) (sym e)
      (Owns-skip base tab (fids fs) (AllNone-Owns base tab fs h r))

pub file_at-none : (fs : List File) (n : ℕ) → AllNone fs → (file_at fs n).fid ≡ none
file_at-none [] n h = refl
file_at-none (f ∷ fs) zero (e, h) = e
file_at-none (f ∷ fs) (suc n) (e, h) = file_at-none fs n h

-- What a walk does to a file, the connection and the callbacks.
record Took (f : File) (a : Aux) (f' : File) (a' : Aux) : Type 0 where
  number : (n : ℕ) × (f'.fid ≡ some n) × Allocates a.fid n a'.fid
  readcb : f'.readcb ≡ f.readcb
  kept : KeptTags a a'

record Refused (f : File) (a : Aux) (f' : File) (a' : Aux) : Type 0 where
  number : f'.fid ≡ none
  table : Restored a.fid a'.fid
  readcb : f'.readcb ≡ f.readcb
  kept : KeptTags a a'

abbrev TurnWalks : File → Aux → Turn → Type 0
TurnWalks f a (went f' a') = Took f a f' a'
TurnWalks f a (Turn.broke f' a') = Refused f a f' a'
TurnWalks f a (Turn.halted h) = NotStuck h

pub record Walked (fs : List File) (a : Aux) (fs' : List File) (a' : Aux) : Type 0 where
  pub owns : Owns a.fid (fids fs') a'.fid
  pub readcb : readcbs fs' ≡ readcbs fs
  pub kept : KeptTags a a'

abbrev pub RunWalks : List File → Aux → Run → Type 0
RunWalks fs a (ran fs' a') = Walked fs a fs' a' × AllSome (fids fs')
RunWalks fs a (Run.broke fs' a') = Walked fs a fs' a'
RunWalks fs a (Run.halted h) = NotStuck h

Walked-more :
    (f f' : File) (fs fs' : List File) (a b c : Aux)
    → Took f a f' b
    → Walked fs b fs' c
    → Walked (f ∷ fs) a (f' ∷ fs') c
Walked-more f f' fs fs' a b c k l =
    let (n, e, al) = k.number in
    record {
      owns =
          subst (λ m. Owns a.fid (m ∷ fids fs') c.fid) (sym e)
            (Owns-more a.fid b.fid c.fid n (fids fs') al l.owns);
      readcb = ap₂ (λ m ms. m ∷ ms) k.readcb l.readcb;
      kept = record {
        callbacks = λ i. l.kept.callbacks i ∙ k.kept.callbacks i;
        tags = l.kept.tags;
      };
    }

module _ (send : Request → Aux → Sent) (law : KeepsTables send) (wide : ℕ → ℕ)
    (shifts : ShiftsMod64 wide) (room : Aux → Bool) (why : List ℕ) where
  walk_turn-walks :
      (wsys : ℕ) (f : File) (a : Aux)
      → IsNumTab a.fid
      → IsNumTab a.tag
      → TurnWalks f a (walk_turn send wide room why wsys f a)
  unfolding walk_turn
  walk_turn-walks wsys f a valid tags =
      step (fswalk send wide (room a) why true wsys (f.name ∷ []) a)
        (fswalk-Walks send (KeepsTables-KeepsFids send law) wide (room a) why true wsys
          (f.name ∷ []) a shifts valid tags)
        (fswalk-tags send law wide (room a) why true wsys (f.name ∷ []) a tags)
    where
      step : (o : Outcome ℕ) → Walks a o → TagsOutcome a o → TurnWalks f a (walked f o)
      step (done fid tagp b) w k = record { number = (fid, refl, w); readcb = refl; kept = k }
      step (failed tagp b) w k = record { number = refl; table = w; readcb = refl; kept = k }
      step Outcome.exited w k = tt
      step (Outcome.starved b) w k = tt
      step Outcome.stuck w k = w

  pub walk_loop :
      (wsys : ℕ) (fs : List File) (a : Aux)
      → AllNone fs
      → IsNumTab a.fid
      → IsNumTab a.tag
      → RunWalks fs a (each (walk_turn send wide room why wsys) fs a)
  unfolding each
  walk_loop wsys [] a h valid tags = (
    record {
      owns = Owns-none a.fid a.fid (record { valid = valid; same = λ i. (λ u. u, λ u. u) });
      readcb = refl;
      kept = record { callbacks = λ i. refl; tags = tags };
    },
    tt,
  )
  walk_loop wsys (f ∷ fs) a (e, h) valid tags =
      step (λ b valid' tags'. walk_loop wsys fs b h valid' tags')
        (walk_turn send wide room why wsys f a) (walk_turn-walks wsys f a valid tags)
    where
      more :
          (f' : File) (b : Aux) (r : Run)
          → Took f a f' b
          → RunWalks fs b r
          → RunWalks (f ∷ fs) a (with_file f' r)
      more f' b (ran fs' c) k (l, open_) =
          (Walked-more f f' fs fs' a b c k l, ((k.number.0, k.number.1), open_))
      more f' b (Run.broke fs' c) k l = Walked-more f f' fs fs' a b c k l
      more f' b (Run.halted h') k l = l

      step :
          ((b : Aux)
            → IsNumTab b.fid
            → IsNumTab b.tag
            → RunWalks fs b (each (walk_turn send wide room why wsys) fs b))
          → (t : Turn) → TurnWalks f a t
          → RunWalks (f ∷ fs) a (elim t [
            | went f' a' ↦ with_file f' (each (walk_turn send wide room why wsys) fs a')
            | Turn.broke f' a' ↦ Run.broke (f' ∷ fs) a'
            | Turn.halted h' ↦ Run.halted h'
          ])
      step rest (went f' b) k = more f' b _ k (rest b k.number.2.valid k.kept.tags)
      step rest (Turn.broke f' b) k = record {
        owns = AllNone-Owns a.fid b.fid (f' ∷ fs) (k.number, h) k.table;
        readcb = ap (λ m. m ∷ readcbs fs) k.readcb;
        kept = k.kept;
      }
      step rest (Turn.halted h') k = k
