-- ===== src/Windows/Loops.antt =====
-- What the loops over `files` in `winnew` do to the files, to the file numbers in use and to the
-- callbacks.
use wl.Prelude.{ℕ, ◌≡◌, ◌≢◌, ◌⊎◌, inl, inr, refl, ap₂, ◌∙◌, Option, none, List, [], ◌∷◌, map, some}
use wl.Util.NumTab.Numbers.{IsNumTab}
use wl.Fs.State.{Callback, Aux}
use wl.Fs.Tags.Fresh.{callback_of}
use wl.Windows.{File, Halt, Turn, went, Run, ran, with_file, each}
use wl.Windows.Owned.{fids}

-- The callback c is set for the tag i.
abbrev pub Calls : Aux → Callback → ℕ → Type 0
Calls a c i = (c.fn ≢ none) × (callback_of a i ≡ c)

abbrev pub readcbs : List File → List (Option ℕ)
readcbs fs = map (λ (f : File). f.readcb) fs

-- One of the files is called back by fn for the tag i.
abbrev pub Awaits : Option ℕ → ℕ → List File → Type 0
Awaits fn i [] = ⊥
Awaits fn i (f ∷ fs) = ((fn ≡ f.readcb) × (i ≡ f.tag)) ⊎ Awaits fn i fs

-- Callbacks are added for the files and with the argument w only.
abbrev pub Adds : ℕ → Aux → List File → Aux → Type 0
Adds w a fs a' =
    (c : Callback) (i : ℕ) → Calls a' c i → Calls a c i ⊎ ((c.arg ≡ w) × Awaits c.fn i fs)

-- Of the files their numbers and what is called back stay the same, and so do the file numbers in
-- use.
pub record Moves (w : ℕ) (fs : List File) (a : Aux) (fs' : List File) (a' : Aux) : Type 0 where
  pub fid : fids fs' ≡ fids fs
  pub readcb : readcbs fs' ≡ readcbs fs
  pub table : a'.fid ≡ a.fid
  pub tags : IsNumTab a'.tag
  pub calls : Adds w a fs' a'

-- No callback has the argument w.
abbrev pub Silent : ℕ → Aux → Type 0
Silent w a = (c : Callback) (i : ℕ) → c.arg ≡ w → ¬ Calls a c i

-- A callback of fn with the argument w.
abbrev pub calling : ℕ → ℕ → Callback
calling fn w = record { fn = some fn; arg = w }

pub record FileMoves (w : ℕ) (f : File) (a : Aux) (f' : File) (a' : Aux) : Type 0 where
  pub fid : f'.fid ≡ f.fid
  pub readcb : f'.readcb ≡ f.readcb
  pub table : a'.fid ≡ a.fid
  pub tags : IsNumTab a'.tag
  pub calls : Adds w a (f' ∷ []) a'

abbrev pub NotStuck : Halt → Type 0
NotStuck Halt.exited = Unit
NotStuck Halt.crashed = Unit
NotStuck Halt.stuck = ⊥
NotStuck (Halt.starved a) = Unit

-- An `exit(1)`, or a wait that does not end: neither a failed assertion nor a pointer to nothing.
abbrev pub Stops : Halt → Type 0
Stops Halt.exited = Unit
Stops Halt.crashed = ⊥
Stops Halt.stuck = ⊥
Stops (Halt.starved a) = Unit

pub Stops-NotStuck : (h : Halt) → Stops h → NotStuck h
Stops-NotStuck Halt.exited k = tt
Stops-NotStuck Halt.crashed k = tt
Stops-NotStuck Halt.stuck k = k
Stops-NotStuck (Halt.starved a) k = tt

abbrev pub TurnMoves : ℕ → File → Aux → Turn → Type 0
TurnMoves w f a (went f' a') = FileMoves w f a f' a'
TurnMoves w f a (Turn.broke f' a') = FileMoves w f a f' a'
TurnMoves w f a (Turn.halted h) = NotStuck h

abbrev pub RunMoves : ℕ → List File → Aux → Run → Type 0
RunMoves w fs a (ran fs' a') = Moves w fs a fs' a'
RunMoves w fs a (Run.broke fs' a') = Moves w fs a fs' a'
RunMoves w fs a (Run.halted h) = NotStuck h

pub Moves-refl : (w : ℕ) (fs : List File) (a : Aux) → IsNumTab a.tag → Moves w fs a fs a
Moves-refl w fs a h = record {
  fid = refl;
  readcb = refl;
  table = refl;
  tags = h;
  calls = λ v i c. inl c;
}

-- The first file, and then the others.
Moves-more :
    (w : ℕ) (f f' : File) (fs fs' : List File) (a b c : Aux)
    → FileMoves w f a f' b
    → Moves w fs b fs' c
    → Moves w (f ∷ fs) a (f' ∷ fs') c
Moves-more w f f' fs fs' a b c k l = record {
  fid = ap₂ (λ n ns. n ∷ ns) k.fid l.fid;
  readcb = ap₂ (λ n ns. n ∷ ns) k.readcb l.readcb;
  table = l.table ∙ k.table;
  tags = l.tags;
  calls = calls;
}
  where
    calls : Adds w a (f' ∷ fs') c
    calls v i u = elim (l.calls v i u) [
      | inr (e, at) ↦ inr (e, inr at)
      | inl u' ↦ elim (k.calls v i u') [
        | inl u'' ↦ inl u''
        | inr (e, at) ↦ inr (e, elim at [ inl now ↦ inl now | inr no_file ↦ absurd no_file ])
      ]
    ]

-- A loop whose turns each do so.
pub each-RunMoves :
    (w : ℕ) (turn : File → Aux → Turn)
    → ((f : File) (a : Aux) → IsNumTab a.tag → TurnMoves w f a (turn f a))
    → (fs : List File) (a : Aux) → IsNumTab a.tag
    → RunMoves w fs a (each turn fs a)
unfolding each
each-RunMoves w turn law [] a h = Moves-refl w [] a h
each-RunMoves w turn law (f ∷ fs) a h =
    step (λ b tags. each-RunMoves w turn law fs b tags) (turn f a) (law f a h)
  where
    more :
        (f' : File) (b : Aux) (r : Run)
        → FileMoves w f a f' b
        → RunMoves w fs b r
        → RunMoves w (f ∷ fs) a (with_file f' r)
    more f' b (ran fs' c) k l = Moves-more w f f' fs fs' a b c k l
    more f' b (Run.broke fs' c) k l = Moves-more w f f' fs fs' a b c k l
    more f' b (Run.halted h') k l = l

    step :
        ((b : Aux) → IsNumTab b.tag → RunMoves w fs b (each turn fs b))
        → (t : Turn) → TurnMoves w f a t
        → RunMoves w (f ∷ fs) a (elim t [
          | went f' a' ↦ with_file f' (each turn fs a')
          | Turn.broke f' a' ↦ Run.broke (f' ∷ fs) a'
          | Turn.halted h' ↦ Run.halted h'
        ])
    step rest (went f' b) k = more f' b (each turn fs b) k (rest b k.tags)
    step rest (Turn.broke f' b) k = Moves-more w f f' fs fs a b b k (Moves-refl w fs b k.tags)
    step rest (Turn.halted h') k = k
