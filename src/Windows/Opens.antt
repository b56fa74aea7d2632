-- ===== src/Windows/Opens.antt =====
-- What the three loops of `winnew` leave: the numbers of the files in use, and who is called back.
use wl.Prelude.{
  ℕ, suc, ◌≡◌, ◌≢◌, ◌⊎◌, inl, inr, refl, sym, ap, subst, ◌∙◌, Bool, true, false, Option, none, some,
  List, [], ◌∷◌, length, map, if◌then◌else◌, arith,
}
use wl.Prelude
use wl.Util.NumTab.{NumTab}
use wl.Util.NumTab.Numbers.{IsNumTab, ShiftsMod64}
use wl.Fs.State.{Callback, Aux, Request, Sent}
use wl.Windows.{
  Window, File, mouseread_fn, kbdread_fn, Turn, Run, ran, each, then_each, file_at, store,
}
use wl.Windows.Kept.{KeepsTables}
use wl.Windows.Owned.{fids, Owns}
use wl.Windows.Loops.{
  Calls, readcbs, Awaits, Adds, Moves, NotStuck, TurnMoves, RunMoves, each-RunMoves,
}
use wl.Windows.Turns.{open_turn-moves, read_turn-moves}
use wl.Windows.Numbers.{AllNone, AllSome, RunWalks, walk_loop}
use wl.Windows.Open.{open_turn, read_turn, walk_turn, open_files}

-- The files of a window, in the order of `files`.
abbrev pub window_fids : Window → List (Option ℕ)
window_fids w = w.winname ∷ w.label ∷ w.wctl ∷ w.mouse ∷ w.kbd ∷ []

-- The files after the loops, which are as many as before.
abbrev pub Opens : ℕ → Aux → Run → Type 0
Opens w a (ran fs a') =
    Owns a.fid (fids fs) a'.fid
    × AllSome (fids fs)
    × (readcbs fs ≡ none ∷ none ∷ none ∷ some mouseread_fn ∷ some kbdread_fn ∷ [])
    × IsNumTab a'.tag
    × Adds w a fs a'
Opens w a (Run.broke fs a') = Owns a.fid (fids fs) a'.fid × IsNumTab a'.tag
Opens w a (Run.halted h) = NotStuck h

-- Before the last of the loops, which alone sets callbacks.
abbrev pub Quiet : Aux → Aux → Type 0
Quiet a a' = (v : Callback) (i : ℕ) → Calls a' v i → Calls a v i

abbrev Prepares : Aux → Run → Type 0
Prepares a (ran fs a') =
    Owns a.fid (fids fs) a'.fid
    × AllSome (fids fs)
    × (readcbs fs ≡ none ∷ none ∷ none ∷ some mouseread_fn ∷ some kbdread_fn ∷ [])
    × IsNumTab a'.tag
    × Quiet a a'
Prepares a (Run.broke fs a') = Owns a.fid (fids fs) a'.fid × IsNumTab a'.tag
Prepares a (Run.halted h) = NotStuck h

no_list : (xs ys : List (Option ℕ)) → length xs ≢ length ys → xs ≢ ys
no_list xs ys ne e = ne (ap length e)

-- The five files, and which of them are called back.
pub five :
    (fs : List File) (w : Window)
    → readcbs fs ≡ none ∷ none ∷ none ∷ some mouseread_fn ∷ some kbdread_fn ∷ []
    → (window_fids (store fs w) ≡ fids fs)
      × ((fn : Option ℕ) (i : ℕ)
          → fn ≢ none
          → Awaits fn i fs
          → ((fn ≡ some mouseread_fn) × (i ≡ (file_at fs 3).tag))
            ⊎ ((fn ≡ some kbdread_fn) × (i ≡ (file_at fs 4).tag)))
five [] w e = absurd (no_list _ _ (omega arith) e)
five (f ∷ []) w e = absurd (no_list _ _ (omega arith) e)
five (f ∷ g ∷ []) w e = absurd (no_list _ _ (omega arith) e)
five (f ∷ g ∷ h ∷ []) w e = absurd (no_list _ _ (omega arith) e)
five (f ∷ g ∷ h ∷ i ∷ []) w e = absurd (no_list _ _ (omega arith) e)
five (f ∷ g ∷ h ∷ i ∷ j ∷ k ∷ fs) w e = absurd (no_list _ _ (omega arith) e)
five (f ∷ g ∷ h ∷ i ∷ j ∷ []) w e = (refl, awaits)
  where
    silent :
        (n : ℕ)
        → Prelude.get_or (readcbs (f ∷ g ∷ h ∷ i ∷ j ∷ [])) n none
          ≡ Prelude.get_or (none ∷ none ∷ none ∷ some mouseread_fn ∷ some kbdread_fn ∷ []) n none
    silent n = ap (λ cs. Prelude.get_or cs n none) e

    awaits :
        (fn : Option ℕ) (t : ℕ)
        → fn ≢ none
        → Awaits fn t (f ∷ g ∷ h ∷ i ∷ j ∷ [])
        → ((fn ≡ some mouseread_fn) × (t ≡ i.tag)) ⊎ ((fn ≡ some kbdread_fn) × (t ≡ j.tag))
    awaits fn t some_ (inl (e', at)) = absurd (some_ (e' ∙ silent 0))
    awaits fn t some_ (inr (inl (e', at))) = absurd (some_ (e' ∙ silent 1))
    awaits fn t some_ (inr (inr (inl (e', at)))) = absurd (some_ (e' ∙ silent 2))
    awaits fn t some_ (inr (inr (inr (inl (e', at))))) = inl (e' ∙ silent 3, at)
    awaits fn t some_ (inr (inr (inr (inr (inl (e', at)))))) = inr (e' ∙ silent 4, at)
    awaits fn t some_ (inr (inr (inr (inr (inr no_file))))) = absurd no_file

moved-Owns :
    (base : NumTab) (w : ℕ) (fs fs' : List File) (b c : Aux)
    → Moves w fs b fs' c
    → Owns base (fids fs) b.fid
    → Owns base (fids fs') c.fid
moved-Owns base w fs fs' b c m o =
    subst (λ tab. Owns base (fids fs') tab) (sym m.table)
      (subst (λ ns. Owns base ns b.fid) (sym m.fid) o)

moved_some :
    (w : ℕ) (fs fs' : List File) (b c : Aux)
    → Moves w fs b fs' c
    → AllSome (fids fs)
    → AllSome (fids fs')
moved_some w fs fs' b c m h = subst AllSome (sym m.fid) h

-- A loop that sets no callback: it is the same with every argument.
Prepares-more :
    (turn : File → Aux → Turn)
    → ((w : ℕ) (f : File) (a : Aux) → IsNumTab a.tag → TurnMoves w f a (turn f a))
    → (a : Aux) (r : Run) → Prepares a r
    → Prepares a (then_each turn r)
Prepares-more turn law a (Run.broke fs b) k = k
Prepares-more turn law a (Run.halted h) k = k
Prepares-more turn law a (ran fs b) (owns, open_, cbs, tags, calls) =
    step (each turn fs b) (λ w. each-RunMoves w turn (law w) fs b tags)
  where
    step : (r : Run) → ((w : ℕ) → RunMoves w fs b r) → Prepares a r
    step (ran fs' c) m = (
      moved-Owns a.fid 0 fs fs' b c (m 0) owns,
      moved_some 0 fs fs' b c (m 0) open_,
      (m 0).readcb ∙ cbs,
      (m 0).tags,
      λ v i u. elim ((m (suc v.arg)).calls v i u) [
        | inl u' ↦ calls v i u'
        | inr (e, at) ↦ absurd (omega (arith, e))
      ],
    )
    step (Run.broke fs' c) m = (moved-Owns a.fid 0 fs fs' b c (m 0) owns, (m 0).tags)
    step (Run.halted h) m = m 0

Opens-more :
    (w : ℕ) (turn : File → Aux → Turn)
    → ((f : File) (a : Aux) → IsNumTab a.tag → TurnMoves w f a (turn f a))
    → (a : Aux) (r : Run) → Prepares a r
    → Opens w a (then_each turn r)
Opens-more w turn law a (Run.broke fs b) k = k
Opens-more w turn law a (Run.halted h) k = k
Opens-more w turn law a (ran fs b) (owns, open_, cbs, tags, calls) =
    step (each turn fs b) (each-RunMoves w turn law fs b tags)
  where
    step : (r : Run) → RunMoves w fs b r → Opens w a r
    step (ran fs' c) m = (
      moved-Owns a.fid w fs fs' b c m owns,
      moved_some w fs fs' b c m open_,
      m.readcb ∙ cbs,
      m.tags,
      λ v i u. elim (m.calls v i u) [ inl u' ↦ inl (calls v i u') | inr e ↦ inr e ],
    )
    step (Run.broke fs' c) m = (moved-Owns a.fid w fs fs' b c m owns, m.tags)
    step (Run.halted h) m = m

module _ (send : Request → Aux → Sent) (law : KeepsTables send) (wide : ℕ → ℕ)
    (shifts : ShiftsMod64 wide) (room : Aux → Bool) (why : List ℕ) where
  -- The three loops, from files without numbers.
  pub open_files-Opens :
      (w wsys : ℕ) (fs : List File) (a : Aux)
      → AllNone fs
      → (readcbs fs ≡ none ∷ none ∷ none ∷ some mouseread_fn ∷ some kbdread_fn ∷ [])
      → IsNumTab a.fid
      → IsNumTab a.tag
      → Opens w a (open_files send wide room why w wsys fs a)
  unfolding open_files
  open_files-Opens w wsys fs a empty cbs valid tags =
      Opens-more w (read_turn send w) (read_turn-moves send law w) a _ (
        Prepares-more (open_turn send) (open_turn-moves send law) a _ (
          step (each (walk_turn send wide room why wsys) fs a)
            (walk_loop send law wide shifts room why wsys fs a empty valid tags)))
    where
      step : (r : Run) → RunWalks fs a r → Prepares a r
      step (ran fs' b) (k, open_) = (
        k.owns,
        open_,
        k.readcb ∙ cbs,
        k.kept.tags,
        λ v i c. subst (λ cb. (v.fn ≢ none) × (cb ≡ v)) (k.kept.callbacks i) c,
      )
      step (Run.broke fs' b) k = (k.owns, k.kept.tags)
      step (Run.halted h) k = k
