-- ===== src/Windows/Settled.antt =====
-- What `winnew` leaves: the file numbers in use, and who is called back.
use wl.Prelude.{
  ℕ, ◌≡◌, ◌≢◌, ◌⊎◌, inl, inr, refl, sym, ap, subst, ◌∙◌, Bool, true, false, Option, none, some,
  List, [], ◌∷◌, if◌then◌else◌, Bool-cases,
}
use wl.Prelude
use wl.Libc.{codes}
use wl.Util.NumTab.Numbers.{IsNumTab, ShiftsMod64}
use wl.Util.NumTab.Alloc.{Allocates}
use wl.Fs.State.{Callback, Reply, Aux, rread, Request, Sent}
use wl.Fs.Wait.{Waited, answer, refused, fswait}
use wl.Fs.Requests.{Outcome, done, failed, fsattach, fswalk, fsclunk}
use wl.Fs.Requests.Fids.{Walks, Attaches, fswalk-Walks, fsattach-Attaches}
use wl.Windows.{Window, Term, File, files, fid_number, Run, ran, file_at, store, Ended, ended}
use wl.Windows.Kept.{Kept, KeepsTables, KeepsTables-KeepsFids, KeptWait, fswait-Kept, fsclunk-Kept}
use wl.Windows.Owned.{fids, Owns, Owns-none, Owns-more}
use wl.Windows.Loops.{Calls, Stops-NotStuck}
use wl.Windows.Walked.{TagsOutcome, fswalk-tags, fsattach-tags}
use wl.Windows.Turns.{Kept-Calls}
use wl.Windows.Numbers.{AllNone, AllSome, file_at-none}
use wl.Windows.After.{after_lem}
use wl.Windows.Undone.{Undoes, undo-Undoes}
use wl.Windows.Opens.{window_fids, Opens, five, open_files-Opens}
use wl.Windows.Open.{
  Opened, is_child, attach_name, open_files, Undone, undone, undo, closed, fail, told, first_wctl,
  concluded, rooted, adopted, winnew,
}
use wl.Windows.Promised.{no_fids, EndedKeeps, KeepsWindow, Settles}

stored_none : (fs : List File) (w : Window) → AllNone fs → window_fids (store fs w) ≡ no_fids
stored_none fs w h =
    rw
      (
        file_at-none fs 0 h,
        file_at-none fs 1 h,
        file_at-none fs 2 h,
        file_at-none fs 3 h,
        file_at-none fs 4 h,
      )
      refl

none_files :
    (w : Window) (n : ℕ)
    → window_fids w ≡ no_fids
    → AllNone (files (record w { wsys = some n; image = none }))
unfolding files
none_files w n e =
    let nth : (k : ℕ) → Prelude.get_or (window_fids w) k none ≡ Prelude.get_or no_fids k none =
      λ k. ap (λ ns. Prelude.get_or ns k none) e in
    (nth 0, (nth 1, (nth 2, (nth 3, (nth 4, tt)))))

module _ (send : Request → Aux → Sent) (law : KeepsTables send) where
  -- `error`, where wsys has got the number n.
  fail_lem :
      (a b c : Aux) (n : ℕ) (fs : List File) (w v : Window) (term : Term)
      → Allocates a.fid n b.fid
      → Owns b.fid (fids fs) c.fid
      → IsNumTab c.tag
      → Settles w a (fail send fs v term c)
  unfolding fail
  fail_lem a b c n fs w v term al owns tags =
      after_lem Opened.halted (Settles w a) Stops-NotStuck c (fsclunk send (fid_number v.wsys) c) _
        (fsclunk-Kept send law (fid_number v.wsys) c tags) again
    where
      last : (u : Undone) → Undoes b.fid u → Settles w a (closed send v term u)
      last (undone fs' d) (empty, r, tags') = (
        refl,
        stored_none fs' (record v { wsys = none }) empty,
        tags',
        inr (n, Owns-more a.fid b.fid d.fid n [] al (Owns-none b.fid d.fid r)),
      )
      last (Undone.halted h) k = Stops-NotStuck h k

      again : (d : Aux) → Kept c d → Settles w a (closed send v term (undo send fs d))
      again d k =
          last (undo send fs d)
            (undo-Undoes send law b.fid fs d (subst (Owns b.fid (fids fs)) (sym k.fid) owns) k.tags)

  module _ (wide : ℕ → ℕ) (shifts : ShiftsMod64 wide) (room : Aux → Bool) (why : List ℕ)
      (wctl : Reply → Window → Aux → Ended) (keeps : KeepsWindow wctl) where
    -- After the loops, where wsys has got the number n.
    concluded_lem :
        (a b : Aux) (n : ℕ) (w v : Window) (term : Term) (r : Run)
        → ((x : Callback) (i : ℕ) → Calls b x i → Calls a x i)
        → v.id ≡ w.id
        → v.surface ≡ w.surface
        → v.wsys ≡ some n
        → Allocates a.fid n b.fid
        → Opens w.id b r
        → Settles w a (concluded send wide room why wctl v term r)
    concluded_lem a b n w v term (Run.broke fs c) quiet id surface root al (owns, tags) =
        fail_lem a b c n fs w v term al owns tags
    concluded_lem a b n w v term (Run.halted h) quiet id surface root al k = k
    concluded_lem a b n w v term (ran fs c) quiet id surface root al
          (owns, open_, cbs, tags, calls) =
        step (fswait (file_at fs 2).tag rread c) (fswait-Kept (file_at fs 2).tag rread c tags)
      where
        last :
            (d : Aux) (e : Ended)
            → Kept c d
            → EndedKeeps (store fs v) d e
            → Settles w a (told send wide room why wctl fs term e)
        last d (Ended.halted h) k l = l
        last d (ended u e) k l = (
          subst (λ tab. Owns a.fid (u.wsys ∷ window_fids u) tab) (sym (l.table ∙ k.fid))
              (subst (λ ns. Owns a.fid (u.wsys ∷ ns) c.fid) (sym (l.files ∙ (five fs v cbs).0))
                (subst (λ m. Owns a.fid (m ∷ fids fs) c.fid) (sym (l.wsys ∙ root))
                  (Owns-more a.fid b.fid c.fid n (fids fs) al owns))),
          ((n, l.wsys ∙ root), subst AllSome (sym (l.files ∙ (five fs v cbs).0)) open_),
          l.tags,
          l.id ∙ id,
          l.others.2 ∙ surface,
          λ x i called. elim (l.calls x i called) [
            | inr (e1, e2) ↦
                inr (
                  ap (λ (cb : Callback). cb.arg) e1 ∙ id,
                  inl (ap (λ (cb : Callback). cb.fn) e1, e2),
                )
            | inl called' ↦ elim (calls x i (Kept-Calls c d k x i called')) [
              | inl called'' ↦ inl (quiet x i called'')
              | inr (e1, at) ↦ inr (e1, inr ((five fs v cbs).1 x.fn i called'.0 at))
            ]
          ],
        )

        step :
            (o : Waited)
            → KeptWait c o
            → Settles w a (first_wctl send wide room why wctl fs v term o)
        step (answer r d) k = last d (wctl r (store fs v) d) k (keeps r (store fs v) d k.tags)
        step (refused d) k =
            fail_lem a b d n fs w v term al (subst (Owns b.fid (fids fs)) (sym k.fid) owns) k.tags
        step Waited.exited k = tt
        step (Waited.starved d) k = tt

    rooted_lem :
        (a : Aux) (w : Window) (term : Term) (o : Outcome ℕ)
        → window_fids w ≡ no_fids
        → TagsOutcome a o
        → Attaches send (attach_name term.wsys) a o
        → Settles w a (rooted send wide room why wctl w term o)
    unfolding files
    rooted_lem a w term (done n tagp b) empty k al =
        let v = record w { wsys = some n; image = none } in
        concluded_lem a b n w v term (open_files send wide room why w.id n (files v) b)
          (λ x i c. subst (λ cb. (x.fn ≢ none) × (cb ≡ x)) (k.callbacks i) c) refl refl refl al
          (open_files-Opens send law wide shifts room why w.id n (files v) b (none_files w n empty)
            refl al.valid k.tags)
    rooted_lem a w term (failed tagp b) empty k (inl same) = (refl, empty, k.tags, inl same)
    rooted_lem a w term (failed tagp b) empty k (inr (n, tab, unsent_, al)) = (
      refl,
      empty,
      k.tags,
      inr (
        n,
        Owns-more a.fid b.fid b.fid n [] al
            (Owns-none b.fid b.fid (record { valid = al.valid; same = λ i. (λ u. u, λ u. u) })),
      ),
    )
    rooted_lem a w term Outcome.exited empty k al = tt
    rooted_lem a w term (Outcome.starved b) empty k al = tt
    rooted_lem a w term Outcome.stuck empty k al = al

    walk-Attaches : (aname : List ℕ) (a : Aux) (o : Outcome ℕ) → Walks a o → Attaches send aname a o
    walk-Attaches aname a (done fid tagp b) k = k
    walk-Attaches aname a (failed tagp b) k = inl k
    walk-Attaches aname a Outcome.exited k = tt
    walk-Attaches aname a (Outcome.starved b) k = tt
    walk-Attaches aname a Outcome.stuck k = k

    -- Where requests keep the tables and `wctlread` leaves the window's files alone, on sound tables,
    -- for a window without files: where `winnew` returns 0, wsys and the five files have
    -- six file numbers that differ and were not in use, which are in use now as are those from before
    -- and no others, and callbacks are added for the window and its three tags only; where it
    -- returns -1, at whatever step, wsys and the files are -1, and in use are the numbers from
    -- before and at most one other, which no file has; and no call of `numget` fails to end.
    pub winnew-Settles :
        (w : Window) (term : Term) (a : Aux)
        → window_fids w ≡ no_fids
        → IsNumTab a.fid
        → IsNumTab a.tag
        → Settles w a (winnew send wide room why wctl w term a)
    unfolding winnew
    winnew-Settles w term a empty valid tags = elim (Bool-cases (is_child w.client term.child)) [
      | inl child ↦
          let walk = fswalk send wide (room a) why false term.root (codes "dev" ∷ []) a in
          rw child (
            rooted_lem a w (adopted send wide room why wctl term walk) walk empty
              (fswalk-tags send law wide (room a) why false term.root (codes "dev" ∷ []) a tags)
              (walk-Attaches _ a walk (
                fswalk-Walks send (KeepsTables-KeepsFids send law) wide (room a) why false term.root
                  (codes "dev" ∷ []) a shifts valid tags)))
      | inr other ↦ rw other (
          rooted_lem a w term (fsattach send wide (room a) (attach_name term.wsys) a) empty
            (fsattach-tags send law wide (room a) (attach_name term.wsys) a tags)
            (fsattach-Attaches send (KeepsTables-KeepsFids send law) wide (room a)
              (attach_name term.wsys) a shifts valid tags))
    ]
