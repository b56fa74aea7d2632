-- ===== src/Windows/Undone.antt =====
-- The code behind `error` in `winnew` gives back every number that the files took.
use wl.Prelude.{
  ℕ, ◌≡◌, inl, inr, refl, sym, subst, ◌∙◌, Bool, true, false, Option, none, some, List, [], ◌∷◌,
  if◌then◌else◌,
}
use wl.Util.NumTab.{NumTab}
use wl.Util.NumTab.Numbers.{IsNumTab}
use wl.Fs.State.{Aux, Request, Sent}
use wl.Fs.Dispatch.{fsflush}
use wl.Fs.Requests.{fsclunk}
use wl.Fs.Requests.Fids.{Restored}
use wl.Windows.{File, fid_number}
use wl.Windows.Kept.{KeepsTables, fsclunk-Kept}
use wl.Windows.Owned.{fids, Owns, Owns-less}
use wl.Windows.Loops.{Stops}
use wl.Windows.Flushed.{fsflush-Drops}
use wl.Windows.After.{after_lem, after_flush_lem}
use wl.Windows.Numbers.{AllNone}
use wl.Windows.Open.{
  Undone, undone, with_undone, put_file, clunk_file, flush_file, after, after_flush, undo,
}

-- The same numbers are in use as in `base`, and the files have none.
abbrev pub Undoes : NumTab → Undone → Type 0
Undoes base (undone fs a) = AllNone fs × Restored base a.fid × IsNumTab a.tag
Undoes base (Undone.halted h) = Stops h

pub Owns-Restored : (base tab : NumTab) → Owns base [] tab → Restored base tab
Owns-Restored base tab o = record {
  valid = o.valid;
  same = λ i. (
    λ u. elim ((o.same i).0 u) [ inl k ↦ k | inr no_file ↦ absurd no_file ],
    λ u. (o.same i).1 (inl u),
  );
}

-- What follows keeps the promise wherever the tables are as before.
Continues : NumTab → Aux → (Aux → Undone) → Type 0
Continues base a next = (b : Aux) → b.fid ≡ a.fid → IsNumTab b.tag → Undoes base (next b)

module _ (send : Request → Aux → Sent) (law : KeepsTables send) where
  clunk_file-Undoes :
      (base : NumTab) (f : File) (a : Aux) (next : Aux → Undone)
      → IsNumTab a.tag
      → Continues base a next
      → Undoes base (clunk_file send f a next)
  unfolding Continues
  clunk_file-Undoes base f a next h more = step f.clunk
    where
      step :
          (clunk : Bool)
          → Undoes base (
              if clunk
              then after Undone.halted (fsclunk send (fid_number f.fid) a) next
              else next a)
      step true =
          after_lem Undone.halted (Undoes base) (λ h' k. k) a (fsclunk send (fid_number f.fid) a)
            next (fsclunk-Kept send law (fid_number f.fid) a h) (λ b k. more b k.fid k.tags)
      step false = more a refl h

  flush_file-Undoes :
      (base : NumTab) (f : File) (a : Aux) (next : Aux → Undone)
      → IsNumTab a.tag
      → Continues base a next
      → Undoes base (flush_file send f a next)
  unfolding Continues
  flush_file-Undoes base f a next h more = step f.flush
    where
      step :
          (flush : Bool)
          → Undoes base
              (if flush then after_flush Undone.halted (fsflush send f.tag a) next else next a)
      step true =
          after_flush_lem Undone.halted (Undoes base) (λ h' k. k) send f.tag a
            (fsflush send f.tag a) next (fsflush-Drops send law f.tag a h)
            (λ b k. more b k.fid k.tags) (λ b k q. more b k.fid k.tags)
      step false = more a refl h

  put_file-Owns :
      (base : NumTab) (n : Option ℕ) (ns : List (Option ℕ)) (a : Aux)
      → Owns base (n ∷ ns) a.fid
      → IsNumTab a.tag
      → Owns base ns (put_file n a).fid × IsNumTab (put_file n a).tag
  put_file-Owns base none ns a o h =
      (record { valid = o.valid; distinct = o.distinct; fresh = o.fresh; same = o.same }, h)
  put_file-Owns base (some n) ns a o h = (Owns-less base a.fid n ns o, h)

  with_undone-Undoes :
      (base : NumTab) (f : File) (u : Undone)
      → f.fid ≡ none
      → Undoes base u
      → Undoes base (with_undone f u)
  with_undone-Undoes base f (undone fs a) e (empty, r, h) = ((e, empty), r, h)
  with_undone-Undoes base f (Undone.halted h) e k = k

  pub undo-Undoes :
      (base : NumTab) (fs : List File) (a : Aux)
      → Owns base (fids fs) a.fid
      → IsNumTab a.tag
      → Undoes base (undo send fs a)
  unfolding undo Continues
  undo-Undoes base [] a o h = (tt, Owns-Restored base a.fid o, h)
  undo-Undoes base (f ∷ fs) a o h =
      let (o', h') = put_file-Owns base f.fid (fids fs) a o h in
      flush_file-Undoes base f (put_file f.fid a) _ h' λ b eb hb.
        clunk_file-Undoes base f b _ hb λ c ec hc.
          with_undone-Undoes base (record f { fid = none }) (undo send fs c) refl
            (undo-Undoes base fs c (subst (Owns base (fids fs)) (sym (ec ∙ eb)) o') hc)
