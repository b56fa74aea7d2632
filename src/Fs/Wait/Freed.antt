-- ===== src/Fs/Wait/Freed.antt =====
-- What freeing tags does to the table of tags.
use wl.Prelude.{ℕ, ◌≡◌, refl, ◌⊎◌, inl, inr, none, some, List, [], ◌∷◌}
use wl.Util.NumTab.{NumTab, numput}
use wl.Util.NumTab.Numbers.{IsTaken, IsNumTab}
use wl.Util.NumTab.Alloc.{Releases, numput-Releases}
use wl.Fs.State.{Aux, put, freetag, freetags}

-- `numput` on any number leaves a table in which the number is free.
pub put_lem :
    (tab : NumTab) (num : ℕ) → IsNumTab tab → IsNumTab (put tab num) × (¬ IsTaken (put tab num) num)
put_lem tab num h = either (numput-Releases tab num h)
  where
    either :
        (IsTaken tab num × ((tab' : NumTab) × (numput tab num ≡ some tab') × Releases tab num tab'))
          ⊎ ((¬ IsTaken tab num) × (numput tab num ≡ none))
        → IsNumTab (put tab num) × (¬ IsTaken (put tab num) num)
    either (inl (used, (tab', e, r))) = rw (e, put) (r.valid, r.released)
    either (inr (free, e)) = rw (e, put) (h, free)

pub freetags-IsNumTab : (ts : List ℕ) (a : Aux) → IsNumTab a.tag → IsNumTab (freetags ts a).tag
freetags-IsNumTab [] a h = h
freetags-IsNumTab (t ∷ ts) a h = freetags-IsNumTab ts (freetag t a) (put_lem a.tag t h).0

-- What freeing tags leaves alone.
pub record Same (a a' : Aux) : Type 0 where
  pub fid : a'.fid ≡ a.fid
  pub cb : a'.cb ≡ a.cb
  pub queue : a'.queue ≡ a.queue

pub freetags-Same : (ts : List ℕ) (a : Aux) → Same a (freetags ts a)
freetags-Same [] a = record { fid = refl; cb = refl; queue = refl }
freetags-Same (t ∷ ts) a =
    let s = freetags-Same ts (freetag t a) in record { fid = s.fid; cb = s.cb; queue = s.queue }
