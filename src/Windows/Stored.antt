-- ===== src/Windows/Stored.antt =====
-- What a change at one place of the stores of windows and surfaces leaves alone.
use wl.Prelude.{ℕ, ◌≡◌, ◌≢◌, refl, ◌∙◌, Option, arith}
use wl.Util.NumTab.Numbers.{IsNumTab}
use wl.Fs.State.{Callback}
use wl.Windows.{Window}
use wl.Windows.Loops.{Calls}
use wl.Windows.Life.{World, upd, put_window}

pub here : {A : Type 0} → (i : ℕ) (x : A) (f : ℕ → A) → upd i x f i ≡ x
here i x f = ground arith

pub elsewhere : {A : Type 0} → (i j : ℕ) (x : A) (f : ℕ → A) → j ≢ i → upd i x f j ≡ f j
elsewhere i j x f ne = ground arith

-- Beside the window at i and the role of the surface s nothing changes, but that callbacks go.
pub record Elsewhere (i s : ℕ) (wd wd' : World) : Type 0 where
  pub windows : (j : ℕ) → j ≢ i → wd'.windows j ≡ wd.windows j
  pub roles : (t : ℕ) → t ≢ s → (wd'.surfaces t).role ≡ (wd.surfaces t).role
  pub less : (c : Callback) (t : ℕ) → Calls wd'.aux c t → Calls wd.aux c t
  pub fid : wd'.aux.fid ≡ wd.aux.fid
  pub tags : IsNumTab wd'.aux.tag
  pub strays : wd'.strays ≡ wd.strays

pub Elsewhere-trans :
    (i s : ℕ) (a b c : World) → Elsewhere i s a b → Elsewhere i s b c → Elsewhere i s a c
Elsewhere-trans i s a b c k l = record {
  windows = λ j ne. l.windows j ne ∙ k.windows j ne;
  roles = λ t ne. l.roles t ne ∙ k.roles t ne;
  less = λ cb t u. k.less cb t (l.less cb t u);
  fid = l.fid ∙ k.fid;
  tags = l.tags;
  strays = l.strays ∙ k.strays;
}

pub put_window-Elsewhere :
    (i s : ℕ) (w : Option Window) (wd : World)
    → IsNumTab wd.aux.tag
    → Elsewhere i s wd (put_window i w wd)
put_window-Elsewhere i s w wd h = record {
  windows = λ j ne. elsewhere i j w wd.windows ne;
  roles = λ t ne. refl;
  less = λ c t u. u;
  fid = refl;
  tags = h;
  strays = refl;
}
