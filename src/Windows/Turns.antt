-- ===== src/Windows/Turns.antt =====
-- What a turn of each loop of `winnew` does.
use wl.Prelude.{
  ℕ, zero, suc, ◌≡◌, ◌≢◌, ◌⊎◌, inl, inr, refl, sym, ap, subst, ◌∙◌, Bool, true, false, Option, none,
  some, List, [], ◌∷◌, length, ltb, ◌==◌, if◌then◌else◌, set, arith, Bool-cases, ℕ_discrete,
}
use wl.Prelude
use wl.Util.NumTab.Numbers.{IsNumTab}
use wl.Fs.Dispatch.Order.{set_at}
use wl.Fs.State.{Reply, Callback, no_callback, Aux, rwalk, ropen, rerror, Request, Sent}
use wl.Fs.Wait.{Waited, answer, refused, fswait}
use wl.Fs.Tags.{fsasync}
use wl.Fs.Requests.{Outcome, done, failed, fsopen, fsread}
use wl.Windows.{File, Halt, Turn, went, fid_number, stored_tag}
use wl.Windows.Kept.{
  Kept, Kept-refl, KeepsTables, KeptWait, KeptOutcome, fswait-Kept, fsopen-Kept, fsread-Kept,
}
use wl.Windows.Loops.{Calls, calling, FileMoves, TurnMoves}
use wl.Windows.Open.{tagged_file, answered_file, call_back, open_turn, read_turn}

-- The callbacks are what they were.
pub Kept-Calls : (a a' : Aux) → Kept a a' → (v : Callback) (i : ℕ) → Calls a' v i → Calls a v i
Kept-Calls a a' k v i c = subst (λ cb. (v.fn ≢ none) × (cb ≡ v)) (k.callbacks i) c

-- A file that keeps its number, after calls that keep the tables.
pub Kept-moves :
    (w : ℕ) (f f' : File) (a a' : Aux)
    → f'.fid ≡ f.fid
    → f'.readcb ≡ f.readcb
    → Kept a a'
    → FileMoves w f a f' a'
Kept-moves w f f' a a' fid readcb k = record {
  fid = fid;
  readcb = readcb;
  table = k.fid;
  tags = k.tags;
  calls = λ v i c. inl (Kept-Calls a a' k v i c);
}

-- One after the other, where the first leaves the callbacks alone.
pub moves_after :
    (w : ℕ) (f g h : File) (a b c : Aux)
    → g.fid ≡ f.fid
    → g.readcb ≡ f.readcb
    → Kept a b
    → FileMoves w g b h c
    → FileMoves w f a h c
moves_after w f g h a b c fid readcb k l = record {
  fid = l.fid ∙ fid;
  readcb = l.readcb ∙ readcb;
  table = l.table ∙ k.fid;
  tags = l.tags;
  calls = λ v i u. elim (l.calls v i u) [ inl u' ↦ inl (Kept-Calls a b k v i u') | inr e ↦ inr e ];
}

pub turn_after :
    (w : ℕ) (f g : File) (a b : Aux) (t : Turn)
    → g.fid ≡ f.fid
    → g.readcb ≡ f.readcb
    → Kept a b
    → TurnMoves w g b t
    → TurnMoves w f a t
turn_after w f g a b (went h c) fid readcb k l = moves_after w f g h a b c fid readcb k l
turn_after w f g a b (Turn.broke h c) fid readcb k l = moves_after w f g h a b c fid readcb k l
turn_after w f g a b (Turn.halted h) fid readcb k l = l

pub set_here :
    (cb : List Callback) (t : ℕ) (c : Callback)
    → ltb t (length cb) ≡ true
    → Prelude.get_or (set cb t c) t no_callback ≡ c
set_here [] t c h = absurd (ground (arith, h))
set_here (d ∷ cb) zero c h = refl
set_here (d ∷ cb) (suc t) c h = set_here cb t c (ground (arith, h))

-- `fsasync` changes one callback only.
abbrev pub Asyncs : ℕ → ℕ → ℕ → Aux → Option Aux → Type 0
Asyncs t fn w a none = Unit
Asyncs t fn w a (some a') =
    (a'.fid ≡ a.fid)
    × (a'.tag ≡ a.tag)
    × ((v : Callback) (i : ℕ) → Calls a' v i → Calls a v i ⊎ ((v ≡ calling fn w) × (i ≡ t)))
    × Calls a' (calling fn w) t

pub fsasync-Asyncs : (t fn w : ℕ) (a : Aux) → Asyncs t fn w a (fsasync t fn w a)
unfolding fsasync
fsasync-Asyncs t fn w a = elim (Bool-cases (ltb t (length a.cb))) [
  | inr no_place ↦ rw no_place tt
  | inl place ↦
      rw place
        (refl, refl, calls place, ((λ p. ground (arith, p)), set_here a.cb t (calling fn w) place))
]
  where
    calls :
        ltb t (length a.cb) ≡ true
        → (v : Callback) (i : ℕ)
        → Calls (record a { cb = set a.cb t (record { fn = some fn; arg = w }) }) v i
        → Calls a v i ⊎ ((v ≡ calling fn w) × (i ≡ t))
    calls place v i (real, e) = elim (ℕ_discrete i t) [
      | yes here ↦ inr (
        sym e
            ∙ (ap
                  (λ j.
                    Prelude.get_or (set a.cb t (record { fn = some fn; arg = w })) j no_callback)
                  here
                ∙ set_here a.cb t (record { fn = some fn; arg = w }) place),
        here,
      )
      | no ne ↦ inl (
          subst (λ cb. (v.fn ≢ none) × (cb ≡ v))
            (set_at a.cb t i (record { fn = some fn; arg = w }) ne) (real, e))
    ]

tagged_moves :
    {A : Type 0}
    → (w : ℕ) (f : File) (a : Aux) (o : Outcome A) (next : File → Aux → Turn) → KeptOutcome a o
    → ((g : File) (b : Aux)
        → g.fid ≡ f.fid
        → g.readcb ≡ f.readcb
        → IsNumTab b.tag
        → TurnMoves w g b (next g b))
    → TurnMoves w f a (tagged_file f o next)
tagged_moves w f a (done x tagp b) next k law =
    let g = record f { tag = stored_tag f.tag tagp } in
    turn_after w f g a b (next g b) refl refl k (law g b refl refl k.tags)
tagged_moves w f a (failed tagp b) next k law =
    Kept-moves w f (record f { tag = stored_tag f.tag tagp }) a b refl refl k
tagged_moves w f a Outcome.exited next k law = tt
tagged_moves w f a (Outcome.starved b) next k law = tt
tagged_moves w f a Outcome.stuck next k law = k

answered_moves :
    (w : ℕ) (f : File) (a : Aux) (o : Waited) (next : Reply → Aux → Turn)
    → KeptWait a o
    → ((r : Reply) (b : Aux) → IsNumTab b.tag → TurnMoves w f b (next r b))
    → TurnMoves w f a (answered_file f o next)
answered_moves w f a (answer r b) next k law =
    turn_after w f f a b (next r b) refl refl k (law r b k.tags)
answered_moves w f a (refused b) next k law = Kept-moves w f f a b refl refl k
answered_moves w f a Waited.exited next k law = tt
answered_moves w f a (Waited.starved b) next k law = tt

call_back_moves : (w : ℕ) (f : File) (a : Aux) → IsNumTab a.tag → TurnMoves w f a (call_back w f a)
call_back_moves w f a h = step f.readcb refl
  where
    asked :
        (fn : ℕ) (o : Option Aux)
        → f.readcb ≡ some fn
        → Asyncs f.tag fn w a o
        → TurnMoves w f a (elim o [ none ↦ Turn.halted Halt.crashed | some a' ↦ went f a' ])
    asked fn none e k = tt
    asked fn (some b) e (fid, tag, calls, set_) = record {
      fid = refl;
      readcb = refl;
      table = fid;
      tags = subst IsNumTab (sym tag) h;
      calls = λ v i u. elim (calls v i u) [
        | inl u' ↦ inl u'
        | inr (at, here) ↦
            inr
              (ap (λ (c : Callback). c.arg) at, inl (ap (λ (c : Callback). c.fn) at ∙ sym e, here))
      ];
    }

    step :
        (c : Option ℕ)
        → f.readcb ≡ c
        → TurnMoves w f a (elim c [
          | none ↦ went f a
          | some fn ↦ elim (fsasync f.tag fn w a) [
            | none ↦ Turn.halted Halt.crashed
            | some a' ↦ went f a'
          ]
        ])
    step none e = Kept-moves w f f a a refl refl (Kept-refl a h)
    step (some fn) e = asked fn (fsasync f.tag fn w a) e (fsasync-Asyncs f.tag fn w a)

module _ (send : Request → Aux → Sent) (law : KeepsTables send) where
  pub open_turn-moves :
      (w : ℕ) (f : File) (a : Aux) → IsNumTab a.tag → TurnMoves w f a (open_turn send f a)
  unfolding open_turn
  open_turn-moves w f a h =
      answered_moves w f a (fswait f.tag rwalk a) _ (fswait-Kept f.tag rwalk a h) λ r b tags.
        let g = record f { clunk = true } in
        turn_after w f g b b _ refl refl (Kept-refl b tags) (
          tagged_moves w g b (fsopen send true (fid_number f.fid) f.mode b) (λ f' a''. went f' a'')
            (fsopen-Kept send law true (fid_number f.fid) f.mode b tags)
            (λ g' c fid readcb tags'. Kept-moves w g' g' c c refl refl (Kept-refl c tags')))

  pub read_turn-moves :
      (w : ℕ) (f : File) (a : Aux) → IsNumTab a.tag → TurnMoves w f a (read_turn send w f a)
  unfolding read_turn
  read_turn-moves w f a h =
      answered_moves w f a (fswait f.tag ropen a) _ (fswait-Kept f.tag ropen a h) λ r b tags.
        let g = record f { flush = false } in
        elim (Bool-cases (r.kind == rerror)) [
          | inl bad ↦ rw bad (Kept-moves w f g b b refl refl (Kept-refl b tags))
          | inr ok ↦ elim (Bool-cases (f.readsz == 0)) [
            | inl none_ ↦ rw (ok, none_) (Kept-moves w f g b b refl refl (Kept-refl b tags))
            | inr some_ ↦
                rw (ok, some_)
                  (turn_after w f g b b _ refl refl (Kept-refl b tags) (
                    tagged_moves w g b (fsread send true (fid_number f.fid) 0 f.readsz b)
                      (call_back w) (fsread-Kept send law true (fid_number f.fid) 0 f.readsz b tags)
                      (λ g' c fid readcb tags'. call_back_moves w g' c tags')))
          ]
        ]
