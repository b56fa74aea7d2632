-- ===== src/Windows/Reading/Attached.antt =====
-- The handlers of the mouse and of the keyboard, which are called for a reply and ask for the next,
-- leave the window called back for its three tags only.
use wl.Prelude.{
  ap, ℕ, ◌≡◌, ◌≢◌, ◌⊎◌, inl, inr, refl, sym, subst, ◌∙◌, true, Option, none, some, length, ltb,
  ◌==◌, Bool-cases, arith,
}
use wl.Util.NumTab.Numbers.{IsNumTab}
use wl.Fs.State.{Callback, Reply, Aux, rerror, Request, Sent}
use wl.Fs.Tags.{fsasync}
use wl.Fs.Dispatch.{clear_callback}
use wl.Fs.Requests.{Outcome, done, failed, fsread}
use wl.Windows.{Window, mouseread_fn, kbdread_fn, fid_number, Halt, Ended, ended, stored_tag}
use wl.Windows.Kept.{Kept, Kept-refl, KeepsTables, KeptOutcome, fsread-Kept}
use wl.Windows.Loops.{Calls, calling, NotStuck}
use wl.Windows.Turns.{Kept-Calls, Asyncs, fsasync-Asyncs}
use wl.Windows.Flushed.{cleared-Calls}
use wl.Windows.Promised.{IsAttached}
use wl.Windows.Reading.{
  ask_next, mouseread_next, kbdread_next, Handler, on_wctl, on_mouse, on_kbd, handler_tag,
  handler_fn,
}

-- A callback of fn for the tag t with the argument w is all that is added.
pub record Asks (w fn t : ℕ) (a a' : Aux) : Type 0 where
  pub table : a'.fid ≡ a.fid
  pub tags : IsNumTab a'.tag
  pub calls : (v : Callback) (i : ℕ) → Calls a' v i → Calls a v i ⊎ ((v ≡ calling fn w) × (i ≡ t))

pub Kept-Asks : (w fn t : ℕ) (a b : Aux) → Kept a b → Asks w fn t a b
Kept-Asks w fn t a b k = record {
  table = k.fid;
  tags = k.tags;
  calls = λ v i c. inl (Kept-Calls a b k v i c);
}

module _ (send : Request → Aux → Sent) (law : KeepsTables send) where
  -- `ask_next` keeps P, where what follows does.
  pub ask_next_lem :
      {R : Type 0}
      → (halt : Halt → R) (P : R → Type 0) → ((h : Halt) → NotStuck h → P (halt h))
      → (fn arg : ℕ) (fid : Option ℕ) (len old : ℕ) (a : Aux) (fails : Option ℕ → Aux → R)
        (next : ℕ → Aux → R)
      → IsNumTab a.tag
      → ((tagp : Option ℕ) (b : Aux)
          → Kept a b
          → fsread send true (fid_number fid) 0 len a ≡ failed tagp b
          → P (fails tagp b))
      → ((t : ℕ) (b : Aux) → Asks arg fn t a b → Calls b (calling fn arg) t → P (next t b))
      → P (ask_next send halt fn arg fid len old a fails next)
  ask_next_lem {R} halt P halts fn arg fid len old a fails next h bad good =
      step (fsread send true (fid_number fid) 0 len a) refl
        (fsread-Kept send law true (fid_number fid) 0 len a h)
    where
      set_ :
          (t : ℕ) (b : Aux) (o : Option Aux)
          → Kept a b
          → Asyncs t fn arg b o
          → P (elim o [ none ↦ halt Halt.crashed | some a'' ↦ next t a'' ])
      set_ t b none k l = halts Halt.crashed tt
      set_ t b (some c) k (fid', tag, calls, new) =
          good t c
            (record {
              table = fid' ∙ k.fid;
              tags = subst IsNumTab (sym tag) k.tags;
              calls = λ v i u. elim (calls v i u) [
                | inl u' ↦ inl (Kept-Calls a b k v i u')
                | inr e ↦ inr e
              ];
            })
            new

      step :
          (o : Outcome (Option Reply))
          → fsread send true (fid_number fid) 0 len a ≡ o
          → KeptOutcome a o
          → P (elim o [
            | failed tagp a' ↦ fails tagp a'
            | done x tagp a' ↦ elim (fsasync (stored_tag old tagp) fn arg a') [
              | none ↦ halt Halt.crashed
              | some a'' ↦ next (stored_tag old tagp) a''
            ]
            | Outcome.exited ↦ halt Halt.exited
            | Outcome.starved a' ↦ halt (Halt.starved a')
            | Outcome.stuck ↦ halt Halt.stuck
          ])
      step (failed tagp b) e k = bad tagp b k e
      step (done x tagp b) e k =
          set_ (stored_tag old tagp) b (fsasync (stored_tag old tagp) fn arg b) k
            (fsasync-Asyncs (stored_tag old tagp) fn arg b)
      step Outcome.exited e k = halts Halt.exited tt
      step (Outcome.starved b) e k = halts (Halt.starved b) tt
      step Outcome.stuck e k = absurd k

-- The window is called back for its tags only, and other callbacks are not added.
abbrev pub Handled : Window → Aux → Ended → Type 0
Handled w a (ended w' a') =
    (w'.id ≡ w.id)
    × (w'.wsys ≡ w.wsys)
    × (w'.surface ≡ w.surface)
    × IsAttached w' a'
    × (a'.fid ≡ a.fid)
    × IsNumTab a'.tag
    × ((v : Callback) (i : ℕ) → v.arg ≢ w.id → Calls a' v i → Calls a v i)
Handled w a (Ended.halted h) = NotStuck h

-- The file that a handler reads next, and how much of it.
abbrev pub next_read : Handler → Window → Option ℕ × ℕ
next_read on_wctl w = (w.wctl, 72)
next_read on_mouse w = (w.mouse, 49)
next_read on_kbd w = (w.kbd, 256)

-- The handler is set for the tag that the window has now; or the reply was an error; or fsread could
-- not send its request.
abbrev pub Armed : (Request → Aux → Sent) → Handler → Reply → Window → Aux → Ended → Type 0
Armed send n r w a (ended w' a') =
    Calls a' (calling (handler_fn n) w.id) (handler_tag n w')
    ⊎ ((r.kind ≡ rerror)
        ⊎ ((tagp : Option ℕ) × (b : Aux) × (fsread send true (fid_number (next_read n w).0) 0
                (next_read n w).1 a
              ≡ failed tagp b)))
Armed send n r w a (Ended.halted h) = Unit

-- The handler of one of the three tags, t, which is cleared.
pub clear_keeps :
    (t : ℕ) (a : Aux)
    → IsNumTab a.tag
    → ((clear_callback t a).fid ≡ a.fid) × IsNumTab (clear_callback t a).tag
clear_keeps t a h = elim (Bool-cases (ltb t (length a.cb))) [
  | inl e ↦ rw e (refl, h)
  | inr e ↦ rw e (refl, h)
]

asked_others :
    (w fn t s : ℕ) (a b : Aux)
    → Asks w fn t (clear_callback s a) b
    → (v : Callback) (i : ℕ) → v.arg ≢ w
    → Calls b v i
    → Calls a v i
asked_others w fn t s a b k v i ne u = elim (k.calls v i u) [
  | inl u' ↦ (cleared-Calls s a v i u').0
  | inr (e, at) ↦ absurd (ne (ap (λ (c : Callback). c.arg) e))
]

module _ (send : Request → Aux → Sent) (law : KeepsTables send) where
  abbrev pub Does : Handler → Reply → Window → Aux → Ended → Type 0
  Does n r w a e = Handled w a e × Armed send n r w (clear_callback r.tag a) e

  -- What `set t` makes of the window for the new tag t.
  next_lem :
      (n : Handler) (r : Reply) (w : Window) (a : Aux) (set_ : ℕ → Window)
      → ((t : ℕ) → handler_tag n (set_ t) ≡ t)
      → ((t : ℕ) → ((set_ t).id ≡ w.id) × ((set_ t).wsys ≡ w.wsys) × ((set_ t).surface ≡ w.surface))
      → ((t : ℕ) (b : Aux)
          → Asks w.id (handler_fn n) t (clear_callback r.tag a) b
          → IsAttached (set_ t) b)
      → IsNumTab a.tag
      → Does n r w a (
          ask_next send Ended.halted
            (handler_fn n)
            w.id
            (next_read n w).0
            (next_read n w).1
            0xffff
            (clear_callback r.tag a)
            (λ tagp b. ended (set_ (stored_tag 0xffff tagp)) b)
            (λ t b. ended (set_ t) b))
  next_lem n r w a set_ tag same attached h =
      ask_next_lem send law Ended.halted (Does n r w a) (λ h' k. (k, tt)) (handler_fn n) w.id
        (next_read n w).0 (next_read n w).1 0xffff (clear_callback r.tag a)
        (λ tagp b. ended (set_ (stored_tag 0xffff tagp)) b) (λ t b. ended (set_ t) b)
        (clear_keeps r.tag a h).1
        (λ tagp b k e. (
          asked (stored_tag 0xffff tagp) b
              (Kept-Asks w.id (handler_fn n) (stored_tag 0xffff tagp) (clear_callback r.tag a) b k),
          inr (inr (tagp, b, e)),
        ))
        (λ t b k new.
          (asked t b k, inl (subst (Calls b (calling (handler_fn n) w.id)) (sym (tag t)) new)))
    where
      asked :
          (t : ℕ) (b : Aux)
          → Asks w.id (handler_fn n) t (clear_callback r.tag a) b
          → Handled w a (ended (set_ t) b)
      asked t b k = (
        (same t).0,
        (same t).1,
        (same t).2,
        attached t b k,
        k.table ∙ (clear_keeps r.tag a h).0,
        k.tags,
        asked_others w.id (handler_fn n) t r.tag a b k,
      )

  pub mouseread_lem :
      (r : Reply) (w : Window) (a : Aux)
      → IsNumTab a.tag
      → IsAttached w a
      → r.tag ≡ w.mousetag
      → Does on_mouse r w a (mouseread_next send r w (clear_callback r.tag a))
  unfolding mouseread_next
  mouseread_lem r w a h at here = elim (Bool-cases (r.kind == rerror)) [
    | inl bad ↦ rw bad (
      (
        refl,
        refl,
        refl,
        attached 0xffff (clear_callback r.tag a) (
            Kept-Asks w.id mouseread_fn 0xffff _ _
              (Kept-refl (clear_callback r.tag a) (clear_keeps r.tag a h).1)),
        (clear_keeps r.tag a h).0,
        (clear_keeps r.tag a h).1,
        λ v i ne u. (cleared-Calls r.tag a v i u).0,
      ),
      inr (inl (ground (arith, bad))),
    )
    | inr ok ↦ rw ok (
        next_lem on_mouse r w a (λ t. record w { mousetag = t }) (λ t. refl)
          (λ t. (refl, refl, refl)) attached h)
  ]
    where
      attached :
          (t : ℕ) (b : Aux)
          → Asks w.id mouseread_fn t (clear_callback r.tag a) b
          → IsAttached (record w { mousetag = t }) b
      attached t b k c i own u = elim (k.calls c i u) [
        | inr (e, new) ↦ inr (inl (ap (λ (cb : Callback). cb.fn) e, new))
        | inl u' ↦
            let (old, ne) = cleared-Calls r.tag a c i u' in
            elim (at c i own old) [
              | inl e ↦ inl e
              | inr e ↦ elim e [ inl e' ↦ absurd (ne (e'.1 ∙ sym here)) | inr e' ↦ inr (inr e') ]
            ]
      ]

  pub kbdread_lem :
      (r : Reply) (w : Window) (a : Aux)
      → IsNumTab a.tag
      → IsAttached w a
      → r.tag ≡ w.kbdtag
      → Does on_kbd r w a (kbdread_next send r w (clear_callback r.tag a))
  unfolding kbdread_next
  kbdread_lem r w a h at here = elim (Bool-cases (r.kind == rerror)) [
    | inl bad ↦ rw bad (
      (
        refl,
        refl,
        refl,
        attached 0xffff (clear_callback r.tag a) (
            Kept-Asks w.id kbdread_fn 0xffff _ _
              (Kept-refl (clear_callback r.tag a) (clear_keeps r.tag a h).1)),
        (clear_keeps r.tag a h).0,
        (clear_keeps r.tag a h).1,
        λ v i ne u. (cleared-Calls r.tag a v i u).0,
      ),
      inr (inl (ground (arith, bad))),
    )
    | inr ok ↦ rw ok (
        next_lem on_kbd r w a (λ t. record w { kbdtag = t }) (λ t. refl) (λ t. (refl, refl, refl))
          attached h)
  ]
    where
      attached :
          (t : ℕ) (b : Aux)
          → Asks w.id kbdread_fn t (clear_callback r.tag a) b
          → IsAttached (record w { kbdtag = t }) b
      attached t b k c i own u = elim (k.calls c i u) [
        | inr (e, new) ↦ inr (inr (ap (λ (cb : Callback). cb.fn) e, new))
        | inl u' ↦
            let (old, ne) = cleared-Calls r.tag a c i u' in
            elim (at c i own old) [
              | inl e ↦ inl e
              | inr e ↦ elim e [ inl e' ↦ inr (inl e') | inr e' ↦ absurd (ne (e'.1 ∙ sym here)) ]
            ]
      ]
