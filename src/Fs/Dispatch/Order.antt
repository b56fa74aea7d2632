-- ===== src/Fs/Dispatch/Order.antt =====
-- What `fsdispatch` and `fsflush` leave.
use wl.Prelude.{
  ℕ, zero, suc, ◌+◌, ◌<◌, ◌≤◌, ◌≡◌, refl, sym, ap, subst, ◌∙◌, ◌⊎◌, inl, inr, Bool, true, false,
  Option, none, some, List, [], ◌∷◌, ◌++◌, ◌≢◌, All, map, length, ltb, if◌then◌else◌, set, arith,
  Bool-cases, Option-cases,
}
use wl.Prelude
use mathlib.Core.List.{append-nil, append_assoc}
use wl.Util.NumTab.Numbers.{IsTaken, IsNumTab}
use wl.Fs.Output.{Output, Pushed, pushed, write9p}
use wl.Fs.State.{
  Reply, Callback, no_callback, Aux, freetag, rflush, Request, tflush, Sent, sent, unsent,
}
use wl.Fs.Wait.{Waited, answer, refused, unqueue, fswait}
use wl.Fs.Wait.Search.{Split, Splits, unqueue-Splits}
use wl.Fs.Wait.Queue.{Takes}
use wl.Fs.Wait.Freed.{put_lem}
use wl.Fs.Wait.Answer.{Waits, fswait-Waits}
use wl.Fs.Tags.Fresh.{callback_of}
use wl.Fs.Dispatch.{
  Dispatched, dispatched, exited, starved, out_of_fuel, clear_callback, callback_at, called,
  finish_dispatch, run_callback, turn, dispatch_loop, fsdispatch, Flushed, flushed, unflushed,
  drop_reply, forget, fsflush,
}

cleared :
    (cb : List Callback) (t : ℕ) (c : Callback)
    → c.fn ≡ none
    → t < length cb
    → (Prelude.get_or (set cb t c) t no_callback).fn ≡ none
cleared [] t c e h = absurd (omega arith)
cleared (c' ∷ cb) zero c e h = e
cleared (c' ∷ cb) (suc t) c e h = cleared cb t c e (omega arith)

beyond :
    (cb : List Callback) (t : ℕ)
    → ltb t (length cb) ≡ false
    → (Prelude.get_or cb t no_callback).fn ≡ none
beyond [] t h = refl
beyond (c ∷ cb) zero h = absurd (ground (arith, h))
beyond (c ∷ cb) (suc t) h = beyond cb t (ground (arith, h))

pub set_at :
    (cb : List Callback) (t i : ℕ) (c : Callback)
    → i ≢ t
    → Prelude.get_or (set cb t c) i no_callback ≡ Prelude.get_or cb i no_callback
set_at [] t i c ne = refl
set_at (d ∷ cb) zero zero c ne = absurd (ne refl)
set_at (d ∷ cb) zero (suc i) c ne = refl
set_at (d ∷ cb) (suc t) zero c ne = refl
set_at (d ∷ cb) (suc t) (suc i) c ne = set_at cb t i c (λ e. ne (ap suc e))

none_beyond :
    (cb : List Callback) (t : ℕ)
    → ltb t (length cb) ≡ false
    → no_callback ≡ Prelude.get_or cb t no_callback
none_beyond [] t h = refl
none_beyond (c ∷ cb) zero h = absurd (ground (arith, h))
none_beyond (c ∷ cb) (suc t) h = none_beyond cb t (ground (arith, h))

callback_at_lem : (t : ℕ) (a : Aux) → callback_at t a ≡ callback_of a t
callback_at_lem t a = elim (Bool-cases (ltb t (length a.cb))) [
  | inl e ↦ rw e refl
  | inr e ↦ rw e (none_beyond a.cb t e)
]

-- Of all the connection has, the callback of the tag alone is another: it is NULL.
pub record Cleared (t : ℕ) (a b : Aux) : Type 0 where
  pub same : b ≡ record a { cb = b.cb }
  pub here : (callback_of b t).fn ≡ none
  pub others : (i : ℕ) → i ≢ t → callback_of b i ≡ callback_of a i

clear-Cleared : (t : ℕ) (a : Aux) → Cleared t a (clear_callback t a)
clear-Cleared t a = elim (Bool-cases (ltb t (length a.cb))) [
  | inl e ↦ rw e (record {
    same = refl;
    here = cleared a.cb t _ refl (ground (arith, e));
    others = λ i ne. set_at a.cb t i _ ne;
  })
  | inr e ↦ rw e (record { same = refl; here = beyond a.cb t e; others = λ i ne. refl })
]

-- A turn for a reply r that is taken from the queue: the callback of its tag is cleared, and then
-- called with its argument, where there is one, and the tag is given back.
pub data Turns (call : ℕ → ℕ → Reply → Aux → Aux) (r : Reply) (a : Aux)
    : Option Callback → Aux → Type 0 where
  unanswered :
      (b : Aux)
      → Cleared r.tag a b
      → (callback_of a r.tag).fn ≡ none
      → Turns call r a none (freetag r.tag b)
  called_back :
      (fn arg : ℕ) (b : Aux)
      → Cleared r.tag a b
      → callback_of a r.tag ≡ record { fn = some fn; arg = arg }
      → Turns call r a (some (record { fn = some fn; arg = arg })) (freetag r.tag (call fn arg r b))

-- The replies that are dispatched, each the first of the queue in its turn, with the callbacks that
-- are called for them, until the queue is empty.
pub data Runs (call : ℕ → ℕ → Reply → Aux → Aux)
    : Aux → List (Reply × Option Callback) → Aux → Type 0 where
  emptied : (a : Aux) → a.queue ≡ [] → Runs call a [] a
  next :
      (a b end_ : Aux) (r : Reply) (rest : List Reply) (c : Option Callback)
      (log : List (Reply × Option Callback))
      → a.queue ≡ r ∷ rest
      → Turns call r (record a { queue = rest }) c b
      → Runs call b log end_
      → Runs call a ((r, c) ∷ log) end_

-- The whole queue is dispatched, with what is queued meanwhile, and then the output is written.
abbrev pub Dispatches :
    (ℕ → ℕ → Reply → Aux → Aux) → List (Reply × Option Callback) → Aux → Dispatched → Type 0
Dispatches call before a (dispatched log a') =
    (more : List (Reply × Option Callback)) × (end_ : Aux) × (o : Output) × (log ≡ before ++ more)
    × Runs call a more end_
    × (write9p false end_.out ≡ pushed o)
    × (a' ≡ record end_ { out = o })
    × (a'.queue ≡ [])
Dispatches call before a exited =
    (more : List (Reply × Option Callback)) × (end_ : Aux) × Runs call a more end_
    × (write9p false end_.out ≡ Pushed.exited)
Dispatches call before a (starved a') =
    (more : List (Reply × Option Callback)) × (end_ : Aux) × (o : Output) × Runs call a more end_
    × (write9p false end_.out ≡ Pushed.starved o)
    × (a' ≡ record end_ { out = o })
Dispatches call before a out_of_fuel = ⊥

-- The replies that are queued, and the events that may bring more.
abbrev pub waiting : Aux → ℕ
waiting a = length a.queue + length a.events

-- A callback may wait for replies, and queues no more of others than it hears events.
abbrev pub Hears : (ℕ → ℕ → Reply → Aux → Aux) → Type 0
Hears call = (fn arg : ℕ) (r : Reply) (a : Aux) → waiting (call fn arg r a) ≤ waiting a

module _ (call : ℕ → ℕ → Reply → Aux → Aux) where
  finish-Dispatches :
      (log : List (Reply × Option Callback)) (a : Aux)
      → a.queue ≡ []
      → Dispatches call log a (finish_dispatch log a)
  finish-Dispatches log a e = step (write9p false a.out) refl
    where
      step :
          (p : Pushed)
          → write9p false a.out ≡ p
          → Dispatches call log a (elim p [
            | pushed o ↦ dispatched log (record a { out = o })
            | Pushed.exited ↦ Dispatched.exited
            | Pushed.starved o ↦ Dispatched.starved (record a { out = o })
          ])
      step (pushed o) w = ([], a, o, sym (append-nil log), emptied a e, w, refl, e)
      step Pushed.exited w = ([], a, emptied a e, w)
      step (Pushed.starved o) w = ([], a, o, emptied a e, w, refl)

  turn-Turns : (r : Reply) (a : Aux) → Turns call r a (called (callback_at r.tag a)) (turn call r a)
  turn-Turns r a =
      step (callback_at r.tag a).fn (callback_at r.tag a).arg (sym (callback_at_lem r.tag a))
    where
      step :
          (f : Option ℕ) (g : ℕ)
          → callback_of a r.tag ≡ record { fn = f; arg = g }
          → Turns call r a (called (record { fn = f; arg = g })) (
              freetag r.tag
                (run_callback call (record { fn = f; arg = g }) r (clear_callback r.tag a)))
      step none g e =
          unanswered (clear_callback r.tag a) (clear-Cleared r.tag a)
            (ap (λ (c : Callback). c.fn) e)
      step (some fn) g e = called_back fn g (clear_callback r.tag a) (clear-Cleared r.tag a) e

  -- A dispatch of one more reply, before the others.
  first_turn :
      (log : List (Reply × Option Callback)) (a b : Aux) (r : Reply) (rest : List Reply)
      (c : Option Callback) (d : Dispatched)
      → a.queue ≡ r ∷ rest
      → Turns call r (record a { queue = rest }) c b
      → Dispatches call (log ++ (r, c) ∷ []) b d
      → Dispatches call log a d
  first_turn log a b r rest c (dispatched log' a') e t (more, end_, o, l, k, w, at, empty) = (
    (r, c) ∷ more,
    end_,
    o,
    l ∙ append_assoc log ((r, c) ∷ []) more,
    next a b end_ r rest c more e t k,
    w,
    at,
    empty,
  )
  first_turn log a b r rest c exited e t (more, end_, k, w) =
      ((r, c) ∷ more, end_, next a b end_ r rest c more e t k, w)
  first_turn log a b r rest c (starved a') e t (more, end_, o, k, w, at) =
      ((r, c) ∷ more, end_, o, next a b end_ r rest c more e t k, w, at)
  first_turn log a b r rest c out_of_fuel e t k = k

  module _ (law : Hears call) where
    waiting-run_callback :
        (c : Callback) (r : Reply) (a : Aux) → waiting (run_callback call c r a) ≤ waiting a
    waiting-run_callback c r a = step c.fn c.arg
      where
        step :
            (f : Option ℕ) (g : ℕ)
            → waiting (run_callback call (record { fn = f; arg = g }) r a) ≤ waiting a
        step none g = omega arith
        step (some fn) g = law fn g r a

    waiting-clear_callback : (t : ℕ) (a : Aux) → waiting (clear_callback t a) ≡ waiting a
    waiting-clear_callback t a = elim (Bool-cases (ltb t (length a.cb))) [
      | inl e ↦ rw e refl
      | inr e ↦ rw e refl
    ]

    waiting-turn : (r : Reply) (a : Aux) → waiting (turn call r a) ≤ waiting a
    waiting-turn r a = omega (
      arith,
      waiting-run_callback (callback_at r.tag a) r (clear_callback r.tag a),
      waiting-clear_callback r.tag a,
    )

    dispatch_loop-Dispatches :
        (fuel : ℕ) (log : List (Reply × Option Callback)) (a : Aux)
        → waiting a ≤ fuel
        → Dispatches call log a (dispatch_loop call fuel log a)
    unfolding dispatch_loop
    dispatch_loop-Dispatches zero log a h = step a.queue refl
      where
        step :
            (queue : List Reply)
            → a.queue ≡ queue
            → Dispatches call log a
                (elim queue [ [] ↦ finish_dispatch log a | r ∷ rest ↦ out_of_fuel ])
        step [] e = finish-Dispatches log a e
        step (r ∷ rest) e = absurd (omega (arith, h, ap length e))
    dispatch_loop-Dispatches (suc fuel) log a h =
        step (λ log' b h'. dispatch_loop-Dispatches fuel log' b h') a.queue refl
      where
        step :
            ((log' : List (Reply × Option Callback)) (b : Aux)
              → waiting b ≤ fuel
              → Dispatches call log' b (dispatch_loop call fuel log' b))
            → (queue : List Reply) → a.queue ≡ queue
            → Dispatches call log a (elim queue [
              | [] ↦ finish_dispatch log a
              | r ∷ rest ↦
                  dispatch_loop call fuel
                    (log ++ (r, called (callback_at r.tag a)) ∷ [])
                    (turn call r (record a { queue = rest }))
            ])
        step more [] e = finish-Dispatches log a e
        step more (r ∷ rest) e =
            let b = turn call r (record a { queue = rest }) in
            first_turn log a b r rest (called (callback_at r.tag a)) _ e
              (turn-Turns r (record a { queue = rest }))
              (more _ b (omega (arith, h, ap length e, waiting-turn r (record a { queue = rest }))))

    -- Where the callbacks queue at most as many replies as they hear events while they wait for
    -- others, and there is fuel for every reply that is queued and every event: `fsdispatch`
    -- takes the first of the queue, again and again until none is left, those that are queued
    -- meanwhile too; it clears the callback of the reply's tag, calls it with its argument and
    -- the reply, where it is not NULL, gives the tag back, and at the end writes what is to be
    -- written.
    pub fsdispatch-Dispatches :
        (fuel : ℕ) (a : Aux) → waiting a ≤ fuel → Dispatches call [] a (fsdispatch call fuel a)
    unfolding fsdispatch
    fsdispatch-Dispatches fuel a h = dispatch_loop-Dispatches fuel [] a h

-- The first reply with the tag is no longer in the queue; or none had the tag.
abbrev pub Drops : ℕ → List Reply → List Reply → Type 0
Drops t queue queue' =
    ((r : Reply) × Split t queue r queue')
    ⊎ (All (λ (q : Reply). q.tag ≢ t) queue × (queue' ≡ queue))

-- Where `fsflush` returns 0, the tag is free and its callback is NULL, and of the queue that the
-- wait for the Rflush left, the first reply with the tag is dropped.
abbrev pub Forgets : (Request → Aux → Sent) → ℕ → Aux → Flushed → Type 0
Forgets send t a (flushed a') =
    IsNumTab a'.tag
    × (¬ IsTaken a'.tag t)
    × ((callback_of a' t).fn ≡ none)
    × ((u : ℕ) × (b : Aux) × (r : Reply) × (c : Aux) × (send (tflush t) a ≡ sent u b)
        × Takes u b r c
        × (r.kind ≡ rflush)
        × Drops t c.queue a'.queue)
Forgets send t a (unflushed a') = IsNumTab a'.tag
Forgets send t a Flushed.exited = Unit
Forgets send t a (Flushed.starved a') = Unit

drop_reply-Drops : (t : ℕ) (queue : List Reply) → Drops t queue (drop_reply t queue)
unfolding drop_reply
drop_reply-Drops t queue = step (unqueue t queue) (unqueue-Splits t queue)
  where
    step :
        (o : Option (Reply × List Reply))
        → Splits t queue o
        → Drops t queue (elim o [ none ↦ queue | some (r, rest) ↦ rest ])
    step none s = inr (s, refl)
    step (some (r, rest)) s = inl (r, s)

forget-queue : (t : ℕ) (a : Aux) → (forget t a).queue ≡ drop_reply t a.queue
forget-queue t a = elim (Bool-cases (ltb t (length a.cb))) [ inl e ↦ rw e refl | inr e ↦ rw e refl ]

forget-Drops : (t : ℕ) (a : Aux) → Drops t a.queue (forget t a).queue
forget-Drops t a = subst (Drops t a.queue) (sym (forget-queue t a)) (drop_reply-Drops t a.queue)

forget_lem :
    (t : ℕ) (a : Aux)
    → IsNumTab a.tag
    → IsNumTab (forget t a).tag
      × (¬ IsTaken (forget t a).tag t)
      × ((callback_of (forget t a) t).fn ≡ none)
forget_lem t a h = elim (Bool-cases (ltb t (length a.cb))) [
  | inl e ↦
      rw e ((put_lem a.tag t h).0, (put_lem a.tag t h).1, cleared a.cb t _ refl (ground (arith, e)))
  | inr e ↦ rw e ((put_lem a.tag t h).0, (put_lem a.tag t h).1, beyond a.cb t e)
]

abbrev pub SentTags : Sent → Type 0
SentTags (sent t a) = IsNumTab a.tag
SentTags (unsent a) = IsNumTab a.tag

-- A request keeps the table of tags sound.
abbrev pub KeepsTags : (Request → Aux → Sent) → Type 0
KeepsTags send = (q : Request) (a : Aux) → IsNumTab a.tag → SentTags (send q a)

-- For requests that keep the table of tags sound, on a sound one, `fsflush` that returns 0 leaves
-- the tag of the flushed request free and without a callback, and the table sound; it has waited
-- for an Rflush with the tag of its own request, and of the queue which that wait leaves, the first
-- reply with the flushed tag, if there is one, is dropped and nothing else.
pub fsflush-Forgets :
    (send : Request → Aux → Sent) (t : ℕ) (a : Aux)
    → KeepsTags send
    → IsNumTab a.tag
    → Forgets send t a (fsflush send t a)
unfolding fsflush
fsflush-Forgets send t a law h = step (send (tflush t) a) refl (law (tflush t) a h)
  where
    after :
        (t' : ℕ) (a' : Aux) (w : Waited)
        → send (tflush t) a ≡ sent t' a'
        → Waits t' rflush a' w
        → Forgets send t a (elim w [
          | answer r a'' ↦ flushed (forget t a'')
          | refused a'' ↦ Flushed.exited
          | Waited.exited ↦ Flushed.exited
          | Waited.starved a'' ↦ Flushed.starved a''
        ])
    after t' a' (answer r a'') e (k, right, ok, free) =
        let (valid, free', none_) = forget_lem t a'' k.tags in
        (valid, free', none_, (t', a', r, a'', e, k, right, forget-Drops t a''))
    after t' a' (refused a'') e k = tt
    after t' a' Waited.exited e k = tt
    after t' a' (Waited.starved a'') e k = tt

    step :
        (s : Sent)
        → send (tflush t) a ≡ s
        → SentTags s
        → Forgets send t a (elim s [
          | unsent a' ↦ unflushed a'
          | sent t' a' ↦ elim (fswait t' rflush a') [
            | answer r a'' ↦ flushed (forget t a'')
            | refused a'' ↦ Flushed.exited
            | Waited.exited ↦ Flushed.exited
            | Waited.starved a'' ↦ Flushed.starved a''
          ]
        ])
    step (unsent a') e valid = valid
    step (sent t' a') e valid =
        after t' a' (fswait t' rflush a') e (fswait-Waits t' rflush a' valid)
