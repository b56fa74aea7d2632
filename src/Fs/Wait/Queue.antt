-- ===== src/Fs/Wait/Queue.antt =====
-- `fswait` takes the first reply with its tag, and leaves the queue of the others as it is.
use wl.Prelude.{
  ℕ, ◌≡◌, ◌≢◌, refl, ap, sym, subst, ◌∙◌, ◌⊎◌, inl, inr, true, false, Option, none, some, List, [],
  ◌∷◌, ◌++◌, ◌==◌, All, arith, Bool-cases,
}
use mathlib.Core.List.{append_assoc}
use wl.Util.NumTab.Numbers.{IsNumTab}
use wl.Fs.State.{Reply, Event, replied, drained, failed, Aux, freetags}
use wl.Fs.Wait.Freed.{freetags-IsNumTab, freetags-Same}
use wl.Fs.Wait.Search.{Splits, unqueue-Splits}
use wl.Fs.Wait.{Found, found, unqueue, wait_loop, look_for}

-- The replies that the events bring, the last one first.
abbrev pub arrivals : List Event → List Reply
arrivals [] = []
arrivals (replied freed memory r ∷ events) = arrivals events ++ r ∷ []
arrivals (drained poll ∷ events) = arrivals events
arrivals (failed s ∷ events) = arrivals events

-- The reply is from the queue and no event is passed, or it came with the last of the events, and
-- neither the queue nor the replies that came before it had one with the tag.
abbrev pub From : ℕ → Reply → List Event → List Reply → Type 0
From t r heard queue =
    (heard ≡ [])
    ⊎ ((older : List Reply) × (arrivals heard ≡ r ∷ older)
        × All (λ (q : Reply). q.tag ≢ t) (older ++ queue))

-- The events `heard` pass; `r` is the one reply among those that had arrived, of these or before,
-- that is no longer queued, and its tag is the one waited for; none of those queued before it has.
pub record Takes (t : ℕ) (a : Aux) (r : Reply) (a' : Aux) : Type 0 where
  pub heard : List Event
  pub front : List Reply
  pub back : List Reply
  pub events : a.events ≡ heard ++ a'.events
  pub all : arrivals heard ++ a.queue ≡ front ++ r ∷ back
  pub rest : a'.queue ≡ front ++ back
  pub wanted : r.tag ≡ t
  pub first : All (λ (q : Reply). q.tag ≢ t) front
  pub source : From t r heard a.queue
  pub tags : IsNumTab a'.tag
  pub fid : a'.fid ≡ a.fid
  pub cb : a'.cb ≡ a.cb

abbrev pub Finds : ℕ → Aux → Found → Type 0
Finds t a (found r a') = Takes t a r a'
Finds t a Found.exited = Unit
Finds t a (Found.starved a') = Unit

From-same :
    (t : ℕ) (r : Reply) (heard : List Event) (queue queue' : List Reply)
    → queue ≡ queue'
    → From t r heard queue
    → From t r heard queue'
From-same t r heard queue queue' e k = subst (From t r heard) e k

-- A reply with the tag is not among those without it.
absent :
    (t : ℕ) (queue front back : List Reply) (r : Reply)
    → All (λ (q : Reply). q.tag ≢ t) queue
    → queue ≡ front ++ r ∷ back
    → r.tag ≢ t
absent t queue front back r n e = inside front (subst (All (λ (q : Reply). q.tag ≢ t)) e n)
  where
    inside : (front : List Reply) → All (λ (q : Reply). q.tag ≢ t) (front ++ r ∷ back) → r.tag ≢ t
    inside [] m = m.0
    inside (q ∷ front) m = inside front m.1

-- One more reply, r', came before.
From-later :
    (t : ℕ) (r r' : Reply) (freed : List ℕ) (heard : List Event) (queue : List Reply)
    → From t r heard (r' ∷ queue)
    → heard ≢ []
    → From t r (replied freed true r' ∷ heard) queue
From-later t r r' freed heard queue (inl e) k = absurd (k e)
From-later t r r' freed heard queue (inr (older, e, n)) k = inr (
  older ++ r' ∷ [],
  ap (λ q. q ++ r' ∷ []) e,
  subst (All (λ (q : Reply). q.tag ≢ t)) (sym (append_assoc older (r' ∷ []) queue)) n,
)

-- Where none of the queue has the tag, the wait hears some event.
hears :
    (t : ℕ) (a a' : Aux) (r : Reply)
    → All (λ (q : Reply). q.tag ≢ t) a.queue
    → (k : Takes t a r a') → k.heard ≢ []
hears t a a' r n k e =
    absent t a.queue k.front k.back r n (ap (λ es. arrivals es ++ a.queue) (sym e) ∙ k.all) k.wanted

From-drained :
    (t : ℕ) (r : Reply) (heard : List Event) (queue : List Reply)
    → From t r heard queue
    → heard ≢ []
    → From t r (drained true ∷ heard) queue
From-drained t r heard queue (inl e) k = absurd (k e)
From-drained t r heard queue (inr came) k = inr came

-- Only these fields matter.
pub retake :
    (t : ℕ) (a b : Aux) (r : Reply) (a' b' : Aux)
    → b.events ≡ a.events
    → b.queue ≡ a.queue
    → b.fid ≡ a.fid
    → b.cb ≡ a.cb
    → b'.events ≡ a'.events
    → b'.queue ≡ a'.queue
    → b'.fid ≡ a'.fid
    → b'.cb ≡ a'.cb
    → IsNumTab b'.tag
    → Takes t a r a'
    → Takes t b r b'
retake t a b r a' b' ev qu fi ca ev' qu' fi' ca' valid k = record {
  heard = k.heard;
  front = k.front;
  back = k.back;
  events = ev ∙ (k.events ∙ ap (λ es. k.heard ++ es) (sym ev'));
  all = ap (λ q. arrivals k.heard ++ q) qu ∙ k.all;
  rest = qu' ∙ k.rest;
  wanted = k.wanted;
  first = k.first;
  source = From-same t r k.heard a.queue b.queue (sym qu) k.source;
  tags = valid;
  fid = fi' ∙ (k.fid ∙ sym fi);
  cb = ca' ∙ (k.cb ∙ sym ca);
}

wait_loop-Finds :
    (t : ℕ) (events : List Event) (a : Aux)
    → IsNumTab a.tag
    → All (λ (q : Reply). q.tag ≢ t) a.queue
    → Finds t (record a { events = events }) (wait_loop t events a)
unfolding wait_loop
wait_loop-Finds t [] a h n = tt
wait_loop-Finds t (replied freed false r ∷ events) a h n = tt
wait_loop-Finds t (replied freed true r ∷ events) a h n = elim (Bool-cases (r.tag == t)) [
  | inl e ↦ rw e (arrived (ground (arith, e)))
  | inr e ↦
      let none_ = without (ground (arith, e)) in
      rw e (later none_ (wait_loop t events next) (wait_loop-Finds t events next valid none_))
]
  where
    next : Aux
    next = record (freetags freed a) { queue = r ∷ (freetags freed a).queue }

    valid : IsNumTab next.tag
    valid = freetags-IsNumTab freed a h

    without : r.tag ≢ t → All (λ (q : Reply). q.tag ≢ t) next.queue
    without ne = (ne, subst (All (λ (q : Reply). q.tag ≢ t)) (sym (freetags-Same freed a).queue) n)

    arrived :
        r.tag ≡ t
        → Takes t
            (record a { events = replied freed true r ∷ events })
            r
            (record (freetags freed a) { events = events })
    arrived e = record {
      heard = replied freed true r ∷ [];
      front = [];
      back = a.queue;
      events = refl;
      all = refl;
      rest = (freetags-Same freed a).queue;
      wanted = e;
      first = tt;
      source = inr ([], refl, n);
      tags = valid;
      fid = (freetags-Same freed a).fid;
      cb = (freetags-Same freed a).cb;
    }

    later :
        All (λ (q : Reply). q.tag ≢ t) next.queue
        → (f : Found) → Finds t (record next { events = events }) f
        → Finds t (record a { events = replied freed true r ∷ events }) f
    later none_ (found r' a') k = record {
      heard = replied freed true r ∷ k.heard;
      front = k.front;
      back = k.back;
      events = ap (λ q. replied freed true r ∷ q) k.events;
      all =
          append_assoc (arrivals k.heard) (r ∷ []) a.queue
          ∙ (ap (λ q. arrivals k.heard ++ r ∷ q) (sym (freetags-Same freed a).queue) ∙ k.all);
      rest = k.rest;
      wanted = k.wanted;
      first = k.first;
      source =
          From-later t r' r freed k.heard a.queue
            (subst (λ q. From t r' k.heard (r ∷ q)) (freetags-Same freed a).queue k.source)
            (hears t (record next { events = events }) a' r' none_ k);
      tags = k.tags;
      fid = k.fid ∙ (freetags-Same freed a).fid;
      cb = k.cb ∙ (freetags-Same freed a).cb;
    }
    later none_ Found.exited k = tt
    later none_ (Found.starved a') k = tt
wait_loop-Finds t (drained false ∷ events) a h n = tt
wait_loop-Finds t (drained true ∷ events) a h n =
    later (wait_loop t events next) (wait_loop-Finds t events next h n)
  where
    next : Aux
    next = record a { ready = true }

    later :
        (f : Found)
        → Finds t (record next { events = events }) f
        → Finds t (record a { events = drained true ∷ events }) f
    later (found r' a') k = record {
      heard = drained true ∷ k.heard;
      front = k.front;
      back = k.back;
      events = ap (λ q. drained true ∷ q) k.events;
      all = k.all;
      rest = k.rest;
      wanted = k.wanted;
      first = k.first;
      source =
          From-drained t r' k.heard a.queue k.source
            (hears t (record next { events = events }) a' r' n k);
      tags = k.tags;
      fid = k.fid;
      cb = k.cb;
    }
    later Found.exited k = tt
    later (Found.starved a') k = tt
wait_loop-Finds t (failed s ∷ events) a h n = tt

pub look_for-Finds : (t : ℕ) (a : Aux) → IsNumTab a.tag → Finds t a (look_for t a)
unfolding look_for
look_for-Finds t a h = step (unqueue t a.queue) (unqueue-Splits t a.queue)
  where
    moved :
        (f : Found)
        → Finds t (record (record a { ready = true }) { events = a.events }) f
        → Finds t a f
    moved (found r a') k =
        retake t (record a { ready = true }) a r a' a' refl refl refl refl refl refl refl refl
          k.tags k
    moved Found.exited k = tt
    moved (Found.starved a') k = tt

    step :
        (o : Option (Reply × List Reply))
        → Splits t a.queue o
        → Finds t a (elim o [
          | some (r, rest) ↦ found r (record a { queue = rest })
          | none ↦ wait_loop t a.events (record a { ready = true })
        ])
    step none s =
        moved (wait_loop t a.events (record a { ready = true }))
          (wait_loop-Finds t a.events (record a { ready = true }) h s)
    step (some (r, rest)) s = record {
      heard = [];
      front = s.front;
      back = s.back;
      events = refl;
      all = s.all;
      rest = s.left;
      wanted = s.wanted;
      first = s.first;
      source = inl refl;
      tags = h;
      fid = refl;
      cb = refl;
    }
