-- ===== src/Fs/Output/Order.antt =====
-- The bytes that `begin` is given reach the system in order.
use wl.Prelude.{
  ℕ, ◌+◌, ◌-◌, ◌≤◌, ◌≡◌, refl, ap, sym, subst, ◌∙◌, inl, inr, Bool, true, false, List, [], ◌∷◌,
  ◌++◌, length, take, drop, ltb, if◌then◌else◌, arith, take-append-drop, length-drop, length-append,
  Bool-cases,
}
use mathlib.Core.List.{append_assoc, append-nil}
use wl.Fs.Output.{
  Answer, wrote, again, broken, Output, Pushed, pushed, exited, starved, push_loop, write9p,
  bufsize, wend, flushed, Begun, begun, crashed, begin,
}

-- What the system has and what waits for it.
abbrev pub stream : Output → List ℕ
stream o = o.sent ++ o.pending

-- No byte is lost, doubled or moved; after a blocking call no byte waits.
abbrev pub Keeps : Bool → List ℕ → Pushed → Type 0
Keeps block whole (pushed o) =
    (stream o ≡ whole) × (if block then (o.wpos ≡ 0) × (o.pending ≡ []) else Unit)
Keeps block whole exited = Unit
Keeps block whole (starved o) = stream o ≡ whole

push_loop-Keeps :
    (block : Bool) (answers : List Answer) (wpos : ℕ) (pending sent : List ℕ)
    → Keeps block (sent ++ pending) (push_loop block answers wpos pending sent)
unfolding push_loop
push_loop-Keeps true answers wpos [] sent = (refl, (refl, refl))
push_loop-Keeps false answers wpos [] sent = (refl, tt)
push_loop-Keeps block [] wpos (b ∷ pending) sent = refl
push_loop-Keeps block (wrote n ∷ answers) wpos (b ∷ pending) sent =
    subst (λ whole. Keeps block whole (push_loop block (wrote n ∷ answers) wpos (b ∷ pending) sent))
      (moved n sent (b ∷ pending))
      (push_loop-Keeps block answers (wpos + n) (drop n (b ∷ pending))
        (sent ++ take n (b ∷ pending)))
  where
    moved :
        (n : ℕ) (sent pending : List ℕ)
        → (sent ++ take n pending) ++ drop n pending ≡ sent ++ pending
    moved n sent pending =
        append_assoc sent (take n pending) (drop n pending)
        ∙ ap (λ q. sent ++ q) (take-append-drop n pending)
push_loop-Keeps true (again ∷ answers) wpos (b ∷ pending) sent =
    push_loop-Keeps true answers wpos (b ∷ pending) sent
push_loop-Keeps false (again ∷ answers) wpos (b ∷ pending) sent = (refl, tt)
push_loop-Keeps block (broken ∷ answers) wpos (b ∷ pending) sent = tt

-- Whatever write answers, where `write9p` returns or waits, the bytes the system has and those
-- still in the buffer are together those from before, in order; and where a blocking `write9p`
-- returns, none is left in the buffer.
pub write9p-Keeps : (block : Bool) (o : Output) → Keeps block (stream o) (write9p block o)
unfolding write9p
write9p-Keeps block o = push_loop-Keeps block o.answers o.wpos o.pending o.sent

-- The number of bytes that the answers take.
abbrev pub taken : List Answer → ℕ
taken [] = 0
taken (wrote n ∷ answers) = n + taken answers
taken (again ∷ answers) = taken answers
taken (broken ∷ answers) = 0

abbrev IsReturn : Bool → Pushed → Type 0
IsReturn block (pushed o) = Unit
IsReturn block exited = ⊥
IsReturn block (starved o) = ⊥

push_loop-IsReturn :
    (block : Bool) (answers : List Answer) (wpos : ℕ) (pending sent : List ℕ)
    → length pending ≤ taken answers
    → IsReturn block (push_loop block answers wpos pending sent)
unfolding push_loop
push_loop-IsReturn block answers wpos [] sent h = tt
push_loop-IsReturn block [] wpos (b ∷ pending) sent h = absurd (omega arith)
push_loop-IsReturn block (wrote n ∷ answers) wpos (b ∷ pending) sent h =
    push_loop-IsReturn block answers (wpos + n) (drop n (b ∷ pending))
      (sent ++ take n (b ∷ pending)) (omega (arith, length-drop n (b ∷ pending)))
push_loop-IsReturn true (again ∷ answers) wpos (b ∷ pending) sent h =
    push_loop-IsReturn true answers wpos (b ∷ pending) sent h
push_loop-IsReturn false (again ∷ answers) wpos (b ∷ pending) sent h = tt
push_loop-IsReturn block (broken ∷ answers) wpos (b ∷ pending) sent h = absurd (omega arith)

returned : (block : Bool) (r : Pushed) → IsReturn block r → (o : Output) × (r ≡ pushed o)
returned block (pushed o) h = (o, refl)
returned block exited h = absurd h
returned block (starved o) h = absurd h

-- Where the answers before the first error take as many bytes as wait, a blocking `write9p` returns
-- and has handed all of them over, behind those from before.
pub write9p-sends :
    (o : Output)
    → length o.pending ≤ taken o.answers
    → (o' : Output) × (write9p true o ≡ pushed o') × (o'.sent ≡ stream o) × (o'.pending ≡ [])
write9p-sends o h =
    let (o', e) =
      returned true (write9p true o)
        (unfold write9p in push_loop-IsReturn true o.answers o.wpos o.pending o.sent h) in
    let k : Keeps true (stream o) (pushed o') =
      subst (Keeps true (stream o)) e (write9p-Keeps true o) in
    (o', e, sym (append-nil o'.sent) ∙ (ap (λ q. o'.sent ++ q) (sym k.1.1) ∙ k.0), k.1.1)

-- The bytes that wait are within the buffer.
abbrev pub IsOutput : Output → Type 0
IsOutput o = wend o ≤ bufsize

-- The bytes of a message lie at the offset that `begin` returns, within the buffer, behind all
-- bytes from before.
abbrev pub Placed : List ℕ → Output → Begun → Type 0
Placed m o (begun at o') =
    (at + length m ≤ bufsize) × (wend o' ≡ at + length m) × (stream o' ≡ stream o ++ m)
Placed m o exited = Unit
Placed m o crashed = ⊥
Placed m o (starved o') = stream o' ≡ stream o

placed :
    (m : List ℕ) (o o' : Output)
    → stream o' ≡ stream o
    → IsOutput o'
    → length m ≤ bufsize - wend o'
    → Placed m o (begun (wend o') (record o' { pending = o'.pending ++ m }))
placed m o o' same inside room = (
  omega arith,
  omega (arith, length-append o'.pending m),
  sym (append_assoc o'.sent o'.pending m) ∙ ap (λ q. q ++ m) same,
)

emptied-Placed :
    (m : List ℕ) (o : Output) (r : Pushed)
    → length m ≤ bufsize
    → Keeps true (stream o) r
    → Placed m o (flushed m r)
emptied-Placed m o (pushed o') fits (same, (start, none_left)) =
    placed m o o' same (empty start none_left) (omega (arith, empty_wend start none_left))
  where
    empty_wend : o'.wpos ≡ 0 → o'.pending ≡ [] → wend o' ≡ 0
    empty_wend e e' = rw (e, e') refl

    empty : o'.wpos ≡ 0 → o'.pending ≡ [] → IsOutput o'
    empty e e' = omega (arith, empty_wend e e')
emptied-Placed m o exited fits k = tt
emptied-Placed m o (starved o') fits k = k

-- On a buffer whose waiting bytes lie within it, whatever write answers, a message that the
-- buffer can hold is placed behind the bytes that wait, which are first handed over if there is
-- no room; the assertion holds.
pub begin-Placed :
    (m : List ℕ) (o : Output) → IsOutput o → length m ≤ bufsize → Placed m o (begin m o)
unfolding begin
begin-Placed m o inside fits = elim (Bool-cases (ltb (bufsize - wend o) (length m))) [
  | inl full ↦ rw (not_long, full) (emptied-Placed m o (write9p true o) fits (write9p-Keeps true o))
  | inr room ↦ rw (not_long, room) (placed m o o refl inside (ground (arith, room)))
]
  where
    not_long : ltb bufsize (length m) ≡ false
    not_long = ground arith
