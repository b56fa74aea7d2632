-- ===== src/Fs/Input/Order.antt =====
-- `read9p` gives the received bytes in order.
use wl.Prelude.{
  ℕ, ◌+◌, ◌-◌, ◌<◌, ◌≤◌, ◌≡◌, refl, ap, sym, ◌∙◌, inl, inr, Bool, true, false, List, [], ◌∷◌, ◌++◌,
  length, take, drop, ltb, ◌==◌, if◌then◌else◌, arith, take-append-drop, length-drop, length-take,
  length-append, Bool-cases, All, ◌||◌,
}
use mathlib.Core.List.{append_assoc}
use wl.Fs.Output.{bufsize}
use wl.Fs.Input.{
  Answer, gave, again, broken, Input, Result, bytes, null, crashed, starved, rend, compact,
  hand_over, ask, store, not_ready, read_loop, read9p,
}

-- The held bytes are the last of those received, they are within the buffer, and read was never
-- asked for 0 bytes.
pub record IsInput (given : List ℕ) (i : Input) : Type 0 where
  pub inside : rend i ≤ bufsize
  pub order : i.received ≡ given ++ i.held
  pub asks : All (λ n. 0 < n) i.asked

-- `given` are the bytes that were returned by earlier calls.
abbrev pub Reads : ℕ → List ℕ → Result → Type 0
Reads size given (bytes new i) = (length new ≡ size) × IsInput (given ++ new) i
Reads size given (null err i) = (i.ready ≡ false) × IsInput given i
Reads size given crashed = ⊥
Reads size given (starved i) = IsInput given i

hand_over-Reads :
    (size : ℕ) (given : List ℕ) (i : Input)
    → size ≤ length i.held
    → IsInput given i
    → Reads size given (hand_over size i)
hand_over-Reads size given i h g = (
  omega (arith, length-take size i.held),
  record {
    inside = omega (arith, length-drop size i.held, g.inside);
    order =
        g.order
        ∙ (ap (λ q. given ++ q) (sym (take-append-drop size i.held))
            ∙ sym (append_assoc given (take size i.held) (drop size i.held)));
    asks = g.asks;
  },
)

store-IsInput :
    (given : List ℕ) (i : Input) (answers : List Answer) (new : List ℕ)
    → rend i < bufsize
    → IsInput given i
    → IsInput given (store (ask i answers) new)
store-IsInput given i answers new room g =
    let stored = take (bufsize - rend i) new in
    record {
      inside =
          omega (arith, length-append i.held stored, length-take (bufsize - rend i) new, g.inside);
      order = ap (λ q. q ++ stored) g.order ∙ append_assoc given i.held stored;
      asks = (omega arith, g.asks);
    }

ask-IsInput :
    (given : List ℕ) (i : Input) (answers : List Answer)
    → rend i < bufsize
    → IsInput given i
    → IsInput given (not_ready (ask i answers))
ask-IsInput given i answers room g = record {
  inside = g.inside;
  order = g.order;
  asks = (omega arith, g.asks);
}

rest-IsInput :
    (given : List ℕ) (i : Input) (answers : List Answer)
    → IsInput given i
    → IsInput given (record i { answers = answers })
rest-IsInput given i answers g = record { inside = g.inside; order = g.order; asks = g.asks }

branch :
    (size : ℕ) (given : List ℕ) (b : Bool) (x y : Result)
    → ((b ≡ true) → Reads size given x)
    → ((b ≡ false) → Reads size given y)
    → Reads size given (if b then x else y)
branch size given true x y f g = f refl
branch size given false x y f g = g refl

over :
    (size : ℕ) (given : List ℕ) (i : Input) (answers : List Answer)
    → IsInput given i
    → ltb (length i.held) size ≡ false
    → Reads size given (hand_over size (record i { answers = answers }))
over size given i answers g enough =
    hand_over-Reads size given (record i { answers = answers }) (ground arith)
      (rest-IsInput given i answers g)

refused :
    (size : ℕ) (given : List ℕ) (i : Input) (answers : List Answer)
    → i.rpos + size ≤ bufsize
    → IsInput given i
    → ltb (length i.held) size ≡ true
    → IsInput given (not_ready (ask i answers))
refused size given i answers fits g short = ask-IsInput given i answers (ground arith) g

read_loop-Reads :
    (size : ℕ) (given : List ℕ) (answers : List Answer) (i : Input)
    → i.rpos + size ≤ bufsize
    → IsInput given i
    → Reads size given (read_loop size answers i)
unfolding read_loop
read_loop-Reads size given [] i fits g =
    branch size given (ltb (length i.held) size) _ _ (λ short. rest-IsInput given i [] g)
      (over size given i [] g)
read_loop-Reads size given (gave [] ∷ answers) i fits g =
    branch size given (ltb (length i.held) size) _ _
      (λ short. (refl, refused size given i answers fits g short))
      (over size given i (gave [] ∷ answers) g)
read_loop-Reads size given (gave (b ∷ new) ∷ answers) i fits g =
    branch size given (ltb (length i.held) size) _ _
      (λ short.
        read_loop-Reads size given answers (store (ask i answers) (b ∷ new)) fits
          (store-IsInput given i answers (b ∷ new) (ground arith) g))
      (over size given i (gave (b ∷ new) ∷ answers) g)
read_loop-Reads size given (again ∷ answers) i fits g =
    branch size given (ltb (length i.held) size) _ _
      (λ short. (refl, refused size given i answers fits g short))
      (over size given i (again ∷ answers) g)
read_loop-Reads size given (broken ∷ answers) i fits g =
    branch size given (ltb (length i.held) size) _ _
      (λ short. (refl, refused size given i answers fits g short))
      (over size given i (broken ∷ answers) g)

compact-IsInput :
    (size : ℕ) (given : List ℕ) (i : Input)
    → size ≤ bufsize
    → IsInput given i
    → ((compact size i).rpos + size ≤ bufsize) × IsInput given (compact size i)
compact-IsInput size given i small g =
    elim (Bool-cases (length i.held == 0 || ltb (bufsize - i.rpos) size)) [
      | inl moved ↦
          rw moved (
            omega arith,
            record { inside = omega (arith, g.inside); order = g.order; asks = g.asks },
          )
      | inr stays ↦ rw stays (ground (arith, stays, g.inside), g)
    ]

-- On a buffer that holds the last of the bytes received, whatever read answers, `read9p` of a
-- size that the buffer can hold, where it returns, gives exactly `size` bytes, the next of those
-- received, or NULL with `ready` reset and no byte lost; it keeps within the buffer, never asks
-- read for 0 bytes (so that an answer of 0 is the end of the file), and its assertion holds.
pub read9p-Reads :
    (size : ℕ) (given : List ℕ) (i : Input)
    → size ≤ bufsize
    → IsInput given i
    → Reads size given (read9p size i)
unfolding read9p
read9p-Reads size given i small g =
    let (fits, g') = compact-IsInput size given i small g in
    rw not_long (read_loop-Reads size given i.answers (compact size i) fits g')
  where
    not_long : ltb bufsize size ≡ false
    not_long = ground arith
