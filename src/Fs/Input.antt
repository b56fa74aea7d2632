-- ===== src/Fs/Input.antt =====
-- `read9p` of fs.c. The bytes from rpos to rend are `held`. What the next calls of read answer is
-- `answers`; `received` are the bytes they gave so far, and `asked` the sizes they were asked for.
pub mod Order
use wl.Prelude.{
  ℕ, ◌+◌, ◌-◌, Bool, true, false, ◌||◌, List, [], ◌∷◌, ◌++◌, length, take, drop, ltb, ◌==◌,
  if◌then◌else◌,
}
use wl.Fs.Output.{bufsize}

-- Bytes (no byte is the end of the file), EAGAIN, or another error.
pub data Answer : Type 0 where
  gave : List ℕ → Answer
  again broken : Answer

pub record Input : Type 0 where
  pub rpos : ℕ
  pub held : List ℕ
  pub ready : Bool
  pub received : List ℕ
  pub asked : List ℕ
  pub answers : List Answer

-- The bytes, NULL with `*err`, the failed assertion, or no further answer.
pub data Result : Type 0 where
  bytes : List ℕ → Input → Result
  null : Bool → Input → Result
  crashed : Result
  starved : Input → Result

abbrev pub rend : Input → ℕ
rend i = i.rpos + length i.held

-- memmove to the start of the buffer.
abbrev compact : ℕ → Input → Input
compact size i =
    if length i.held == 0 || ltb (bufsize - i.rpos) size then record i { rpos = 0 } else i

-- `buf = rpos; rpos += size; return buf`
abbrev pub hand_over : ℕ → Input → Result
hand_over size i =
    bytes (take size i.held) (record i { rpos = i.rpos + size; held = drop size i.held })

abbrev pub ask : Input → List Answer → Input
ask i answers = record i { asked = (bufsize - rend i) ∷ i.asked; answers = answers }

-- read stores at most as many bytes as it was asked for.
abbrev pub store : Input → List ℕ → Input
store i new =
    let stored = take (bufsize - rend i) new in
    record i { held = i.held ++ stored; received = i.received ++ stored }

abbrev pub not_ready : Input → Input
not_ready i = record i { ready = false }

-- The loop.
unfoldable pub read_loop : ℕ → List Answer → Input → Result
read_loop size [] i =
    if ltb (length i.held) size
    then starved (record i { answers = [] })
    else hand_over size (record i { answers = [] })
read_loop size (gave [] ∷ answers) i =
    if ltb (length i.held) size
    then null true (not_ready (ask i answers))
    else hand_over size (record i { answers = gave [] ∷ answers })
read_loop size (gave (b ∷ new) ∷ answers) i =
    let next = read_loop size answers (store (ask i answers) (b ∷ new)) in
    if ltb (length i.held) size
    then next
    else hand_over size (record i { answers = gave (b ∷ new) ∷ answers })
read_loop size (again ∷ answers) i =
    if ltb (length i.held) size
    then null false (not_ready (ask i answers))
    else hand_over size (record i { answers = again ∷ answers })
read_loop size (broken ∷ answers) i =
    if ltb (length i.held) size
    then null true (not_ready (ask i answers))
    else hand_over size (record i { answers = broken ∷ answers })

unfoldable pub read9p : ℕ → Input → Result
read9p size i = if ltb bufsize size then crashed else read_loop size i.answers (compact size i)
