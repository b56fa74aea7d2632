-- ===== src/Fs/Output.antt =====
-- `write9p` and `begin` of fs.c. The bytes from wpos to wend are `pending`; what the system has
-- taken is `sent`, and what its next calls of write will answer is `answers`.
pub mod Order
use wl.Prelude.{
  ℕ, ◌+◌, ◌-◌, ◌*◌, Bool, true, false, List, [], ◌∷◌, ◌++◌, length, take, drop, ltb, if◌then◌else◌,
}

-- `wrote n` where n bytes were taken; EAGAIN; another error.
pub data Answer : Type 0 where
  wrote : ℕ → Answer
  again broken : Answer

pub record Output : Type 0 where
  pub wpos : ℕ
  pub pending : List ℕ
  pub sent : List ℕ
  pub answers : List Answer

-- A return, `exit(1)`, or a call that the answers at hand do not bring to an end.
pub data Pushed : Type 0 where
  pushed : Output → Pushed
  exited : Pushed
  starved : Output → Pushed

abbrev pub bufsize : ℕ
bufsize = 32 * 1024

-- The loop, with the answers that are left.
unfoldable pub push_loop : Bool → List Answer → ℕ → List ℕ → List ℕ → Pushed
push_loop block answers wpos [] sent =
    pushed (record { wpos = 0; pending = []; sent = sent; answers = answers })
push_loop block [] wpos (b ∷ pending) sent =
    Pushed.starved (record { wpos = wpos; pending = b ∷ pending; sent = sent; answers = [] })
push_loop block (wrote n ∷ answers) wpos (b ∷ pending) sent =
    push_loop block answers (wpos + n) (drop n (b ∷ pending)) (sent ++ take n (b ∷ pending))
push_loop true (again ∷ answers) wpos (b ∷ pending) sent =
    push_loop true answers wpos (b ∷ pending) sent
push_loop false (again ∷ answers) wpos (b ∷ pending) sent =
    pushed (record { wpos = wpos; pending = b ∷ pending; sent = sent; answers = answers })
push_loop block (broken ∷ answers) wpos (b ∷ pending) sent = Pushed.exited

unfoldable pub write9p : Bool → Output → Pushed
write9p block o = push_loop block o.answers o.wpos o.pending o.sent

-- `begin(size)`, and the bytes that the caller then stores in what it returns; the assertion is
-- `crashed`.
pub data Begun : Type 0 where
  begun : ℕ → Output → Begun
  exited crashed : Begun
  starved : Output → Begun

abbrev append_bytes : List ℕ → Output → Output
append_bytes m o = record o { pending = o.pending ++ m }

-- The offset of wend.
abbrev pub wend : Output → ℕ
wend o = o.wpos + length o.pending

abbrev pub flushed : List ℕ → Pushed → Begun
flushed m (pushed o) = begun (wend o) (append_bytes m o)
flushed m Pushed.exited = Begun.exited
flushed m (Pushed.starved o) = Begun.starved o

unfoldable pub begin : List ℕ → Output → Begun
begin m o =
    if ltb bufsize (length m)
    then crashed
    else if ltb (bufsize - wend o) (length m)
    then flushed m (write9p true o)
    else begun (wend o) (append_bytes m o)
