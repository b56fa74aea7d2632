-- ===== src/Compositor/Snarf.antt =====
-- `snarfput` and `snarfget` of wl9.c: the copies between a client's selection and /dev/snarf.
pub mod Transfer
use wl.Prelude.{
  ℕ, zero, suc, ◌+◌, ◌-◌, ◌%◌, ◌^◌, Bool, true, false, Option, none, some, List, [], ◌∷◌, ◌++◌,
  length, take, drop, ltb, ◌==◌, if◌then◌else◌,
}
use wl.Fs.State.{Reply, rerror}

-- `struct snarfput`, with what was written to /dev/snarf, and at which offsets.
pub record Put : Type 0 where
  pub offset : ℕ
  pub writes : List (ℕ × List ℕ)
  pub open_ : Bool

-- How many bytes are read at once.
unfoldable pub put_len : ℕ → ℕ
put_len msize = if ltb msize 8192 then msize - 24 else 8192

-- `content` is what read gives, nothing at the end or for an error.
unfoldable pub snarfput : ℕ → List ℕ → Put → Put
snarfput msize content put = elim (take (put_len msize) content) [
  | [] ↦ record put { open_ = false }
  | b ∷ bytes ↦ record put {
    offset = (put.offset + length (b ∷ bytes)) % 2 ^ 64;
    writes = put.writes ++ (put.offset, b ∷ bytes) ∷ [];
  }
]

-- `struct snarfget`: the offset, what the client was written, the offsets of the reads asked for,
-- the answers of write (`none` is an error), and whether it still goes on.
pub record Get : Type 0 where
  pub offset : ℕ
  pub written : List ℕ
  pub asked : List ℕ
  pub answers : List (Option ℕ)
  pub open_ : Bool

abbrev pub close : Get → Get
close g = record g { open_ = false }

-- The loop of writes, `false` for an error; write that never answers is an error here.
unfoldable pub write_all : List (Option ℕ) → List ℕ → Get → Bool × Get
write_all answers [] g = (true, record g { answers = answers })
write_all [] (b ∷ pos) g = (false, record g { answers = [] })
write_all (none ∷ answers) (b ∷ pos) g = (false, record g { answers = answers })
write_all (some n ∷ answers) (b ∷ pos) g =
    write_all answers (drop n (b ∷ pos)) (record g { written = g.written ++ take n (b ∷ pos) })

-- The next read, `asks` saying whether `fsread` can send it.
abbrev pub ask_more : Bool → Bool × Get → Get
ask_more asks (ok, g) =
    if ok
    then (if asks then record g { asked = g.asked ++ g.offset ∷ [] } else close g)
    else close g

unfoldable pub snarfget : Bool → Reply → Get → Get
snarfget asks r g = if r.kind == rerror then close g else elim r.content [
  | [] ↦ close g
  | b ∷ pos ↦
      let g' = record g { offset = (g.offset + length (b ∷ pos)) % 2 ^ 64 } in
      ask_more asks (write_all g'.answers (b ∷ pos) g')
]
