-- ===== src/Fs/Tags.antt =====
-- `newtag` and `fsasync` of fs.c.
pub mod Fresh
use wl.Prelude.{
  ℕ, suc, ◌+◌, ◌-◌, ◌%◌, ◌^◌, Bool, true, false, Option, none, some, List, [], ◌∷◌, ◌++◌, length,
  replicate, ltb, leb, if◌then◌else◌, set,
}
use wl.Util.NumTab.{NumTab, Got, got, numget}
use wl.Fs.State.{Callback, no_callback, Aux}

-- The tag; C9Etag; or no end of the loop in `numget`.
pub data Tagged : Type 0 where
  tagged : ℕ → Aux → Tagged
  refused : Aux → Tagged
  stuck : Tagged

-- The callbacks up to a number, those that are new being NULL.
abbrev pub widened : List Callback → ℕ → List Callback
widened cb n = cb ++ replicate (n - length cb) no_callback

abbrev with_callback : Bool → ℕ → Aux → Tagged
with_callback room num a =
    if leb (length a.cb) num
    then if room
      then tagged (num % 2 ^ 16) (record a { cb = widened a.cb (suc num) })
      else refused a
    else tagged (num % 2 ^ 16) a

-- `room_word` and `room_cb` say whether the two calls of realloc find memory.
unfoldable pub newtag : (ℕ → ℕ) → Bool → Bool → Aux → Tagged
newtag wide room_word room_cb a = elim (numget wide room_word a.tag) [
  | got num tab ↦ with_callback room_cb num (record a { tag = tab })
  | Got.failed ↦ refused a
  | Got.stuck ↦ Tagged.stuck
]

-- `none` is the failed assertion.
unfoldable pub fsasync : ℕ → ℕ → ℕ → Aux → Option Aux
fsasync t fn arg a =
    if ltb t (length a.cb)
    then some (record a { cb = set a.cb t (record { fn = some fn; arg = arg }) })
    else none
