-- ===== src/Fs/State.antt =====
-- `struct C9aux` of fs.h and `struct reply`, `struct callback`, the callbacks `r` and `error`, and
-- `freetag` of fs.c. What the c9 library does inside a call of c9proc is an event of `events`.
use wl.Prelude.{
  ℕ, Bool, true, false, Option, none, some, List, [], ◌∷◌, length, take, leb, if◌then◌else◌,
}
use wl.Libc.{codes}
use wl.Util.NumTab.{NumTab, numput}
use wl.Fs.Output.{Output}

-- A C9r: its type, its tag, the text of an Rerror and the data of an Rread.
pub record Reply : Type 0 where
  pub kind : ℕ
  pub tag : ℕ
  pub text : List ℕ
  pub content : List ℕ

-- `fn` is NULL or names a function of the program, `arg` is its aux.
pub record Callback : Type 0 where
  pub fn : Option ℕ
  pub arg : ℕ

abbrev pub no_callback : Callback
no_callback = record { fn = none; arg = 0 }

-- A call of c9proc: it frees tags and hands over a reply, for which there is memory or not; or it
-- finds too little to read, whereupon poll succeeds or not; or it fails.
pub data Event : Type 0 where
  replied : List ℕ → Bool → Reply → Event
  drained : Bool → Event
  failed : List ℕ → Event

pub record Aux : Type 0 where
  pub out : Output
  pub tag : NumTab
  pub fid : NumTab
  pub queue : List Reply
  pub ready : Bool
  pub cb : List Callback
  pub err : List ℕ
  pub events : List Event

-- Rversion, and on.
abbrev pub rversion : ℕ
rversion = 101

abbrev pub rattach : ℕ
rattach = 105

abbrev pub rerror : ℕ
rerror = 107

abbrev pub rflush : ℕ
rflush = 109

abbrev pub rwalk : ℕ
rwalk = 111

abbrev pub ropen : ℕ
ropen = 113

abbrev pub rread : ℕ
rread = 117

abbrev pub rwrite : ℕ
rwrite = 119

abbrev pub rclunk : ℕ
rclunk = 121

-- The result of `numput` is not looked at.
abbrev pub put : NumTab → ℕ → NumTab
put tab num = elim (numput tab num) [ none ↦ tab | some tab' ↦ tab' ]

abbrev pub freetag : ℕ → Aux → Aux
freetag t a = record a { tag = put a.tag t }

abbrev pub freetags : List ℕ → Aux → Aux
freetags [] a = a
freetags (t ∷ ts) a = freetags ts (freetag t a)

-- `r`; `none` is its `exit(1)` without memory.
abbrev pub queue_reply : Bool → Reply → Aux → Option Aux
queue_reply false r a = none
queue_reply true r a = some (record a { queue = r ∷ a.queue })

-- `error`: err has 128 bytes, the last of which is not used.
abbrev pub error : Option (List ℕ) → Aux → Aux
error none a = record a { err = codes "unknown error" }
error (some s) a = record a { err = if leb 127 (length s) then codes "unknown error" else s }

-- `snprintf(err, sizeof err, "%s", s)`
abbrev pub copy_error : List ℕ → Aux → Aux
copy_error s a = record a { err = take 127 s }

-- The requests, for which the c9 library has a function each: c9version, and on.
pub data Request : Type 0 where
  tversion tflush tclunk : ℕ → Request
  tattach : ℕ → List ℕ → Request
  twalk : ℕ → ℕ → List (List ℕ) → Request
  topen : ℕ → ℕ → Request
  tread : ℕ → ℕ → ℕ → Request
  twrite : ℕ → ℕ → List ℕ → Request

-- What such a function does: the tag of the request, or an error.
pub data Sent : Type 0 where
  sent : ℕ → Aux → Sent
  unsent : Aux → Sent
