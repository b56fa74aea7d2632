-- ===== src/Windows/Served.antt =====
-- A simple 9P library, which takes a tag for each request and leaves all else alone, and a connection
-- with the replies that come, for the runs of the code.
use wl.Prelude.{
  ℕ, ◌%◌, ◌^◌, ◌≢◌, refl, inl, inr, true, List, [], ◌∷◌, arith, Bool-cases, ltb, length,
  if◌then◌else◌,
}
use wl.Fs.State.{Event, replied, Aux, rread, Request, Sent, sent, unsent}
use wl.Fs.Tags.{Tagged, tagged, refused, newtag}
use wl.Fs.Tags.Fresh.{NewTag, newtag-NewTag}
use wl.Windows.Kept.{Kept-refl, KeptSent, KeepsTables}
use wl.Windows.Gone.{SendsFlush}

-- Shifts as on x86-64.
abbrev pub shift_mod : ℕ → ℕ
shift_mod n = 2 ^ (n % 64)

abbrev pub on_tagged : Aux → Tagged → Sent
on_tagged a (tagged t a') = sent t a'
on_tagged a (refused a') = sent 0 a
on_tagged a Tagged.stuck = sent 0 a

-- A request that takes a tag, with room for all.
abbrev pub send_tagged : Request → Aux → Sent
send_tagged q a =
    if ltb (length a.tag.ent) 1024 then on_tagged a (newtag shift_mod true true a) else sent 0 a

pub send_tagged-KeepsTables : KeepsTables send_tagged
send_tagged-KeepsTables q a h = elim (Bool-cases (ltb (length a.tag.ent) 1024)) [
  | inl few ↦ rw few (
      step (newtag shift_mod true true a)
        (newtag-NewTag shift_mod true true a (λ n h'. refl) h (ground (arith, few))))
  | inr many ↦ rw many (Kept-refl a h)
]
  where
    step : (t : Tagged) → NewTag true true a t → KeptSent a (on_tagged a t)
    step (tagged t a') k = record { fid = k.fid; callbacks = k.callbacks; tags = k.number.valid }
    step (refused a') k = Kept-refl a h
    step Tagged.stuck k = absurd k

pub send_tagged-SendsFlush : SendsFlush send_tagged
send_tagged-SendsFlush t a b = elim (Bool-cases (ltb (length a.tag.ent) 1024)) [
  | inl few ↦ rw few (step (newtag shift_mod true true a))
  | inr many ↦ rw many (λ e. ground (arith, e))
]
  where
    step : (t : Tagged) → on_tagged a t ≢ unsent b
    step (tagged t a') e = ground (arith, e)
    step (refused a') e = ground (arith, e)
    step Tagged.stuck e = ground (arith, e)

abbrev pub reply : ℕ → ℕ → Event
reply kind tag = replied [] true (record { kind = kind; tag = tag; text = []; content = [] })

abbrev pub said : ℕ → List ℕ → Event
said tag content =
    replied [] true (record { kind = rread; tag = tag; text = []; content = content })

-- A connection on which tag 0 is not in use and neither is any file number above 1.
abbrev pub connection : List Event → Aux
connection events = record {
  out = record { wpos = 0; pending = []; sent = []; answers = [] };
  tag = record { ent = [] };
  fid = record { ent = 0xfffffffffffffffc ∷ [] };
  queue = [];
  ready = true;
  cb = [];
  err = [];
  events = events;
}
