-- ===== src/Fs/Tags/Fresh.antt =====
-- A new tag is one that is not in use, and has a place for its callback.
use wl.Prelude.{
  ℕ, zero, suc, ◌+◌, ◌-◌, ◌*◌, ◌%◌, ◌^◌, ◌<◌, ◌≤◌, ◌≡◌, refl, ap, sym, subst, ◌∙◌, ◌⊎◌, inl, inr,
  Bool, true, false, Option, none, some, List, [], ◌∷◌, ◌++◌, length, replicate, ltb, leb,
  if◌then◌else◌, set, arith, length-append, length-replicate, Bool-cases, dec_lt,
}
use wl.Prelude
use wl.Util.NumTab.{NumTab, Got, got, numget}
use wl.Util.NumTab.Numbers.{IsNumTab, ShiftsMod64}
use wl.Util.NumTab.Alloc.{Answers, Allocates, numget-Answers}
use wl.Fs.State.{Callback, no_callback, Aux}
use wl.Fs.Tags.{Tagged, tagged, refused, with_callback, newtag}

-- The callback of a tag.
abbrev pub callback_of : Aux → ℕ → Callback
callback_of a t = Prelude.get_or a.cb t no_callback

get_or-widened :
    (cb : List Callback) (n i : ℕ)
    → Prelude.get_or (cb ++ replicate n no_callback) i no_callback ≡ Prelude.get_or cb i no_callback
get_or-widened [] zero i = refl
get_or-widened [] (suc n) zero = refl
get_or-widened [] (suc n) (suc i) = get_or-widened [] n i
get_or-widened (c ∷ cb) n zero = refl
get_or-widened (c ∷ cb) n (suc i) = get_or-widened cb n i

-- The tag is the lowest number that was not in use, it is in use now and has a place for its
-- callback; the callbacks set before are as they were.
pub record IsFresh (a : Aux) (t : ℕ) (a' : Aux) : Type 0 where
  pub number : Allocates a.tag t a'.tag
  pub place : t < length a'.cb
  pub callbacks : (i : ℕ) → callback_of a' i ≡ callback_of a i
  pub queue : a'.queue ≡ a.queue
  pub fid : a'.fid ≡ a.fid

abbrev pub NewTag : Bool → Bool → Aux → Tagged → Type 0
NewTag room_word room_cb a (tagged t a') = IsFresh a t a'
NewTag room_word room_cb a (refused a') =
    ((room_word ≡ false) ⊎ (room_cb ≡ false)) × (a'.cb ≡ a.cb) × (a'.queue ≡ a.queue)
NewTag room_word room_cb a Tagged.stuck = ⊥

with_callback-NewTag :
    (room_word room_cb : Bool) (a : Aux) (num : ℕ) (tab : NumTab)
    → num < 2 ^ 16
    → Allocates a.tag num tab
    → NewTag room_word room_cb a (with_callback room_cb num (record a { tag = tab }))
with_callback-NewTag room_word room_cb a num tab small al =
    elim (Bool-cases (leb (length a.cb) num)) [
      | inl far ↦ elim (Bool-cases room_cb) [
        | inl yes_ ↦
            rw (far, yes_, same)
              (record {
                number = al;
                place = omega (
                  arith,
                  length-append a.cb (replicate (suc num - length a.cb) no_callback),
                  length-replicate (suc num - length a.cb) no_callback,
                );
                callbacks = get_or-widened a.cb (suc num - length a.cb);
                queue = refl;
                fid = refl;
              })
        | inr no_ ↦ rw (far, no_) (inr refl, refl, refl)
      ]
      | inr near ↦
          rw (near, same)
            (record {
              number = al;
              place = ground (arith, near);
              callbacks = λ i. refl;
              queue = refl;
              fid = refl;
            })
    ]
  where
    same : num % 2 ^ 16 ≡ num
    same = omega arith

-- Where `1ul << n` counts n modulo 64 and the table of tags is sound and has fewer than 2^10
-- words, `newtag` returns the lowest tag that is not in use and takes it, and its callback has a
-- place in the array, whose other callbacks are as before; it refuses only without memory. (With
-- more words a tag is cut to 16 bits.)
pub newtag-NewTag :
    (wide : ℕ → ℕ) (room_word room_cb : Bool) (a : Aux)
    → ShiftsMod64 wide
    → IsNumTab a.tag
    → length a.tag.ent < 2 ^ 10
    → NewTag room_word room_cb a (newtag wide room_word room_cb a)
unfolding newtag
newtag-NewTag wide room_word room_cb a law valid few =
    step (numget wide room_word a.tag) (numget-Answers wide law room_word a.tag valid)
  where
    bounded : (num : ℕ) (tab' : NumTab) → Allocates a.tag num tab' → num < 2 ^ 16
    bounded num tab' al = elim (dec_lt (64 * length a.tag.ent) num) [
      | yes past ↦ absurd (omega (arith, (al.least (64 * length a.tag.ent) past).0))
      | no within ↦ omega arith
    ]

    step :
        (g : Got)
        → Answers room_word a.tag g
        → NewTag room_word room_cb a (elim g [
          | got num tab ↦ with_callback room_cb num (record a { tag = tab })
          | Got.failed ↦ refused a
          | Got.stuck ↦ Tagged.stuck
        ])
    step g (inl (num, tab', e, al)) =
        rw e (with_callback-NewTag room_word room_cb a num tab' (bounded num tab' al) al)
    step g (inr (e, none_, full)) = rw e (inl none_, refl, refl)
