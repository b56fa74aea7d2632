-- ===== src/Windows/Gone.antt =====
-- A window that is destroyed is out of reach: it has no focus, and the 9P connection does not call it
-- back.
use wl.Prelude.{ℕ, ◌≡◌, ◌≢◌, inl, inr, refl, subst, ◌∙◌, false, Option, none, some, List, [], ◌∷◌}
use wl.Util.NumTab.Numbers.{IsNumTab}
use wl.Util.Bytes.{putle32}
use wl.Fs.State.{Callback, Aux, Request, Sent, unsent, tflush}
use wl.Fs.Dispatch.{fsflush}
use wl.Fs.Requests.{fsclunk, fswrite}
use wl.Windows.{Window, fid_number, Ended, ended}
use wl.Windows.Open.{after}
use wl.Windows.Kept.{Kept, KeepsTables, fsclunk-Kept, fswrite-Kept}
use wl.Windows.Loops.{Calls, Silent, Stops}
use wl.Windows.Flushed.{fsflush-Drops}
use wl.Windows.After.{after_lem, after_flush_lem, Quits, Quits-none, Quits-Kept, Quits-Drops}
use wl.Windows.Promised.{IsAttached}
use wl.Windows.Life.{clunk, flush_tag, close_files, free_image, close_window}

-- c9flush does not fail.
abbrev pub SendsFlush : (Request → Aux → Sent) → Type 0
SendsFlush send = (t : ℕ) (a b : Aux) → send (tflush t) a ≢ unsent b

-- A window that is open is called back for its tags only, and one that is not is not called back.
abbrev pub Watches : Option ℕ → Window → Aux → Type 0
Watches none w a = Silent w.id a
Watches (some wsys) w a = IsAttached w a

abbrev pub IsWatched : Window → Aux → Type 0
IsWatched w a = Watches w.wsys w a

-- The window is not called back, no callback is new, and the file numbers in use are the same.
pub record Detached (w : Window) (a a' : Aux) : Type 0 where
  pub fid : a'.fid ≡ a.fid
  pub tags : IsNumTab a'.tag
  pub calls : (v : Callback) (i : ℕ) → Calls a' v i → Calls a v i
  pub gone : Silent w.id a'

abbrev pub Closes : Window → Aux → Ended → Type 0
Closes w a (ended w' a') =
    (w'.id ≡ w.id) × (w'.surface ≡ w.surface) × (w'.client ≡ w.client) × Detached w a a'
Closes w a (Ended.halted h) = Stops h

module _ (send : Request → Aux → Sent) (law : KeepsTables send) (sends : SendsFlush send) where
  free_image-Closes :
      (datafid : ℕ) (w : Window) (a b : Aux)
      → Detached w a b
      → Closes w a (free_image send datafid w b λ c. ended (record w { toplevel = false }) c)
  free_image-Closes datafid w a b d = step w.image
    where
      last : (c : Aux) → Kept b c → Closes w a (ended (record w { toplevel = false }) c)
      last c k = (
        refl,
        refl,
        refl,
        record {
          fid = k.fid ∙ d.fid;
          tags = k.tags;
          calls = λ v i u. d.calls v i (back v i u);
          gone = λ c' i e u. d.gone c' i e (back c' i u);
        },
      )
        where
          back : (v : Callback) (i : ℕ) → Calls c v i → Calls b v i
          back v i u = subst (λ cb. (v.fn ≢ none) × (cb ≡ v)) (k.callbacks i) u

      step :
          (image : Option ℕ)
          → Closes w a (elim image [
            | none ↦ ended (record w { toplevel = false }) b
            | some image' ↦
                after Ended.halted
                  (fswrite send false datafid 0 (b'f' ∷ putle32 image') b)
                  λ c. ended (record w { toplevel = false }) c
          ])
      step none = (refl, refl, refl, d)
      step (some image) =
          after_lem Ended.halted (Closes w a) (λ h k. k) b
            (fswrite send false datafid 0 (b'f' ∷ putle32 image) b) _
            (fswrite-Kept send law false datafid 0 (b'f' ∷ putle32 image) b d.tags) last

  -- One request in the course of `toplevel_destroy`.
  clunk-Closes :
      (w : Window) (fid : Option ℕ) (ts : List ℕ) (a b : Aux) (next : Aux → Ended)
      → Quits ts a b
      → ((c : Aux) → Quits ts a c → Closes w a (next c))
      → Closes w a (clunk send fid b next)
  clunk-Closes w fid ts a b next q more =
      after_lem Ended.halted (Closes w a) (λ h k. k) b (fsclunk send (fid_number fid) b) next
        (fsclunk-Kept send law (fid_number fid) b q.tags) (λ c k. more c (Quits-Kept ts a b c q k))

  flush_tag-Closes :
      (w : Window) (t : ℕ) (ts : List ℕ) (a b : Aux) (next : Aux → Ended)
      → Quits ts a b
      → ((c : Aux) → Quits (t ∷ ts) a c → Closes w a (next c))
      → Closes w a (flush_tag send t b next)
  flush_tag-Closes w t ts a b next q more =
      after_flush_lem Ended.halted (Closes w a) (λ h k. k) send t b (fsflush send t b) next
        (fsflush-Drops send law t b q.tags) (λ c d. more c (Quits-Drops t ts a b c q d))
        (λ c k unsent_. absurd (sends t b c unsent_))

  attached_gone :
      (w : Window) (a b : Aux)
      → IsAttached w a
      → Quits (w.kbdtag ∷ w.mousetag ∷ w.wctltag ∷ []) a b
      → Detached w a b
  attached_gone w a b at q = record {
    fid = q.fid;
    tags = q.tags;
    calls = λ v i u. (q.calls v i u).0;
    gone = gone;
  }
    where
      gone : Silent w.id b
      gone c i own u =
          let (u', (not_kbd, (not_mouse, (not_wctl, none_)))) = q.calls c i u in
          elim (at c i own u') [
            | inl e ↦ not_wctl e.1
            | inr e ↦ elim e [ inl e' ↦ not_mouse e'.1 | inr e' ↦ not_kbd e'.1 ]
          ]

  close_files-Closes :
      (w : Window) (a : Aux) (next : Aux → Ended)
      → IsNumTab a.tag
      → IsWatched w a
      → ((b : Aux) → Detached w a b → Closes w a (next b))
      → Closes w a (close_files send w a next)
  close_files-Closes w a next h watched more = step w.wsys watched
    where
      step :
          (wsys : Option ℕ)
          → Watches wsys w a
          → Closes w a (close_files send (record w { wsys = wsys }) a next)
      step none gone = more a (record { fid = refl; tags = h; calls = λ v i u. u; gone = gone })
      step (some wsys) at = clunk-Closes w (some wsys) [] a a _ (Quits-none a h) λ a1 q1.
          clunk-Closes w w.wctl [] a a1 _ q1 λ a2 q2.
            flush_tag-Closes w w.wctltag [] a a2 _ q2 λ a3 q3.
              clunk-Closes w w.winname (w.wctltag ∷ []) a a3 _ q3 λ a4 q4.
                clunk-Closes w w.label (w.wctltag ∷ []) a a4 _ q4 λ a5 q5.
                  clunk-Closes w w.mouse (w.wctltag ∷ []) a a5 _ q5 λ a6 q6.
                    flush_tag-Closes w w.mousetag (w.wctltag ∷ []) a a6 _ q6 λ a7 q7.
                      clunk-Closes w w.kbd (w.mousetag ∷ w.wctltag ∷ []) a a7 _ q7 λ a8 q8.
                        flush_tag-Closes w w.kbdtag (w.mousetag ∷ w.wctltag ∷ []) a a8 next q8
                          λ b q. more b (attached_gone w a b at q)

  pub close_window-Closes :
      (datafid : ℕ) (w : Window) (a : Aux)
      → IsNumTab a.tag
      → IsWatched w a
      → Closes w a (close_window send datafid w a)
  unfolding close_window
  close_window-Closes datafid w a h watched =
      close_files-Closes w a _ h watched (λ b d. free_image-Closes datafid w a b d)
