-- ===== src/Windows/Reading/Steady.antt =====
-- What `wctlread` leaves, once the next message is asked for: the window's files and tags, and the
-- tables of the connection.
use wl.Prelude.{
  ℕ, inl, inr, refl, sym, subst, Bool, true, false, Option, none, some, [], ◌∷◌, ◌++◌, length, take,
  ltb, ◌==◌, if◌then◌else◌, Bool-cases,
}
use wl.Util.NumTab.{NumTab, Got, got, numget}
use wl.Util.NumTab.Numbers.{IsNumTab, ShiftsMod64}
use wl.Util.NumTab.Alloc.{Answers, numget-Answers}
use wl.Fs.State.{Reply, Aux, Request, Sent}
use wl.Fs.Requests.{Outcome, done, failed, fsread, fswrite}
use wl.Compositor.Control.{Control, read_control, moved, resized}
use wl.Windows.{Window, fid_number, Halt, Ended, ended}
use wl.Windows.Kept.{
  Kept, Kept-refl, Kept-trans, KeepsTables, KeptOutcome, fsread-Kept, fswrite-Kept,
}
use wl.Windows.Drawing.{Shared, draw_window}
use wl.Windows.Reading.{
  Report, quiet, tell, redraw_moved, name_message, named, find_image, read_name, read_message,
}
use wl.Windows.Reading.Redrawn.{SameWindow, Keeps, Continued, draw_window_same}

-- What follows once the next message is asked for: the window keeps its files and its tag.
abbrev pub Continues : Window → Aux → Report → Type 0
Continues w a rep = Continued w a rep.result

module _ (send : Request → Aux → Sent) (law : KeepsTables send) (wide : ℕ → ℕ)
    (shifts : ShiftsMod64 wide) (room : Bool) (datafid fuel buflen : ℕ) where
  tell_lem :
      (names buffer : Bool) (n old : Control) (imgid : NumTab) (w v : Window) (a b : Aux)
      (e : Ended)
      → Keeps w v
      → Kept a b
      → SameWindow v b e
      → Continues w a (tell send wide room datafid fuel buflen names buffer n old imgid e)
  tell_lem names buffer n old imgid w v a b (Ended.halted h) like k l = l
  tell_lem names buffer n old imgid w v a b (ended u c) like k (same, l) =
      let g = subst (Keeps w) (sym same) like in
      (
        record {
          id = g.id;
          wsys = g.wsys;
          files = g.files;
          wctltag = g.wctltag;
          others = g.others;
        },
        Kept-trans a b c k l,
      )

  redraw_moved_lem :
      (shared : Option Shared) (n : Control) (image : ℕ) (imgid : NumTab) (w v : Window) (a b : Aux)
      → Keeps w v
      → Kept a b
      → Continues w a (redraw_moved send wide room datafid fuel buflen shared n image imgid v b)
  redraw_moved_lem shared n image imgid w v a b like k = elim (Bool-cases (resized v.control n)) [
    | inl r ↦
        rw r (
          tell_lem true true n v.control imgid w v a b (ended v b) like k
            (refl, Kept-refl b k.tags))
    | inr not_r ↦ rw not_r (drawn_lem shared)
  ]
    where
      drawn_lem :
          (shared : Option Shared)
          → Continues w a (elim shared [
            | none ↦
                tell send wide room datafid fuel buflen true false n v.control imgid (ended v b)
            | some s ↦ tell send wide room datafid fuel buflen true true n v.control imgid (
                draw_window send datafid fuel buflen s image
                  (record v {
                    control = record v.control { x0 = n.x0; y0 = n.y0; x1 = n.x1; y1 = n.y1 };
                  })
                  b)
          ])
      drawn_lem none =
          tell_lem true false n v.control imgid w v a b (ended v b) like k
            (refl, Kept-refl b k.tags)
      drawn_lem (some s) =
          tell_lem true true n v.control imgid w
            (record v { control = record v.control { x0 = n.x0; y0 = n.y0; x1 = n.x1; y1 = n.y1 } })
            a b _
            (record {
              id = like.id;
              wsys = like.wsys;
              files = like.files;
              wctltag = like.wctltag;
              others = like.others;
            })
            k (draw_window_same send law datafid fuel buflen s image _ b k.tags)

  named_lem :
      (shared : Option Shared) (n : Control) (old : Bool) (image : ℕ) (imgid : NumTab)
      (w v : Window) (a b : Aux)
      → Keeps w v
      → Kept a b
      → Continues w a (named send wide room datafid fuel buflen shared n old image imgid v b)
  named_lem shared n old image imgid w v a b like k =
      step (fswrite send false datafid 0 (name_message old image v.name) b)
        (fswrite-Kept send law false datafid 0 (name_message old image v.name) b k.tags)
    where
      here : Keeps w (record v { image = some image })
      here = record {
        id = like.id;
        wsys = like.wsys;
        files = like.files;
        wctltag = like.wctltag;
        others = like.others;
      }

      step :
          (o : Outcome ℕ)
          → KeptOutcome b o
          → Continues w a (elim o [
            | done x tagp a' ↦
                redraw_moved send wide room datafid fuel buflen shared n image imgid
                  (record v { image = some image })
                  a'
            | failed tagp a' ↦
                tell send wide room datafid fuel buflen false false n v.control imgid
                  (ended (record v { image = some image }) a')
            | Outcome.exited ↦ quiet imgid (Ended.halted Halt.exited)
            | Outcome.starved a' ↦ quiet imgid (Ended.halted (Halt.starved a'))
            | Outcome.stuck ↦ quiet imgid (Ended.halted Halt.stuck)
          ])
      step (done x tagp c) l =
          redraw_moved_lem shared n image imgid w (record v { image = some image }) a c here
            (Kept-trans a b c k l)
      step (failed tagp c) l =
          tell_lem false false n v.control imgid w (record v { image = some image }) a c
            (ended (record v { image = some image }) c) here (Kept-trans a b c k l)
            (refl, Kept-refl c l.tags)
      step Outcome.exited l = tt
      step (Outcome.starved c) l = tt
      step Outcome.stuck l = l

  find_image_lem :
      (shared : Option Shared) (n : Control) (imgid : NumTab) (w v : Window) (a b : Aux)
      → IsNumTab imgid
      → Keeps w v
      → Kept a b
      → Continues w a (find_image send wide room datafid fuel buflen shared n imgid v b)
  find_image_lem shared n imgid w v a b valid like k = step v.image
    where
      fresh :
          (g : Got)
          → Answers room imgid g
          → Continues w a (elim g [
            | got image imgid' ↦
                named send wide room datafid fuel buflen shared n false image imgid' v b
            | Got.failed ↦
                tell send wide room datafid fuel buflen false false n v.control imgid (ended v b)
            | Got.stuck ↦ quiet imgid (Ended.halted Halt.stuck)
          ])
      fresh g (inl (image, imgid', e, al)) =
          rw e (named_lem shared n false image imgid' w v a b like k)
      fresh g (inr (e, no_room, full)) = rw e (
          tell_lem false false n v.control imgid w v a b (ended v b) like k
            (refl, Kept-refl b k.tags))

      step :
          (image : Option ℕ)
          → Continues w a (elim image [
            | some image' ↦ named send wide room datafid fuel buflen shared n true image' imgid v b
            | none ↦ elim (numget wide room imgid) [
              | got image' imgid' ↦
                  named send wide room datafid fuel buflen shared n false image' imgid' v b
              | Got.failed ↦
                  tell send wide room datafid fuel buflen false false n v.control imgid (ended v b)
              | Got.stuck ↦ quiet imgid (Ended.halted Halt.stuck)
            ]
          ])
      step (some image) = named_lem shared n true image imgid w v a b like k
      step none = fresh (numget wide room imgid) (numget-Answers wide shifts room imgid valid)

  read_name_lem :
      (shared : Option Shared) (n : Control) (imgid : NumTab) (w v : Window) (a b : Aux)
      → IsNumTab imgid
      → Keeps w v
      → Kept a b
      → Continues w a (read_name send wide room datafid fuel buflen shared n imgid v b)
  read_name_lem shared n imgid w v a b valid like k =
      step (fsread send false (fid_number v.winname) 0 31 b)
        (fsread-Kept send law false (fid_number v.winname) 0 31 b k.tags)
    where
      early :
          (c : Aux)
          → Kept b c
          → Continues w a
              (tell send wide room datafid fuel buflen false false n v.control imgid (ended v c))
      early c l =
          tell_lem false false n v.control imgid w v a c (ended v c) like (Kept-trans a b c k l)
            (refl, Kept-refl c l.tags)

      step :
          (o : Outcome (Option Reply))
          → KeptOutcome b o
          → Continues w a (elim o [
            | done x tagp a' ↦ elim x [
              | none ↦
                  tell send wide room datafid fuel buflen false false n v.control imgid (ended v a')
              | some r ↦
                  if ltb 31 (length r.content)
                  then tell send wide room datafid fuel buflen false false n v.control imgid
                      (ended v a')
                  else find_image send wide room datafid fuel buflen shared n imgid
                      (record v { name = r.content })
                      a'
            ]
            | failed tagp a' ↦
                tell send wide room datafid fuel buflen false false n v.control imgid (ended v a')
            | Outcome.exited ↦ quiet imgid (Ended.halted Halt.exited)
            | Outcome.starved a' ↦ quiet imgid (Ended.halted (Halt.starved a'))
            | Outcome.stuck ↦ quiet imgid (Ended.halted Halt.stuck)
          ])
      step (done none tagp c) l = early c l
      step (done (some r) tagp c) l = elim (Bool-cases (ltb 31 (length r.content))) [
        | inl long ↦ rw long (early c l)
        | inr fits ↦ rw fits (
            find_image_lem shared n imgid w (record v { name = r.content }) a c valid
              (record {
                id = like.id;
                wsys = like.wsys;
                files = like.files;
                wctltag = like.wctltag;
                others = like.others;
              })
              (Kept-trans a b c k l))
      ]
      step (failed tagp c) l = early c l
      step Outcome.exited l = tt
      step (Outcome.starved c) l = tt
      step Outcome.stuck l = l

  pub read_message_lem :
      (shared : Option Shared) (r : Reply) (imgid : NumTab) (w : Window) (a : Aux)
      → IsNumTab imgid
      → IsNumTab a.tag
      → Continues w a (read_message send wide room datafid fuel buflen shared r imgid w a)
  read_message_lem shared r imgid w a valid h = elim (Bool-cases (length r.content == 72)) [
    | inr other ↦ rw other (itself, Kept-refl a h)
    | inl whole ↦ rw whole (step (read_control (take 71 r.content ++ 0 ∷ [])))
  ]
    where
      itself : Keeps w w
      itself = record {
        id = refl;
        wsys = refl;
        files = refl;
        wctltag = refl;
        others = (refl, refl, refl);
      }

      step :
          (c : Option Control)
          → Continues w a (elim c [
            | none ↦ quiet imgid (Ended.halted Halt.crashed)
            | some n ↦
                if moved w.control n
                then read_name send wide room datafid fuel buflen shared n imgid w a
                else tell send wide room datafid fuel buflen false false n w.control imgid
                    (ended w a)
          ])
      step none = tt
      step (some n) = elim (Bool-cases (moved w.control n)) [
        | inl m ↦ rw m (read_name_lem shared n imgid w w a a valid itself (Kept-refl a h))
        | inr same ↦ rw same (
            tell_lem false false n w.control imgid w w a a (ended w a) itself (Kept-refl a h)
              (refl, Kept-refl a h))
      ]
