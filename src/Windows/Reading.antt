-- ===== src/Windows/Reading.antt =====
-- `wctlread`, and of `mouseread` and `kbdread` of wl9.c how they ask for the next message. A window's
-- wctl file tells where it is and whether it is current and hidden.
pub mod Redrawn
pub mod Steady
pub mod Attached
pub mod Handlers
use wl.Prelude.{
  ℕ, ◌+◌, ◌-◌, Bool, true, false, not, ◌&&◌, Option, none, some, List, [], ◌∷◌, ◌++◌, length, take,
  ltb, ◌==◌, if◌then◌else◌,
}
use wl.Util.Bytes.{putle32}
use wl.Util.NumTab.{NumTab, Got, got, numget}
use wl.Fs.State.{Reply, Aux, rerror, Request, Sent}
use wl.Fs.Tags.{fsasync}
use wl.Fs.Requests.{Outcome, done, failed, fsread, fswrite}
use wl.Compositor.Control.{Control, Effect, read_control, moved, resized, update}
use wl.Windows.{
  Window, wctlread_fn, mouseread_fn, kbdread_fn, fid_number, Halt, Ended, ended, stored_tag,
}
use wl.Windows.Drawing.{Shared, draw_window}

-- What `wctlread` does beside the window and the connection: the image numbers in use, what the
-- client and the focus are told, and whether the client is told to close.
pub record Report : Type 0 where
  pub result : Ended
  pub imgid : NumTab
  pub effects : List Effect
  pub close : Bool

abbrev pub quiet : NumTab → Ended → Report
quiet imgid e = record { result = e; imgid = imgid; effects = []; close = false }

-- The next message is asked for, and `fn` is called for it; `set` stores the tag.
module _ (send : Request → Aux → Sent) {R : Type 0} (halt : Halt → R) where
  abbrev pub ask_next : ℕ → ℕ → Option ℕ → ℕ → ℕ → Aux → (Option ℕ → Aux → R) → (ℕ → Aux → R) → R
  ask_next fn arg fid len old a fails next = elim (fsread send true (fid_number fid) 0 len a) [
    | failed tagp a' ↦ fails tagp a'
    | done x tagp a' ↦
        let t = stored_tag old tagp in
        elim (fsasync t fn arg a') [ none ↦ halt Halt.crashed | some a'' ↦ next t a'' ]
    | Outcome.exited ↦ halt Halt.exited
    | Outcome.starved a' ↦ halt (Halt.starved a')
    | Outcome.stuck ↦ halt Halt.stuck
  ]

module _ (send : Request → Aux → Sent) where
  -- `mouseread` up to its fsasync; C9tag's -1 is 0xffff.
  unfoldable pub mouseread_next : Reply → Window → Aux → Ended
  mouseread_next r w a =
      if r.kind == rerror
      then ended (record w { mousetag = 0xffff }) a
      else ask_next send Ended.halted mouseread_fn w.id w.mouse 49 0xffff a
          (λ tagp a'. ended (record w { mousetag = stored_tag 0xffff tagp }) a')
          (λ t a'. ended (record w { mousetag = t }) a')

  -- `kbdread`, likewise.
  unfoldable pub kbdread_next : Reply → Window → Aux → Ended
  kbdread_next r w a =
      if r.kind == rerror
      then ended (record w { kbdtag = 0xffff }) a
      else ask_next send Ended.halted kbdread_fn w.id w.kbd 256 0xffff a
          (λ tagp a'. ended (record w { kbdtag = stored_tag 0xffff tagp }) a')
          (λ t a'. ended (record w { kbdtag = t }) a')

-- 'f' and the old image, where there is one; 'n', the image, and the name with its length.
unfoldable pub name_message : Bool → ℕ → List ℕ → List ℕ
name_message old image name =
    (if old then b'f' ∷ putle32 image else []) ++ (b'n' ∷ (putle32 image ++ (length name ∷ name)))

pub data Handler : Type 0 where
  on_wctl on_mouse on_kbd : Handler

abbrev pub handler_tag : Handler → Window → ℕ
handler_tag on_wctl w = w.wctltag
handler_tag on_mouse w = w.mousetag
handler_tag on_kbd w = w.kbdtag

abbrev pub handler_fn : Handler → ℕ
handler_fn on_wctl = wctlread_fn
handler_fn on_mouse = mouseread_fn
handler_fn on_kbd = kbdread_fn

module _ (send : Request → Aux → Sent) (wide : ℕ → ℕ) (room : Bool) (datafid fuel buflen : ℕ) where
  -- The end of `wctlread`, where the flags are told, with the effects of `update`.
  abbrev pub tell : Bool → Bool → Control → Control → NumTab → Ended → Report
  tell names buffer n old imgid (ended w a) =
      let (c, effects) = update names buffer n old in
      record {
        result = ended (record w { control = c }) a;
        imgid = imgid;
        effects = effects;
        close = false;
      }
  tell names buffer n old imgid (Ended.halted h) = quiet imgid (Ended.halted h)

  -- A window that is moved but not resized is drawn, where its surface has a buffer.
  abbrev pub redraw_moved : Option Shared → Control → ℕ → NumTab → Window → Aux → Report
  redraw_moved shared n image imgid w a =
      let old = w.control in
      let draw = λ (s : Shared).
        draw_window send datafid fuel buflen s image
          (record w { control = record old { x0 = n.x0; y0 = n.y0; x1 = n.x1; y1 = n.y1 } }) a in
      if resized old n then tell true true n old imgid (ended w a) else elim shared [
        | none ↦ tell true false n old imgid (ended w a)
        | some s ↦ tell true true n old imgid (draw s)
      ]

  abbrev pub named : Option Shared → Control → Bool → ℕ → NumTab → Window → Aux → Report
  named shared n old image imgid w a =
      let w' = record w { image = some image } in
      elim (fswrite send false datafid 0 (name_message old image w.name) a) [
        | done x tagp a' ↦ redraw_moved shared n image imgid w' a'
        | failed tagp a' ↦ tell false false n w.control imgid (ended w' a')
        | Outcome.exited ↦ quiet imgid (Ended.halted Halt.exited)
        | Outcome.starved a' ↦ quiet imgid (Ended.halted (Halt.starved a'))
        | Outcome.stuck ↦ quiet imgid (Ended.halted Halt.stuck)
      ]

  abbrev pub find_image : Option Shared → Control → NumTab → Window → Aux → Report
  find_image shared n imgid w a = elim w.image [
    | some image ↦ named shared n true image imgid w a
    | none ↦ elim (numget wide room imgid) [
      | got image imgid' ↦ named shared n false image imgid' w a
      | Got.failed ↦ tell false false n w.control imgid (ended w a)
      | Got.stuck ↦ quiet imgid (Ended.halted Halt.stuck)
    ]
  ]

  -- The name of the window's image is read again.
  abbrev pub read_name : Option Shared → Control → NumTab → Window → Aux → Report
  read_name shared n imgid w a =
      let early = λ (a' : Aux). tell false false n w.control imgid (ended w a') in
      elim (fsread send false (fid_number w.winname) 0 31 a) [
        | done x tagp a' ↦ elim x [
          | none ↦ early a'
          | some r ↦
              if ltb 31 (length r.content)
              then early a'
              else find_image shared n imgid (record w { name = r.content }) a'
        ]
        | failed tagp a' ↦ early a'
        | Outcome.exited ↦ quiet imgid (Ended.halted Halt.exited)
        | Outcome.starved a' ↦ quiet imgid (Ended.halted (Halt.starved a'))
        | Outcome.stuck ↦ quiet imgid (Ended.halted Halt.stuck)
      ]

  -- `pos[71]` is set to 0.
  abbrev pub read_message : Option Shared → Reply → NumTab → Window → Aux → Report
  read_message shared r imgid w a =
      if not (length r.content == 72)
      then quiet imgid (ended w a)
      else elim (read_control (take 71 r.content ++ 0 ∷ [])) [
        | none ↦ quiet imgid (Ended.halted Halt.crashed)
        | some n ↦
            if moved w.control n
            then read_name shared n imgid w a
            else tell false false n w.control imgid (ended w a)
      ]

  -- `shared` is the buffer of the window's surface, if it has one in shared memory.
  unfoldable pub wctlread : Option Shared → NumTab → Reply → Window → Aux → Report
  unfolding draw_window name_message
  wctlread shared imgid r w a =
      let w0 = record w { wctltag = 0xffff } in
      if r.kind == rerror
      then record { result = ended w0 a; imgid = imgid; effects = []; close = true }
      else ask_next send (λ h. quiet imgid (Ended.halted h)) wctlread_fn w.id w.wctl 72 0xffff a
          (λ tagp a'. quiet imgid (ended (record w { wctltag = stored_tag 0xffff tagp }) a'))
          (λ t a'. read_message shared r imgid (record w { wctltag = t }) a')

  -- The handler of a tag, which `fsdispatch` calls.
  unfoldable pub handle : Handler → Option Shared → NumTab → Reply → Window → Aux → Ended
  unfolding wctlread mouseread_next kbdread_next
  handle on_wctl shared imgid r w a = (wctlread shared imgid r w a).result
  handle on_mouse shared imgid r w a = mouseread_next send r w a
  handle on_kbd shared imgid r w a = kbdread_next send r w a
