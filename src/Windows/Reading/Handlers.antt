-- ===== src/Windows/Reading/Handlers.antt =====
-- `wctlread` as `winnew` takes it, and the three handlers as `fsdispatch` calls them.
use wl.Prelude.{ℕ, inl, inr, refl, sym, ◌∙◌, Bool, Option, ◌==◌, Bool-cases}
use wl.Util.NumTab.{NumTab}
use wl.Util.NumTab.Numbers.{IsNumTab, ShiftsMod64}
use wl.Fs.State.{Aux, rerror, Request, Sent}
use wl.Windows.{wctlread_fn, Ended, ended, stored_tag}
use wl.Windows.Kept.{KeepsTables}
use wl.Windows.Turns.{Kept-Calls}
use wl.Windows.Loops.{Calls, calling}
use wl.Windows.Promised.{EndedKeeps, KeepsWindow}
use wl.Windows.Drawing.{Shared}
use wl.Windows.Reading.{Report, quiet, read_message, wctlread}
use wl.Windows.Reading.Redrawn.{Continued}
use wl.Windows.Reading.Steady.{read_message_lem}
use wl.Windows.Reading.Attached.{Asks, Kept-Asks, ask_next_lem}

module _ (send : Request → Aux → Sent) (law : KeepsTables send) where
  module _ (wide : ℕ → ℕ) (shifts : ShiftsMod64 wide) (room : Bool) (datafid fuel buflen : ℕ)
      (shared : Option Shared) (imgid : NumTab) (valid : IsNumTab imgid) where
    -- `wctlread` is a handler as `winnew` takes it.
    pub wctlread-KeepsWindow :
        KeepsWindow
          (λ r w a. (wctlread send wide room datafid fuel buflen shared imgid r w a).result)
    unfolding wctlread
    wctlread-KeepsWindow r w a h = elim (Bool-cases (r.kind == rerror)) [
      | inl bad ↦ rw bad (record {
        id = refl;
        wsys = refl;
        files = refl;
        table = refl;
        tags = h;
        calls = λ v i u. inl u;
        others = (refl, refl, refl);
      })
      | inr ok ↦ rw ok (
          ask_next_lem send law (λ h'. quiet imgid (Ended.halted h'))
            (λ (rep : Report). EndedKeeps w a rep.result) (λ h' k. k) wctlread_fn w.id w.wctl 72
            0xffff a
            (λ tagp b. quiet imgid (ended (record w { wctltag = stored_tag 0xffff tagp }) b))
            (λ t b.
              read_message send wide room datafid fuel buflen shared r imgid
                (record w { wctltag = t }) b)
            h
            (λ tagp b k e.
              itself (stored_tag 0xffff tagp) b
                (Kept-Asks w.id wctlread_fn (stored_tag 0xffff tagp) a b k))
            more)
    ]
      where
        itself :
            (t : ℕ) (b : Aux)
            → Asks w.id wctlread_fn t a b
            → EndedKeeps w a (ended (record w { wctltag = t }) b)
        itself t b k = record {
          id = refl;
          wsys = refl;
          files = refl;
          table = k.table;
          tags = k.tags;
          calls = k.calls;
          others = (refl, refl, refl);
        }

        continued :
            (t : ℕ) (b : Aux) (e : Ended)
            → Asks w.id wctlread_fn t a b
            → Continued (record w { wctltag = t }) b e
            → EndedKeeps w a e
        continued t b (ended u c) k (like, l) = record {
          id = like.id;
          wsys = like.wsys;
          files = like.files;
          table = l.fid ∙ k.table;
          tags = l.tags;
          calls = λ v i called. elim (k.calls v i (Kept-Calls b c l v i called)) [
            | inl called' ↦ inl called'
            | inr (e, at) ↦ inr (e, at ∙ sym like.wctltag)
          ];
          others = like.others;
        }
        continued t b (Ended.halted h') k l = l

        more :
            (t : ℕ) (b : Aux)
            → Asks w.id wctlread_fn t a b
            → Calls b (calling wctlread_fn w.id) t
            → EndedKeeps w a
                (read_message send wide room datafid fuel buflen shared r imgid
                  (record w { wctltag = t })
                  b).result
        more t b k new = continued t b _ k (
            read_message_lem send law wide shifts room datafid fuel buflen shared r imgid
              (record w { wctltag = t }) b valid k.tags)
