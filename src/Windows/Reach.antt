-- ===== src/Windows/Reach.antt =====
-- The worlds that the program reaches: a relation of one step for each event of wl9.c that makes,
-- opens, calls back or ends a window, or moves the focus. A `winnew` that fails after it has sent
-- the read of the mouse leaves a callback behind, and is no step here, nor is a second get_toplevel
-- of one surface. Of the copies of the selection, snarfget and what calls for it are steps; what
-- set_selection sets has no callback of the connection, and is left out.
pub mod Safe
pub mod Changed
pub mod Gone
pub mod Made
pub mod Moved
pub mod Steps
use wl.Prelude.{ℕ, ◌≡◌, ◌≢◌, Bool, false, Option, none, some, List}
use wl.Util.NumTab.{NumTab}
use wl.Util.NumTab.Numbers.{IsNumTab}
use wl.Fs.State.{Reply, Callback, Aux, freetag, Request, Sent}
use wl.Fs.Dispatch.{clear_callback}
use wl.Fs.Tags.Fresh.{callback_of}
use wl.Compositor.Focus
use wl.Compositor.Focus.{mousefocus, kbdfocus}
use wl.Selection.{Desk, left, offer_receive, receive_reply}
use wl.Windows.{snarfget_fn, Window, Term, Ended, ended}
use wl.Windows.Kept.{Kept}
use wl.Windows.Loops.{Calls, calling}
use wl.Windows.Opens.{window_fids}
use wl.Windows.Promised.{no_fids}
use wl.Windows.Open.{opened, winnew}
use wl.Windows.Drawing.{Shared}
use wl.Windows.Reading.{Handler, handler_fn, handle, wctlread}
use wl.Windows.Life.{
  World, lived, put_window, get_xdg_surface, get_toplevel, toplevel_destroy, xdg_surface_destroy,
}

-- A focus on no window, or on one that is not freed.
abbrev pub Alive : (ℕ → Option Window) → Option Focus.Window → Type 0
Alive windows none = Unit
Alive windows (some v) = (w : Window) × (windows v.id ≡ some w)

module _ (send : Request → Aux → Sent) (wide : ℕ → ℕ) where
  pub data Step : World → World → Type 0 where
    -- A surface without a role, and that is no other window's, gets an xdg_surface; calloc returns
    -- an i that no window has, and no receiver whose callback is set.
    created :
        (room made : Bool) (i s client : ℕ) (wd : World)
        → wd.windows i ≡ none
        → (wd.surfaces s).role ≡ none
        → ((j : ℕ) (w : Window) → wd.windows j ≡ some w → w.surface ≢ s)
        → ((c : Callback) (t : ℕ) → Calls wd.aux c t → c.fn ≡ some snarfget_fn → c.arg ≢ i)
        → Step wd (get_xdg_surface room made i s client wd)
    -- The surface has no toplevel resource yet.
    given_role :
        (made : Bool) (i : ℕ) (w : Window) (wd : World)
        → wd.windows i ≡ some w
        → (wd.surfaces w.surface).role ≡ none
        → Step wd (get_toplevel made i wd)
    -- The first commit, where `winnew` returns 0.
    committed :
        (i : ℕ) (w w' : Window) (term term' : Term) (a' : Aux) (room : Aux → Bool) (why : List ℕ)
        (space : Bool) (fuel buflen : ℕ) (shared : Option Shared) (imgid : NumTab) (wd : World)
        → wd.windows i ≡ some w
        → (wd.surfaces w.surface).role ≡ some i
        → w.wsys ≡ none
        → window_fids w ≡ no_fids
        → IsNumTab imgid
        → winnew send wide room why
            (λ r v a. (wctlread send wide space wd.datafid fuel buflen shared imgid r v a).result)
            w
            term
            wd.aux
          ≡ opened w' term' a'
        → Step wd
            (put_window i (some (record w' { initial_commit = false })) (record wd { aux = a' }))
    -- A request, or a wait, that has to do with no window's callback.
    requested : (a' : Aux) (wd : World) → Kept wd.aux a' → Step wd (record wd { aux = a' })
    -- One turn of `fsdispatch`, for a callback of a window.
    handled :
        (n : Handler) (r : Reply) (i : ℕ) (w w' : Window) (a' : Aux) (space : Bool)
        (fuel buflen : ℕ) (shared : Option Shared) (imgid : NumTab) (wd : World)
        → callback_of wd.aux r.tag ≡ calling (handler_fn n) i
        → wd.windows i ≡ some w
        → IsNumTab imgid
        → handle send wide space wd.datafid fuel buflen n shared imgid r w
            (clear_callback r.tag wd.aux)
          ≡ ended w' a'
        → Step wd (put_window i (some w') (record wd { aux = freetag r.tag a' }))
    -- A client asks for the selection: g is the new struct snarfget, which no window is.
    snarf_asked :
        (memory : Bool) (answers : List (Option ℕ)) (snarf fd g : ℕ) (k k' : Desk) (a' : Aux)
        (wd : World)
        → wd.windows g ≡ none
        → offer_receive send memory answers snarf fd snarfget_fn g k wd.aux ≡ left k' a'
        → Step wd (record wd { aux = a' })
    -- One turn of `fsdispatch`, for snarfget.
    snarf_replied :
        (snarf g n : ℕ) (r : Reply) (k k' : Desk) (a' : Aux) (wd : World)
        → wd.windows g ≡ none
        → callback_of wd.aux r.tag ≡ calling snarfget_fn g
        → receive_reply send snarf snarfget_fn g n r k (clear_callback r.tag wd.aux) ≡ left k' a'
        → Step wd (record wd { aux = freetag r.tag a' })
    mouse_moved :
        (f : Option Focus.Window) (x y : ℕ) (wd : World)
        → Alive wd.windows f
        → Step wd (record wd { mouse = mousefocus f x y wd.mouse })
    kbd_moved :
        (f : Option Focus.Window) (wd : World)
        → Alive wd.windows f
        → Step wd (record wd { kbd = kbdfocus f wd.kbd })
    toplevel_gone :
        (i : ℕ) (w : Window) (wd wd' : World)
        → wd.windows i ≡ some w
        → (wd.surfaces w.surface).role ≡ some i
        → toplevel_destroy send i wd ≡ lived wd'
        → Step wd wd'
    gone :
        (i : ℕ) (w : Window) (wd wd' : World)
        → wd.windows i ≡ some w
        → xdg_surface_destroy send i wd ≡ lived wd'
        → Step wd wd'

  pub data Reach (start : World) : World → Type 0 where
    here : Reach start start
    next : {mid end_ : World} → Reach start mid → Step mid end_ → Reach start end_
