-- ===== src/Windows/Requests.antt =====
-- The tables `toplevel_impl` and `xdg_surface_impl` of wl9.c: the requests that a client makes of a
-- window. Those of most of them do nothing.
pub mod Safe
use wl.Prelude.{ℕ, Bool, List}
use wl.Fs.State.{Aux, Request, Sent}
use wl.Windows.Life.{
  World, Lived, lived, get_toplevel, set_title, toplevel_destroy, xdg_surface_destroy,
}

-- `titled` and `destroyed` are set_title and destroy.
pub data ToplevelRequest : Type 0 where
  destroyed set_parent set_app_id show_window_menu move resize set_max_size set_min_size
        set_maximized unset_maximized set_fullscreen unset_fullscreen set_minimized :
      ToplevelRequest
  titled : List ℕ → ToplevelRequest

-- `given_toplevel` is get_toplevel, with whether the resource is made; a popup has nothing to do with
-- the window.
pub data XdgSurfaceRequest : Type 0 where
  destroyed get_popup set_window_geometry ack_configure : XdgSurfaceRequest
  given_toplevel : Bool → XdgSurfaceRequest

module _ (send : Request → Aux → Sent) where
  -- `destroy` destroys the resource, which calls `toplevel_destroy`.
  unfoldable pub toplevel_request : ToplevelRequest → ℕ → World → Lived
  toplevel_request ToplevelRequest.destroyed i wd = toplevel_destroy send i wd
  toplevel_request (titled title) i wd = set_title send i title wd
  toplevel_request set_parent i wd = lived wd
  toplevel_request set_app_id i wd = lived wd
  toplevel_request show_window_menu i wd = lived wd
  toplevel_request move i wd = lived wd
  toplevel_request resize i wd = lived wd
  toplevel_request set_max_size i wd = lived wd
  toplevel_request set_min_size i wd = lived wd
  toplevel_request set_maximized i wd = lived wd
  toplevel_request unset_maximized i wd = lived wd
  toplevel_request set_fullscreen i wd = lived wd
  toplevel_request unset_fullscreen i wd = lived wd
  toplevel_request set_minimized i wd = lived wd

  -- `destroy` destroys the resource, which calls `xdg_surface_destroy`.
  unfoldable pub xdg_surface_request : XdgSurfaceRequest → ℕ → World → Lived
  xdg_surface_request XdgSurfaceRequest.destroyed i wd = xdg_surface_destroy send i wd
  xdg_surface_request (given_toplevel made) i wd = lived (get_toplevel made i wd)
  xdg_surface_request get_popup i wd = lived wd
  xdg_surface_request set_window_geometry i wd = lived wd
  xdg_surface_request ack_configure i wd = lived wd
