-- ===== src/Windows/Requests/Safe.antt =====
-- The requests that a client makes of a window leave nothing that refers to a window that was freed.
use wl.Prelude.{ℕ, false, ◌⊎◌, inl, inr, ◌≡◌, sym, subst, Option, none, some, List}
use wl.Fs.State.{Aux, Request, Sent}
use wl.Fs.Requests.{Outcome, done, failed, fswrite}
use wl.Windows.{Window, Halt}
use wl.Windows.Kept.{KeepsTables, KeptOutcome, fswrite-Kept}
use wl.Windows.Gone.{SendsFlush}
use wl.Windows.Loops.{Stops}
use wl.Windows.Open.{after}
use wl.Windows.Destroyed.{
  Tied, TopDestroys, Destroys, toplevel_destroy-TopDestroys, xdg_surface_destroy-Destroys,
}
use wl.Windows.Life.{
  World, Lived, lived, on_window, set_title, toplevel_destroy, xdg_surface_destroy,
}
use wl.Windows.Reach.Safe.{IsSafe, IsSafe-Sound}
use wl.Windows.Reach.Gone.{gone-IsSafe, toplevel_gone-IsSafe}
use wl.Windows.Reach.Moved.{requested-IsSafe}
use wl.Windows.Reach.Made.{get_toplevel-IsSafe}
use wl.Windows.Requests.{
  ToplevelRequest, titled, set_parent, set_app_id, show_window_menu, move, resize, set_max_size,
  set_min_size, set_maximized, unset_maximized, set_fullscreen, unset_fullscreen, set_minimized,
  XdgSurfaceRequest, given_toplevel, get_popup, set_window_geometry, ack_configure,
  toplevel_request, xdg_surface_request,
}

abbrev pub LeavesSafe : Lived → Type 0
LeavesSafe (lived wd) = IsSafe wd
LeavesSafe (Lived.halted h) = Stops h

-- When a client can make the request of a window whose surface has the role: of a toplevel, which is
-- that role; or of an xdg_surface, for a toplevel only where the surface has none.
abbrev pub Allowed : Option ℕ → ℕ → ToplevelRequest ⊎ XdgSurfaceRequest → Type 0
Allowed role i (inl q) = role ≡ some i
Allowed role i (inr (given_toplevel made)) = role ≡ none
Allowed role i (inr XdgSurfaceRequest.destroyed) = Unit
Allowed role i (inr get_popup) = Unit
Allowed role i (inr set_window_geometry) = Unit
Allowed role i (inr ack_configure) = Unit

abbrev pub window_request :
    (Request → Aux → Sent) → ToplevelRequest ⊎ XdgSurfaceRequest → ℕ → World → Lived
window_request send (inl q) i wd = toplevel_request send q i wd
window_request send (inr q) i wd = xdg_surface_request send q i wd

module _ (send : Request → Aux → Sent) (law : KeepsTables send) (sends : SendsFlush send) (i : ℕ)
    (w : Window) (wd : World) (s : IsSafe wd) (at : wd.windows i ≡ some w) where
  on_window_safe : (next : Window → Lived) → LeavesSafe (next w) → LeavesSafe (on_window i wd next)
  on_window_safe next k =
      subst (λ o. LeavesSafe (elim o [ none ↦ Lived.halted Halt.crashed | some v ↦ next v ]))
        (sym at) k

  written_safe :
      (o : Outcome ℕ)
      → KeptOutcome wd.aux o
      → LeavesSafe (after Lived.halted o λ a. lived (record wd { aux = a }))
  written_safe (done x tagp a) k = requested-IsSafe a wd s k
  written_safe (failed tagp a) k = requested-IsSafe a wd s k
  written_safe Outcome.exited k = tt
  written_safe (Outcome.starved a) k = tt
  written_safe Outcome.stuck k = k

  set_title-LeavesSafe : (title : List ℕ) → LeavesSafe (set_title send i title wd)
  unfolding set_title
  set_title-LeavesSafe title = on_window_safe _ (step w.label)
    where
      step :
          (label : Option ℕ)
          → LeavesSafe (elim label [
            | none ↦ lived wd
            | some fid ↦
                after Lived.halted
                  (fswrite send false fid 0 title wd.aux)
                  λ a. lived (record wd { aux = a })
          ])
      step none = s
      step (some fid) =
          written_safe (fswrite send false fid 0 title wd.aux)
            (fswrite-Kept send law false fid 0 title wd.aux s.tags)

  gone_safe : (l : Lived) → Destroys i w.surface wd l → LeavesSafe l
  gone_safe (lived wd') k = gone-IsSafe i w wd wd' s at k
  gone_safe (Lived.halted h) k = k

  toplevel_gone_safe : (l : Lived) → TopDestroys i w wd l → LeavesSafe l
  toplevel_gone_safe (lived wd') k = toplevel_gone-IsSafe i w wd wd' s at k
  toplevel_gone_safe (Lived.halted h) k = k

  -- Every request of an xdg_surface whose window is not freed.
  pub xdg_surface_request-LeavesSafe :
      (q : XdgSurfaceRequest)
      → Allowed (wd.surfaces w.surface).role i (inr q)
      → LeavesSafe (xdg_surface_request send q i wd)
  unfolding xdg_surface_request
  xdg_surface_request-LeavesSafe XdgSurfaceRequest.destroyed k =
      gone_safe (xdg_surface_destroy send i wd)
        (xdg_surface_destroy-Destroys send law sends i w wd (IsSafe-Sound i w wd s at))
  xdg_surface_request-LeavesSafe (given_toplevel made) k = get_toplevel-IsSafe made i w wd s at k
  xdg_surface_request-LeavesSafe get_popup k = s
  xdg_surface_request-LeavesSafe set_window_geometry k = s
  xdg_surface_request-LeavesSafe ack_configure k = s

  -- Every request of a toplevel, the role of the surface of a window that is not freed.
  pub toplevel_request-LeavesSafe :
      (wd.surfaces w.surface).role ≡ some i
      → (q : ToplevelRequest) → LeavesSafe (toplevel_request send q i wd)
  unfolding toplevel_request
  toplevel_request-LeavesSafe role ToplevelRequest.destroyed =
      toplevel_gone_safe (toplevel_destroy send i wd) (
        toplevel_destroy-TopDestroys send law sends i w wd at s.tags
          (subst (λ r. Tied i r w wd.aux) role (s.ties i w at)).1)
  toplevel_request-LeavesSafe role (titled title) = set_title-LeavesSafe title
  toplevel_request-LeavesSafe role set_parent = s
  toplevel_request-LeavesSafe role set_app_id = s
  toplevel_request-LeavesSafe role show_window_menu = s
  toplevel_request-LeavesSafe role move = s
  toplevel_request-LeavesSafe role resize = s
  toplevel_request-LeavesSafe role set_max_size = s
  toplevel_request-LeavesSafe role set_min_size = s
  toplevel_request-LeavesSafe role set_maximized = s
  toplevel_request-LeavesSafe role unset_maximized = s
  toplevel_request-LeavesSafe role set_fullscreen = s
  toplevel_request-LeavesSafe role unset_fullscreen = s
  toplevel_request-LeavesSafe role set_minimized = s
