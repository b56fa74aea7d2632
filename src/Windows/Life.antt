-- ===== src/Windows/Life.antt =====
-- The life of a window in wl9.c: `get_xdg_surface`, `get_toplevel`, `set_title`, `toplevel_destroy`,
-- `xdgsurface_surface_destroyed` and `xdg_surface_destroy`, with the store of windows and surfaces. A
-- window that is freed is `none`.
use wl.Prelude.{ℕ, Bool, true, false, Option, none, some, List, [], ◌∷◌, ◌==◌, if◌then◌else◌}
use wl.Prelude.Int.{pos}
use wl.Fs.State.{Aux, Request, Sent}
use wl.Fs.Dispatch.{fsflush}
use wl.Fs.Requests.{fsclunk, fswrite}
use wl.Util.Bytes.{putle32}
use wl.Compositor.Focus
use wl.Compositor.Focus.{Group, same_window, mousefocus, kbdfocus}
use wl.Compositor.Surface.{Surface}
use wl.Windows.{Window, fid_number, Halt, Ended, ended}
use wl.Windows.Open.{after, after_flush}

-- `mouse` and `kbd` are those of wl9.c, `datafid` is that of /dev/draw. A toplevel resource is kept by
-- its window: as the role of a surface, or among `strays` where another has become the role of its
-- surface. The copies of the selection are those of Selection; what they have of the connection
-- is in `aux`.
pub record World : Type 0 where
  pub aux : Aux
  pub mouse : Group
  pub kbd : Group
  pub datafid : ℕ
  pub windows : ℕ → Option Window
  pub surfaces : ℕ → Surface
  pub strays : List ℕ

pub data Lived : Type 0 where
  lived : World → Lived
  halted : Halt → Lived

abbrev pub upd : {A : Type 0} → ℕ → A → (ℕ → A) → ℕ → A
upd i x f j = if j == i then x else f j

abbrev pub put_window : ℕ → Option Window → World → World
put_window i w wd = record wd { windows = upd i w wd.windows }

abbrev pub put_role : ℕ → Option ℕ → World → World
put_role s role wd = record wd {
  surfaces = upd s (record (wd.surfaces s) { role = role }) wd.surfaces;
}

-- The window at i as it stands after calloc and what follows; C9tag's -1 is 0xffff. image is not set.
abbrev pub new_window : ℕ → ℕ → ℕ → Window
new_window i surface client = record {
  id = i;
  surface = surface;
  client = client;
  toplevel = false;
  listening = true;
  initial_commit = true;
  wsys = none;
  wctl = none;
  winname = none;
  label = none;
  mouse = none;
  kbd = none;
  wctltag = 0xffff;
  mousetag = 0xffff;
  kbdtag = 0xffff;
  image = some 0;
  name = [];
  control = record {
    x0 = pos 0;
    y0 = pos 0;
    x1 = pos 0;
    y1 = pos 0;
    current = false;
    hidden = false;
  };
}

-- `room` and `made` say whether calloc and wl_resource_create succeed, i is what calloc returns.
unfoldable pub get_xdg_surface : Bool → Bool → ℕ → ℕ → ℕ → World → World
get_xdg_surface false made i surface client wd = wd
get_xdg_surface true false i surface client wd = wd
get_xdg_surface true true i surface client wd = put_window i (some (new_window i surface client)) wd

-- The role that was is left, as a resource that is no role.
abbrev pub displace : Option ℕ → List ℕ → List ℕ
displace none strays = strays
displace (some v) strays = v ∷ strays

-- w->toplevel is set to what wl_resource_create returns; a surface's commit is set with its role.
unfoldable pub get_toplevel : Bool → ℕ → World → World
get_toplevel made i wd = elim (wd.windows i) [
  | none ↦ wd
  | some w ↦
      let wd' = put_window i (some (record w { toplevel = made })) wd in
      if made
      then put_role w.surface (some i)
          (record wd' { strays = displace (wd.surfaces w.surface).role wd.strays })
      else wd'
]

-- `wl_resource_get_user_data(r)` gives a window that was freed: the program has crashed.
abbrev pub on_window : ℕ → World → (Window → Lived) → Lived
on_window i wd next = elim (wd.windows i) [ none ↦ Lived.halted Halt.crashed | some w ↦ next w ]

abbrev pub focused : Window → Focus.Window
focused w = record { id = w.id; client = w.client; surface = w.surface }

abbrev pub unfocus : Window → World → World
unfocus w wd = record wd {
  kbd = if same_window wd.kbd.focus (some (focused w)) then kbdfocus none wd.kbd else wd.kbd;
  mouse =
      if same_window wd.mouse.focus (some (focused w))
      then mousefocus none 0 0 wd.mouse
      else wd.mouse;
}

abbrev pub freed : ℕ → Window → Lived → Lived
freed i w (lived wd) = lived (put_window i none (unfocus w wd))
freed i w (Lived.halted h) = Lived.halted h

module _ (send : Request → Aux → Sent) where
  unfoldable pub set_title : ℕ → List ℕ → World → Lived
  set_title i title wd = on_window i wd λ w. elim w.label [
    | none ↦ lived wd
    | some label ↦
        after Lived.halted (fswrite send false label 0 title wd.aux)
          λ a. lived (record wd { aux = a })
  ]

  abbrev pub clunk : Option ℕ → Aux → (Aux → Ended) → Ended
  clunk fid a next = after Ended.halted (fsclunk send (fid_number fid) a) next

  -- `tag != -1` compares a uint16_t, and holds for every tag.
  abbrev pub flush_tag : ℕ → Aux → (Aux → Ended) → Ended
  flush_tag t a next = after_flush Ended.halted (fsflush send t a) next

  abbrev pub close_files : Window → Aux → (Aux → Ended) → Ended
  close_files w a next = elim w.wsys [
    | none ↦ next a
    | some wsys ↦ clunk (some wsys) a λ a1. clunk w.wctl a1 λ a2. flush_tag w.wctltag a2 λ a3.
        clunk w.winname a3 λ a4. clunk w.label a4 λ a5.
          clunk w.mouse a5
            λ a6. flush_tag w.mousetag a6 λ a7. clunk w.kbd a7 λ a8. flush_tag w.kbdtag a8 next
  ]

  abbrev pub free_image : ℕ → Window → Aux → (Aux → Ended) → Ended
  free_image datafid w a next = elim w.image [
    | none ↦ next a
    | some image ↦ after Ended.halted (fswrite send false datafid 0 (b'f' ∷ putle32 image) a) next
  ]

  unfoldable pub close_window : ℕ → Window → Aux → Ended
  close_window datafid w a =
      close_files w a λ a1. free_image datafid w a1 λ a2. ended (record w { toplevel = false }) a2

  abbrev pub closed_window : ℕ → World → Ended → Lived
  closed_window i wd (ended w a) =
      lived (put_role w.surface none (put_window i (some w) (record wd { aux = a })))
  closed_window i wd (Ended.halted h) = Lived.halted h

  unfoldable pub toplevel_destroy : ℕ → World → Lived
  unfolding close_window
  toplevel_destroy i wd = on_window i wd λ w. closed_window i wd (close_window wd.datafid w wd.aux)

  -- `wl_resource_destroy(w->surface->role)`
  abbrev pub destroy_role : ℕ → World → Lived
  destroy_role s wd =
      let there = λ (v : ℕ). toplevel_destroy v wd in
      elim (wd.surfaces s).role [ none ↦ lived wd | some v ↦ there v ]

  unfoldable pub xdg_surface_destroy : ℕ → World → Lived
  unfolding toplevel_destroy
  xdg_surface_destroy i wd = on_window i wd λ w.
      freed i w (destroy_role w.surface (put_window i (some (record w { listening = false })) wd))

  -- The wl_surface goes first: its destruction calls the listener of the window.
  unfoldable pub xdgsurface_surface_destroyed : ℕ → World → Lived
  unfolding xdg_surface_destroy
  xdgsurface_surface_destroyed i wd =
      on_window i wd λ w. if w.listening then xdg_surface_destroy i wd else lived wd
