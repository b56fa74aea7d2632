-- ===== src/Globals/Typed.antt =====
-- What it is for the table of resources to be sound, and for an event to fit it.
use wl.Prelude.{ℕ, ◌≡◌, Bool, true, false, ◌||◌, none, some, List, [], ◌∷◌, All, if◌then◌else◌}
use wl.Globals.{
  Interface, seat, data_device, data_offer, output, decoration_manager, decoration, Implementation,
  compositor_impl, region_impl, seat_impl, dataman_impl, data_device_impl, data_source_impl,
  offer_impl, no_impl, wm_impl, positioner_impl, popup_impl, decoman_impl, deco_impl, Destructor,
  unlink, no_destructor, Object, Registry, Sent, client_no_memory, no_memory, post_error,
  capabilities, geometry, mode, output_done, decoration_mode, default_mode, send_offer, selection,
  offer_mime, Result, find_object,
}

-- The table that serves the requests of an interface.
abbrev pub impl_of : Interface → Implementation
impl_of Interface.compositor = compositor_impl
impl_of Interface.region = region_impl
impl_of seat = seat_impl
impl_of Interface.data_manager = dataman_impl
impl_of data_device = data_device_impl
impl_of Interface.data_source = data_source_impl
impl_of data_offer = offer_impl
impl_of output = no_impl
impl_of Interface.wm_base = wm_impl
impl_of Interface.positioner = positioner_impl
impl_of Interface.popup = popup_impl
impl_of decoration_manager = decoman_impl
impl_of decoration = deco_impl

abbrev pub is_output : Interface → Bool
is_output output = true
is_output _ = false

abbrev pub is_device : Interface → Bool
is_device data_device = true
is_device _ = false

abbrev pub is_seat : Interface → Bool
is_seat seat = true
is_seat _ = false

abbrev pub is_offer : Interface → Bool
is_offer data_offer = true
is_offer _ = false

abbrev pub is_decoration : Interface → Bool
is_decoration decoration = true
is_decoration _ = false

abbrev pub is_decoration_manager : Interface → Bool
is_decoration_manager decoration_manager = true
is_decoration_manager _ = false

abbrev pub is_any : Interface → Bool
is_any i = true

-- Only the resources that stand in a list are taken out of it.
abbrev pub destructor_of : Interface → Destructor
destructor_of i = if is_output i || is_device i then unlink else no_destructor

abbrev pub IsObject : Object → Type 0
IsObject o = (o.implementation ≡ impl_of o.interface) × (o.destructor ≡ destructor_of o.interface)

abbrev pub ids_where : (Interface → Bool) → List Object → List ℕ
ids_where p [] = []
ids_where p (o ∷ os) = let rest = ids_where p os in if p o.interface then o.id ∷ rest else rest

abbrev pub IsDistinct : List Object → Type 0
IsDistinct [] = Unit
IsDistinct (o ∷ os) = (find_object o.id os ≡ none) × IsDistinct os

-- Every resource has the functions of its interface, and the two lists hold the resources of theirs.
pub record IsRegistry (g : Registry) : Type 0 where
  pub objects : All IsObject g.objects
  pub distinct : IsDistinct g.objects
  pub outputs : g.outputs ≡ ids_where is_output g.objects
  pub devices : g.devices ≡ ids_where is_device g.objects

-- The resource lives, and its interface is one of these.
abbrev pub Live : (Interface → Bool) → Registry → ℕ → Type 0
Live p g i = (o : Object) × (find_object i g.objects ≡ some o) × (p o.interface ≡ true)

-- The event is one of the interface of the resource that it is sent to, and so is its argument.
abbrev pub Fits : Registry → Sent → Type 0
Fits g (client_no_memory c) = Unit
Fits g (no_memory i) = Live is_any g i
Fits g (post_error i code) = Live is_any g i
Fits g (capabilities i bits) = Live is_seat g i
Fits g (geometry i maker model) = Live is_output g i
Fits g (mode i flags width height refresh) = Live is_output g i
Fits g (output_done i) = Live is_output g i
Fits g (decoration_mode i m) = Live is_decoration g i
Fits g (default_mode i m) = Live is_decoration_manager g i
Fits g (send_offer i j) = Live is_device g i × Live is_offer g j
Fits g (offer_mime i mime) = Live is_offer g i
Fits g (selection i j) = Live is_device g i × Live is_offer g j

abbrev pub IsTyped : Result → Type 0
IsTyped r = IsRegistry r.0 × All (Fits r.0) r.1
