-- ===== src/Globals.antt =====
-- The globals of wl9.c and the objects that clients make from them: the bind functions,
-- `create_region`, `create_positioner`, `create_data_source`, `get_data_device`, `get_popup`,
-- `decoration_create`, `snarfoffer`, and the two requests that are refused. `made` is what
-- wl_resource_create returns: the new resource, or NULL.
pub mod Typed
pub mod Linked
pub mod Listed
pub mod Requests
mod Tests
use wl.Prelude.{ℕ, ◌+◌, Bool, true, false, Option, none, some, List, [], ◌∷◌, ◌==◌, if◌then◌else◌}
use wl.Prelude.Int.{ℤ, pos, ◌-ℤ◌}
use wl.Libc.{codes}

-- wl_compositor, and on.
pub data Interface : Type 0 where
  compositor region seat data_manager data_device data_source data_offer output wm_base positioner
        popup decoration_manager decoration :
      Interface

-- The tables of the requests' functions; wl_output has none.
pub data Implementation : Type 0 where
  compositor_impl region_impl seat_impl dataman_impl data_device_impl data_source_impl offer_impl
        no_impl wm_impl positioner_impl popup_impl decoman_impl deco_impl :
      Implementation

-- The function that is called when a resource is destroyed: `unlink_resource`, or NULL.
pub data Destructor : Type 0 where
  unlink no_destructor : Destructor

pub record Object : Type 0 where
  pub id : ℕ
  pub client : ℕ
  pub version : ℕ
  pub interface : Interface
  pub implementation : Implementation
  pub destructor : Destructor

-- The resources that live, the newest first, and the lists of `output` and `datadev`; `width` and
-- `height` are draw.x1 - draw.x0 and draw.y1 - draw.y0.
pub record Registry : Type 0 where
  pub objects : List Object
  pub outputs : List ℕ
  pub devices : List ℕ
  pub width : ℤ
  pub height : ℤ

-- What is sent, the first number being the resource: no memory (to a client, through a resource of
-- its own or not), an error with its code, and the events of the interfaces.
pub data Sent : Type 0 where
  client_no_memory no_memory : ℕ → Sent
  post_error : ℕ → ℕ → Sent
  capabilities : ℕ → ℕ → Sent
  geometry : ℕ → List ℕ → List ℕ → Sent
  mode : ℕ → ℕ → ℤ → ℤ → ℕ → Sent
  output_done : ℕ → Sent
  decoration_mode default_mode : ℕ → ℕ → Sent
  send_offer selection : ℕ → ℕ → Sent
  offer_mime : ℕ → List ℕ → Sent

abbrev pub Result : Type 0
Result = Registry × List Sent

abbrev pub add_object : Object → Registry → Registry
add_object o g = record g { objects = o ∷ g.objects }

abbrev pub object : Interface → Implementation → Destructor → ℕ → ℕ → ℕ → Object
object interface implementation destructor client version id = record {
  id = id;
  client = client;
  version = version;
  interface = interface;
  implementation = implementation;
  destructor = destructor;
}

-- wl_resource_create and wl_resource_set_implementation, and what is posted without memory.
abbrev pub create : Option ℕ → Sent → (ℕ → Object) → (ℕ → Registry → Result) → Registry → Result
create none refusal o next g = (g, refusal ∷ [])
create (some id) refusal o next g = next id (add_object (o id) g)

abbrev pub silent : ℕ → Registry → Result
silent id g = (g, [])

unfoldable pub bind_compositor : Option ℕ → ℕ → ℕ → Registry → Result
bind_compositor made c ver g =
    create made (client_no_memory c)
      (object Interface.compositor compositor_impl no_destructor c ver) silent g

unfoldable pub bind_wm : Option ℕ → ℕ → ℕ → Registry → Result
bind_wm made c ver g =
    create made (client_no_memory c) (object wm_base wm_impl no_destructor c ver) silent g

unfoldable pub bind_dataman : Option ℕ → ℕ → ℕ → Registry → Result
bind_dataman made c ver g =
    create made (client_no_memory c) (object data_manager dataman_impl no_destructor c ver) silent g

-- WL_SEAT_CAPABILITY_POINTER is 1, WL_SEAT_CAPABILITY_KEYBOARD 2.
unfoldable pub bind_seat : Option ℕ → ℕ → ℕ → Registry → Result
bind_seat made c ver g =
    create made (client_no_memory c) (object seat seat_impl no_destructor c ver)
      (λ id g'. (g', capabilities id 3 ∷ [])) g

-- WL_OUTPUT_MODE_CURRENT is 1.
unfoldable pub bind_output : Option ℕ → ℕ → ℕ → Registry → Result
bind_output made c ver g =
    create made (client_no_memory c) (object output no_impl unlink c ver)
      (λ id g'. (
        record g' { outputs = id ∷ g'.outputs },
        geometry id (codes "plan9") (codes "rio")
            ∷ mode id 1 g'.width g'.height 0
            ∷ output_done id
            ∷ [],
      ))
      g

-- ORG_KDE_KWIN_SERVER_DECORATION_MANAGER_MODE_SERVER, and that of a decoration.
abbrev pub mode_server : ℕ
mode_server = 2

unfoldable pub bind_decoman : Option ℕ → ℕ → ℕ → Registry → Result
bind_decoman made c ver g =
    create made (client_no_memory c) (object decoration_manager decoman_impl no_destructor c ver)
      (λ id g'. (g', default_mode id mode_server ∷ [])) g

-- The requests: r is the resource that they are made of, whose client makes them.
unfoldable pub create_region : Option ℕ → Object → Registry → Result
create_region made r g =
    create made (client_no_memory r.client)
      (object region region_impl no_destructor r.client r.version) silent g

unfoldable pub create_positioner : Option ℕ → Object → Registry → Result
create_positioner made r g =
    create made (client_no_memory r.client)
      (object positioner positioner_impl no_destructor r.client r.version) silent g

unfoldable pub get_popup : Option ℕ → ℕ → ℕ → Registry → Result
get_popup made c ver g =
    create made (client_no_memory c) (object popup popup_impl no_destructor c ver) silent g

unfoldable pub create_data_source : Option ℕ → Object → Registry → Result
create_data_source made r g =
    create made (no_memory r.id)
      (object data_source data_source_impl no_destructor r.client r.version) silent g

unfoldable pub get_data_device : Option ℕ → Object → Registry → Result
get_data_device made r g =
    create made (no_memory r.id) (object data_device data_device_impl unlink r.client r.version)
      (λ id g'. (record g' { devices = id ∷ g'.devices }, [])) g

unfoldable pub decoration_create : Option ℕ → Object → Registry → Result
decoration_create made r g =
    create made (client_no_memory r.client)
      (object decoration deco_impl no_destructor r.client r.version)
      (λ id g'. (g', decoration_mode id mode_server ∷ [])) g

-- WL_SEAT_ERROR_MISSING_CAPABILITY is 0.
unfoldable pub get_touch : Object → Registry → Result
get_touch r g = (g, post_error r.id 0 ∷ [])

-- The resource with the number.
abbrev pub find_object : ℕ → List Object → Option Object
find_object i [] = none
find_object i (o ∷ os) = let rest = find_object i os in if o.id == i then some o else rest

-- wl_resource_find_for_client: the first of the list that is the client's.
abbrev pub find_for_client : ℕ → List ℕ → List Object → Option Object
find_for_client c [] os = none
find_for_client c (i ∷ is) os =
    let rest = find_for_client c is os in
    elim (find_object i os) [ none ↦ rest | some o ↦ if o.client == c then some o else rest ]

abbrev pub offer_to : Option ℕ → Object → Registry → Result
offer_to none r g = (g, [])
offer_to (some id) r g = (
  add_object (object data_offer offer_impl no_destructor r.client r.version id) g,
  send_offer r.id id ∷ offer_mime id (codes "text/plain;charset=utf-8") ∷ selection r.id id ∷ [],
)

-- c is the client of the window that got the focus.
unfoldable pub snarfoffer : Option ℕ → ℕ → Registry → Result
snarfoffer made c g = elim (find_for_client c g.devices g.objects) [
  | none ↦ (g, [])
  | some r ↦ offer_to made r g
]

-- wl_list_remove
abbrev pub without : ℕ → List ℕ → List ℕ
without i [] = []
without i (x ∷ xs) = let rest = without i xs in if x == i then rest else x ∷ rest

abbrev pub without_object : ℕ → List Object → List Object
without_object i [] = []
without_object i (o ∷ os) = let rest = without_object i os in if o.id == i then rest else o ∷ rest

abbrev pub unlink_from : Destructor → ℕ → Registry → Registry
unlink_from no_destructor i g = g
unlink_from unlink i g = record g { outputs = without i g.outputs; devices = without i g.devices }

-- The end of a resource, by the request `destroy` or with its client.
unfoldable pub destroy : Object → Registry → Result
destroy r g =
    (unlink_from r.destructor r.id (record g { objects = without_object r.id g.objects }), [])
