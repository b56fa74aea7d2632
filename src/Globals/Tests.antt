-- ===== src/Globals/Tests.antt =====
-- A run of the requests for globals, and the theorem on them.
use wl.Prelude.{ℕ, ◌≡◌, refl, some, List, [], ◌∷◌, All, map}
use wl.Prelude.Int.{pos}
use wl.Libc.{codes}
use wl.Globals.{
  Interface, Implementation, Destructor, Object, object, Registry, selection, send_offer,
  offer_mime, Result, bind_output, bind_dataman, get_data_device, snarfoffer, destroy,
}
use wl.Globals.Typed.{IsRegistry, IsTyped}
use wl.Globals.Requests.{
  Request, binds_output, binds_dataman, gets_data_device, focus_offers, ends, AllAllowed,
  perform_all, perform_all-IsTyped,
}

abbrev empty_registry : Registry
empty_registry = record {
  objects = [];
  outputs = [];
  devices = [];
  width = pos 1920;
  height = pos 1080;
}

abbrev manager : Object
manager = object Interface.data_manager Implementation.dataman_impl Destructor.no_destructor 7 3 2

abbrev device : Object
device = object Interface.data_device Implementation.data_device_impl Destructor.unlink 7 3 3

-- Client 7 binds the output and the data device manager, and gets the focus.
abbrev requests : List Request
requests =
    binds_output (some 1) 7 4
    ∷ binds_dataman (some 2) 7 3
    ∷ gets_data_device (some 3) manager
    ∷ focus_offers (some 4) 7
    ∷ ends device
    ∷ focus_offers (some 5) 7
    ∷ []

requests-AllAllowed : AllAllowed requests empty_registry
unfolding bind_output bind_dataman get_data_device snarfoffer destroy
requests-AllAllowed = (refl, (refl, ((refl, refl), (refl, (refl, (refl, tt))))))

perform_all-IsTyped_example :
    IsRegistry (perform_all requests empty_registry).0
    × All IsTyped (perform_all requests empty_registry).1
perform_all-IsTyped_example =
    perform_all-IsTyped requests empty_registry
      (record { objects = tt; distinct = tt; outputs = refl; devices = refl }) requests-AllAllowed

lists : Registry → List ℕ × List ℕ
lists g = (g.outputs, g.devices)

offers :
    (lists (perform_all requests empty_registry).0 ≡ (1 ∷ [], []))
    × (map (λ (r : Result). r.1) (perform_all requests empty_registry).1
        ≡ (bind_output (some 1) 7 4 empty_registry).1
          ∷ []
          ∷ []
          ∷ (send_offer 3 4 ∷ offer_mime 4 (codes "text/plain;charset=utf-8") ∷ selection 3 4 ∷ [])
          ∷ []
          ∷ []
          ∷ [])
unfolding lists perform_all bind_output bind_dataman get_data_device snarfoffer destroy
offers = (refl, refl)
