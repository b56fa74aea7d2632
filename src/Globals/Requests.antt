-- ===== src/Globals/Requests.antt =====
-- Any sequence of the requests that make and end these resources.
use wl.Prelude.{
  ℕ, ◌≡◌, refl, sym, ap, subst, ◌∙◌, Bool, true, false, Option, none, some, List, [], ◌∷◌, All,
  if◌then◌else◌, Option-cases, inl, inr, arith,
}
use wl.Globals.{
  Interface, Implementation, Destructor, Object, Registry, Sent, Result, add_object, object, create,
  bind_compositor, bind_wm, bind_dataman, bind_seat, bind_output, bind_decoman, create_region,
  create_positioner, get_popup, create_data_source, get_data_device, decoration_create, get_touch,
  find_object, find_for_client, offer_to, snarfoffer, destroy,
}
use wl.Globals.Typed.{
  is_any, is_output, is_device, is_offer, impl_of, destructor_of, IsObject, IsRegistry, Live, Fits,
  IsTyped,
}
use wl.Globals.Linked.{destroy-IsTyped}
use wl.Globals.Listed.{find_past, Found, ids_where-Found, find_for_client-Found}

-- A bind, with the client and the version, or a request.
pub data Request : Type 0 where
  binds_compositor binds_wm binds_dataman binds_seat binds_output binds_decoman :
      Option ℕ → ℕ → ℕ → Request
  makes_region makes_positioner makes_data_source gets_data_device makes_decoration :
      Option ℕ → Object → Request
  gets_popup : Option ℕ → ℕ → ℕ → Request
  gets_touch : Object → Request
  focus_offers : Option ℕ → ℕ → Request
  ends : Object → Request

abbrev pub perform : Request → Registry → Result
perform (binds_compositor made c ver) g = bind_compositor made c ver g
perform (binds_wm made c ver) g = bind_wm made c ver g
perform (binds_dataman made c ver) g = bind_dataman made c ver g
perform (binds_seat made c ver) g = bind_seat made c ver g
perform (binds_output made c ver) g = bind_output made c ver g
perform (binds_decoman made c ver) g = bind_decoman made c ver g
perform (makes_region made r) g = create_region made r g
perform (makes_positioner made r) g = create_positioner made r g
perform (makes_data_source made r) g = create_data_source made r g
perform (gets_data_device made r) g = get_data_device made r g
perform (makes_decoration made r) g = decoration_create made r g
perform (gets_popup made c ver) g = get_popup made c ver g
perform (gets_touch r) g = get_touch r g
perform (focus_offers made c) g = snarfoffer made c g
perform (ends r) g = destroy r g

-- wl_resource_create returns no resource that lives.
abbrev pub IsFresh : Option ℕ → Registry → Type 0
IsFresh none g = Unit
IsFresh (some id) g = find_object id g.objects ≡ none

abbrev pub Lives : Object → Registry → Type 0
Lives r g = find_object r.id g.objects ≡ some r

-- A request is made through a resource that lives.
abbrev pub Allowed : Request → Registry → Type 0
Allowed (binds_compositor made c ver) g = IsFresh made g
Allowed (binds_wm made c ver) g = IsFresh made g
Allowed (binds_dataman made c ver) g = IsFresh made g
Allowed (binds_seat made c ver) g = IsFresh made g
Allowed (binds_output made c ver) g = IsFresh made g
Allowed (binds_decoman made c ver) g = IsFresh made g
Allowed (makes_region made r) g = IsFresh made g × Lives r g
Allowed (makes_positioner made r) g = IsFresh made g × Lives r g
Allowed (makes_data_source made r) g = IsFresh made g × Lives r g
Allowed (gets_data_device made r) g = IsFresh made g × Lives r g
Allowed (makes_decoration made r) g = IsFresh made g × Lives r g
Allowed (gets_popup made c ver) g = IsFresh made g
Allowed (gets_touch r) g = Lives r g
Allowed (focus_offers made c) g = IsFresh made g
Allowed (ends r) g = Lives r g

-- Each is allowed where it comes.
abbrev pub AllAllowed : List Request → Registry → Type 0
AllAllowed [] g = Unit
AllAllowed (q ∷ qs) g = Allowed q g × AllAllowed qs (perform q g).0

-- A new resource, and what it adds to the lists.
abbrev listed : Bool → ℕ → List ℕ → List ℕ
listed b i is = if b then i ∷ is else is

found_here : (o : Object) (os : List Object) → find_object o.id (o ∷ os) ≡ some o
found_here o os = ground arith

-- What a request makes: a resource that has the functions of its interface and stands in its list.
made_one :
    (o : Object) (g : Registry) (out device : List ℕ) (said : List Sent)
    → IsRegistry g
    → IsObject o
    → find_object o.id g.objects ≡ none
    → out ≡ listed (is_output o.interface) o.id g.outputs
    → device ≡ listed (is_device o.interface) o.id g.devices
    → All (Fits (record g { objects = o ∷ g.objects; outputs = out; devices = device })) said
    → IsTyped (record g { objects = o ∷ g.objects; outputs = out; devices = device }, said)
made_one o g out device said h typed fresh e f fits = (
  record {
    objects = (typed, h.objects);
    distinct = (fresh, h.distinct);
    outputs = e ∙ ap (listed (is_output o.interface) o.id) h.outputs;
    devices = f ∙ ap (listed (is_device o.interface) o.id) h.devices;
  },
  fits,
)

offer_to-IsTyped :
    (made : Option ℕ) (r : Object) (g : Registry)
    → IsRegistry g
    → IsFresh made g
    → Lives r g
    → is_device r.interface ≡ true
    → IsTyped (offer_to made r g)
offer_to-IsTyped none r g h fresh live device = (h, tt)
offer_to-IsTyped (some id) r g h fresh live device =
    let o =
      object Interface.data_offer Implementation.offer_impl Destructor.no_destructor r.client
        r.version id in
    let to : Live is_device (add_object o g) r.id =
      (r, find_past r.id r o g.objects fresh live, device) in
    let new : Live is_offer (add_object o g) id = (o, found_here o g.objects, refl) in
    made_one o g g.outputs g.devices (offer_to (some id) r g).1 h (refl, refl) fresh refl refl
      ((to, new), (new, ((to, new), tt)))

snarfoffer-IsTyped :
    (made : Option ℕ) (c : ℕ) (g : Registry)
    → IsRegistry g
    → IsFresh made g
    → IsTyped (snarfoffer made c g)
unfolding snarfoffer
snarfoffer-IsTyped made c g h fresh = elim (Option-cases (find_for_client c g.devices g.objects)) [
  | inl e ↦ rw (e, snarfoffer) (h, tt)
  | inr (r, e) ↦
      let listed_ =
        subst (All (Found is_device g.objects)) (sym h.devices)
          (ids_where-Found is_device g.objects h.distinct) in
      let (live, device) = find_for_client-Found is_device c g.devices g.objects r listed_ e in
      rw (e, snarfoffer) (offer_to-IsTyped made r g h fresh live device)
]

-- A resource that stands in no list, and what it is told.
create-IsTyped :
    (made : Option ℕ) (refusal : Sent) (interface : Interface) (c ver : ℕ) (said : ℕ → List Sent)
    (g : Registry)
    → is_output interface ≡ false
    → is_device interface ≡ false
    → Destructor.no_destructor ≡ destructor_of interface
    → IsRegistry g
    → IsFresh made g
    → Fits g refusal
    → ((i : ℕ)
        → All
            (Fits (
              add_object (object interface (impl_of interface) Destructor.no_destructor c ver i) g))
            (said i))
    → IsTyped (
        create made refusal
          (object interface (impl_of interface) Destructor.no_destructor c ver)
          (λ i g'. (g', said i))
          g)
create-IsTyped none refusal interface c ver said g out device none_ h fresh fits told =
    (h, (fits, tt))
create-IsTyped (some i) refusal interface c ver said g out device none_ h fresh fits told =
    made_one (object interface (impl_of interface) Destructor.no_destructor c ver i) g g.outputs
      g.devices (said i) h (refl, none_) fresh (sym (ap (λ b. listed b i g.outputs) out))
      (sym (ap (λ b. listed b i g.devices) device)) (told i)

-- A request that can be refused through its own resource.
Lives-any : (r : Object) (g : Registry) → Lives r g → Live is_any g r.id
Lives-any r g live = (r, live, refl)

perform-IsTyped : (q : Request) (g : Registry) → IsRegistry g → Allowed q g → IsTyped (perform q g)
unfolding bind_compositor bind_wm bind_dataman bind_seat bind_output bind_decoman create_region
    create_positioner get_popup create_data_source get_data_device decoration_create get_touch
perform-IsTyped (binds_compositor made c ver) g h ok =
    create-IsTyped made _ Interface.compositor c ver (λ i. []) g refl refl refl h ok tt (λ i. tt)
perform-IsTyped (binds_wm made c ver) g h ok =
    create-IsTyped made _ Interface.wm_base c ver (λ i. []) g refl refl refl h ok tt (λ i. tt)
perform-IsTyped (binds_dataman made c ver) g h ok =
    create-IsTyped made _ Interface.data_manager c ver (λ i. []) g refl refl refl h ok tt (λ i. tt)
perform-IsTyped (binds_seat made c ver) g h ok =
    create-IsTyped made _ Interface.seat c ver _ g refl refl refl h ok tt
      (λ i. ((_, found_here _ g.objects, refl), tt))
perform-IsTyped (binds_decoman made c ver) g h ok =
    create-IsTyped made _ Interface.decoration_manager c ver _ g refl refl refl h ok tt
      (λ i. ((_, found_here _ g.objects, refl), tt))
perform-IsTyped (binds_output none c ver) g h ok = (h, (tt, tt))
perform-IsTyped (binds_output (some i) c ver) g h ok =
    let o = object Interface.output Implementation.no_impl Destructor.unlink c ver i in
    let new : Live is_output (add_object o g) i = (o, found_here o g.objects, refl) in
    made_one o g (i ∷ g.outputs) g.devices (bind_output (some i) c ver g).1 h (refl, refl) ok refl
      refl (new, (new, (new, tt)))
perform-IsTyped (makes_region made r) g h ok =
    create-IsTyped made _ Interface.region r.client r.version (λ i. []) g refl refl refl h ok.0 tt
      (λ i. tt)
perform-IsTyped (makes_positioner made r) g h ok =
    create-IsTyped made _ Interface.positioner r.client r.version (λ i. []) g refl refl refl h ok.0
      tt (λ i. tt)
perform-IsTyped (makes_data_source made r) g h ok =
    create-IsTyped made _ Interface.data_source r.client r.version (λ i. []) g refl refl refl h ok.0
      (Lives-any r g ok.1) (λ i. tt)
perform-IsTyped (gets_data_device none r) g h ok = (h, (Lives-any r g ok.1, tt))
perform-IsTyped (gets_data_device (some i) r) g h ok =
    made_one
      (object Interface.data_device Implementation.data_device_impl Destructor.unlink r.client
        r.version i)
      g g.outputs (i ∷ g.devices) [] h (refl, refl) ok.0 refl refl tt
perform-IsTyped (makes_decoration made r) g h ok =
    create-IsTyped made _ Interface.decoration r.client r.version _ g refl refl refl h ok.0 tt
      (λ i. ((_, found_here _ g.objects, refl), tt))
perform-IsTyped (gets_popup made c ver) g h ok =
    create-IsTyped made _ Interface.popup c ver (λ i. []) g refl refl refl h ok tt (λ i. tt)
perform-IsTyped (gets_touch r) g h ok = (h, (Lives-any r g ok, tt))
perform-IsTyped (focus_offers made c) g h ok = snarfoffer-IsTyped made c g h ok
perform-IsTyped (ends r) g h ok = destroy-IsTyped r g h ok

-- The requests in turn, and what each of them sends.
unfoldable pub perform_all : List Request → Registry → Registry × List (Registry × List Sent)
perform_all [] g = (g, [])
perform_all (q ∷ qs) g =
    let (g', said) = perform q g in let (g'', more) = perform_all qs g' in (g'', (g', said) ∷ more)

-- From a sound table of resources, where wl_resource_create gives new ones and requests come through
-- resources that live, any sequence of binds, requests and ends of resources leaves it sound: each
-- resource has the functions of its own interface, and the lists of outputs and data devices hold
-- exactly those that live; and every event on the way is sent to a resource that lives then, and is
-- one of its interface.
pub perform_all-IsTyped :
    (qs : List Request) (g : Registry)
    → IsRegistry g
    → AllAllowed qs g
    → IsRegistry (perform_all qs g).0 × All IsTyped (perform_all qs g).1
unfolding perform_all
perform_all-IsTyped [] g h ok = (h, tt)
perform_all-IsTyped (q ∷ qs) g h ok =
    let typed = perform-IsTyped q g h ok.0 in
    let (sound, rest) = perform_all-IsTyped qs (perform q g).0 typed.0 ok.1 in
    (sound, (typed, rest))
