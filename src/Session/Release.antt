-- ===== src/Session/Release.antt =====
-- What a session of src/main.c takes it gives back, on every way out.
use android_usb_tether_macos.Session.Network.{present_after, commands_of_all, nothing_set}
use android_usb_tether_macos.Utun.{
  utun_set_dns, utun_restore_dns, utun_register_service, utun_unregister_service,
  utun_set_default_route,
}
use android_usb_tether_macos.Wire.{Bytes}
use android_usb_tether_macos.Session.{
  driver_memory, state_memory, usb_device, utun_interface, network, bridge, threads, took, gave,
  Resource, Act, Arguments, Outcomes, bridge_session, bind_network, restore_network_state, Lease,
  device_session, utun_session, run_session, proto_rndis_create, proto_driver_validate,
  choose_addresses, rndis_drv_destroy, configured_with, driver_session,
}
use android_usb_tether_macos.Prelude.{
  ℕ, ◌∷◌, [], Bool, true, false, none, some, ◌≡◌, inl, inr, List, Option, if◌then◌else◌, refl,
  Option-cases, ◌&&◌,
}

abbrev pub same_resource : Resource → Resource → Bool
same_resource driver_memory driver_memory = true
same_resource state_memory state_memory = true
same_resource usb_device usb_device = true
same_resource utun_interface utun_interface = true
same_resource network network = true
same_resource bridge bridge = true
same_resource threads threads = true
same_resource _ _ = false

-- The resources held, the last one first; `none` if one is given back that is not the last one taken.
abbrev pub held_after : List Act → List Resource → Option (List Resource)
held_after [] held = some held
held_after (took r ∷ acts) held = held_after acts (r ∷ held)
held_after (gave r ∷ acts) [] = none
held_after (gave r ∷ acts) (s ∷ held) = if same_resource r s then held_after acts held else none
held_after (_ ∷ acts) held = held_after acts held

-- From the resources `held` on, all of them are given back, and of the settings of the network none
-- is left, whichever addresses the service was registered with.
pub record Clears (held : List Resource) (acts : List Act) : Type 0 where
  pub released : held_after acts held ≡ some []
  pub restored : (a : Lease) → present_after (commands_of_all a acts) nothing_set ≡ nothing_set

abbrev after_driver : List Resource
after_driver = state_memory ∷ driver_memory ∷ []

cleared :
    {held : List Resource} {acts : List Act}
    → held_after acts held ≡ some []
    → ((a : Lease) → present_after (commands_of_all a acts) nothing_set ≡ nothing_set)
    → Clears held acts
cleared r n = record { released = r; restored = n }

bridge_session-Clears :
    (no_route no_dns ipc : Bool) (a : Lease) (our_ip_n : ℕ)
    → Clears
        (utun_interface ∷ usb_device ∷ after_driver)
        (bridge_session no_route no_dns ipc a our_ip_n)
unfolding bridge_session bind_network restore_network_state utun_set_dns utun_restore_dns
    utun_register_service utun_unregister_service utun_set_default_route
bridge_session-Clears true true true a n = cleared refl (λ b. refl)
bridge_session-Clears true true false a n = cleared refl (λ b. refl)
bridge_session-Clears true false true a n = cleared refl (λ b. refl)
bridge_session-Clears true false false a n = cleared refl (λ b. refl)
bridge_session-Clears false true true a n = cleared refl (λ b. refl)
bridge_session-Clears false true false a n = cleared refl (λ b. refl)
bridge_session-Clears false false true a n = cleared refl (λ b. refl)
bridge_session-Clears false false false a n = cleared refl (λ b. refl)

-- One more resource, taken first.
took-Clears :
    {r : Resource} {held : List Resource} {acts : List Act}
    → Clears (r ∷ held) acts
    → Clears held (took r ∷ acts)
took-Clears c = cleared c.released c.restored

configured-Clears :
    {held : List Resource} {acts : List Act} (ip gateway netmask : Bytes)
    → Clears held acts
    → Clears held (configured_with ip gateway netmask ∷ acts)
configured-Clears ip gateway netmask c = cleared c.released c.restored

if-Clears :
    {held : List Resource} (b : Bool) (x y : List Act × ℕ)
    → Clears held x.0
    → Clears held y.0
    → Clears held (if b then x else y).0
if-Clears true x y h k = h
if-Clears false x y h k = k

destroyed : Clears after_driver rndis_drv_destroy
destroyed = cleared refl (λ b. refl)

closed : Clears (usb_device ∷ after_driver) (gave usb_device ∷ rndis_drv_destroy)
closed = cleared refl (λ b. refl)

module _ (inet_pton : Bytes → Option ℕ) (args : Arguments) (o : Outcomes) where
  utun_session-Clears :
      (a : Lease) → Clears (usb_device ∷ after_driver) (utun_session inet_pton args o a).0
  unfolding utun_session
  utun_session-Clears a = elim (Option-cases (inet_pton a.ip)) [
    | inl e ↦ rw (e, utun_session) closed
    | inr (n, e) ↦
        rw (e, utun_session)
          (if-Clears o.utun_ok _ _
            (if-Clears o.configured _ _
              (took-Clears (
                configured-Clears a.ip a.gateway a.netmask
                  (bridge_session-Clears args.no_route args.no_dns args.ipc a n)))
              (cleared refl (λ b. refl)))
            closed)
  ]

  device_session-Clears : Clears after_driver (device_session inet_pton args o).0
  unfolding device_session
  device_session-Clears =
      if-Clears o.found _ _
        (if-Clears (o.init_ok && o.mac_ok) _ _
          (took-Clears (utun_session-Clears (choose_addresses args o.dhcp))) (took-Clears closed))
        destroyed

  driver_session-Clears :
      (driver_ok state_ok : Bool)
      → Clears [] (driver_session inet_pton args o (proto_rndis_create driver_ok state_ok)).0
  unfolding driver_session proto_rndis_create proto_driver_validate
  driver_session-Clears false _ = cleared refl (λ b. refl)
  driver_session-Clears true false = cleared refl (λ b. refl)
  driver_session-Clears true true = took-Clears (took-Clears device_session-Clears)

-- A session, whatever fails in it and whatever its options, gives back everything that it took, the last
-- thing first: memory, device, interface, network, bridge and threads. Where the commands do what they
-- say, none of the keys of configd, the routes and the saved file that it made is left behind.
pub run_session-Clears :
    (inet_pton : Bytes → Option ℕ) (args : Arguments) (o : Outcomes)
    → Clears [] (run_session inet_pton args o).0
unfolding run_session
run_session-Clears inet_pton args o =
    driver_session-Clears inet_pton args o o.driver_allocated o.state_allocated
