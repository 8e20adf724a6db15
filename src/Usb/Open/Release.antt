-- ===== src/Usb/Open/Release.antt =====
-- src/usb_device.c: what the search takes on the way it gives back, and the close gives back the rest.
use android_usb_tether_macos.Usb.Open.Endpoints.{endpoints_of-SameInterfaces}
use android_usb_tether_macos.Usb.Open.Held.{
  held_by_all, Keeps, in_loop, begun_held, held_by_all-append, with_handle, nothing_held, with_both,
  same_number, shut, if-Keeps, comm_held, both_held,
}
use android_usb_tether_macos.Usb.Open.{
  opened, closed, claimed_comm, released_comm, claimed_data, released_data, attached, initialised,
  exited, got_list, freed_list, got_config, freed_config, UsbCall, usb_find_rndis_device,
  search_devices, usb_close_device, take_config, Finding, take_device, try_candidate, Candidate,
  detaches, AltSetting, no_finding, interfaces_of, has_bulk, endpoints_of,
}
use mathlib.Core.List.{append_assoc}
use android_usb_tether_macos.Prelude.{
  ℕ, ◌∷◌, [], ◌++◌, Bool, true, false, none, some, List, Option, if◌then◌else◌, ◌≡◌, ◌∙◌, refl, ap,
  not,
}

module _ (a b : Bool) (comm d : ℕ) where
  abbrev begun_calls : List UsbCall
  begun_calls = detaches a comm ++ detaches b d

  taken-Keeps :
      (f : Finding)
      → f.dev.iface_comm ≡ comm
      → f.dev.iface_data ≡ d
      → Keeps true (
        true,
        f,
        opened ∷ (begun_calls ++ (claimed_comm comm ∷ claimed_data d ∷ freed_config ∷ [])),
      )
  taken-Keeps f e g = record { held_eq = begun_held a b comm d _ ∙ rw (e, g) refl }

  left-Keeps :
      (f : Finding) (calls : List UsbCall)
      → held_by_all calls (some (in_loop true with_handle)) ≡ some (in_loop false shut)
      → Keeps true (false, f, opened ∷ (begun_calls ++ calls))
  left-Keeps f calls e = record { held_eq = begun_held a b comm d calls ∙ e }

take_device-Keeps :
    (c : Candidate) (alts : List AltSetting) (comm d : ℕ) (f : Finding)
    → Keeps true (take_device c alts comm d f)
unfolding take_device
take_device-Keeps c alts comm d f =
    let same =
      endpoints_of-SameInterfaces c.set_alt_ok comm d alts
        (record f.dev { iface_comm = comm; iface_data = d }) in
    let left = left-Keeps c.comm_active c.data_active comm d in
    if-Keeps (not c.open_ok) true _ _ (record { held_eq = refl })
      (if-Keeps (not c.claim_comm_ok) true _ _ (left _ _ refl) (
        if-Keeps (not c.claim_data_ok) true _ _ (left _ _ (comm_held comm)) (
          if-Keeps
            (has_bulk (
              endpoints_of c.set_alt_ok comm d alts
                (record f.dev { iface_comm = comm; iface_data = d })))
            true _ _ (taken-Keeps c.comm_active c.data_active comm d _ same.comm_eq same.data_eq)
            (left _ _ (both_held comm d)))))

take_config-Keeps :
    (c : Candidate) (alts : List AltSetting) (i : Option (ℕ × ℕ)) (f : Finding)
    → Keeps true (take_config c alts i f)
unfolding take_config
take_config-Keeps c alts none f = record { held_eq = refl }
take_config-Keeps c alts (some (comm, d)) f = take_device-Keeps c alts comm d f

got_config-Keeps :
    (r : Bool × Finding × List UsbCall) → Keeps true r → Keeps false (r.0, r.1, got_config ∷ r.2)
got_config-Keeps (true, f, calls) k = record { held_eq = k.held_eq }
got_config-Keeps (false, f, calls) k = record { held_eq = k.held_eq }

try_candidate-Keeps :
    (c : Candidate) (config : Option (List AltSetting)) (f : Finding)
    → Keeps false (try_candidate c config f)
unfolding try_candidate
try_candidate-Keeps c none f = record { held_eq = refl }
try_candidate-Keeps c (some alts) f =
    if-Keeps c.has_descriptor false _ _
      (got_config-Keeps _ (take_config-Keeps c alts (interfaces_of alts) f))
      (record { held_eq = refl })

next-Keeps :
    (r s : Bool × Finding × List UsbCall)
    → Keeps false r
    → Keeps false s
    → Keeps false (if r.0 then (true, r.1, r.2) else (s.0, s.1, r.2 ++ s.2))
next-Keeps (true, f, calls) s k l = k
next-Keeps (false, f, calls) (true, g, more) k l = record {
  held_eq =
      held_by_all-append calls more (some (in_loop false shut))
      ∙ ap (held_by_all more) k.held_eq
      ∙ l.held_eq;
}
next-Keeps (false, f, calls) (false, g, more) k l = record {
  held_eq =
      held_by_all-append calls more (some (in_loop false shut))
      ∙ ap (held_by_all more) k.held_eq
      ∙ l.held_eq;
}

search_devices-Keeps : (cs : List Candidate) (f : Finding) → Keeps false (search_devices cs f)
unfolding search_devices
search_devices-Keeps [] f = record { held_eq = refl }
search_devices-Keeps (c ∷ cs) f =
    let r = try_candidate c c.config f in
    next-Keeps r (search_devices cs r.1) (try_candidate-Keeps c c.config f)
      (search_devices-Keeps cs r.1)

-- The search and, if it found a device, the close.
abbrev pub find_and_close : Bool × Finding × List UsbCall → List UsbCall
find_and_close (true, f, calls) = calls ++ usb_close_device f
find_and_close (false, f, calls) = calls

close_held :
    (detached_driver : Bool) (comm d : ℕ)
    → held_by_all
        (released_data d
          ∷ released_comm comm
          ∷ ((if detached_driver then attached comm ∷ [] else []) ++ (closed ∷ exited ∷ [])))
        (some (record { context = true; list = false; config = false; depth = with_both comm d }))
      ≡ some nothing_held
close_held true comm d = rw (same_number d, same_number comm, held_by_all) refl
close_held false comm d = rw (same_number d, same_number comm, held_by_all) refl

finish_held :
    (r : Bool × Finding × List UsbCall)
    → Keeps false r
    → held_by_all
        (find_and_close (
          r.0,
          r.1,
          initialised ∷ got_list ∷ (r.2 ++ (freed_list ∷ (if r.0 then [] else exited ∷ []))),
        ))
        (some nothing_held)
      ≡ some nothing_held
unfolding usb_close_device
finish_held (false, f, calls) k =
    held_by_all-append calls (freed_list ∷ exited ∷ []) (some (in_loop false shut))
    ∙ ap (held_by_all (freed_list ∷ exited ∷ [])) k.held_eq
finish_held (true, f, calls) k = rw (append_assoc calls (freed_list ∷ []) (usb_close_device f)) (
    held_by_all-append calls (freed_list ∷ usb_close_device f) (some (in_loop false shut))
    ∙ ap (held_by_all (freed_list ∷ usb_close_device f)) k.held_eq
    ∙ close_held f.kernel_detached f.dev.iface_comm f.dev.iface_data)

-- Whatever devices are on the bus and whichever calls on them fail, the search and the close of the device
-- that it found make their calls in the order that libusb allows, the context ended last, and leave nothing behind: no context, list or
-- configuration, no open handle and no claimed interface.
pub usb_find_rndis_device-usb_close_device :
    (init_ok : Bool) (devices : Option (List Candidate))
    → held_by_all (find_and_close (usb_find_rndis_device init_ok devices)) (some nothing_held)
      ≡ some nothing_held
unfolding usb_find_rndis_device
usb_find_rndis_device-usb_close_device false devices = refl
usb_find_rndis_device-usb_close_device true none = refl
usb_find_rndis_device-usb_close_device true (some cs) =
    finish_held (search_devices cs no_finding) (search_devices-Keeps cs no_finding)
