-- ===== src/Usb/Open.antt =====
-- src/usb_device.c, `usb_find_rndis_device` and `usb_close_device`: the search through the devices on the
-- bus. What libusb answers for a device is a `Candidate`; the calls that take or give back something
-- are the result. The alternate settings of a configuration are listed in the order of the nested loops.
pub mod Held
pub mod Endpoints
pub mod Release
mod Runs
use android_usb_tether_macos.Usb.{
  UsbDevice, InterfaceDescriptor, is_rndis_interface, find_endpoints, is_data_interface,
}
use android_usb_tether_macos.Prelude.{
  ℕ, ◌∷◌, [], ◌++◌, Bool, true, false, none, some, ◌+◌, List, if◌then◌else◌, Option, ◌||◌, ◌==◌,
  not, ◌&&◌,
}

pub record AltSetting : Type 0 where
  pub b_interface_number : ℕ
  pub b_alternate_setting : ℕ
  pub interface : InterfaceDescriptor

pub data UsbCall : Type 0 where
  initialised : UsbCall
  exited : UsbCall
  got_list : UsbCall
  freed_list : UsbCall
  got_config : UsbCall
  freed_config : UsbCall
  opened : UsbCall
  closed : UsbCall
  claimed_comm : ℕ → UsbCall
  released_comm : ℕ → UsbCall
  claimed_data : ℕ → UsbCall
  released_data : ℕ → UsbCall
  detached : ℕ → UsbCall
  attached : ℕ → UsbCall

-- One device: whether its descriptor is read, its active configuration, and whether each later call on
-- it succeeds; `comm_active` and `data_active` are what `libusb_kernel_driver_active` says.
pub record Candidate : Type 0 where
  pub has_descriptor : Bool
  pub config : Option (List AltSetting)
  pub open_ok : Bool
  pub comm_active : Bool
  pub data_active : Bool
  pub claim_comm_ok : Bool
  pub claim_data_ok : Bool
  pub set_alt_ok : Bool

-- `usb_device_t` while it is filled in.
pub record Finding : Type 0 where
  pub dev : UsbDevice
  pub kernel_detached : Bool

-- `comm_iface` and `data_iface`, `none` for -1.
pub record Interfaces : Type 0 where
  pub comm_iface : Option ℕ
  pub data_iface : Option ℕ

abbrev pub is_found : Option ℕ → Bool
is_found none = false
is_found (some n) = true

unfoldable pub look_at : AltSetting → Interfaces → Interfaces
look_at alt i =
    let comm =
      if is_rndis_interface alt.interface then some alt.b_interface_number else i.comm_iface in
    let data' =
      if is_data_interface alt.interface && is_found comm
      then some alt.b_interface_number
      else i.data_iface in
    record { comm_iface = comm; data_iface = data' }

unfoldable pub find_interfaces : List AltSetting → Interfaces → Interfaces
find_interfaces [] i = i
find_interfaces (alt ∷ alts) i = find_interfaces alts (look_at alt i)

-- The interface behind the communication interface, where no data interface was found.
unfoldable pub next_interface : ℕ → List AltSetting → Option ℕ → Option ℕ
next_interface comm [] found = found
next_interface comm (alt ∷ alts) found =
    next_interface comm alts
      (if alt.b_interface_number == comm + 1 then some alt.b_interface_number else found)

-- The two interfaces of a configuration, if it has both.
unfoldable pub interfaces_of : List AltSetting → Option (ℕ × ℕ)
interfaces_of alts =
    let i = find_interfaces alts (record { comm_iface = none; data_iface = none }) in
    elim i.comm_iface [
      | none ↦ none
      | some comm ↦ elim i.data_iface [
        | some d ↦ some (comm, d)
        | none ↦ elim (next_interface comm alts none) [ some d ↦ some (comm, d) | none ↦ none ]
      ]
    ]

-- The endpoints of both interfaces.
unfoldable pub both_endpoints : ℕ → ℕ → List AltSetting → UsbDevice → UsbDevice
both_endpoints comm d [] dev = dev
both_endpoints comm d (alt ∷ alts) dev =
    let eps = alt.interface.endpoints in
    let dev1 = if alt.b_interface_number == comm then find_endpoints true eps dev else dev in
    let dev2 = if alt.b_interface_number == d then find_endpoints false eps dev1 else dev1 in
    both_endpoints comm d alts dev2

-- Those of alternate setting 1 of the data interface.
unfoldable pub alternate_endpoints : ℕ → List AltSetting → UsbDevice → UsbDevice
alternate_endpoints d [] dev = dev
alternate_endpoints d (alt ∷ alts) dev = alternate_endpoints d alts (
    if (alt.b_interface_number == d) && (alt.b_alternate_setting == 1)
    then find_endpoints false alt.interface.endpoints dev
    else dev)

abbrev pub has_bulk : UsbDevice → Bool
has_bulk dev = not (dev.ep_in == 0) && not (dev.ep_out == 0)

unfoldable pub endpoints_of : Bool → ℕ → ℕ → List AltSetting → UsbDevice → UsbDevice
endpoints_of set_alt_ok comm d alts dev =
    let dev' = both_endpoints comm d alts dev in
    if not (has_bulk dev') && set_alt_ok then alternate_endpoints d alts dev' else dev'

abbrev pub detaches : Bool → ℕ → List UsbCall
detaches active iface = if active then detached iface ∷ [] else []

-- A device with both interfaces: whether it is taken, the structure, and the calls, the last of which
-- frees the configuration.
unfoldable pub take_device :
    Candidate → List AltSetting → ℕ → ℕ → Finding → Bool × Finding × List UsbCall
take_device c alts comm d f =
    let f1 : Finding = record {
      dev = record f.dev { iface_comm = comm; iface_data = d };
      kernel_detached = f.kernel_detached || c.comm_active;
    } in
    let begun = opened ∷ (detaches c.comm_active comm ++ detaches c.data_active d) in
    let f2 = record f1 { dev = endpoints_of c.set_alt_ok comm d alts f1.dev } in
    if not c.open_ok
    then (false, f, freed_config ∷ [])
    else if not c.claim_comm_ok
    then (false, f1, begun ++ (closed ∷ freed_config ∷ []))
    else if not c.claim_data_ok
    then (false, f1, begun ++ (claimed_comm comm ∷ released_comm comm ∷ closed ∷ freed_config ∷ []))
    else if has_bulk f2.dev
    then (true, f2, begun ++ (claimed_comm comm ∷ claimed_data d ∷ freed_config ∷ []))
    else (
      false,
      f2,
      begun
          ++ (claimed_comm comm
              ∷ claimed_data d
              ∷ released_data d
              ∷ released_comm comm
              ∷ closed
              ∷ freed_config
              ∷ []),
    )

-- With a configuration: its interfaces, if it has both.
unfoldable pub take_config :
    Candidate → List AltSetting → Option (ℕ × ℕ) → Finding → Bool × Finding × List UsbCall
take_config c alts none f = (false, f, freed_config ∷ [])
take_config c alts (some (comm, d)) f = take_device c alts comm d f

-- One round of the loop.
unfoldable pub try_candidate :
    Candidate → Option (List AltSetting) → Finding → Bool × Finding × List UsbCall
try_candidate c none f = (false, f, [])
try_candidate c (some alts) f =
    if c.has_descriptor
    then (let (taken, f', calls) = take_config c alts (interfaces_of alts) f in
        (taken, f', got_config ∷ calls))
    else (false, f, [])

unfoldable pub search_devices : List Candidate → Finding → Bool × Finding × List UsbCall
search_devices [] f = (false, f, [])
search_devices (c ∷ cs) f =
    let (taken, f', calls) = try_candidate c c.config f in
    let (taken', f'', more) = search_devices cs f' in
    if taken then (true, f', calls) else (taken', f'', calls ++ more)

-- `memset(dev, 0, sizeof(*dev))`.
abbrev pub no_finding : Finding
no_finding = record {
  dev = record {
    iface_comm = 0;
    iface_data = 0;
    ep_in = 0;
    ep_out = 0;
    ep_int = 0;
    ep_in_max = 0;
    ep_out_max = 0;
  };
  kernel_detached = false;
}

-- `init_ok` and the devices are what libusb answers, `none` where it has no list.
unfoldable pub usb_find_rndis_device :
    Bool → Option (List Candidate) → Bool × Finding × List UsbCall
usb_find_rndis_device false devices = (false, no_finding, [])
usb_find_rndis_device true none = (false, no_finding, initialised ∷ exited ∷ [])
usb_find_rndis_device true (some cs) =
    let (found, f, calls) = search_devices cs no_finding in
    (
      found,
      f,
      initialised ∷ got_list ∷ (calls ++ (freed_list ∷ (if found then [] else exited ∷ []))),
    )

-- On an open device.
unfoldable pub usb_close_device : Finding → List UsbCall
usb_close_device f =
    released_data f.dev.iface_data
    ∷ released_comm f.dev.iface_comm
    ∷ ((if f.kernel_detached then attached f.dev.iface_comm ∷ [] else []) ++ (closed ∷ exited ∷ []))
