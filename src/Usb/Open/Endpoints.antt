-- ===== src/Usb/Open/Endpoints.antt =====
-- src/usb_device.c: the search for endpoints leaves the interface numbers alone.
use android_usb_tether_macos.Usb.{find_endpoints, take_endpoint, UsbDevice, EndpointDescriptor}
use android_usb_tether_macos.Usb.Open.{
  both_endpoints, alternate_endpoints, endpoints_of, AltSetting, has_bulk,
}
use android_usb_tether_macos.Prelude.{
  ℕ, ◌∷◌, [], Bool, true, false, if◌then◌else◌, List, ◌∙◌, ◌≡◌, arith, refl, not, ◌==◌, ◌&&◌,
}

-- The search for endpoints leaves the two interface numbers alone.
pub record SameInterfaces (dev dev' : UsbDevice) : Type 0 where
  pub comm_eq : dev'.iface_comm ≡ dev.iface_comm
  pub data_eq : dev'.iface_data ≡ dev.iface_data

pub trans_same : {a b c : UsbDevice} → SameInterfaces a b → SameInterfaces b c → SameInterfaces a c
trans_same h k = record { comm_eq = k.comm_eq ∙ h.comm_eq; data_eq = k.data_eq ∙ h.data_eq }

pub if_same :
    (b : Bool) {dev : UsbDevice} (x : UsbDevice)
    → SameInterfaces dev x
    → SameInterfaces dev (if b then x else dev)
if_same true x h = h
if_same false x h = record { comm_eq = refl; data_eq = refl }

pub take_endpoint-SameInterfaces :
    (is_comm : Bool) (ep : EndpointDescriptor) (dev : UsbDevice)
    → SameInterfaces dev (take_endpoint is_comm ep dev)
unfolding take_endpoint
take_endpoint-SameInterfaces is_comm ep dev = record {
  comm_eq = ground arith;
  data_eq = ground arith;
}

pub find_endpoints-SameInterfaces :
    (is_comm : Bool) (eps : List EndpointDescriptor) (dev : UsbDevice)
    → SameInterfaces dev (find_endpoints is_comm eps dev)
unfolding find_endpoints
find_endpoints-SameInterfaces is_comm [] dev = record { comm_eq = refl; data_eq = refl }
find_endpoints-SameInterfaces is_comm (ep ∷ eps) dev =
    trans_same (take_endpoint-SameInterfaces is_comm ep dev)
      (find_endpoints-SameInterfaces is_comm eps _)

pub both_endpoints-SameInterfaces :
    (comm d : ℕ) (alts : List AltSetting) (dev : UsbDevice)
    → SameInterfaces dev (both_endpoints comm d alts dev)
unfolding both_endpoints
both_endpoints-SameInterfaces comm d [] dev = record { comm_eq = refl; data_eq = refl }
both_endpoints-SameInterfaces comm d (alt ∷ alts) dev =
    let eps = alt.interface.endpoints in
    trans_same
      (if_same (alt.b_interface_number == comm) _ (find_endpoints-SameInterfaces true eps dev))
      (trans_same
        (if_same (alt.b_interface_number == d) _ (find_endpoints-SameInterfaces false eps _))
        (both_endpoints-SameInterfaces comm d alts _))

pub alternate_endpoints-SameInterfaces :
    (d : ℕ) (alts : List AltSetting) (dev : UsbDevice)
    → SameInterfaces dev (alternate_endpoints d alts dev)
unfolding alternate_endpoints
alternate_endpoints-SameInterfaces d [] dev = record { comm_eq = refl; data_eq = refl }
alternate_endpoints-SameInterfaces d (alt ∷ alts) dev =
    trans_same
      (if_same ((alt.b_interface_number == d) && (alt.b_alternate_setting == 1)) _
        (find_endpoints-SameInterfaces false alt.interface.endpoints dev))
      (alternate_endpoints-SameInterfaces d alts _)

pub endpoints_of-SameInterfaces :
    (ok : Bool) (comm d : ℕ) (alts : List AltSetting) (dev : UsbDevice)
    → SameInterfaces dev (endpoints_of ok comm d alts dev)
unfolding endpoints_of
endpoints_of-SameInterfaces ok comm d alts dev =
    trans_same (both_endpoints-SameInterfaces comm d alts dev) (
      if_same (not (has_bulk (both_endpoints comm d alts dev)) && ok) _
        (alternate_endpoints-SameInterfaces d alts _))
