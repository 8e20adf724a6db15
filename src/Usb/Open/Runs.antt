-- ===== src/Usb/Open/Runs.antt =====
-- src/usb_device.c: the search on two devices.
use android_usb_tether_macos.Usb.Open.Release.{
  find_and_close, usb_find_rndis_device-usb_close_device,
}
use android_usb_tether_macos.Usb.Open.Held.{held_by_all, nothing_held}
use android_usb_tether_macos.Usb.{
  EndpointDescriptor, is_rndis_interface, is_data_interface, find_endpoints, take_endpoint,
}
use android_usb_tether_macos.Usb.Open.{
  AltSetting, usb_find_rndis_device, search_devices, Candidate, try_candidate, take_config,
  take_device, interfaces_of, find_interfaces, look_at, endpoints_of, both_endpoints,
  alternate_endpoints,
}
use android_usb_tether_macos.Prelude.{◌∷◌, [], true, false, some, ◌≡◌, refl, List}

-- A setting with an RNDIS interface that has the bulk endpoints given.
abbrev rndis_setting : List EndpointDescriptor → AltSetting
rndis_setting eps = record {
  b_interface_number = 0;
  b_alternate_setting = 0;
  interface = record {
    b_interface_class = 0xE0;
    b_interface_sub_class = 1;
    b_interface_protocol = 3;
    endpoints = eps;
  };
}

abbrev data_setting : AltSetting
data_setting = record {
  b_interface_number = 1;
  b_alternate_setting = 0;
  interface = record {
    b_interface_class = 0x0A;
    b_interface_sub_class = 0;
    b_interface_protocol = 0;
    endpoints = [];
  };
}

abbrev bulk_in : EndpointDescriptor
bulk_in = record { b_endpoint_address = 0x81; bm_attributes = 2; w_max_packet_size = 512 }

abbrev bulk_out : EndpointDescriptor
bulk_out = record { b_endpoint_address = 0x02; bm_attributes = 2; w_max_packet_size = 512 }

-- A device on which every call succeeds, with a kernel driver on its first interface.
abbrev device_with : List EndpointDescriptor → Candidate
device_with eps = record {
  has_descriptor = true;
  config = some (rndis_setting eps ∷ data_setting ∷ []);
  open_ok = true;
  comm_active = true;
  data_active = false;
  claim_comm_ok = true;
  claim_data_ok = true;
  set_alt_ok = true;
}

abbrev two_halves : List Candidate
two_halves = device_with (bulk_in ∷ []) ∷ device_with (bulk_out ∷ []) ∷ []

-- Neither device has both endpoints, but the second is taken with the one that the first left behind.
two_halves_found : (usb_find_rndis_device true (some two_halves)).0 ≡ true
unfolding usb_find_rndis_device search_devices try_candidate take_config take_device interfaces_of
    find_interfaces look_at is_rndis_interface is_data_interface endpoints_of both_endpoints
    alternate_endpoints find_endpoints take_endpoint
two_halves_found = refl

usb_find_rndis_device-usb_close_device_example :
    held_by_all (find_and_close (usb_find_rndis_device true (some two_halves))) (some nothing_held)
    ≡ some nothing_held
usb_find_rndis_device-usb_close_device_example =
    usb_find_rndis_device-usb_close_device true (some two_halves)
