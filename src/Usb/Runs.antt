-- ===== src/Usb/Runs.antt =====
-- src/usb_device.c on concrete descriptors.
use android_usb_tether_macos.Usb.Endpoints.{find_endpoints_lem}
use android_usb_tether_macos.Usb.{is_rndis_interface, UsbDevice, find_endpoints, EndpointDescriptor}
use android_usb_tether_macos.Prelude.{List, [], false, ◌≡◌, ◌∷◌, true, refl}

abbrev no_endpoints : UsbDevice
no_endpoints = record {
  iface_comm = 0;
  iface_data = 1;
  ep_in = 0;
  ep_out = 0;
  ep_int = 0;
  ep_in_max = 0;
  ep_out_max = 0;
}

-- A bulk endpoint in each direction and an interrupt endpoint.
abbrev data_endpoints : List EndpointDescriptor
data_endpoints =
    record { b_endpoint_address = 0x81; bm_attributes = 2; w_max_packet_size = 512 }
    ∷ record { b_endpoint_address = 0x02; bm_attributes = 2; w_max_packet_size = 512 }
    ∷ record { b_endpoint_address = 0x83; bm_attributes = 3; w_max_packet_size = 8 }
    ∷ []

wireless :
    is_rndis_interface (record {
      b_interface_class = 0xE0;
      b_interface_sub_class = 1;
      b_interface_protocol = 3;
      endpoints = [];
    })
    ≡ true
unfolding is_rndis_interface
wireless = refl

find_endpoints_lem_example :
    find_endpoints false data_endpoints no_endpoints
    ≡ record no_endpoints { ep_in = 0x81; ep_in_max = 512; ep_out = 0x02; ep_out_max = 512 }
find_endpoints_lem_example = find_endpoints_lem false data_endpoints no_endpoints
