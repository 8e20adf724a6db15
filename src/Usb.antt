-- ===== src/Usb.antt =====
-- src/usb_device.c: the tests on interface descriptors, the search for endpoints and the four transfer
-- calls. libusb is the record `Libusb`: its calls take the state of the bus and return the new one.

pub mod Endpoints
pub mod Open
mod Runs
use android_usb_tether_macos.Wire.{Bytes}
use android_usb_tether_macos.Prelude.{
  ℕ, ◌∷◌, [], List, Bool, ◌%◌, ℤ, if◌then◌else◌, ◌==◌, negsuc, ◌^◌, ◌/◌, length, pos, true, ◌&&◌,
  is_negative, false, minus_one,
}

-- `usb_device_t`, without the pointers to libusb's own data.
pub record UsbDevice : Type 0 where
  pub iface_comm : ℕ
  pub iface_data : ℕ
  pub ep_in : ℕ
  pub ep_out : ℕ
  pub ep_int : ℕ
  pub ep_in_max : ℕ
  pub ep_out_max : ℕ

-- The setup packet of a control transfer.
pub record Setup : Type 0 where
  pub request_type : ℕ
  pub request : ℕ
  pub value : ℕ
  pub index : ℕ
  pub length : ℕ
  pub timeout : ℕ

-- The two synchronous transfers of libusb. `control` takes the data buffer and gives the returned `int`,
-- the buffer and the bus after the call; `bulk` takes the endpoint, the buffer, its length and the
-- timeout, and gives `*transferred` as well.
pub record Libusb (Bus : Type 0) : Type 0 where
  pub control : Setup → Bytes → Bus → ℤ × Bytes × Bus
  pub bulk : ℕ → Bytes → ℕ → ℕ → Bus → ℤ × ℤ × Bytes × Bus

abbrev pub cdc_send_encapsulated : ℕ
cdc_send_encapsulated = 0x00

abbrev pub cdc_get_encapsulated : ℕ
cdc_get_encapsulated = 0x01

abbrev pub usb_ctrl_timeout : ℕ
usb_ctrl_timeout = 5000

abbrev pub usb_bulk_timeout : ℕ
usb_bulk_timeout = 5000

-- LIBUSB_REQUEST_TYPE_CLASS | LIBUSB_RECIPIENT_INTERFACE, with the two directions.
abbrev pub class_out : ℕ
class_out = 0x21

abbrev pub class_in : ℕ
class_in = 0xA1

-- LIBUSB_ERROR_NO_DEVICE and LIBUSB_ERROR_TIMEOUT.
abbrev pub error_no_device : ℤ
error_no_device = negsuc 3

abbrev pub error_timeout : ℤ
error_timeout = negsuc 6

abbrev pub same_int : ℤ → ℤ → Bool
same_int (pos a) (pos b) = a == b
same_int (negsuc a) (negsuc b) = a == b
same_int (pos a) (negsuc b) = false
same_int (negsuc a) (pos b) = false

module _ {Bus : Type 0} (usb : Libusb Bus) (dev : UsbDevice) where
  -- `len` bytes of `buf` are sent. The buffer after the call is not looked at.
  unfoldable pub usb_send_ctrl : Bytes → ℕ → Bus → ℤ × Bus
  usb_send_ctrl buf len bus =
      let setup : Setup = record {
        request_type = class_out;
        request = cdc_send_encapsulated;
        value = 0;
        index = dev.iface_comm;
        length = len % 2 ^ 16;
        timeout = usb_ctrl_timeout;
      } in
      let (ret, _, bus') = usb.control setup buf bus in
      (if is_negative ret then minus_one else ret, bus')

  unfoldable pub usb_recv_ctrl : Bytes → Bus → ℤ × Bytes × Bus
  usb_recv_ctrl buf bus =
      let setup : Setup = record {
        request_type = class_in;
        request = cdc_get_encapsulated;
        value = 0;
        index = dev.iface_comm;
        length = length buf % 2 ^ 16;
        timeout = usb_ctrl_timeout;
      } in
      let (ret, buf', bus') = usb.control setup buf bus in
      (if is_negative ret then minus_one else ret, buf', bus')

  unfoldable pub usb_send_bulk : Bytes → ℕ → Bus → ℤ × Bus
  usb_send_bulk buf len bus =
      let (ret, transferred, _, bus') = usb.bulk dev.ep_out buf len usb_bulk_timeout bus in
      (if is_negative ret then minus_one else transferred, bus')

  unfoldable pub usb_recv_bulk : Bytes → ℕ → Bus → ℤ × Bytes × Bus
  usb_recv_bulk buf timeout_ms bus =
      let (ret, transferred, buf', bus') = usb.bulk dev.ep_in buf (length buf) timeout_ms bus in
      let code =
        if same_int ret error_timeout
        then pos 0
        else if same_int ret error_no_device
        then negsuc 1
        else if is_negative ret
        then minus_one
        else transferred in
      (code, buf', bus')

-- `libusb_interface_descriptor` and `libusb_endpoint_descriptor`, as far as the code reads them.
pub record EndpointDescriptor : Type 0 where
  pub b_endpoint_address : ℕ
  pub bm_attributes : ℕ
  pub w_max_packet_size : ℕ

pub record InterfaceDescriptor : Type 0 where
  pub b_interface_class : ℕ
  pub b_interface_sub_class : ℕ
  pub b_interface_protocol : ℕ
  pub endpoints : List EndpointDescriptor

abbrev pub usb_class_wireless : ℕ
usb_class_wireless = 0xE0

abbrev pub usb_subclass_rndis : ℕ
usb_subclass_rndis = 0x01

abbrev pub usb_protocol_rndis : ℕ
usb_protocol_rndis = 0x03

abbrev pub usb_class_cdc : ℕ
usb_class_cdc = 0x02

abbrev pub usb_subclass_acm : ℕ
usb_subclass_acm = 0x02

abbrev pub usb_subclass_vendor : ℕ
usb_subclass_vendor = 0xFF

abbrev pub usb_class_cdc_data : ℕ
usb_class_cdc_data = 0x0A

abbrev pub matches : InterfaceDescriptor → ℕ → ℕ → ℕ → Bool
matches iface bclass subclass protocol =
    (iface.b_interface_class == bclass)
    && ((iface.b_interface_sub_class == subclass) && (iface.b_interface_protocol == protocol))

unfoldable pub is_rndis_interface : InterfaceDescriptor → Bool
is_rndis_interface iface =
    if matches iface usb_class_wireless usb_subclass_rndis usb_protocol_rndis
    then true
    else if matches iface usb_class_cdc usb_subclass_acm usb_protocol_rndis
    then true
    else if matches iface usb_class_cdc usb_subclass_vendor usb_protocol_rndis
    then true
    else matches iface 0xFF 0x01 0x03

unfoldable pub is_data_interface : InterfaceDescriptor → Bool
is_data_interface iface = iface.b_interface_class == usb_class_cdc_data

-- The transfer types of libusb: the low two bits of the attributes. The direction is bit 7 of the address.
abbrev pub transfer_type_bulk : ℕ
transfer_type_bulk = 2

abbrev pub transfer_type_interrupt : ℕ
transfer_type_interrupt = 3

abbrev pub transfer_type : EndpointDescriptor → ℕ
transfer_type ep = ep.bm_attributes % 4

abbrev pub is_in : EndpointDescriptor → Bool
is_in ep = ep.b_endpoint_address / 128 % 2 == 1

-- One round of the loop.
unfoldable pub take_endpoint : Bool → EndpointDescriptor → UsbDevice → UsbDevice
take_endpoint is_comm ep dev =
    if (transfer_type ep == transfer_type_interrupt) && is_comm
    then record dev { ep_int = ep.b_endpoint_address }
    else if transfer_type ep == transfer_type_bulk
    then (if is_in ep
        then record dev { ep_in = ep.b_endpoint_address; ep_in_max = ep.w_max_packet_size }
        else record dev { ep_out = ep.b_endpoint_address; ep_out_max = ep.w_max_packet_size })
    else dev

-- The loop over the endpoints; the function always returns 0.
unfoldable pub find_endpoints : Bool → List EndpointDescriptor → UsbDevice → UsbDevice
find_endpoints is_comm [] dev = dev
find_endpoints is_comm (ep ∷ eps) dev = find_endpoints is_comm eps (take_endpoint is_comm ep dev)
