-- ===== src/Usb/Endpoints.antt =====
-- The endpoints that `find_endpoints` leaves in the device.
use android_usb_tether_macos.Usb.{
  find_endpoints, take_endpoint, EndpointDescriptor, UsbDevice, transfer_type, transfer_type_bulk,
  transfer_type_interrupt, is_in,
}
use android_usb_tether_macos.Prelude.{
  refl, ℕ, Option, Bool, List, some, ◌≡◌, ◌==◌, ◌∷◌, none, true, if◌then◌else◌, ◌&&◌, false, arith,
  [], ◌∙◌, not,
}

-- The last endpoint of a list that passes a test.
abbrev pub last_of :
    (EndpointDescriptor → Bool) → List EndpointDescriptor → Option EndpointDescriptor
last_of test [] = none
last_of test (ep ∷ eps) = elim (last_of test eps) [
  | none ↦ if test ep then some ep else none
  | some later ↦ some later
]

abbrev pub address_or : ℕ → Option EndpointDescriptor → ℕ
address_or before none = before
address_or before (some ep) = ep.b_endpoint_address

abbrev pub size_or : ℕ → Option EndpointDescriptor → ℕ
size_or before none = before
size_or before (some ep) = ep.w_max_packet_size

abbrev pub is_bulk : Bool → EndpointDescriptor → Bool
is_bulk inward ep =
    (transfer_type ep == transfer_type_bulk) && (if inward then is_in ep else not (is_in ep))

abbrev pub is_interrupt : EndpointDescriptor → Bool
is_interrupt ep = transfer_type ep == transfer_type_interrupt

last_of-next :
    (test : EndpointDescriptor → Bool) (ep : EndpointDescriptor) (eps : List EndpointDescriptor)
    (before : ℕ)
    → address_or before (last_of test (ep ∷ eps))
      ≡ address_or (if test ep then ep.b_endpoint_address else before) (last_of test eps)
last_of-next test ep eps before = ground arith

last_of-next_size :
    (test : EndpointDescriptor → Bool) (ep : EndpointDescriptor) (eps : List EndpointDescriptor)
    (before : ℕ)
    → size_or before (last_of test (ep ∷ eps))
      ≡ size_or (if test ep then ep.w_max_packet_size else before) (last_of test eps)
last_of-next_size test ep eps before = ground arith

last_of-next_interrupt :
    (is_comm : Bool) (ep : EndpointDescriptor) (eps : List EndpointDescriptor) (before : ℕ)
    → address_or before (if is_comm then last_of is_interrupt (ep ∷ eps) else none)
      ≡ address_or
          (if is_interrupt ep && is_comm then ep.b_endpoint_address else before)
          (if is_comm then last_of is_interrupt eps else none)
last_of-next_interrupt is_comm ep eps before = ground arith

take_endpoint_lem :
    (is_comm : Bool) (ep : EndpointDescriptor) (dev : UsbDevice)
    → take_endpoint is_comm ep dev ≡ record dev {
      ep_in = if is_bulk true ep then ep.b_endpoint_address else dev.ep_in;
      ep_in_max = if is_bulk true ep then ep.w_max_packet_size else dev.ep_in_max;
      ep_out = if is_bulk false ep then ep.b_endpoint_address else dev.ep_out;
      ep_out_max = if is_bulk false ep then ep.w_max_packet_size else dev.ep_out_max;
      ep_int = if is_interrupt ep && is_comm then ep.b_endpoint_address else dev.ep_int;
    }
unfolding take_endpoint
take_endpoint_lem is_comm ep dev = ground arith

-- After the loop the device has, for each direction, the address and packet size of the last bulk
-- endpoint of the interface in that direction, and, on a communication interface, the address of the
-- last interrupt endpoint; a kind of which the interface has no endpoint is left as it was.
pub find_endpoints_lem :
    (is_comm : Bool) (eps : List EndpointDescriptor) (dev : UsbDevice)
    → find_endpoints is_comm eps dev ≡ record dev {
      ep_in = address_or dev.ep_in (last_of (is_bulk true) eps);
      ep_in_max = size_or dev.ep_in_max (last_of (is_bulk true) eps);
      ep_out = address_or dev.ep_out (last_of (is_bulk false) eps);
      ep_out_max = size_or dev.ep_out_max (last_of (is_bulk false) eps);
      ep_int = address_or dev.ep_int (if is_comm then last_of is_interrupt eps else none);
    }
unfolding find_endpoints
find_endpoints_lem is_comm [] dev = ground arith
find_endpoints_lem is_comm (ep ∷ eps) dev =
    find_endpoints_lem is_comm eps (take_endpoint is_comm ep dev)
    ∙ rw
        (
          take_endpoint_lem is_comm ep dev,
          last_of-next (is_bulk true) ep eps dev.ep_in,
          last_of-next_size (is_bulk true) ep eps dev.ep_in_max,
          last_of-next (is_bulk false) ep eps dev.ep_out,
          last_of-next_size (is_bulk false) ep eps dev.ep_out_max,
          last_of-next_interrupt is_comm ep eps dev.ep_int,
        )
        refl
