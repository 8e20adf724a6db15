-- ===== src/Dhcp/Discover/Runs.antt =====
-- src/dhcp.c: an exchange with a server that answers at once.
use android_usb_tether_macos.Dhcp.Options.Encoded.{option}
use android_usb_tether_macos.Wire.{write_at}
use android_usb_tether_macos.Dhcp.Build.{client_frame, ip_header, encode_dhcp_packet}
use android_usb_tether_macos.Rndis.{encode_data_packet}
use android_usb_tether_macos.Rndis.Build.{rndis_build_data_packet}
use android_usb_tether_macos.Dhcp.Build.{
  dhcp_build_discover, dhcp_build_request, build_client_frame, padded_len,
}
use android_usb_tether_macos.ProtoRndis.Unwrap.Frames.{message}
use android_usb_tether_macos.Dhcp.Discover.Meant.{IsAnswer, granted}
use android_usb_tether_macos.Dhcp.Discover.Granted.{dhcp_discover-granted}
use android_usb_tether_macos.Dhcp.Discover.Attempts.{at_once}
use android_usb_tether_macos.Dhcp.Discover.{
  discover_xid, dhcp_offer, dhcp_ack, send_frame, dhcp_discover,
}
use android_usb_tether_macos.Dhcp.Answer.{dhcp_answer}
use android_usb_tether_macos.Wire.{Bytes, be16, be32}
use android_usb_tether_macos.Usb.{Libusb, UsbDevice, usb_send_bulk, usb_recv_bulk}
use android_usb_tether_macos.Dhcp.Options.{Addrs}
use android_usb_tether_macos.Prelude.{
  ℕ, ◌∷◌, [], true, false, some, pos, suc, zero, refl, ◌≡◌, ℤ, ◌++◌, replicate, length, drop, ◌+◌,
  arith,
}

abbrev client_mac : Bytes
client_mac = 2 ∷ 66 ∷ 172 ∷ 17 ∷ 0 ∷ 1 ∷ []

-- A frame of the server: an IP header of 20 bytes, the ports, and a message that gives 192.168.42.100.
abbrev server_frame : Bytes → Bytes
server_frame options =
    (client_mac ++ (client_mac ++ be16 0x0800))
    ++ ((0x45 ∷ replicate 8 0)
        ++ ((17 ∷ replicate 10 0)
            ++ (be16 67
                ++ (be16 68
                    ++ (replicate 4 0
                        ++ ((2 ∷ 1 ∷ 6 ∷ 0 ∷ be32 discover_xid)
                            ++ (replicate 8 0
                                ++ ((192 ∷ 168 ∷ 42 ∷ 100 ∷ [])
                                    ++ (replicate 216 0 ++ (be32 0x63825363 ++ options))))))))))

-- The server is 192.168.42.129, which is also the router.
abbrev offer_frame_bytes : Bytes
offer_frame_bytes =
    server_frame
      (53 ∷ 1 ∷ 2 ∷ 54 ∷ 4 ∷ 192 ∷ 168 ∷ 42 ∷ 129 ∷ 3 ∷ 4 ∷ 192 ∷ 168 ∷ 42 ∷ 129 ∷ 255 ∷ [])

abbrev ack_frame_bytes : Bytes
ack_frame_bytes = server_frame (53 ∷ 1 ∷ 5 ∷ 255 ∷ [])

abbrev behind : Bytes
behind = replicate 60 0

-- The bus counts its calls: two messages are sent and two arrive, each after the one it answers.
abbrev answer_of : ℕ → ℕ → Bytes → ℤ × ℤ × Bytes × ℕ
answer_of len zero buf = (pos 0, pos len, buf, 1)
answer_of len (suc zero) buf =
    (pos 0, pos (44 + length offer_frame_bytes), message offer_frame_bytes ++ behind, 2)
answer_of len (suc (suc zero)) buf = (pos 0, pos len, buf, 3)
answer_of len n buf =
    (pos 0, pos (44 + length ack_frame_bytes), message ack_frame_bytes ++ behind, 4)

abbrev server_bus : Libusb ℕ
server_bus = record {
  control = λ setup buf bus. (pos 0, buf, bus);
  bulk = λ ep buf len timeout bus. answer_of len bus buf;
}

abbrev phone_device : UsbDevice
phone_device = record {
  iface_comm = 0;
  iface_data = 1;
  ep_in = 0x81;
  ep_out = 2;
  ep_int = 0x82;
  ep_in_max = 512;
  ep_out_max = 512;
}

-- The text of an address is not looked at.
abbrev as_text : ℕ → Bytes
as_text addr = 49 ∷ []

abbrev offered_addrs : Addrs
offered_addrs = record { gateway = 0x812AA8C0; netmask = 0; dns1 = 0; dns2 = 0 }

offered : IsAnswer true dhcp_offer (offer_frame_bytes ++ behind) (length offer_frame_bytes) 0
unfolding dhcp_answer
offered = record {
  dhcp = drop 42 (offer_frame_bytes ++ behind);
  opts_len = 16;
  options =
      option 53 (2 ∷ [])
      ∷ option 54 (192 ∷ 168 ∷ 42 ∷ 129 ∷ [])
      ∷ option 3 (192 ∷ 168 ∷ 42 ∷ 129 ∷ [])
      ∷ [];
  behind = behind;
  is_answer = refl;
  encoded = refl;
  are_options = omega arith;
  within = omega arith;
  in_memory = omega arith;
  typed = refl;
}

acked : IsAnswer false dhcp_ack (ack_frame_bytes ++ behind) (length ack_frame_bytes) 0
unfolding dhcp_answer
acked = record {
  dhcp = drop 42 (ack_frame_bytes ++ behind);
  opts_len = 4;
  options = option 53 (5 ∷ []) ∷ [];
  behind = behind;
  is_answer = refl;
  encoded = refl;
  are_options = omega arith;
  within = omega arith;
  in_memory = omega arith;
  typed = refl;
}

-- The two buffers of the function as it finds them.
abbrev eth_buf : Bytes
eth_buf = replicate 320 9

abbrev rndis_buf : Bytes
rndis_buf = replicate 400 9

dhcp_discover-granted_example :
    dhcp_discover as_text server_bus phone_device client_mac eth_buf rndis_buf 0
    ≡ some (some (granted as_text 0x642AA8C0 offered_addrs), 4)
unfolding send_frame dhcp_build_discover dhcp_build_request build_client_frame
    rndis_build_data_packet usb_send_bulk usb_recv_bulk padded_len encode_data_packet offered acked
    write_at client_frame ip_header encode_dhcp_packet
dhcp_discover-granted_example =
    dhcp_discover-granted as_text server_bus phone_device client_mac eth_buf rndis_buf
      (send_frame as_text server_bus phone_device
        (dhcp_build_discover eth_buf client_mac discover_xid) rndis_buf 0).1
      (send_frame as_text server_bus phone_device
        (dhcp_build_request (dhcp_build_discover eth_buf client_mac discover_xid).1 client_mac
          discover_xid 0x642AA8C0 0x812AA8C0)
        (message offer_frame_bytes ++ behind) 2).1
      offer_frame_bytes behind ack_frame_bytes behind 0 1 2 3 4 offered acked refl (at_once refl)
      (omega arith) refl (at_once refl) (omega arith) (omega arith) (omega arith) (omega arith)
