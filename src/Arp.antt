-- ===== src/Arp.antt =====
-- src/arp.c: ARP replies and the gratuitous announcement. IPv4 addresses are `uint32_t` values whose
-- memory image is the address in network order, so they are stored and read in host order.
pub mod Replies
pub mod Gratuitous
mod Runs
use android_usb_tether_macos.Rndis.Build.{rndis_build_data_packet}
use android_usb_tether_macos.Frame.{sizeof_eth_hdr, ethertype_ipv4}
use android_usb_tether_macos.Wire.{Bytes, be16_at, be16, write_at, byte, le32, le32_at}
use android_usb_tether_macos.Prelude.{
  ℕ, ◌+◌, ◌++◌, ℤ, Option, replicate, ◌∷◌, if◌then◌else◌, ltb, take, pos, drop, length, not, ◌==◌,
  minus_one, none, to_int, ◌&&◌, some, negsuc,
}

abbrev pub arp_ethertype : ℕ
arp_ethertype = 0x0806

abbrev pub arp_hw_ethernet : ℕ
arp_hw_ethernet = 1

abbrev pub arp_op_request : ℕ
arp_op_request = 1

abbrev pub arp_op_reply : ℕ
arp_op_reply = 2

-- `eth_hdr_t`; `ethertype` is the number that `ntohs` gives.
pub record EthHdr : Type 0 where
  pub dst : Bytes
  pub src : Bytes
  pub ethertype : ℕ

abbrev pub encode_eth_hdr : EthHdr → Bytes
encode_eth_hdr h = h.dst ++ (h.src ++ be16 h.ethertype)

-- `arp_packet_t`, with its 16-bit fields as the numbers that `ntohs` gives.
pub record ArpPacket : Type 0 where
  pub hw_type : ℕ
  pub proto_type : ℕ
  pub hw_len : ℕ
  pub proto_len : ℕ
  pub opcode : ℕ
  pub sender_mac : Bytes
  pub sender_ip : ℕ
  pub target_mac : Bytes
  pub target_ip : ℕ

abbrev pub sizeof_arp_packet : ℕ
sizeof_arp_packet = 28

abbrev pub encode_arp_packet : ArpPacket → Bytes
encode_arp_packet p =
    be16 p.hw_type
    ++ (be16 p.proto_type
        ++ (p.hw_len
            ∷ p.proto_len
            ∷ (be16 p.opcode
                ++ (p.sender_mac ++ (le32 p.sender_ip ++ (p.target_mac ++ le32 p.target_ip))))))

abbrev pub read_arp_packet : Bytes → ArpPacket
read_arp_packet m = record {
  hw_type = be16_at m 0;
  proto_type = be16_at m 2;
  hw_len = byte m 4;
  proto_len = byte m 5;
  opcode = be16_at m 6;
  sender_mac = take 6 (drop 8 m);
  sender_ip = le32_at m 14;
  target_mac = take 6 (drop 18 m);
  target_ip = le32_at m 24;
}

abbrev pub sizeof_arp_frame : ℕ
sizeof_arp_frame = sizeof_eth_hdr + sizeof_arp_packet

abbrev pub arp_reply_packet : Bytes → ℕ → Bytes → ℕ → ArpPacket
arp_reply_packet our_mac our_ip their_mac their_ip = record {
  hw_type = arp_hw_ethernet;
  proto_type = ethertype_ipv4;
  hw_len = 6;
  proto_len = 4;
  opcode = arp_op_reply;
  sender_mac = our_mac;
  sender_ip = our_ip;
  target_mac = their_mac;
  target_ip = their_ip;
}

unfoldable pub arp_build_reply : Bytes → Bytes → ℕ → Bytes → ℕ → ℤ × Bytes
arp_build_reply buf our_mac our_ip their_mac their_ip =
    if ltb (length buf) sizeof_arp_frame
    then (minus_one, buf)
    else (let cleared = write_at 0 (replicate sizeof_arp_frame 0) buf in
        let eth : EthHdr = record { dst = their_mac; src = our_mac; ethertype = arp_ethertype } in
        let arp = arp_reply_packet our_mac our_ip their_mac their_ip in
        (
          to_int sizeof_arp_frame,
          write_at sizeof_eth_hdr (encode_arp_packet arp) (write_at 0 (encode_eth_hdr eth) cleared),
        ))

-- The result is the returned length, 0 where the frame is no request for us, and the reply buffer.
unfoldable pub arp_handle_request : Bytes → Bytes → Bytes → ℕ → ℤ × Bytes
arp_handle_request frame reply_buf our_mac our_ip =
    if ltb (length frame) sizeof_arp_frame
    then (pos 0, reply_buf)
    else if not (be16_at frame 12 == arp_ethertype)
    then (pos 0, reply_buf)
    else (let arp = read_arp_packet (drop sizeof_eth_hdr frame) in
        if (arp.opcode == arp_op_request) && (arp.target_ip == our_ip)
        then arp_build_reply reply_buf our_mac our_ip arp.sender_mac arp.sender_ip
        else (pos 0, reply_buf))

abbrev pub broadcast_mac : Bytes
broadcast_mac = replicate 6 0xFF

abbrev pub garp_packet : Bytes → ℕ → ArpPacket
garp_packet mac ip_n = record {
  hw_type = arp_hw_ethernet;
  proto_type = ethertype_ipv4;
  hw_len = 6;
  proto_len = 4;
  opcode = arp_op_reply;
  sender_mac = mac;
  sender_ip = ip_n;
  target_mac = broadcast_mac;
  target_ip = ip_n;
}

-- The frame as it is put together in `garp_eth`, a buffer on the stack.
unfoldable pub build_garp : Bytes → Bytes → ℕ → Bytes
build_garp garp_eth mac ip_n =
    let cleared = write_at 0 (replicate sizeof_arp_frame 0) garp_eth in
    let eth : EthHdr = record { dst = broadcast_mac; src = mac; ethertype = arp_ethertype } in
    write_at sizeof_eth_hdr (encode_arp_packet (garp_packet mac ip_n))
      (write_at 0 (encode_eth_hdr eth) cleared)

-- The bytes that are sent, if the wrapped length is positive.
unfoldable pub sent_of : ℤ × Bytes → Option Bytes
sent_of (pos n, built) = if n == 0 then none else some (take n built)
sent_of (negsuc n, built) = none

-- `garp_eth` and `garp_rndis` are the two buffers on the stack as they are found. `some` bytes are what
-- `usb_send_bulk` is called with; its result is not looked at.
unfoldable pub arp_send_gratuitous : Bytes → Bytes → Bytes → ℕ → Option Bytes
arp_send_gratuitous garp_eth garp_rndis mac ip_n =
    sent_of
      (rndis_build_data_packet garp_rndis (take sizeof_arp_frame (build_garp garp_eth mac ip_n)))
