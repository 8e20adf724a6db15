-- ===== src/Dhcp/Answer.antt =====
-- src/dhcp.c, `dhcp_discover`: the tests by which a received frame is taken for an answer of the server,
-- in both of its loops. `frame` is the memory from the frame on.
pub mod Options
use android_usb_tether_macos.Dhcp.Build.{
  sizeof_dhcp_packet, ipproto_udp, dhcp_client_port, dhcp_magic_cookie,
}
use android_usb_tether_macos.Frame.{sizeof_eth_hdr, ethertype_ipv4}
use android_usb_tether_macos.Wire.{Bytes, byte, be16_at, be32_at}
use android_usb_tether_macos.Prelude.{
  ℕ, none, some, ◌*◌, Option, drop, ◌+◌, if◌then◌else◌, ◌%◌, ltb, not, ◌==◌, ◌&&◌, ◌^◌, ◌-◌,
}

abbrev pub sizeof_ip : ℕ
sizeof_ip = 20

abbrev pub sizeof_udp : ℕ
sizeof_udp = 8

-- The length of the IP header by its `ip_hl` field, the low half of its first byte.
abbrev pub ip_header_len : Bytes → ℕ
ip_header_len frame = 4 * (byte frame sizeof_eth_hdr % 16)

-- `dhcp->options - frame`.
abbrev pub opts_offset_of : Bytes → ℕ
opts_offset_of frame = sizeof_eth_hdr + ip_header_len frame + sizeof_udp + sizeof_dhcp_packet

-- The memory from the DHCP message on and `opts_len`, a `size_t` difference.
unfoldable pub dhcp_answer : Bytes → ℕ → ℕ → Option (Bytes × ℕ)
dhcp_answer frame frame_len xid =
    let iph = drop sizeof_eth_hdr frame in
    let udp = drop (ip_header_len frame) iph in
    let dhcp = drop sizeof_udp udp in
    if ltb frame_len (sizeof_eth_hdr + sizeof_ip + sizeof_udp + sizeof_dhcp_packet)
    then none
    else if not (be16_at frame 12 == ethertype_ipv4)
    then none
    else if not (byte iph 9 == ipproto_udp)
    then none
    else if not (be16_at udp 2 == dhcp_client_port)
    then none
    else if (be32_at dhcp 236 == dhcp_magic_cookie) && (be32_at dhcp 4 == xid)
    then some (dhcp, (frame_len + 2 ^ 64 - opts_offset_of frame) % 2 ^ 64)
    else none
