-- ===== src/Dhcp/Build.antt =====
-- src/dhcp.c: `dhcp_build_discover` and `dhcp_build_request`. Both clear the buffer and store an Ethernet
-- header, an IPv4 header with its checksum, a UDP header and a DHCP message with options; they differ
-- in the options alone. The bytes are stored in one go here, since no field is read back in between
-- but the IP header, whose checksum is computed over its own bytes.
pub mod Frames
use android_usb_tether_macos.Frame.{ethertype_ipv4, sizeof_eth_hdr}
use android_usb_tether_macos.Arp.{broadcast_mac}
use android_usb_tether_macos.Dhcp.Checksum.{IpHdr, ip_checksum, encode_ip_hdr}
use android_usb_tether_macos.Wire.{Bytes, be16, le32, be32, write_at}
use android_usb_tether_macos.Prelude.{
  ℕ, ◌+◌, ℤ, ◌∷◌, ◌++◌, [], if◌then◌else◌, length, replicate, ◌%◌, ltb, minus_one, ◌^◌, ◌-◌, to_int,
  none, some,
}

abbrev pub dhcp_server_port : ℕ
dhcp_server_port = 67

abbrev pub dhcp_client_port : ℕ
dhcp_client_port = 68

abbrev pub dhcp_magic_cookie : ℕ
dhcp_magic_cookie = 0x63825363

abbrev pub ipproto_udp : ℕ
ipproto_udp = 17

-- `dhcp_packet_t` up to its options: `xid`, `secs`, `flags` and `magic` are the numbers that `ntohl` and
-- `ntohs` give, the addresses are memory images, and `chaddr`, `sname` and `file` are arrays.
pub record DhcpPacket : Type 0 where
  pub op : ℕ
  pub htype : ℕ
  pub hlen : ℕ
  pub hops : ℕ
  pub xid : ℕ
  pub secs : ℕ
  pub flags : ℕ
  pub ciaddr : ℕ
  pub yiaddr : ℕ
  pub siaddr : ℕ
  pub giaddr : ℕ
  pub chaddr : Bytes
  pub sname : Bytes
  pub file : Bytes
  pub magic : ℕ

abbrev pub sizeof_dhcp_packet : ℕ
sizeof_dhcp_packet = 240

unfoldable pub encode_dhcp_packet : DhcpPacket → Bytes
encode_dhcp_packet d =
    d.op
    ∷ d.htype
    ∷ d.hlen
    ∷ d.hops
    ∷ (be32 d.xid
        ++ (be16 d.secs
            ++ (be16 d.flags
                ++ (le32 d.ciaddr
                    ++ (le32 d.yiaddr
                        ++ (le32 d.siaddr
                            ++ (le32 d.giaddr
                                ++ (d.chaddr ++ (d.sname ++ (d.file ++ be32 d.magic))))))))))

abbrev pub client_packet : Bytes → ℕ → DhcpPacket
client_packet mac xid = record {
  op = 1;
  htype = 1;
  hlen = 6;
  hops = 0;
  xid = xid;
  secs = 0;
  flags = 0x8000;
  ciaddr = 0;
  yiaddr = 0;
  siaddr = 0;
  giaddr = 0;
  chaddr = mac ++ replicate 10 0;
  sname = replicate 64 0;
  file = replicate 128 0;
  magic = dhcp_magic_cookie;
}

-- The header with its checksum field still 0.
abbrev pub client_ip_hdr : ℕ → IpHdr
client_ip_hdr ip_len = record {
  version_ihl = 0x45;
  ip_tos = 0;
  ip_len = ip_len;
  ip_id = 0;
  ip_off = 0;
  ip_ttl = 64;
  ip_p = ipproto_udp;
  ip_sum = 0;
  ip_src = 0;
  ip_dst = 0xFFFFFFFF;
}

-- The checksum loop ends on every header, so the case `none` does not arise.
unfoldable pub checksum_or_zero : Bytes → ℕ
checksum_or_zero iph = elim (ip_checksum iph) [ none ↦ 0 | some c ↦ c ]

unfoldable pub ip_header : ℕ → Bytes
ip_header ip_len =
    let h = client_ip_hdr ip_len in
    let c = checksum_or_zero (encode_ip_hdr h) in encode_ip_hdr (record h { ip_sum = c })

abbrev pub udp_header : ℕ → Bytes
udp_header udp_len = be16 dhcp_client_port ++ (be16 dhcp_server_port ++ (be16 udp_len ++ be16 0))

-- The length of the DHCP message, which is padded so that the frame has 300 bytes.
unfoldable pub padded_len : Bytes → ℕ
padded_len options =
    let dhcp_len = sizeof_dhcp_packet + length options in
    if ltb dhcp_len (300 - sizeof_eth_hdr - 20 - 8) then 300 - sizeof_eth_hdr - 20 - 8 else dhcp_len

unfoldable pub client_frame : Bytes → ℕ → Bytes → Bytes
client_frame mac xid options =
    (broadcast_mac ++ (mac ++ be16 ethertype_ipv4))
    ++ (ip_header ((20 + 8 + padded_len options) % 2 ^ 16)
        ++ (udp_header ((8 + padded_len options) % 2 ^ 16)
            ++ (encode_dhcp_packet (client_packet mac xid) ++ options)))

unfoldable pub build_client_frame : Bytes → Bytes → ℕ → Bytes → ℤ × Bytes
build_client_frame buf mac xid options = if ltb (length buf) 300 then (minus_one, buf) else (
  to_int (sizeof_eth_hdr + 20 + 8 + padded_len options),
  write_at 0 (client_frame mac xid options) (replicate (length buf) 0),
)

abbrev pub discover_options : Bytes
discover_options = 53 ∷ 1 ∷ 1 ∷ 55 ∷ 3 ∷ 1 ∷ 3 ∷ 6 ∷ 0xFF ∷ []

unfoldable pub dhcp_build_discover : Bytes → Bytes → ℕ → ℤ × Bytes
dhcp_build_discover buf mac xid = build_client_frame buf mac xid discover_options

abbrev pub request_options : ℕ → ℕ → Bytes
request_options offered_ip server_ip =
    53
    ∷ 1
    ∷ 3
    ∷ 50
    ∷ 4
    ∷ (le32 offered_ip ++ (54 ∷ 4 ∷ (le32 server_ip ++ (55 ∷ 3 ∷ 1 ∷ 3 ∷ 6 ∷ 0xFF ∷ []))))

unfoldable pub dhcp_build_request : Bytes → Bytes → ℕ → ℕ → ℕ → ℤ × Bytes
dhcp_build_request buf mac xid offered_ip server_ip =
    build_client_frame buf mac xid (request_options offered_ip server_ip)
