-- ===== src/Frame.antt =====
-- src/frame.c: IP packets of the utun interface to Ethernet frames and back. A MAC address is the
-- list of its six bytes; a pointer with a length is the list of that many bytes.
pub mod Layout
pub mod RoundTrip
mod Runs
use android_usb_tether_macos.Wire.{Bytes, be32_at, byte, write_at, be16_at, be32, be16}
use android_usb_tether_macos.Prelude.{
  ℕ, Option, if◌then◌else◌, ℤ, ltb, ◌==◌, length, some, ◌/◌, none, minus_one, ◌-◌, ◌+◌, ◌%◌, ◌^◌,
  to_int, drop,
}

-- The address families of the macOS headers.
abbrev pub af_inet : ℕ
af_inet = 2

abbrev pub af_inet6 : ℕ
af_inet6 = 30

abbrev pub sizeof_eth_hdr : ℕ
sizeof_eth_hdr = 14

abbrev pub ethertype_ipv4 : ℕ
ethertype_ipv4 = 0x0800

abbrev pub ethertype_ipv6 : ℕ
ethertype_ipv6 = 0x86DD

-- The ethertype that `frame_ip_to_eth` chooses: by the address family, else by the version nibble.
unfoldable pub choose_ethertype : Bytes → Option ℕ
choose_ethertype utun_pkt =
    let af = be32_at utun_pkt 0 in
    let ver = byte utun_pkt 4 / 16 in
    if af == af_inet
    then some ethertype_ipv4
    else if af == af_inet6
    then some ethertype_ipv6
    else if ver == 4
    then some ethertype_ipv4
    else if ver == 6
    then some ethertype_ipv6
    else none

-- The result is the returned `int` and `eth_buf` after the call. The addresses are stored before the
-- packet is looked at, so they stay in the buffer where the packet is refused.
unfoldable pub frame_ip_to_eth : Bytes → Bytes → Bytes → Bytes → ℤ × Bytes
frame_ip_to_eth utun_pkt eth_buf src_mac gateway_mac =
    if ltb (length utun_pkt) 5
    then (minus_one, eth_buf)
    else (let ip_len = length utun_pkt - 4 in
        let total = (sizeof_eth_hdr + ip_len) % 2 ^ 64 in
        if ltb (length eth_buf) total
        then (minus_one, eth_buf)
        else (let buf = write_at 6 src_mac (write_at 0 gateway_mac eth_buf) in
            elim (choose_ethertype utun_pkt) [
              | none ↦ (minus_one, buf)
              | some ethertype ↦ (
                to_int total,
                write_at sizeof_eth_hdr (drop 4 utun_pkt) (write_at 12 (be16 ethertype) buf),
              )
            ]))

unfoldable pub choose_family : ℕ → Option ℕ
choose_family ethertype =
    if ethertype == ethertype_ipv4
    then some af_inet
    else if ethertype == ethertype_ipv6
    then some af_inet6
    else none

unfoldable pub frame_eth_to_utun : Bytes → Bytes → ℤ × Bytes
frame_eth_to_utun eth_frame utun_buf =
    if ltb (length eth_frame) sizeof_eth_hdr
    then (minus_one, utun_buf)
    else (let ip_len = length eth_frame - sizeof_eth_hdr in
        let total = (4 + ip_len) % 2 ^ 64 in
        if ltb (length utun_buf) total
        then (minus_one, utun_buf)
        else elim (choose_family (be16_at eth_frame 12)) [
          | none ↦ (minus_one, utun_buf)
          | some af ↦ (
            to_int total,
            write_at 4 (drop sizeof_eth_hdr eth_frame) (write_at 0 (be32 af) utun_buf),
          )
        ])
