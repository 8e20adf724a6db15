-- ===== src/Dhcp/Answer/Options.antt =====
-- Which frames are taken for an answer, and where the options of an answer end.
use android_usb_tether_macos.Prelude.{
  ℕ, ◌≤◌, ◌+◌, ◌++◌, length, ◌^◌, ◌<◌, ◌≡◌, ◌*◌, some, ◌-◌, ◌∙◌, arith, ◌⊎◌, ◌%◌, drop_front,
  dec_lt, refl, inr, inl,
}
use android_usb_tether_macos.Dhcp.Answer.{dhcp_answer, ip_header_len}
use android_usb_tether_macos.Wire.Laws.{byte-append_left, byte-append_right}
use android_usb_tether_macos.Wire.{Bytes, byte, be16_at, be32_at}

-- The parts of a frame with an answer: an Ethernet header for IPv4, an IP header for UDP of the length that its
-- first byte states, a UDP header to port 68, and a DHCP message with the magic number and the id `xid`.
pub record IsAnswered (eth ip udp msg : Bytes) (xid : ℕ) : Type 0 where
  pub eth_size : length eth ≡ 14
  pub eth_type : be16_at eth 12 ≡ 0x0800
  pub ip_size : length ip ≡ 4 * (byte ip 0 % 16)
  pub ip_least : 20 ≤ length ip
  pub protocol : byte ip 9 ≡ 17
  pub udp_size : length udp ≡ 8
  pub port : be16_at udp 2 ≡ 68
  pub msg_size : length msg ≡ 240
  pub magic : be32_at msg 236 ≡ 0x63825363
  pub id : be32_at msg 4 ≡ xid

abbrev option_bytes : ℕ → ℕ → ℕ
option_bytes frame_len ip_len = (frame_len + 2 ^ 64 - (14 + ip_len + 8 + 240)) % 2 ^ 64

module _ (eth ip udp msg tail : Bytes) (xid : ℕ) (a : IsAnswered eth ip udp msg xid) where
  abbrev from_msg : Bytes
  from_msg = msg ++ tail

  abbrev from_udp : Bytes
  from_udp = udp ++ from_msg

  abbrev from_ip : Bytes
  from_ip = ip ++ from_udp

  ip_header_len-ip : ip_header_len (eth ++ from_ip) ≡ length ip
  ip_header_len-ip =
      let first : byte (eth ++ from_ip) 14 ≡ byte ip 0 =
        byte-append_right eth from_ip 14 0 a.eth_size
        ∙ byte-append_left ip from_udp 0 (omega (arith, a.ip_least)) in
      omega (arith, first, a.ip_size)

  dhcp_answer-parts :
      (frame_len : ℕ)
      → 282 ≤ frame_len
      → dhcp_answer (eth ++ from_ip) frame_len xid
        ≡ some (from_msg, option_bytes frame_len (length ip))
  unfolding dhcp_answer
  dhcp_answer-parts frame_len h =
      let type : be16_at (eth ++ from_ip) 12 ≡ 0x0800 = omega (
        arith,
        a.eth_type,
        byte-append_left eth from_ip 12 (omega (arith, a.eth_size)),
        byte-append_left eth from_ip 13 (omega (arith, a.eth_size)),
      ) in
      let proto : byte from_ip 9 ≡ 17 =
        byte-append_left ip from_udp 9 (omega (arith, a.ip_least)) ∙ a.protocol in
      let to_port : be16_at from_udp 2 ≡ 68 = omega (
        arith,
        a.port,
        byte-append_left udp from_msg 2 (omega (arith, a.udp_size)),
        byte-append_left udp from_msg 3 (omega (arith, a.udp_size)),
      ) in
      let cookie : be32_at from_msg 236 ≡ 0x63825363 = omega (
        arith,
        a.magic,
        byte-append_left msg tail 236 (omega (arith, a.msg_size)),
        byte-append_left msg tail 237 (omega (arith, a.msg_size)),
        byte-append_left msg tail 238 (omega (arith, a.msg_size)),
        byte-append_left msg tail 239 (omega (arith, a.msg_size)),
      ) in
      let ours : be32_at from_msg 4 ≡ xid = omega (
        arith,
        a.id,
        byte-append_left msg tail 4 (omega (arith, a.msg_size)),
        byte-append_left msg tail 5 (omega (arith, a.msg_size)),
        byte-append_left msg tail 6 (omega (arith, a.msg_size)),
        byte-append_left msg tail 7 (omega (arith, a.msg_size)),
      ) in
      rw
        (
          drop_front 14 eth from_ip a.eth_size,
          ip_header_len-ip,
          drop_front (length ip) ip from_udp refl,
          drop_front 8 udp from_msg a.udp_size,
        )
        (ground (arith, type, proto, to_port, cookie, ours))

-- A frame of an IPv4 Ethernet header, an IP header for UDP of the length that it states, a UDP header to port
-- 68 and a DHCP message with the magic number and our id, of which at least 282 bytes came, is taken for an
-- answer, with the memory from its message on. If these parts came whole, its options are what came behind
-- them. If fewer bytes came, which the test for 282 bytes does not rule out for an IP header of more than 20
-- bytes, the frame is taken all the same; the difference wraps, and its options are taken to be longer
-- than 2^63 bytes.
pub dhcp_answer_options :
    (eth ip udp msg tail : Bytes) (frame_len xid : ℕ)
    → IsAnswered eth ip udp msg xid
    → 282 ≤ frame_len
    → frame_len < 2 ^ 31
    → let whole = 14 + length ip + 8 + 240 in
      (opts_len : ℕ) × (dhcp_answer (eth ++ (ip ++ (udp ++ (msg ++ tail)))) frame_len xid
        ≡ some (msg ++ tail, opts_len))
      × (((whole ≤ frame_len) × (whole + opts_len ≡ frame_len))
          ⊎ ((frame_len < whole) × (2 ^ 63 < opts_len)))
dhcp_answer_options eth ip udp msg tail frame_len xid a h small =
    let whole = 14 + length ip + 8 + 240 in
    let short_header : length ip < 64 = omega (arith, a.ip_size) in
    (
      option_bytes frame_len (length ip),
      dhcp_answer-parts eth ip udp msg tail xid a frame_len h,
      elim (dec_lt frame_len whole) [
        | yes short ↦ inr (short, omega arith)
        | no long ↦ inl (omega arith, omega arith)
      ],
    )
