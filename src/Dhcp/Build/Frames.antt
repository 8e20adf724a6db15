-- ===== src/Dhcp/Build/Frames.antt =====
-- The frames that the two DHCP builders write.
use android_usb_tether_macos.Wire.Laws.{write_at-front}
use android_usb_tether_macos.Dhcp.Checksum.{
  header_sum, sum_words, fold_carry, ip_checksum, total_of_words,
}
use mathlib.Core.List.{append_assoc}
use android_usb_tether_macos.Frame.{sizeof_eth_hdr, ethertype_ipv4}
use android_usb_tether_macos.Arp.{broadcast_mac}
use android_usb_tether_macos.Wire.{Bytes, be16, be16_at, byte, be32_at, be32, write_at, le32}
use android_usb_tether_macos.Dhcp.Build.{
  dhcp_build_request, build_client_frame, padded_len, client_frame, ip_header, udp_header,
  encode_dhcp_packet, client_packet, sizeof_dhcp_packet, checksum_or_zero, ipproto_udp,
  dhcp_client_port, dhcp_server_port, dhcp_magic_cookie, request_options,
}
use android_usb_tether_macos.Prelude.{
  ℕ, ◌≤◌, length, ◌<◌, ◌≡◌, pos, arith, drop, ◌++◌, length-append, ◌+◌, ◌%◌, ◌^◌, ap, ◌∙◌,
  drop_front, refl, replicate, ◌-◌, take, take_front, le→ltb, length-replicate, ◌∷◌, [],
}

length-eth :
    (mac : Bytes)
    → length mac ≡ 6
    → length (broadcast_mac ++ (mac ++ be16 ethertype_ipv4)) ≡ sizeof_eth_hdr
length-eth mac h = omega (arith, length-append mac (be16 ethertype_ipv4))

-- What stands behind the Ethernet header of a frame at the start of a buffer.
behind_eth :
    (mac : Bytes) (xid : ℕ) (options rest : Bytes)
    → length mac ≡ 6
    → drop sizeof_eth_hdr (client_frame mac xid options ++ rest)
      ≡ ip_header ((20 + 8 + padded_len options) % 2 ^ 16)
        ++ (udp_header ((8 + padded_len options) % 2 ^ 16)
            ++ ((encode_dhcp_packet (client_packet mac xid) ++ options) ++ rest))
unfolding client_frame
behind_eth mac xid options rest h =
    let eth : Bytes = broadcast_mac ++ (mac ++ be16 ethertype_ipv4) in
    let ip = ip_header ((20 + 8 + padded_len options) % 2 ^ 16) in
    let udp : Bytes =
      udp_header ((8 + padded_len options) % 2 ^ 16)
      ++ (encode_dhcp_packet (client_packet mac xid) ++ options) in
    ap (λ t. drop sizeof_eth_hdr t) (append_assoc eth (ip ++ udp) rest)
    ∙ (drop_front sizeof_eth_hdr eth ((ip ++ udp) ++ rest) (length-eth mac h)
        ∙ append_assoc ip udp rest)

front_of_frame :
    (mac : Bytes) (xid : ℕ) (options rest : Bytes)
    → length mac ≡ 6
    → take 14 (client_frame mac xid options ++ rest) ≡ replicate 6 0xFF ++ (mac ++ (8 ∷ 0 ∷ []))
unfolding client_frame
front_of_frame mac xid options rest h =
    let eth : Bytes = broadcast_mac ++ (mac ++ be16 ethertype_ipv4) in
    let behind =
      ip_header ((20 + 8 + padded_len options) % 2 ^ 16)
      ++ (udp_header ((8 + padded_len options) % 2 ^ 16)
          ++ (encode_dhcp_packet (client_packet mac xid) ++ options)) in
    ap (λ t. take 14 t) (append_assoc eth behind rest)
    ∙ take_front 14 eth (behind ++ rest) (length-eth mac h)

ip_request :
    (rest : Bytes)
    → (total_of_words (take 20 (ip_header 289 ++ rest)) % 0xFFFF ≡ 0)
      × (byte (ip_header 289 ++ rest) 0 ≡ 0x45)
      × (be16_at (ip_header 289 ++ rest) 2 ≡ 289)
      × (drop 20 (ip_header 289 ++ rest) ≡ rest)
      × (byte (ip_header 289 ++ rest) 9 ≡ ipproto_udp)
unfolding ip_header header_sum sum_words fold_carry checksum_or_zero ip_checksum
ip_request rest = (refl, refl, refl, refl, refl)

length-encode_dhcp_packet :
    (mac : Bytes) (xid : ℕ)
    → length mac ≡ 6
    → length (encode_dhcp_packet (client_packet mac xid)) ≡ sizeof_dhcp_packet
unfolding encode_dhcp_packet
length-encode_dhcp_packet mac xid h =
    let tail : Bytes = replicate 64 0 ++ (replicate 128 0 ++ be32 dhcp_magic_cookie) in
    omega (arith, length-append (mac ++ replicate 10 0) tail, length-append mac (replicate 10 0))

dhcp_fields :
    (mac : Bytes) (xid : ℕ) (rest : Bytes)
    → length mac ≡ 6
    → xid < 2 ^ 32
    → let d = encode_dhcp_packet (client_packet mac xid) ++ rest in
      (byte d 0 ≡ 1)
      × (be32_at d 4 ≡ xid)
      × (take 6 (drop 28 d) ≡ mac)
      × (drop sizeof_dhcp_packet d ≡ rest)
unfolding encode_dhcp_packet
dhcp_fields mac xid rest h k =
    let tail : Bytes = replicate 64 0 ++ (replicate 128 0 ++ be32 dhcp_magic_cookie) in
    (
      refl,
      omega arith,
      rw
          (
            append_assoc (mac ++ replicate 10 0) tail rest,
            append_assoc mac (replicate 10 0) (tail ++ rest),
          )
          (take_front 6 mac _ h),
      drop_front sizeof_dhcp_packet (encode_dhcp_packet (client_packet mac xid)) rest
          (length-encode_dhcp_packet mac xid h),
    )

length-ip_header : (n : ℕ) → length (ip_header n) ≡ 20
unfolding ip_header
length-ip_header n = refl

length-client_frame :
    (mac : Bytes) (xid : ℕ) (options : Bytes)
    → length mac ≡ 6
    → length (client_frame mac xid options)
      ≡ sizeof_eth_hdr + 20 + 8 + sizeof_dhcp_packet + length options
unfolding client_frame
length-client_frame mac xid options h =
    let eth : Bytes = broadcast_mac ++ (mac ++ be16 ethertype_ipv4) in
    let ip = ip_header ((20 + 8 + padded_len options) % 2 ^ 16) in
    let dhcp = encode_dhcp_packet (client_packet mac xid) in
    let udp : Bytes = udp_header ((8 + padded_len options) % 2 ^ 16) ++ (dhcp ++ options) in
    omega (
      arith,
      length-append eth (ip ++ udp),
      length-append ip udp,
      length-append dhcp options,
      length-eth mac h,
      length-ip_header ((20 + 8 + padded_len options) % 2 ^ 16),
      length-encode_dhcp_packet mac xid h,
    )

-- The function checks for 300 bytes only. For a buffer of 300 to 302 bytes it passes its check: it returns
-- 303, more than the buffer holds, and what it writes from the start of the cleared buffer on is a frame
-- of 303 bytes, whatever it asks for, for a MAC address of 6 bytes; the model keeps what fits the buffer.
pub dhcp_build_request_overruns :
    (buf mac : Bytes) (xid offered_ip server_ip : ℕ)
    → 300 ≤ length buf
    → length buf < 303
    → length mac ≡ 6
    → let frame = client_frame mac xid (request_options offered_ip server_ip) in
      (dhcp_build_request buf mac xid offered_ip server_ip
        ≡ (pos 303, write_at 0 frame (replicate (length buf) 0)))
      × (length frame ≡ 303)
unfolding dhcp_build_request build_client_frame padded_len
dhcp_build_request_overruns buf mac xid offered_ip server_ip h k hm = (
  rw (le→ltb (length buf) 300 h) refl,
  length-client_frame mac xid (request_options offered_ip server_ip) hm,
)

-- The frame and the zeros behind it.
request_written :
    (buf mac : Bytes) (xid offered_ip server_ip : ℕ)
    → 303 ≤ length buf
    → length mac ≡ 6
    → (rest : Bytes) × (dhcp_build_request buf mac xid offered_ip server_ip
        ≡ (pos 303, client_frame mac xid (request_options offered_ip server_ip) ++ rest))
unfolding dhcp_build_request build_client_frame
request_written buf mac xid offered_ip server_ip h hm =
    let frame = client_frame mac xid (request_options offered_ip server_ip) in
    let zeros : Bytes = replicate (length buf) 0 in
    let padded : padded_len (request_options offered_ip server_ip) ≡ 261 =
      unfold padded_len in refl in
    (
      drop (length frame) zeros,
      rw (le→ltb (length buf) 300 (omega arith), padded)
          (ap (λ t. (pos 303, t))
            (write_at-front frame zeros (
              omega (
                arith,
                length-client_frame mac xid (request_options offered_ip server_ip) hm,
                length-replicate {A = ℕ} (length buf) 0,
              )))),
    )

-- The headers and the message, read from the IP header on.
request_fields :
    (ip mac rest : Bytes) (xid : ℕ) (options : Bytes)
    → length mac ≡ 6
    → xid < 2 ^ 32
    → ip
      ≡ ip_header 289
        ++ (udp_header 269 ++ ((encode_dhcp_packet (client_packet mac xid) ++ options) ++ rest))
    → let udp = drop 20 ip in
      let dhcp = drop 8 udp in
      (total_of_words (take 20 ip) % 0xFFFF ≡ 0)
      × (byte ip 0 ≡ 0x45)
      × (byte ip 9 ≡ 17)
      × (be16_at ip 2 ≡ 303 - sizeof_eth_hdr)
      × (be16_at udp 0 ≡ dhcp_client_port)
      × (be16_at udp 2 ≡ dhcp_server_port)
      × (be16_at udp 4 ≡ 303 - sizeof_eth_hdr - 20)
      × (byte dhcp 0 ≡ 1)
      × (be32_at dhcp 4 ≡ xid)
      × (take 6 (drop 28 dhcp) ≡ mac)
      × (drop sizeof_dhcp_packet dhcp ≡ options ++ rest)
request_fields ip mac rest xid options hm hx e =
    let udp : Bytes =
      udp_header 269 ++ ((encode_dhcp_packet (client_packet mac xid) ++ options) ++ rest) in
    let (sum, first, len, behind, protocol) = ip_request udp in
    let (op, id, hw, opts) = dhcp_fields mac xid (options ++ rest) hm hx in
    let d : drop 8 udp ≡ encode_dhcp_packet (client_packet mac xid) ++ (options ++ rest) =
      append_assoc (encode_dhcp_packet (client_packet mac xid)) options rest in
    rw e (
      sum,
      first,
      protocol,
      len,
      rw behind,
      rw behind,
      rw behind,
      rw (behind, d) op,
      rw (behind, d) id,
      rw (behind, d) hw,
      rw (behind, d) opts,
    )

-- A request built in a buffer with room for it: the function returns its length, 303; the frame is a broadcast
-- from our MAC address; the IP header, version 4 with 20 bytes for UDP, has a right checksum (its ten
-- words add up to a multiple of 65535) and states the length of the rest of the frame; the UDP header
-- goes from port 68 to port 67 with its own length; the message is a boot request with the transaction
-- id and our MAC address, and its options are exactly the message type 3, the offered address, the
-- server's address and the three parameters asked for, with the end mark.
pub dhcp_build_request_lem :
    (buf mac : Bytes) (xid offered_ip server_ip : ℕ)
    → 303 ≤ length buf
    → length mac ≡ 6
    → xid < 2 ^ 32
    → let (r, frame) = dhcp_build_request buf mac xid offered_ip server_ip in
      let ip = drop 14 frame in
      let udp = drop 20 ip in
      let dhcp = drop 8 udp in
      (r ≡ pos 303)
      × (take 14 frame ≡ replicate 6 0xFF ++ (mac ++ (8 ∷ 0 ∷ [])))
      × (total_of_words (take 20 ip) % 0xFFFF ≡ 0)
      × (byte ip 0 ≡ 0x45)
      × (byte ip 9 ≡ 17)
      × (be16_at ip 2 ≡ 289)
      × (be16_at udp 0 ≡ 68)
      × (be16_at udp 2 ≡ 67)
      × (be16_at udp 4 ≡ 269)
      × (byte dhcp 0 ≡ 1)
      × (be32_at dhcp 4 ≡ xid)
      × (take 6 (drop 28 dhcp) ≡ mac)
      × (take 21 (drop 240 dhcp)
          ≡ 53
            ∷ 1
            ∷ 3
            ∷ 50
            ∷ 4
            ∷ (le32 offered_ip ++ (54 ∷ 4 ∷ (le32 server_ip ++ (55 ∷ 3 ∷ 1 ∷ 3 ∷ 6 ∷ 0xFF ∷ [])))))
dhcp_build_request_lem buf mac xid offered_ip server_ip h hm hx =
    let options = request_options offered_ip server_ip in
    let (rest, written) = request_written buf mac xid offered_ip server_ip h hm in
    let padded : padded_len options ≡ 261 = unfold padded_len in refl in
    let ip = drop sizeof_eth_hdr (client_frame mac xid options ++ rest) in
    let eth = front_of_frame mac xid options rest hm in
    let (f1, v, p, f2, f3, f4, f5, f6, f7, f8, f9) =
      request_fields ip mac rest xid options hm hx
        (rw padded at (behind_eth mac xid options rest hm)) in
    rw written
      (refl, eth, f1, v, p, f2, f3, f4, f5, f6, f7, f8, rw f9 (take_front 21 options rest refl))
