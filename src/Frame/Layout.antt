-- ===== src/Frame/Layout.antt =====
-- The frames and packets that src/frame.c writes, byte for byte.
use android_usb_tether_macos.Wire.Laws.{Holds, Holds-write_at, Holds-nothing}
use android_usb_tether_macos.Wire.{Bytes, be16, write_at, be16_at, be32}
use android_usb_tether_macos.Frame.{
  frame_ip_to_eth, sizeof_eth_hdr, choose_ethertype, frame_eth_to_utun, choose_family,
  ethertype_ipv4, ethertype_ipv6,
}
use android_usb_tether_macos.Prelude.{
  ℕ, ◌≤◌, length, ◌+◌, ◌-◌, ◌<◌, ◌^◌, ◌≡◌, some, ◌++◌, drop, pos, arith, length-append, [], refl,
  ◌%◌, length-drop, minus_one, ◌∙◌, ◌↔◌, ap, le→ltb, ◌⊎◌, ◌≢◌, to_int-size,
}

-- The buffer after the four copies of `frame_ip_to_eth`.
module _ (src_mac gateway_mac tag payload eth_buf : Bytes) (src_size : length src_mac ≡ 6)
    (gateway_size : length gateway_mac ≡ 6) (tag_size : length tag ≡ 2)
    (room : sizeof_eth_hdr + length payload ≤ length eth_buf) where
  length-frame :
      length (((gateway_mac ++ src_mac) ++ tag) ++ payload) ≡ sizeof_eth_hdr + length payload
  length-frame = omega (
    arith,
    length-append ((gateway_mac ++ src_mac) ++ tag) payload,
    length-append (gateway_mac ++ src_mac) tag,
    length-append gateway_mac src_mac,
  )

  frame_written :
      Holds
        (write_at sizeof_eth_hdr payload
          (write_at 12 tag (write_at 6 src_mac (write_at 0 gateway_mac eth_buf))))
        (((gateway_mac ++ src_mac) ++ tag) ++ payload)
        eth_buf
  frame_written =
      Holds-write_at sizeof_eth_hdr payload _ ((gateway_mac ++ src_mac) ++ tag) eth_buf
        (omega
          (arith, length-append (gateway_mac ++ src_mac) tag, length-append gateway_mac src_mac))
        room
        (Holds-write_at 12 tag _ (gateway_mac ++ src_mac) eth_buf
          (omega (arith, length-append gateway_mac src_mac)) (omega arith)
          (Holds-write_at 6 src_mac _ gateway_mac eth_buf gateway_size (omega arith) (
            Holds-write_at 0 gateway_mac eth_buf [] eth_buf refl (omega arith)
              (Holds-nothing eth_buf))))

-- An IP packet that is longer than its family header, fits the frame buffer and has a known family or
-- version becomes a frame to the gateway from our address, of the chosen type, with the packet as
-- payload; the function returns the length of the frame, and the buffer behind it is as before.
pub frame_ip_to_eth_lem :
    (utun_pkt eth_buf src_mac gateway_mac : Bytes) (ethertype : ℕ)
    → 5 ≤ length utun_pkt
    → sizeof_eth_hdr + (length utun_pkt - 4) ≤ length eth_buf
    → length eth_buf < 2 ^ 31
    → length src_mac ≡ 6
    → length gateway_mac ≡ 6
    → choose_ethertype utun_pkt ≡ some ethertype
    → let frame = ((gateway_mac ++ src_mac) ++ be16 ethertype) ++ drop 4 utun_pkt in
      frame_ip_to_eth utun_pkt eth_buf src_mac gateway_mac
      ≡ (pos (length frame), frame ++ drop (length frame) eth_buf)
unfolding frame_ip_to_eth
frame_ip_to_eth_lem utun_pkt eth_buf src_mac gateway_mac ethertype h k small hs hg e =
    let size : (sizeof_eth_hdr + (length utun_pkt - 4)) % 2 ^ 64
        ≡ sizeof_eth_hdr + (length utun_pkt - 4) =
      omega arith in
    let room : sizeof_eth_hdr + length (drop 4 utun_pkt) ≤ length eth_buf =
      omega (arith, length-drop 4 utun_pkt) in
    let len : length (((gateway_mac ++ src_mac) ++ be16 ethertype) ++ drop 4 utun_pkt)
        ≡ sizeof_eth_hdr + (length utun_pkt - 4) =
      length-frame src_mac gateway_mac (be16 ethertype) (drop 4 utun_pkt) eth_buf hs hg refl room
      ∙ ap (λ (t : ℕ). sizeof_eth_hdr + t) (length-drop 4 utun_pkt) in
    rw
      (
        le→ltb (length utun_pkt) 5 h,
        size,
        le→ltb (length eth_buf) (sizeof_eth_hdr + (length utun_pkt - 4)) k,
        e,
        to_int-size (sizeof_eth_hdr + (length utun_pkt - 4)) (omega arith),
        ← len,
      )
      (ap (λ t. (pos (length (((gateway_mac ++ src_mac) ++ be16 ethertype) ++ drop 4 utun_pkt)), t))
        (frame_written src_mac gateway_mac (be16 ethertype) (drop 4 utun_pkt) eth_buf hs hg refl
          room))

-- An Ethernet frame with an IPv4 or IPv6 payload that fits the buffer becomes the packet with its
-- family in front, in network byte order; the function returns the length of the packet, and the
-- buffer behind it is as before.
pub frame_eth_to_utun_lem :
    (eth_frame utun_buf : Bytes) (af : ℕ)
    → sizeof_eth_hdr ≤ length eth_frame
    → 4 + (length eth_frame - sizeof_eth_hdr) ≤ length utun_buf
    → length utun_buf < 2 ^ 31
    → choose_family (be16_at eth_frame 12) ≡ some af
    → let pkt = be32 af ++ drop sizeof_eth_hdr eth_frame in
      frame_eth_to_utun eth_frame utun_buf ≡ (pos (length pkt), pkt ++ drop (length pkt) utun_buf)
unfolding frame_eth_to_utun
frame_eth_to_utun_lem eth_frame utun_buf af h k small e =
    let payload = drop sizeof_eth_hdr eth_frame in
    let size : (4 + (length eth_frame - sizeof_eth_hdr)) % 2 ^ 64
        ≡ 4 + (length eth_frame - sizeof_eth_hdr) =
      omega arith in
    let len : length (be32 af ++ payload) ≡ 4 + (length eth_frame - sizeof_eth_hdr) =
      omega (arith, length-drop sizeof_eth_hdr eth_frame) in
    rw
      (
        le→ltb (length eth_frame) sizeof_eth_hdr h,
        size,
        le→ltb (length utun_buf) (4 + (length eth_frame - sizeof_eth_hdr)) k,
        e,
        to_int-size (4 + (length eth_frame - sizeof_eth_hdr)) (omega arith),
        ← len,
      )
      (ap (λ t. (pos (length (be32 af ++ payload)), t))
        (Holds-write_at 4 payload _ (be32 af) utun_buf refl
          (omega (arith, length-drop sizeof_eth_hdr eth_frame))
          (Holds-write_at 0 (be32 af) utun_buf [] utun_buf refl (omega arith)
            (Holds-nothing utun_buf))))

-- A frame is refused exactly when it is shorter than a header, its packet does not fit or its type is
-- neither IPv4 nor IPv6, and the packet buffer is then untouched.
pub frame_eth_to_utun_refused :
    (eth_frame utun_buf : Bytes)
    → length eth_frame < 2 ^ 31
    → (frame_eth_to_utun eth_frame utun_buf ≡ (minus_one, utun_buf)) ↔ (
        (length eth_frame < sizeof_eth_hdr)
        ⊎ (length utun_buf < 4 + (length eth_frame - sizeof_eth_hdr))
        ⊎ ((be16_at eth_frame 12 ≢ ethertype_ipv4) × (be16_at eth_frame 12 ≢ ethertype_ipv6)))
unfolding frame_eth_to_utun choose_family
frame_eth_to_utun_refused eth_frame utun_buf small = (λ e. ground arith, λ h. ground arith)
