-- ===== src/Frame/RoundTrip.antt =====
-- A packet that goes out through `frame_ip_to_eth` comes back through `frame_eth_to_utun`.
use android_usb_tether_macos.Frame.Layout.{frame_eth_to_utun_lem, frame_ip_to_eth_lem}
use android_usb_tether_macos.Wire.Laws.{be16_at-append, be16_at-be16, be32-be32_at}
use mathlib.Core.List.{append_assoc}
use android_usb_tether_macos.Frame.{
  af_inet, af_inet6, sizeof_eth_hdr, frame_ip_to_eth, frame_eth_to_utun, choose_family,
  choose_ethertype, ethertype_ipv4, ethertype_ipv6,
}
use android_usb_tether_macos.Wire.{Bytes, IsByte, be32_at, be32, be16_at, be16}
use android_usb_tether_macos.Prelude.{
  ℕ, All, ◌≡◌, ◌⊎◌, ◌≤◌, length, ◌+◌, ◌-◌, ◌<◌, ◌^◌, take, pos_part, pos, ◌++◌, drop, some,
  drop-append, arith, length-append, ◌∙◌, ap, inl, take-append, inr, length-drop,
}

module _ (src_mac gateway_mac payload : Bytes) (ethertype af : ℕ) (hs : length src_mac ≡ 6)
    (hg : length gateway_mac ≡ 6) (known : choose_family ethertype ≡ some af)
    (short : ethertype < 2 ^ 16) where
  abbrev frame : Bytes
  frame = ((gateway_mac ++ src_mac) ++ be16 ethertype) ++ payload

  front_size : length ((gateway_mac ++ src_mac) ++ be16 ethertype) ≡ sizeof_eth_hdr
  front_size = omega (
    arith,
    length-append (gateway_mac ++ src_mac) (be16 ethertype),
    length-append gateway_mac src_mac,
  )

  type_read : be16_at frame 12 ≡ ethertype
  type_read = rw (append_assoc (gateway_mac ++ src_mac) (be16 ethertype) payload) (
      be16_at-append (gateway_mac ++ src_mac) (be16 ethertype ++ payload) 12
        (omega (arith, length-append gateway_mac src_mac))
      ∙ be16_at-be16 ethertype payload short)

  payload_read : drop sizeof_eth_hdr frame ≡ payload
  payload_read =
      rw (← front_size) (drop-append ((gateway_mac ++ src_mac) ++ be16 ethertype) payload)

  unframe :
      (utun_buf : Bytes)
      → 4 + length payload ≤ length utun_buf
      → length utun_buf < 2 ^ 31
      → let pkt = be32 af ++ payload in
        frame_eth_to_utun frame utun_buf ≡ (pos (length pkt), pkt ++ drop (length pkt) utun_buf)
  unframe utun_buf room small =
      let size : length frame ≡ sizeof_eth_hdr + length payload =
        omega
          (arith, front_size, length-append ((gateway_mac ++ src_mac) ++ be16 ethertype) payload) in
      frame_eth_to_utun_lem frame utun_buf af (omega arith) (omega arith) small (rw type_read known)
      ∙ ap
          (λ p.
            (pos (length (be32 af ++ p)), (be32 af ++ p) ++ drop (length (be32 af ++ p)) utun_buf))
          payload_read

-- The families of the two packet types that `utun` names, with the types that stand for them.
choose_lem :
    (utun_pkt : Bytes)
    → (be32_at utun_pkt 0 ≡ af_inet) ⊎ (be32_at utun_pkt 0 ≡ af_inet6)
    → (t : ℕ) × (choose_ethertype utun_pkt ≡ some t)
      × (choose_family t ≡ some (be32_at utun_pkt 0))
      × (t < 2 ^ 16)
unfolding choose_ethertype choose_family
choose_lem utun_pkt (inl e) = (ethertype_ipv4, ground arith, ground arith, omega arith)
choose_lem utun_pkt (inr e) = (ethertype_ipv6, ground arith, ground arith, omega arith)

-- A packet whose header names IPv4 or IPv6, framed for the gateway and unframed again, is the packet
-- it was, byte for byte: the bytes that the first function returns the number of are what the second
-- turns back, and it returns the length of the packet.
pub frame_eth_to_utun-frame_ip_to_eth :
    (utun_pkt eth_buf utun_buf src_mac gateway_mac : Bytes)
    → All IsByte utun_pkt
    → (be32_at utun_pkt 0 ≡ af_inet) ⊎ (be32_at utun_pkt 0 ≡ af_inet6)
    → 5 ≤ length utun_pkt
    → sizeof_eth_hdr + (length utun_pkt - 4) ≤ length eth_buf
    → length utun_pkt ≤ length utun_buf
    → length eth_buf < 2 ^ 31
    → length utun_buf < 2 ^ 31
    → length src_mac ≡ 6
    → length gateway_mac ≡ 6
    → let (r, eth_buf') = frame_ip_to_eth utun_pkt eth_buf src_mac gateway_mac in
      frame_eth_to_utun (take (pos_part r) eth_buf') utun_buf
      ≡ (pos (length utun_pkt), utun_pkt ++ drop (length utun_pkt) utun_buf)
frame_eth_to_utun-frame_ip_to_eth utun_pkt eth_buf utun_buf src_mac gateway_mac bytes af h k room
      small small' hs hg =
    let (t, chosen, family, short) = choose_lem utun_pkt af in
    let payload = drop 4 utun_pkt in
    let whole = ((gateway_mac ++ src_mac) ++ be16 t) ++ payload in
    let same : be32 (be32_at utun_pkt 0) ++ payload ≡ utun_pkt =
      be32-be32_at utun_pkt bytes (omega arith) in
    rw
      (
        frame_ip_to_eth_lem utun_pkt eth_buf src_mac gateway_mac t h k small hs hg chosen,
        take-append whole (drop (length whole) eth_buf),
      )
      (unframe src_mac gateway_mac payload t (be32_at utun_pkt 0) hs hg family short utun_buf
          (omega (arith, length-drop 4 utun_pkt)) small'
        ∙ ap (λ p. (pos (length p), p ++ drop (length p) utun_buf)) same)
