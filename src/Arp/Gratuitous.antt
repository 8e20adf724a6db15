-- ===== src/Arp/Gratuitous.antt =====
-- What `arp_send_gratuitous` puts on the bus.
use android_usb_tether_macos.Rndis.Build.{rndis_build_data_packet, data_packet}
use android_usb_tether_macos.ProtoRndis.Unwrap.{rndis_drv_unwrap_data}
use android_usb_tether_macos.Rndis.RoundTrip.{rndis_build_data_packet_lem}
use android_usb_tether_macos.Wire.Laws.{write_at-cleared}
use android_usb_tether_macos.Frame.{sizeof_eth_hdr}
use android_usb_tether_macos.ProtoRndis.Unwrap.Frames.{
  message, collect, rndis_drv_unwrap_data-message, length-message,
}
use android_usb_tether_macos.Arp.Replies.{arp_size, arp_frame}
use android_usb_tether_macos.Rndis.{sizeof_data_packet, encode_data_packet}
use android_usb_tether_macos.Wire.{Bytes, be16}
use android_usb_tether_macos.Arp.{
  arp_send_gratuitous, sizeof_arp_frame, broadcast_mac, arp_ethertype, encode_arp_packet,
  garp_packet, sent_of, build_garp,
}
use mathlib.Core.List.{append_assoc}
use android_usb_tether_macos.Prelude.{
  ℕ, length, ◌≡◌, ◌≤◌, arith, length-append, ◌++◌, ◌+◌, ◌<◌, ◌^◌, some, refl, drop, take, ap, ◌∙◌,
  [], ◌∷◌, take_front, ==_of_ne, replicate,
}

abbrev pub garp_frame : Bytes → ℕ → Bytes
garp_frame mac ip_n = arp_frame (replicate 6 0xFF) mac mac ip_n (replicate 6 0xFF) ip_n

length-garp_frame :
    (mac : Bytes) (ip_n : ℕ) → length mac ≡ 6 → length (garp_frame mac ip_n) ≡ sizeof_arp_frame
length-garp_frame mac ip_n h = omega (
  arith,
  length-append mac (be16 arp_ethertype),
  length-append (mac ++ be16 arp_ethertype) (encode_arp_packet (garp_packet mac ip_n)),
  arp_size (garp_packet mac ip_n) h refl,
)

build_garp_lem :
    (garp_eth mac : Bytes) (ip_n : ℕ)
    → sizeof_arp_frame ≤ length garp_eth
    → length mac ≡ 6
    → take sizeof_arp_frame (build_garp garp_eth mac ip_n) ≡ garp_frame mac ip_n
unfolding build_garp
build_garp_lem garp_eth mac ip_n h hm =
    let eth : Bytes = broadcast_mac ++ (mac ++ be16 arp_ethertype) in
    let arp : Bytes = encode_arp_packet (garp_packet mac ip_n) in
    ap (λ t. take sizeof_arp_frame t)
      (write_at-cleared sizeof_eth_hdr sizeof_arp_frame eth arp garp_eth
        (omega (arith, length-append mac (be16 arp_ethertype)))
        (omega (arith, arp_size (garp_packet mac ip_n) hm refl)) h)
    ∙ take_front sizeof_arp_frame (garp_frame mac ip_n) (drop sizeof_arp_frame garp_eth)
        (length-garp_frame mac ip_n hm)

sent_of-message :
    (buf frame : Bytes)
    → sizeof_data_packet + length frame ≤ length buf
    → length buf < 2 ^ 31
    → sent_of (rndis_build_data_packet buf frame) ≡ some (message frame)
unfolding sent_of
sent_of-message buf frame h small =
    let n = sizeof_data_packet + length frame in
    let header = encode_data_packet (data_packet (length frame) n) in
    rw (rndis_build_data_packet_lem buf frame h small, ==_of_ne n 0 (omega arith))
      (ap some (
        rw (← append_assoc header frame (drop n buf))
          (take_front n (header ++ frame) (drop n buf) (length-message frame))))

-- Whatever the two stack buffers held, one RNDIS message is sent, and the driver at the other end that
-- unwraps it finds exactly one frame: the broadcast of the ARP reply
-- that names our MAC and IP address as the sender's and our IP address as the target's.
pub arp_send_gratuitous_lem :
    (garp_eth garp_rndis mac : Bytes) (ip_n : ℕ)
    → sizeof_arp_frame ≤ length garp_eth
    → sizeof_data_packet + sizeof_arp_frame ≤ length garp_rndis
    → length garp_rndis < 2 ^ 31
    → length mac ≡ 6
    → (sent : Bytes) × (arp_send_gratuitous garp_eth garp_rndis mac ip_n ≡ some sent)
      × (rndis_drv_unwrap_data collect sent (length sent) [] ≡ some (garp_frame mac ip_n ∷ []))
unfolding arp_send_gratuitous
arp_send_gratuitous_lem garp_eth garp_rndis mac ip_n h k small hm =
    let frame = garp_frame mac ip_n in
    let size : length frame ≡ sizeof_arp_frame = length-garp_frame mac ip_n hm in
    (
      message frame,
      rw (build_garp_lem garp_eth mac ip_n h hm)
          (sent_of-message garp_rndis frame (omega arith) small),
      rndis_drv_unwrap_data-message frame (omega arith) (omega arith),
    )
