-- ===== src/Frame/Runs.antt =====
-- src/frame.c on concrete packets.
use android_usb_tether_macos.Frame.RoundTrip.{frame_eth_to_utun-frame_ip_to_eth}
use android_usb_tether_macos.Wire.{Bytes, IsByte, be16_at, write_at}
use android_usb_tether_macos.Frame.{
  frame_eth_to_utun, choose_family, frame_ip_to_eth, choose_ethertype, af_inet, ethertype_ipv4,
}
use android_usb_tether_macos.Prelude.{
  All, ◌++◌, ◌∷◌, ◌≡◌, replicate, take, some, pos, arith, [], pos_part, refl, inl,
}

abbrev our_mac : Bytes
our_mac = 2 ∷ 66 ∷ 172 ∷ 17 ∷ 0 ∷ 1 ∷ []

abbrev gateway_mac : Bytes
gateway_mac = 10 ∷ 11 ∷ 12 ∷ 13 ∷ 14 ∷ 15 ∷ []

-- The start of an IPv4 packet behind the family word of the utun interface.
abbrev packet : Bytes
packet = 0 ∷ 0 ∷ 0 ∷ 2 ∷ 0x45 ∷ 0 ∷ 0 ∷ 20 ∷ []

-- The same behind a word that names no family: the version of the packet decides.
abbrev foreign : Bytes
foreign = 0 ∷ 0 ∷ 0 ∷ 9 ∷ 0x45 ∷ 0 ∷ 0 ∷ 20 ∷ []

abbrev framed : Bytes
framed = (gateway_mac ++ our_mac) ++ (0x08 ∷ 0x00 ∷ 0x45 ∷ 0 ∷ 0 ∷ 20 ∷ [])

frame_foreign : frame_ip_to_eth foreign (replicate 18 0) our_mac gateway_mac ≡ (pos 18, framed)
unfolding frame_ip_to_eth choose_ethertype write_at
frame_foreign = refl

foreign_type : choose_ethertype foreign ≡ some ethertype_ipv4
unfolding choose_ethertype
foreign_type = refl

framed_family : choose_family (be16_at framed 12) ≡ some af_inet
unfolding choose_family
framed_family = refl

packet-IsByte : All IsByte packet
packet-IsByte = (
  omega arith,
  (
    omega arith,
    (omega arith, (omega arith, (omega arith, (omega arith, (omega arith, (omega arith, tt)))))),
  ),
)

frame_eth_to_utun-frame_ip_to_eth_example :
    let (r, eth_buf') = frame_ip_to_eth packet (replicate 30 5) our_mac gateway_mac in
    frame_eth_to_utun (take (pos_part r) eth_buf') (replicate 9 7) ≡ (pos 8, packet ++ (7 ∷ []))
frame_eth_to_utun-frame_ip_to_eth_example =
    frame_eth_to_utun-frame_ip_to_eth packet (replicate 30 5) (replicate 9 7) our_mac gateway_mac
      packet-IsByte (inl refl) (omega arith) (omega arith) (omega arith) (omega arith) (omega arith)
      refl refl
