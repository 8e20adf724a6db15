-- ===== src/Bridge/Transmit/Sent.antt =====
-- What src/main.c puts on the bus for a packet of the Mac, read back.
use android_usb_tether_macos.Rndis.Build.{data_packet}
use android_usb_tether_macos.Rndis.RoundTrip.{rndis_build_data_packet_lem}
use android_usb_tether_macos.ProtoRndis.Unwrap.{rndis_drv_unwrap_data}
use android_usb_tether_macos.Frame.Layout.{frame_ip_to_eth_lem}
use android_usb_tether_macos.ProtoRndis.Unwrap.Frames.{
  message, length-message, collect, rndis_drv_unwrap_data-message,
}
use android_usb_tether_macos.Bridge.{eth_buf_size, rndis_buf_size}
use android_usb_tether_macos.Frame.{sizeof_eth_hdr, choose_ethertype}
use android_usb_tether_macos.Rndis.{sizeof_data_packet, encode_data_packet}
use android_usb_tether_macos.ProtoRndis.Driver.{rndis_drv_wrap_frame}
use android_usb_tether_macos.Wire.{Bytes, be16}
use android_usb_tether_macos.Bridge.Transmit.{
  submit_claimed, TxState, launch, uncounted, outbound_frame,
}
use mathlib.Core.List.{append_assoc}
use android_usb_tether_macos.Prelude.{
  ℕ, ◌∷◌, [], pos, some, ◌^◌, ◌+◌, ◌≡◌, ◌≤◌, length, ◌<◌, ◌-◌, ◌++◌, take, arith, length-append,
  drop, take_front, lt→ltb, length-drop, ap, take-append, sym, ◌∙◌,
}

module _ (pkt ebuf mac gw_mac : Bytes) (ethertype : ℕ) (h : 5 ≤ length pkt)
    (fits : sizeof_eth_hdr + (length pkt - 4) ≤ length ebuf) (small : length ebuf ≤ eth_buf_size)
    (hm : length mac ≡ 6) (hg : length gw_mac ≡ 6) (e : choose_ethertype pkt ≡ some ethertype) where
  abbrev pub frame_to_phone : Bytes
  frame_to_phone = ((gw_mac ++ mac) ++ be16 ethertype) ++ drop 4 pkt

  length-frame_to_phone : length frame_to_phone ≡ sizeof_eth_hdr + (length pkt - 4)
  length-frame_to_phone = omega (
    arith,
    length-append ((gw_mac ++ mac) ++ be16 ethertype) (drop 4 pkt),
    length-append (gw_mac ++ mac) (be16 ethertype),
    length-append gw_mac mac,
    length-drop 4 pkt,
    hm,
    hg,
    h,
  )

  outbound_frame_lem : outbound_frame pkt ebuf mac gw_mac ≡ some frame_to_phone
  unfolding outbound_frame
  outbound_frame_lem =
      rw
        (
          frame_ip_to_eth_lem pkt ebuf mac gw_mac ethertype h fits (omega (arith, small)) hm hg e,
          lt→ltb 0 (length frame_to_phone) (omega (arith, length-frame_to_phone)),
        )
        (ap some (take-append frame_to_phone _))

submit_claimed_lem :
    (buf frame : Bytes) (i : ℕ) (s : TxState)
    → sizeof_data_packet + length frame ≤ length buf
    → length buf < 2 ^ 31
    → submit_claimed buf (pos 0) i frame s
      ≡ record s { tx_pool = launch i (message frame) s.tx_pool; thread = uncounted frame }
unfolding submit_claimed rndis_drv_wrap_frame
submit_claimed_lem buf frame i s h small =
    let sent : take (sizeof_data_packet + length frame)
          (message frame ++ drop (sizeof_data_packet + length frame) buf)
        ≡ message frame =
      take_front _ (message frame) _ (length-message frame) in
    rw
      (
        rndis_build_data_packet_lem buf frame h small,
        lt→ltb 0 (sizeof_data_packet + length frame) (omega arith),
      )
      (ap (λ t. record s { tx_pool = launch i t s.tx_pool; thread = uncounted frame })
        (ap (take (sizeof_data_packet + length frame)) (
            sym (
              append_assoc
                (encode_data_packet
                  (data_packet (length frame) (sizeof_data_packet + length frame)))
                frame (drop (sizeof_data_packet + length frame) buf)))
          ∙ sent))

-- An IP packet that is longer than its family header, fits the frame array and has a known family or version
-- reaches the bus as one message: the thread makes a frame to the gateway's address of it, the submission
-- of the claimed slot puts the wrapped frame in flight, and whoever unwraps that message finds exactly the frame.
pub submit_claimed-outbound_frame :
    (pkt ebuf buf mac gw_mac : Bytes) (ethertype i : ℕ) (s : TxState)
    → 5 ≤ length pkt
    → sizeof_eth_hdr + (length pkt - 4) ≤ length ebuf
    → length ebuf ≤ eth_buf_size
    → length buf ≡ rndis_buf_size
    → length mac ≡ 6
    → length gw_mac ≡ 6
    → choose_ethertype pkt ≡ some ethertype
    → let frame = ((gw_mac ++ mac) ++ be16 ethertype) ++ drop 4 pkt in
      (sent : Bytes) × (outbound_frame pkt ebuf mac gw_mac ≡ some frame)
      × (submit_claimed buf (pos 0) i frame s
          ≡ record s { tx_pool = launch i sent s.tx_pool; thread = uncounted frame })
      × (rndis_drv_unwrap_data collect sent (length sent) [] ≡ some (frame ∷ []))
submit_claimed-outbound_frame pkt ebuf buf mac gw_mac ethertype i s h fits small size hm hg e =
    let frame = ((gw_mac ++ mac) ++ be16 ethertype) ++ drop 4 pkt in
    let len : length frame ≡ sizeof_eth_hdr + (length pkt - 4) =
      length-frame_to_phone pkt ebuf mac gw_mac ethertype h fits small hm hg e in
    (
      message frame,
      outbound_frame_lem pkt ebuf mac gw_mac ethertype h fits small hm hg e,
      submit_claimed_lem buf frame i s (omega (arith, len, size, fits, small))
          (omega (arith, size)),
      rndis_drv_unwrap_data-message frame (omega (arith, len)) (omega (arith, len, fits, small)),
    )
