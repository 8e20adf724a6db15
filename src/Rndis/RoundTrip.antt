-- ===== src/Rndis/RoundTrip.antt =====
-- What the builders write is what the parsers of src/rndis.c read.
use android_usb_tether_macos.Prelude.{
  ℕ, ◌+◌, ◌^◌, ◌≤◌, ◌<◌, ◌≡◌, refl, ap, minus_one, ◌++◌, some, length, take, drop, pos,
  to_int_small, arith, le→ltb,
}
use android_usb_tether_macos.Wire.{Bytes}
use android_usb_tether_macos.Wire.Laws.{write_at-header, payload_behind_header}
use android_usb_tether_macos.Rndis.{DataPacket, encode_data_packet, sizeof_data_packet}
use android_usb_tether_macos.Rndis.Build.{size_add, data_packet, rndis_build_data_packet}
use android_usb_tether_macos.Rndis.Parse.{rndis_parse_data_packet}

length-encode_data_packet : (m : DataPacket) → length (encode_data_packet m) ≡ sizeof_data_packet
unfolding encode_data_packet
length-encode_data_packet m = refl

-- The buffer after the builder: header, frame, and the old bytes behind them.
pub rndis_build_data_packet_lem :
    (buf frame : Bytes)
    → sizeof_data_packet + length frame ≤ length buf
    → length buf < 2 ^ 31
    → rndis_build_data_packet buf frame ≡ (
      pos (sizeof_data_packet + length frame),
      encode_data_packet (data_packet (length frame) (sizeof_data_packet + length frame))
          ++ (frame ++ drop (sizeof_data_packet + length frame) buf),
    )
unfolding rndis_build_data_packet
rndis_build_data_packet_lem buf frame h k =
    let e : size_add sizeof_data_packet (length frame) ≡ sizeof_data_packet + length frame =
      omega arith in
    rw
      (
        e,
        le→ltb (length buf) (sizeof_data_packet + length frame) h,
        to_int_small (sizeof_data_packet + length frame) (omega arith),
      )
      (ap (λ t. (pos (sizeof_data_packet + length frame), t))
        (write_at-header sizeof_data_packet
          (encode_data_packet (data_packet (length frame) (sizeof_data_packet + length frame)))
          frame buf (length-encode_data_packet _) h))

pub rndis_parse_data_packet-encode :
    (n : ℕ) (rest : Bytes)
    → 0 < n
    → sizeof_data_packet + n < 2 ^ 31
    → rndis_parse_data_packet
        (encode_data_packet (data_packet n (sizeof_data_packet + n)) ++ rest)
        (sizeof_data_packet + n)
      ≡ some (sizeof_data_packet, n)
unfolding rndis_parse_data_packet encode_data_packet
rndis_parse_data_packet-encode n rest h k = ground arith

-- A frame that is not empty and fits comes back from the buffer it was wrapped into: the builder
-- returns the length of the message, the parser accepts the message at that length, the place it
-- reports holds the frame, and the bytes of the buffer behind the message are as before.
pub rndis_parse_data_packet-rndis_build_data_packet :
    (buf frame : Bytes)
    → 0 < length frame
    → sizeof_data_packet + length frame ≤ length buf
    → length buf < 2 ^ 31
    → let (r, buf') = rndis_build_data_packet buf frame in
      let total = sizeof_data_packet + length frame in
      (r ≡ pos total)
      × (rndis_parse_data_packet buf' total ≡ some (sizeof_data_packet, length frame))
      × (take (length frame) (drop sizeof_data_packet buf') ≡ frame)
      × (drop total buf' ≡ drop total buf)
rndis_parse_data_packet-rndis_build_data_packet buf frame h0 h k =
    let header =
      encode_data_packet (data_packet (length frame) (sizeof_data_packet + length frame)) in
    let (payload, behind) =
      payload_behind_header header frame (drop (sizeof_data_packet + length frame) buf)
        sizeof_data_packet (length-encode_data_packet _) in
    rw (rndis_build_data_packet_lem buf frame h k)
      (refl, rndis_parse_data_packet-encode _ _ h0 (omega arith), payload, behind)

-- A frame that does not fit is refused, and the buffer is not touched.
pub rndis_build_data_packet_small :
    (buf frame : Bytes)
    → length buf < sizeof_data_packet + length frame
    → sizeof_data_packet + length frame < 2 ^ 64
    → rndis_build_data_packet buf frame ≡ (minus_one, buf)
unfolding rndis_build_data_packet
rndis_build_data_packet_small buf frame h k = ground arith
