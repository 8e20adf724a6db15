-- ===== src/Rndis/Runs.antt =====
-- src/rndis.c on concrete messages.
use android_usb_tether_macos.Rndis.Bounds.{rndis_parse_data_packet_bounds}
use android_usb_tether_macos.Rndis.RoundTrip.{rndis_parse_data_packet-rndis_build_data_packet}
use android_usb_tether_macos.Rndis.Parse.{
  rndis_parse_query_cmplt, rndis_parse_data_packet, copy_query_data,
}
use android_usb_tether_macos.Rndis.{
  RndisState, encode_data_packet, encode_keepalive_msg, rndis_msg_query_c,
}
use android_usb_tether_macos.Rndis.Build.{
  rndis_build_keepalive, rndis_build_data_packet, data_packet,
}
use android_usb_tether_macos.Wire.{Bytes, le32, write_at}
use android_usb_tether_macos.Prelude.{
  ◌+◌, ◌∷◌, ◌≡◌, replicate, ◌≤◌, ◌<◌, ◌^◌, ◌-◌, some, ◌++◌, none, pos, length, [], false, refl,
  take, drop, arith,
}

abbrev three_bytes : Bytes
three_bytes = 1 ∷ 2 ∷ 3 ∷ []

abbrev room : Bytes
room = replicate 60 9

abbrev fresh_state : RndisState
fresh_state = record {
  request_id = 2 ^ 32 - 1;
  max_transfer_size = 0;
  medium = 0;
  mac_addr = replicate 6 0;
  link_up = false;
}

-- A data message of three bytes, with a byte of another message behind it.
abbrev received : Bytes
received = encode_data_packet (data_packet 3 47) ++ (1 ∷ 2 ∷ 3 ∷ 99 ∷ [])

-- An answer to a query with a MAC address of six bytes at offset 16 behind the request id.
abbrev mac_answer : Bytes
mac_answer =
    le32 rndis_msg_query_c
    ++ (le32 30
        ++ (le32 2 ++ (le32 0 ++ (le32 6 ++ (le32 16 ++ (2 ∷ 66 ∷ 172 ∷ 17 ∷ 0 ∷ 7 ∷ []))))))

parse_received : rndis_parse_data_packet received 47 ≡ some (44, 3)
unfolding rndis_parse_data_packet encode_data_packet
parse_received = refl

parse_cut : rndis_parse_data_packet received 46 ≡ none
unfolding rndis_parse_data_packet encode_data_packet
parse_cut = refl

parse_mac_answer :
    rndis_parse_query_cmplt mac_answer 30 (some (replicate 6 0, 6))
    ≡ (pos 0, some (2 ∷ 66 ∷ 172 ∷ 17 ∷ 0 ∷ 7 ∷ [], 6))
unfolding rndis_parse_query_cmplt copy_query_data write_at
parse_mac_answer = refl

build_keepalive_wraps :
    rndis_build_keepalive (replicate 12 0) fresh_state
    ≡ (pos 12, 8 ∷ 0 ∷ 0 ∷ 0 ∷ 12 ∷ replicate 7 0, record fresh_state { request_id = 0 })
unfolding rndis_build_keepalive encode_keepalive_msg write_at
build_keepalive_wraps = refl

rndis_parse_data_packet-rndis_build_data_packet_example :
    let (r, buf') = rndis_build_data_packet room three_bytes in
    (r ≡ pos 47)
    × (rndis_parse_data_packet buf' 47 ≡ some (44, 3))
    × (take 3 (drop 44 buf') ≡ three_bytes)
    × (drop 47 buf' ≡ drop 47 room)
rndis_parse_data_packet-rndis_build_data_packet_example =
    rndis_parse_data_packet-rndis_build_data_packet room three_bytes (omega arith) (omega arith)
      (omega arith)

rndis_parse_data_packet_bounds_example :
    (0 < 3) × (44 + 3 ≤ 47) × (length (take 3 (drop 44 received)) ≡ 3)
unfolding encode_data_packet
rndis_parse_data_packet_bounds_example =
    rndis_parse_data_packet_bounds received 47 44 3 (omega arith) parse_received
