-- ===== src/Rndis/Build.antt =====
-- src/rndis.c: the functions that write a message into a buffer. `buf` holds `buf_size` bytes; the
-- result is the returned `int`, the buffer and the state after the call.
use android_usb_tether_macos.Prelude.{
  ℕ, ◌+◌, ◌%◌, ◌^◌, length, ltb, if◌then◌else◌, ℤ, minus_one, to_int,
}
use android_usb_tether_macos.Wire.{Bytes, write_at}
use android_usb_tether_macos.Rndis.{
  RndisState, InitMsg, OidMsg, KeepaliveMsg, DataPacket, sizeof_init_msg, sizeof_oid_msg,
  sizeof_keepalive_msg, sizeof_data_packet, encode_init_msg, encode_oid_msg, encode_keepalive_msg,
  encode_data_packet, rndis_msg_init, rndis_msg_query, rndis_msg_set, rndis_msg_keepalive,
  rndis_msg_packet, rndis_major_version, rndis_minor_version, rndis_max_transfer_size,
}

-- `++state->request_id`, which wraps as a `uint32_t`.
abbrev pub next_request : RndisState → RndisState
next_request state = record state { request_id = (state.request_id + 1) % 2 ^ 32 }

-- `sizeof(header) + n` in `size_t`.
abbrev pub size_add : ℕ → ℕ → ℕ
size_add a b = (a + b) % 2 ^ 64

abbrev pub init_msg : ℕ → InitMsg
init_msg id = record {
  msg_type = rndis_msg_init;
  msg_len = sizeof_init_msg;
  request_id = id;
  major_version = rndis_major_version;
  minor_version = rndis_minor_version;
  max_transfer_size = rndis_max_transfer_size;
}

unfoldable pub rndis_build_init : Bytes → RndisState → ℤ × Bytes × RndisState
rndis_build_init buf state =
    if ltb (length buf) sizeof_init_msg
    then (minus_one, buf, state)
    else (let state' = next_request state in
        (
          to_int sizeof_init_msg,
          write_at 0 (encode_init_msg (init_msg state'.request_id)) buf,
          state',
        ))

abbrev pub query_msg : ℕ → ℕ → OidMsg
query_msg oid id = record {
  msg_type = rndis_msg_query;
  msg_len = sizeof_oid_msg;
  request_id = id;
  oid = oid;
  len = 0;
  offset = 20;
  reserved = 0;
}

unfoldable pub rndis_build_query : Bytes → ℕ → RndisState → ℤ × Bytes × RndisState
rndis_build_query buf oid state =
    if ltb (length buf) sizeof_oid_msg
    then (minus_one, buf, state)
    else (let state' = next_request state in
        (
          to_int sizeof_oid_msg,
          write_at 0 (encode_oid_msg (query_msg oid state'.request_id)) buf,
          state',
        ))

abbrev pub set_msg : ℕ → ℕ → ℕ → ℕ → OidMsg
set_msg oid data_len total id = record {
  msg_type = rndis_msg_set;
  msg_len = total % 2 ^ 32;
  request_id = id;
  oid = oid;
  len = data_len % 2 ^ 32;
  offset = 20;
  reserved = 0;
}

-- `payload` is `data` with its `data_len` bytes.
unfoldable pub rndis_build_set : Bytes → ℕ → Bytes → RndisState → ℤ × Bytes × RndisState
rndis_build_set buf oid payload state =
    let total = size_add sizeof_oid_msg (length payload) in
    if ltb (length buf) total
    then (minus_one, buf, state)
    else (let state' = next_request state in
        let msg = encode_oid_msg (set_msg oid (length payload) total state'.request_id) in
        (to_int total, write_at sizeof_oid_msg payload (write_at 0 msg buf), state'))

abbrev pub keepalive_msg : ℕ → KeepaliveMsg
keepalive_msg id = record {
  msg_type = rndis_msg_keepalive;
  msg_len = sizeof_keepalive_msg;
  request_id = id;
}

unfoldable pub rndis_build_keepalive : Bytes → RndisState → ℤ × Bytes × RndisState
rndis_build_keepalive buf state =
    if ltb (length buf) sizeof_keepalive_msg
    then (minus_one, buf, state)
    else (let state' = next_request state in
        (
          to_int sizeof_keepalive_msg,
          write_at 0 (encode_keepalive_msg (keepalive_msg state'.request_id)) buf,
          state',
        ))

abbrev pub data_packet : ℕ → ℕ → DataPacket
data_packet eth_len total = record {
  msg_type = rndis_msg_packet;
  msg_len = total % 2 ^ 32;
  data_offset = 36;
  data_len = eth_len % 2 ^ 32;
  oob_data_offset = 0;
  oob_data_len = 0;
  num_oob_elements = 0;
  per_packet_info_offset = 0;
  per_packet_info_len = 0;
  reserved1 = 0;
  reserved2 = 0;
}

-- `eth_frame` is the frame with its `eth_len` bytes.
unfoldable pub rndis_build_data_packet : Bytes → Bytes → ℤ × Bytes
rndis_build_data_packet buf eth_frame =
    let total = size_add sizeof_data_packet (length eth_frame) in
    if ltb (length buf) total
    then (minus_one, buf)
    else (let msg = encode_data_packet (data_packet (length eth_frame) total) in
        (to_int total, write_at sizeof_data_packet eth_frame (write_at 0 msg buf)))
