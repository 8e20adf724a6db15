-- ===== src/Rndis/Parse.antt =====
-- src/rndis.c: the functions that read a received message. `buf` is the memory from the message on,
-- and `len` the length that the caller states for it.
use android_usb_tether_macos.Prelude.{
  ℕ, ◌+◌, ◌%◌, ◌^◌, Option, none, some, ltb, ◌==◌, not, take, drop, if◌then◌else◌, ℤ, pos,
  minus_one,
}
use android_usb_tether_macos.Wire.{Bytes, write_at}
use android_usb_tether_macos.Rndis.{
  RndisState, sizeof_init_cmplt, sizeof_query_cmplt, sizeof_set_cmplt, sizeof_data_packet,
  sizeof_indicate_status, read_init_cmplt, read_query_cmplt, read_set_cmplt, read_data_packet,
  read_indicate_status, rndis_msg_init_c, rndis_msg_query_c, rndis_msg_set_c, rndis_msg_packet,
  rndis_status_success,
}

-- `8 + field`, whose operands are an `int` and a `uint32_t`: the sum wraps at 32 bits before it is
-- stored in the `size_t data_start`.
abbrev pub data_start_of : ℕ → ℕ
data_start_of field = (8 + field) % 2 ^ 32

unfoldable pub rndis_parse_init_cmplt : Bytes → ℕ → RndisState → ℤ × RndisState
rndis_parse_init_cmplt buf len state =
    let cmplt = read_init_cmplt buf in
    if ltb len sizeof_init_cmplt
    then (minus_one, state)
    else if not (cmplt.msg_type == rndis_msg_init_c)
    then (minus_one, state)
    else if not (cmplt.status == rndis_status_success)
    then (minus_one, state)
    else (
      pos 0,
      record state { max_transfer_size = cmplt.max_transfer_size; medium = cmplt.medium },
    )

-- The block that runs if there are data and a place for them.
unfoldable pub copy_query_data : Bytes → ℕ → ℕ → ℕ → Option (Bytes × ℕ) → ℤ × Option (Bytes × ℕ)
copy_query_data buf len data_start cmplt_len none = (pos 0, none)
copy_query_data buf len data_start cmplt_len (some (data_out, data_len)) =
    if ltb len (data_start + cmplt_len)
    then (minus_one, some (data_out, data_len))
    else (let copy_len = if ltb data_len cmplt_len then data_len else cmplt_len in
        (pos 0, some (write_at 0 (take copy_len (drop data_start buf)) data_out, copy_len)))

-- `out` is the pair `data_out`, `*data_len`, or `none` where the caller passes a null pointer.
unfoldable pub rndis_parse_query_cmplt : Bytes → ℕ → Option (Bytes × ℕ) → ℤ × Option (Bytes × ℕ)
rndis_parse_query_cmplt buf len out =
    let cmplt = read_query_cmplt buf in
    if ltb len sizeof_query_cmplt
    then (minus_one, out)
    else if not (cmplt.msg_type == rndis_msg_query_c)
    then (minus_one, out)
    else if not (cmplt.status == rndis_status_success)
    then (minus_one, out)
    else if cmplt.len == 0
    then (pos 0, out)
    else copy_query_data buf len (data_start_of cmplt.offset) cmplt.len out

unfoldable pub rndis_parse_set_cmplt : Bytes → ℕ → ℤ
rndis_parse_set_cmplt buf len =
    let cmplt = read_set_cmplt buf in
    if ltb len sizeof_set_cmplt
    then minus_one
    else if not (cmplt.msg_type == rndis_msg_set_c)
    then minus_one
    else if not (cmplt.status == rndis_status_success)
    then minus_one
    else pos 0

-- `some (s, n)` is the return value 0 with `*eth_frame = buf + s` and `*eth_len = n`; `none` is -1.
unfoldable pub rndis_parse_data_packet : Bytes → ℕ → Option (ℕ × ℕ)
rndis_parse_data_packet buf len =
    let pkt = read_data_packet buf in
    if ltb len sizeof_data_packet
    then none
    else if not (pkt.msg_type == rndis_msg_packet)
    then none
    else if pkt.data_len == 0
    then none
    else (let data_start = data_start_of pkt.data_offset in
        if ltb len (data_start + pkt.data_len) then none else some (data_start, pkt.data_len))

-- `none` is -1; `some s` is 0 with `*status = s`.
unfoldable pub rndis_parse_indicate_status : Bytes → ℕ → Option ℕ
rndis_parse_indicate_status buf len =
    if ltb len sizeof_indicate_status then none else some (read_indicate_status buf).status
