-- ===== src/Rndis.antt =====
-- src/rndis.c and include/rndis.h: the RNDIS messages and the state of a connection. The packed
-- structs are records; `encode` gives the bytes of one, and a received struct is read field by
-- field at the offsets of its layout.
pub mod Build
pub mod Parse
pub mod RoundTrip
pub mod Bounds
pub mod Requests
mod Runs
use android_usb_tether_macos.Prelude.{ℕ, ◌+◌, List, [], ◌∷◌, ◌++◌, Bool}
use android_usb_tether_macos.Wire.{Bytes, le32, le32_at}

abbrev pub rndis_msg_init : ℕ
rndis_msg_init = 0x00000002

abbrev pub rndis_msg_init_c : ℕ
rndis_msg_init_c = 0x80000002

abbrev pub rndis_msg_query : ℕ
rndis_msg_query = 0x00000004

abbrev pub rndis_msg_query_c : ℕ
rndis_msg_query_c = 0x80000004

abbrev pub rndis_msg_set : ℕ
rndis_msg_set = 0x00000005

abbrev pub rndis_msg_set_c : ℕ
rndis_msg_set_c = 0x80000005

abbrev pub rndis_msg_keepalive : ℕ
rndis_msg_keepalive = 0x00000008

abbrev pub rndis_msg_packet : ℕ
rndis_msg_packet = 0x00000001

abbrev pub rndis_status_success : ℕ
rndis_status_success = 0

abbrev pub oid_gen_current_packet_filter : ℕ
oid_gen_current_packet_filter = 0x0001010E

abbrev pub oid_802_3_permanent_address : ℕ
oid_802_3_permanent_address = 0x01010101

abbrev pub rndis_packet_type_directed : ℕ
rndis_packet_type_directed = 0x00000001

abbrev pub rndis_packet_type_multicast : ℕ
rndis_packet_type_multicast = 0x00000002

abbrev pub rndis_packet_type_all_multicast : ℕ
rndis_packet_type_all_multicast = 0x00000004

abbrev pub rndis_packet_type_broadcast : ℕ
rndis_packet_type_broadcast = 0x00000008

abbrev pub rndis_major_version : ℕ
rndis_major_version = 1

abbrev pub rndis_minor_version : ℕ
rndis_minor_version = 0

abbrev pub rndis_max_transfer_size : ℕ
rndis_max_transfer_size = 0x8000

-- `rndis_state_t`; `mac_addr` is an array of six bytes.
pub record RndisState : Type 0 where
  pub request_id : ℕ
  pub max_transfer_size : ℕ
  pub medium : ℕ
  pub mac_addr : Bytes
  pub link_up : Bool

pub record InitMsg : Type 0 where
  pub msg_type : ℕ
  pub msg_len : ℕ
  pub request_id : ℕ
  pub major_version : ℕ
  pub minor_version : ℕ
  pub max_transfer_size : ℕ

abbrev pub sizeof_init_msg : ℕ
sizeof_init_msg = 24

unfoldable pub encode_init_msg : InitMsg → Bytes
encode_init_msg m =
    le32 m.msg_type
    ++ (le32 m.msg_len
        ++ (le32 m.request_id
            ++ (le32 m.major_version ++ (le32 m.minor_version ++ le32 m.max_transfer_size))))

pub record InitCmplt : Type 0 where
  pub msg_type : ℕ
  pub msg_len : ℕ
  pub request_id : ℕ
  pub status : ℕ
  pub major_version : ℕ
  pub minor_version : ℕ
  pub device_flags : ℕ
  pub medium : ℕ
  pub max_packets_per_transfer : ℕ
  pub max_transfer_size : ℕ
  pub packet_alignment_factor : ℕ
  pub reserved1 : ℕ
  pub reserved2 : ℕ

abbrev pub sizeof_init_cmplt : ℕ
sizeof_init_cmplt = 52

abbrev pub read_init_cmplt : Bytes → InitCmplt
read_init_cmplt buf = record {
  msg_type = le32_at buf 0;
  msg_len = le32_at buf 4;
  request_id = le32_at buf 8;
  status = le32_at buf 12;
  major_version = le32_at buf 16;
  minor_version = le32_at buf 20;
  device_flags = le32_at buf 24;
  medium = le32_at buf 28;
  max_packets_per_transfer = le32_at buf 32;
  max_transfer_size = le32_at buf 36;
  packet_alignment_factor = le32_at buf 40;
  reserved1 = le32_at buf 44;
  reserved2 = le32_at buf 48;
}

-- `rndis_query_msg_t`, and `rndis_set_msg_t`, which has the same layout.
pub record OidMsg : Type 0 where
  pub msg_type : ℕ
  pub msg_len : ℕ
  pub request_id : ℕ
  pub oid : ℕ
  pub len : ℕ
  pub offset : ℕ
  pub reserved : ℕ

abbrev pub sizeof_oid_msg : ℕ
sizeof_oid_msg = 28

unfoldable pub encode_oid_msg : OidMsg → Bytes
encode_oid_msg m =
    le32 m.msg_type
    ++ (le32 m.msg_len
        ++ (le32 m.request_id
            ++ (le32 m.oid ++ (le32 m.len ++ (le32 m.offset ++ le32 m.reserved)))))

pub record QueryCmplt : Type 0 where
  pub msg_type : ℕ
  pub msg_len : ℕ
  pub request_id : ℕ
  pub status : ℕ
  pub len : ℕ
  pub offset : ℕ

abbrev pub sizeof_query_cmplt : ℕ
sizeof_query_cmplt = 24

abbrev pub read_query_cmplt : Bytes → QueryCmplt
read_query_cmplt buf = record {
  msg_type = le32_at buf 0;
  msg_len = le32_at buf 4;
  request_id = le32_at buf 8;
  status = le32_at buf 12;
  len = le32_at buf 16;
  offset = le32_at buf 20;
}

pub record SetCmplt : Type 0 where
  pub msg_type : ℕ
  pub msg_len : ℕ
  pub request_id : ℕ
  pub status : ℕ

abbrev pub sizeof_set_cmplt : ℕ
sizeof_set_cmplt = 16

abbrev pub read_set_cmplt : Bytes → SetCmplt
read_set_cmplt buf = record {
  msg_type = le32_at buf 0;
  msg_len = le32_at buf 4;
  request_id = le32_at buf 8;
  status = le32_at buf 12;
}

pub record KeepaliveMsg : Type 0 where
  pub msg_type : ℕ
  pub msg_len : ℕ
  pub request_id : ℕ

abbrev pub sizeof_keepalive_msg : ℕ
sizeof_keepalive_msg = 12

unfoldable pub encode_keepalive_msg : KeepaliveMsg → Bytes
encode_keepalive_msg m = le32 m.msg_type ++ (le32 m.msg_len ++ le32 m.request_id)

-- `rndis_data_packet_t`
pub record DataPacket : Type 0 where
  pub msg_type : ℕ
  pub msg_len : ℕ
  pub data_offset : ℕ
  pub data_len : ℕ
  pub oob_data_offset : ℕ
  pub oob_data_len : ℕ
  pub num_oob_elements : ℕ
  pub per_packet_info_offset : ℕ
  pub per_packet_info_len : ℕ
  pub reserved1 : ℕ
  pub reserved2 : ℕ

abbrev pub sizeof_data_packet : ℕ
sizeof_data_packet = 44

unfoldable pub encode_data_packet : DataPacket → Bytes
encode_data_packet m =
    le32 m.msg_type
    ++ (le32 m.msg_len
        ++ (le32 m.data_offset
            ++ (le32 m.data_len
                ++ (le32 m.oob_data_offset
                    ++ (le32 m.oob_data_len
                        ++ (le32 m.num_oob_elements
                            ++ (le32 m.per_packet_info_offset
                                ++ (le32 m.per_packet_info_len
                                    ++ (le32 m.reserved1 ++ le32 m.reserved2)))))))))

abbrev pub read_data_packet : Bytes → DataPacket
read_data_packet buf = record {
  msg_type = le32_at buf 0;
  msg_len = le32_at buf 4;
  data_offset = le32_at buf 8;
  data_len = le32_at buf 12;
  oob_data_offset = le32_at buf 16;
  oob_data_len = le32_at buf 20;
  num_oob_elements = le32_at buf 24;
  per_packet_info_offset = le32_at buf 28;
  per_packet_info_len = le32_at buf 32;
  reserved1 = le32_at buf 36;
  reserved2 = le32_at buf 40;
}

pub record IndicateStatus : Type 0 where
  pub msg_type : ℕ
  pub msg_len : ℕ
  pub status : ℕ
  pub status_buf_len : ℕ
  pub status_buf_offset : ℕ

abbrev pub sizeof_indicate_status : ℕ
sizeof_indicate_status = 20

abbrev pub read_indicate_status : Bytes → IndicateStatus
read_indicate_status buf = record {
  msg_type = le32_at buf 0;
  msg_len = le32_at buf 4;
  status = le32_at buf 8;
  status_buf_len = le32_at buf 12;
  status_buf_offset = le32_at buf 16;
}
