-- ===== src/ProtoRndis/Driver.antt =====
-- src/proto_rndis.c and include/proto_driver.h: the driver's other operations. `buf` is the buffer on
-- the stack, with what it held before; a result carries the driver's state and the bus after the call.
pub mod Handshake
mod Runs
use android_usb_tether_macos.Rndis.Parse.{rndis_parse_query_cmplt, rndis_parse_init_cmplt}
use android_usb_tether_macos.Rndis.Build.{
  rndis_build_keepalive, rndis_build_data_packet, rndis_build_query, rndis_build_init,
  rndis_build_set,
}
use android_usb_tether_macos.Rndis.{
  RndisState, rndis_packet_type_directed, oid_gen_current_packet_filter,
  oid_802_3_permanent_address, rndis_packet_type_multicast, rndis_packet_type_all_multicast,
  rndis_packet_type_broadcast,
}
use android_usb_tether_macos.Usb.{
  Libusb, UsbDevice, usb_class_wireless, usb_subclass_rndis, usb_send_ctrl, usb_protocol_rndis,
  usb_recv_ctrl, usb_class_cdc, usb_subclass_acm, usb_subclass_vendor,
}
use android_usb_tether_macos.Wire.{Bytes, le32}
use android_usb_tether_macos.Prelude.{
  ℕ, List, ℤ, if◌then◌else◌, ◌∷◌, is_negative, Option, pos, [], ltb, negsuc, minus_one, ◌||◌, take,
  ◌+◌, pos_part, true, some, ◌==◌, none, bit_or,
}

-- The bytes of `filter`, the four packet types or-ed together.
abbrev pub packet_filter : Bytes
packet_filter = le32 (
    bit_or
      (bit_or (bit_or rndis_packet_type_directed rndis_packet_type_multicast)
        rndis_packet_type_all_multicast)
      rndis_packet_type_broadcast)

abbrev pub fallback_mac : Bytes
fallback_mac = 0x02 ∷ 0x42 ∷ 0xAC ∷ 0x11 ∷ 0x00 ∷ 0x01 ∷ []

-- The address that the query left, or the fallback where it failed. The first field of the parser's
-- result is its return value, the second the array and the number of bytes stored.
abbrev pub take_mac : Bytes → ℤ × Option (Bytes × ℕ) → Bytes
take_mac old (negsuc n, out) = fallback_mac
take_mac old (pos n, none) = old
take_mac old (pos n, some (mac, mac_len)) = mac

module _ {Bus : Type 0} (usb : Libusb Bus) (dev : UsbDevice) where
  -- A request of `len` bytes is sent and the answer received into the same buffer; -1 where either
  -- fails. The pause between them changes nothing here.
  unfoldable pub exchange : Bytes → ℤ → Bus → ℤ × Bytes × Bus
  exchange buf len bus =
      if is_negative len
      then (minus_one, buf, bus)
      else (let (sent, bus') = usb_send_ctrl usb dev buf (pos_part len) bus in
          if is_negative sent then (minus_one, buf, bus') else usb_recv_ctrl usb dev buf bus')

  -- Step 3: a filter that the device refuses is only logged.
  unfoldable pub set_filter : Bytes → RndisState → Bus → ℤ × RndisState × Bus
  set_filter buf state bus =
      let (len, buf', state') =
        rndis_build_set buf oid_gen_current_packet_filter packet_filter state in
      let (ret, _, bus') = exchange buf' len bus in
      if is_negative ret
      then (minus_one, state', bus')
      else (pos 0, record state' { link_up = true }, bus')

  -- Step 2.
  unfoldable pub query_mac : Bytes → RndisState → Bus → ℤ × RndisState × Bus
  query_mac buf state bus =
      let (len, buf', state') = rndis_build_query buf oid_802_3_permanent_address state in
      let (ret, answer, bus') = exchange buf' len bus in
      if is_negative ret
      then (minus_one, state', bus')
      else (let out = rndis_parse_query_cmplt answer (pos_part ret) (some (state'.mac_addr, 6)) in
          set_filter answer (record state' { mac_addr = take_mac state'.mac_addr out }) bus')

  -- Step 1, and the steps after it.
  unfoldable pub rndis_drv_init : Bytes → RndisState → Bus → ℤ × RndisState × Bus
  rndis_drv_init buf state bus =
      let (len, buf', state') = rndis_build_init buf state in
      let (ret, answer, bus') = exchange buf' len bus in
      if is_negative ret
      then (minus_one, state', bus')
      else (let (ok, state'') = rndis_parse_init_cmplt answer (pos_part ret) state' in
          if is_negative ok then (minus_one, state'', bus') else query_mac answer state'' bus')

  -- The results of the two transfers are not looked at; the function returns 0.
  unfoldable pub rndis_drv_keepalive : Bytes → RndisState → Bus → ℤ × RndisState × Bus
  rndis_drv_keepalive buf state bus =
      let (klen, buf', state') = rndis_build_keepalive buf state in
      if is_negative klen || (pos_part klen == 0)
      then (pos 0, state', bus)
      else (let (_, bus') = usb_send_ctrl usb dev buf' (pos_part klen) bus in
          let (_, _, bus'') = usb_recv_ctrl usb dev buf' bus' in (pos 0, state', bus''))

-- `mac` is written whole.
unfoldable pub rndis_drv_get_mac : RndisState → ℤ × Bytes
rndis_drv_get_mac state = (pos 0, take 6 state.mac_addr)

-- The frame, the buffer, and the result as the data packet builder gives it.
unfoldable pub rndis_drv_wrap_frame : Bytes → Bytes → ℤ × Bytes
rndis_drv_wrap_frame eth out = rndis_build_data_packet out eth

-- `usb_iface_filter_t`
pub record UsbIfaceFilter : Type 0 where
  pub bclass : ℕ
  pub subclass : ℕ
  pub protocol : ℕ

-- The filters that are written, whose number is returned; none where there is no room for the four.
unfoldable pub rndis_drv_get_usb_filters : ℕ → List UsbIfaceFilter
rndis_drv_get_usb_filters max_filters =
    if ltb max_filters 4
    then []
    else record {
      bclass = usb_class_wireless;
      subclass = usb_subclass_rndis;
      protocol = usb_protocol_rndis;
    }
      ∷ record {
        bclass = usb_class_cdc;
        subclass = usb_subclass_acm;
        protocol = usb_protocol_rndis;
      }
      ∷ record {
        bclass = usb_class_cdc;
        subclass = usb_subclass_vendor;
        protocol = usb_protocol_rndis;
      }
      ∷ record { bclass = 0xFF; subclass = 0x01; protocol = 0x03 }
      ∷ []
