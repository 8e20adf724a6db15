-- ===== src/ProtoRndis/Driver/Runs.antt =====
-- The driver's handshake with a phone that answers.
use android_usb_tether_macos.Rndis.Parse.{
  rndis_parse_init_cmplt, rndis_parse_query_cmplt, copy_query_data,
}
use android_usb_tether_macos.Rndis.Build.{rndis_build_init, rndis_build_query, rndis_build_set}
use android_usb_tether_macos.ProtoRndis.Driver.Handshake.{Ends, rndis_drv_init-Ends}
use android_usb_tether_macos.Wire.{Bytes, le32, write_at}
use android_usb_tether_macos.Rndis.{
  RndisState, rndis_msg_query_c, rndis_msg_set_c, rndis_msg_init_c, encode_init_msg, encode_oid_msg,
}
use android_usb_tether_macos.ProtoRndis.Driver.{rndis_drv_init, exchange, query_mac, set_filter}
use android_usb_tether_macos.Usb.{Libusb, UsbDevice, usb_send_ctrl, usb_recv_ctrl}
use android_usb_tether_macos.Prelude.{
  ℕ, if◌then◌else◌, negsuc, replicate, ◌++◌, ◌+◌, ◌==◌, false, refl, ◌∷◌, pos, ◌≡◌, [], minus_one,
  true,
}

abbrev device : UsbDevice
device = record {
  iface_comm = 0;
  iface_data = 1;
  ep_in = 0x81;
  ep_out = 0x02;
  ep_int = 0;
  ep_in_max = 512;
  ep_out_max = 512;
}

abbrev created : RndisState
created = record {
  request_id = 0;
  max_transfer_size = 0;
  medium = 0;
  mac_addr = replicate 6 0;
  link_up = false;
}

-- The three answers: initialised, the MAC address, and the filter set.
abbrev init_answer : Bytes
init_answer =
    le32 rndis_msg_init_c
    ++ (le32 52
        ++ (le32 1
            ++ (le32 0
                ++ (le32 1 ++ (le32 0 ++ (replicate 12 0 ++ (le32 23700 ++ replicate 12 0)))))))

abbrev mac_answer : Bytes
mac_answer =
    le32 rndis_msg_query_c
    ++ (le32 30
        ++ (le32 2 ++ (le32 0 ++ (le32 6 ++ (le32 16 ++ (2 ∷ 66 ∷ 172 ∷ 17 ∷ 0 ∷ 7 ∷ []))))))

abbrev set_answer : Bytes
set_answer = le32 rndis_msg_set_c ++ (le32 16 ++ (le32 3 ++ le32 0))

-- The bus counts the control transfers, and every second one is an answer.
abbrev phone : Libusb ℕ
phone = record {
  control = λ setup buf n.
      if n == 1
      then (pos 52, write_at 0 init_answer buf, n + 1)
      else if n == 3
      then (pos 30, write_at 0 mac_answer buf, n + 1)
      else if n == 5
      then (pos 16, write_at 0 set_answer buf, n + 1)
      else (pos setup.length, buf, n + 1);
  bulk = λ endpoint buf len timeout n. (pos 0, pos len, buf, n);
}

-- A bus that is gone.
abbrev unplugged : Libusb ℕ
unplugged = record {
  control = λ setup buf n. (negsuc 3, buf, n + 1);
  bulk = λ endpoint buf len timeout n. (negsuc 3, pos 0, buf, n);
}

handshake : rndis_drv_init phone device (replicate 64 0) created 0 ≡ (
  pos 0,
  record {
    request_id = 3;
    max_transfer_size = 23700;
    medium = 0;
    mac_addr = 2 ∷ 66 ∷ 172 ∷ 17 ∷ 0 ∷ 7 ∷ [];
    link_up = true;
  },
  6,
)
unfolding rndis_drv_init query_mac set_filter exchange usb_send_ctrl usb_recv_ctrl rndis_build_init
    rndis_build_query rndis_build_set rndis_parse_init_cmplt rndis_parse_query_cmplt copy_query_data
    write_at encode_init_msg encode_oid_msg
handshake = refl

handshake_unplugged :
    rndis_drv_init unplugged device (replicate 64 0) created 0
    ≡ (minus_one, record created { request_id = 1 }, 1)
unfolding rndis_drv_init exchange usb_send_ctrl rndis_build_init
handshake_unplugged = refl

rndis_drv_init-Ends_example :
    Ends 3 created (rndis_drv_init phone device (replicate 64 0) created 0)
rndis_drv_init-Ends_example = rndis_drv_init-Ends phone device (replicate 64 0) created 0 refl
