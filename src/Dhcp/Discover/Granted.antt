-- ===== src/Dhcp/Discover/Granted.antt =====
-- src/dhcp.c: a server that offers an address and acknowledges it grants the lease.
use android_usb_tether_macos.Dhcp.Discover.Meant.{
  IsAnswer, server_of, given_addr, addrs_of, answer_parsed, answer_scanned, granted,
}
use android_usb_tether_macos.Dhcp.Discover.Attempts.{Arrives, attempts-Arrives}
use android_usb_tether_macos.ProtoRndis.Unwrap.Frames.{message}
use android_usb_tether_macos.Dhcp.Build.{dhcp_build_request, dhcp_build_discover}
use android_usb_tether_macos.Rndis.{sizeof_data_packet}
use android_usb_tether_macos.Dhcp.Lease.{lease_of}
use android_usb_tether_macos.Usb.{Libusb, UsbDevice}
use android_usb_tether_macos.Dhcp.Options.{Addrs}
use android_usb_tether_macos.Dhcp.Discover.{
  offer_frame, ack_frame, Offer, Acked, dhcp_ack, dhcp_offer, discover_xid, request_lease,
  send_frame, dhcp_discover, max_attempts,
}
use android_usb_tether_macos.Wire.{Bytes}
use android_usb_tether_macos.Prelude.{
  ℕ, true, false, none, some, ◌^◌, ◌<◌, ◌≡◌, length, ◌+◌, ◌++◌, refl, ap, arith, ◌==◌,
}

offer_frame_lem :
    (frame : Bytes) (n : ℕ) (o : Offer) (a : IsAnswer true dhcp_offer frame n o.server_addr)
    → offer_frame frame n o
      ≡ some (
        true,
        record {
          server_addr = server_of a;
          offered_addr = given_addr a;
          addrs = addrs_of a o.addrs;
        },
      )
unfolding offer_frame
offer_frame_lem frame n o a =
    rw (a.is_answer, offer_frame, answer_scanned a, answer_parsed a o.addrs) refl

lease_of-granted :
    (inet_ntoa : ℕ → Bytes) (addr : ℕ) (said : Addrs)
    → lease_of inet_ntoa addr said ≡ granted inet_ntoa addr said
unfolding lease_of
lease_of-granted inet_ntoa addr said = refl

ack_frame_lem :
    (inet_ntoa : ℕ → Bytes) (frame : Bytes) (n : ℕ) (c : Acked)
    (a : IsAnswer false dhcp_ack frame n 0)
    → ack_frame inet_ntoa frame n c
      ≡ some (
        true,
        record {
          addrs = addrs_of a c.addrs;
          lease = some (granted inet_ntoa (given_addr a) (addrs_of a c.addrs));
        },
      )
unfolding ack_frame
ack_frame_lem inet_ntoa frame n c a =
    rw
      (
        a.is_answer,
        ack_frame,
        answer_scanned a,
        answer_parsed a c.addrs,
        lease_of-granted inet_ntoa (given_addr a) (addrs_of a c.addrs),
      )
      refl

module _ (inet_ntoa : ℕ → Bytes) {Bus : Type 0} (usb : Libusb Bus) (dev : UsbDevice) where
  request_lease_lem :
      (mac eth_buf buf buf' f rest : Bytes) (o : Offer) (bus bus' bus'' : Bus)
      (a : IsAnswer false dhcp_ack (f ++ rest) (length f) 0)
      → send_frame inet_ntoa usb dev
          (dhcp_build_request eth_buf mac discover_xid o.offered_addr o.server_addr)
          buf
          bus
        ≡ (true, buf', bus')
      → Arrives usb dev f rest bus'' max_attempts buf' bus'
      → 0 < length f
      → sizeof_data_packet + length f < 2 ^ 31
      → request_lease inet_ntoa usb dev mac eth_buf buf o bus
        ≡ some (some (granted inet_ntoa (given_addr a) (addrs_of a o.addrs)), bus'')
  unfolding request_lease
  request_lease_lem mac eth_buf buf buf' f rest o bus bus' bus'' a sent received h k =
      let sent0 : (send_frame inet_ntoa usb dev
            (dhcp_build_request eth_buf mac discover_xid o.offered_addr o.server_addr) buf bus).0
          ≡ true =
        ap (λ t. t.0) sent in
      let sent1 : (send_frame inet_ntoa usb dev
            (dhcp_build_request eth_buf mac discover_xid o.offered_addr o.server_addr) buf bus).1
          ≡ buf' =
        ap (λ t. t.1) sent in
      let sent2 : (send_frame inet_ntoa usb dev
            (dhcp_build_request eth_buf mac discover_xid o.offered_addr o.server_addr) buf bus).2
          ≡ bus' =
        ap (λ t. t.2) sent in
      let start : Acked = record { addrs = o.addrs; lease = none } in
      rw
        (
          sent0,
          sent1,
          sent2,
          request_lease,
          attempts-Arrives (ack_frame inet_ntoa) usb dev 50 buf' f rest start _ bus' bus'' received
              h k (ack_frame_lem inet_ntoa (f ++ rest) (length f) start a),
        )
        refl

-- What the exchange starts from: no address.
abbrev pub no_addrs : Addrs
no_addrs = record { gateway = 0; netmask = 0; dns1 = 0; dns2 = 0 }

-- A server that answers gets its address into the lease: the discover message is sent, one of the first 50
-- transfers brings an offer for it of an address that is not 0 and those before it nothing, the request
-- for exactly that address and the server that the offer names is sent, and the acknowledgement comes in
-- the same way; then the function returns 0. The lease has the acknowledged address, and its gateway, netmask
-- and name servers are what options 3, 1 and 6 of the two answers say, those of the acknowledgement
-- first, or the defaults. The options of both answers are well-formed with an end mark.
pub dhcp_discover-granted :
    (inet_ntoa : ℕ → Bytes) {Bus : Type 0} (usb : Libusb Bus) (dev : UsbDevice)
    (mac eth_buf buf0 buf1 buf3 f1 rest1 f2 rest2 : Bytes) (bus0 bus1 bus2 bus3 bus4 : Bus)
    (offer : IsAnswer true dhcp_offer (f1 ++ rest1) (length f1) 0)
    (ack : IsAnswer false dhcp_ack (f2 ++ rest2) (length f2) 0)
    → send_frame inet_ntoa usb dev (dhcp_build_discover eth_buf mac discover_xid) buf0 bus0
      ≡ (true, buf1, bus1)
    → Arrives usb dev f1 rest1 bus2 max_attempts buf1 bus1
    → 0 < given_addr offer
    → send_frame inet_ntoa usb dev
        (dhcp_build_request
          (dhcp_build_discover eth_buf mac discover_xid).1
          mac
          discover_xid
          (given_addr offer)
          (server_of offer))
        (message f1 ++ rest1)
        bus2
      ≡ (true, buf3, bus3)
    → Arrives usb dev f2 rest2 bus4 max_attempts buf3 bus3
    → 0 < length f1
    → sizeof_data_packet + length f1 < 2 ^ 31
    → 0 < length f2
    → sizeof_data_packet + length f2 < 2 ^ 31
    → dhcp_discover inet_ntoa usb dev mac eth_buf buf0 bus0
      ≡ some
          (some (granted inet_ntoa (given_addr ack) (addrs_of ack (addrs_of offer no_addrs))), bus4)
unfolding dhcp_discover
dhcp_discover-granted inet_ntoa usb dev mac eth_buf buf0 buf1 buf3 f1 rest1 f2 rest2 bus0 bus1 bus2
      bus3 bus4 offer ack sent1 recv1 given sent2 recv2 h1 k1 h2 k2 =
    let discover = dhcp_build_discover eth_buf mac discover_xid in
    let s0 : (send_frame inet_ntoa usb dev discover buf0 bus0).0 ≡ true = ap (λ t. t.0) sent1 in
    let s1 : (send_frame inet_ntoa usb dev discover buf0 bus0).1 ≡ buf1 = ap (λ t. t.1) sent1 in
    let s2 : (send_frame inet_ntoa usb dev discover buf0 bus0).2 ≡ bus1 = ap (λ t. t.2) sent1 in
    let start : Offer = record { server_addr = 0; offered_addr = 0; addrs = no_addrs } in
    let offered : Offer = record {
      server_addr = server_of offer;
      offered_addr = given_addr offer;
      addrs = addrs_of offer no_addrs;
    } in
    let nonzero : (given_addr offer == 0) ≡ false = ground arith in
    rw
      (
        s0,
        s1,
        s2,
        dhcp_discover,
        attempts-Arrives offer_frame usb dev 50 buf1 f1 rest1 start offered bus1 bus2 recv1 h1 k1
            (offer_frame_lem (f1 ++ rest1) (length f1) start offer),
        nonzero,
      )
      (request_lease_lem inet_ntoa usb dev mac discover.1 (message f1 ++ rest1) buf3 f2 rest2
        offered bus2 bus3 bus4 ack sent2 recv2 h2 k2)
