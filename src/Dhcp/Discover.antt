-- ===== src/Dhcp/Discover.antt =====
-- src/dhcp.c, `dhcp_discover`: the exchange of four messages, with the search through what arrives. `none` is
-- no result of the C function: a walk over a transfer or over options did not end.
pub mod Attempts
pub mod Meant
pub mod Granted
mod Runs
use android_usb_tether_macos.Rndis.Build.{rndis_build_data_packet}
use android_usb_tether_macos.Dhcp.Scan.{Scanned, scan_options}
use android_usb_tether_macos.Dhcp.Build.{
  sizeof_dhcp_packet, dhcp_build_request, dhcp_build_discover,
}
use android_usb_tether_macos.ProtoRndis.Unwrap.{add_u32}
use android_usb_tether_macos.Dhcp.Lease.{Lease, lease_of}
use android_usb_tether_macos.Dhcp.Answer.{dhcp_answer}
use android_usb_tether_macos.Rndis.Parse.{rndis_parse_data_packet}
use android_usb_tether_macos.Usb.{Libusb, UsbDevice, usb_recv_bulk, usb_send_bulk}
use android_usb_tether_macos.Wire.{Bytes, le32_at}
use android_usb_tether_macos.Dhcp.Options.{Addrs, dhcp_parse_options}
use android_usb_tether_macos.Prelude.{
  ℕ, ◌∷◌, [], Bool, true, false, none, some, pos, negsuc, suc, zero, ◌^◌, Option, drop, ℤ,
  if◌then◌else◌, not, is_negative, is_positive, leb, pos_part, ◌==◌, ◌%◌, take, ◌+◌, ◌||◌, ltb,
}

-- The transaction of every exchange.
abbrev pub discover_xid : ℕ
discover_xid = 0x12345678

abbrev pub dhcp_offer : ℕ
dhcp_offer = 2

abbrev pub dhcp_ack : ℕ
dhcp_ack = 5

abbrev pub max_attempts : ℕ
max_attempts = 50

-- `server_addr`, `offered_addr` and the four addresses of the options.
pub record Offer : Type 0 where
  pub server_addr : ℕ
  pub offered_addr : ℕ
  pub addrs : Addrs

pub record Acked : Type 0 where
  pub addrs : Addrs
  pub lease : Option Lease

-- `dhcp->yiaddr` as it stands in memory.
abbrev pub yiaddr_of : Bytes → ℕ
yiaddr_of dhcp = le32_at dhcp 16

-- One frame in the wait for the offer: whether it is one, and what it says.
unfoldable pub offer_frame : Bytes → ℕ → Offer → Option (Bool × Offer)
offer_frame frame frame_len o = elim (dhcp_answer frame frame_len discover_xid) [
  | none ↦ some (false, o)
  | some (dhcp, opts_len) ↦
      let opts = drop sizeof_dhcp_packet dhcp in
      let start : Scanned = record { msg_type_dhcp = 0; server_addr = o.server_addr } in
      elim (scan_options true opts opts_len start) [
        | none ↦ none
        | some s ↦
            if s.msg_type_dhcp == dhcp_offer
            then elim (dhcp_parse_options opts opts_len o.addrs) [
              | none ↦ none
              | some addrs ↦ some (
                true,
                record {
                  server_addr = s.server_addr;
                  offered_addr = yiaddr_of dhcp;
                  addrs = addrs;
                },
              )
            ]
            else some (false, record o { server_addr = s.server_addr })
      ]
]

module _ (inet_ntoa : ℕ → Bytes) where
  -- One frame in the wait for the acknowledgement.
  unfoldable pub ack_frame : Bytes → ℕ → Acked → Option (Bool × Acked)
  ack_frame frame frame_len a = elim (dhcp_answer frame frame_len discover_xid) [
    | none ↦ some (false, a)
    | some (dhcp, opts_len) ↦
        let opts = drop sizeof_dhcp_packet dhcp in
        let start : Scanned = record { msg_type_dhcp = 0; server_addr = 0 } in
        elim (scan_options false opts opts_len start) [
          | none ↦ none
          | some s ↦
              if s.msg_type_dhcp == dhcp_ack
              then elim (dhcp_parse_options opts opts_len a.addrs) [
                | none ↦ none
                | some addrs ↦ some (
                  true,
                  record {
                    addrs = addrs;
                    lease = some (lease_of inet_ntoa (yiaddr_of dhcp) addrs);
                  },
                )
              ]
              else some (false, a)
        ]
  ]

module _ {S : Type 0} (on_frame : Bytes → ℕ → S → Option (Bool × S)) where
  -- The frame of a message, if it has one.
  unfoldable pub search_message : Bytes → ℕ → S → Option (Bool × S)
  search_message pkt_ptr msg_len s = elim (rndis_parse_data_packet pkt_ptr msg_len) [
    | none ↦ some (false, s)
    | some (from, n) ↦ on_frame (drop from pkt_ptr) n s
  ]

  -- The walk over a transfer of `ret` bytes, until a frame is found.
  unfoldable pub search_from : ℕ → Bytes → ℕ → ℕ → S → Option (Bool × S)
  search_from zero mem ret offset s = none
  search_from (suc fuel) mem ret offset s =
      let pkt_ptr = drop offset mem in
      let msg_len = le32_at pkt_ptr 4 in
      let next = add_u32 offset msg_len in
      let ends = not (leb (add_u32 offset 8) (ret % 2 ^ 32)) in
      let bad = (msg_len == 0) || ltb (ret % 2 ^ 32) next in
      if ends || bad then some (false, s) else elim (search_message pkt_ptr msg_len s) [
        | none ↦ none
        | some (true, s') ↦ some (true, s')
        | some (false, s') ↦ search_from fuel mem ret next s'
      ]

  unfoldable pub search_transfer : ℤ → Bytes → S → Option (Bool × S)
  search_transfer ret mem s =
      if is_positive ret
      then search_from (pos_part ret + 1) mem (pos_part ret) 0 s
      else some (false, s)

  module _ {Bus : Type 0} (usb : Libusb Bus) (dev : UsbDevice) where
    -- At most `n` transfers are received.
    unfoldable pub attempts : ℕ → Bytes → S → Bus → Option (Bool × S × Bytes × Bus)
    attempts zero buf s bus = some (false, s, buf, bus)
    attempts (suc n) buf s bus =
        let (ret, buf', bus') = usb_recv_bulk usb dev buf 200 bus in
        elim (search_transfer ret buf' s) [
          | none ↦ none
          | some (true, s') ↦ some (true, s', buf', bus')
          | some (false, s') ↦ attempts n buf' s' bus'
        ]

module _ (inet_ntoa : ℕ → Bytes) {Bus : Type 0} (usb : Libusb Bus) (dev : UsbDevice) where
  -- A frame of `len` bytes in `eth_buf` is wrapped into `rndis_buf` and sent; the result tells whether it was.
  unfoldable pub send_frame : ℤ × Bytes → Bytes → Bus → Bool × Bytes × Bus
  send_frame (len, eth_buf) rndis_buf bus =
      if is_negative len
      then (false, rndis_buf, bus)
      else (let (rndis_len, wrapped) =
            rndis_build_data_packet rndis_buf (take (pos_part len) eth_buf) in
          if is_negative rndis_len
          then (false, wrapped, bus)
          else (let (ret, bus') = usb_send_bulk usb dev wrapped (pos_part rndis_len) bus in
              (not (is_negative ret), wrapped, bus')))

  -- The second half: the request for the offered address, and its acknowledgement.
  unfoldable pub request_lease : Bytes → Bytes → Bytes → Offer → Bus → Option (Option Lease × Bus)
  request_lease mac eth_buf rndis_buf o bus =
      let request = dhcp_build_request eth_buf mac discover_xid o.offered_addr o.server_addr in
      let (sent, rndis_buf', bus') = send_frame request rndis_buf bus in
      if not sent
      then some (none, bus')
      else elim (attempts (ack_frame inet_ntoa) usb dev max_attempts rndis_buf'
          (record { addrs = o.addrs; lease = none }) bus') [
            | none ↦ none
            | some (found, a, _, bus'') ↦ some (if found then a.lease else none, bus'')
          ]

  -- The lease, where the function returns 0, and the bus afterwards.
  unfoldable pub dhcp_discover : Bytes → Bytes → Bytes → Bus → Option (Option Lease × Bus)
  dhcp_discover mac eth_buf rndis_buf bus =
      let discover = dhcp_build_discover eth_buf mac discover_xid in
      let (sent, rndis_buf', bus') = send_frame discover rndis_buf bus in
      let nothing : Offer = record {
        server_addr = 0;
        offered_addr = 0;
        addrs = record { gateway = 0; netmask = 0; dns1 = 0; dns2 = 0 };
      } in
      if not sent
      then some (none, bus')
      else elim (attempts offer_frame usb dev max_attempts rndis_buf' nothing bus') [
        | none ↦ none
        | some (_, o, rndis_buf'', bus'') ↦
            if o.offered_addr == 0
            then some (none, bus'')
            else request_lease mac discover.1 rndis_buf'' o bus''
      ]
