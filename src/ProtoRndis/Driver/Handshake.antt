-- ===== src/ProtoRndis/Driver/Handshake.antt =====
-- What the handshake of the driver leaves behind, whatever the device and the bus do.
use android_usb_tether_macos.Wire.Laws.{length-write_at, write_at-front}
use android_usb_tether_macos.Wire.{Bytes, write_at, le32_at}
use android_usb_tether_macos.Rndis.Build.{
  rndis_build_set, rndis_build_query, set_msg, query_msg, rndis_build_keepalive, rndis_build_init,
  next_request, init_msg, keepalive_msg,
}
use android_usb_tether_macos.Rndis.Parse.{
  rndis_parse_query_cmplt, copy_query_data, rndis_parse_init_cmplt,
}
use android_usb_tether_macos.Rndis.{
  RndisState, sizeof_oid_msg, encode_oid_msg, oid_gen_current_packet_filter,
  oid_802_3_permanent_address, sizeof_keepalive_msg, sizeof_init_msg, encode_init_msg,
  encode_keepalive_msg,
}
use android_usb_tether_macos.ProtoRndis.Driver.{
  set_filter, query_mac, take_mac, exchange, packet_filter, rndis_drv_init, rndis_drv_keepalive,
}
use android_usb_tether_macos.Usb.{Libusb, UsbDevice, usb_send_ctrl, usb_recv_ctrl}
use android_usb_tether_macos.Prelude.{
  ℕ, ℤ, ◌≡◌, length, pos, true, Bool-cases, ltb, some, ◌+◌, ◌%◌, inl, ◌^◌, inr, ◌⊎◌, minus_one,
  refl, is_negative, arith, ◌∙◌, take, pos_part, drop, ◌≤◌, ap, ◌++◌, le→ltb,
}

-- The two ends of a step: it went through to the end of the handshake, `n` requests on, or it failed.
pub record Ends {Bus : Type 0} (n : ℕ) (state : RndisState) (out : ℤ × RndisState × Bus)
    : Type 0 where
  pub ended :
      ((out.0 ≡ pos 0)
        × (out.1.link_up ≡ true)
        × (out.1.request_id ≡ (state.request_id + n) % 2 ^ 32))
      ⊎ ((out.0 ≡ minus_one) × (out.1.link_up ≡ state.link_up))
  pub mac_kept : length out.1.mac_addr ≡ 6

module _ {Bus : Type 0} (usb : Libusb Bus) (dev : UsbDevice) where
  set_filter-Ends :
      (buf : Bytes) (state : RndisState) (bus : Bus)
      → length state.mac_addr ≡ 6
      → Ends 1 state (set_filter usb dev buf state bus)
  unfolding set_filter rndis_build_set
  set_filter-Ends buf state bus h = elim (Bool-cases (ltb (length buf) 32)) [
    | inl small ↦ rw small (unfold exchange in (record { ended = inr (refl, refl); mac_kept = h }))
    | inr fits ↦
        let msg = write_at sizeof_oid_msg packet_filter (
          write_at 0
            (encode_oid_msg
              (set_msg oid_gen_current_packet_filter 4 32 ((state.request_id + 1) % 2 ^ 32)))
            buf) in
        elim (Bool-cases (is_negative (exchange usb dev msg (pos 32) bus).0)) [
          | inl failed ↦ rw (fits, failed) (record { ended = inr (refl, refl); mac_kept = h })
          | inr done ↦ rw (fits, done) (record { ended = inl (refl, refl, refl); mac_kept = h })
        ]
  ]

  length-take_mac :
      (old answer : Bytes) (n : ℕ)
      → length old ≡ 6
      → length (take_mac old (rndis_parse_query_cmplt answer n (some (old, 6)))) ≡ 6
  unfolding rndis_parse_query_cmplt copy_query_data
  length-take_mac old answer n h =
      let start = (8 + le32_at answer 20) % 2 ^ 32 in
      ground (
        arith,
        length-write_at 0 (take 6 (drop start answer)) old,
        length-write_at 0 (take (le32_at answer 16) (drop start answer)) old,
      )

  -- A step that takes one request more, with the same link.
  Ends-later :
      (n : ℕ) (state next : RndisState) (out : ℤ × RndisState × Bus)
      → next.link_up ≡ state.link_up
      → next.request_id ≡ (state.request_id + 1) % 2 ^ 32
      → Ends n next out
      → Ends (n + 1) state out
  Ends-later n state next out same more e = record { ended = go e.ended; mac_kept = e.mac_kept }
    where
      go :
          ((out.0 ≡ pos 0)
              × (out.1.link_up ≡ true)
              × (out.1.request_id ≡ (next.request_id + n) % 2 ^ 32))
            ⊎ ((out.0 ≡ minus_one) × (out.1.link_up ≡ next.link_up))
          → ((out.0 ≡ pos 0)
              × (out.1.link_up ≡ true)
              × (out.1.request_id ≡ (state.request_id + (n + 1)) % 2 ^ 32))
            ⊎ ((out.0 ≡ minus_one) × (out.1.link_up ≡ state.link_up))
      go (inl (r, up, id)) = inl (r, up, omega arith)
      go (inr (r, down)) = inr (r, down ∙ same)

  query_mac-Ends :
      (buf : Bytes) (state : RndisState) (bus : Bus)
      → length state.mac_addr ≡ 6
      → Ends 2 state (query_mac usb dev buf state bus)
  unfolding query_mac rndis_build_query
  query_mac-Ends buf state bus h = elim (Bool-cases (ltb (length buf) sizeof_oid_msg)) [
    | inl small ↦ rw small (unfold exchange in (record { ended = inr (refl, refl); mac_kept = h }))
    | inr fits ↦
        let msg =
          write_at 0
            (encode_oid_msg
              (query_msg oid_802_3_permanent_address ((state.request_id + 1) % 2 ^ 32)))
            buf in
        let (ret, answer, bus') = exchange usb dev msg (pos 28) bus in
        let out = rndis_parse_query_cmplt answer (pos_part ret) (some (state.mac_addr, 6)) in
        let asked = record (next_request state) { mac_addr = take_mac state.mac_addr out } in
        elim (Bool-cases (is_negative ret)) [
          | inl failed ↦ rw (fits, failed) (record { ended = inr (refl, refl); mac_kept = h })
          | inr done ↦
              rw (fits, done)
                (Ends-later 1 state asked (set_filter usb dev answer asked bus') refl refl (
                  set_filter-Ends answer asked bus'
                    (length-take_mac state.mac_addr answer (pos_part ret) h)))
        ]
  ]

  rndis_parse_init_cmplt-keeps :
      (answer : Bytes) (n : ℕ) (state : RndisState)
      → let (ok, state') = rndis_parse_init_cmplt answer n state in
        (state'.link_up ≡ state.link_up)
        × (state'.request_id ≡ state.request_id)
        × (state'.mac_addr ≡ state.mac_addr)
  unfolding rndis_parse_init_cmplt
  rndis_parse_init_cmplt-keeps answer n state = ground arith

  -- Whatever the device answers and whichever transfers fail, the handshake ends in one of two ways: it
  -- returns 0 with the link up after exactly three requests, or it returns -1 and the link is as it was.
  -- The MAC address keeps its six bytes in both.
  pub rndis_drv_init-Ends :
      (buf : Bytes) (state : RndisState) (bus : Bus)
      → length state.mac_addr ≡ 6
      → Ends 3 state (rndis_drv_init usb dev buf state bus)
  unfolding rndis_drv_init rndis_build_init
  rndis_drv_init-Ends buf state bus h = elim (Bool-cases (ltb (length buf) sizeof_init_msg)) [
    | inl small ↦ rw small (unfold exchange in (record { ended = inr (refl, refl); mac_kept = h }))
    | inr fits ↦
        let msg = write_at 0 (encode_init_msg (init_msg ((state.request_id + 1) % 2 ^ 32))) buf in
        let (ret, answer, bus') = exchange usb dev msg (pos 24) bus in
        let (ok, ready) = rndis_parse_init_cmplt answer (pos_part ret) (next_request state) in
        let (link, id, mac) =
          rndis_parse_init_cmplt-keeps answer (pos_part ret) (next_request state) in
        elim (Bool-cases (is_negative ret)) [
          | inl failed ↦ rw (fits, failed) (record { ended = inr (refl, refl); mac_kept = h })
          | inr done ↦ elim (Bool-cases (is_negative ok)) [
            | inl refused ↦
                rw (fits, done, refused)
                  (record { ended = inr (refl, link); mac_kept = ap length mac ∙ h })
            | inr accepted ↦
                rw (fits, done, accepted)
                  (Ends-later 2 state ready (query_mac usb dev answer ready bus') link id
                    (query_mac-Ends answer ready bus' (ap length mac ∙ h)))
          ]
        ]
  ]

  -- The keep-alive always returns 0; with a buffer that its message fits, it moves the request id on by
  -- one and changes nothing else of the state, and what it sends first is the keep-alive message with
  -- that id, at the front of the buffer.
  pub rndis_drv_keepalive_lem :
      (buf : Bytes) (state : RndisState) (bus : Bus)
      → sizeof_keepalive_msg ≤ length buf
      → let msg =
          encode_keepalive_msg (keepalive_msg ((state.request_id + 1) % 2 ^ 32))
          ++ drop sizeof_keepalive_msg buf in
        let (_, sent) = usb_send_ctrl usb dev msg sizeof_keepalive_msg bus in
        rndis_drv_keepalive usb dev buf state bus
        ≡ (pos 0, next_request state, (usb_recv_ctrl usb dev msg sent).2)
  unfolding rndis_drv_keepalive rndis_build_keepalive encode_keepalive_msg
  rndis_drv_keepalive_lem buf state bus h =
      rw
        (
          le→ltb (length buf) sizeof_keepalive_msg h,
          write_at-front (encode_keepalive_msg (keepalive_msg ((state.request_id + 1) % 2 ^ 32)))
              buf h,
        )
        refl
