-- ===== src/Bridge/Receive/Delivery.antt =====
-- The receive path of src/main.c against what it is for.
use android_usb_tether_macos.Bridge.Receive.Meaning.{
  link_of, writes, packet_of, Link, writes_same, gateway_after, receive_all, receive, writes-append,
}
use android_usb_tether_macos.ProtoRndis.Unwrap.Frames.{
  messages, hand_over, rndis_drv_unwrap_data-hand_over,
}
use android_usb_tether_macos.Arp.{arp_ethertype}
use android_usb_tether_macos.Frame.Layout.{frame_eth_to_utun_refused, frame_eth_to_utun_lem}
use android_usb_tether_macos.Wire.Laws.{byte-append_left, drop-append_left}
use android_usb_tether_macos.Bridge.Receive.Replies.{
  answer_arp-Replied, Settled, sent, nothing, dropped, refused,
}
use android_usb_tether_macos.Frame.{sizeof_eth_hdr, choose_family, frame_eth_to_utun}
use android_usb_tether_macos.Bridge.Receive.{
  learn_gateway, answer_arp, inject, process_rx_frame, rx_complete, resubmit, rx_frame_callback,
  completed,
}
use android_usb_tether_macos.Bridge.{System, BridgeCtx, Call, wrote_utun, resubmitted}
use android_usb_tether_macos.Wire.{Bytes, byte, be16_at, be32}
use mathlib.Core.List.{append-nil}
use android_usb_tether_macos.Prelude.{
  ◌∷◌, [], true, pos, none, some, ◌^◌, inl, inr, List, ◌<◌, ◌++◌, ◌≡◌, length, leb, refl, ap, arith,
  ◌&&◌, ◌==◌, drop, Bool-cases, ◌⊎◌, minus_one, leb→le, ℤ, lt→ltb, take-append_left, ◌≤◌,
  take-append, length-drop, Option-cases, All, ◌∙◌, is_zero, sym, length-append, ◌+◌,
}

writes-Settled : (cs ds : List Call) → Settled ds → writes (cs ++ ds) ≡ writes cs
writes-Settled cs _ nothing = writes_same cs [] refl
writes-Settled cs _ dropped = writes_same cs _ refl
writes-Settled cs _ refused = writes_same cs _ refl
writes-Settled cs _ (sent b) = writes_same cs _ refl

frame_eth_to_utun-unknown :
    (frame tbuf : Bytes)
    → choose_family (be16_at frame 12) ≡ none
    → frame_eth_to_utun frame tbuf ≡ (minus_one, tbuf)
unfolding frame_eth_to_utun
frame_eth_to_utun-unknown frame tbuf e = ground arith

-- A packet in the array, of the length that is returned.
pub record Converted (frame tbuf packet : Bytes) (result : ℤ × Bytes) : Type 0 where
  pub size_eq : length packet + 10 ≡ length frame
  pub some_bytes : 0 < length packet
  pub result_eq : result ≡ (pos (length packet), packet ++ drop (length packet) tbuf)

pub frame_eth_to_utun-packet_of :
    (frame tbuf : Bytes)
    → length frame < 2 ^ 31
    → length tbuf ≡ 2304
    → ((packet : Bytes) × (packet_of frame ≡ packet ∷ [])
        × Converted frame tbuf packet (frame_eth_to_utun frame tbuf))
      ⊎ ((packet_of frame ≡ []) × (frame_eth_to_utun frame tbuf ≡ (minus_one, tbuf)))
frame_eth_to_utun-packet_of frame tbuf small size =
    elim (Bool-cases (leb sizeof_eth_hdr (length frame) && leb (length frame) 2314)) [
      | inr e ↦ inr (rw e refl, (frame_eth_to_utun_refused frame tbuf small).1 (ground arith))
      | inl e ↦
          let range : (14 ≤ length frame) × (length frame ≤ 2314) = ground arith in
          elim (Option-cases (choose_family (be16_at frame 12))) [
            | inl f ↦ inr (rw (e, f) refl, frame_eth_to_utun-unknown frame tbuf f)
            | inr (af, f) ↦ inl (
              be32 af ++ drop sizeof_eth_hdr frame,
              rw (e, f) refl,
              record {
                size_eq = omega (
                  arith,
                  length-drop sizeof_eth_hdr frame,
                  length-append (be32 af) (drop sizeof_eth_hdr frame),
                );
                some_bytes = ground arith;
                result_eq =
                    frame_eth_to_utun_lem frame tbuf af range.0 (omega arith) (omega arith) f;
              },
            )
          ]
    ]

module _ (sys : System) where
  answer_arp_link :
      (frame : Bytes) (ctx : BridgeCtx) → link_of (answer_arp sys frame ctx) ≡ link_of ctx
  answer_arp_link frame ctx =
      let r = answer_arp-Replied sys frame ctx in
      rw (r.only_calls, writes-Settled ctx.calls r.made r.settled) refl

  learn_gateway_link :
      (frame rest : Bytes) (ctx : BridgeCtx)
      → link_of (learn_gateway (frame ++ rest) (length frame) ctx) ≡ record {
        gateway = gateway_after frame (link_of ctx).gateway;
        delivered = writes ctx.calls;
      }
  unfolding learn_gateway
  learn_gateway_link frame rest ctx = elim (Bool-cases ctx.gw_mac_learned) [
    | inl e ↦ rw e refl
    | inr e ↦ elim (Bool-cases (leb sizeof_eth_hdr (length frame))) [
      | inr f ↦ rw (e, f) refl
      | inl f ↦
          let at : byte (frame ++ rest) 6 ≡ byte frame 6 =
            byte-append_left frame rest 6 (omega (arith, leb→le _ _ f)) in
          elim (Bool-cases (byte frame 6 == 0xFF)) [
            | inl g ↦ rw (e, f, at, g) refl
            | inr g ↦
                rw
                  (
                    e,
                    f,
                    at,
                    g,
                    drop-append_left 6 frame rest (omega (arith, leb→le _ _ f)),
                    take-append_left 6 (drop 6 frame) rest
                        (omega (arith, leb→le _ _ f, length-drop 6 frame)),
                  )
                  refl
          ]
    ]
  ]

  inject_link :
      (frame : Bytes) (ctx : BridgeCtx)
      → length frame < 2 ^ 31
      → length (sys.tbuf ctx.calls) ≡ 2304
      → link_of (inject sys frame ctx) ≡ record {
        gateway = (link_of ctx).gateway;
        delivered = writes ctx.calls ++ packet_of frame;
      }
  unfolding inject
  inject_link frame ctx small size =
      elim (frame_eth_to_utun-packet_of frame (sys.tbuf ctx.calls) small size) [
        | inr (none_of, e) ↦ rw (e, none_of, append-nil) refl
        | inl (packet, one_of, c) ↦
            rw
              (
                c.result_eq,
                one_of,
                lt→ltb 0 (length packet) c.some_bytes,
                take-append packet _,
                writes-append ctx.calls (wrote_utun packet ∷ []),
              )
              refl
      ]

  -- `receive` in two steps.
  abbrev deliver_to : Bytes → Link → Link
  deliver_to frame link = record link { delivered = link.delivered ++ packet_of frame }

  arp_test_eq :
      (frame rest : Bytes)
      → (leb sizeof_eth_hdr (length frame) && (be16_at (frame ++ rest) 12 == arp_ethertype))
        ≡ (leb sizeof_eth_hdr (length frame) && (be16_at frame 12 == arp_ethertype))
  arp_test_eq frame rest = elim (Bool-cases (leb sizeof_eth_hdr (length frame))) [
    | inr f ↦ rw f refl
    | inl f ↦
        rw
          (
            f,
            byte-append_left frame rest 12 (omega (arith, leb→le _ _ f)),
            byte-append_left frame rest 13 (omega (arith, leb→le _ _ f)),
          )
          refl
  ]

  arp_no_packet :
      (frame : Bytes)
      → (leb sizeof_eth_hdr (length frame) && (be16_at frame 12 == arp_ethertype)) ≡ true
      → packet_of frame ≡ []
  unfolding choose_family
  arp_no_packet frame e = ground arith

  -- One frame: the gateway's address is learned from it if none was, and its packet, if it has one, is
  -- handed to the Mac behind those before; an ARP frame hands on nothing.
  process_rx_frame_link :
      (frame rest : Bytes) (ctx : BridgeCtx)
      → length frame < 2 ^ 31
      → ((cs : List Call) → length (sys.tbuf cs) ≡ 2304)
      → link_of (process_rx_frame sys (frame ++ rest) (length frame) ctx)
        ≡ receive frame (link_of ctx)
  unfolding process_rx_frame
  process_rx_frame_link frame rest ctx small size =
      let ctx' = learn_gateway (frame ++ rest) (length frame) ctx in
      let learned : deliver_to frame (link_of ctx') ≡ receive frame (link_of ctx) =
        ap (deliver_to frame) (learn_gateway_link frame rest ctx) in
      elim (Bool-cases (leb sizeof_eth_hdr (length frame) && (be16_at frame 12 == arp_ethertype))) [
        | inr e ↦
            rw (arp_test_eq frame rest, e, take-append frame rest)
              (inject_link frame ctx' small (size ctx'.calls) ∙ learned)
        | inl e ↦
            rw (arp_test_eq frame rest, e, take-append frame rest)
              (answer_arp_link frame ctx'
                ∙ sym (rw (arp_no_packet frame e, append-nil) refl)
                ∙ learned)
      ]

  hand_over_link :
      (frames : List Bytes) (stale : Bytes) (ctx : BridgeCtx)
      → All (λ f. length f < 2 ^ 31) frames
      → ((cs : List Call) → length (sys.tbuf cs) ≡ 2304)
      → link_of (hand_over (rx_frame_callback sys) frames stale ctx)
        ≡ receive_all frames (link_of ctx)
  hand_over_link [] stale ctx small size = refl
  hand_over_link (f ∷ fs) stale ctx small size =
      hand_over_link fs stale _ small.1 size
      ∙ ap (receive_all fs) (process_rx_frame_link f (messages fs ++ stale) ctx small.0 size)

  resubmit_link : (ctx : BridgeCtx) → link_of (resubmit sys ctx) ≡ link_of ctx
  unfolding resubmit
  resubmit_link ctx = elim (Bool-cases (ctx.running && sys.g_running ctx.calls)) [
    | inr e ↦ rw e refl
    | inl e ↦ elim (Bool-cases (is_zero (sys.resubmit_transfer ctx.calls))) [
      | inr f ↦ rw (e, f) refl
      | inl f ↦ rw (e, f, writes_same ctx.calls (resubmitted ∷ []) refl) refl
    ]
  ]

-- A completed transfer of wrapped frames, none of them empty, is handled to its end, and what the Mac
-- and the bridge have of it is what the frames mean one after the other: each packet of theirs once and
-- in order, and the gateway's address from the first frame with one. Nothing else that the system answers,
-- to an allocation or a submission, and none of the stale bytes behind the transfer changes that.
pub rx_complete-receive_all :
    (sys : System) (frames : List Bytes) (stale : Bytes) (ctx : BridgeCtx)
    → All (λ f. 0 < length f) frames
    → All (λ f. length f < 2 ^ 31) frames
    → length (messages frames) < 2 ^ 31
    → 0 < length (messages frames)
    → ((cs : List Call) → length (sys.tbuf cs) ≡ 2304)
    → (ctx' : BridgeCtx) × (rx_complete sys
          (messages frames ++ stale)
          (completed (length (messages frames)))
          ctx
        ≡ some ctx')
      × (link_of ctx' ≡ receive_all frames (link_of ctx))
unfolding rx_complete
rx_complete-receive_all sys frames stale ctx nonempty small fits received size = (
  resubmit sys (hand_over (rx_frame_callback sys) frames stale ctx),
  rw
      (
        lt→ltb 0 (length (messages frames)) received,
        rndis_drv_unwrap_data-hand_over (rx_frame_callback sys) frames stale ctx nonempty fits,
      )
      refl,
  resubmit_link sys _ ∙ hand_over_link sys frames stale ctx small size,
)
