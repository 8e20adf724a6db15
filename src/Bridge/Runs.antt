-- ===== src/Bridge/Runs.antt =====
-- src/main.c: the bridge on concrete frames and packets.
use android_usb_tether_macos.Bridge.Receive.Pool.Freeing.{Freed, usb_to_tun-Freed}
use android_usb_tether_macos.Bridge.Receive.Pool.{
  RxAttempt, usb_to_tun, EventRound, RxFlags, lost_device, start_rx, start_one, event_loop,
}
use android_usb_tether_macos.Rndis.{encode_data_packet}
use android_usb_tether_macos.Bridge.Transmit.Invariant.{IsConsistent, Reachable-IsConsistent}
use android_usb_tether_macos.Bridge.Transmit.Sent.{submit_claimed-outbound_frame}
use android_usb_tether_macos.ProtoRndis.Unwrap.{rndis_drv_unwrap_data}
use android_usb_tether_macos.Bridge.Receive.Delivery.{rx_complete-receive_all}
use android_usb_tether_macos.Bridge.Receive.Completion.{Finished, rx_complete-Finished}
use android_usb_tether_macos.ProtoRndis.Unwrap.Frames.{messages, collect}
use android_usb_tether_macos.Bridge.Transmit.Pool.{claimed_xfer}
use android_usb_tether_macos.Bridge.Receive.Meaning.{receive_all, link_of}
use android_usb_tether_macos.Bridge.Receive.{rx_complete, stall, completed}
use android_usb_tether_macos.Bridge.Transmit.Refinement.{Move, counts_of, handing, Step-Move}
use android_usb_tether_macos.Frame.{choose_ethertype, choose_family}
use android_usb_tether_macos.Wire.{Bytes, be16}
use android_usb_tether_macos.Bridge.Transmit.Progress.{CanClaim, InFlight, Reachable-CanClaim}
use android_usb_tether_macos.Bridge.{BridgeCtx, System, Call}
use android_usb_tether_macos.Bridge.Transmit.{
  claim_free, TxState, Reachable, tx_init, later, tx_complete, outbound_frame, begun, fresh_xfer,
  claimed, submit_claimed, claim, launch, uncounted, submit,
}
use android_usb_tether_macos.Prelude.{
  ℕ, ◌∷◌, [], ◌++◌, true, false, pos, none, some, ◌≡◌, refl, ◌⊎◌, List, replicate, drop, length,
  length-replicate, arith,
}

abbrev phone : Bytes
phone = 10 ∷ 11 ∷ 12 ∷ 13 ∷ 14 ∷ 15 ∷ []

abbrev us : Bytes
us = 2 ∷ 66 ∷ 172 ∷ 17 ∷ 0 ∷ 1 ∷ []

-- A system without memory to spare, which accepts every submission.
abbrev system : System
system = record {
  malloc = λ cs. none;
  alloc_transfer = λ cs. true;
  submit_transfer = λ sent cs. pos 0;
  resubmit_transfer = λ cs. pos 0;
  g_running = λ cs. true;
  abuf = λ cs. replicate 2048 0;
  tbuf = λ cs. replicate 2304 0;
}

abbrev fresh_ctx : BridgeCtx
fresh_ctx = record {
  mac = us;
  gw_mac = replicate 6 0xFF;
  gw_mac_learned = false;
  our_ip_n = 0x642AA8C0;
  running = true;
  disconnected = false;
  rx_pkts = 0;
  rx_bytes = 0;
  active_rx = pos 16;
  calls = [];
}

-- An IPv4 frame of the phone with a payload of two bytes, and one of an unknown type.
abbrev ip_frame : Bytes
ip_frame = us ++ (phone ++ (8 ∷ 0 ∷ 0x45 ∷ 7 ∷ []))

abbrev odd_frame : Bytes
odd_frame = us ++ (us ++ (0x12 ∷ 0x34 ∷ []))

abbrev two_frames : List Bytes
two_frames = ip_frame ∷ odd_frame ∷ []

tbuf_size : (cs : List Call) → length (system.tbuf cs) ≡ 2304
tbuf_size cs = length-replicate {A = ℕ} 2304 0

rx_complete-receive_all_example :
    (ctx' : BridgeCtx) × (rx_complete system
        (messages two_frames ++ (9 ∷ []))
        (completed (length (messages two_frames)))
        fresh_ctx
      ≡ some ctx')
    × (link_of ctx' ≡ receive_all two_frames (link_of fresh_ctx))
unfolding encode_data_packet
rx_complete-receive_all_example =
    rx_complete-receive_all system two_frames (9 ∷ []) fresh_ctx (omega arith, (omega arith, tt))
      (omega arith, (omega arith, tt)) (omega arith) (omega arith) tbuf_size

-- What they mean: the phone's address and one packet.
two_frames_meaning :
    receive_all two_frames (link_of fresh_ctx)
    ≡ record { gateway = some phone; delivered = (0 ∷ 0 ∷ 0 ∷ 2 ∷ 0x45 ∷ 7 ∷ []) ∷ [] }
unfolding choose_family
two_frames_meaning = refl

rx_complete-Finished_example :
    (ctx' : BridgeCtx) × (rx_complete system [] stall fresh_ctx ≡ some ctx')
    × Finished fresh_ctx ctx'
rx_complete-Finished_example =
    rx_complete-Finished system [] stall fresh_ctx tt tbuf_size
      (record { buffers = refl; transfers = refl; packets = refl; bytes = refl })

-- The thread claims the first slot for a frame.
abbrev one_claimed : TxState
one_claimed = record tx_init {
  tx_pool = claimed_xfer ∷ replicate 63 fresh_xfer;
  thread = claimed 0 ip_frame;
}

one_claimed-Reachable : Reachable one_claimed
unfolding claim_free
one_claimed-Reachable = later begun (claim ip_frame refl refl refl)

Reachable-IsConsistent_example : IsConsistent one_claimed
Reachable-IsConsistent_example = Reachable-IsConsistent one_claimed-Reachable

Step-Move_example :
    Move
      (counts_of one_claimed)
      (counts_of (submit_claimed (replicate 200 0) (pos 0) 0 ip_frame one_claimed))
      handing
Step-Move_example = Step-Move one_claimed-Reachable (submit (replicate 200 0) (pos 0) refl)

Reachable-CanClaim_example :
    CanClaim tx_init ip_frame
    ⊎ ((r : InFlight tx_init.tx_pool) × CanClaim (tx_complete r.index false tx_init) ip_frame)
Reachable-CanClaim_example = Reachable-CanClaim ip_frame begun refl refl

-- An IPv4 packet of the Mac.
abbrev packet : Bytes
packet = 0 ∷ 0 ∷ 0 ∷ 2 ∷ 0x45 ∷ 7 ∷ []

submit_claimed-outbound_frame_example :
    let frame = ((phone ++ us) ++ be16 0x0800) ++ drop 4 packet in
    (sent : Bytes) × (outbound_frame packet (replicate 2048 0) us phone ≡ some frame)
    × (submit_claimed (replicate 32768 0) (pos 0) 0 frame one_claimed ≡ record one_claimed {
      tx_pool = launch 0 sent one_claimed.tx_pool;
      thread = uncounted frame;
    })
    × (rndis_drv_unwrap_data collect sent (length sent) [] ≡ some (frame ∷ []))
unfolding choose_ethertype
submit_claimed-outbound_frame_example =
    submit_claimed-outbound_frame packet (replicate 2048 0) (replicate 32768 0) us phone 0x0800 0
      one_claimed (omega arith) (omega arith) (omega arith) (length-replicate {A = ℕ} 32768 0) refl
      refl refl

-- One buffer, one transfer and one submission fail.
abbrev poor_attempts : List RxAttempt
poor_attempts =
    record { buf_ok = true; xfer_ok = true; submit_ok = true }
    ∷ record { buf_ok = false; xfer_ok = true; submit_ok = true }
    ∷ record { buf_ok = true; xfer_ok = false; submit_ok = true }
    ∷ record { buf_ok = true; xfer_ok = true; submit_ok = false }
    ∷ []

abbrev rx_flags : RxFlags
rx_flags = record { running = true; g_running = true; disconnected = false; active_rx = pos 0 }

abbrev lost_round : List EventRound
lost_round =
    record {
      result = lost_device;
      running = true;
      g_running = true;
      disconnected = false;
      active_rx = pos 1;
    }
    ∷ []

lost_flags :
    (usb_to_tun poor_attempts lost_round rx_flags).1
    ≡ record { running = false; g_running = true; disconnected = true; active_rx = pos 1 }
unfolding usb_to_tun start_rx start_one event_loop
lost_flags = refl

usb_to_tun-Freed_example : Freed (usb_to_tun poor_attempts lost_round rx_flags)
usb_to_tun-Freed_example = usb_to_tun-Freed poor_attempts lost_round rx_flags
