-- ===== src/Bridge/Receive.antt =====
-- src/main.c, the receive path: `process_rx_frame` for one Ethernet frame, and `rx_complete` for one USB
-- transfer. `frame` is the memory from the frame on, `frame_len` its length, as `unwrap_data` passes them.
pub mod Replies
pub mod Meaning
pub mod Delivery
pub mod Books
pub mod Completion
pub mod Pool
use android_usb_tether_macos.ProtoRndis.Unwrap.{rndis_drv_unwrap_data}
use mathlib.Core.Option
use android_usb_tether_macos.Ipc.{dec}
use android_usb_tether_macos.ProtoRndis.Driver.{rndis_drv_wrap_frame}
use android_usb_tether_macos.Frame.{frame_eth_to_utun, sizeof_eth_hdr}
use android_usb_tether_macos.Arp.{arp_handle_request, arp_ethertype}
use android_usb_tether_macos.Wire.{Bytes, byte, be16_at}
use android_usb_tether_macos.Bridge.{
  System, BridgeCtx, after, buffer_allocated, wrote_utun, transfer_allocated, resubmitted,
  submitted, buffer_freed, transfer_freed, halt_cleared,
}
use android_usb_tether_macos.Prelude.{
  ℕ, ◌∷◌, [], Bool, true, false, pos, negsuc, none, some, ◌^◌, ◌+◌, ◌%◌, if◌then◌else◌, Option, leb,
  ◌&&◌, ltb, is_positive, not, take, is_zero, pos_part, ◌==◌, length, drop,
}

-- `ctx->gw_mac` is written once, from the first frame whose source does not start with 0xFF.
unfoldable pub learn_gateway : Bytes → ℕ → BridgeCtx → BridgeCtx
learn_gateway frame frame_len ctx =
    if not ctx.gw_mac_learned && leb sizeof_eth_hdr frame_len
    then (if not (byte frame 6 == 0xFF)
        then record ctx { gw_mac = take 6 (drop 6 frame); gw_mac_learned = true }
        else ctx)
    else ctx

module _ (sys : System) where
  -- The ARP reply of `arp_len` bytes is wrapped into a buffer of its own and submitted.
  unfoldable pub send_reply : Bytes → BridgeCtx → BridgeCtx
  send_reply reply ctx = elim (sys.malloc ctx.calls) [
    | none ↦ ctx
    | some txbuf ↦
        let ctx1 = after buffer_allocated ctx in
        let (rlen, wrapped) = rndis_drv_wrap_frame reply txbuf in
        if is_positive rlen
        then (if sys.alloc_transfer ctx1.calls
            then (let ctx2 = after transfer_allocated ctx1 in
                let sent = take (pos_part rlen) wrapped in
                if is_zero (sys.submit_transfer sent ctx2.calls)
                then after (submitted sent) ctx2
                else after buffer_freed (after transfer_freed ctx2))
            else after buffer_freed ctx1)
        else after buffer_freed ctx1
  ]

  unfoldable pub answer_arp : Bytes → BridgeCtx → BridgeCtx
  answer_arp frame ctx =
      let (arp_len, abuf) = arp_handle_request frame (sys.abuf ctx.calls) ctx.mac ctx.our_ip_n in
      if is_positive arp_len then send_reply (take (pos_part arp_len) abuf) ctx else ctx

  unfoldable pub inject : Bytes → BridgeCtx → BridgeCtx
  inject frame ctx =
      let (tlen, tbuf) = frame_eth_to_utun frame (sys.tbuf ctx.calls) in
      if is_positive tlen
      then record (after (wrote_utun (take (pos_part tlen) tbuf)) ctx) {
        rx_pkts = (ctx.rx_pkts + 1) % 2 ^ 64;
        rx_bytes = (ctx.rx_bytes + length frame) % 2 ^ 64;
      }
      else ctx

  unfoldable pub process_rx_frame : Bytes → ℕ → BridgeCtx → BridgeCtx
  process_rx_frame frame frame_len ctx =
      let ctx' = learn_gateway frame frame_len ctx in
      if leb sizeof_eth_hdr frame_len && (be16_at frame 12 == arp_ethertype)
      then answer_arp (take frame_len frame) ctx'
      else inject (take frame_len frame) ctx'

  -- `rx_frame_callback` hands the context on.
  abbrev pub rx_frame_callback : Bytes → ℕ → BridgeCtx → BridgeCtx
  rx_frame_callback = process_rx_frame

-- `xfer->status`, with `actual_length` where the transfer completed.
pub data TransferStatus : Type 0 where
  completed : ℕ → TransferStatus
  no_device : TransferStatus
  cancelled : TransferStatus
  stall : TransferStatus
  timed_out : TransferStatus
  error : TransferStatus
  overflow : TransferStatus

module _ (sys : System) where
  -- The end of `rx_complete`: the transfer is submitted again or no longer counted.
  unfoldable pub resubmit : BridgeCtx → BridgeCtx
  resubmit ctx =
      if ctx.running && sys.g_running ctx.calls
      then (if is_zero (sys.resubmit_transfer ctx.calls)
          then after resubmitted ctx
          else record ctx { active_rx = dec ctx.active_rx })
      else record ctx { active_rx = dec ctx.active_rx }

  -- `none` where `unwrap_data` does not return: see `ProtoRndis.Unwrap.Wrapping`.
  unfoldable pub rx_complete : Bytes → TransferStatus → BridgeCtx → Option BridgeCtx
  rx_complete buf (completed actual_length) ctx =
      if ltb 0 actual_length
      then Option.map resubmit (rndis_drv_unwrap_data (rx_frame_callback sys) buf actual_length ctx)
      else some (resubmit ctx)
  rx_complete buf no_device ctx =
      some (record ctx { disconnected = true; running = false; active_rx = dec ctx.active_rx })
  rx_complete buf cancelled ctx = some (record ctx { active_rx = dec ctx.active_rx })
  rx_complete buf stall ctx = some (resubmit (after halt_cleared ctx))
  rx_complete buf timed_out ctx = some (resubmit ctx)
  rx_complete buf error ctx = some (resubmit ctx)
  rx_complete buf overflow ctx = some (resubmit ctx)
