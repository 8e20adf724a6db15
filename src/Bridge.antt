-- ===== src/Bridge.antt =====
-- src/main.c, the async bridge: the context that its threads share, and what they ask of the system.
pub mod Receive
pub mod Transmit
mod Runs
use android_usb_tether_macos.Wire.{Bytes}
use android_usb_tether_macos.Prelude.{
  ℕ, ◌∷◌, [], ◌++◌, Bool, true, false, pos, negsuc, none, some, ◌^◌, ℤ, List, Option,
}

-- What the threads have done, oldest first; each entry but `refused` is a call that succeeded. A buffer
-- and a transfer that are submitted belong to libusb, whose completion callback frees them.
pub data Call : Type 0 where
  buffer_allocated : Call
  buffer_freed : Call
  transfer_allocated : Call
  transfer_freed : Call
  submitted : Bytes → Call
  resubmitted : Call
  halt_cleared : Call
  wrote_utun : Bytes → Call

-- `malloc`, libusb and the stack, each a function of what was done before. `abuf` and `tbuf` are the
-- two arrays of `process_rx_frame` as they are found; a buffer of `malloc` has any contents.
pub record System : Type 0 where
  pub malloc : List Call → Option Bytes
  pub alloc_transfer : List Call → Bool
  pub submit_transfer : Bytes → List Call → ℤ
  pub resubmit_transfer : List Call → ℤ
  pub g_running : List Call → Bool
  pub abuf : List Call → Bytes
  pub tbuf : List Call → Bytes

abbrev pub eth_buf_size : ℕ
eth_buf_size = 2048

abbrev pub rndis_buf_size : ℕ
rndis_buf_size = 32768

-- The part of `bridge_ctx` that the receive path uses, with the calls made so far.
pub record BridgeCtx : Type 0 where
  pub mac : Bytes
  pub gw_mac : Bytes
  pub gw_mac_learned : Bool
  pub our_ip_n : ℕ
  pub running : Bool
  pub disconnected : Bool
  pub rx_pkts : ℕ
  pub rx_bytes : ℕ
  pub active_rx : ℤ
  pub calls : List Call

-- The context after one more call.
abbrev pub after : Call → BridgeCtx → BridgeCtx
after c ctx = record ctx { calls = ctx.calls ++ (c ∷ []) }
