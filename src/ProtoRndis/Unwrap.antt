-- ===== src/ProtoRndis/Unwrap.antt =====
-- src/proto_rndis.c, `rndis_drv_unwrap_data`: the walk over the messages of one USB transfer. `mem` is
-- the memory from `usb_data` on, of which the first `usb_len` bytes were received. The callback gets
-- the memory from the frame on, the frame's length and the context, and returns the context.
pub mod Steps
pub mod Walk
pub mod Frames
pub mod Wrapping
mod Runs
use android_usb_tether_macos.Rndis.Parse.{rndis_parse_data_packet}
use android_usb_tether_macos.Wire.{Bytes, le32_at}
use android_usb_tether_macos.Prelude.{
  ℕ, ◌+◌, ◌%◌, Option, ◌^◌, none, some, suc, drop, if◌then◌else◌, leb, ◌==◌, ◌||◌, ltb, zero,
}

-- `a + b` on `uint32_t`.
abbrev pub add_u32 : ℕ → ℕ → ℕ
add_u32 a b = (a + b) % 2 ^ 32

module _ {S : Type 0} (on_frame : Bytes → ℕ → S → S) where
  -- One message at `pkt_ptr`: the callback runs if it holds a data packet.
  unfoldable pub deliver : Bytes → ℕ → S → S
  deliver pkt_ptr msg_len ctx = elim (rndis_parse_data_packet pkt_ptr msg_len) [
    | none ↦ ctx
    | some (s, n) ↦ on_frame (drop s pkt_ptr) n ctx
  ]

  -- `none` is no result of the C function: the walk took more rounds than the fuel allows.
  unfoldable pub unwrap_from : ℕ → Bytes → ℕ → ℕ → S → Option S
  unwrap_from zero mem usb_len offset ctx = none
  unwrap_from (suc fuel) mem usb_len offset ctx =
      let pkt_ptr = drop offset mem in
      let msg_len = le32_at pkt_ptr 4 in
      let next = add_u32 offset msg_len in
      let rest = unwrap_from fuel mem usb_len next (deliver pkt_ptr msg_len ctx) in
      if leb (add_u32 offset 8) (usb_len % 2 ^ 32)
      then (if (msg_len == 0) || ltb (usb_len % 2 ^ 32) next then some ctx else rest)
      else some ctx

  -- The bytes of the transfer bound the rounds where the offset does not wrap: see `Walk`.
  unfoldable pub rndis_drv_unwrap_data : Bytes → ℕ → S → Option S
  rndis_drv_unwrap_data mem usb_len ctx = unwrap_from (usb_len + 1) mem usb_len 0 ctx
