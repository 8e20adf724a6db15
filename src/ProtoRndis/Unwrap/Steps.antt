-- ===== src/ProtoRndis/Unwrap/Steps.antt =====
-- One round of the walk of `rndis_drv_unwrap_data`, case by case.
use android_usb_tether_macos.ProtoRndis.Unwrap.{unwrap_from, add_u32, deliver}
use android_usb_tether_macos.Wire.{Bytes, le32_at}
use android_usb_tether_macos.Prelude.{ℕ, ◌<◌, ◌+◌, drop, ◌≡◌, ◌≤◌, ◌^◌, suc, some, arith}

module _ {S : Type 0} (on_frame : Bytes → ℕ → S → S) (fuel : ℕ) (mem : Bytes) (usb_len offset : ℕ)
    (ctx : S) where
  -- The round takes a message of length `n` and goes on at the wrapped sum.
  pub unwrap_from-next :
      (n : ℕ)
      → le32_at (drop offset mem) 4 ≡ n
      → 0 < n
      → offset + 8 ≤ usb_len
      → add_u32 offset n ≤ usb_len
      → usb_len < 2 ^ 31
      → unwrap_from on_frame (suc fuel) mem usb_len offset ctx
        ≡ unwrap_from on_frame fuel mem usb_len
            (add_u32 offset n)
            (deliver on_frame (drop offset mem) n ctx)
  unfolding unwrap_from
  unwrap_from-next n e pos_n h k small = rw e (ground arith)

  -- Fewer than eight bytes are left.
  pub unwrap_from-end :
      usb_len < offset + 8
      → offset ≤ usb_len
      → usb_len < 2 ^ 31
      → unwrap_from on_frame (suc fuel) mem usb_len offset ctx ≡ some ctx
  unfolding unwrap_from
  unwrap_from-end h k small = ground arith
