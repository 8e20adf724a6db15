-- ===== src/ProtoRndis/Unwrap/Wrapping.antt =====
-- A message length that wraps the 32-bit offset of `rndis_drv_unwrap_data`.
use android_usb_tether_macos.ProtoRndis.Unwrap.Steps.{unwrap_from-next}
use android_usb_tether_macos.ProtoRndis.Unwrap.{unwrap_from, add_u32, deliver}
use android_usb_tether_macos.Wire.{Bytes, le32_at}
use android_usb_tether_macos.Prelude.{
  ℕ, ◌≡◌, drop, ◌^◌, ◌-◌, ◌≤◌, ◌+◌, ◌<◌, none, suc, zero, refl, arith, ◌∙◌,
}

module _ {S : Type 0} (on_frame : Bytes → ℕ → S → S) (mem : Bytes) (usb_len n : ℕ)
    (first : le32_at mem 4 ≡ n) (second : le32_at (drop n mem) 4 ≡ 2 ^ 32 - n) (header : 8 ≤ n)
    (received : n + 8 ≤ usb_len) (small : usb_len < 2 ^ 31) where
  circle :
      (fuel : ℕ) (ctx : S)
      → (unwrap_from on_frame fuel mem usb_len 0 ctx ≡ none)
        × (unwrap_from on_frame fuel mem usb_len n ctx ≡ none)
  circle zero ctx = unfold unwrap_from in (refl, refl)
  circle (suc fuel) ctx =
      let there : add_u32 0 n ≡ n = omega arith in
      let back : add_u32 n (2 ^ 32 - n) ≡ 0 = omega arith in
      (
        unwrap_from-next on_frame fuel mem usb_len 0 ctx n first (omega arith) (omega arith)
              (omega arith) small
            ∙ rw there (circle fuel (deliver on_frame mem n ctx)).1,
        unwrap_from-next on_frame fuel mem usb_len n ctx (2 ^ 32 - n) second (omega arith)
              (omega arith) (omega arith) small
            ∙ rw back (circle fuel (deliver on_frame (drop n mem) (2 ^ 32 - n) ctx)).0,
      )

-- If the first message of a transfer has length `n` and the message behind it has length 2^32 - n,
-- the sum of the offset and the second length wraps to 0, passes the check against the received
-- length, and the walk starts again: no number of rounds is enough, so the C function never returns.
pub unwrap_from-never_ends :
    {S : Type 0} (on_frame : Bytes → ℕ → S → S) (mem : Bytes) (usb_len n fuel : ℕ) (ctx : S)
    → le32_at mem 4 ≡ n
    → le32_at (drop n mem) 4 ≡ 2 ^ 32 - n
    → 8 ≤ n
    → n + 8 ≤ usb_len
    → usb_len < 2 ^ 31
    → unwrap_from on_frame fuel mem usb_len 0 ctx ≡ none
unwrap_from-never_ends on_frame mem usb_len n fuel ctx first second header received small =
    (circle on_frame mem usb_len n first second header received small fuel ctx).0
