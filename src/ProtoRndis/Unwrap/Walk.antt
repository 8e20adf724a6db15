-- ===== src/ProtoRndis/Unwrap/Walk.antt =====
-- The walk ends, and hands out frames of the transfer only, if no message length makes the 32-bit
-- offset wrap.
use android_usb_tether_macos.Rndis.Bounds.{rndis_parse_data_packet_bounds}
use android_usb_tether_macos.Rndis.Parse.{rndis_parse_data_packet}
use android_usb_tether_macos.ProtoRndis.Unwrap.{
  deliver, unwrap_from, add_u32, rndis_drv_unwrap_data,
}
use android_usb_tether_macos.Wire.{Bytes, le32_at}
use android_usb_tether_macos.Prelude.{
  ℕ, ◌<◌, ◌+◌, ◌≤◌, drop, ◌^◌, length, Option, ◌≡◌, some, arith, suc, zero, length-drop, drop-drop,
  none, Bool-cases, leb, ◌%◌, inr, inl, ◌==◌, ◌||◌, ltb, refl,
}

-- The offsets that the walk reaches while its sums stay below 2 ^ 32.
pub data Reached (mem : Bytes) (usb_len : ℕ) : ℕ → Type 0 where
  start : Reached mem usb_len 0
  next :
      {offset : ℕ}
      → Reached mem usb_len offset
      → offset + 8 ≤ usb_len
      → offset + le32_at (drop offset mem) 4 ≤ usb_len
      → Reached mem usb_len (offset + le32_at (drop offset mem) 4)

Reached-le : {mem : Bytes} {usb_len offset : ℕ} → Reached mem usb_len offset → offset ≤ usb_len
Reached-le start = omega arith
Reached-le (next r h k) = k

-- No message length wraps the offset.
abbrev pub NoWrap : Bytes → ℕ → Type 0
NoWrap mem usb_len =
    (offset : ℕ) → Reached mem usb_len offset → offset + le32_at (drop offset mem) 4 < 2 ^ 32

module _ {S : Type 0} (on_frame : Bytes → ℕ → S → S) (P : S → Type 0) (mem : Bytes) (usb_len : ℕ)
    (keep : (k n : ℕ) (ctx : S) → 0 < n → k + n ≤ usb_len → P ctx → P (on_frame (drop k mem) n ctx))
    (received : usb_len ≤ length mem) (small : usb_len < 2 ^ 31) where
  deliver_inv :
      (offset msg_len : ℕ) (ctx : S)
      → offset + msg_len ≤ usb_len
      → P ctx
      → P (deliver on_frame (drop offset mem) msg_len ctx)
  unfolding deliver
  deliver_inv offset msg_len ctx h p = go (rndis_parse_data_packet (drop offset mem) msg_len) refl
    where
      go :
          (r : Option (ℕ × ℕ))
          → rndis_parse_data_packet (drop offset mem) msg_len ≡ r
          → P (deliver on_frame (drop offset mem) msg_len ctx)
      go none e = rw (e, deliver) p
      go (some (s, n)) e =
          let (nonempty, inside, _) =
            rndis_parse_data_packet_bounds (drop offset mem) msg_len s n
              (omega (arith, length-drop offset mem)) e in
          rw (e, deliver, drop-drop) (keep (offset + s) n ctx nonempty (omega arith) p)

  unwrap_from_inv :
      (fuel offset : ℕ) (ctx : S)
      → NoWrap mem usb_len
      → Reached mem usb_len offset
      → usb_len < offset + fuel
      → P ctx
      → (ctx' : S) × (unwrap_from on_frame fuel mem usb_len offset ctx ≡ some ctx') × P ctx'
  unfolding unwrap_from
  unwrap_from_inv zero offset ctx nw r h p = absurd (omega (arith, Reached-le r))
  unwrap_from_inv (suc fuel) offset ctx nw r h p =
      let msg_len = le32_at (drop offset mem) 4 in
      let after = add_u32 offset msg_len in
      elim (Bool-cases (leb (add_u32 offset 8) (usb_len % 2 ^ 32))) [
        | inr done ↦ (ctx, rw done, p)
        | inl more ↦ elim (Bool-cases ((msg_len == 0) || ltb (usb_len % 2 ^ 32) after)) [
          | inl bad ↦ (ctx, rw (more, bad), p)
          | inr good ↦
              let fits : (offset + 8 ≤ usb_len) × (0 < msg_len) × (offset + msg_len ≤ usb_len) =
                ground (arith, nw offset r, Reached-le r) in
              let e : after ≡ offset + msg_len = omega (arith, nw offset r) in
              rw (more, good, e)
                (unwrap_from_inv fuel (offset + msg_len)
                  (deliver on_frame (drop offset mem) msg_len ctx) nw (next r fits.0 fits.2)
                  (omega arith) (deliver_inv offset msg_len ctx fits.2 p))
        ]
      ]

-- The walk over a transfer in which no message length wraps the 32-bit offset ends within its fuel,
-- and it calls the callback only with frames that are not empty and lie wholly inside the received
-- bytes: what every such call preserves holds of the context at the end.
pub rndis_drv_unwrap_data_total :
    {S : Type 0} (on_frame : Bytes → ℕ → S → S) (P : S → Type 0) (mem : Bytes) (usb_len : ℕ)
    (ctx : S)
    → ((k n : ℕ) (c : S) → 0 < n → k + n ≤ usb_len → P c → P (on_frame (drop k mem) n c))
    → usb_len ≤ length mem
    → usb_len < 2 ^ 31
    → NoWrap mem usb_len
    → P ctx
    → (ctx' : S) × (rndis_drv_unwrap_data on_frame mem usb_len ctx ≡ some ctx') × P ctx'
unfolding rndis_drv_unwrap_data
rndis_drv_unwrap_data_total on_frame P mem usb_len ctx keep received small nw p =
    unwrap_from_inv on_frame P mem usb_len keep received small (usb_len + 1) 0 ctx nw start
      (omega arith) p
