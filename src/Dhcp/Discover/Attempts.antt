-- ===== src/Dhcp/Discover/Attempts.antt =====
-- src/dhcp.c: the attempts to receive a frame, the transfers that bring nothing and the one that brings it.
use android_usb_tether_macos.ProtoRndis.Unwrap.{add_u32}
use android_usb_tether_macos.Rndis.RoundTrip.{rndis_parse_data_packet-encode}
use android_usb_tether_macos.Rndis.Build.{data_packet}
use android_usb_tether_macos.ProtoRndis.Unwrap.Frames.{message, length-header, le32_at-message}
use android_usb_tether_macos.Rndis.{sizeof_data_packet, encode_data_packet}
use android_usb_tether_macos.Usb.{Libusb, UsbDevice, usb_recv_bulk}
use android_usb_tether_macos.Dhcp.Discover.{search_message, search_transfer, search_from, attempts}
use android_usb_tether_macos.Wire.{Bytes}
use mathlib.Core.List.{append_assoc}
use android_usb_tether_macos.Prelude.{
  ℕ, Bool, true, false, some, pos, suc, ◌^◌, Option, ◌<◌, ◌≡◌, length, ◌+◌, ◌++◌, refl, ap,
  drop_front, not, arith, ltb, leb, ◌%◌, ◌||◌, ◌==◌, is_positive, ℤ, zero,
}

module _ {S : Type 0} (on_frame : Bytes → ℕ → S → Option (Bool × S)) where
  search_message-message :
      (f rest : Bytes) (s : S)
      → 0 < length f
      → sizeof_data_packet + length f < 2 ^ 31
      → search_message on_frame (message f ++ rest) (sizeof_data_packet + length f) s
        ≡ on_frame (f ++ rest) (length f) s
  unfolding search_message
  search_message-message f rest s h k =
      let header = encode_data_packet (data_packet (length f) (sizeof_data_packet + length f)) in
      let e : message f ++ rest ≡ header ++ (f ++ rest) = append_assoc header f rest in
      rw (e, rndis_parse_data_packet-encode (length f) (f ++ rest) h k, search_message)
        (ap (λ t. on_frame t (length f) s)
          (rw e (drop_front sizeof_data_packet header (f ++ rest) (length-header (length f)))))

  search_from-message :
      (fuel : ℕ) (f rest : Bytes) (s s' : S)
      → 0 < length f
      → sizeof_data_packet + length f < 2 ^ 31
      → on_frame (f ++ rest) (length f) s ≡ some (true, s')
      → search_from on_frame (suc fuel) (message f ++ rest) (sizeof_data_packet + length f) 0 s
        ≡ some (true, s')
  unfolding search_from
  search_from-message fuel f rest s s' h k e =
      let n = sizeof_data_packet + length f in
      let goes_on : (not (leb (add_u32 0 8) (n % 2 ^ 32))
            || ((n == 0) || ltb (n % 2 ^ 32) (add_u32 0 n)))
          ≡ false =
        ground arith in
      rw (le32_at-message f rest k, goes_on, search_message-message f rest s h k, e) refl

  search_transfer-message :
      (f rest : Bytes) (s s' : S)
      → 0 < length f
      → sizeof_data_packet + length f < 2 ^ 31
      → on_frame (f ++ rest) (length f) s ≡ some (true, s')
      → search_transfer on_frame (pos (sizeof_data_packet + length f)) (message f ++ rest) s
        ≡ some (true, s')
  unfolding search_transfer search_from
  search_transfer-message f rest s s' h k e =
      let n = sizeof_data_packet + length f in
      let fuel : n + 1 ≡ suc n = omega arith in
      let received : ltb 0 n ≡ true = ground arith in
      rw (received, fuel) (search_from-message n f rest s s' h k e)

-- A transfer with the frame `f` comes within `n` attempts, after any that bring nothing; `rest` is what the
-- buffer holds behind the message, and `bus'` the bus after the transfer.
pub data Arrives {Bus : Type 0} (usb : Libusb Bus) (dev : UsbDevice) (f rest : Bytes) (bus' : Bus)
    : ℕ → Bytes → Bus → Type 0 where
  at_once :
      {n : ℕ} {buf : Bytes} {bus : Bus}
      → usb_recv_bulk usb dev buf 200 bus
        ≡ (pos (sizeof_data_packet + length f), message f ++ rest, bus')
      → Arrives usb dev f rest bus' (suc n) buf bus
  after_nothing :
      {n : ℕ} {buf : Bytes} {bus : Bus}
      → is_positive (usb_recv_bulk usb dev buf 200 bus).0 ≡ false
      → Arrives usb dev f rest bus' n
          (usb_recv_bulk usb dev buf 200 bus).1
          (usb_recv_bulk usb dev buf 200 bus).2
      → Arrives usb dev f rest bus' (suc n) buf bus

module _ {S : Type 0} (on_frame : Bytes → ℕ → S → Option (Bool × S)) {Bus : Type 0}
    (usb : Libusb Bus) (dev : UsbDevice) where
  search_transfer-nothing :
      (ret : ℤ) (mem : Bytes) (s : S)
      → is_positive ret ≡ false
      → search_transfer on_frame ret mem s ≡ some (false, s)
  unfolding search_transfer
  search_transfer-nothing ret mem s e = rw e refl

  -- The frame that comes, if it is one that is looked for, ends the attempts.
  pub attempts-Arrives :
      (n : ℕ) (buf f rest : Bytes) (s s' : S) (bus bus' : Bus)
      → Arrives usb dev f rest bus' n buf bus
      → 0 < length f
      → sizeof_data_packet + length f < 2 ^ 31
      → on_frame (f ++ rest) (length f) s ≡ some (true, s')
      → attempts on_frame usb dev n buf s bus ≡ some (true, s', message f ++ rest, bus')
  unfolding attempts
  attempts-Arrives zero buf f rest s s' bus bus' never h k e = elim never [ ]
  attempts-Arrives (suc n) buf f rest s s' bus bus' (at_once r) h k e =
      let ret : (usb_recv_bulk usb dev buf 200 bus).0 ≡ pos (sizeof_data_packet + length f) =
        ap (λ t. t.0) r in
      let mem : (usb_recv_bulk usb dev buf 200 bus).1 ≡ message f ++ rest = ap (λ t. t.1) r in
      rw (ret, mem, attempts, search_transfer-message on_frame f rest s s' h k e)
        (ap (λ t. some (true, s', t.1, t.2)) r)
  attempts-Arrives (suc n) buf f rest s s' bus bus' (after_nothing none_came later) h k e =
      rw
        (
          search_transfer-nothing (usb_recv_bulk usb dev buf 200 bus).0
              (usb_recv_bulk usb dev buf 200 bus).1 s none_came,
          attempts,
        )
        (attempts-Arrives n _ f rest s s' _ bus' later h k e)
