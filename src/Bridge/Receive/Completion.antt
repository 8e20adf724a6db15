-- ===== src/Bridge/Receive/Completion.antt =====
-- `rx_complete` of src/main.c on every status and every transfer.
use android_usb_tether_macos.ProtoRndis.Unwrap.Walk.{NoWrap, rndis_drv_unwrap_data_total}
use android_usb_tether_macos.Ipc.{dec}
use android_usb_tether_macos.Bridge.Receive.Books.{
  Kept, IsBalanced, Kept-calls, sum_of, resubmissions, sum_of-append, process_rx_frame-Kept,
  buffers_taken, buffers_ended, transfers_taken, transfers_ended, packets_written, bytes_written,
}
use android_usb_tether_macos.Bridge.{BridgeCtx, System, after, halt_cleared, Call, resubmitted}
use android_usb_tether_macos.Wire.{Bytes}
use android_usb_tether_macos.Bridge.Receive.{
  rx_complete, resubmit, TransferStatus, completed, no_device, rx_frame_callback, cancelled, stall,
  timed_out, error, overflow,
}
use android_usb_tether_macos.Prelude.{
  ℕ, ◌∷◌, [], Bool, true, false, some, ◌^◌, ◌+◌, inl, inr, List, Bool-cases, ◌≡◌, ◌&&◌, ◌≤◌, ap,
  refl, ◌⊎◌, length, is_zero, ◌<◌, ltb, ◌++◌, arith, drop, sym, ◌∙◌,
}

-- The transfer, if it completed: its bytes lie in the buffer and no length wraps the offset of the walk.
abbrev pub IsReceived : Bytes → TransferStatus → Type 0
IsReceived buf (completed n) = (n ≤ length buf) × (n < 2 ^ 31) × NoWrap buf n
IsReceived buf no_device = Unit
IsReceived buf cancelled = Unit
IsReceived buf stall = Unit
IsReceived buf timed_out = Unit
IsReceived buf error = Unit
IsReceived buf overflow = Unit

-- The context after a completion: the transfer is in flight again, by one more call, or no longer counted.
pub record Finished (ctx ctx' : BridgeCtx) : Type 0 where
  pub balanced : IsBalanced ctx'
  pub gateway :
      (ctx.gw_mac_learned ≡ false) ⊎ ((ctx'.gw_mac_learned ≡ true) × (ctx'.gw_mac ≡ ctx.gw_mac))
  pub counted :
      ((sum_of resubmissions ctx'.calls ≡ sum_of resubmissions ctx.calls + 1)
        × (ctx'.active_rx ≡ ctx.active_rx)
        × (ctx.running ≡ true))
      ⊎ ((sum_of resubmissions ctx'.calls ≡ sum_of resubmissions ctx.calls)
          × (ctx'.active_rx ≡ dec ctx.active_rx))

IsBalanced-Kept : (ctx : BridgeCtx) → IsBalanced ctx → Kept ctx ctx
IsBalanced-Kept ctx b = record {
  balanced = b;
  gateway = elim (Bool-cases ctx.gw_mac_learned) [ inl e ↦ inr (e, refl) | inr e ↦ inl e ];
  running_eq = refl;
  disconnected_eq = refl;
  active_rx_eq = refl;
  resubmits_eq = refl;
}

module _ (sys : System) (ctx : BridgeCtx) where
  uncounted-Finished :
      (c : BridgeCtx) (running' disconnected' : Bool)
      → Kept ctx c
      → Finished ctx (record c {
        running = running';
        disconnected = disconnected';
        active_rx = dec c.active_rx;
      })
  uncounted-Finished c _ _ k = record {
    balanced = record {
      buffers = k.balanced.buffers;
      transfers = k.balanced.transfers;
      packets = k.balanced.packets;
      bytes = k.balanced.bytes;
    };
    gateway = k.gateway;
    counted = inr (k.resubmits_eq, ap dec k.active_rx_eq);
  }

  resubmit-Finished : (c : BridgeCtx) → Kept ctx c → Finished ctx (resubmit sys c)
  unfolding resubmit
  resubmit-Finished c k = elim (Bool-cases (c.running && sys.g_running c.calls)) [
    | inr e ↦ rw e (uncounted-Finished c c.running c.disconnected k)
    | inl e ↦ elim (Bool-cases (is_zero (sys.resubmit_transfer c.calls))) [
      | inr f ↦ rw (e, f) (uncounted-Finished c c.running c.disconnected k)
      | inl f ↦
          let sums : (f : Call → ℕ)
              → sum_of f (c.calls ++ (resubmitted ∷ [])) ≡ sum_of f c.calls + (f resubmitted + 0) =
            λ f. sum_of-append f c.calls _ in
          let b = k.balanced in
          rw (e, f)
            (record {
              balanced = record {
                buffers = omega (arith, sums buffers_taken, sums buffers_ended, b.buffers);
                transfers = omega (arith, sums transfers_taken, sums transfers_ended, b.transfers);
                packets = omega (arith, sums packets_written, b.packets);
                bytes = omega (arith, sums bytes_written, b.bytes);
              };
              gateway = k.gateway;
              counted = inl (
                omega (arith, sums resubmissions, k.resubmits_eq),
                k.active_rx_eq,
                sym k.running_eq ∙ ground arith,
              );
            })
    ]
  ]

  halt_cleared-Kept : IsBalanced ctx → Kept ctx (after halt_cleared ctx)
  halt_cleared-Kept b =
      Kept-calls ctx ctx (halt_cleared ∷ [])
        (record {
          buffers = refl;
          transfers = refl;
          packets = refl;
          bytes = refl;
          resubmits = refl;
        })
        (IsBalanced-Kept ctx b)

-- Whatever the status and the bytes of a transfer, if no message length in it wraps the offset of the
-- walk, its completion is handled to the end; every buffer and transfer allocated for it is freed or with
-- libusb, the packet and byte counters tell what the Mac got, a gateway address that was learned stays,
-- and the transfer either is in flight again, while the bridge runs, or is no longer counted in `active_rx`.
pub rx_complete-Finished :
    (sys : System) (buf : Bytes) (status : TransferStatus) (ctx : BridgeCtx)
    → IsReceived buf status
    → ((cs : List Call) → length (sys.tbuf cs) ≡ 2304)
    → IsBalanced ctx
    → (ctx' : BridgeCtx) × (rx_complete sys buf status ctx ≡ some ctx') × Finished ctx ctx'
unfolding rx_complete
rx_complete-Finished sys buf (completed n) ctx h size b = elim (Bool-cases (ltb 0 n)) [
  | inr e ↦ (_, rw e refl, resubmit-Finished sys ctx ctx (IsBalanced-Kept ctx b))
  | inl e ↦
      let (c, eq, k) =
        rndis_drv_unwrap_data_total (rx_frame_callback sys) (Kept ctx) buf n ctx
          (λ i m d nonempty inside p.
            process_rx_frame-Kept sys ctx (drop i buf) m d (omega (arith, h.1)) size p)
          h.0 h.1 h.2 (IsBalanced-Kept ctx b) in
      (resubmit sys c, rw (e, eq) refl, resubmit-Finished sys ctx c k)
]
rx_complete-Finished sys buf no_device ctx h size b =
    (_, refl, uncounted-Finished sys ctx ctx false true (IsBalanced-Kept ctx b))
rx_complete-Finished sys buf cancelled ctx h size b =
    (_, refl, uncounted-Finished sys ctx ctx ctx.running ctx.disconnected (IsBalanced-Kept ctx b))
rx_complete-Finished sys buf stall ctx h size b =
    (_, refl, resubmit-Finished sys ctx _ (halt_cleared-Kept sys ctx b))
rx_complete-Finished sys buf timed_out ctx h size b =
    (_, refl, resubmit-Finished sys ctx ctx (IsBalanced-Kept ctx b))
rx_complete-Finished sys buf error ctx h size b =
    (_, refl, resubmit-Finished sys ctx ctx (IsBalanced-Kept ctx b))
rx_complete-Finished sys buf overflow ctx h size b =
    (_, refl, resubmit-Finished sys ctx ctx (IsBalanced-Kept ctx b))
