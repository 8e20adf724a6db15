-- ===== src/Bridge/Receive/Replies.antt =====
-- The calls that an ARP answer makes in src/main.c, and who owns its buffer and transfer afterwards.
use android_usb_tether_macos.ProtoRndis.Driver.{rndis_drv_wrap_frame}
use android_usb_tether_macos.Arp.{arp_handle_request}
use android_usb_tether_macos.Wire.{Bytes}
use android_usb_tether_macos.Bridge.Receive.{send_reply, answer_arp}
use android_usb_tether_macos.Bridge.{
  System, BridgeCtx, Call, buffer_allocated, buffer_freed, transfer_allocated, transfer_freed,
  after, submitted,
}
use mathlib.Core.List.{append-nil, append_assoc}
use android_usb_tether_macos.Prelude.{
  ◌∷◌, [], inl, inr, List, ◌≡◌, Option-cases, ◌++◌, Bool-cases, is_positive, is_zero, take,
  pos_part, refl,
}

-- The runs of calls that leave no buffer and no transfer behind: what was allocated is freed or was
-- submitted.
pub data Settled : List Call → Type 0 where
  nothing : Settled []
  dropped : Settled (buffer_allocated ∷ buffer_freed ∷ [])
  refused : Settled (buffer_allocated ∷ transfer_allocated ∷ transfer_freed ∷ buffer_freed ∷ [])
  sent : (b : Bytes) → Settled (buffer_allocated ∷ transfer_allocated ∷ submitted b ∷ [])

-- `ctx'` is `ctx` after a settled run of calls and nothing else.
pub record Replied (ctx ctx' : BridgeCtx) : Type 0 where
  pub made : List Call
  pub settled : Settled made
  pub only_calls : ctx' ≡ record ctx { calls = ctx.calls ++ made }

module _ (sys : System) where
  send_reply-Replied : (reply : Bytes) (ctx : BridgeCtx) → Replied ctx (send_reply sys reply ctx)
  unfolding send_reply
  send_reply-Replied reply ctx = elim (Option-cases (sys.malloc ctx.calls)) [
    | inl e ↦ record {
      made = [];
      settled = nothing;
      only_calls = rw (e, send_reply, append-nil) refl;
    }
    | inr (txbuf, e) ↦
        let r = rndis_drv_wrap_frame reply txbuf in
        let ctx1 = after buffer_allocated ctx in
        let ctx2 = after transfer_allocated ctx1 in
        elim (Bool-cases (is_positive r.0)) [
          | inr f ↦ record {
            made = _;
            settled = dropped;
            only_calls =
                rw
                  (
                    e,
                    send_reply,
                    f,
                    append_assoc ctx.calls (buffer_allocated ∷ []) (buffer_freed ∷ []),
                  )
                  refl;
          }
          | inl f ↦ elim (Bool-cases (sys.alloc_transfer ctx1.calls)) [
            | inr g ↦ record {
              made = _;
              settled = dropped;
              only_calls =
                  rw
                    (
                      e,
                      send_reply,
                      f,
                      g,
                      append_assoc ctx.calls (buffer_allocated ∷ []) (buffer_freed ∷ []),
                    )
                    refl;
            }
            | inl g ↦
                elim (Bool-cases
                  (is_zero (sys.submit_transfer (take (pos_part r.0) r.1) ctx2.calls))) [
                    | inr h ↦ record {
                      made = _;
                      settled = refused;
                      only_calls = rw (e, send_reply, f, g, h) (simp append_assoc);
                    }
                    | inl h ↦ record {
                      made = _;
                      settled = sent (take (pos_part r.0) r.1);
                      only_calls = rw (e, send_reply, f, g, h) (simp append_assoc);
                    }
                  ]
          ]
        ]
  ]

  -- An ARP request is answered, or left, by a run of calls that leaves no buffer and no transfer behind,
  -- whichever of its allocations fail, and nothing else of the context changes.
  pub answer_arp-Replied :
      (frame : Bytes) (ctx : BridgeCtx) → Replied ctx (answer_arp sys frame ctx)
  unfolding answer_arp
  answer_arp-Replied frame ctx =
      let r = arp_handle_request frame (sys.abuf ctx.calls) ctx.mac ctx.our_ip_n in
      elim (Bool-cases (is_positive r.0)) [
        | inl e ↦ rw e (send_reply-Replied (take (pos_part r.0) r.1) ctx)
        | inr e ↦ rw e (record { made = []; settled = nothing; only_calls = rw append-nil refl })
      ]
